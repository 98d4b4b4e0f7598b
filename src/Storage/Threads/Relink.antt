-- ===== src/Storage/Threads/Relink.antt =====
-- A swap of neighbours anywhere in the list.
use mathlib.Core.List.{Perm}
use mathlib.Core.List.Perm
use operation_systems.Base.{
  ℕ, ◌≡◌, refl, sym, ap, subst, ◌∙◌, inl, inr, Bool, true, ◌||◌, List, [], ◌∷◌, Option, some, arith,
  ◌==◌, Bool-cases,
}
use operation_systems.Base.Store.{contains, distinct, distinct-cons, ne_of_contains}
use operation_systems.Storage.{Node, relink}
use operation_systems.Storage.Links.{addresses, head_of, Linked}
use operation_systems.Storage.Relink.{relink_ne, relink-Linked}
use operation_systems.Storage.Threads.{next_at}

-- The list behind the writes, of the same nodes with their strings, and with the same first node.
pub record Relinked (nd : ℕ → Option Node) (p a b : ℕ) (q : List (ℕ × List ℕ)) : Type 0 where
  pub list : List (ℕ × List ℕ)
  pub linked : Linked (relink nd p a b) list
  pub same_head : head_of list ≡ head_of q
  pub perm : Perm list q
  pub members : (j : ℕ) → contains j (addresses list) ≡ contains j (addresses q)
  pub apart : distinct (addresses list) ≡ true

-- The link of a node of the list leads to a node of the list.
pub contains-next_at :
    (nd : ℕ → Option Node) (q : List (ℕ × List ℕ)) (p a : ℕ)
    → Linked nd q
    → contains p (addresses q) ≡ true
    → next_at nd p ≡ some (some a)
    → contains a (addresses q) ≡ true
contains-next_at nd [] p a l h e = ground (arith, h)
contains-next_at nd ((x, v) ∷ []) p a (lx, l) h e = ground (arith, lx, h, e)
contains-next_at nd ((x, v) ∷ (y, w) ∷ q) p a (lx, l) h e = elim (Bool-cases (x == p)) [
  | inl at ↦ ground (arith, lx, at, e)
  | inr off ↦
      let in_rest = contains-next_at nd ((y, w) ∷ q) p a l (ground (arith, h, off)) e in
      ground (arith, in_rest)
]

distinct_swap :
    (p a b : ℕ) (q : List ℕ) → distinct (p ∷ a ∷ b ∷ q) ≡ true → distinct (p ∷ b ∷ a ∷ q) ≡ true
distinct_swap p a b q d = ground (arith, d)

module _ (nd : ℕ → Option Node) (p a b : ℕ) (to_a : next_at nd p ≡ some (some a))
    (to_b : next_at nd a ≡ some (some b)) where
  Relinked-here :
      (v : List ℕ) (y : ℕ) (w : List ℕ) (z : ℕ) (u : List ℕ) (r : List (ℕ × List ℕ))
      → y ≡ a
      → z ≡ b
      → Linked nd ((p, v) ∷ (y, w) ∷ (z, u) ∷ r)
      → distinct (p ∷ y ∷ z ∷ addresses r) ≡ true
      → Relinked nd p a b ((p, v) ∷ (y, w) ∷ (z, u) ∷ r)
  Relinked-here v y w z u r ya zb l d = record {
    list = (p, v) ∷ (z, u) ∷ (y, w) ∷ r;
    linked =
        subst (λ (e : ℕ). Linked (relink nd p a e) ((p, v) ∷ (z, u) ∷ (y, w) ∷ r)) zb
          (subst (λ (e : ℕ). Linked (relink nd p e z) ((p, v) ∷ (z, u) ∷ (y, w) ∷ r)) ya
            (relink-Linked nd p v y w z u r l d));
    same_head = refl;
    perm = Perm.cons (p, v) (Perm.swap (y, w) (z, u) r);
    members = λ j. ground arith;
    apart = distinct_swap p y z (addresses r) d;
  }

  -- The nodes in front stay as they are.
  Relinked-behind :
      (x : ℕ) (v : List ℕ) (q : List (ℕ × List ℕ))
      → Linked nd ((x, v) ∷ q)
      → distinct (x ∷ addresses q) ≡ true
      → contains p (addresses q) ≡ true
      → Relinked nd p a b q
      → Relinked nd p a b ((x, v) ∷ q)
  Relinked-behind x v q (lx, l) d h r =
      let (new, rest) = distinct-cons x (addresses q) d in
      let in_a = contains-next_at nd q p a l h to_a in
      let in_b = contains-next_at nd q a b l in_a to_b in
      record {
        list = (x, v) ∷ r.list;
        linked = (
          relink_ne nd p a b x (λ e. ne_of_contains x p (addresses q) new h (sym e))
                (λ e. ne_of_contains x a (addresses q) new in_a (sym e))
                (λ e. ne_of_contains x b (addresses q) new in_b (sym e))
              ∙ lx
              ∙ ap (λ (o : Option ℕ). some (record { value = v; next = o })) (sym r.same_head),
          r.linked,
        );
        same_head = refl;
        perm = Perm.cons (x, v) r.perm;
        members = λ j. ap (λ (c : Bool). (x == j) || c) (r.members j);
        apart = ground (arith, r.members x, new, r.apart);
      }

  pub relinked :
      (q : List (ℕ × List ℕ))
      → Linked nd q
      → distinct (addresses q) ≡ true
      → contains p (addresses q) ≡ true
      → Relinked nd p a b q
  relinked [] l d h = ground (arith, h)
  relinked ((x, v) ∷ []) (lx, l) d h = ground (arith, lx, h, to_a)
  relinked ((x, v) ∷ (y, w) ∷ []) (lx, (ly, l)) d h = ground (arith, lx, ly, h, to_a, to_b)
  relinked ((x, v) ∷ (y, w) ∷ (z, u) ∷ r) (lx, (ly, l)) d h = elim (Bool-cases (x == p)) [
    | inl at ↦
        let here : x ≡ p = ground (arith, at) in
        let second : y ≡ a = ground (arith, lx, at, to_a) in
        let third : z ≡ b = ground (arith, ly, lx, at, to_a, to_b) in
        subst (λ (e : ℕ). Relinked nd p a b ((e, v) ∷ (y, w) ∷ (z, u) ∷ r)) (sym here)
          (Relinked-here v y w z u r second third
            (subst (λ (e : ℕ). Linked nd ((e, v) ∷ (y, w) ∷ (z, u) ∷ r)) here (lx, (ly, l)))
            (subst (λ (e : ℕ). distinct (e ∷ y ∷ z ∷ addresses r) ≡ true) here d))
    | inr off ↦
        let (_, rest) = distinct-cons x (y ∷ z ∷ addresses r) d in
        let in_rest : contains p (y ∷ z ∷ addresses r) ≡ true = ground (arith, h, off) in
        Relinked-behind x v ((y, w) ∷ (z, u) ∷ r) (lx, (ly, l)) d in_rest
          (relinked ((y, w) ∷ (z, u) ∷ r) (ly, l) rest in_rest)
  ]
