-- ===== src/Storage/Threads/Writes.antt =====
-- The three writes of a swap keep the invariant.
use mathlib.Core.List.Perm
use operation_systems.Base.{
  ℕ, ◌<◌, ◌≡◌, ◌≢◌, refl, sym, ◌∙◌, ap, subst, ◌⊎◌, inl, inr, Bool, true, false, List, [], ◌∷◌,
  Option, none, some, arith, ◌==◌, Bool-cases,
}
use operation_systems.Base.Store.{update_ne, contains}
use operation_systems.Storage.{Node, Storage, set_next, with_next, next_of, relink}
use operation_systems.Storage.Threads.{
  deciding, relinked1, relinked2, unlocking3, next_at, next_at_node, System,
}
use operation_systems.Storage.Relink.{relink_ne, relink_prev, relink_first, relink_second}
use operation_systems.Storage.Threads.Relink.{relinked}
use operation_systems.Storage.Threads.Rank.{rank, rank-next_at, ne_of_next_at}
use operation_systems.Storage.Threads.Invariant.{Chained, Written, Inv}
use operation_systems.Storage.Threads.Writing.{Writes}

set_next_self :
    (nd : ℕ → Option Node) (a : ℕ) (m : Option ℕ) → set_next nd a m a ≡ with_next m (nd a)
set_next_self nd a m = ground arith

set_next_ne :
    (nd : ℕ → Option Node) (a : ℕ) (m : Option ℕ) (x : ℕ) → a ≢ x → set_next nd a m x ≡ nd x
set_next_ne nd a m x h = update_ne nd a (with_next m (nd a)) x h

not_among : (p a b x : ℕ) → contains x (p ∷ a ∷ b ∷ []) ≡ false → (p ≢ x) × (a ≢ x) × (b ≢ x)
not_among p a b x h = (λ e. ground (arith, e), λ e. ground (arith, e), λ e. ground (arith, e))

among : (p a b x : ℕ) → contains x (p ∷ a ∷ b ∷ []) ≡ true → (p ≡ x) ⊎ (a ≡ x) ⊎ (b ≡ x)
among p a b x h = elim (Bool-cases (p == x)) [
  | inl at ↦ inl (ground (arith, at))
  | inr off ↦ elim (Bool-cases (a == x)) [
    | inl at ↦ inr (inl (ground (arith, at)))
    | inr off' ↦ inr (inr (ground (arith, h, off, off')))
  ]
]

link_read : (x : Option Node) (m : Option ℕ) → next_at_node x ≡ some m → m ≡ next_of x
link_read none m h = ground (arith, h)
link_read (some x) m h = ground (arith, h)

-- The three nodes of a swap, which stand in the list one behind the other.
module _ {n : ℕ} {shared : Bool} {storage : Storage} {list₀ : List (ℕ × List ℕ)} {s : System}
    (inv : Inv n shared storage list₀ s) (p a b : ℕ)
    (in_order : Chained inv.old inv.list (p ∷ a ∷ b ∷ [])) where
  apart_pa : p ≢ a
  apart_pa =
      let (in_p, to_a, _) = in_order in
      ne_of_next_at inv.old inv.list p a inv.linked inv.distinct_nodes in_p to_a

  apart_ab : a ≢ b
  apart_ab =
      let (_, _, (in_a, to_b, _)) = in_order in
      ne_of_next_at inv.old inv.list a b inv.linked inv.distinct_nodes in_a to_b

  apart_pb : p ≢ b
  apart_pb same =
      let (in_p, to_a, (in_a, to_b, _)) = in_order in
      let first = rank-next_at inv.old inv.list p a inv.linked inv.distinct_nodes in_p to_a in
      let second = rank-next_at inv.old inv.list a b inv.linked inv.distinct_nodes in_a to_b in
      let looped =
        subst (λ (c : ℕ). rank inv.list c < rank inv.list p) (sym same)
          (omega (arith, first, second)) in
      omega (arith, looped)

  pub write_prev-Writes :
      ((x : ℕ) → contains x (p ∷ a ∷ b ∷ []) ≡ true → s.storage.nodes x ≡ inv.old x)
      → Writes inv (deciding p a b) (relinked1 p a b) (set_next s.storage.nodes p (some b))
  write_prev-Writes sees = record {
    old = inv.old;
    list = inv.list;
    linked = inv.linked;
    distinct_nodes = inv.distinct_nodes;
    same_head = refl;
    perm = Perm.refl inv.list;
    members = λ j. refl;
    spared = λ x h. refl;
    spared_nodes =
        λ x h. let (np, _, _) = not_among p a b x h in set_next_ne s.storage.nodes p (some b) x np;
    same_held = refl;
    writer = refl;
    writer_behind = refl;
    chained = in_order;
    written = (
      set_next_self s.storage.nodes p (some b) ∙ ap (with_next (some b)) (sees p (ground arith)),
      set_next_ne s.storage.nodes p (some b) a apart_pa ∙ sees a (ground arith),
      set_next_ne s.storage.nodes p (some b) b apart_pb ∙ sees b (ground arith),
    );
    settled = λ x h whole. ground (arith, whole);
  }

  pub write_a-Writes :
      (m : Option ℕ)
      → next_at s.storage.nodes b ≡ some m
      → Written s.storage.nodes inv.old (relinked1 p a b)
      → Writes inv (relinked1 p a b) (relinked2 p a b) (set_next s.storage.nodes a m)
  write_a-Writes m e (wp, wa, wb) = record {
    old = inv.old;
    list = inv.list;
    linked = inv.linked;
    distinct_nodes = inv.distinct_nodes;
    same_head = refl;
    perm = Perm.refl inv.list;
    members = λ j. refl;
    spared = λ x h. refl;
    spared_nodes =
        λ x h. let (_, na, _) = not_among p a b x h in set_next_ne s.storage.nodes a m x na;
    same_held = refl;
    writer = refl;
    writer_behind = refl;
    chained = in_order;
    written = (
      set_next_ne s.storage.nodes a m p (λ e. apart_pa (sym e)) ∙ wp,
      set_next_self s.storage.nodes a m
          ∙ ap (with_next m) wa
          ∙ ap (λ (l : Option ℕ). with_next l (inv.old a))
              (link_read (s.storage.nodes b) m e ∙ ap next_of wb),
      set_next_ne s.storage.nodes a m b apart_ab ∙ wb,
    );
    settled = λ x h whole. ground (arith, whole);
  }

  -- The heap behind the third write is the one of the whole swap.
  relink_read :
      (x : ℕ)
      → (p ≡ x) ⊎ (a ≡ x) ⊎ (b ≡ x)
      → Written s.storage.nodes inv.old (relinked2 p a b)
      → set_next s.storage.nodes b (some a) x ≡ relink inv.old p a b x
  relink_read x (inl e) (wp, wa, wb) =
      subst (λ (c : ℕ). set_next s.storage.nodes b (some a) c ≡ relink inv.old p a b c) e
        (set_next_ne s.storage.nodes b (some a) p (λ e. apart_pb (sym e))
          ∙ wp
          ∙ sym (relink_prev inv.old p a b apart_pa apart_pb apart_ab))
  relink_read x (inr (inl e)) (wp, wa, wb) =
      subst (λ (c : ℕ). set_next s.storage.nodes b (some a) c ≡ relink inv.old p a b c) e
        (set_next_ne s.storage.nodes b (some a) a (λ e. apart_ab (sym e))
          ∙ wa
          ∙ sym (relink_first inv.old p a b apart_pa apart_pb apart_ab))
  relink_read x (inr (inr e)) (wp, wa, wb) =
      subst (λ (c : ℕ). set_next s.storage.nodes b (some a) c ≡ relink inv.old p a b c) e
        (set_next_self s.storage.nodes b (some a)
          ∙ ap (with_next (some a)) wb
          ∙ sym (relink_second inv.old p a b apart_pa apart_pb apart_ab))

  -- With the last write the swap takes effect on the list.
  pub write_b-Writes :
      Written s.storage.nodes inv.old (relinked2 p a b)
      → Writes inv (relinked2 p a b) (unlocking3 p a b) (set_next s.storage.nodes b (some a))
  write_b-Writes (wp, wa, wb) =
      let (in_p, to_a, (in_a, to_b, _)) = in_order in
      let r = relinked inv.old p a b to_a to_b inv.list inv.linked inv.distinct_nodes in_p in
      record {
        old = relink inv.old p a b;
        list = r.list;
        linked = r.linked;
        distinct_nodes = r.apart;
        same_head = r.same_head;
        perm = r.perm;
        members = r.members;
        spared =
            λ x h. let (np, na, nb) = not_among p a b x h in relink_ne inv.old p a b x np na nb;
        spared_nodes = λ x h.
            let (_, _, nb) = not_among p a b x h in set_next_ne s.storage.nodes b (some a) x nb;
        same_held = refl;
        writer = refl;
        writer_behind = refl;
        chained = tt;
        written = tt;
        settled = λ x h whole. relink_read x (among p a b x h) (wp, wa, wb);
      }
