-- ===== src/Storage/Swap.antt =====
-- `do_random_swap` against a swap of neighbours in a list.
use operation_systems.Base.{
  ℕ, zero, suc, ◌-◌, ◌%◌, ◌≤◌, ◌≡◌, refl, Bool, true, false, ◌||◌, ◌==◌, List, [], ◌∷◌, Option,
  none, some, arith, length, if◌then◌else◌, sym, subst, inl, inr, Bool-cases, if_true, if_false,
  ◌∙◌, ap,
}
use mathlib.Core.List.{Perm}
use mathlib.Core.List.Perm
use operation_systems.Base.Store.{contains, distinct, distinct-cons}
use operation_systems.Storage.{
  Node, Storage, Outcome, unchanged, fault, swapped, walk, relink, swap_pair, swap_from,
  do_random_swap,
}
use operation_systems.Storage.Relink.{relink_outside, relink-Linked}
use operation_systems.Storage.Links.{addresses, Linked, Holds}

-- The list whose elements `i` and `i + 1`, or the last two, are swapped if their lengths ask for it.
unfoldable pub swap_list {ℓ} : {A : Type ℓ} → (A → A → Bool) → ℕ → List A → List A
swap_list need i [] = []
swap_list need i (x ∷ []) = x ∷ []
swap_list need zero (x ∷ y ∷ q) = if need x y then y ∷ x ∷ q else x ∷ y ∷ q
swap_list need (suc i) (x ∷ y ∷ q) = x ∷ swap_list need i (y ∷ q)

swap_list-Perm {ℓ} :
    {A : Type ℓ} (need : A → A → Bool) (i : ℕ) (xs : List A) → Perm (swap_list need i xs) xs
unfolding swap_list
swap_list-Perm need i [] = Perm.refl []
swap_list-Perm need i (x ∷ []) = Perm.refl (x ∷ [])
swap_list-Perm need zero (x ∷ y ∷ q) = elim (Bool-cases (need x y)) [
  | inl asked ↦
      subst (λ l. Perm l (x ∷ y ∷ q)) (if_true (y ∷ x ∷ q) (x ∷ y ∷ q) asked) (Perm.swap x y q)
  | inr kept ↦
      subst (λ l. Perm l (x ∷ y ∷ q)) (if_false (y ∷ x ∷ q) (x ∷ y ∷ q) kept)
        (Perm.refl (x ∷ y ∷ q))
]
swap_list-Perm need (suc i) (x ∷ y ∷ q) = Perm.cons x (swap_list-Perm need i (y ∷ q))

abbrev pub by_length : (ℕ → ℕ → Bool) → ℕ × List ℕ → ℕ × List ℕ → Bool
by_length need (a, v) (b, w) = need (length v) (length w)

-- The storage behind a call; none if the call met a node that is not live.
abbrev pub after : Storage → Outcome → Option Storage
after s unchanged = some s
after s fault = none
after s (swapped t) = some t

-- A call that worked from `prev` on leaves this list behind `prev`, and all else as it is.
record Swaps (s : Storage) (o : Outcome) (p : ℕ) (vp : List ℕ) (old q : List (ℕ × List ℕ))
    : Type 0 where
  nodes : ℕ → Option Node
  result : after s o ≡ some (record s { nodes = nodes })
  linked : Linked nodes ((p, vp) ∷ q)
  outside : (j : ℕ) → contains j (p ∷ addresses old) ≡ false → nodes j ≡ s.nodes j

swap_pair-Swaps :
    (need : ℕ → ℕ → Bool) (s : Storage) (p : ℕ) (vp : List ℕ) (a : ℕ) (va : List ℕ)
    (q : List (ℕ × List ℕ))
    → Linked s.nodes ((p, vp) ∷ (a, va) ∷ q)
    → distinct (p ∷ a ∷ addresses q) ≡ true
    → Swaps s (swap_pair need s p a) p vp ((a, va) ∷ q) (swap_list (by_length need) 0 ((a, va) ∷ q))
unfolding swap_list
swap_pair-Swaps need s p vp a va [] l d = record {
  nodes = s.nodes;
  result = ground (arith, l);
  linked = l;
  outside = λ j h. refl;
}
swap_pair-Swaps need s p vp a va ((b, vb) ∷ r) (lp, (la, (lb, rest))) d =
    elim (Bool-cases (need (length va) (length vb))) [
      | inl asked ↦ record {
        nodes = relink s.nodes p a b;
        result = ground (arith, la, lb, asked);
        linked =
            subst (λ (l : List (ℕ × List ℕ)). Linked (relink s.nodes p a b) ((p, vp) ∷ l))
              (if_true ((b, vb) ∷ (a, va) ∷ r) ((a, va) ∷ (b, vb) ∷ r) asked)
              (relink-Linked s.nodes p vp a va b vb r (lp, (la, (lb, rest))) d);
        outside = λ j h. relink_outside s.nodes p a b (addresses r) j h;
      }
      | inr kept ↦ record {
        nodes = s.nodes;
        result = ground (arith, la, lb, kept);
        linked =
            subst (λ (l : List (ℕ × List ℕ)). Linked s.nodes ((p, vp) ∷ l))
              (if_false ((b, vb) ∷ (a, va) ∷ r) ((a, va) ∷ (b, vb) ∷ r) kept)
              (lp, (la, (lb, rest)));
        outside = λ j h. refl;
      }
    ]

-- The list behind the nodes that the loop has left behind.
Swaps-step :
    (s : Storage) (o : Outcome) (p : ℕ) (vp : List ℕ) (a : ℕ) (va : List ℕ) (b : ℕ) (vb : List ℕ)
    (r q : List (ℕ × List ℕ))
    → s.nodes p ≡ some (record { value = vp; next = some a })
    → distinct (p ∷ a ∷ b ∷ addresses r) ≡ true
    → Swaps s o a va ((b, vb) ∷ r) q
    → Swaps s o p vp ((a, va) ∷ (b, vb) ∷ r) ((a, va) ∷ q)
Swaps-step s o p vp a va b vb r q lp d w = record {
  nodes = w.nodes;
  result = w.result;
  linked = (w.outside p (ground (arith, d)) ∙ lp, w.linked);
  outside = λ j h. w.outside j (ground (arith, h));
}

swap_from_next :
    (need : ℕ → ℕ → Bool) (s : Storage) (i p a : ℕ) (va : List ℕ) (b : ℕ)
    → s.nodes a ≡ some (record { value = va; next = some b })
    → swap_from need s (suc i) p a ≡ swap_from need s i a b
unfolding walk
swap_from_next need s i p a va b la = ground (arith, la)

swap_from-Swaps :
    (need : ℕ → ℕ → Bool) (s : Storage) (i p : ℕ) (vp : List ℕ) (a : ℕ) (va : List ℕ)
    (q : List (ℕ × List ℕ))
    → Linked s.nodes ((p, vp) ∷ (a, va) ∷ q)
    → distinct (p ∷ a ∷ addresses q) ≡ true
    → Swaps s
        (swap_from need s i p a)
        p
        vp
        ((a, va) ∷ q)
        (swap_list (by_length need) i ((a, va) ∷ q))
unfolding swap_list walk
swap_from-Swaps need s zero p vp a va q l d = swap_pair-Swaps need s p vp a va q l d
swap_from-Swaps need s (suc i) p vp a va [] (lp, (la, rest)) d = record {
  nodes = s.nodes;
  result = ground (arith, la);
  linked = (lp, (la, rest));
  outside = λ j h. refl;
}
swap_from-Swaps need s (suc i) p vp a va ((b, vb) ∷ r) (lp, rest) d =
    let (la, _) = rest in
    let (_, da) = distinct-cons p (a ∷ b ∷ addresses r) d in
    let w = swap_from-Swaps need s i a va b vb r rest da in
    subst
      (λ (o : Outcome).
        Swaps s o p vp ((a, va) ∷ (b, vb) ∷ r)
          ((a, va) ∷ swap_list (by_length need) i ((b, vb) ∷ r)))
      (sym (swap_from_next need s i p a va b la))
      (Swaps-step s (swap_from need s i a b) p vp a va b vb r _ lp d w)

distinct_of_parts :
    (a : ℕ) (q : List ℕ) → contains a q ≡ false → distinct q ≡ true → distinct (a ∷ q) ≡ true
distinct_of_parts a q new d = ground (arith, new, d)

contains-swap_list :
    (need : ℕ × List ℕ → ℕ × List ℕ → Bool) (i j : ℕ) (q : List (ℕ × List ℕ))
    → contains j (addresses (swap_list need i q)) ≡ contains j (addresses q)
unfolding swap_list
contains-swap_list need i j [] = refl
contains-swap_list need i j (x ∷ []) = refl
contains-swap_list need zero j ((a, v) ∷ (b, w) ∷ q) = ground arith
contains-swap_list need (suc i) j ((a, v) ∷ y ∷ q) =
    ap (λ (c : Bool). (a == j) || c) (contains-swap_list need i j (y ∷ q))

distinct-swap_list :
    (need : ℕ × List ℕ → ℕ × List ℕ → Bool) (i : ℕ) (q : List (ℕ × List ℕ))
    → distinct (addresses q) ≡ true
    → distinct (addresses (swap_list need i q)) ≡ true
unfolding swap_list
distinct-swap_list need i [] d = d
distinct-swap_list need i (x ∷ []) d = d
distinct-swap_list need zero ((a, v) ∷ (b, w) ∷ q) d = ground (arith, d)
distinct-swap_list need (suc i) ((a, v) ∷ (b, w) ∷ q) d =
    let (new, rest) = distinct-cons a (b ∷ addresses q) d in
    distinct_of_parts a (addresses (swap_list need i ((b, w) ∷ q)))
      (contains-swap_list need i a ((b, w) ∷ q) ∙ new) (distinct-swap_list need i ((b, w) ∷ q) rest)

do_random_swap_from :
    (need : ℕ → ℕ → Bool) (s : Storage) (draw h : ℕ) (v : List ℕ) (a : ℕ)
    → 2 ≤ s.count
    → some h ≡ some s.first
    → s.nodes h ≡ some (record { value = v; next = some a })
    → do_random_swap need s draw ≡ swap_from need s (draw % (s.count - 1)) h a
unfolding do_random_swap
do_random_swap_from need s draw h v a two at l = ground (arith, two, at, l)

-- On a storage whose count is at least 2 and whose nodes are linked, `do_random_swap` meets no node
-- that is not live. It leaves the nodes linked, with their strings: the first is the same, and the
-- others are those of before with two neighbours swapped, the ones that the draw selects, if their
-- lengths ask for it. No node is lost and none stands there twice.
pub do_random_swap_lem :
    (need : ℕ → ℕ → Bool) (s : Storage) (draw : ℕ) (head : ℕ × List ℕ) (q : List (ℕ × List ℕ))
    → 2 ≤ s.count
    → Holds s (head ∷ q)
    → (t : Storage) × (after s (do_random_swap need s draw) ≡ some t)
      × Holds t (head ∷ swap_list (by_length need) (draw % (s.count - 1)) q)
      × (t.count ≡ s.count)
      × Perm (swap_list (by_length need) (draw % (s.count - 1)) q) q
unfolding do_random_swap walk swap_list
do_random_swap_lem need s draw (h, vh) [] two holds =
    (s, ground (arith, holds.at_first, holds.linked), holds, refl, Perm.refl [])
do_random_swap_lem need s draw (h, vh) ((a, va) ∷ q) two holds =
    let i = draw % (s.count - 1) in
    let w = swap_from-Swaps need s i h vh a va q holds.linked holds.apart in
    (
      record s { nodes = w.nodes },
      ap (after s) (
            do_random_swap_from need s draw h vh a two holds.at_first
              (let (l, _) = holds.linked in l))
          ∙ w.result,
      record {
        at_first = holds.at_first;
        linked = w.linked;
        apart = distinct-swap_list (by_length need) (suc i) ((h, vh) ∷ (a, va) ∷ q) holds.apart;
      },
      refl,
      swap_list-Perm (by_length need) i ((a, va) ∷ q),
    )
