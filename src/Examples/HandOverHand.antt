-- ===== src/Examples/HandOverHand.antt =====
-- A swap and a traversal on a list of two strings, with shared locks.
use mathlib.Core.List.{Perm}
use operation_systems.Base.{
  ℕ, ◌≤◌, ◌≡◌, ◌≢◌, refl, sym, ap, subst, ◌⊎◌, inl, inr, zero, suc, Bool, true, false, List, [],
  ◌∷◌, none, some, arith, ltb,
}
use operation_systems.Base.Store.{update}
use operation_systems.Storage.{Storage}
use operation_systems.Storage.Links.{Holds}
use operation_systems.Storage.Threads.{
  Pc, idle, deciding, unlocking3, visit_first, Act, acted, moved, silent, locks, writes, SwapMove,
  TraverseMove, System, Granted, swaps, traverses, Reach, start, later,
}
use operation_systems.Storage.Threads.Invariant.{halfway}
use operation_systems.Storage.Threads.Safety.{list_kept}

abbrev strings : List (ℕ × List ℕ)
strings = (5, []) ∷ (6, 97 ∷ 98 ∷ []) ∷ (7, 99 ∷ []) ∷ []

abbrev storage : Storage
storage = record {
  first = 5;
  count = 2;
  nodes =
      update
        (update (update (λ _. none) 5 (some (record { value = []; next = some 6 }))) 6
          (some (record { value = 97 ∷ 98 ∷ []; next = some 7 })))
        7 (some (record { value = 99 ∷ []; next = none }));
}

storage-Holds : Holds storage strings
storage-Holds = record { at_first = refl; linked = (refl, (refl, (refl, tt))); apart = refl }

-- Each thread swaps by `pred_greater`.
abbrev need : ℕ → ℕ → ℕ → Bool
need i a b = ltb b a

-- Thread 1 waits to begin a traversal, and thread 0 goes on.
abbrev Reaches : Storage → Pc → Type 0
Reaches st p =
    (s : System) × Reach 2 true need storage s
    × (s.storage ≡ st)
    × (s.pc 0 ≡ p)
    × (s.pc 1 ≡ visit_first 5)
    × ((j : ℕ) → 2 ≤ j → s.pc j ≡ idle)

begun : Reaches storage idle
begun = (
  _,
  later start 1 (traverses idle silent (visit_first 5) (omega arith) refl TraverseMove.begin tt),
  refl,
  refl,
  refl,
  λ j h. ground (arith, h),
)

-- No thread but thread 0 has a lock.
one_or_more : (j : ℕ) → j ≢ 0 → (j ≡ 1) ⊎ (2 ≤ j)
one_or_more zero ne = absurd (ne refl)
one_or_more (suc zero) ne = inl refl
one_or_more (suc (suc j)) ne = inr (omega arith)

alone :
    (s : System)
    → s.pc 1 ≡ visit_first 5
    → ((j : ℕ) → 2 ≤ j → s.pc j ≡ idle)
    → (a : ℕ) → Granted true s 0 (locks a)
alone s one others a j ne has = elim j_cases [
  | inl e ↦ ground (arith, e, one, has)
  | inr h ↦ ground (arith, others j h, has)
]
  where
    j_cases : (j ≡ 1) ⊎ (2 ≤ j)
    j_cases = one_or_more j ne

turn :
    {st : Storage} {p q : Pc} (act : Act)
    → Reaches st p
    → SwapMove (need 0) st p act q
    → Reaches (acted act st) q
turn {st} {p} {q} act (s, r, same, zero_at, one, others) mv = (
  moved s 0 act q,
  later r 0 (
      swaps p act q (omega arith) zero_at
        (subst (λ (x : Storage). SwapMove (need 0) x p act q) (sym same) mv) (granted act)),
  ap (acted act) same,
  refl,
  one,
  λ j h. ground (arith, others j h, h),
)
  where
    granted : (a : Act) → Granted true s 0 a
    granted silent = tt
    granted (locks x) = alone s one others x
    granted (writes x m) = tt

deciding_swap : Reaches storage (deciding 5 6 7)
deciding_swap =
    let s1 = turn silent begun (SwapMove.call 0 (omega arith) (omega arith)) in
    let s2 = turn (locks 5) s1 SwapMove.lock_first in
    let s3 = turn silent s2 (SwapMove.read_first refl) in
    let s4 = turn (locks 6) s3 SwapMove.lock_second in
    let s5 = turn silent s4 SwapMove.walked in
    let s6 = turn silent s5 (SwapMove.read_third refl) in turn (locks 7) s6 SwapMove.lock_third

swapped : (st : Storage) × Reaches st (unlocking3 5 6 7)
swapped =
    let s1 = turn (writes 5 (some 7)) deciding_swap (SwapMove.write_prev refl refl refl) in
    let s2 = turn (writes 6 none) s1 (SwapMove.write_a refl) in
    (_, turn (writes 7 (some 6)) s2 SwapMove.write_b)

whole : (i : ℕ) → halfway (swapped.1.0.pc i) ≡ false
whole zero = ground (arith, swapped.1.3)
whole (suc zero) = ground (arith, swapped.1.4)
whole (suc (suc i)) = ground (arith, swapped.1.5 (suc (suc i)))

list_kept_example :
    (swapped.1.0.storage.first ≡ 5)
    × (swapped.1.0.storage.count ≡ 2)
    × ((q : List (ℕ × List ℕ)) × Holds swapped.1.0.storage q × Perm q strings)
list_kept_example = list_kept storage-Holds swapped.1.1 whole
