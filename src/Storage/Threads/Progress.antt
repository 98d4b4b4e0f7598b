-- ===== src/Storage/Threads/Progress.antt =====
-- No deadlock: the locks are taken in the order of the list, which no swap changes where a lock is had.
use operation_systems.Base.{
  ℕ, zero, suc, ◌+◌, ◌<◌, ◌≡◌, ◌≢◌, refl, subst, ◌⊎◌, inl, inr, Bool, true, false, not, ◌&&◌, List,
  none, some, arith, ◌==◌, Bool-cases, Option-cases, length, dec_lt,
}
use operation_systems.Base.Store.{contains}
use operation_systems.Storage.{Storage}
use operation_systems.Storage.Links.{Holds}
use operation_systems.Storage.Threads.{
  Pc, idle, held, compatible, Act, silent, locks, writes, System, Granted, Step, swaps, traverses,
  moved, Reach,
}
use operation_systems.Storage.Threads.Rank.{rank, rank-le}
use operation_systems.Storage.Threads.Invariant.{Inv}
use operation_systems.Storage.Threads.Safety.{sees, Reach-Inv}
use operation_systems.Storage.Threads.Moving.{
  waits, Ready, lock_move, wait_below, Free-move, swap, traverse, quiet, writing,
}

search_below : (P : ℕ → Bool) (n : ℕ) → ((j : ℕ) × (P j ≡ true)) ⊎ ((j : ℕ) → j < n → P j ≡ false)
search_below P zero = inr (λ j h. ground (arith, h))
search_below P (suc n) = elim (search_below P n) [
  | inl found ↦ inl found
  | inr below ↦ elim (Bool-cases (P n)) [
    | inl last ↦ inl (n, last)
    | inr free ↦ inr (λ j h. last_or_below P n below free j h)
  ]
]
  where
    last_or_below :
        (P : ℕ → Bool) (n : ℕ)
        → ((j : ℕ) → j < n → P j ≡ false)
        → P n ≡ false
        → (j : ℕ) → j < suc n
        → P j ≡ false
    last_or_below P n below free j h = elim (dec_lt j n) [
      | yes less ↦ below j less
      | no more ↦ subst (λ (k : ℕ). P k ≡ false) (omega (arith, h, more)) free
    ]

-- Thread `j` has the lock of `x` in a way that excludes thread `i`.
abbrev blocks : Bool → System → ℕ → ℕ → ℕ → Bool
blocks shared s i x j =
    not (i == j) && contains x (held (s.pc j)) && not (compatible shared (s.pc i) (s.pc j))

idle_has_none : (p : Pc) (x : ℕ) → p ≡ idle → contains x (held p) ≡ false
idle_has_none p x e = ground (arith, e)

not_blocked :
    (i j : ℕ) (has shares : Bool)
    → (not (i == j) && has && not shares) ≡ false
    → j ≢ i
    → has ≡ true
    → shares ≡ true
not_blocked i j has shares h ne e = ground (arith, h, ne, e)

-- A thread in a call, and a step of it.
abbrev Goes : ℕ → Bool → (ℕ → ℕ → ℕ → Bool) → System → Type 0
Goes n shared need s = (j : ℕ) × (s.pc j ≢ idle) × ((t : System) × Step n shared need s j t)

module _ {n : ℕ} {shared : Bool} {storage : Storage} {list₀ : List (ℕ × List ℕ)} {s : System}
    (inv : Inv n shared storage list₀ s) where
  below_of_busy : (i : ℕ) → s.pc i ≢ idle → i < n
  below_of_busy i busy = elim (dec_lt i n) [
    | yes less ↦ less
    | no more ↦ absurd (busy (inv.outside i (omega (arith, more))))
  ]

  Granted-unless :
      (i x : ℕ) → ((j : ℕ) → j < n → blocks shared s i x j ≡ false) → Granted shared s i (locks x)
  Granted-unless i x free j ne has = elim (dec_lt j n) [
    | yes less ↦
        not_blocked i j (contains x (held (s.pc j))) (compatible shared (s.pc i) (s.pc j))
          (free j less) ne has
    | no more ↦
        let away = inv.outside j (omega (arith, more)) in cc (idle_has_none (s.pc j) x away, has)
  ]

module _ {n : ℕ} {shared : Bool} {storage : Storage} {list₀ : List (ℕ × List ℕ)} {s : System}
    (inv : Inv n shared storage list₀ s) (need : ℕ → ℕ → ℕ → Bool) where
  step_of :
      (i : ℕ) (act : Act)
      → s.pc i ≢ idle
      → Ready (need i) s.storage (s.pc i) act
      → Granted shared s i act
      → (t : System) × Step n shared need s i t
  step_of i act busy (swap q mv) granted =
      (moved s i act q, swaps (s.pc i) act q (below_of_busy inv i busy) refl mv granted)
  step_of i act busy (traverse q mv) granted =
      (moved s i act q, traverses (s.pc i) act q (below_of_busy inv i busy) refl mv granted)

  Goes-freely : (i : ℕ) → s.pc i ≢ idle → waits (s.pc i) ≡ none → Goes n shared need s
  Goes-freely i busy w =
      elim (Free-move (need i) s.storage inv.old inv.list inv.linked (s.pc i) busy w (inv.chained i)
        (sees inv i (s.pc i) refl) (inv.written i)) [
          | quiet r ↦ (i, busy, step_of i silent busy r tt)
          | writing a m r ↦ (i, busy, step_of i (writes a m) busy r tt)
        ]

  goes :
      (k i : ℕ)
      → s.pc i ≢ idle
      → ((x : ℕ) → waits (s.pc i) ≡ some x → rank inv.list x < k)
      → Goes n shared need s
  goes zero i busy bound = elim (Option-cases (waits (s.pc i))) [
    | inl w ↦ Goes-freely i busy w
    | inr (x, w) ↦ ground (arith, bound x w)
  ]
  goes (suc k) i busy bound = elim (Option-cases (waits (s.pc i))) [
    | inl w ↦ Goes-freely i busy w
    | inr (x, w) ↦ elim (search_below (blocks shared s i x) n) [
      | inr free ↦ (
        i,
        busy,
        step_of i (locks x) busy (lock_move (need i) s.storage (s.pc i) x w)
            (Granted-unless inv i x free),
      )
      | inl (j, blocked) ↦
          let has : contains x (held (s.pc j)) ≡ true = ground (arith, blocked) in
          goes k j (λ off. ground (arith, off, has))
            (λ y wy.
              let behind =
                wait_below inv.old inv.list (s.pc j) y x inv.linked inv.distinct_nodes
                  (inv.chained j) wy has in
              omega (arith, behind, bound x w))
    ]
  ]

-- Of any number of threads that swap and traverse, on a list whose nodes are linked: in every state
-- that is reached in which some thread is in a call, a thread that is in a call can make a step. The
-- locks lead to no deadlock, and no thread is stuck at a node that is not live.
pub no_deadlock :
    {n : ℕ} {shared : Bool} {need : ℕ → ℕ → ℕ → Bool} {storage : Storage}
    {list₀ : List (ℕ × List ℕ)} {s : System}
    → Holds storage list₀
    → Reach n shared need storage s
    → (i : ℕ) → s.pc i ≢ idle
    → (j : ℕ) × (s.pc j ≢ idle) × ((t : System) × Step n shared need s j t)
no_deadlock {need = need} holds r i busy =
    let inv = Reach-Inv holds r in
    goes inv need (length inv.list + 1) i busy (λ x w. rank-le inv.list x)
