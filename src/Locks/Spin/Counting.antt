-- ===== src/Locks/Spin/Counting.antt =====
-- Exclusion, the bounds of the back-off, and the count of the workers.
use operation_systems.Base.{
  ℕ, ◌+◌, ◌*◌, ◌<◌, ◌≤◌, ◌≡◌, ◌≢◌, refl, ◌∙◌, Bool, true, false, List, [], ◌∷◌, arith,
}
use operation_systems.Base.Store.{update, contains}
use operation_systems.Base.Totals.{total, total-update, total_all}
use operation_systems.Locks.Spin.{
  Shared, Pc, working, spinning, entered, got, leaving, finished, next_spins, Move, finish,
  first_try, first_fail, try, try_fail, back_off, write, unlock, System, moves, init, Reach, start,
  later, prints_ok,
}

-- Between the `spinlock_trylock` that succeeds and the unlock.
abbrev pub critical : Pc → Bool
critical (entered d) = true
critical (got d c) = true
critical (leaving d) = true
critical _ = false

-- The increments that a thread has made.
abbrev pub increments : ℕ → Pc → ℕ
increments iters (working d) = d
increments iters (spinning d spins i) = d
increments iters (entered d) = d
increments iters (got d c) = d
increments iters (leaving d) = d + 1
increments iters finished = iters

-- The bounds of the inner loop, from 16 to 1 << 12.
abbrev pub limits : List ℕ
limits = 16 ∷ 32 ∷ 64 ∷ 128 ∷ 256 ∷ 512 ∷ 1024 ∷ 2048 ∷ 4096 ∷ []

next_spins-limits :
    (spins : ℕ) → contains spins limits ≡ true → contains (next_spins spins) limits ≡ true
next_spins-limits spins h = ground (arith, h)

-- What a thread knows: it has read the counter as it is, its iterations are within the bound, and so
-- is its back-off.
abbrev pub Sound : ℕ → Shared → Pc → Type 0
Sound iters m (working d) = d ≤ iters
Sound iters m (spinning d spins i) = (d < iters) × (i ≤ spins) × (contains spins limits ≡ true)
Sound iters m (entered d) = d < iters
Sound iters m (got d c) = (d < iters) × (c ≡ m.counter)
Sound iters m (leaving d) = d < iters
Sound iters m finished = Unit {0}

pub record Inv (n iters : ℕ) (s : System) : Type 0 where
  pub locked : (i : ℕ) → critical (s.pc i) ≡ true → s.shared.state ≢ 0
  pub alone : (i j : ℕ) → critical (s.pc i) ≡ true → critical (s.pc j) ≡ true → i ≡ j
  pub sound : (i : ℕ) → Sound iters s.shared (s.pc i)
  pub counted : s.shared.counter ≡ total (increments iters) n s.pc

module _ {n iters : ℕ} {s : System} (inv : Inv n iters s) (i : ℕ) where
  open inv use {locked, alone, sound, counted}

  Move-locked :
      {m : Shared} {p q : Pc}
      → s.pc i ≡ p
      → Move iters s.shared p m q
      → (j : ℕ) → critical (update s.pc i q j) ≡ true
      → m.state ≢ 0
  Move-locked at (first_try less h) j c = λ e. omega arith
  Move-locked at (try less h) j c = λ e. omega arith
  Move-locked at unlock j c = ground (arith, alone i j)
  Move-locked at mv j c = ground (arith, locked i, locked j)

  Move-alone :
      {m : Shared} {p q : Pc}
      → s.pc i ≡ p
      → Move iters s.shared p m q
      → (j k : ℕ) → critical (update s.pc i q j) ≡ true
      → critical (update s.pc i q k) ≡ true
      → j ≡ k
  Move-alone at (first_try less h) j k c d = ground (arith, locked j, locked k, alone j k)
  Move-alone at (try less h) j k c d = ground (arith, locked j, locked k, alone j k)
  Move-alone at mv j k c d = ground (arith, alone j k, alone i k, alone i j)

  Move-Sound :
      {m : Shared} {p q : Pc}
      → s.pc i ≡ p
      → Move iters s.shared p m q
      → (j : ℕ) → Sound iters m (update s.pc i q j)
  Move-Sound at (finish h) j = ground (arith, sound j)
  Move-Sound at (first_try less h) j = ground (arith, sound j)
  Move-Sound at (first_fail less h) j = ground (arith, sound j)
  Move-Sound at (try less h) j = ground (arith, sound j, sound i)
  Move-Sound at (try_fail less h) j = ground (arith, sound j, sound i)
  Move-Sound {p = spinning d spins k} at (back_off h) j =
      ground (arith, sound j, sound i, next_spins-limits spins)
  Move-Sound at write j = ground (arith, sound j, sound i, alone i j)
  Move-Sound at mv j = ground (arith, sound j, sound i)

  Move-counted :
      {m : Shared} {p q : Pc}
      → i < n
      → s.pc i ≡ p
      → Move iters s.shared p m q
      → m.counter ≡ total (increments iters) n (update s.pc i q)
  Move-counted below at (finish h) =
      ground (arith, counted, total-update (increments iters) n s.pc i finished below, sound i)
  Move-counted {q = q} below at write =
      ground (arith, counted, total-update (increments iters) n s.pc i q below, sound i)
  Move-counted {q = q} below at mv =
      ground (arith, counted, total-update (increments iters) n s.pc i q below, sound i)

  Move-Inv :
      {m : Shared} {p q : Pc}
      → i < n
      → s.pc i ≡ p
      → Move iters s.shared p m q
      → Inv n iters (record { shared = m; pc = update s.pc i q })
  Move-Inv below at mv = record {
    locked = Move-locked at mv;
    alone = Move-alone at mv;
    sound = Move-Sound at mv;
    counted = Move-counted below at mv;
  }

Reach-Inv : {n iters : ℕ} {s : System} → Reach n iters s → Inv n iters s
Reach-Inv {n} {iters} start = record {
  locked = λ i c. cc;
  alone = λ i j c d. cc;
  sound = λ i. omega arith;
  counted = omega (arith, total_all (increments iters) n 0 init.pc (λ i h. refl));
}
Reach-Inv (later r (moves i m p q below at mv)) = Move-Inv (Reach-Inv r) i below at mv

-- In every state that is reached: of any number of threads, at most one is between a `spinlock_lock`
-- that returned and the unlock; and the rounds of the inner loop of one that tries are bounded by a
-- power of two from 16 to 4096.
pub spin_bounded :
    {n iters : ℕ} {s : System}
    → Reach n iters s
    → ((i j : ℕ) → critical (s.pc i) ≡ true → critical (s.pc j) ≡ true → i ≡ j)
      × ((i d spins k : ℕ)
          → s.pc i ≡ spinning d spins k
          → (k ≤ spins) × (contains spins limits ≡ true))
spin_bounded {s = s} r =
    let inv = Reach-Inv r in (inv.alone, λ i d spins k at. ground (arith, inv.sound i, at))

-- Once all threads have returned, the counter is the number of threads times the number of
-- iterations, and `run_test` prints OK.
pub run_test_ok :
    {n iters : ℕ} {s : System}
    → Reach n iters s
    → ((i : ℕ) → i < n → s.pc i ≡ finished)
    → (s.shared.counter ≡ n * iters) × (prints_ok n iters s.shared ≡ true)
run_test_ok {n} {iters} {s} r over =
    let inv = Reach-Inv r in
    let all = total_all (increments iters) n iters s.pc (λ i h. ground (arith, over i h)) in
    let exact : s.shared.counter ≡ n * iters = inv.counted ∙ all in (exact, ground (arith, exact))
