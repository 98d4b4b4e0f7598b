-- ===== src/Locks/Spin.antt =====
-- 2.4/spinlock: `spinlock_lock` and `spinlock_unlock`, with the workers and `run_test` of
-- main_spinlock.c.
--
-- Each access to shared memory is a step, and each round of the back-off; the steps of the threads
-- are interleaved in any order. The accesses are taken to be sequentially consistent. `sched_yield`
-- and `cpu_relax` have no effect on what the threads share, and are left out with the counter `yields`.
pub mod Counting
use operation_systems.Base.{ℕ, ◌+◌, ◌*◌, ◌<◌, ◌≤◌, ◌≡◌, ◌≢◌, Bool, if◌then◌else◌, ltb, ◌==◌}
use operation_systems.Base.Store.{update}

-- The word of `spinlock_t`, and the counter.
pub record Shared : Type 0 where
  pub state : ℕ
  pub counter : ℕ

abbrev pub min_spins : ℕ
min_spins = 16

abbrev pub max_spins : ℕ
max_spins = 4096

-- `if (spins < max_spins) spins <<= 1;`
abbrev pub next_spins : ℕ → ℕ
next_spins spins = if ltb spins max_spins then spins * 2 else spins

-- Where a thread stands in `worker_my_spin`, with the iterations that it has done.
pub data Pc : Type 0 where
  working : ℕ → Pc  -- the head of the loop of the worker
  spinning : ℕ → ℕ → ℕ → Pc  -- the head of the inner loop of the lock, with `spins` and `i`
  entered : ℕ → Pc  -- in the critical section
  got : ℕ → ℕ → Pc  -- behind the load of `counter++`
  leaving : ℕ → Pc  -- before the unlock
  finished : Pc

-- One step of a thread, of a worker that makes `iters` iterations.
pub data Move (iters : ℕ) (m : Shared) : Pc → Shared → Pc → Type 0 where
  finish : {d : ℕ} → iters ≤ d → Move iters m (working d) m finished
  first_try :
      {d : ℕ}
      → d < iters
      → m.state ≡ 0
      → Move iters m (working d) (record m { state = 1 }) (entered d)
  first_fail :
      {d : ℕ} → d < iters → m.state ≢ 0 → Move iters m (working d) m (spinning d min_spins 0)
  try :
      {d spins i : ℕ}
      → i < spins
      → m.state ≡ 0
      → Move iters m (spinning d spins i) (record m { state = 1 }) (entered d)
  try_fail :
      {d spins i : ℕ}
      → i < spins
      → m.state ≢ 0
      → Move iters m (spinning d spins i) m (spinning d spins (i + 1))
  back_off :
      {d spins i : ℕ}
      → spins ≤ i
      → Move iters m (spinning d spins i) m (spinning d (next_spins spins) 0)
  read : {d : ℕ} → Move iters m (entered d) m (got d m.counter)
  write : {d c : ℕ} → Move iters m (got d c) (record m { counter = c + 1 }) (leaving d)
  unlock : {d : ℕ} → Move iters m (leaving d) (record m { state = 0 }) (working (d + 1))

pub record System : Type 0 where
  pub shared : Shared
  pub pc : ℕ → Pc

pub data Step (n iters : ℕ) (s : System) : System → Type 0 where
  moves :
      (i : ℕ) (m : Shared) (p q : Pc)
      → i < n
      → s.pc i ≡ p
      → Move iters s.shared p m q
      → Step n iters s (record { shared = m; pc = update s.pc i q })

-- Behind `spinlock_init`, and `counter = 0` of `run_test`.
abbrev pub init : System
init = record { shared = record { state = 0; counter = 0 }; pc = λ _. working 0 }

pub data Reach (n iters : ℕ) : System → Type 0 where
  start : Reach n iters init
  later : {s t : System} → Reach n iters s → Step n iters s t → Reach n iters t

-- Whether `run_test` prints OK, for `n` threads that were joined.
abbrev pub prints_ok : ℕ → ℕ → Shared → Bool
prints_ok n iters m = m.counter == n * iters
