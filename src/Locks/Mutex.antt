-- ===== src/Locks/Mutex.antt =====
-- 2.4/mutex/mutex.c and mutex.h, with the workers of main_mutex.c that count under the mutex.
--
-- Each access to shared memory is a step, and so is each system call; the steps of the threads are
-- interleaved in any order. The accesses are taken to be sequentially consistent.
pub mod Exclusion
pub mod Wakeup
use operation_systems.Base.{ℕ, ◌+◌, ◌<◌, ◌≡◌, ◌≢◌}
use operation_systems.Base.Store.{update}

-- The word of `mutex_t`, the counter, and how many times it was incremented.
pub record Shared : Type 0 where
  pub state : ℕ
  pub counter : ℕ
  pub increments : ℕ

-- Where a thread stands in `worker_my_mutex`, `mutex_lock` and `mutex_unlock`.
pub data Pc : Type 0 where
  idle : Pc  -- before `mutex_lock`
  looping : Pc  -- the head of the loop of `mutex_lock`
  loaded : ℕ → Pc  -- behind the load of the state
  calling_wait : Pc  -- before the call of `futex_wait`
  sleeping : Pc  -- asleep in `futex_wait`
  retrying : Pc  -- before the last `mutex_trylock` of the loop's body
  entered : Pc  -- in the critical section
  got : ℕ → Pc  -- behind the load of `counter++`
  leaving : Pc  -- before `mutex_unlock`
  exchanged : ℕ → Pc  -- behind the exchange of `mutex_unlock`
  calling_wake : Pc  -- before the call of `futex_wake`

-- One step of a thread, but for the call of `futex_wake`.
pub data Move (m : Shared) : Pc → Shared → Pc → Type 0 where
  first_try : m.state ≡ 0 → Move m idle (record m { state = 1 }) entered
  first_fail : m.state ≢ 0 → Move m idle m looping
  load : Move m looping m (loaded m.state)
  not_one : {v : ℕ} → v ≢ 1 → Move m (loaded v) m retrying
  mark : {v : ℕ} → v ≡ 1 → m.state ≡ 1 → Move m (loaded v) (record m { state = 2 }) calling_wait
  mark_fail : {v : ℕ} → v ≡ 1 → m.state ≢ 1 → Move m (loaded v) m retrying
  wait : m.state ≡ 2 → Move m calling_wait m sleeping
  no_wait : m.state ≢ 2 → Move m calling_wait m retrying
  interrupted : Move m sleeping m retrying
  retry : m.state ≡ 0 → Move m retrying (record m { state = 1 }) entered
  retry_fail : m.state ≢ 0 → Move m retrying m looping
  read : Move m entered m (got m.counter)
  write :
      {c : ℕ} → Move m (got c) (record m { counter = c + 1; increments = m.increments + 1 }) leaving
  exchange : Move m leaving (record m { state = 0 }) (exchanged m.state)
  no_wake : {v : ℕ} → v ≢ 2 → Move m (exchanged v) m idle
  to_wake : {v : ℕ} → v ≡ 2 → Move m (exchanged v) m calling_wake

pub record System : Type 0 where
  pub shared : Shared
  pub pc : ℕ → Pc

-- `futex_wake` of one thread wakes a thread that sleeps, or finds none.
pub data Step (n : ℕ) (s : System) : System → Type 0 where
  moves :
      (i : ℕ) (m : Shared) (p q : Pc)
      → i < n
      → s.pc i ≡ p
      → Move s.shared p m q
      → Step n s (record { shared = m; pc = update s.pc i q })
  wakes :
      (i j : ℕ)
      → i < n
      → j < n
      → s.pc i ≡ calling_wake
      → s.pc j ≡ sleeping
      → Step n s (record s { pc = update (update s.pc j retrying) i idle })
  wakes_none :
      (i : ℕ)
      → i < n
      → s.pc i ≡ calling_wake
      → ((j : ℕ) → s.pc j ≢ sleeping)
      → Step n s (record s { pc = update s.pc i idle })

-- Behind `mutex_init` and `counter = 0`.
abbrev pub init : System
init = record { shared = record { state = 0; counter = 0; increments = 0 }; pc = λ _. idle }

pub data Reach (n : ℕ) : System → Type 0 where
  start : Reach n init
  later : {s t : System} → Reach n s → Step n s t → Reach n t
