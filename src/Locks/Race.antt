-- ===== src/Locks/Race.antt =====
-- `worker_race` of 2.4/mutex/main_mutex.c: the counter without a lock, and the check of `run_test`.
--
-- `counter++` is a load and a store; the steps of the threads are interleaved in any order.
pub mod Losing
pub mod Ending
use operation_systems.Base.{ℕ, ◌+◌, ◌*◌, ◌<◌, ◌≤◌, ◌≡◌, Bool, ◌==◌}
use operation_systems.Base.Store.{update}

-- Where a thread stands, with the iterations that it has done and the value that it loaded.
pub data Pc : Type 0 where
  working : ℕ → Pc
  loaded : ℕ → ℕ → Pc
  finished : Pc

pub data Move (iters counter : ℕ) : Pc → ℕ → Pc → Type 0 where
  finish : {d : ℕ} → iters ≤ d → Move iters counter (working d) counter finished
  load : {d : ℕ} → d < iters → Move iters counter (working d) counter (loaded d counter)
  store : {d c : ℕ} → Move iters counter (loaded d c) (c + 1) (working (d + 1))

pub record System : Type 0 where
  pub counter : ℕ
  pub pc : ℕ → Pc

pub data Step (n iters : ℕ) (s : System) : System → Type 0 where
  moves :
      (i c : ℕ) (p q : Pc)
      → i < n
      → s.pc i ≡ p
      → Move iters s.counter p c q
      → Step n iters s (record { counter = c; pc = update s.pc i q })

-- Behind `counter = 0` of `run_test`.
abbrev pub init : System
init = record { counter = 0; pc = λ _. working 0 }

pub data Reach (n iters : ℕ) : System → Type 0 where
  start : Reach n iters init
  later : {s t : System} → Reach n iters s → Step n iters s t → Reach n iters t

-- `counter == expected`, when the `n` threads are joined.
abbrev pub prints_ok : ℕ → ℕ → ℕ → Bool
prints_ok n iters counter = counter == n * iters
