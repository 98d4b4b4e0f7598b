-- ===== src/Pool/Workers.antt =====
-- `workerLoop` in any number of threads, with the calls of `threadPoolSubmit` and `threadPoolStop`.
--
-- A step is what a thread does while it holds the pool's lock, the end of a task, or that a worker is
-- woken from its wait on `has_work`. `pthread_cond_signal` wakes a worker that waits, if there is one,
-- and workers may be woken without a signal.
pub mod Invariant
pub mod Steps
pub mod Safety
pub mod Waiting
use operation_systems.Base.{ℕ, ◌<◌, ◌≡◌, ◌≢◌, List, [], ◌∷◌, ◌++◌, Option, none, some}
use operation_systems.Base.Store.{update}
use operation_systems.Pool.{
  Pool, Submit, accepted, refused, thread_pool_submit, Turn, waits, exits, takes, worker_turn,
  free_task, request_stop,
}

-- Where a worker stands: at the head of its loop, asleep on `has_work`, in a task, or behind the loop.
pub data Worker : Type 0 where
  ready waiting gone : Worker
  running : ℕ → ℕ → Worker

-- The pool, its workers, and the jobs that were accepted and that were started, in order.
pub record System : Type 0 where
  pub pool : Pool
  pub workers : ℕ → Worker
  pub accepted_jobs : List ℕ
  pub started_jobs : List ℕ

-- `pthread_cond_signal`
pub data Signal (w : ℕ → Worker) : (ℕ → Worker) → Type 0 where
  wakes_one : (k : ℕ) → w k ≡ waiting → Signal w (update w k ready)
  wakes_none : ((k : ℕ) → w k ≢ waiting) → Signal w w

abbrev pub woken : Worker → Worker
woken ready = ready
woken waiting = ready
woken gone = gone
woken (running a j) = running a j

-- `pthread_cond_broadcast`
abbrev pub broadcast : (ℕ → Worker) → ℕ → Worker
broadcast w k = woken (w k)

pub data Step (n : ℕ) (s : System) : System → Type 0 where
  submits :
      (job addr : ℕ) (p : Pool) (w : ℕ → Worker)
      → s.pool.tasks addr ≡ none
      → thread_pool_submit s.pool (some job) (some addr) ≡ accepted p
      → Signal s.workers w
      → Step n s (record s { pool = p; workers = w; accepted_jobs = s.accepted_jobs ++ (job ∷ []) })
  sleeps :
      (i : ℕ)
      → i < n
      → s.workers i ≡ ready
      → worker_turn s.pool ≡ waits
      → Step n s (record s { workers = update s.workers i waiting })
  awakes :
      (i : ℕ)
      → i < n
      → s.workers i ≡ waiting
      → Step n s (record s { workers = update s.workers i ready })
  begins :
      (i a j : ℕ) (p : Pool)
      → i < n
      → s.workers i ≡ ready
      → worker_turn s.pool ≡ takes a j p
      → Step n s (record s {
        pool = p;
        workers = update s.workers i (running a j);
        started_jobs = s.started_jobs ++ (j ∷ []);
      })
  finishes :
      (i a j : ℕ)
      → i < n
      → s.workers i ≡ running a j
      → Step n s (record s { pool = free_task s.pool a; workers = update s.workers i ready })
  leaves :
      (i : ℕ)
      → i < n
      → s.workers i ≡ ready
      → worker_turn s.pool ≡ exits
      → Step n s (record s { workers = update s.workers i gone })
  stops : Step n s (record s { pool = request_stop s.pool; workers = broadcast s.workers })

abbrev pub init : Pool → System
init p = record { pool = p; workers = λ _. ready; accepted_jobs = []; started_jobs = [] }

pub data Reach (n : ℕ) (p : Pool) : System → Type 0 where
  start : Reach n p (init p)
  later : {s t : System} → Reach n p s → Step n s t → Reach n p t
