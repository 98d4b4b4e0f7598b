-- ===== src/Pool/Creation.antt =====
-- The loop of `threadPoolCreate` over `pthread_create`, with the workers that have started meanwhile.
--
-- No task is submitted before the pool is returned, so the queue is empty. The workers test `stop`
-- under the lock; when a thread cannot be created, `stop` is set and `has_work` is broadcast without
-- it. `pthread_cond_wait` goes to sleep and gives up the lock in one step, and workers may wake
-- without a signal.
pub mod Failing
pub mod Hanging
use operation_systems.Base.{ℕ, suc, ◌<◌, ◌≡◌, Bool, true, false, Option, none, some}
use operation_systems.Base.Store.{update}

-- Where a worker stands in its first round.
pub data Worker : Type 0 where
  absent : Worker  -- not created
  locking : Worker  -- before the lock, at the start or behind a wake-up
  testing : Worker  -- has the lock, before the test of `stop`
  tested : Worker  -- has the lock, before the wait
  asleep : Worker
  exiting : Worker  -- has the lock, before the last unlock
  gone : Worker

-- Where `threadPoolCreate` stands, with the number of threads that were created.
pub data Creator : Type 0 where
  creating : ℕ → Creator
  signalling : ℕ → Creator  -- behind `pool->stop = 1`
  joining : ℕ → Creator
  returned : Creator
  freed : Creator  -- returned NULL

pub record System : Type 0 where
  pub stop : Bool
  pub owner : Option ℕ
  pub workers : ℕ → Worker
  pub creator : Creator

abbrev pub roused : Worker → Worker
roused asleep = locking
roused w = w

pub data Step (num : ℕ) (s : System) : System → Type 0 where
  creates :
      (k : ℕ)
      → s.creator ≡ creating k
      → k < num
      → Step num s (record s { workers = update s.workers k locking; creator = creating (suc k) })
  finishes : s.creator ≡ creating num → Step num s (record s { creator = returned })
  fails :
      (k : ℕ)
      → s.creator ≡ creating k
      → k < num
      → Step num s (record s { stop = true; creator = signalling k })
  broadcasts :
      (k : ℕ)
      → s.creator ≡ signalling k
      → Step num s (record s { workers = λ i. roused (s.workers i); creator = joining k })
  joins :
      (k : ℕ)
      → s.creator ≡ joining k
      → ((i : ℕ) → i < k → s.workers i ≡ gone)
      → Step num s (record s { creator = freed })
  locks :
      (i : ℕ)
      → s.workers i ≡ locking
      → s.owner ≡ none
      → Step num s (record s { owner = some i; workers = update s.workers i testing })
  passes :
      (i : ℕ)
      → s.workers i ≡ testing
      → s.stop ≡ false
      → Step num s (record s { workers = update s.workers i tested })
  stops :
      (i : ℕ)
      → s.workers i ≡ testing
      → s.stop ≡ true
      → Step num s (record s { workers = update s.workers i exiting })
  sleeps :
      (i : ℕ)
      → s.workers i ≡ tested
      → Step num s (record s { owner = none; workers = update s.workers i asleep })
  leaves :
      (i : ℕ)
      → s.workers i ≡ exiting
      → Step num s (record s { owner = none; workers = update s.workers i gone })
  awakes :
      (i : ℕ)
      → s.workers i ≡ asleep
      → Step num s (record s { workers = update s.workers i locking })

abbrev pub init : System
init = record { stop = false; owner = none; workers = λ _. absent; creator = creating 0 }

pub data Reach (num : ℕ) : System → Type 0 where
  start : Reach num init
  later : {s t : System} → Reach num s → Step num s t → Reach num t
