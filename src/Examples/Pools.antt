-- ===== src/Examples/Pools.antt =====
-- A pool of two workers, from the first task to the end of a worker.
use operation_systems.Base.{
  ℕ, ◌<◌, ◌≡◌, ◌≢◌, refl, ◌⊎◌, true, false, List, [], ◌∷◌, ◌++◌, Option, none, some, arith,
}
use operation_systems.Base.Store.{update}
use operation_systems.Pool.{
  Task, Pool, CreateEnv, free_rest, accepted, new_pool, thread_pool_create, thread_pool_submit,
  enqueue, worker_turn, waits, exits, takes, free_task, request_stop,
}
use operation_systems.Pool.Workers.{
  ready, waiting, gone, running, broadcast, wakes_none, System, submits, begins, finishes, leaves,
  stops, Reach, start, later,
}
use operation_systems.Pool.Workers.Waiting.{at_work as is_at_work, no_wakeup_lost, stop_frees_all}
use operation_systems.Pool.Workers.Safety.{worker_turn_cases, none_left_behind}

abbrev env : CreateEnv
env = record {
  pool_ok = true;
  threads_block_ok = true;
  mutex_ok = true;
  cond_ok = true;
  threads_ok = true;
}

made : thread_pool_create env 2 ≡ some (new_pool 2)
unfolding thread_pool_create
made = refl

-- Job 10 is submitted, and its task is at address 5.
abbrev one_task : Pool
one_task = record {
  stop = false;
  num_threads = 2;
  head = some 5;
  tail = some 5;
  tasks = update (λ _. none) 5 (some (record { job = 10; next = none }));
}

submitted : thread_pool_submit (new_pool 2) (some 10) (some 5) ≡ accepted one_task
unfolding thread_pool_submit enqueue
submitted = refl

abbrev queued : System
queued = record {
  pool = one_task;
  workers = λ _. ready;
  accepted_jobs = 10 ∷ [];
  started_jobs = [];
}

reach_queued : Reach 2 (new_pool 2) queued
reach_queued =
    later start
      (submits 10 5 one_task (λ _. ready) refl submitted (wakes_none (λ k h. ground (arith, h))))

-- Worker 1 takes the task.
abbrev none_queued : Pool
none_queued = record one_task { head = none; tail = none }

taken : worker_turn one_task ≡ takes 5 10 none_queued
unfolding worker_turn
taken = refl

abbrev at_work : System
at_work = record {
  pool = none_queued;
  workers = update (λ _. ready) 1 (running 5 10);
  accepted_jobs = 10 ∷ [];
  started_jobs = 10 ∷ [];
}

reach_at_work : Reach 2 (new_pool 2) at_work
reach_at_work = later reach_queued (begins 1 5 10 none_queued (omega arith) refl taken)

-- The task ends, the pool is stopped, and worker 1 leaves its loop.
abbrev done : System
done = record {
  pool = request_stop (free_task none_queued 5);
  workers = update (broadcast (update at_work.workers 1 ready)) 1 gone;
  accepted_jobs = 10 ∷ [];
  started_jobs = 10 ∷ [];
}

reach_done : Reach 2 (new_pool 2) done
unfolding worker_turn
reach_done =
    later (later (later reach_at_work (finishes 1 5 10 (omega arith) refl)) stops)
      (leaves 1 (omega arith) refl refl)

worker_turn_cases_example :
    ((queued.accepted_jobs ≡ []) × (false ≡ false) × (worker_turn one_task ≡ waits))
    ⊎ ((queued.accepted_jobs ≡ []) × (false ≡ true) × (worker_turn one_task ≡ exits))
    ⊎ ((a j : ℕ) × (r : Pool) × (rest : List ℕ) × (worker_turn one_task ≡ takes a j r)
        × (queued.accepted_jobs ≡ [] ++ (j ∷ rest)))
worker_turn_cases_example = worker_turn_cases env made reach_queued

none_left_behind_example :
    (done.accepted_jobs ≡ done.started_jobs) × (done.pool.stop ≡ true) × (done.pool.head ≡ none)
none_left_behind_example = none_left_behind env made reach_done 1 refl

no_wakeup_lost_example :
    (queued.pool.head ≢ none → (i : ℕ) × (i < 2) × (is_at_work (queued.workers i) ≡ true))
    × (queued.pool.stop ≡ true → (i : ℕ) → queued.workers i ≢ waiting)
no_wakeup_lost_example = no_wakeup_lost env made reach_queued

-- A pool of one worker, which is stopped at once.
made_lone : thread_pool_create env 1 ≡ some (new_pool 1)
unfolding thread_pool_create
made_lone = refl

abbrev closed : System
closed = record {
  pool = request_stop (new_pool 1);
  workers = update (broadcast (λ _. ready)) 0 gone;
  accepted_jobs = [];
  started_jobs = [];
}

reach_closed : Reach 1 (new_pool 1) closed
unfolding worker_turn
reach_closed = later (later start stops) (leaves 0 (omega arith) refl refl)

all_gone : (i : ℕ) → i < 1 → closed.workers i ≡ gone
all_gone i h = ground (arith, h)

stop_frees_all_example :
    (closed.pool.stop ≡ true)
    × (closed.accepted_jobs ≡ closed.started_jobs)
    × ((tasks : ℕ → Option Task) × (free_rest 0 closed.pool ≡ some tasks)
        × ((a : ℕ) → tasks a ≡ none))
stop_frees_all_example = stop_frees_all env made_lone reach_closed all_gone 0
