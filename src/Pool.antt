-- ===== src/Pool.antt =====
-- threadpool/threadpool.c and threadpool/threadpool.h: the queue of tasks, and the workers.
--
-- A task is known by its address, and the heap maps the addresses of live tasks to them. What a task
-- does is named by a number, for the pair of its function and its argument.
pub mod Queue
pub mod Workers
pub mod Creation
use operation_systems.Base.{ℕ, zero, suc, Bool, true, false, Option, none, some, if◌then◌else◌, leb}
use operation_systems.Base.Store.{update}

-- `threadTask_t`
pub record Task : Type 0 where
  pub job : ℕ
  pub next : Option ℕ

-- `threadPool_t`, with the heap of its tasks.
pub record Pool : Type 0 where
  pub stop : Bool
  pub num_threads : ℕ
  pub head : Option ℕ
  pub tail : Option ℕ
  pub tasks : ℕ → Option Task

-- What the system calls of `threadPoolCreate` answer; `threads_ok` is whether each thread started.
pub record CreateEnv : Type 0 where
  pub pool_ok : Bool
  pub threads_block_ok : Bool
  pub mutex_ok : Bool
  pub cond_ok : Bool
  pub threads_ok : Bool

abbrev pub new_pool : ℕ → Pool
new_pool n = record { stop = false; num_threads = n; head = none; tail = none; tasks = λ _. none }

unfoldable pub thread_pool_create : CreateEnv → ℕ → Option Pool
thread_pool_create env n =
    if leb n 0
    then none
    else if env.pool_ok
    then (if env.threads_block_ok
        then (if env.mutex_ok
            then (if env.cond_ok
                then (if env.threads_ok then some (new_pool n) else none)
                else none)
            else none)
        else none)
    else none

-- The result code, with the pool behind the call.
pub data Submit : Type 0 where
  accepted refused : Pool → Submit
  fault : Submit

-- The link at the end of the queue: behind the last task, or at the head.
unfoldable pub enqueue : Pool → ℕ → ℕ → Submit
enqueue p addr job = elim p.tail [
  | none ↦ accepted (record p {
    head = some addr;
    tail = some addr;
    tasks = update p.tasks addr (some (record { job = job; next = none }));
  })
  | some t ↦ elim (p.tasks t) [
    | none ↦ fault
    | some last ↦ accepted (record p {
      tail = some addr;
      tasks =
          update (update p.tasks addr (some (record { job = job; next = none }))) t
            (some (record last { next = some addr }));
    })
  ]
]

-- `fn` is NULL or the job; `malloc` gives the address of the task, or NULL.
unfoldable pub thread_pool_submit : Pool → Option ℕ → Option ℕ → Submit
unfolding enqueue
thread_pool_submit p none malloc = refused p
thread_pool_submit p (some job) none = refused p
thread_pool_submit p (some job) (some addr) = if p.stop then refused p else enqueue p addr job

-- What a worker finds when it holds the lock: it waits on `has_work`, it leaves the loop, or it
-- takes the task at the head.
pub data Turn : Type 0 where
  waits exits broken : Turn
  takes : ℕ → ℕ → Pool → Turn

abbrev pub is_none {ℓ} : {A : Type ℓ} → Option A → Bool
is_none none = true
is_none (some a) = false

abbrev pub dequeue : Pool → Option ℕ → Turn
dequeue p none = if p.stop then exits else waits
dequeue p (some a) = elim (p.tasks a) [
  | none ↦ broken
  | some t ↦
      takes a t.job (record p { head = t.next; tail = if is_none t.next then none else p.tail })
]

unfoldable pub worker_turn : Pool → Turn
worker_turn p = dequeue p p.head

-- `free(task)`, when the task has run.
abbrev pub free_task : Pool → ℕ → Pool
free_task p a = record p { tasks = update p.tasks a none }

-- The first step of `threadPoolStop`.
abbrev pub request_stop : Pool → Pool
request_stop p = record p { stop = true }

-- The last loop of `threadPoolStop`, on fuel; a task that is not live is a fault.
unfoldable pub free_tasks : ℕ → Option ℕ → (ℕ → Option Task) → Option (ℕ → Option Task)
free_tasks fuel none tasks = some tasks
free_tasks zero (some a) tasks = none
free_tasks (suc fuel) (some a) tasks = elim (tasks a) [
  | none ↦ none
  | some t ↦ free_tasks fuel t.next (update tasks a none)
]

-- What `threadPoolStop` does with the tasks, once the workers are joined.
unfoldable pub free_rest : ℕ → Pool → Option (ℕ → Option Task)
unfolding free_tasks
free_rest fuel p = free_tasks fuel p.head p.tasks
