-- ===== src/Pool/Workers/Waiting.antt =====
-- The waits on `has_work`, and what is left when the workers have left their loops.
use operation_systems.Base.{
  ℕ, ◌≤◌, ◌<◌, ◌≡◌, ◌≢◌, refl, sym, ap, ◌∙◌, inl, inr, Bool, true, false, Option, none, some, arith,
  dec_lt, Option-cases,
}
use operation_systems.Pool.{
  Task, Pool, CreateEnv, new_pool, accepted, thread_pool_create, enqueue, thread_pool_submit, waits,
  exits, takes, worker_turn, free_tasks, free_rest,
}
use operation_systems.Pool.Workers.{
  Worker, ready, waiting, gone, running, System, wakes_one, wakes_none, Step, submits, sleeps,
  awakes, begins, finishes, leaves, stops, Reach, start, later,
}
use operation_systems.Pool.Workers.Invariant.{Inv}
use operation_systems.Pool.Workers.Steps.{Reach-Inv}
use operation_systems.Pool.Workers.Safety.{none_left_behind}

-- A worker that is in its loop, and not asleep.
abbrev pub at_work : Worker → Bool
at_work ready = true
at_work (running a j) = true
at_work waiting = false
at_work gone = false

record Awake (n : ℕ) (s : System) : Type 0 where
  worker : ℕ
  below : worker < n
  busy : at_work (s.workers worker) ≡ true

record Calls (n : ℕ) (s : System) : Type 0 where
  waiters : (i : ℕ) → s.workers i ≡ waiting → i < n
  others : (i : ℕ) → n ≤ i → s.workers i ≡ ready
  attended : s.pool.head ≢ none → Awake n s
  stopped : s.pool.stop ≡ true → (i : ℕ) → s.workers i ≢ waiting
  open_pool : s.pool.stop ≡ false → (i : ℕ) → s.workers i ≢ gone

-- A task that was accepted finds the pool open, and leaves it so.
accepted_open :
    (p : Pool) (job addr : ℕ) (r : Pool)
    → thread_pool_submit p (some job) (some addr) ≡ accepted r
    → (p.stop ≡ false) × (r.stop ≡ false)
unfolding thread_pool_submit enqueue
accepted_open p job addr r e = ground (arith, e)

asleep_on_empty : (p : Pool) → worker_turn p ≡ waits → (p.head ≡ none) × (p.stop ≡ false)
unfolding worker_turn
asleep_on_empty p e = ground (arith, e)

exits_on_empty : (p : Pool) → worker_turn p ≡ exits → (p.head ≡ none) × (p.stop ≡ true)
unfolding worker_turn
exits_on_empty p e = ground (arith, e)

takes_keeps_stop : (p : Pool) (a j : ℕ) (r : Pool) → worker_turn p ≡ takes a j r → r.stop ≡ p.stop
unfolding worker_turn
takes_keeps_stop p a j r e = ground (arith, e)

at_work_unless : (w : Worker) → w ≢ waiting → w ≢ gone → at_work w ≡ true
at_work_unless w not_waiting not_gone = ground (arith, not_waiting, not_gone)

Step-Calls : {n : ℕ} {s t : System} → 0 < n → Step n s t → Calls n s → Calls n t
Step-Calls {s = s} pos (submits job addr p w free run (wakes_one k at)) c =
    let (was_open, is_open) = accepted_open s.pool job addr p run in
    record {
      waiters = λ i h. c.waiters i (ground (arith, h));
      others = λ i h. ground (arith, c.others i h, c.waiters k at, h);
      attended = λ h. record { worker = k; below = c.waiters k at; busy = ground arith };
      stopped = λ h. ground (arith, h, is_open);
      open_pool = λ h i g. c.open_pool was_open i (ground (arith, g));
    }
Step-Calls {s = s} pos (submits job addr p w free run (wakes_none none_waits)) c =
    let (was_open, is_open) = accepted_open s.pool job addr p run in
    record {
      waiters = c.waiters;
      others = c.others;
      attended = λ h. record {
        worker = 0;
        below = pos;
        busy = at_work_unless (s.workers 0) (none_waits 0) (c.open_pool was_open 0);
      };
      stopped = λ h. ground (arith, h, is_open);
      open_pool = λ h. c.open_pool was_open;
    }
Step-Calls {s = s} pos (sleeps i lt at turn) c =
    let (empty, going) = asleep_on_empty s.pool turn in
    record {
      waiters = λ k h. ground (arith, c.waiters k, lt, h);
      others = λ k h. ground (arith, c.others k h, lt, h);
      attended = λ h. absurd (h empty);
      stopped = λ h. ground (arith, h, going);
      open_pool = λ h k g. c.open_pool h k (ground (arith, g));
    }
Step-Calls {s = s} pos (awakes i lt at) c = record {
  waiters = λ k h. c.waiters k (ground (arith, h));
  others = λ k h. ground (arith, c.others k h, lt, h);
  attended = λ h. record { worker = i; below = lt; busy = ground arith };
  stopped = λ h k g. c.stopped h k (ground (arith, g));
  open_pool = λ h k g. c.open_pool h k (ground (arith, g));
}
Step-Calls {s = s} pos (begins i a j p lt at turn) c =
    let same = takes_keeps_stop s.pool a j p turn in
    record {
      waiters = λ k h. c.waiters k (ground (arith, h));
      others = λ k h. ground (arith, c.others k h, lt, h);
      attended = λ h. record { worker = i; below = lt; busy = ground arith };
      stopped = λ h k g. c.stopped (sym same ∙ h) k (ground (arith, g));
      open_pool = λ h k g. c.open_pool (sym same ∙ h) k (ground (arith, g));
    }
Step-Calls {s = s} pos (finishes i a j lt at) c = record {
  waiters = λ k h. c.waiters k (ground (arith, h));
  others = λ k h. ground (arith, c.others k h, lt, h);
  attended = λ h. record { worker = i; below = lt; busy = ground arith };
  stopped = λ h k g. c.stopped h k (ground (arith, g));
  open_pool = λ h k g. c.open_pool h k (ground (arith, g));
}
Step-Calls {s = s} pos (leaves i lt at turn) c =
    let (empty, stopped) = exits_on_empty s.pool turn in
    record {
      waiters = λ k h. c.waiters k (ground (arith, h));
      others = λ k h. ground (arith, c.others k h, lt, h);
      attended = λ h. absurd (h empty);
      stopped = λ h k g. c.stopped h k (ground (arith, g));
      open_pool = λ h. ground (arith, h, stopped);
    }
Step-Calls {s = s} pos stops c = record {
  waiters = λ k h. ground (arith, h);
  others = λ k h. ground (arith, c.others k h);
  attended = λ h.
      let a = c.attended h in
      record { worker = a.worker; below = a.below; busy = ground (arith, a.busy) };
  stopped = λ h k g. ground (arith, g);
  open_pool = λ h. ground (arith, h);
}

created_positive :
    (env : CreateEnv) (n : ℕ) (p : Pool)
    → thread_pool_create env n ≡ some p
    → (0 < n) × (p ≡ new_pool n)
unfolding thread_pool_create
created_positive env n p made = (ground (arith, made), ground (arith, made))

Reach-Calls :
    {n : ℕ} {p : Pool} {s : System} (env : CreateEnv)
    → thread_pool_create env n ≡ some p
    → Reach n p s
    → Calls n s
Reach-Calls {n} {p} env made start =
    let (_, same) = created_positive env n p made in
    record {
      waiters = λ i h. ground (arith, h);
      others = λ i h. refl;
      attended = λ h. absurd (h (ap (λ (q : Pool). q.head) same));
      stopped = λ h i g. ground (arith, g);
      open_pool = λ h i g. ground (arith, g);
    }
Reach-Calls {n} {p} env made (later r st) =
    let (pos, _) = created_positive env n p made in Step-Calls pos st (Reach-Calls env made r)

module _ {n : ℕ} {p : Pool} {s : System} (env : CreateEnv)
    (made : thread_pool_create env n ≡ some p) (reach : Reach n p s) where
  -- No wake-up is lost. In every state that is reached in which a task is in the queue, some worker is
  -- in its loop and not asleep; and once the pool is stopped, no worker is asleep.
  pub no_wakeup_lost :
      (s.pool.head ≢ none → (i : ℕ) × (i < n) × (at_work (s.workers i) ≡ true))
      × (s.pool.stop ≡ true → (i : ℕ) → s.workers i ≢ waiting)
  no_wakeup_lost =
      let c = Reach-Calls env made reach in
      (λ h. let a = c.attended h in (a.worker, a.below, a.busy), c.stopped)

  -- Once all workers have left their loops, the pool is stopped, every accepted job was started, and
  -- the last loop of `threadPoolStop` leaves the heap with no task: each was freed.
  pub stop_frees_all :
      ((i : ℕ) → i < n → s.workers i ≡ gone)
      → (fuel : ℕ)
      → (s.pool.stop ≡ true)
        × (s.accepted_jobs ≡ s.started_jobs)
        × ((tasks : ℕ → Option Task) × (free_rest fuel s.pool ≡ some tasks)
            × ((a : ℕ) → tasks a ≡ none))
  unfolding free_rest free_tasks
  stop_frees_all over fuel =
      let (pos, _) = created_positive env n p made in
      let (started, stopped, empty) = none_left_behind env made reach 0 (over 0 pos) in
      (stopped, started, (s.pool.tasks, ground (arith, empty), freed))
    where
      inv : Inv s
      inv = Reach-Inv env made reach

      not_running : (i a j : ℕ) → s.workers i ≢ running a j
      not_running i a j h = elim (dec_lt i n) [
        | yes less ↦ ground (arith, over i less, h)
        | no more ↦ ground (arith, (Reach-Calls env made reach).others i, h, more)
      ]

      freed : (a : ℕ) → s.pool.tasks a ≡ none
      freed a = elim (Option-cases (s.pool.tasks a)) [
        | inl dead ↦ dead
        | inr (t, live) ↦ elim (inv.owned a (λ dead. ground (arith, live, dead))) [
          | inl queued ↦
              let (_, none_queued) = inv.over 0 (over 0 (created_positive env n p made).0) in
              ground (arith, none_queued, queued)
          | inr (i, j, at) ↦ absurd (not_running i a j at)
        ]
      ]
