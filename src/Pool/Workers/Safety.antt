-- ===== src/Pool/Workers/Safety.antt =====
-- What the callers of the pool may rely on, in every state that its threads reach.
use operation_systems.Base.{
  ℕ, ◌≡◌, ◌≢◌, refl, sym, ap, ◌∙◌, ◌⊎◌, inl, inr, true, false, List, [], ◌∷◌, ◌++◌, none, some,
  arith, Bool-cases, if_true, if_false, append-nil,
}
use operation_systems.Pool.{
  Pool, CreateEnv, accepted, refused, thread_pool_create, thread_pool_submit, waits, exits, takes,
  worker_turn,
}
use operation_systems.Pool.Queue.{jobs, first, Holds, enqueue-Holds, takes-Holds}
use operation_systems.Pool.Workers.{gone, running, System, Reach}
use operation_systems.Pool.Workers.Invariant.{Inv, queued-live}
use operation_systems.Pool.Workers.Steps.{Reach-Inv}

module _ {n : ℕ} {p : Pool} {s : System} (env : CreateEnv)
    (made : thread_pool_create env n ≡ some p) (reach : Reach n p s) where
  inv : Inv s
  inv = Reach-Inv env made reach

  -- In every state that is reached, a worker that holds the lock finds no dangling link, and does one
  -- of three things. All accepted jobs were started and the pool is open: it waits. All were started
  -- and the pool is stopped: it leaves its loop. Otherwise it starts the oldest job that was accepted
  -- and not yet started, whether the pool is stopped or not.
  pub worker_turn_cases :
      ((s.accepted_jobs ≡ s.started_jobs) × (s.pool.stop ≡ false) × (worker_turn s.pool ≡ waits))
      ⊎ ((s.accepted_jobs ≡ s.started_jobs) × (s.pool.stop ≡ true) × (worker_turn s.pool ≡ exits))
      ⊎ ((a j : ℕ) × (r : Pool) × (rest : List ℕ) × (worker_turn s.pool ≡ takes a j r)
          × (s.accepted_jobs ≡ s.started_jobs ++ (j ∷ rest)))
  unfolding worker_turn
  worker_turn_cases = cases inv.queue refl inv.holds
    where
      all_started : inv.queue ≡ [] → s.accepted_jobs ≡ s.started_jobs
      all_started e =
          inv.order
          ∙ ap (λ (q : List (ℕ × ℕ)). s.started_jobs ++ jobs q) e
          ∙ append-nil s.started_jobs

      cases :
          (q : List (ℕ × ℕ))
          → inv.queue ≡ q
          → Holds s.pool q
          → ((s.accepted_jobs ≡ s.started_jobs)
              × (s.pool.stop ≡ false)
              × (worker_turn s.pool ≡ waits))
            ⊎ ((s.accepted_jobs ≡ s.started_jobs)
                × (s.pool.stop ≡ true)
                × (worker_turn s.pool ≡ exits))
            ⊎ ((a j : ℕ) × (r : Pool) × (rest : List ℕ) × (worker_turn s.pool ≡ takes a j r)
                × (s.accepted_jobs ≡ s.started_jobs ++ (j ∷ rest)))
      cases [] e h = elim (Bool-cases s.pool.stop) [
        | inl stopped ↦ inr (inl (all_started e, stopped, ground (arith, h.at_head)))
        | inr open_pool ↦ inl (all_started e, open_pool, ground (arith, h.at_head))
      ]
      cases ((a, j) ∷ q) e h =
          let (r, turn, _, _, _) = takes-Holds s.pool a j q h in
          inr (
            inr (
              a,
              j,
              r,
              jobs q,
              turn,
              inv.order ∙ ap (λ (x : List (ℕ × ℕ)). s.started_jobs ++ jobs x) e,
            ))

  -- In every state that is reached, once a worker has left its loop every accepted job was started,
  -- the pool is stopped, and its queue is empty: the loop of `threadPoolStop` finds no task to free.
  pub none_left_behind :
      (i : ℕ)
      → s.workers i ≡ gone
      → (s.accepted_jobs ≡ s.started_jobs) × (s.pool.stop ≡ true) × (s.pool.head ≡ none)
  none_left_behind i h =
      let (stopped, e) = inv.over i h in
      (
        inv.order
            ∙ ap (λ (q : List (ℕ × ℕ)). s.started_jobs ++ jobs q) e
            ∙ append-nil s.started_jobs,
        stopped,
        inv.holds.at_head ∙ ap first e,
      )

  -- In every state that is reached, the task that a worker runs, and will free, is a live one, and no
  -- other worker runs it.
  pub running_alone :
      (i k a x y : ℕ)
      → s.workers i ≡ running a x
      → s.workers k ≡ running a y
      → (s.pool.tasks a ≢ none) × (i ≡ k)
  running_alone i k a x y h g = (inv.alive i a x h, inv.alone i k a a x y h g refl)

  -- In every state that is reached, `threadPoolSubmit` of a function whose task could be allocated
  -- follows no dangling link: it refuses the task and changes nothing if the pool is stopped, and
  -- otherwise accepts it.
  pub submit_cases :
      (job addr : ℕ)
      → s.pool.tasks addr ≡ none
      → ((s.pool.stop ≡ true) × (thread_pool_submit s.pool (some job) (some addr) ≡ refused s.pool))
        ⊎ ((s.pool.stop ≡ false)
            × ((r : Pool) × (thread_pool_submit s.pool (some job) (some addr) ≡ accepted r)))
  unfolding thread_pool_submit
  submit_cases job addr free = elim (Bool-cases s.pool.stop) [
    | inl stopped ↦ inl (stopped, sym (if_true _ _ stopped))
    | inr going ↦
        let new = queued-live s.pool.tasks inv.queue addr inv.holds.linked free in
        let (r, run, _, _, _) = enqueue-Holds s.pool inv.queue addr job inv.holds new in
        inr (going, (r, sym (if_false _ _ going) ∙ run))
  ]
