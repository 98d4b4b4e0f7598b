-- ===== src/Pool/Workers/Steps.antt =====
-- Every step of a thread keeps the invariant, so it holds in every state that is reached.
use mathlib.Core.Bool.{false≢true}
use operation_systems.Base.{
  ℕ, ◌≡◌, ◌≢◌, refl, sym, ap, ◌∙◌, subst, inl, inr, true, false, List, [], ◌∷◌, ◌++◌, Option, none,
  some, arith, ◌==◌, Bool-cases, if_false, append_assoc,
}
use operation_systems.Base.Store.{update, contains, distinct, distinct-cons, not-contains-cons}
use operation_systems.Pool.{
  Task, Pool, CreateEnv, accepted, thread_pool_create, thread_pool_submit, Turn, takes, worker_turn,
}
use operation_systems.Pool.Queue.{addresses, jobs, Holds, enqueue-Holds, takes-Holds}
use operation_systems.Pool.Workers.{
  Worker, ready, waiting, running, System, Signal, wakes_one, wakes_none, broadcast, Step, submits,
  sleeps, awakes, begins, finishes, leaves, stops, init, Reach, start, later,
}
use operation_systems.Pool.Workers.Invariant.{
  Inv, moved-Inv, queued-live, jobs-append, contains-append_other, contains-append_new,
  contains-append_old, finishes-Inv, leaves-Inv, stops-Inv,
}

module _ {s : System} (inv : Inv s) where
  open inv use {queue, holds, order, alive, outside, alone, owned, over}

  -- The task at the head goes to the worker; `p` is what is left of the pool.
  begun-Inv :
      (i a j : ℕ) (q : List (ℕ × ℕ)) (p : Pool)
      → queue ≡ (a, j) ∷ q
      → Holds p q
      → p.tasks ≡ s.pool.tasks
      → s.pool.tasks a ≢ none
      → s.workers i ≡ ready
      → Inv (record s {
        pool = p;
        workers = update s.workers i (running a j);
        started_jobs = s.started_jobs ++ (j ∷ []);
      })
  begun-Inv i a j q p e h same live at = record {
    queue = q;
    holds = h;
    order =
        order
        ∙ ap (λ (x : List (ℕ × ℕ)). s.started_jobs ++ jobs x) e
        ∙ sym (append_assoc s.started_jobs (j ∷ []) (jobs q));
    alive = λ k b x g dead. elim (Bool-cases (i == k)) [
      | inl own ↦ live (ap (λ (f : ℕ → Option Task). f a) (sym same) ∙ ground arith)
      | inr other ↦ alive k b x (ground arith) (ap (λ (f : ℕ → Option Task). f b) (sym same) ∙ dead)
    ];
    outside = λ k b x g. elim (Bool-cases (i == k)) [
      | inl own ↦ ground (arith, distinct-cons a (addresses q), front)
      | inr other ↦ (not-contains-cons a b (addresses q) (away k b x (ground arith))).1
    ];
    alone = λ k m b c x y g f eq. elim (Bool-cases (i == k)) [
      | inl own ↦ elim (Bool-cases (i == m)) [
        | inl own' ↦ ground arith
        | inr other' ↦
            absurd
              ((not-contains-cons a c (addresses q) (away m c y (ground arith))).0 (ground arith))
      ]
      | inr other ↦ elim (Bool-cases (i == m)) [
        | inl own' ↦
            absurd
              ((not-contains-cons a b (addresses q) (away k b x (ground arith))).0 (ground arith))
        | inr other' ↦ alone k m b c x y (ground arith) (ground arith) eq
      ]
    ];
    owned = λ b live'.
        elim (owned b (λ dead. live' (ap (λ (f : ℕ → Option Task). f b) same ∙ dead))) [
          | inl queued ↦ elim (Bool-cases (a == b)) [
            | inl this ↦ inr (i, j, ground arith)
            | inr other ↦ inl (
                ground
                  (arith, subst (λ (r : List (ℕ × ℕ)). contains b (addresses r) ≡ true) e queued))
          ]
          | inr (k, x, h) ↦ inr (k, x, ground (arith, at, h))
        ];
    over = λ k g. absurd (nonempty (over k (ground arith)).1);
  }
    where
      front : distinct (a ∷ addresses q) ≡ true
      front = subst (λ (r : List (ℕ × ℕ)). distinct (addresses r) ≡ true) e holds.apart

      away : (k b x : ℕ) → s.workers k ≡ running b x → contains b (a ∷ addresses q) ≡ false
      away k b x g =
          subst (λ (r : List (ℕ × ℕ)). contains b (addresses r) ≡ false) e (outside k b x g)

      nonempty : queue ≡ [] → ⊥
      nonempty g = cc

  begins-Inv :
      (i a j : ℕ) (p : Pool)
      → worker_turn s.pool ≡ takes a j p
      → s.workers i ≡ ready
      → Inv (record s {
        pool = p;
        workers = update s.workers i (running a j);
        started_jobs = s.started_jobs ++ (j ∷ []);
      })
  unfolding worker_turn
  begins-Inv i a j p turn at = cases queue refl holds
    where
      cases :
          (q : List (ℕ × ℕ))
          → queue ≡ q
          → Holds s.pool q
          → Inv (record s {
            pool = p;
            workers = update s.workers i (running a j);
            started_jobs = s.started_jobs ++ (j ∷ []);
          })
      cases [] e h = absurd (ground (arith, h.at_head))
      cases ((b, k) ∷ q) e h =
          let (r, turn', h', _, same_tasks) = takes-Holds s.pool b k q h in
          let same : ◌≡◌ {A = Turn} (takes b k r) (takes a j p) = sym turn' ∙ turn in
          let parts : ◌≡◌ {A = ℕ × ℕ × Pool} (b, k, r) (a, j, p) = cc in
          subst
            (λ (x : ℕ × ℕ × Pool). Inv (record s {
              pool = x.2;
              workers = update s.workers i (running x.0 x.1);
              started_jobs = s.started_jobs ++ (x.1 ∷ []);
            }))
            parts (begun-Inv i b k q r e h' same_tasks (λ dead. ground (arith, h.linked)) at)

  submitted-Inv :
      (job addr : ℕ) (p r : Pool)
      → s.pool.tasks addr ≡ none
      → s.pool.stop ≡ false
      → Holds r (queue ++ ((addr, job) ∷ []))
      → ((b : ℕ) → s.pool.tasks b ≢ none → r.tasks b ≢ none)
      → ((b : ℕ) → s.pool.tasks b ≡ none → b ≢ addr → r.tasks b ≡ none)
      → Inv (record s { pool = r; accepted_jobs = s.accepted_jobs ++ (job ∷ []) })
  submitted-Inv job addr p r free going h live dead = record {
    queue = queue ++ ((addr, job) ∷ []);
    holds = h;
    order =
        ap (λ (x : List ℕ). x ++ (job ∷ [])) order
        ∙ append_assoc s.started_jobs (jobs queue) (job ∷ [])
        ∙ ap (◌++◌ s.started_jobs) (sym (jobs-append queue addr job));
    alive = λ k b x g. live b (alive k b x g);
    outside = λ k b x g.
        contains-append_other b queue addr job (λ e. alive k b x g (ap s.pool.tasks e ∙ free))
          (outside k b x g);
    alone = alone;
    owned = λ b live'. elim (Bool-cases (b == addr)) [
      | inl this ↦ inl (contains-append_new b queue addr job (ground arith))
      | inr other ↦ elim (owned b (λ e. live' (dead b e (λ same. ground arith)))) [
        | inl queued ↦ inl (contains-append_old b queue addr job queued)
        | inr (k, x, h) ↦ inr (k, x, h)
      ]
    ];
    over = λ k g. absurd (false≢true (sym going ∙ (over k g).0));
  }

  submits-Inv :
      (job addr : ℕ) (p : Pool)
      → s.pool.tasks addr ≡ none
      → thread_pool_submit s.pool (some job) (some addr) ≡ accepted p
      → Inv (record s { pool = p; accepted_jobs = s.accepted_jobs ++ (job ∷ []) })
  unfolding thread_pool_submit
  submits-Inv job addr p free run = elim (Bool-cases s.pool.stop) [
    | inl stopped ↦ absurd (ground arith)
    | inr going ↦
        let new = queued-live s.pool.tasks queue addr holds.linked free in
        let (r, run', h, live, dead) = enqueue-Holds s.pool queue addr job holds new in
        let same : r ≡ p = taken r (sym run' ∙ if_false _ _ going ∙ run) in
        subst
          (λ (x : Pool). Inv (record s { pool = x; accepted_jobs = s.accepted_jobs ++ (job ∷ []) }))
          same (submitted-Inv job addr s.pool r free going h live dead)
  ]
    where
      taken : (r : Pool) → accepted r ≡ accepted p → r ≡ p
      taken r e = cc

module _ {s : System} (inv : Inv s) where
  Signal-Inv : {w : ℕ → Worker} → Signal s.workers w → Inv (record s { workers = w })
  Signal-Inv (wakes_one k at) =
      moved-Inv (update s.workers k ready) (λ i a j h. ground (arith, h))
        (λ i a j h. ground (arith, h, at)) (λ i h. ground (arith, h)) inv
  Signal-Inv (wakes_none none_waits) =
      moved-Inv s.workers (λ i a j h. h) (λ i a j h. h) (λ i h. h) inv

  sleeps-Inv :
      (i : ℕ) → s.workers i ≡ ready → Inv (record s { workers = update s.workers i waiting })
  sleeps-Inv i at =
      moved-Inv (update s.workers i waiting) (λ k a j h. ground (arith, h))
        (λ k a j h. ground (arith, h, at)) (λ k h. ground (arith, h)) inv

  awakes-Inv :
      (i : ℕ) → s.workers i ≡ waiting → Inv (record s { workers = update s.workers i ready })
  awakes-Inv i at =
      moved-Inv (update s.workers i ready) (λ k a j h. ground (arith, h))
        (λ k a j h. ground (arith, h, at)) (λ k h. ground (arith, h)) inv

  broadcast-Inv : Inv (record s { workers = broadcast s.workers })
  broadcast-Inv =
      moved-Inv (broadcast s.workers) (λ i a j h. ground (arith, h)) (λ i a j h. ground (arith, h))
        (λ i h. ground (arith, h)) inv

-- Every step of a thread keeps the invariant.
pub Step-Inv : {n : ℕ} {s t : System} → Step n s t → Inv s → Inv t
Step-Inv (submits job addr p w free run signal) inv =
    Signal-Inv (submits-Inv inv job addr p free run) signal
Step-Inv (sleeps i lt at turn) inv = sleeps-Inv inv i at
Step-Inv (awakes i lt at) inv = awakes-Inv inv i at
Step-Inv (begins i a j p lt at turn) inv = begins-Inv inv i a j p turn at
Step-Inv (finishes i a j lt at) inv = finishes-Inv inv i a j at
Step-Inv (leaves i lt at turn) inv = leaves-Inv inv i at turn
Step-Inv stops inv = broadcast-Inv (stops-Inv inv)

init-Inv : (env : CreateEnv) (n : ℕ) (p : Pool) → thread_pool_create env n ≡ some p → Inv (init p)
unfolding thread_pool_create
init-Inv env n p made = record {
  queue = [];
  holds = record { linked = tt; at_head = ground arith; at_tail = ground arith; apart = refl };
  order = refl;
  alive = λ i a j h. cc;
  outside = λ i a j h. cc;
  alone = λ i k a b x y h g e. cc;
  owned = λ a live. absurd (live (ground arith));
  over = λ i h. cc;
}

pub Reach-Inv :
    {n : ℕ} {p : Pool} {s : System} (env : CreateEnv)
    → thread_pool_create env n ≡ some p
    → Reach n p s
    → Inv s
Reach-Inv {n} {p} env made start = init-Inv env n p made
Reach-Inv env made (later r st) = Step-Inv st (Reach-Inv env made r)
