-- ===== src/Pool/Workers/Invariant.antt =====
-- What holds of the pool and its workers in every state that is reached.
use operation_systems.Base.{
  ℕ, ◌≡◌, ◌≢◌, refl, ap, ◌⊎◌, inl, inr, true, false, List, [], ◌∷◌, ◌++◌, Option, none, arith,
}
use operation_systems.Base.Store.{update, contains}
use operation_systems.Pool.{Task, exits, worker_turn, free_task, request_stop}
use operation_systems.Pool.Queue.{addresses, jobs, Linked, Holds, Linked-update}
use operation_systems.Pool.Workers.{Worker, ready, gone, running, System}

pub record Inv (s : System) : Type 0 where
  pub queue : List (ℕ × ℕ)
  pub holds : Holds s.pool queue
  pub order : s.accepted_jobs ≡ s.started_jobs ++ jobs queue
  pub alive : (i a j : ℕ) → s.workers i ≡ running a j → s.pool.tasks a ≢ none
  pub outside : (i a j : ℕ) → s.workers i ≡ running a j → contains a (addresses queue) ≡ false
  pub alone :
      (i k a b x y : ℕ) → s.workers i ≡ running a x → s.workers k ≡ running b y → a ≡ b → i ≡ k
  pub owned :
      (a : ℕ)
      → s.pool.tasks a ≢ none
      → (contains a (addresses queue) ≡ true) ⊎ ((i j : ℕ) × (s.workers i ≡ running a j))
  pub over : (i : ℕ) → s.workers i ≡ gone → (s.pool.stop ≡ true) × (queue ≡ [])

-- What wakes or puts to sleep workers, and moves no task, keeps the invariant.
pub moved-Inv :
    {s : System} (w : ℕ → Worker)
    → ((i a j : ℕ) → w i ≡ running a j → s.workers i ≡ running a j)
    → ((i a j : ℕ) → s.workers i ≡ running a j → w i ≡ running a j)
    → ((i : ℕ) → w i ≡ gone → s.workers i ≡ gone)
    → Inv s
    → Inv (record s { workers = w })
moved-Inv w back forth gone_before inv = record {
  queue = inv.queue;
  holds = inv.holds;
  order = inv.order;
  alive = λ i a j h. inv.alive i a j (back i a j h);
  outside = λ i a j h. inv.outside i a j (back i a j h);
  alone = λ i k a b x y h g e. inv.alone i k a b x y (back i a x h) (back k b y g) e;
  owned = λ a live. elim (inv.owned a live) [
    | inl queued ↦ inl queued
    | inr (i, j, at) ↦ inr (i, j, forth i a j at)
  ];
  over = λ i h. inv.over i (gone_before i h);
}

-- A task of the queue stands in the heap.
pub queued-live :
    (tasks : ℕ → Option Task) (q : List (ℕ × ℕ)) (a : ℕ)
    → Linked tasks q
    → tasks a ≡ none
    → contains a (addresses q) ≡ false
queued-live tasks [] a l h = refl
queued-live tasks ((b, j) ∷ q) a l h = ground (arith, queued-live tasks q a l.1 h)

pub jobs-append : (q : List (ℕ × ℕ)) (a j : ℕ) → jobs (q ++ ((a, j) ∷ [])) ≡ jobs q ++ (j ∷ [])
jobs-append [] a j = refl
jobs-append ((b, k) ∷ q) a j = ap (◌∷◌ k) (jobs-append q a j)

pub contains-append_other :
    (a : ℕ) (q : List (ℕ × ℕ)) (b j : ℕ)
    → a ≢ b
    → contains a (addresses q) ≡ false
    → contains a (addresses (q ++ ((b, j) ∷ []))) ≡ false
contains-append_other a [] b j n h = ground arith
contains-append_other a ((c, k) ∷ q) b j n h = ground (arith, contains-append_other a q b j n)

pub contains-append_new :
    (a : ℕ) (q : List (ℕ × ℕ)) (b j : ℕ)
    → a ≡ b
    → contains a (addresses (q ++ ((b, j) ∷ []))) ≡ true
contains-append_new a [] b j e = ground (arith, e)
contains-append_new a ((c, k) ∷ q) b j e = ground (arith, contains-append_new a q b j e)

pub contains-append_old :
    (a : ℕ) (q : List (ℕ × ℕ)) (b j : ℕ)
    → contains a (addresses q) ≡ true
    → contains a (addresses (q ++ ((b, j) ∷ []))) ≡ true
contains-append_old a [] b j h = ground (arith, h)
contains-append_old a ((c, k) ∷ q) b j h = ground (arith, h, contains-append_old a q b j)

module _ {s : System} (inv : Inv s) where
  open inv use {queue, holds, order, alive, outside, alone, owned, over}

  pub finishes-Inv :
      (i a j : ℕ)
      → s.workers i ≡ running a j
      → Inv (record s { pool = free_task s.pool a; workers = update s.workers i ready })
  finishes-Inv i a j at = record {
    queue = queue;
    holds = record {
      linked = Linked-update s.pool.tasks queue a none (outside i a j at) holds.linked;
      at_head = holds.at_head;
      at_tail = holds.at_tail;
      apart = holds.apart;
    };
    order = order;
    alive = λ k b x h. ground (arith, alive k b x, alone i k a b j x);
    outside = λ k b x h. ground (arith, outside k b x);
    alone = λ k m b c x y h g e. ground (arith, alone k m b c x y);
    owned = λ b live. elim (owned b (λ e. live (ground (arith, e)))) [
      | inl queued ↦ inl queued
      | inr (k, x, h) ↦ inr (k, x, ground (arith, live, h, at))
    ];
    over = λ k h. ground (arith, over k);
  }

  pub leaves-Inv :
      (i : ℕ)
      → s.workers i ≡ ready
      → worker_turn s.pool ≡ exits
      → Inv (record s { workers = update s.workers i gone })
  unfolding worker_turn
  leaves-Inv i at turn = record {
    queue = queue;
    holds = holds;
    order = order;
    alive = λ k b x h. ground (arith, alive k b x);
    outside = λ k b x h. ground (arith, outside k b x);
    alone = λ k m b c x y h g e. ground (arith, alone k m b c x y);
    owned = λ b live. elim (owned b live) [
      | inl queued ↦ inl queued
      | inr (k, x, h) ↦ inr (k, x, ground (arith, at, h))
    ];
    over = λ k h. ended queue holds;
  }
    where
      ended : (q : List (ℕ × ℕ)) → Holds s.pool q → (s.pool.stop ≡ true) × (q ≡ [])
      ended [] h = (ground (arith, h.at_head), refl)
      ended ((b, k) ∷ q) h = absurd (ground (arith, h.at_head, h.linked))

  pub stops-Inv : Inv (record s { pool = request_stop s.pool })
  stops-Inv = record {
    queue = queue;
    holds = record {
      linked = holds.linked;
      at_head = holds.at_head;
      at_tail = holds.at_tail;
      apart = holds.apart;
    };
    order = order;
    alive = alive;
    outside = outside;
    alone = alone;
    owned = owned;
    over = λ i h. (refl, (over i h).1);
  }
