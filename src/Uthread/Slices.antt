-- ===== src/Uthread/Slices.antt =====
-- The slices of the threads that run, one after another.
use operation_systems.Base.{
  ℕ, zero, suc, ◌+◌, ◌≤◌, ◌≡◌, refl, true, false, List, [], ◌∷◌, some, arith,
}
use operation_systems.Base.Store.{update, contains, distinct}
use operation_systems.Uthread.{
  ready, running, finished, Thread, World, set_state, q_push, q_pop_ready, to_thread, resume, pick,
  uthread_yield, run,
}

-- A queue of threads with the calls of `uthread_yield` that each has left.
abbrev pub addresses : List (ℕ × ℕ) → List ℕ
addresses [] = []
addresses ((a, n) ∷ q) = a ∷ addresses q

abbrev pub Waiting : (ℕ → Thread) → List (ℕ × ℕ) → Type 0
Waiting th [] = Unit
Waiting th ((a, n) ∷ q) = ((th a).state ≡ ready) × ((th a).left ≡ n) × Waiting th q

-- The slices of a thread that runs to its end.
abbrev pub slices : ℕ → ℕ → List ℕ → List ℕ
slices a zero rest = a ∷ rest
slices a (suc n) rest = a ∷ slices a n rest

abbrev pub schedule : List (ℕ × ℕ) → List ℕ
schedule [] = []
schedule ((a, n) ∷ q) = slices a n (schedule q)

abbrev pub work : List (ℕ × ℕ) → ℕ
work [] = 0
work ((a, n) ∷ q) = n + 1 + work q

pub Waiting-update :
    (th : ℕ → Thread) (t : Thread) (a : ℕ) (q : List (ℕ × ℕ))
    → contains a (addresses q) ≡ false
    → Waiting th q
    → Waiting (update th a t) q
Waiting-update th t a [] h w = tt
Waiting-update th t a ((b, n) ∷ q) h (s, l, w) =
    (ground arith, ground arith, Waiting-update th t a q (ground arith) w)

-- A running thread that yields, as its own push and pop leave it.
abbrev pub yielded : World → ℕ → World
yielded w c = resume (record (set_state w c ready) { readyq = w.readyq }) c

uthread_yield-running :
    (w : World) (c : ℕ)
    → w.current ≡ some c
    → (w.threads c).state ≡ running
    → contains c w.readyq ≡ false
    → uthread_yield w ≡ to_thread (yielded w c)
unfolding uthread_yield pick q_pop_ready q_push
uthread_yield-running w c cur run new = ground (arith, cur, run, new)

-- In a world whose current thread is running and not in the ready queue, `uthread_yield` switches
-- back to the thread that called it, whatever other threads are ready, and changes nothing.
yield_never_gives_way :
    (w : World) (c : ℕ)
    → w.current ≡ some c
    → (w.threads c).state ≡ running
    → contains c w.readyq ≡ false
    → (v : World) × (uthread_yield w ≡ to_thread v)
      × (v.current ≡ some c)
      × (v.readyq ≡ w.readyq)
      × ((j : ℕ) → v.threads j ≡ w.threads j)
yield_never_gives_way w c cur run new =
    (yielded w c, uthread_yield-running w c cur run new, refl, refl, λ j. ground (arith, run))

pub record Ended (th th' : ℕ → Thread) (q : List ℕ) : Type 0 where
  pub done : (j : ℕ) → contains j q ≡ true → ((th' j).state ≡ finished) × ((th' j).left ≡ 0)
  pub kept : (j : ℕ) → (th' j).stack ≡ (th j).stack
  pub outside : (j : ℕ) → contains j q ≡ false → th' j ≡ th j

-- The run of thread `c`, with `n` calls left, and of those in the queue behind it.
abbrev pub RunsTo : ℕ → World → ℕ → ℕ → List (ℕ × ℕ) → Type 0
RunsTo k w c n q =
    (v : World) × (run k w ≡ some (v, slices c n (schedule q)))
    × (v.readyq ≡ [])
    × Ended w.threads v.threads (c ∷ addresses q)

pub record Runs (w : World) (c n : ℕ) (q : List (ℕ × ℕ)) : Type 0 where
  pub current : w.current ≡ some c
  pub state : (w.threads c).state ≡ running
  pub left : (w.threads c).left ≡ n
  pub queue : w.readyq ≡ addresses q
  pub waiting : Waiting w.threads q
  pub apart : distinct (c ∷ addresses q) ≡ true

-- A slice that ends with a call of `uthread_yield`, and the world behind it.
abbrev pub less : World → ℕ → ℕ → World
less w c n = record w { threads = update w.threads c (record (w.threads c) { left = n }) }

run-yield :
    (k : ℕ) (w : World) (c n : ℕ) (q : List (ℕ × ℕ))
    → Runs w c (suc n) q
    → RunsTo k (yielded (less w c n) c) c n q
    → RunsTo (suc k) w c (suc n) q
unfolding run
run-yield k w c n q r (v, eq, e, d) =
    let y =
      uthread_yield-running (less w c n) c r.current (ground (arith, r.state))
        (ground (arith, r.queue, r.apart)) in
    (
      v,
      ground (arith, r.current, r.left, y, eq),
      e,
      record {
        done = d.done;
        kept = λ j. ground (arith, d.kept j);
        outside = λ j h. ground (arith, d.outside j h);
      },
    )

-- A thread that returns, with no other ready.
run-last : (k : ℕ) (w : World) (c : ℕ) → Runs w c 0 [] → RunsTo (suc k) w c 0 []
unfolding run uthread_yield pick q_pop_ready
run-last k w c r = (
  set_state w c finished,
  ground (arith, r.current, r.left, r.queue),
  r.queue,
  record {
    done = λ j h. ground (arith, r.left);
    kept = λ j. ground arith;
    outside = λ j h. ground arith;
  },
)

-- A thread that returns, and the next one that is ready.
abbrev pub next : World → ℕ → ℕ → List ℕ → World
next w c a rest = resume (record (set_state w c finished) { readyq = rest }) a

run-next :
    (k : ℕ) (w : World) (c a m : ℕ) (q : List (ℕ × ℕ))
    → Runs w c 0 ((a, m) ∷ q)
    → RunsTo k (next w c a (addresses q)) a m q
    → RunsTo (suc k) w c 0 ((a, m) ∷ q)
unfolding run uthread_yield pick q_pop_ready
run-next k w c a m q r (v, eq, e, d) = (
  v,
  ground (arith, r.current, r.left, r.queue, r.waiting, r.apart, eq),
  e,
  record {
    done = λ j h. ground (arith, d.done j, d.outside j, r.left, r.apart);
    kept = λ j. ground (arith, d.kept j);
    outside = λ j h. ground (arith, d.outside j);
  },
)

pub run_of :
    (k : ℕ) (w : World) (c n : ℕ) (q : List (ℕ × ℕ))
    → Runs w c n q
    → work ((c, n) ∷ q) ≤ k
    → RunsTo k w c n q
run_of zero w c n q r b = ground arith
run_of (suc k) w c (suc n) q r b = run-yield k w c n q r (
    run_of k (yielded (less w c n) c) c n q
      (record {
        current = refl;
        state = ground arith;
        left = ground arith;
        queue = r.queue;
        waiting = Waiting-update _ _ c q (ground (arith, r.apart)) (
            Waiting-update _ _ c q (ground (arith, r.apart))
              (Waiting-update _ _ c q (ground (arith, r.apart)) r.waiting));
        apart = r.apart;
      })
      (omega arith))
run_of (suc k) w c zero [] r b = run-last k w c r
run_of (suc k) w c zero ((a, m) ∷ q) r b = run-next k w c a m q r (
    run_of k (next w c a (addresses q)) a m q
      (record {
        current = refl;
        state = ground arith;
        left = ground (arith, r.waiting, r.apart);
        queue = refl;
        waiting =
            let (_, _, rest) = r.waiting in
            Waiting-update _ _ a q (ground (arith, r.apart))
              (Waiting-update _ _ c q (ground (arith, r.apart)) rest);
        apart = ground (arith, r.apart);
      })
      (omega arith))
