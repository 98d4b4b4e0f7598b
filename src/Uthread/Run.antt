-- ===== src/Uthread/Run.antt =====
-- The order in which the threads run, and what is left of them.
use operation_systems.Base.{
  ℕ, zero, suc, ◌≡◌, refl, true, false, List, [], ◌∷◌, ◌<◌, some, arith, ap, ◌∙◌, append-nil,
}
use operation_systems.Base.Store.{update, contains, distinct}
use operation_systems.Uthread.{
  ready, finished, null, live, World, q_push, q_pop_ready, created, uthread_create, resume, zeroed,
  run, uthread_run_all,
}
use operation_systems.Uthread.Slices.{addresses, Waiting, schedule, work, Waiting-update, run_of}

-- Threads that are created and have not run, the last one first.
pub record Prepared (w : World) (q : List (ℕ × ℕ)) : Type 0 where
  pub queue : w.readyq ≡ addresses q
  pub waiting : Waiting w.threads q
  pub apart : distinct (addresses q) ≡ true
  pub live_stacks : (j : ℕ) → contains j (addresses q) ≡ true → (w.threads j).stack ≡ live

-- If `malloc` and `getcontext` succeed, `uthread_create` of a thread that is not in the ready queue
-- succeeds, and puts the thread, with its stack, before those that were created earlier.
pub uthread_create-Prepared :
    (w : World) (q : List (ℕ × ℕ)) (t n : ℕ)
    → Prepared w q
    → contains t (addresses q) ≡ false
    → (v : World) × (uthread_create
          (record { stack_ok = true; context_ok = true })
          w
          (some t)
          (some n)
        ≡ created v)
      × Prepared v ((t, n) ∷ q)
unfolding uthread_create q_push
uthread_create-Prepared w q t n p new = (
  record (zeroed w t live n) { readyq = t ∷ w.readyq },
  ground (arith, p.queue),
  record {
    queue = ground (arith, p.queue);
    waiting = (ground arith, ground arith, Waiting-update _ _ t q new p.waiting);
    apart = ground (arith, p.apart);
    live_stacks = λ j h. ground (arith, p.live_stacks j);
  },
)

abbrev reaped : World → ℕ → World
reaped v c = record v { threads = update v.threads c (record (v.threads c) { stack = null }) }

run_all-once :
    (k : ℕ) (w v : World) (c : ℕ) (rest trace : List ℕ)
    → q_pop_ready w.threads w.readyq ≡ some (c, rest)
    → run (suc k) (resume (record w { readyq = rest }) c) ≡ some (v, trace)
    → (v.threads c).state ≡ finished
    → (v.threads c).stack ≡ live
    → v.readyq ≡ []
    → uthread_run_all (suc (suc k)) w ≡ some (reaped v c, trace)
unfolding uthread_run_all q_pop_ready
run_all-once k w v c rest trace popped ran over stack empty =
    ground (arith, popped, ran, over, stack, empty)
    ∙ ap (λ (l : List ℕ). some (reaped v c, l)) (append-nil trace)

popped :
    (w : World) (c : ℕ) (rest : List ℕ)
    → w.readyq ≡ c ∷ rest
    → (w.threads c).state ≡ ready
    → q_pop_ready w.threads w.readyq ≡ some (c, rest)
unfolding q_pop_ready
popped w c rest queue state = ground (arith, queue, state)

-- With enough fuel, `uthread_run_all` returns on threads that were created and have not run. They run
-- from the last created to the first, each of them to its end before the next begins; all have
-- finished, and the ready queue is empty. The stack of the thread that ran first is freed, and the
-- stacks of all others are still allocated.
pub uthread_run_all_lem :
    (k : ℕ) (w : World) (c n : ℕ) (q : List (ℕ × ℕ))
    → Prepared w ((c, n) ∷ q)
    → work ((c, n) ∷ q) < k
    → (v : World) × (uthread_run_all k w ≡ some (v, schedule ((c, n) ∷ q)))
      × (v.readyq ≡ [])
      × ((j : ℕ) → contains j (c ∷ addresses q) ≡ true → (v.threads j).state ≡ finished)
      × ((v.threads c).stack ≡ null)
      × ((j : ℕ) → contains j (addresses q) ≡ true → (v.threads j).stack ≡ live)
unfolding uthread_run_all q_pop_ready
uthread_run_all_lem zero w c n q p b = ground arith
uthread_run_all_lem (suc zero) w c n q p b = ground arith
uthread_run_all_lem (suc (suc k)) w c n q p b =
    let first = resume (record w { readyq = addresses q }) c in
    let (state, left, rest) = p.waiting in
    let (v, eq, e, d) =
      run_of (suc k) first c n q
        (record {
          current = refl;
          state = ground arith;
          left = ground (arith, left);
          queue = refl;
          waiting = Waiting-update _ _ c q (ground (arith, p.apart)) rest;
          apart = p.apart;
        })
        (omega arith) in
    (
      reaped v c,
      run_all-once k w v c (addresses q) _ (popped w c (addresses q) p.queue state) eq
          (ground (arith, d.done c)) (ground (arith, d.kept c, p.live_stacks c)) e,
      e,
      λ j h. ground (arith, d.done j h),
      ground arith,
      λ j h. ground (arith, d.kept j, p.live_stacks j, p.apart),
    )
