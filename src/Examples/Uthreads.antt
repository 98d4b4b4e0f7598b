-- ===== src/Examples/Uthreads.antt =====
-- Two threads that yield once and twice.
use operation_systems.Base.{ℕ, ◌≡◌, refl, true, [], ◌∷◌, none, some, arith}
use operation_systems.Base.Store.{contains}
use operation_systems.Uthread.{finished, null, live, World, resume, uthread_run_all, zeroed}
use operation_systems.Uthread.Run.{Prepared, uthread_run_all_lem}

abbrev no_threads : World
no_threads = record {
  current = none;
  readyq = [];
  threads = λ _. record { state = finished; stack = null; left = 0 };
}

no_threads-Prepared : Prepared no_threads []
no_threads-Prepared = record {
  queue = refl;
  waiting = tt;
  apart = refl;
  live_stacks = λ j h. ground arith;
}

-- Thread 3 is created.
abbrev one_thread : World
one_thread = record (zeroed no_threads 3 live 1) { readyq = 3 ∷ [] }

one_thread-Prepared : Prepared one_thread ((3, 1) ∷ [])
one_thread-Prepared = record {
  queue = refl;
  waiting = (refl, refl, tt);
  apart = refl;
  live_stacks = λ j h. ground arith;
}

-- It runs.
abbrev runs : World
runs = resume (record one_thread { readyq = [] }) 3

-- Thread 4 is created behind thread 3, and runs first.
abbrev two_threads : World
two_threads = record (zeroed one_thread 4 live 2) { readyq = 4 ∷ 3 ∷ [] }

two_threads-Prepared : Prepared two_threads ((4, 2) ∷ (3, 1) ∷ [])
two_threads-Prepared = record {
  queue = refl;
  waiting = (refl, refl, (refl, refl, tt));
  apart = refl;
  live_stacks = λ j h. ground arith;
}

uthread_run_all_lem_example :
    (v : World) × (uthread_run_all 6 two_threads ≡ some (v, 4 ∷ 4 ∷ 4 ∷ 3 ∷ 3 ∷ []))
    × (v.readyq ≡ [])
    × ((j : ℕ) → contains j (4 ∷ 3 ∷ []) ≡ true → (v.threads j).state ≡ finished)
    × ((v.threads 4).stack ≡ null)
    × ((j : ℕ) → contains j (3 ∷ []) ≡ true → (v.threads j).stack ≡ live)
uthread_run_all_lem_example =
    uthread_run_all_lem 6 two_threads 4 2 ((3, 1) ∷ []) two_threads-Prepared (omega arith)
