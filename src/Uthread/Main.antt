-- ===== src/Uthread/Main.antt =====
-- 1.7/main.c: threads that print and yield three times each.
--
-- A thread is known by its identifier. What the program prints is the list of its lines, each with
-- the identifier of the thread and the iteration.
pub mod Turns
use operation_systems.Base.{ℕ, suc, Bool, List, [], ◌∷◌, Option, none, some, if◌then◌else◌, ltb}
use operation_systems.Base.Store.{update}
use operation_systems.Uthread.{
  finished, null, World, CreateEnv, created, not_created, broken_queue, uthread_create,
  uthread_run_all,
}

-- How often `worker` calls `uthread_yield`.
abbrev iterations : ℕ
iterations = 3

-- Before the first thread is created.
abbrev no_threads : World
no_threads = record {
  current = none;
  readyq = [];
  threads = λ _. record { state = finished; stack = null; left = 0 };
}

-- The creations in order, up to the first that fails.
create_all : World → List (ℕ × CreateEnv) → Option World
unfolding uthread_create
create_all w [] = some w
create_all w ((id, env) ∷ more) = elim (uthread_create env w (some id) (some iterations)) [
  | created v ↦ create_all v more
  | not_created v ↦ none
  | broken_queue ↦ none
]

-- A slice prints, unless it is the one that ends the thread.
abbrev line : ℕ → ℕ → List (ℕ × ℕ) → List (ℕ × ℕ)
line id i rest = if ltb i iterations then (id, i) ∷ rest else rest

-- The lines of the slices of a run; `seen` counts the slices that each thread has had.
lines : (ℕ → ℕ) → List ℕ → List (ℕ × ℕ)
lines seen [] = []
lines seen (id ∷ trace) = line id (seen id) (lines (update seen id (suc (seen id))) trace)

ended : Option (World × List ℕ) → Option (ℕ × List (ℕ × ℕ))
unfolding lines
ended none = none
ended (some (w, trace)) = some (0, lines (λ _. 0) trace)

run_created : ℕ → Option World → Option (ℕ × List (ℕ × ℕ))
unfolding uthread_run_all ended
run_created k none = some (1, [])
run_created k (some w) = ended (uthread_run_all k w)

-- The exit code of `main` with what was printed, for any threads; on fuel.
program : ℕ → List (ℕ × CreateEnv) → Option (ℕ × List (ℕ × ℕ))
unfolding create_all run_created
program k threads = run_created k (create_all no_threads threads)

-- `main`, with what `malloc` and `getcontext` answer for each of its threads.
main : CreateEnv → CreateEnv → CreateEnv → Option (ℕ × List (ℕ × ℕ))
unfolding program
main env1 env2 env3 = program 13 ((1, env1) ∷ (2, env2) ∷ (3, env3) ∷ [])
