-- ===== src/Storage/Main.antt =====
-- `main` of 2.3/mutex/main_mutex.c and 2.3/rw/main_rw.c: the list that it makes, and its threads.
--
-- What `main` does behind its threads is never reached: it joins the monitor, which does not return.
pub mod Running
use mathlib.Core.Option
use operation_systems.Base.{ℕ, zero, suc, List, [], ◌∷◌, Option, none, some, get_elem?}
use operation_systems.Base.Int.{ℤ, pos, negsuc}
use operation_systems.Storage.{Storage, storage_init}
use operation_systems.Storage.Jobs.{
  Job, thread_asc, thread_desc, thread_equal, thread_swap_asc, thread_swap_desc, thread_swap_equal,
  thread_monitor,
}

-- The threads that `main` creates, in its order.
abbrev pub threads_of_main : List Job
threads_of_main =
    thread_asc ∷ thread_desc ∷ thread_equal ∷ thread_swap_asc ∷ thread_swap_desc ∷ thread_swap_equal
    ∷ thread_monitor ∷ []

abbrev pub job_of_main : ℕ → Job
job_of_main i = Option.get_or (get_elem? threads_of_main i) thread_monitor

-- What `main` does before its threads: both failures return 1.
pub data Outcome : Type 0 where
  prints_usage prints_failure : Outcome
  starts : Storage → Outcome

-- `arg` is what `atoi` makes of the argument, if there is one; without one, the list has 1000 nodes.
abbrev pub list_size : Option ℤ → Option ℕ
list_size none = some 1000
list_size (some (pos zero)) = none
list_size (some (pos (suc n))) = some (suc n)
list_size (some (negsuc n)) = none

abbrev pub started : Option Storage → Outcome
started none = prints_failure
started (some s) = starts s

abbrev pub made : (ℕ → ℕ) → (ℕ → List ℕ) → Option ℕ → Outcome
made addr word none = prints_usage
made addr word (some n) = started (storage_init addr word n)

pub main : (ℕ → ℕ) → (ℕ → List ℕ) → Option ℤ → Outcome
main addr word arg = made addr word (list_size arg)
