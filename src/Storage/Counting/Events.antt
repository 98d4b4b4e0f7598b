-- ===== src/Storage/Counting/Events.antt =====
-- The events that the counters of 2.3 are there to count, from what the threads do to the list.
use operation_systems.Base.{
  ℕ, ◌+◌, ◌≡◌, refl, sym, ap, ◌∙◌, Bool, true, false, Option, none, some, arith, length, ◌==◌,
  if◌then◌else◌,
}
use operation_systems.Storage.{Storage}
use operation_systems.Storage.Jobs.{Job, traversing, swapping, monitoring}
use operation_systems.Storage.Threads
use operation_systems.Storage.Threads.{Pc, Act, SwapMove, TraverseMove}
use operation_systems.Storage.Counting.{
  System, Step, works, Reach, start, later, counter_of, due_at,
}

-- A swap: the last of its three writes.
abbrev pub is_swap :
    {need : ℕ → ℕ → Bool} {s : Storage} {p : Pc} {act : Act} {q : Pc}
    → SwapMove need s p act q
    → Bool
is_swap SwapMove.write_b = true
is_swap _ = false

abbrev pub swap_event :
    Job
    → {need : ℕ → ℕ → Bool} {s : Storage} {p : Pc} {act : Act} {q : Pc} → SwapMove need s p act q
    → Option ℕ
swap_event (swapping need_swap swap_counter) move = if is_swap move then some swap_counter else none
swap_event _ move = none

-- A pair of neighbours whose lengths match, and the end of a pass.
abbrev pub traverse_event :
    Job → {s : Storage} {p : Pc} {act : Act} {q : Pc} → TraverseMove s p act q → Option ℕ
traverse_event (traversing match_pred iter_counter pairs_counter)
      (TraverseMove.compare {x = x} {y = y} _ _) =
    if match_pred (length x.value) (length y.value) then some pairs_counter else none
traverse_event (traversing match_pred iter_counter pairs_counter) TraverseMove.end =
    some iter_counter
traverse_event _ move = none

-- The counter of the event that a step of a thread is, if it is one.
abbrev pub event_of :
    {n : ℕ} {shared : Bool} {need : ℕ → ℕ → ℕ → Bool} {s : Threads.System} {i : ℕ}
    {t : Threads.System}
    → Job
    → Threads.Step n shared need s i t
    → Option ℕ
event_of job (Threads.swaps p act q _ _ move _) = swap_event job move
event_of job (Threads.traverses p act q _ _ move _) = traverse_event job move

abbrev pub one_at : ℕ → Option ℕ → ℕ
one_at p none = 0
one_at p (some q) = if q == p then 1 else 0

abbrev pub after :
    {n : ℕ} {shared : Bool} {jobs : ℕ → Job} {s : System} {i : ℕ} {t : System}
    → Step n shared jobs s i t
    → (ℕ → ℕ)
    → ℕ
    → ℕ
after {jobs = jobs} {i = i} (works t _ _ step) before =
    λ p. one_at p (event_of (jobs i) step) + before p
after _ before = before

-- How many events a run has had, for each counter.
abbrev pub events :
    {n : ℕ} {shared : Bool} {jobs : ℕ → Job} {storage : Storage} {s : System}
    → Reach n shared jobs storage s
    → ℕ
    → ℕ
events start = λ p. 0
events (later r i within step) = after step (events r)

swap_due :
    (job : Job) {need : ℕ → ℕ → Bool} {s : Storage} {p : Pc} {act : Act} {q : Pc}
    (move : SwapMove need s p act q)
    → swap_event job move ≡ counter_of job s.nodes p
swap_due monitoring move = refl
swap_due (swapping _ _) (SwapMove.call _ _ _) = refl
swap_due (swapping _ _) SwapMove.lock_first = refl
swap_due (swapping _ _) (SwapMove.no_first _) = refl
swap_due (swapping _ _) (SwapMove.read_first _) = refl
swap_due (swapping _ _) SwapMove.lock_second = refl
swap_due (swapping _ _) SwapMove.walked = refl
swap_due (swapping _ _) (SwapMove.break _) = refl
swap_due (swapping _ _) (SwapMove.read_next _) = refl
swap_due (swapping _ _) SwapMove.lock_next = refl
swap_due (swapping _ _) SwapMove.advance = refl
swap_due (swapping _ _) (SwapMove.no_third _) = refl
swap_due (swapping _ _) (SwapMove.read_third _) = refl
swap_due (swapping _ _) SwapMove.lock_third = refl
swap_due (swapping _ _) (SwapMove.keep _ _ _) = refl
swap_due (swapping _ _) (SwapMove.write_prev _ _ _) = refl
swap_due (swapping _ _) (SwapMove.write_a _) = refl
swap_due (swapping _ _) SwapMove.write_b = refl
swap_due (swapping _ _) SwapMove.unlock3 = refl
swap_due (swapping _ _) SwapMove.unlock2 = refl
swap_due (swapping _ _) SwapMove.unlock1 = refl
swap_due (traversing _ _ _) (SwapMove.call _ _ _) = refl
swap_due (traversing _ _ _) SwapMove.lock_first = refl
swap_due (traversing _ _ _) (SwapMove.no_first _) = refl
swap_due (traversing _ _ _) (SwapMove.read_first _) = refl
swap_due (traversing _ _ _) SwapMove.lock_second = refl
swap_due (traversing _ _ _) SwapMove.walked = refl
swap_due (traversing _ _ _) (SwapMove.break _) = refl
swap_due (traversing _ _ _) (SwapMove.read_next _) = refl
swap_due (traversing _ _ _) SwapMove.lock_next = refl
swap_due (traversing _ _ _) SwapMove.advance = refl
swap_due (traversing _ _ _) (SwapMove.no_third _) = refl
swap_due (traversing _ _ _) (SwapMove.read_third _) = refl
swap_due (traversing _ _ _) SwapMove.lock_third = refl
swap_due (traversing _ _ _) (SwapMove.keep _ _ _) = refl
swap_due (traversing _ _ _) (SwapMove.write_prev _ _ _) = refl
swap_due (traversing _ _ _) (SwapMove.write_a _) = refl
swap_due (traversing _ _ _) SwapMove.write_b = refl
swap_due (traversing _ _ _) SwapMove.unlock3 = refl
swap_due (traversing _ _ _) SwapMove.unlock2 = refl
swap_due (traversing _ _ _) SwapMove.unlock1 = refl

traverse_due :
    (job : Job) {s : Storage} {p : Pc} {act : Act} {q : Pc} (move : TraverseMove s p act q)
    → traverse_event job move ≡ counter_of job s.nodes p
traverse_due monitoring move = refl
traverse_due (swapping _ _) TraverseMove.begin = refl
traverse_due (swapping _ _) TraverseMove.lock_first = refl
traverse_due (swapping _ _) (TraverseMove.no_first _) = refl
traverse_due (swapping _ _) (TraverseMove.read_first _) = refl
traverse_due (swapping _ _) TraverseMove.lock_second = refl
traverse_due (swapping _ _) TraverseMove.leave_first = refl
traverse_due (swapping _ _) (TraverseMove.last _) = refl
traverse_due (swapping _ _) (TraverseMove.read_next _) = refl
traverse_due (swapping _ _) TraverseMove.lock_next = refl
traverse_due (swapping _ _) (TraverseMove.compare _ _) = refl
traverse_due (swapping _ _) TraverseMove.leave = refl
traverse_due (swapping _ _) TraverseMove.end = refl
traverse_due (traversing _ _ _) TraverseMove.begin = refl
traverse_due (traversing _ _ _) TraverseMove.lock_first = refl
traverse_due (traversing _ _ _) (TraverseMove.no_first _) = refl
traverse_due (traversing _ _ _) (TraverseMove.read_first _) = refl
traverse_due (traversing _ _ _) TraverseMove.lock_second = refl
traverse_due (traversing _ _ _) TraverseMove.leave_first = refl
traverse_due (traversing _ _ _) (TraverseMove.last _) = refl
traverse_due (traversing _ _ _) (TraverseMove.read_next _) = refl
traverse_due (traversing _ _ _) TraverseMove.lock_next = refl
traverse_due (traversing _ _ _) (TraverseMove.compare l r) = ground (arith, l, r)
traverse_due (traversing _ _ _) TraverseMove.leave = refl
traverse_due (traversing _ _ _) TraverseMove.end = refl

-- A thread calls `inc_long` where its step is an event, for the counter of that event.
pub event-due_at :
    {n : ℕ} {shared : Bool} {need : ℕ → ℕ → ℕ → Bool} (jobs : ℕ → Job) (s : System) (i : ℕ)
    {t : Threads.System} (step : Threads.Step n shared need s.base i t)
    → event_of (jobs i) step ≡ due_at jobs s i
event-due_at jobs s i (Threads.swaps p act q _ at move _) =
    swap_due (jobs i) move ∙ ap (counter_of (jobs i) s.base.storage.nodes) (sym at)
event-due_at jobs s i (Threads.traverses p act q _ at move _) =
    traverse_due (jobs i) move ∙ ap (counter_of (jobs i) s.base.storage.nodes) (sym at)
