-- ===== src/Examples/Countings.antt =====
-- A pass over an empty list, and a snapshot of its counter.
use operation_systems.Base.{ℕ, ◌+◌, ◌<◌, ◌≡◌, ◌≢◌, refl, false, List, [], ◌∷◌, none, some, arith}
use operation_systems.Base.Store.{update}
use operation_systems.Base.Totals.{total}
use operation_systems.Storage.{Storage}
use operation_systems.Storage.Links.{Holds}
use operation_systems.Storage.Threads
use operation_systems.Storage.Threads.{
  idle, visit_first, visiting_first, visited, silent, TraverseMove,
}
use operation_systems.Storage.Jobs.{
  asc_iterations, desc_iterations, equal_iterations, asc_swaps, desc_swaps, equal_swaps,
  shown_counters,
}
use operation_systems.Storage.Main.{job_of_main}
use operation_systems.Storage.Counting.{
  call_for, due_at, init, reading, System, Step, works, locks, loads, stores, unlocks, asks, begins,
  reads, Reach, start, later,
}
use operation_systems.Storage.Counting.Events.{events}
use operation_systems.Storage.Counting.Exact.{pending, counters_exact}
use operation_systems.Storage.Counting.Going.{IsBusy, counters_no_deadlock}

abbrev only_first : Storage
only_first = record {
  first = 5;
  count = 0;
  nodes = update (λ _. none) 5 (some (record { value = []; next = none }));
}

only_first-Holds : Holds only_first ((5, []) ∷ [])
only_first-Holds = record { at_first = refl; linked = (refl, tt); apart = refl }

abbrev Reached : System → Type 0
Reached = Reach 7 false job_of_main only_first

-- Behind a step of thread 0 in its pass.
abbrev passes : System → Threads.Act → Threads.Pc → System
passes s act q = record s {
  base = Threads.moved s.base 0 act q;
  calls = update s.calls 0 (call_for (due_at job_of_main s 0));
}

abbrev begun : System
begun = passes (init only_first) silent (visit_first 5)

abbrev in_pass : System
in_pass = passes begun (Threads.locks 5) (visiting_first 5)

reach_begun : Reached begun
reach_begun = later start 0 (omega arith) (
    works begun.base refl (λ e. refl)
      (Threads.traverses idle silent (visit_first 5) (omega arith) refl TraverseMove.begin tt))

reach_in_pass : Reached in_pass
reach_in_pass = later reach_begun 0 (omega arith) (
    works in_pass.base refl (λ e. absurd (cc e))
      (Threads.traverses (visit_first 5) (Threads.locks 5) (visiting_first 5) (omega arith) refl
        TraverseMove.lock_first (λ j ne has. ground (arith, ne, has))))

in_the_pass : in_pass.base.pc 0 ≢ idle
in_the_pass e = cc

counters_no_deadlock_example :
    (j : ℕ) × IsBusy in_pass j × (j < 7) × ((t : System) × Step 7 false job_of_main in_pass j t)
counters_no_deadlock_example = counters_no_deadlock only_first-Holds reach_in_pass 0 in_the_pass

-- The pass is over, and is to be counted.
abbrev at_last : System
at_last = passes in_pass silent (visited 5)

abbrev over : System
over = passes at_last silent idle

reach_over : Reached over
reach_over =
    later
      (later reach_in_pass 0 (omega arith) (
        works at_last.base refl (λ e. absurd (cc e))
          (Threads.traverses (visiting_first 5) silent (visited 5) (omega arith) refl
            (TraverseMove.no_first refl) tt)))
      0 (omega arith)
      (works over.base refl (λ e. absurd (cc e))
        (Threads.traverses (visited 5) silent idle (omega arith) refl TraverseMove.end tt))

abbrev shown_by_now : List (ℕ × ℕ)
shown_by_now =
    (asc_iterations, 1)
    ∷ (desc_iterations, 0)
    ∷ (equal_iterations, 0)
    ∷ (asc_swaps, 0)
    ∷ (desc_swaps, 0)
    ∷ (equal_swaps, 0)
    ∷ []

-- The pass is and the monitor has read the counters.
snapped : (s : System) × Reached s × (s.calls 6 ≡ reading [] shown_by_now)
snapped =
    let r1 = later reach_over 0 (omega arith) (locks asc_iterations refl refl) in
    let r2 = later r1 0 (omega arith) (loads asc_iterations refl) in
    let r3 = later r2 0 (omega arith) (stores asc_iterations 0 refl) in
    let r4 = later r3 0 (omega arith) (unlocks refl) in
    let r5 = later r4 6 (omega arith) (asks refl refl) in
    let r6 = later r5 6 (omega arith) (begins shown_counters refl refl) in
    let r7 = later r6 6 (omega arith) (reads asc_iterations _ _ refl) in
    let r8 = later r7 6 (omega arith) (reads desc_iterations _ _ refl) in
    let r9 = later r8 6 (omega arith) (reads equal_iterations _ _ refl) in
    let r10 = later r9 6 (omega arith) (reads asc_swaps _ _ refl) in
    let r11 = later r10 6 (omega arith) (reads desc_swaps _ _ refl) in
    let r12 = later r11 6 (omega arith) (reads equal_swaps _ _ refl) in (_, r12, refl)

counters_exact_example :
    snapped.0.counters asc_iterations + total (pending asc_iterations) 7 snapped.0.calls
    ≡ events snapped.1 asc_iterations
counters_exact_example = counters_exact asc_iterations snapped.1
