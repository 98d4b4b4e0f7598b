-- ===== src/Examples/Spins.antt =====
-- Two threads that count once under the spin lock, and the list of 2.3/spinlock.
use operation_systems.Base.{ℕ, ◌*◌, ◌<◌, ◌≡◌, refl, true, arith}
use operation_systems.Locks.Spin.{
  Shared, working, spinning, entered, got, leaving, finished, finish, first_try, first_fail, try,
  try_fail, read, write, unlock, System, moves, Reach, start, later, prints_ok,
}
use operation_systems.Locks.Spin.Counting.{run_test_ok}

abbrev memory : ℕ → ℕ → Shared
memory state counter = record { state = state; counter = counter }

-- Thread 1 finds the lock taken, and spins until thread 0 has released it.
both_done : (s : System) × Reach 2 1 s × (s.pc 0 ≡ finished) × (s.pc 1 ≡ finished)
both_done =
    let zero_in =
      moves 0 (memory 1 0) (working 0) (entered 0) (omega arith) refl
        (first_try (omega arith) refl) in
    let s1 = later start zero_in in
    let s2 = later s1 (
      moves 1 (memory 1 0) (working 0) (spinning 0 16 0) (omega arith) refl
        (first_fail (omega arith) (omega arith))) in
    let s3 = later s2 (
      moves 1 (memory 1 0) (spinning 0 16 0) (spinning 0 16 1) (omega arith) refl
        (try_fail (omega arith) (omega arith))) in
    let s4 = later s3 (moves 0 (memory 1 0) (entered 0) (got 0 0) (omega arith) refl read) in
    let s5 = later s4 (moves 0 (memory 1 1) (got 0 0) (leaving 0) (omega arith) refl write) in
    let s6 = later s5 (moves 0 (memory 0 1) (leaving 0) (working 1) (omega arith) refl unlock) in
    let s7 = later s6 (
      moves 1 (memory 1 1) (spinning 0 16 1) (entered 0) (omega arith) refl
        (try (omega arith) refl)) in
    let s8 = later s7 (moves 1 (memory 1 1) (entered 0) (got 0 1) (omega arith) refl read) in
    let s9 = later s8 (moves 1 (memory 1 2) (got 0 1) (leaving 0) (omega arith) refl write) in
    let s10 = later s9 (moves 1 (memory 0 2) (leaving 0) (working 1) (omega arith) refl unlock) in
    let s11 =
      later s10
        (moves 0 (memory 0 2) (working 1) finished (omega arith) refl (finish (omega arith))) in
    let s12 =
      later s11
        (moves 1 (memory 0 2) (working 1) finished (omega arith) refl (finish (omega arith))) in
    (_, s12, refl, refl)

all_finished : (i : ℕ) → i < 2 → both_done.0.pc i ≡ finished
unfolding both_done
all_finished i h = ground (arith, h)

run_test_ok_example :
    (both_done.0.shared.counter ≡ 2 * 1) × (prints_ok 2 1 both_done.0.shared ≡ true)
run_test_ok_example = run_test_ok both_done.1 all_finished
