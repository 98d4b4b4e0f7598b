-- ===== src/Examples/Races.antt =====
-- `run_test(worker_race, "no-lock")` with its 16 threads of 1000000 iterations.
use operation_systems.Base.{ℕ, ◌*◌, ◌<◌, ◌≡◌, false, arith}
use operation_systems.Locks.Race.{finished, System, Reach, prints_ok}
use operation_systems.Locks.Race.Ending.{race_loses}

race_loses_example :
    (s : System) × Reach 16 1000000 s
    × ((i : ℕ) → i < 16 → s.pc i ≡ finished)
    × (s.counter < 16 * 1000000)
    × (prints_ok 16 1000000 s.counter ≡ false)
race_loses_example = race_loses 16 1000000 (omega arith) (omega arith)
