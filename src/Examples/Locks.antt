-- ===== src/Examples/Locks.antt =====
-- A thread that counts under the mutex, and three threads of which one is not woken.
use operation_systems.Base.{ℕ, ◌≡◌, ◌≢◌, refl, arith}
use operation_systems.Base.Store.{update}
use operation_systems.Locks.Mutex.{
  idle, sleeping, entered, calling_wake, retrying, first_try, System, Step, moves, Reach, start,
  later,
}
use operation_systems.Locks.Mutex.Exclusion.{mutual_exclusion}
use operation_systems.Locks.Mutex.Wakeup.{Leads, lost_wakeup}

-- Thread 1 of two has the mutex.
abbrev locked : System
locked = record {
  shared = record { state = 1; counter = 0; increments = 0 };
  pc = update (λ _. idle) 1 entered;
}

reach_locked : Reach 2 locked
reach_locked = later start (moves 1 locked.shared idle entered (omega arith) refl (first_try refl))

mutual_exclusion_example : ◌≡◌ {A = ℕ} 1 1
mutual_exclusion_example = mutual_exclusion reach_locked 1 1 refl refl

lost_wakeup_example :
    (s : System) × (t : System) × (u : System) × (v : System) × Reach 3 s
    × ((s.shared.state ≡ 2) × (s.pc 0 ≡ entered) × (s.pc 1 ≡ sleeping) × (s.pc 2 ≡ sleeping))
    × Leads 3 s t
    × ((t.shared.state ≡ 0) × (t.pc 0 ≡ calling_wake) × (t.pc 1 ≡ sleeping) × (t.pc 2 ≡ sleeping))
    × Step 3 t u
    × ((u.pc 0 ≡ idle) × (u.pc 1 ≡ retrying) × (u.pc 2 ≡ sleeping))
    × Leads 3 u v
    × ((v.shared.state ≡ 0) × (v.pc 2 ≡ sleeping) × ((j : ℕ) → j ≢ 2 → v.pc j ≡ idle))
lost_wakeup_example = lost_wakeup 3 (omega arith)
