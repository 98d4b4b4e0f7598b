-- ===== src/Examples/Creations.antt =====
-- A pool whose second worker cannot be created.
use operation_systems.Base.{◌≡◌, refl, true, arith}
use operation_systems.Pool.Creation.{
  asleep, locking, joining, freed, System, Step, creates, fails, broadcasts, joins, locks, stops,
  leaves, Reach, start, later,
}
use operation_systems.Pool.Creation.Failing.{is_over, freed_pool_unused}
use operation_systems.Pool.Creation.Hanging.{creation_can_hang}

creation_can_hang_example :
    (s : System) × Reach 8 s
    × (s.creator ≡ joining 1)
    × (s.workers 0 ≡ asleep)
    × (s.stop ≡ true)
    × ((t : System) → Step 8 s t → t.workers 0 ≡ locking)
creation_can_hang_example = creation_can_hang 8 (omega arith)

-- The first worker begins its loop behind the broadcast, and leaves it.
first_leaves : (s : System) × Reach 2 s × (s.creator ≡ freed)
first_leaves = (
  _,
  later
      (later
        (later
          (later
            (later (later (later start (creates 0 refl (omega arith))) (fails 1 refl (omega arith)))
              (broadcasts 1 refl))
            (locks 0 refl refl))
          (stops 0 refl refl))
        (leaves 0 refl))
      (joins 1 refl (λ i h. ground (arith, h))),
  refl,
)

freed_pool_unused_example : is_over (first_leaves.0.workers 0) ≡ true
freed_pool_unused_example = freed_pool_unused 0 first_leaves.1 first_leaves.2
