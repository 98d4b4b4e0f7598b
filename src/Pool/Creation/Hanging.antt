-- ===== src/Pool/Creation/Hanging.antt =====
-- A failure of `pthread_create` that `threadPoolCreate` does not return from.
use operation_systems.Base.{ℕ, ◌≤◌, ◌≡◌, refl, true, none, arith}
use operation_systems.Pool.Creation.{
  absent, locking, asleep, joining, System, Step, creates, finishes, fails, broadcasts, joins,
  locks, passes, stops, sleeps, leaves, awakes, Reach, start, later,
}

-- Worker 0 sleeps behind the broadcast.
abbrev pub Sleeps : System → Type 0
Sleeps s =
    (s.creator ≡ joining 1)
    × (s.owner ≡ none)
    × (s.workers 0 ≡ asleep)
    × (s.stop ≡ true)
    × ((i : ℕ) → 1 ≤ i → s.workers i ≡ absent)

-- Only a wake-up without a signal leads on.
stuck : {num : ℕ} {s t : System} → Sleeps s → Step num s t → t.workers 0 ≡ locking
stuck (c, o, w, set, others) (creates k q less) = absurd (cc (c, q))
stuck (c, o, w, set, others) (finishes q) = absurd (cc (c, q))
stuck (c, o, w, set, others) (fails k q less) = absurd (cc (c, q))
stuck (c, o, w, set, others) (broadcasts k q) = absurd (cc (c, q))
stuck (c, o, w, set, others) (joins k q all) = absurd (ground (arith, all 0, c, q, w))
stuck (c, o, w, set, others) (locks i at free) = absurd (ground (arith, others i, w, at))
stuck (c, o, w, set, others) (passes i at going) = absurd (ground (arith, others i, w, at))
stuck (c, o, w, set, others) (stops i at stopping) = absurd (ground (arith, others i, w, at))
stuck (c, o, w, set, others) (sleeps i at) = absurd (ground (arith, others i, w, at))
stuck (c, o, w, set, others) (leaves i at) = absurd (ground (arith, others i, w, at))
stuck (c, o, w, set, others) (awakes i at) = ground (arith, others i, w, at)

-- The first worker tests `stop`; the second cannot be created, `stop` is set and nobody is woken; and
-- the first worker begins to wait.
missed_broadcast : (num : ℕ) → 2 ≤ num → (s : System) × Reach num s × Sleeps s
missed_broadcast num enough = (
  _,
  later
      (later
        (later
          (later (later (later start (creates 0 refl (omega arith))) (locks 0 refl refl))
            (passes 0 refl refl))
          (fails 1 refl (omega arith)))
        (broadcasts 1 refl))
      (sleeps 0 refl),
  (refl, refl, refl, refl, λ i h. ground (arith, h)),
)

-- With two workers or more to create, `threadPoolCreate` can fail and not return: a state is reached in
-- which it joins the one worker that it created, that worker sleeps in `pthread_cond_wait` although
-- `stop` is set, and no step leads on but a wake-up of this worker without a signal.
pub creation_can_hang :
    (num : ℕ)
    → 2 ≤ num
    → (s : System) × Reach num s
      × (s.creator ≡ joining 1)
      × (s.workers 0 ≡ asleep)
      × (s.stop ≡ true)
      × ((t : System) → Step num s t → t.workers 0 ≡ locking)
creation_can_hang num enough =
    let (s, r, still) = missed_broadcast num enough in
    (s, r, still.0, still.2, still.3, λ t st. stuck still st)
