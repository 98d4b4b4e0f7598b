-- ===== src/Pool/Creation/Failing.antt =====
-- What `threadPoolCreate` leaves behind, and a failure that it does not return from.
use operation_systems.Base.{
  ℕ, ◌<◌, ◌≤◌, ◌≡◌, ◌≢◌, refl, Bool, true, false, Option, none, some, arith, ltb,
}
use operation_systems.Base.Store.{update}
use operation_systems.Pool.Creation.{
  Worker, absent, locking, testing, tested, asleep, exiting, gone, Creator, creating, signalling,
  joining, returned, freed, System, Step, creates, finishes, fails, broadcasts, joins, locks,
  passes, stops, sleeps, leaves, awakes, Reach, start, later,
}

-- How many threads were created, of `num`.
abbrev pub made : ℕ → Creator → ℕ → Bool
made num (creating k) i = ltb i k
made num (signalling k) i = ltb i k
made num (joining k) i = ltb i k
made num returned i = ltb i num
made num freed i = true

abbrev pub failing : Creator → Bool
failing (creating k) = false
failing returned = false
failing _ = true

-- The worker has the lock.
abbrev pub inside : Worker → Bool
inside testing = true
inside tested = true
inside exiting = true
inside _ = false

abbrev is_absent : Worker → Bool
is_absent absent = true
is_absent _ = false

abbrev may_leave : Worker → Bool
may_leave exiting = true
may_leave gone = true
may_leave _ = false

abbrev pub is_over : Worker → Bool
is_over absent = true
is_over gone = true
is_over _ = false

abbrev sleeps_on : Worker → Bool
sleeps_on tested = true
sleeps_on asleep = true
sleeps_on _ = false

pub record Inv (num : ℕ) (s : System) : Type 0 where
  pub stopped : s.stop ≡ failing s.creator
  pub within : (k : ℕ) → s.creator ≡ creating k → k ≤ num
  pub unmade : (i : ℕ) → made num s.creator i ≡ false → is_absent (s.workers i) ≡ true
  pub present :
      (i : ℕ) → s.creator ≢ freed → made num s.creator i ≡ true → is_absent (s.workers i) ≡ false
  pub exclusive : (i : ℕ) → inside (s.workers i) ≡ true → s.owner ≡ some i
  pub leaving : (i : ℕ) → may_leave (s.workers i) ≡ true → s.stop ≡ true
  pub over : s.creator ≡ freed → (i : ℕ) → is_over (s.workers i) ≡ true
  pub sleepers :
      (i j k : ℕ)
      → s.creator ≡ joining k
      → sleeps_on (s.workers i) ≡ true
      → sleeps_on (s.workers j) ≡ true
      → i ≡ j

module _ {num : ℕ} {s : System} (inv : Inv num s) where
  open inv use {stopped, within, unmade, present, exclusive, leaving, over, sleepers}

  -- A worker moves from `w` to `v`, with the lock taken, kept or given up.
  moves-Inv :
      (i : ℕ) (w v : Worker) (o : Option ℕ)
      → s.workers i ≡ w
      → (is_absent w ≡ false) × (is_absent v ≡ false)
      → ((j : ℕ) → j ≢ i → inside (s.workers j) ≡ true → o ≡ some j)
      → (inside v ≡ true → o ≡ some i)
      → (may_leave v ≡ true → s.stop ≡ true)
      → (s.creator ≡ freed → is_over v ≡ true)
      → ((k : ℕ) → s.creator ≡ joining k → sleeps_on v ≡ true → sleeps_on w ≡ true)
      → Inv num (record s { owner = o; workers = update s.workers i v })
  moves-Inv i w v o at (there, stays) others owns out ends naps = record {
    stopped = stopped;
    within = within;
    unmade = λ j h. ground (arith, unmade j h, at, there);
    present = λ j n h. ground (arith, present j n h, stays);
    exclusive = λ j h. ground (arith, others j, owns, h);
    leaving = λ j h. ground (arith, leaving j, out, h);
    over = λ f j. ground (arith, over f j, ends f);
    sleepers = λ j l k q h g.
        ground (arith, sleepers j l k q, sleepers i l k q, sleepers j i k q, naps k q, at, h, g);
  }

  Step-Inv : {t : System} → Step num s t → Inv num t
  Step-Inv (creates k c less) = record {
    stopped = ground (arith, stopped, c);
    within = λ j h. ground (arith, less, h);
    unmade = λ j h. ground (arith, unmade j, c, h);
    present = λ j n h. ground (arith, present j, c, h);
    exclusive = λ j h. ground (arith, exclusive j, h);
    leaving = λ j h. ground (arith, leaving j, h);
    over = λ f j. absurd (cc f);
    sleepers = λ j l m q h g. absurd (cc q);
  }
  Step-Inv (finishes c) = record {
    stopped = ground (arith, stopped, c);
    within = λ j h. absurd (cc h);
    unmade = λ j h. ground (arith, unmade j, c, h);
    present = λ j n h. ground (arith, present j, c, h);
    exclusive = exclusive;
    leaving = leaving;
    over = λ f j. absurd (cc f);
    sleepers = λ j l m q h g. absurd (cc q);
  }
  Step-Inv (fails k c less) = record {
    stopped = refl;
    within = λ j h. absurd (cc h);
    unmade = λ j h. ground (arith, unmade j, c, h);
    present = λ j n h. ground (arith, present j, c, h);
    exclusive = exclusive;
    leaving = λ j h. refl;
    over = λ f j. absurd (cc f);
    sleepers = λ j l m q h g. absurd (cc q);
  }
  Step-Inv (broadcasts k c) = record {
    stopped = ground (arith, stopped, c);
    within = λ j h. absurd (cc h);
    unmade = λ j h. ground (arith, unmade j, c, h);
    present = λ j n h. ground (arith, present j, c, h);
    exclusive = λ j h. ground (arith, exclusive j, h);
    leaving = λ j h. ground (arith, leaving j, h);
    over = λ f j. absurd (cc f);
    sleepers = λ j l m q h g. ground (arith, exclusive j, exclusive l, h, g);
  }
  Step-Inv (joins k c all) = record {
    stopped = ground (arith, stopped, c);
    within = λ j h. absurd (cc h);
    unmade = λ j h. ground (arith, h);
    present = λ j n h. absurd (n refl);
    exclusive = exclusive;
    leaving = leaving;
    over = λ f j. ground (arith, unmade j, all j, c);
    sleepers = λ j l m q h g. absurd (cc q);
  }
  Step-Inv (locks i at free) =
      moves-Inv i locking testing (some i) at (refl, refl)
        (λ j n h. ground (arith, exclusive j, free, h)) (λ h. refl) (λ h. absurd (cc h))
        (λ f. ground (arith, over f i, at)) (λ k q h. absurd (cc h))
  Step-Inv (passes i at going) =
      moves-Inv i testing tested s.owner at (refl, refl) (λ j n h. exclusive j h)
        (λ h. exclusive i (ground (arith, at))) (λ h. absurd (cc h))
        (λ f. ground (arith, over f i, at)) (λ k q h. ground (arith, stopped, q, going))
  Step-Inv (stops i at stopping) =
      moves-Inv i testing exiting s.owner at (refl, refl) (λ j n h. exclusive j h)
        (λ h. exclusive i (ground (arith, at))) (λ h. stopping) (λ f. ground (arith, over f i, at))
        (λ k q h. absurd (cc h))
  Step-Inv (sleeps i at) =
      moves-Inv i tested asleep none at (refl, refl)
        (λ j n h. ground (arith, exclusive j, exclusive i, at, n, h)) (λ h. absurd (cc h))
        (λ h. absurd (cc h)) (λ f. ground (arith, over f i, at)) (λ k q h. refl)
  Step-Inv (leaves i at) =
      moves-Inv i exiting gone none at (refl, refl)
        (λ j n h. ground (arith, exclusive j, exclusive i, at, n, h)) (λ h. absurd (cc h))
        (λ h. leaving i (ground (arith, at))) (λ f. refl) (λ k q h. absurd (cc h))
  Step-Inv (awakes i at) =
      moves-Inv i asleep locking s.owner at (refl, refl) (λ j n h. exclusive j h)
        (λ h. absurd (cc h)) (λ h. absurd (cc h)) (λ f. ground (arith, over f i, at))
        (λ k q h. absurd (cc h))

Reach-Inv : {num : ℕ} {s : System} → Reach num s → Inv num s
Reach-Inv start = record {
  stopped = refl;
  within = λ k h. ground (arith, h);
  unmade = λ i h. refl;
  present = λ i n h. ground (arith, h);
  exclusive = λ i h. absurd (cc h);
  leaving = λ i h. absurd (cc h);
  over = λ f i. refl;
  sleepers = λ i j k q h g. absurd (cc h);
}
Reach-Inv (later r st) = Step-Inv (Reach-Inv r) st

-- In every state that is reached with the pool returned, all its workers were created, none has left
-- its loop, and `stop` is not set.
pub returned_pool_runs :
    {num : ℕ} {s : System} (i : ℕ)
    → Reach num s
    → s.creator ≡ returned
    → i < num
    → (s.stop ≡ false) × (s.workers i ≢ absent) × (s.workers i ≢ gone)
returned_pool_runs i r c less =
    let inv = Reach-Inv r in
    (
      ground (arith, inv.stopped, c),
      (λ e. ground (arith, inv.present i, c, less, e)),
      λ e. ground (arith, inv.leaving i, inv.stopped, c, e),
    )

-- When a call that fails has freed the pool and returns NULL, every worker that it created has left its
-- loop, and none has the lock.
pub freed_pool_unused :
    {num : ℕ} {s : System} (i : ℕ) → Reach num s → s.creator ≡ freed → is_over (s.workers i) ≡ true
freed_pool_unused i r f = (Reach-Inv r).over f i

-- While a call that fails joins its workers, at most one of them sleeps: the one that had tested `stop`
-- and had not yet begun to wait when the others were woken.
pub one_sleeps_on :
    {num : ℕ} {s : System} (i j k : ℕ)
    → Reach num s
    → s.creator ≡ joining k
    → s.workers i ≡ asleep
    → s.workers j ≡ asleep
    → i ≡ j
one_sleeps_on i j k r q h g = (Reach-Inv r).sleepers i j k q (ground (arith, h)) (ground (arith, g))
