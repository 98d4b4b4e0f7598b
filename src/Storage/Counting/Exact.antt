-- ===== src/Storage/Counting/Exact.antt =====
-- No increment is lost, and a snapshot shows the counters as they were at one moment.
use operation_systems.Base.{
  ℕ, suc, ◌+◌, ◌<◌, ◌≡◌, ◌≢◌, refl, Bool, true, false, ◌&&◌, List, [], ◌∷◌, ◌++◌, Option, none,
  some, arith, ◌==◌, if◌then◌else◌,
}
use operation_systems.Base.Store.{update}
use operation_systems.Base.Totals.{total, total-update, total_all}
use operation_systems.Storage.{Storage}
use operation_systems.Storage.Threads
use operation_systems.Storage.Jobs.{Job, shown_counters}
use operation_systems.Storage.Counting.Events.{one_at, event_of, event-due_at, after, events}
use operation_systems.Storage.Counting.{
  Call, none_due, to_lock, loading, storing, unlocking, to_snapshot, reading, shown, call_for,
  System, due_at, Step, works, locks, loads, stores, unlocks, asks, begins, reads, shows, prints,
  Reach, start, later,
}

-- The thread has `counters_lock`.
abbrev pub inside : Call → Bool
inside (loading p) = true
inside (storing p v) = true
inside unlocking = true
inside (reading ps got) = true
inside _ = false

-- The thread has an increment of the counter at `p` before it.
abbrev pub pending : ℕ → Call → ℕ
pending p (to_lock q) = if q == p then 1 else 0
pending p (loading q) = if q == p then 1 else 0
pending p (storing q v) = if q == p then 1 else 0
pending p _ = 0

-- What was read is what stands there.
abbrev pub all_now : (ℕ → ℕ) → List (ℕ × ℕ) → Bool
all_now counters [] = true
all_now counters ((p, v) ∷ got) = (v == counters p) && all_now counters got

pub record Inv (n : ℕ) (s : System) (events_of : ℕ → ℕ) : Type 0 where
  pub exclusive : (i : ℕ) → inside (s.calls i) ≡ true → s.owner ≡ some i
  pub owned : (i : ℕ) → s.owner ≡ some i → (i < n) × (inside (s.calls i) ≡ true)
  pub fresh : (i p v : ℕ) → s.calls i ≡ storing p v → v ≡ s.counters p
  pub faithful :
      (i : ℕ) (ps : List ℕ) (got : List (ℕ × ℕ))
      → s.calls i ≡ reading ps got
      → all_now s.counters got ≡ true
  pub exact : (p : ℕ) → s.counters p + total (pending p) n s.calls ≡ events_of p

all_now-append :
    (f : ℕ → ℕ) (p : ℕ) (got : List (ℕ × ℕ))
    → all_now f got ≡ true
    → all_now f (got ++ ((p, f p) ∷ [])) ≡ true
all_now-append f p [] h = ground arith
all_now-append f p ((q, v) ∷ got) h = ground (arith, all_now-append f p got)

module _ {n : ℕ} (s : System) (ev : ℕ → ℕ) (inv : Inv n s ev) (i : ℕ) (within : i < n) where
  open inv use {exclusive, owned, fresh, faithful, exact}

  moved :
      (p : ℕ) (c : Call)
      → total (pending p) n (update s.calls i c) + pending p (s.calls i)
        ≡ total (pending p) n s.calls + pending p c
  moved p c = total-update (pending p) n s.calls i c within

  -- A step that neither takes nor gives up the lock, and completes no increment.
  stays-Inv :
      (c : Call)
      → inside c ≡ inside (s.calls i)
      → ((p : ℕ) → pending p c ≡ pending p (s.calls i))
      → ((p v : ℕ) → c ≡ storing p v → v ≡ s.counters p)
      → ((ps : List ℕ) (got : List (ℕ × ℕ)) → c ≡ reading ps got → all_now s.counters got ≡ true)
      → Inv n (record s { calls = update s.calls i c }) ev
  stays-Inv c same count value values = record {
    exclusive = λ j h. ground (arith, exclusive j, same);
    owned = λ j h. ground (arith, owned j, same);
    fresh = λ j p v h. ground (arith, fresh j p v, value p v);
    faithful = λ j ps got h. ground (arith, faithful j ps got, values ps got);
    exact = λ p. ground (arith, exact p, moved p c, count p);
  }

  -- A step that takes the lock.
  takes-Inv :
      (c : Call)
      → s.owner ≡ none
      → inside c ≡ true
      → ((p : ℕ) → pending p c ≡ pending p (s.calls i))
      → ((p v : ℕ) → c ≢ storing p v)
      → ((ps : List ℕ) (got : List (ℕ × ℕ)) → c ≡ reading ps got → got ≡ [])
      → Inv n (record s { owner = some i; calls = update s.calls i c }) ev
  takes-Inv c free enters count no_value no_values = record {
    exclusive = λ j h. ground (arith, exclusive j, free);
    owned = λ j h. ground (arith, within, h, enters);
    fresh = λ j p v h. ground (arith, fresh j p v, no_value p v);
    faithful = λ j ps got h. ground (arith, faithful j ps got, no_values ps got);
    exact = λ p. ground (arith, exact p, moved p c, count p);
  }

  -- A step that gives up the lock.
  leaves-Inv :
      (c : Call)
      → inside (s.calls i) ≡ true
      → inside c ≡ false
      → ((p : ℕ) → pending p c ≡ pending p (s.calls i))
      → Inv n (record s { owner = none; calls = update s.calls i c }) ev
  leaves-Inv c had out count = record {
    exclusive = λ j h. ground (arith, exclusive j, exclusive i, had, out);
    owned = λ j h. ground arith;
    fresh = λ j p v h. ground (arith, fresh j p v, out);
    faithful = λ j ps got h. ground (arith, faithful j ps got, out);
    exact = λ p. ground (arith, exact p, moved p c, count p);
  }

  -- A step of the thread's own work, with the call that it makes due.
  works-Inv :
      (base : Threads.System) (due event : Option ℕ)
      → event ≡ due
      → s.calls i ≡ none_due
      → Inv n
          (record s { base = base; calls = update s.calls i (call_for due) })
          (λ p. one_at p event + ev p)
  works-Inv base due event same at = record {
    exclusive = λ j h. ground (arith, exclusive j, due);
    owned = λ j h. ground (arith, owned j, at);
    fresh = λ j p v h. ground (arith, fresh j p v, due);
    faithful = λ j ps got h. ground (arith, faithful j ps got, due);
    exact = λ p. ground (arith, exact p, moved p (call_for due), at, same);
  }

  -- The store of an increment.
  stores-Inv :
      (p v : ℕ)
      → s.calls i ≡ storing p v
      → Inv n
          (record s { counters = update s.counters p (suc v); calls = update s.calls i unlocking })
          ev
  stores-Inv p v at = record {
    exclusive = λ j h. ground (arith, exclusive j, at);
    owned = λ j h. ground (arith, owned j, at);
    fresh = λ j q w h. ground (arith, fresh j q w, exclusive i, exclusive j, at);
    faithful = λ j ps got h. ground (arith, exclusive i, exclusive j, at);
    exact = λ q. ground (arith, exact q, moved q unlocking, fresh i p v at, at);
  }

  Step-Inv :
      {shared : Bool} {jobs : ℕ → Job} {t : System} (step : Step n shared jobs s i t)
      → Inv n t (after step ev)
  Step-Inv {jobs = jobs} (works t at by mv) =
      works-Inv t (due_at jobs s i) (event_of (jobs i) mv) (event-due_at jobs s i mv) at
  Step-Inv (locks p at free) =
      takes-Inv (loading p) free refl (λ q. ground (arith, at)) (λ q v e. cc) (λ ps got e. cc)
  Step-Inv (loads p at) =
      stays-Inv (storing p (s.counters p)) (ground (arith, at)) (λ q. ground (arith, at))
        (λ q v e. ground (arith, e)) (λ ps got e. cc)
  Step-Inv (stores p v at) = stores-Inv p v at
  Step-Inv (unlocks at) = leaves-Inv none_due (ground (arith, at)) refl (λ q. ground (arith, at))
  Step-Inv (asks at by) =
      stays-Inv (to_snapshot shown_counters) (ground (arith, at)) (λ q. ground (arith, at))
        (λ q v e. cc) (λ qs got e. cc)
  Step-Inv (begins ps at free) =
      takes-Inv (reading ps []) free refl (λ q. ground (arith, at)) (λ q v e. cc)
        (λ qs got e. ground (arith, e))
  Step-Inv (reads p ps got at) =
      stays-Inv (reading ps (got ++ ((p, s.counters p) ∷ []))) (ground (arith, at))
        (λ q. ground (arith, at)) (λ q v e. cc)
        (λ qs more e.
          ground (arith, e, all_now-append s.counters p got (faithful i (p ∷ ps) got at)))
  Step-Inv (shows got at) =
      leaves-Inv (shown got) (ground (arith, at)) refl (λ q. ground (arith, at))
  Step-Inv (prints got at) =
      stays-Inv none_due (ground (arith, at)) (λ q. ground (arith, at)) (λ q v e. cc)
        (λ qs more e. cc)

pub Reach-Inv :
    {n : ℕ} {shared : Bool} {jobs : ℕ → Job} {storage : Storage} {s : System}
    (run : Reach n shared jobs storage s)
    → Inv n s (events run)
Reach-Inv {n} start = record {
  exclusive = λ i h. ground (arith, h);
  owned = λ i h. ground (arith, h);
  fresh = λ i p v h. ground (arith, h);
  faithful = λ i ps got h. ground (arith, h);
  exact = λ p. omega (arith, total_all (pending p) n 0 (λ _. none_due) (λ i h. refl));
}
Reach-Inv (later {s = s} r i within st) = Step-Inv s (events r) (Reach-Inv r) i within st

-- Of any number of threads that swap, traverse and take snapshots, in any order: behind every run, each
-- counter, with the increments of it that are under way, is the number of the steps of the run that are
-- its events: the last writes of the swaps of threads that count swaps there, the comparisons of
-- neighbours whose lengths match, and the ends of passes.
pub counters_exact :
    {n : ℕ} {shared : Bool} {jobs : ℕ → Job} {storage : Storage} {s : System} (p : ℕ)
    (run : Reach n shared jobs storage s)
    → s.counters p + total (pending p) n s.calls ≡ events run p
counters_exact p run = (Reach-Inv run).exact p

-- In every state that is reached in which a thread has read all counters that it asked for and has not
-- yet given up the lock, the values that it will show are those of the counters in that state.
pub snapshot_exact :
    {n : ℕ} {shared : Bool} {jobs : ℕ → Job} {storage : Storage} {s : System} (i : ℕ)
    (got : List (ℕ × ℕ))
    → Reach n shared jobs storage s
    → s.calls i ≡ reading [] got
    → all_now s.counters got ≡ true
snapshot_exact i got r at = (Reach-Inv r).faithful i [] got at
