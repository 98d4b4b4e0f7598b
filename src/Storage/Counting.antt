-- ===== src/Storage/Counting.antt =====
-- The counters of 2.3/*/threads.c: `inc_long` from the threads that swap and traverse, and
-- `snapshot_counters` from the monitor.
--
-- A counter is known by its address. The threads are those of Storage/Threads; a thread that calls
-- `inc_long` goes on only when the call has returned. Each access to `counters_lock` and to a counter
-- is a step. There are `n` threads, the monitor among them.
pub mod Events
pub mod Exact
pub mod Going
use operation_systems.Base.{
  ℕ, suc, ◌+◌, ◌<◌, ◌≡◌, Bool, true, false, not, ltb, ◌==◌, get_elem?, List, [], ◌∷◌, ◌++◌, Option,
  none, some, length, if◌then◌else◌,
}
use operation_systems.Base.Store.{update}
use operation_systems.Storage.{Node, Storage}
use operation_systems.Storage.Jobs.{
  Job, traversing, swapping, monitoring, thread_monitor, shown_counters,
}
use operation_systems.Storage.Threads
use operation_systems.Storage.Threads.{
  Pc, idle, relinked2, comparing, visited, to_first, visit_first,
}

-- Where a thread stands in a call on the counters, with the address, the value that it loaded, or the
-- counters to read and those that were read with their values.
pub data Call : Type 0 where
  none_due : Call
  to_lock loading : ℕ → Call
  storing : ℕ → ℕ → Call
  unlocking : Call
  to_snapshot : List ℕ → Call
  reading : List ℕ → List (ℕ × ℕ) → Call
  shown : List (ℕ × ℕ) → Call

abbrev matches : (ℕ → ℕ → Bool) → ℕ → Option Node → Option Node → Option ℕ
matches match_pred pairs_counter (some x) (some y) =
    if match_pred (length x.value) (length y.value) then some pairs_counter else none
matches match_pred pairs_counter _ _ = none

-- The counter that a step calls `inc_long` for: behind the last write of a swap, at a pair that
-- matches, and at the end of a pass.
abbrev pub counter_of : Job → (ℕ → Option Node) → Pc → Option ℕ
counter_of (swapping need_swap swap_counter) nodes (relinked2 p a b) = some swap_counter
counter_of (traversing match_pred iter_counter pairs_counter) nodes (comparing a b) =
    matches match_pred pairs_counter (nodes a) (nodes b)
counter_of (traversing match_pred iter_counter pairs_counter) nodes (visited a) = some iter_counter
counter_of _ nodes _ = none

-- Whether a call that begins there is one that the thread function makes.
abbrev pub begins_with : Job → Pc → Bool
begins_with (swapping need_swap swap_counter) (to_first k p) = true
begins_with (traversing match_pred iter_counter pairs_counter) (visit_first f) = true
begins_with _ _ = false

abbrev pub call_for : Option ℕ → Call
call_for none = none_due
call_for (some p) = to_lock p

pub record System : Type 0 where
  pub base : Threads.System
  pub counters : ℕ → ℕ
  pub owner : Option ℕ
  pub calls : ℕ → Call

abbrev pub due_at : (ℕ → Job) → System → ℕ → Option ℕ
due_at jobs s i = counter_of (jobs i) s.base.storage.nodes (s.base.pc i)

abbrev need_of_job : Job → ℕ → ℕ → Bool
need_of_job (swapping need_swap swap_counter) = need_swap
need_of_job (traversing match_pred iter_counter pairs_counter) = λ l1 l2. false
need_of_job monitoring = λ l1 l2. false

abbrev pub need_of : (ℕ → Job) → ℕ → ℕ → ℕ → Bool
need_of jobs i = need_of_job (jobs i)

pub data Step (n : ℕ) (shared : Bool) (jobs : ℕ → Job) (s : System) (i : ℕ) : System → Type 0 where
  works :
      (t : Threads.System)
      → s.calls i ≡ none_due
      → (s.base.pc i ≡ idle → begins_with (jobs i) (t.pc i) ≡ true)
      → Threads.Step n shared (need_of jobs) s.base i t
      → Step n shared jobs s i
          (record s { base = t; calls = update s.calls i (call_for (due_at jobs s i)) })
  locks :
      (p : ℕ)
      → s.calls i ≡ to_lock p
      → s.owner ≡ none
      → Step n shared jobs s i (record s { owner = some i; calls = update s.calls i (loading p) })
  loads :
      (p : ℕ)
      → s.calls i ≡ loading p
      → Step n shared jobs s i (record s { calls = update s.calls i (storing p (s.counters p)) })
  stores :
      (p v : ℕ)
      → s.calls i ≡ storing p v
      → Step n shared jobs s i
          (record s { counters = update s.counters p (suc v); calls = update s.calls i unlocking })
  unlocks :
      s.calls i ≡ unlocking
      → Step n shared jobs s i (record s { owner = none; calls = update s.calls i none_due })
  asks :
      s.calls i ≡ none_due
      → jobs i ≡ thread_monitor
      → Step n shared jobs s i (record s { calls = update s.calls i (to_snapshot shown_counters) })
  begins :
      (ps : List ℕ)
      → s.calls i ≡ to_snapshot ps
      → s.owner ≡ none
      → Step n shared jobs s i
          (record s { owner = some i; calls = update s.calls i (reading ps []) })
  reads :
      (p : ℕ) (ps : List ℕ) (got : List (ℕ × ℕ))
      → s.calls i ≡ reading (p ∷ ps) got
      → Step n shared jobs s i
          (record s { calls = update s.calls i (reading ps (got ++ ((p, s.counters p) ∷ []))) })
  shows :
      (got : List (ℕ × ℕ))
      → s.calls i ≡ reading [] got
      → Step n shared jobs s i (record s { owner = none; calls = update s.calls i (shown got) })
  prints :
      (got : List (ℕ × ℕ))
      → s.calls i ≡ shown got
      → Step n shared jobs s i (record s { calls = update s.calls i none_due })

abbrev pub init : Storage → System
init storage = record {
  base = Threads.init storage;
  counters = λ _. 0;
  owner = none;
  calls = λ _. none_due;
}

pub data Reach (n : ℕ) (shared : Bool) (jobs : ℕ → Job) (storage : Storage) : System → Type 0 where
  start : Reach n shared jobs storage (init storage)
  later :
      {s t : System}
      → Reach n shared jobs storage s
      → (i : ℕ) → i < n
      → Step n shared jobs s i t
      → Reach n shared jobs storage t
