-- ===== src/Storage/Counting/Going.antt =====
-- The locks of the nodes and the lock of the counters together.
use operation_systems.Base.{
  ℕ, ◌<◌, ◌≡◌, ◌≢◌, refl, sym, ◌∙◌, ◌⊎◌, inl, inr, Bool, true, List, [], ◌∷◌, none, Option-cases,
}
use operation_systems.Storage.{Storage}
use operation_systems.Storage.Links.{Holds}
use operation_systems.Storage.Threads
use operation_systems.Storage.Threads.{idle}
use operation_systems.Storage.Threads.Progress.{no_deadlock}
use operation_systems.Storage.Jobs.{Job}
use operation_systems.Storage.Counting.{
  Call, none_due, to_lock, loading, storing, unlocking, to_snapshot, reading, shown, need_of,
  System, Step, works, locks, loads, stores, unlocks, asks, begins, reads, shows, prints, Reach,
  start, later,
}
use operation_systems.Storage.Counting.Exact.{inside, Inv, Reach-Inv}

-- The calls on the counters leave the threads as they are.
Step-Reach :
    {n : ℕ} {shared : Bool} {jobs : ℕ → Job} {storage : Storage} {s : System} {i : ℕ} {t : System}
    → Step n shared jobs s i t
    → Threads.Reach n shared (need_of jobs) storage s.base
    → Threads.Reach n shared (need_of jobs) storage t.base
Step-Reach {i = i} (works t at by mv) r = Threads.later r i mv
Step-Reach (locks _ _ _) r = r
Step-Reach (loads _ _) r = r
Step-Reach (stores _ _ _) r = r
Step-Reach (unlocks _) r = r
Step-Reach (asks _ _) r = r
Step-Reach (begins _ _ _) r = r
Step-Reach (reads _ _ _ _) r = r
Step-Reach (shows _ _) r = r
Step-Reach (prints _ _) r = r

pub base-Reach :
    {n : ℕ} {shared : Bool} {jobs : ℕ → Job} {storage : Storage} {s : System}
    → Reach n shared jobs storage s
    → Threads.Reach n shared (need_of jobs) storage s.base
base-Reach start = Threads.start
base-Reach (later r i within st) = Step-Reach st (base-Reach r)

among :
    {n : ℕ} {shared : Bool} {need : ℕ → ℕ → ℕ → Bool} {s : Threads.System} {i : ℕ}
    {t : Threads.System}
    → Threads.Step n shared need s i t
    → i < n
among (Threads.swaps p act q within at mv granted) = within
among (Threads.traverses p act q within at mv granted) = within

-- A thread that is in a call.
abbrev pub IsBusy : System → ℕ → Type 0
IsBusy s j = (s.base.pc j ≢ idle) ⊎ (s.calls j ≢ none_due)

-- A thread that can make a step of the call that it is in.
abbrev Goes : ℕ → Bool → (ℕ → Job) → System → ℕ → Type 0
Goes n shared jobs s j = IsBusy s j × (j < n) × ((t : System) × Step n shared jobs s j t)

in_call : (s : System) (j : ℕ) (c : Call) → s.calls j ≡ c → c ≢ none_due → IsBusy s j
in_call s j c at n = inr (λ e. n (sym at ∙ e))

module _ {n : ℕ} {shared : Bool} {jobs : ℕ → Job} {s : System} {ev : ℕ → ℕ} (inv : Inv n s ev) where
  -- A thread that has `counters_lock` can go on.
  owner-Goes : (j : ℕ) (c : Call) → s.calls j ≡ c → j < n → inside c ≡ true → Goes n shared jobs s j
  owner-Goes j (loading p) at within h =
      (in_call s j (loading p) at (λ e. cc), within, (_, loads p at))
  owner-Goes j (storing p v) at within h =
      (in_call s j (storing p v) at (λ e. cc), within, (_, stores p v at))
  owner-Goes j unlocking at within h = (in_call s j unlocking at (λ e. cc), within, (_, unlocks at))
  owner-Goes j (reading [] got) at within h =
      (in_call s j (reading [] got) at (λ e. cc), within, (_, shows got at))
  owner-Goes j (reading (p ∷ ps) got) at within h =
      (in_call s j (reading (p ∷ ps) got) at (λ e. cc), within, (_, reads p ps got at))
  owner-Goes j none_due at within h = absurd (cc h)
  owner-Goes j (to_lock p) at within h = absurd (cc h)
  owner-Goes j (to_snapshot ps) at within h = absurd (cc h)
  owner-Goes j (shown got) at within h = absurd (cc h)

  -- A thread that wants the lock takes it, or its owner goes on.
  lock-Goes : (j : ℕ) → (s.owner ≡ none → Goes n shared jobs s j) → (k : ℕ) × Goes n shared jobs s k
  lock-Goes j takes = elim (Option-cases s.owner) [
    | inl free ↦ (j, takes free)
    | inr (k, had) ↦
        let (within, busy) = inv.owned k had in (k, owner-Goes k (s.calls k) refl within busy)
  ]

  -- A thread that is in a call on the counters: it, or the owner of the lock, can go on.
  call-Goes :
      (j : ℕ) (c : Call)
      → s.calls j ≡ c
      → j < n
      → (c ≡ none_due → Goes n shared jobs s j)
      → (k : ℕ) × Goes n shared jobs s k
  call-Goes j none_due at within idles = (j, idles refl)
  call-Goes j (to_lock p) at within idles =
      lock-Goes j (λ free. (in_call s j (to_lock p) at (λ e. cc), within, (_, locks p at free)))
  call-Goes j (to_snapshot ps) at within idles =
      lock-Goes j
        (λ free. (in_call s j (to_snapshot ps) at (λ e. cc), within, (_, begins ps at free)))
  call-Goes j (shown got) at within idles =
      (j, (in_call s j (shown got) at (λ e. cc), within, (_, prints got at)))
  call-Goes j (loading p) at within idles = (j, owner-Goes j (loading p) at within refl)
  call-Goes j (storing p v) at within idles = (j, owner-Goes j (storing p v) at within refl)
  call-Goes j unlocking at within idles = (j, owner-Goes j unlocking at within refl)
  call-Goes j (reading ps got) at within idles = (j, owner-Goes j (reading ps got) at within refl)

-- On a list whose nodes are linked, `counters_lock`, which threads take while they have the locks of
-- nodes, adds no deadlock: in every state that is reached in which some thread is in `do_random_swap` or
-- in `traverse_list`, a thread that is in a call can make a step.
pub counters_no_deadlock :
    {n : ℕ} {shared : Bool} {jobs : ℕ → Job} {storage : Storage} {list₀ : List (ℕ × List ℕ)}
    {s : System}
    → Holds storage list₀
    → Reach n shared jobs storage s
    → (i : ℕ) → s.base.pc i ≢ idle
    → (j : ℕ) × IsBusy s j × (j < n) × ((t : System) × Step n shared jobs s j t)
counters_no_deadlock {n} {shared} {jobs} {s = s} holds r i busy =
    let (j, working, (t, mv)) = no_deadlock holds (base-Reach r) i busy in
    let (k, (calls, within, step)) =
      call-Goes {shared = shared} {jobs = jobs} (Reach-Inv r) j (s.calls j) refl (among mv)
        (λ at. (inl working, among mv, (_, works t at (λ e. absurd (working e)) mv))) in
    (k, calls, within, step)
