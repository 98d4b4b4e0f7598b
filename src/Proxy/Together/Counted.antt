-- ===== src/Proxy/Together/Counted.antt =====
-- The handlers are clients that keep the rule of the table, so what holds of the table holds here.
use operation_systems.Base.{
  ℕ, suc, ◌+◌, ◌-◌, ◌<◌, ◌≡◌, refl, sym, ap, ◌∙◌, Bool, true, List, [], ◌∷◌, take-le, Option, none,
  some, arith, ◌==◌, if◌then◌else◌, length,
}
use operation_systems.Base.Store.{update}
use operation_systems.Base.Totals.{total, total-update, total_all}
use operation_systems.Cache.Entry.Change.{
  appends as adds_bytes, completes as completed, fails as failed,
}
use operation_systems.Cache.Table.{Cache, reader, writer}
use operation_systems.Cache.Clients
use operation_systems.Cache.Spec.{
  to_complete, to_fail, Op, join_op, alter_op, release_op, reads as read_it, writes as write_it,
}
use operation_systems.Cache.Spec.Calls.{can_make, key_at, calls_of}
use operation_systems.Proxy.Together.Calls.{called, called_by, calls}
use operation_systems.Proxy.Handler.{
  Effect, World, joins_reader, joins_writer, appends, marks_complete, marks_failed, releases,
}
use operation_systems.Proxy.Together.Discipline.{
  Goes, Reach-Goes, held_in, same_hand, uses-holding, join-holding,
}
use operation_systems.Proxy.Together.{
  Handler, in_hand, holding, uses_entry, behind, Act, reads, starts, stores, completes, fails,
  lets_go, elsewhere, System, Step, acts, fresh_handler, Reach, start, later,
}

-- Whether a handler holds the entry at `a`.
abbrev pub holds : ℕ → Handler → ℕ
holds a h = elim (holding h) [ none ↦ 0 | some b ↦ if b == a then 1 else 0 ]

abbrev pub holders : ℕ → ℕ → (ℕ → Handler) → ℕ
holders a n handlers = total (holds a) n handlers

-- A run of clients with the calls `ops`, who hold what they hold.
abbrev pub RunOf : Cache → Cache → List Op → (ℕ → ℕ) → Type 0
RunOf c d ops held = (r : Clients.Reach c (record { cache = d; held = held })) × (calls_of r ≡ ops)

-- The table with its clients, each handler a client.
abbrev pub AsClients : ℕ → Cache → System → List Op → Type 0
AsClients n c s ops =
    (held : ℕ → ℕ) × RunOf c s.cache ops held × ((a : ℕ) → held a ≡ holders a n s.handlers)

module _ {n : ℕ} (s : System) (i : ℕ) (inside : i < n) (rest : List Effect) where
  abbrev next : Cache → Effect → Option ℕ → System
  next d effect p = record {
    cache = d;
    handlers = update s.handlers i (behind (s.handlers i) effect rest p);
  }

  moved :
      (a : ℕ) (h : Handler)
      → holders a n (update s.handlers i h) + holds a (s.handlers i)
        ≡ holders a n s.handlers + holds a h
  moved a h = total-update (holds a) n s.handlers i h inside

  -- The entry that the handler holds is held in the table.
  pub held_by : (a : ℕ) → holding (s.handlers i) ≡ some a → 0 < holders a n s.handlers
  held_by a at = ground (arith, moved a (record { left = []; entry = none; past = [] }), at)

  one :
      (held : ℕ → ℕ)
      → ((a : ℕ) → held a ≡ holders a n s.handlers)
      → (a : ℕ) → holding (s.handlers i) ≡ some a
      → 0 < held a
  one held same a at = omega (arith, same a, held_by a at)

  -- A handler that held nothing holds the entry at `a`.
  joins_count :
      (held : ℕ → ℕ) (a : ℕ) (h : Handler)
      → ((b : ℕ) → held b ≡ holders b n s.handlers)
      → holding (s.handlers i) ≡ none
      → holding h ≡ some a
      → (b : ℕ) → update held a (suc (held a)) b ≡ holders b n (update s.handlers i h)
  joins_count held a h same out has b = ground (arith, moved b h, same b, out, has)

  -- A handler that held the entry at `a` holds none.
  leaves_count :
      (held : ℕ → ℕ) (a : ℕ) (h : Handler)
      → ((b : ℕ) → held b ≡ holders b n s.handlers)
      → holding (s.handlers i) ≡ some a
      → holding h ≡ none
      → (b : ℕ) → update held a (held a - 1) b ≡ holders b n (update s.handlers i h)
  leaves_count held a h same at out b = ground (arith, moved b h, same b, at, out)

  -- A handler holds what it held.
  keeps_count :
      (held : ℕ → ℕ) (h : Handler)
      → ((b : ℕ) → held b ≡ holders b n s.handlers)
      → holding h ≡ holding (s.handlers i)
      → (b : ℕ) → held b ≡ holders b n (update s.handlers i h)
  keeps_count held h same stays b = ground (arith, moved b h, same b, stays)

  -- A handler whose next call goes through its variable holds what the variable points at.
  holds_it :
      (w : World) (effect : Effect) (a : ℕ)
      → (s.handlers i).left ≡ effect ∷ rest
      → uses_entry effect ≡ true
      → (s.handlers i).entry ≡ some a
      → Goes w (s.handlers i)
      → holding (s.handlers i) ≡ some a
  holds_it w effect a now uses at goes =
      let (b, bt, has) = uses-holding w (s.handlers i) effect rest now uses goes in
      has ∙ sym bt ∙ at

  still :
      (effect : Effect) (q : Option ℕ)
      → (s.handlers i).entry ≡ q
      → in_hand (effect ∷ (s.handlers i).past) ≡ in_hand (s.handlers i).past
      → holding (behind (s.handlers i) effect rest q) ≡ holding (s.handlers i)
  still effect q at same =
      ap (λ (b : Bool). held_in b q) same ∙ ap (held_in (in_hand (s.handlers i).past)) (sym at)

  Act-AsClients :
      {c : Cache} {ops : List Op} (w : World) (effect : Effect) (p : Option ℕ) (d : Cache)
      (q : Option ℕ)
      → (s.handlers i).left ≡ effect ∷ rest
      → (s.handlers i).entry ≡ p
      → Goes w (s.handlers i)
      → (act : Act s.cache p effect d q) → AsClients n c s ops
      → AsClients n c (next d effect q) (called act ops)
  Act-AsClients w _ _ d _ now at goes (reads _ env addr key _ a free run) (held, (r, eq), same) = (
    update held a (suc (held a)),
    (
      Clients.later r (Clients.joins env addr key d (reader a) free run),
      ap (λ (l : List Op). join_op key (can_make env key) read_it ∷ l) eq,
    ),
    joins_count held a (behind (s.handlers i) joins_reader rest (some a)) same
        (join-holding w (s.handlers i) joins_reader rest now refl goes) refl,
  )
  Act-AsClients w _ _ d _ now at goes (starts _ env addr key _ a free run) (held, (r, eq), same) = (
    update held a (suc (held a)),
    (
      Clients.later r (Clients.joins env addr key d (writer a) free run),
      ap (λ (l : List Op). join_op key (can_make env key) write_it ∷ l) eq,
    ),
    joins_count held a (behind (s.handlers i) joins_writer rest (some a)) same
        (join-holding w (s.handlers i) joins_writer rest now refl goes) refl,
  )
  Act-AsClients w _ _ _ _ now at goes (stores realloc bytes a e o live ok small run)
        (held, (r, eq), same) =
      let has = holds_it w (appends bytes) a now refl at goes in
      (
        held,
        (
          Clients.later r (
              Clients.changes a e o (one held same a has) live
                (adds_bytes realloc bytes (length bytes) o ok (omega arith) small run)),
          ground (arith, eq, take-le (length bytes) bytes (omega arith)),
        ),
        keeps_count held (behind (s.handlers i) (appends bytes) rest (some a)) same
            (still (appends bytes) (some a) at refl),
      )
  Act-AsClients w _ _ _ _ now at goes (completes a e live) (held, (r, eq), same) = (
    held,
    (
      Clients.later r (
          Clients.changes a e _ (one held same a (holds_it w marks_complete a now refl at goes))
            live completed),
      ap (λ (l : List Op). alter_op e.key to_complete ∷ l) eq,
    ),
    keeps_count held (behind (s.handlers i) marks_complete rest (some a)) same
        (still marks_complete (some a) at refl),
  )
  Act-AsClients w _ _ _ _ now at goes (fails a e live) (held, (r, eq), same) = (
    held,
    (
      Clients.later r (
          Clients.changes a e _ (one held same a (holds_it w marks_failed a now refl at goes)) live
            failed),
      ap (λ (l : List Op). alter_op e.key to_fail ∷ l) eq,
    ),
    keeps_count held (behind (s.handlers i) marks_failed rest (some a)) same
        (still marks_failed (some a) at refl),
  )
  Act-AsClients w _ _ d _ now at goes (lets_go a _ run) (held, (r, eq), same) =
      let has = holds_it w releases a now refl at goes in
      (
        update held a (held a - 1),
        (
          Clients.later r (Clients.releases a d (one held same a has) run),
          ap (λ (l : List Op). release_op (key_at (s.cache.heap a)) ∷ l) eq,
        ),
        leaves_count held a (behind (s.handlers i) releases rest (some a)) same has refl,
      )
  Act-AsClients w _ p _ _ now at goes (elsewhere _ effect off) (held, run, same) = (
    held,
    run,
    keeps_count held (behind (s.handlers i) effect rest p) same
        (still effect p at (same_hand effect (s.handlers i).past off)),
  )

Step-AsClients :
    {n : ℕ} {c : Cache} (worlds : ℕ → World) {s t : System} {ops : List Op}
    → ((i : ℕ) → Goes (worlds i) (s.handlers i))
    → (step : Step n s t) → AsClients n c s ops
    → AsClients n c t (called_by step ops)
Step-AsClients worlds {s = s} goes (acts i effect rest d p inside now act) clients =
    Act-AsClients s i inside rest (worlds i) effect _ d p now refl (goes i) act clients

none_yet : (n a : ℕ) (worlds : ℕ → World) → holders a n (λ i. fresh_handler (worlds i)) ≡ 0
none_yet n a worlds =
    omega (arith, total_all (holds a) n 0 (λ i. fresh_handler (worlds i)) (λ i h. refl))

-- The handlers are clients of the table, who keep its rule.
pub Reach-AsClients :
    {n : ℕ} {c : Cache} {worlds : ℕ → World} {s : System} (run : Reach n c worlds s)
    → AsClients n c s (calls run)
Reach-AsClients {n} {worlds = worlds} start =
    (λ a. 0, (Clients.start, refl), λ a. sym (none_yet n a worlds))
Reach-AsClients {worlds = worlds} (later r step) =
    Step-AsClients worlds (Reach-Goes r) step (Reach-AsClients r)
