-- ===== src/Cache/Clients/Steps.antt =====
-- The invariant of the table is kept by every call, so it holds in every state that clients reach.
use operation_systems.Base.{
  ℕ, ◌-◌, ◌<◌, ◌≡◌, refl, subst, ◌⊎◌, inl, inr, Bool, false, not, ◌&&◌, List, none, some, arith,
  Bool-cases, Option-cases,
}
use operation_systems.Base.Int.{dec, inc, is_pos, is_zero}
use operation_systems.Base.Store.{update}
use operation_systems.Cache.Entry.{Entry, CreateEnv, new_entry, cache_entry_create}
use operation_systems.Cache.Entry.Change.{Change-Keeps}
use operation_systems.Cache.Table.{
  Cache, Join, refused, writer, reader, put, link, remove, cache_start_or_join, cache_release,
  cache_table_init, start as start_entry, join,
}
use operation_systems.Cache.Table.Find.{seek_cases}
use operation_systems.Cache.Clients.{
  System, Step, joins, changes, releases, taken, init, Reach, start, later,
}
use operation_systems.Cache.Clients.Invariant.{
  Inv, changed-Inv, joined-Inv, started-Inv, left-Inv, removed-Inv,
}

pub create_cases :
    (env : CreateEnv) (key : List ℕ)
    → (cache_entry_create env key ≡ none) ⊎ (cache_entry_create env key ≡ some (new_entry key))
unfolding cache_entry_create
create_cases env key = ground arith

module _ {s : System} (inv : Inv s) where
  open inv use {linked, counted, kept}

  start-Inv :
      (env : CreateEnv) (addr : ℕ) (key : List ℕ)
      → s.cache.heap addr ≡ none
      → ((b : ℕ) (g : Entry) → s.cache.heap b ≡ some g → ¬ (g.key ≡ key))
      → (c : Cache) (r : Join) → start_entry env addr s.cache key ≡ (c, r)
      → Inv (record { cache = c; held = taken s.held r })
  unfolding start_entry
  start-Inv env addr key free new c r q = elim (create_cases env key) [
    | inl failed ↦ moved (s.cache, refused) (ground arith) inv
    | inr made ↦
        moved (link s.cache addr (new_entry key), writer addr) (ground arith)
          (started-Inv inv addr key free new)
  ]
    where
      moved :
          (x : Cache × Join)
          → x ≡ (c, r)
          → Inv (record { cache = x.0; held = taken s.held x.1 })
          → Inv (record { cache = c; held = taken s.held r })
      moved x e =
          subst (λ (y : Cache × Join). Inv (record { cache = y.0; held = taken s.held y.1 })) e

  -- A failed entry has a holder, so no call ever finds one to replace.
  pub never_dropped :
      (a : ℕ) (e : Entry) → s.cache.heap a ≡ some e → (e.failed && is_zero e.refcnt) ≡ false
  never_dropped a e at = ground (arith, counted a e, kept a e)

  join-Inv :
      (env : CreateEnv) (addr : ℕ) (key : List ℕ) (c : Cache) (r : Join)
      → s.cache.heap addr ≡ none
      → cache_start_or_join env addr s.cache key ≡ some (c, r)
      → Inv (record { cache = c; held = taken s.held r })
  unfolding cache_start_or_join join
  join-Inv env addr key c r free run = elim (seek_cases linked key) [
    | inl (q, new) ↦ start-Inv env addr key free new c r (ground arith)
    | inr (a, e, q, at, same) ↦
        let keep = never_dropped a e at in
        let x : Cache × Join = (put s.cache a (record e { refcnt = inc e.refcnt }), reader a) in
        let hit : x ≡ (c, r) = ground arith in
        subst (λ (y : Cache × Join). Inv (record { cache = y.0; held = taken s.held y.1 })) hit
          (joined-Inv inv a e at)
  ]

  release-Inv :
      (a : ℕ) (c : Cache)
      → 0 < s.held a
      → cache_release s.cache a ≡ some c
      → Inv (record { cache = c; held = update s.held a (s.held a - 1) })
  unfolding cache_release
  release-Inv a c h run = elim (Option-cases (s.cache.heap a)) [
    | inl gone ↦ absurd (ground (arith, inv.unheld a))
    | inr (e, at) ↦ elim (Bool-cases (is_pos (dec e.refcnt))) [
      | inl more ↦
          settle (put s.cache a (record e { refcnt = dec e.refcnt })) (ground arith)
            (left-Inv inv a e h at (inl (ground (arith, counted a e))))
      | inr last ↦ elim (Bool-cases (e.complete && not e.failed)) [
        | inl good ↦
            settle (put s.cache a (record e { refcnt = dec e.refcnt })) (ground arith)
              (left-Inv inv a e h at (inr (ground arith, ground arith)))
        | inr bad ↦
            settle (remove s.cache a e.key) (ground arith)
              (removed-Inv inv a e (ground (arith, counted a e)) at)
      ]
    ]
  ]
    where
      settle :
          (d : Cache)
          → d ≡ c
          → Inv (record { cache = d; held = update s.held a (s.held a - 1) })
          → Inv (record { cache = c; held = update s.held a (s.held a - 1) })
      settle d e =
          subst (λ (y : Cache). Inv (record { cache = y; held = update s.held a (s.held a - 1) })) e

-- Every call of a client keeps the invariant.
pub Step-Inv : {s t : System} → Step s t → Inv s → Inv t
Step-Inv (joins env addr key c r free run) inv = join-Inv inv env addr key c r free run
Step-Inv (changes a e o h at ch) inv =
    changed-Inv inv a e o.entry h at (Change-Keeps (inv.valid a e at) ch)
Step-Inv (releases a c h run) inv = release-Inv inv a c h run

init-Inv : (c : Cache) (ok1 ok2 : Bool) → cache_table_init ok1 ok2 ≡ some c → Inv (init c)
unfolding cache_table_init
init-Inv c ok1 ok2 made = record {
  linked = record {
    some_buckets = ground arith;
    chained = λ i a h. ground arith;
    live = λ a e h. ground arith;
    unique = λ a b e f p q k. ground arith;
    distinct_links = λ i. ground arith;
  };
  valid = λ a e h. ground arith;
  counted = λ a e h. ground arith;
  unheld = λ a h. refl;
  kept = λ a e h p. ground arith;
}

pub Reach-Inv :
    {c : Cache} {s : System} (ok1 ok2 : Bool)
    → cache_table_init ok1 ok2 ≡ some c
    → Reach c s
    → Inv s
Reach-Inv {c} ok1 ok2 made start = init-Inv c ok1 ok2 made
Reach-Inv ok1 ok2 made (later r st) = Step-Inv st (Reach-Inv ok1 ok2 made r)
