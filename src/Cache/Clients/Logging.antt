-- ===== src/Cache/Clients/Logging.antt =====
-- The log line of `cache_release` behind the unlock of the table.
use mathlib.Core.Option.{some-injective}
use operation_systems.Base.{
  ℕ, ◌<◌, ◌≡◌, sym, ◌∙◌, ◌⊎◌, inl, inr, Bool, true, false, none, some, arith, subst,
}
use operation_systems.Base.Int.{pos, dec}
use operation_systems.Cache.Entry.{Entry}
use operation_systems.Cache.Table.{Cache, put, remove, cache_release, release_log, cache_table_init}
use operation_systems.Cache.Clients.{System, releases, Reach, later}
use operation_systems.Cache.Clients.Steps.{Reach-Inv}
use operation_systems.Cache.Clients.Safety.{release_cases}

module _ {c : Cache} {s : System} (calloc_ok mutex_ok : Bool)
    (made : cache_table_init calloc_ok mutex_ok ≡ some c) (reach : Reach c s) where
  -- A release that leaves references.
  first_release :
      (a : ℕ) (e : Entry)
      → s.cache.heap a ≡ some e
      → 1 < s.held a
      → cache_release s.cache a ≡ some (put s.cache a (record e { refcnt = dec e.refcnt }))
  first_release a e at more =
      let (f, bt, cases) = release_cases calloc_ok mutex_ok made reach a (omega (arith, more)) in
      let one : f ≡ e = some-injective _ _ (sym bt ∙ at) in
      let Left : Entry → Type 0 =
        λ g. cache_release s.cache a ≡ some (put s.cache a (record g { refcnt = dec g.refcnt })) in
      elim cases [
        | inl (_, q) ↦ subst Left one q
        | inr (inl (last, _, _, _)) ↦ absurd (omega (arith, more, last))
        | inr (inr (last, _, _)) ↦ absurd (omega (arith, more, last))
      ]

  -- The release of the last reference to an entry that is not kept.
  last_release :
      (a : ℕ) (e : Entry)
      → s.cache.heap a ≡ some e
      → s.held a ≡ 1
      → (e.complete ≡ false) ⊎ (e.failed ≡ true)
      → cache_release s.cache a ≡ some (remove s.cache a e.key)
  last_release a e at one why =
      let (f, bt, cases) = release_cases calloc_ok mutex_ok made reach a (omega (arith, one)) in
      let same : f ≡ e = some-injective _ _ (sym bt ∙ at) in
      elim cases [
        | inl (more, _) ↦ absurd (omega (arith, more, one))
        | inr (inl (_, whole, good, _)) ↦ absurd (ground (arith, same, whole, good, why))
        | inr (inr (_, _, q)) ↦
            subst (λ (g : Entry). cache_release s.cache a ≡ some (remove s.cache a g.key)) same q
      ]

module _ {c : Cache} {s : System} (calloc_ok mutex_ok : Bool)
    (made : cache_table_init calloc_ok mutex_ok ≡ some c) (reach : Reach c s) where
  -- In every state that clients reach in which two references are left to an entry that is not complete
  -- or has failed: the first release leaves it with one, and its log line, if it runs at once, reads the
  -- key and the count 1; but if the second holder releases the entry before that, the log line of the
  -- first reads an entry that has been freed.
  pub log_reads_freed :
      (a : ℕ) (e : Entry)
      → s.cache.heap a ≡ some e
      → s.held a ≡ 2
      → (e.complete ≡ false) ⊎ (e.failed ≡ true)
      → (d : Cache) × (f : Cache) × (cache_release s.cache a ≡ some d)
        × (release_log d a ≡ some (e.key, pos 1))
        × (cache_release d a ≡ some f)
        × (release_log f a ≡ none)
  unfolding release_log
  log_reads_freed a e at two why =
      let first = first_release calloc_ok mutex_ok made reach a e at (omega (arith, two)) in
      let d = put s.cache a (record e { refcnt = dec e.refcnt }) in
      let count = (Reach-Inv calloc_ok mutex_ok made reach).counted a e at in
      let next = later reach (releases a d (omega (arith, two)) first) in
      (
        d,
        remove d a e.key,
        first,
        ground (arith, count, two),
        last_release calloc_ok mutex_ok made next a (record e { refcnt = dec e.refcnt })
            (ground arith) (ground (arith, two)) why,
        ground arith,
      )
