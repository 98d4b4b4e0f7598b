-- ===== src/Examples/Clients.antt =====
-- A table with one entry, from the first call to the last.
use operation_systems.Base.{
  ℕ, ◌<◌, ◌≡◌, refl, ◌⊎◌, inl, not, ◌&&◌, true, false, List, [], none, some, arith,
}
use operation_systems.Base.Int.{pos, inc, dec, is_zero}
use operation_systems.Base.Bytes.{codes}
use operation_systems.Base.Store.{update}
use operation_systems.Cache.Entry.{
  Entry, CreateEnv, new_entry, cache_entry_create, cache_mark_complete,
}
use operation_systems.Cache.Entry.Change.{completes}
use operation_systems.Cache.Table.{
  Cache, refused, writer, reader, put, link, remove, cache_table_init, cache_start_or_join,
  cache_release, default_buckets, start as start_entry, find, hash_key, join, release_log,
}
use operation_systems.Cache.Clients.{System, joins, changes, releases, Reach, start, later}
use operation_systems.Cache.Clients.Logging.{log_reads_freed}
use operation_systems.Cache.Clients.Safety.{
  Live, Grown, start_or_join_cases, release_cases, drop_never_taken, held_entries_grow,
}

abbrev pub env : CreateEnv
env = record { calloc_ok = true; strdup_ok = true; mutex_ok = true; cond_ok = true }

abbrev pub page : List ℕ
page = codes "host /page"

abbrev pub empty_table : Cache
empty_table = record { nbuckets = default_buckets; buckets = λ _. []; heap = λ _. none }

abbrev pub one_entry : Cache
one_entry = link empty_table 7 (new_entry page)

pub made : cache_table_init true true ≡ some empty_table
unfolding cache_table_init
made = refl

-- One client has started the entry at address 7.
abbrev written : System
written = record { cache = one_entry; held = update (λ _. 0) 7 1 }

pub started : cache_start_or_join env 7 empty_table page ≡ some (one_entry, writer 7)
unfolding cache_start_or_join find start_entry cache_entry_create hash_key
started = refl

reach_written : Reach empty_table written
reach_written = later start (joins env 7 page one_entry (writer 7) refl started)

-- The writer marks the entry complete, and lets go.
abbrev pub whole : Entry
whole = record (new_entry page) { complete = true }

abbrev marked : System
marked = record { cache = put one_entry 7 whole; held = update (λ _. 0) 7 1 }

reach_marked : Reach empty_table marked
unfolding cache_mark_complete
reach_marked = later reach_written (changes 7 (new_entry page) _ (omega arith) refl completes)

abbrev pub left : System
left = record {
  cache = put (put one_entry 7 whole) 7 (record whole { refcnt = pos 0 });
  held = update (update (λ _. 0) 7 1) 7 0;
}

pub reach_left : Reach empty_table left
unfolding cache_release
reach_left = later reach_marked (releases 7 left.cache (omega arith) refl)

start_or_join_cases_example :
    (((a : ℕ) (e : Entry) → ¬ Live left.cache page a e)
      × (cache_start_or_join env 8 left.cache page ≡ some (left.cache, refused))
      × (cache_entry_create env page ≡ none))
    ⊎ (((a : ℕ) (e : Entry) → ¬ Live left.cache page a e)
        × (cache_start_or_join env 8 left.cache page
            ≡ some (link left.cache 8 (new_entry page), writer 8))
        × (cache_entry_create env page ≡ some (new_entry page)))
    ⊎ ((a : ℕ) × (e : Entry) × Live left.cache page a e
        × (cache_start_or_join env 8 left.cache page
            ≡ some (put left.cache a (record e { refcnt = inc e.refcnt }), reader a)))
start_or_join_cases_example = start_or_join_cases true true made reach_left env 8 page refl

release_cases_example :
    (e : Entry) × (marked.cache.heap 7 ≡ some e)
    × (((1 < marked.held 7)
          × (cache_release marked.cache 7
              ≡ some (put marked.cache 7 (record e { refcnt = dec e.refcnt }))))
        ⊎ ((marked.held 7 ≡ 1)
            × (e.complete ≡ true)
            × (e.failed ≡ false)
            × (cache_release marked.cache 7
                ≡ some (put marked.cache 7 (record e { refcnt = dec e.refcnt }))))
        ⊎ ((marked.held 7 ≡ 1)
            × ((e.complete ≡ false) ⊎ (e.failed ≡ true))
            × (cache_release marked.cache 7 ≡ some (remove marked.cache 7 e.key))))
release_cases_example = release_cases true true made reach_marked 7 (omega arith)

drop_never_taken_example :
    ((record whole { refcnt = pos 0 }).refcnt ≡ pos (left.held 7))
    × ((whole.failed && is_zero (pos 0)) ≡ false)
    × ((not whole.complete && is_zero (pos 0)) ≡ false)
drop_never_taken_example =
    drop_never_taken true true made reach_left 7 (record whole { refcnt = pos 0 }) refl

-- A reader has joined the writer of an empty entry.
abbrev two_hold : System
two_hold = record {
  cache = put one_entry 7 (record (new_entry page) { refcnt = pos 2 });
  held = update (update (λ _. 0) 7 1) 7 2;
}

reach_two : Reach empty_table two_hold
unfolding cache_start_or_join find hash_key join
reach_two = later reach_written (joins env 8 page two_hold.cache (reader 7) refl refl)

log_reads_freed_example :
    (d : Cache) × (f : Cache) × (cache_release two_hold.cache 7 ≡ some d)
    × (release_log d 7 ≡ some (page, pos 1))
    × (cache_release d 7 ≡ some f)
    × (release_log f 7 ≡ none)
log_reads_freed_example =
    log_reads_freed true true made reach_two 7 (record (new_entry page) { refcnt = pos 2 }) refl
      refl (inl refl)

-- The response grows under a reader's eyes.
held_entries_grow_example : Grown (new_entry page) (marked.cache.heap 7)
unfolding cache_mark_complete
held_entries_grow_example =
    held_entries_grow true true made reach_written {t = marked} 7 (new_entry page)
      (changes 7 (new_entry page) _ (omega arith) refl completes) refl (omega arith) (omega arith)
