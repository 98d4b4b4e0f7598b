-- ===== src/Examples/Maps.antt =====
-- The map that a table with one complete response stands for.
use operation_systems.Base.{◌≡◌, refl, true, some}
use operation_systems.Base.Int.{pos}
use operation_systems.Cache.Table.{Cache, reader, put, cache_start_or_join, find, hash_key, join}
use operation_systems.Cache.Clients.{taken}
use operation_systems.Cache.Spec.{SpecReach, view, answer, spec_join, item}
use operation_systems.Cache.Spec.Calls.{can_make, calls_of}
use operation_systems.Cache.Spec.Refines.{start_or_join_refines, table_refines_map}
use operation_systems.Examples.Clients.{env, page, made, left, reach_left, whole}

abbrev again : Cache
again = put left.cache 7 (record whole { refcnt = pos 1 })

joined_again : cache_start_or_join env 8 left.cache page ≡ some (again, reader 7)
unfolding cache_start_or_join find hash_key join
joined_again = refl

shows_whole : view left page ≡ some (item whole 0)
unfolding find hash_key
shows_whole = refl

start_or_join_refines_example :
    (view (record { cache = again; held = taken left.held (reader 7) }), answer (reader 7))
    ≡ spec_join (view left) page (can_make env page)
start_or_join_refines_example =
    start_or_join_refines true true made reach_left env 8 page again (reader 7) refl joined_again

table_refines_map_example : SpecReach (calls_of reach_left) (view left)
table_refines_map_example = table_refines_map true true made reach_left
