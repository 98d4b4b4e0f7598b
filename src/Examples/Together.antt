-- ===== src/Examples/Together.antt =====
-- A handler that cannot reach its origin, from its first effect to its last.
use operation_systems.Base.{
  ℕ, zero, suc, ◌<◌, ◌≡◌, refl, true, false, List, [], ◌∷◌, Option, none, some, arith,
}
use operation_systems.Base.Int.{pos}
use operation_systems.Base.Store.{update}
use operation_systems.Cache.Entry.{Entry, new_entry, cache_mark_failed}
use operation_systems.Cache.Table.{Cache, put, remove, cache_release, cache_table_destroy, hash_key}
use operation_systems.Proxy.Send.{accepted, send_all}
use operation_systems.Proxy.Search.{memmem_simple, find_host_header}
use operation_systems.Proxy.Request.{receive, parse_request, make_key}
use operation_systems.Proxy.Handler.{
  Effect, joins_writer, sends_client, marks_failed, releases, closes_client, bad_gateway, done,
  World, handle_client,
}
use operation_systems.Proxy.Together.{
  behind, starts, fails, lets_go, elsewhere, System, acts, init, Reach, start, later,
}
use operation_systems.Proxy.Together.Calls.{calls}
use operation_systems.Proxy.Together.Counted.{holders}
use operation_systems.Proxy.Together.Ending.{HasReturned, handlers_leave_whole}
use operation_systems.Proxy.Together.Refines.{served, handlers_refine_map, handlers_share_map}
use operation_systems.Cache.Spec.{SpecReach, item}
use operation_systems.Examples.Clients.{env, page, empty_table, one_entry, made, started}
use operation_systems.Examples.Handlers.{world}

abbrev down : World
down = record world { connects = false; reply_sends = accepted 100 ∷ [] }

down_effects :
    (handle_client down).effects
    ≡ joins_writer ∷ sends_client bad_gateway ∷ marks_failed ∷ releases ∷ closes_client ∷ []
unfolding handle_client receive parse_request memmem_simple find_host_header send_all make_key
down_effects = refl

down_done : (handle_client down).status ≡ done
unfolding handle_client receive parse_request memmem_simple find_host_header send_all make_key
down_done = refl

abbrev first : System
first = init empty_table (λ _. down)

abbrev joined : System
joined = record {
  cache = one_entry;
  handlers = update first.handlers 0 (record {
    left = sends_client bad_gateway ∷ marks_failed ∷ releases ∷ closes_client ∷ [];
    entry = some 7;
    past = joins_writer ∷ [];
  });
}

reach_joined : Reach 1 empty_table (λ _. down) joined
reach_joined = later start (
    acts 0 joins_writer _ one_entry (some 7) (omega arith) down_effects
      (starts none env 7 page one_entry 7 refl started))

handlers_share_map_example :
    (a : ℕ) × (e : Entry) × ((joined.handlers 0).entry ≡ some a)
    × (joined.cache.heap a ≡ some e)
    × (e.refcnt ≡ pos (holders a 1 joined.handlers))
    × (served 1 joined e.key ≡ some (item e (holders a 1 joined.handlers)))
handlers_share_map_example = handlers_share_map true true made reach_joined 0 (omega arith) refl

abbrev turn : System → Cache → Effect → List Effect → System
turn s c effect left = record {
  cache = c;
  handlers = update s.handlers 0 (behind (s.handlers 0) effect left (some 7));
}

abbrev broken : Entry
broken = record (new_entry page) { failed = true }

abbrev replied : System
replied =
    turn joined one_entry (sends_client bad_gateway) (marks_failed ∷ releases ∷ closes_client ∷ [])

abbrev marked : System
marked = turn replied (put one_entry 7 broken) marks_failed (releases ∷ closes_client ∷ [])

abbrev released : System
released = turn marked (remove marked.cache 7 page) releases (closes_client ∷ [])

abbrev gone : System
gone = turn released released.cache closes_client []

reach_marked : Reach 1 empty_table (λ _. down) marked
unfolding cache_mark_failed
reach_marked =
    later
      (later reach_joined (
        acts 0 (sends_client bad_gateway) _ one_entry (some 7) (omega arith) refl
          (elsewhere (some 7) (sends_client bad_gateway) refl)))
      (acts 0 marks_failed _ _ (some 7) (omega arith) refl (fails 7 (new_entry page) refl))

reach_gone : Reach 1 empty_table (λ _. down) gone
unfolding cache_release hash_key
reach_gone =
    later
      (later reach_marked (
        acts 0 releases _ released.cache (some 7) (omega arith) refl
          (lets_go 7 released.cache refl)))
      (acts 0 closes_client _ released.cache (some 7) (omega arith) refl
        (elsewhere (some 7) closes_client refl))

handlers_refine_map_example : SpecReach (calls reach_gone) (served 1 gone)
handlers_refine_map_example = handlers_refine_map true true made reach_gone

down-HasReturned : (i : ℕ) → i < 1 → HasReturned down (gone.handlers i)
down-HasReturned zero h = (refl, down_done)
down-HasReturned (suc i) h = absurd (omega arith)

handlers_leave_whole_example :
    ((a : ℕ) (e : Entry)
      → gone.cache.heap a ≡ some e
      → (e.refcnt ≡ pos 0) × (e.complete ≡ true) × (e.failed ≡ false))
    × ((rest : ℕ → Option Entry) × (cache_table_destroy gone.cache ≡ some rest)
        × ((a : ℕ) → rest a ≡ none))
handlers_leave_whole_example = handlers_leave_whole true true made reach_gone down-HasReturned
