-- ===== src/Examples/Handlers.antt =====
-- A handler that fetches a page, and a reader that follows it.
use operation_systems.Base.{◌≡◌, refl, true, false, List, [], ◌∷◌, ◌++◌}
use operation_systems.Base.Bytes.{codes}
use operation_systems.Cache.Entry.{Entry, new_entry, cache_mark_complete}
use operation_systems.Cache.Entry.Change.{completes}
use operation_systems.Cache.Table.{writer}
use operation_systems.Proxy.Send.{SendEvent, accepted, send_all}
use operation_systems.Proxy.Search.{memmem_simple, find_host_header}
use operation_systems.Proxy.Request.{arrived, crlf, header_end, parse_request, receive, make_key}
use operation_systems.Proxy.Stream.{stream_from_cache, finished, Change-wakes}
use operation_systems.Proxy.Handler.{
  chunk, closed, World, joins_writer, opens_origin, sends_origin, sends_client, appends,
  marks_complete, closes_origin, closes_client, releases, done, relay, handle_client,
  origin_request,
}
use operation_systems.Proxy.Handler.Caching.{on_entry, response, ends, relay_caches}

abbrev pub world : World
world = record {
  recvs = arrived b'G' (codes "ET /x HTTP/1.0" ++ (crlf ++ (codes "Host: a" ++ header_end))) ∷ [];
  join = λ _. writer 7;
  seen = [];
  connects = true;
  reply_sends = [];
  request_sends = accepted 100 ∷ [];
  origin = chunk 1 (2 ∷ []) true (accepted 1 ∷ accepted 1 ∷ []) ∷ closed ∷ [];
}

world_runs :
    (handle_client world).effects
    ≡ joins_writer
      ∷ opens_origin
      ∷ sends_origin (origin_request (record { host = codes "a"; uri = codes "/x" }))
      ∷ appends (1 ∷ 2 ∷ [])
      ∷ sends_client (1 ∷ 2 ∷ [])
      ∷ marks_complete
      ∷ closes_origin
      ∷ closes_client
      ∷ releases
      ∷ []
unfolding handle_client receive parse_request memmem_simple find_host_header relay send_all make_key
world_runs = refl

relay_caches_example :
    (on_entry (relay world.origin false 0).effects ≡ response world.origin 0)
    × (ends world.origin ≡ true → (relay world.origin false 0).status ≡ done)
unfolding send_all
relay_caches_example = relay_caches world.origin false 0 ((λ e. cc), tt)

-- An entry with three bytes, and the entry once it is complete.
abbrev pub partial : Entry
partial = record (new_entry (codes "a /x")) { block = 1 ∷ 2 ∷ 3 ∷ 0 ∷ []; size = 3; capacity = 4 }

abbrev pub whole : Entry
whole = record partial { complete = true }

abbrev seen : List (Entry × List SendEvent)
seen = (partial, accepted 2 ∷ accepted 2 ∷ []) ∷ (partial, []) ∷ (whole, []) ∷ []

stream_runs : (stream_from_cache seen).ending ≡ finished
unfolding stream_from_cache send_all
stream_runs = refl

Change-wakes_example : (cache_mark_complete partial).broadcast ≡ true
unfolding cache_mark_complete
Change-wakes_example = Change-wakes 3 {e = partial} completes refl refl
