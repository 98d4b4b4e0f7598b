-- ===== src/Proxy/Delivery/Readers.antt =====
-- From the origin to the readers of an entry.
use mathlib.Core.Option.{some-injective}
use operation_systems.Base.{
  ℕ, ◌<◌, ◌≡◌, refl, sym, subst, inl, inr, true, List, [], ◌∷◌, ◌++◌, ◌∙◌, some, arith, leb,
  if_true, if_false, Bool-cases, length,
}
use operation_systems.Cache.Entry.{Entry, cache_mark_failed, size_mod, new_entry, Reallocates}
use operation_systems.Cache.Table.{refused, writer, reader}
use operation_systems.Proxy.Send.{SendEvent, SendStatus, send_all}
use operation_systems.Proxy.Stream.{
  StreamEnd, entry_failed, finished, client_gone, stuck, stream_from_cache,
}
use operation_systems.Proxy.Stream.Exact.{Sees, Sees-mono, stream_exact}
use operation_systems.Proxy.Request.{
  Parsed, parsed, closes, waits_for_more, overflow, receive, Request, parse_request, make_key,
  ◌>>=◌,
}
use operation_systems.Proxy.Handler.{
  Effect, joins_reader, joins_writer, opens_origin, sends_client, sends_origin, marks_failed,
  releases, closes_origin, closes_client, Run, OriginEvent, relay, World, read_entry,
  reply_bad_gateway, bad_gateway, origin_request, req_size, ask_origin, write_entry, serve, answer,
  returns_after, give_up, after_reply, leave_entry, handle_client,
}
use operation_systems.Proxy.Delivery.{
  Allocator, changed, performed, answered, body, Follows, leaves, moves, looks,
}
use operation_systems.Proxy.Delivery.Filling.{
  Good, Grows, Fills, Filling, nothing-Fills, change-Fills, same-Fills, Filling-Good,
}
use operation_systems.Proxy.Delivery.Relaying.{after_send-Fills, relay-Fills}

-- What a reader sees of an entry that grows.
Follows-Sees :
    (full : List ℕ) (least : ℕ) {states : List Entry} {seen : List (Entry × List SendEvent)}
    → Follows states seen
    → Grows full least states
    → Sees full least seen
Follows-Sees full least leaves g = tt
Follows-Sees full least {states = e ∷ states} {seen} (moves f) (l, good, g) =
    Sees-mono full e.size least seen l (Follows-Sees full e.size f g)
Follows-Sees full least {states = e ∷ states} (looks refcnt sends z f) (l, good, g) =
    (l, good.0, good.1, good.2, z, Follows-Sees full e.size f (omega arith, good, g))

new-Filling : (key full : List ℕ) → length full < size_mod → Filling full (new_entry key) full
new-Filling key full small = record {
  valid = record { allocated = refl; fits = omega arith };
  unfinished = refl;
  good = refl;
  split = refl;
  small = small;
}

module _ (realloc : Allocator) (key : List ℕ) (events : List OriginEvent) (r : Reallocates realloc)
    (small : length (body events) < size_mod) where
  -- The handler's effects fill the new entry of its key.
  abbrev HandlerFills : Run → Type 0
  HandlerFills run = Fills realloc (body events) (new_entry key) run.effects

  new : Entry
  new = new_entry key

  good : Good (body events) (new_entry key)
  good =
      Filling-Good realloc (body events) (new_entry key) (body events)
        (new-Filling key (body events) small)

  same :
      (effect : Effect) (effects : List Effect)
      → changed realloc (new_entry key) effect ≡ some (new_entry key)
      → Fills realloc (body events) (new_entry key) effects
      → Fills realloc (body events) (new_entry key) (effect ∷ effects)
  same effect effects is f =
      same-Fills realloc (body events) (new_entry key) effect effects is good f

  gives_up :
      (effects : List Effect)
      → Fills realloc (body events) (record (new_entry key) { failed = true }) effects
      → Fills realloc (body events) (new_entry key) (marks_failed ∷ effects)
  unfolding cache_mark_failed
  gives_up effects f =
      change-Fills realloc (body events) (new_entry key) (record (new_entry key) { failed = true })
        marks_failed effects refl (omega arith) good f

  left :
      (effect : Effect) (effects : List Effect)
      → changed realloc (record (new_entry key) { failed = true }) effect
        ≡ some (record (new_entry key) { failed = true })
      → Fills realloc (body events) (record (new_entry key) { failed = true }) effects
      → Fills realloc (body events) (record (new_entry key) { failed = true }) (effect ∷ effects)
  left effect effects is f =
      same-Fills realloc (body events) (record (new_entry key) { failed = true }) effect effects is
        good f

  untouched : HandlerFills (returns_after [])
  untouched = nothing-Fills realloc (body events) (new_entry key) good

  failed : Fills realloc (body events) (record (new_entry key) { failed = true }) []
  failed = nothing-Fills realloc (body events) (record (new_entry key) { failed = true }) good

  ask-Fills :
      (w : World) (q : Request)
      → w.origin ≡ answered realloc events (new_entry key)
      → HandlerFills (ask_origin w q)
  unfolding ask_origin
  ask-Fills w q is = elim (Bool-cases (leb req_size (length (origin_request q)))) [
    | inl long ↦ subst HandlerFills (if_true _ _ long) given_up
    | inr fits ↦ subst HandlerFills (if_false _ _ fits) (
        same (sends_origin (send_all w.request_sends (origin_request q)).wire) _ refl (
          after_send-Fills realloc (body events) (new_entry key)
            (send_all w.request_sends (origin_request q)).status _ _ good filled given_up))
  ]
    where
      given_up : HandlerFills (returns_after give_up)
      given_up =
          gives_up _
            (left releases _ refl (left closes_origin _ refl (left closes_client _ refl failed)))

      filled : HandlerFills (relay w.origin true 0)
      filled =
          subst (λ (os : List OriginEvent). HandlerFills (relay os true 0)) (sym is)
            (relay-Fills realloc (body events) events (new_entry key) true 0 r
              (new-Filling key (body events) small))

  reply-Fills : (wire : List ℕ) (status : SendStatus) → HandlerFills (after_reply wire status)
  reply-Fills wire (SendStatus.returns k) =
      same (sends_client wire) _ refl
        (gives_up _ (left releases _ refl (left closes_client _ refl failed)))
  reply-Fills wire SendStatus.error =
      same (sends_client wire) _ refl
        (gives_up _ (left releases _ refl (left closes_client _ refl failed)))
  reply-Fills wire SendStatus.blocked = same (sends_client wire) _ refl untouched

  write-Fills :
      (w : World) (q : Request)
      → w.origin ≡ answered realloc events (new_entry key)
      → HandlerFills (write_entry w q)
  unfolding write_entry reply_bad_gateway
  write-Fills w q is = same joins_writer _ refl (elim (Bool-cases w.connects) [
    | inl up ↦ subst HandlerFills (if_true _ _ up) (same opens_origin _ refl (ask-Fills w q is))
    | inr down ↦ subst HandlerFills (if_false _ _ down) (
        reply-Fills (send_all w.reply_sends bad_gateway).wire
          (send_all w.reply_sends bad_gateway).status)
  ])

  left_behind :
      (wire : List ℕ)
      → HandlerFills
          (returns_after (joins_reader ∷ sends_client wire ∷ releases ∷ closes_client ∷ []))
  left_behind wire =
      same joins_reader _ refl (
        same (sends_client wire) _ refl
          (same releases _ refl (same closes_client _ refl untouched)))

  leave-Fills : (wire : List ℕ) (end : StreamEnd) → HandlerFills (leave_entry wire end)
  leave-Fills wire entry_failed = left_behind wire
  leave-Fills wire finished = left_behind wire
  leave-Fills wire client_gone = left_behind wire
  leave-Fills wire stuck = same joins_reader _ refl (same (sends_client wire) _ refl untouched)

  answer-Fills :
      (w : World) (p : Parsed Request)
      → w.origin ≡ answered realloc events (new_entry key)
      → HandlerFills (answer w p)
  unfolding read_entry
  answer-Fills w (closes reason) is = same closes_client _ refl untouched
  answer-Fills w waits_for_more is = untouched
  answer-Fills w overflow is = untouched
  answer-Fills w (parsed q) is = elim (w.join (make_key q)) as (λ j. HandlerFills (serve w q j)) [
    | refused ↦ same closes_client _ refl untouched
    | reader a ↦ leave-Fills (stream_from_cache w.seen).wire (stream_from_cache w.seen).ending
    | writer a ↦ write-Fills w q is
  ]

-- Where the cache answers each chunk of the origin with the entry that the handler fills, `realloc`
-- keeps its contract and the response is below 2^64 bytes, no call of the handler on the entry makes
-- an access out of bounds, and on every path the entry holds ever more of the response: its contents
-- are always a first part of the response, and all of it once the entry is complete.
pub entry_fills :
    (realloc : Allocator) (key : List ℕ) (events : List OriginEvent) (w : World)
    → Reallocates realloc
    → length (body events) < size_mod
    → w.origin ≡ answered realloc events (new_entry key)
    → (states : List Entry) × (performed realloc (handle_client w).effects (new_entry key)
        ≡ some states)
      × Grows (body events) 0 states
unfolding handle_client
entry_fills realloc key events w r small is =
    answer-Fills realloc key events r small w (receive w.recvs [] >>= parse_request) is

-- Where the cache answers each chunk of the origin with the entry that the handler fills, `realloc`
-- keeps its contract and the response is below 2^64 bytes: another client, whose handler looks at the
-- entry at any times while the first handler fills it, and whose `send` takes a byte at least, is sent
-- a first part of the bytes that the origin gave; and if its `stream_from_cache` ends with the entry
-- complete, it is sent all of them.
pub response_reaches_readers :
    (realloc : Allocator) (key : List ℕ) (events : List OriginEvent) (w : World)
    (states : List Entry) (seen : List (Entry × List SendEvent))
    → Reallocates realloc
    → length (body events) < size_mod
    → w.origin ≡ answered realloc events (new_entry key)
    → performed realloc (handle_client w).effects (new_entry key) ≡ some states
    → Follows states seen
    → ((rest : List ℕ) × ((stream_from_cache seen).wire ++ rest ≡ body events))
      × ((stream_from_cache seen).ending ≡ finished → (stream_from_cache seen).wire ≡ body events)
response_reaches_readers realloc key events w states seen r small is ran f =
    let (reached, did, grows) = entry_fills realloc key events w r small is in
    stream_exact (body events) seen (
      Follows-Sees (body events) 0 f
        (subst (Grows (body events) 0) (some-injective _ _ (sym did ∙ ran)) grows))
