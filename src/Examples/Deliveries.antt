-- ===== src/Examples/Deliveries.antt =====
-- A response of two chunks on its way to another client.
use operation_systems.Base.{
  ℕ, suc, ◌+◌, ◌≤◌, ◌≡◌, refl, sym, subst, length, take, drop-le, inl, ◌⊎◌, true, false, List, [],
  ◌∷◌, ◌++◌, some, arith,
}
use operation_systems.Base.Int.{pos}
use operation_systems.Base.Bytes.{codes}
use operation_systems.Cache.Entry.{Entry, new_entry}
use operation_systems.Proxy.Send.{SendEvent, accepted, returns, send_loop, send_all}
use operation_systems.Proxy.Stream.{entry_failed, finished, stream_from_cache}
use operation_systems.Proxy.Stream.Ends.{TakesAll, reader_ends}
use operation_systems.Proxy.Handler.{OriginEvent, chunk, interrupted, closed, World, handle_client}
use operation_systems.Proxy.Delivery.{performed, answered, body, Follows, leaves, moves, looks}
use operation_systems.Proxy.Delivery.Filling.{Grows}
use operation_systems.Proxy.Delivery.Readers.{entry_fills, response_reaches_readers}
use operation_systems.Examples.Caches.{realloc, realloc-Reallocates}
use operation_systems.Examples.Handlers.{world, whole}

-- The flag of a chunk is set from the answer of the cache.
abbrev from_origin : List OriginEvent
from_origin =
    chunk 1 (2 ∷ []) true (accepted 8 ∷ [])
    ∷ interrupted
    ∷ chunk 3 [] true (accepted 8 ∷ [])
    ∷ closed
    ∷ []

body_is : body from_origin ≡ 1 ∷ 2 ∷ 3 ∷ []
unfolding body
body_is = refl

abbrev fetching : World
fetching = record world { origin = answered realloc from_origin (new_entry (codes "a /x")) }

entry_fills_example :
    (states : List Entry) × (performed realloc
        (handle_client fetching).effects
        (new_entry (codes "a /x"))
      ≡ some states)
    × Grows (body from_origin) 0 states
unfolding body
entry_fills_example =
    entry_fills realloc (codes "a /x") from_origin fetching realloc-Reallocates (omega arith) refl

-- A reader that looks once at each state of the entry.
abbrev look_once : List Entry → List (Entry × List SendEvent)
look_once [] = []
look_once (e ∷ states) = (record e { refcnt = pos 2 }, accepted 4096 ∷ []) ∷ look_once states

look_once-Follows : (states : List Entry) → Follows states (look_once states)
look_once-Follows [] = leaves
look_once-Follows (e ∷ states) =
    looks (pos 2) (accepted 4096 ∷ []) tt (moves (look_once-Follows states))

abbrev looked : List (Entry × List SendEvent)
looked = look_once entry_fills_example.0

response_reaches_readers_example :
    ((rest : List ℕ) × ((stream_from_cache looked).wire ++ rest ≡ body from_origin))
    × ((stream_from_cache looked).ending ≡ finished
        → (stream_from_cache looked).wire ≡ body from_origin)
unfolding body
response_reaches_readers_example =
    response_reaches_readers realloc (codes "a /x") from_origin fetching entry_fills_example.0
      looked realloc-Reallocates (omega arith) refl entry_fills_example.1
      (look_once-Follows entry_fills_example.0)

-- A client that takes each block at once.
abbrev at_once : List SendEvent
at_once = accepted 4096 ∷ []

taken_at_once :
    (n b : ℕ) (bs : List ℕ)
    → length bs ≤ n
    → (send_all (accepted (suc n) ∷ []) (b ∷ bs)).status
      ≡ returns (0 + length (take (suc n) (b ∷ bs)))
unfolding send_all
taken_at_once n b bs fits =
    let sent = 0 + length (take (suc n) (b ∷ bs)) in
    subst (λ (left : List ℕ). (send_loop sent [] left).status ≡ returns sent)
      (sym (drop-le n bs fits)) refl

nothing_to_send : (send_all at_once []).status ≡ returns 0
unfolding send_all
nothing_to_send = refl

at_once-TakesAll : TakesAll at_once
at_once-TakesAll = (tt, takes)
  where
    takes :
        (bytes : List ℕ)
        → length bytes ≤ 4096
        → (k : ℕ) × ((send_all at_once bytes).status ≡ returns k)
    takes [] fits = (0, nothing_to_send)
    takes (b ∷ bs) fits = (_, taken_at_once 4095 b bs (omega arith))

reader_ends_example :
    ((whole.failed ≡ true)
      × ((stream_from_cache ((whole, at_once) ∷ (whole, at_once) ∷ [])).ending ≡ entry_failed))
    ⊎ ((whole.failed ≡ false)
        × ((stream_from_cache ((whole, at_once) ∷ (whole, at_once) ∷ [])).ending ≡ finished)
        × ((stream_from_cache ((whole, at_once) ∷ (whole, at_once) ∷ [])).wire ≡ 1 ∷ 2 ∷ 3 ∷ []))
reader_ends_example =
    reader_ends whole ((whole, at_once) ∷ (whole, at_once) ∷ []) (omega arith)
      ((pos 1, refl), at_once-TakesAll, ((pos 1, refl), at_once-TakesAll, tt)) (inl refl)
      (omega arith)
