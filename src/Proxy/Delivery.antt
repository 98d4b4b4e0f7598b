-- ===== src/Proxy/Delivery.antt =====
-- `handle_client` and the cache together: the writer's calls on its entry, and the readers that
-- follow the entry meanwhile.
pub mod Filling
pub mod Relaying
pub mod Readers
use mathlib.Core.Option
use operation_systems.Base.{ℕ, Bool, true, false, List, [], ◌∷◌, ◌++◌, Option, none, some, length}
use operation_systems.Base.Int.{ℤ}
use operation_systems.Cache.Entry.{
  Entry, Rc, ok, error, Outcome, cache_append_data, cache_mark_complete, cache_mark_failed,
}
use operation_systems.Proxy.Send.{SendEvent, NeverZero}
use operation_systems.Proxy.Handler.{
  Effect, appends, marks_complete, marks_failed, OriginEvent, chunk, closed, interrupted, reset,
  broken, received,
}

abbrev pub Allocator : Type 0
Allocator = List ℕ → ℕ → Option (List ℕ)

abbrev pub is_ok : Rc → Bool
is_ok ok = true
is_ok error = false

-- The entry behind a call of the writer; `none` is an access out of bounds.
abbrev pub entry_of : Option Outcome → Option Entry
entry_of none = none
entry_of (some o) = some o.entry

abbrev pub changed : Allocator → Entry → Effect → Option Entry
changed realloc e (appends bytes) = entry_of (cache_append_data realloc e bytes (length bytes))
changed realloc e marks_complete = some (cache_mark_complete e).entry
changed realloc e marks_failed = some (cache_mark_failed e).entry
changed realloc e _ = some e

abbrev pub go_on : Entry → (Entry → Option (List Entry)) → Option Entry → Option (List Entry)
go_on e rest none = none
go_on e rest (some next) = Option.map (◌∷◌ e) (rest next)

-- The states of the entry, one behind the other, while the handler does its effects.
unfoldable pub performed : Allocator → List Effect → Entry → Option (List Entry)
performed realloc [] e = some (e ∷ [])
performed realloc (effect ∷ effects) e =
    go_on e (performed realloc effects) (changed realloc e effect)

-- What the origin gives, where the cache answers each chunk with the entry as it is then.
abbrev pub stored_chunk :
    ℕ → List ℕ → List SendEvent → Option Outcome → (Entry → List OriginEvent) → List OriginEvent
stored_chunk b bs sends none rest = []
stored_chunk b bs sends (some o) rest = chunk b bs (is_ok o.rc) sends ∷ rest o.entry

unfoldable pub answered : Allocator → List OriginEvent → Entry → List OriginEvent
answered realloc [] e = []
answered realloc (chunk b bs _ sends ∷ events) e =
    stored_chunk b bs sends (cache_append_data realloc e (received b bs) (length (received b bs)))
      (answered realloc events)
answered realloc (interrupted ∷ events) e = interrupted ∷ answered realloc events e
answered realloc (event ∷ events) e = event ∷ []

-- The bytes of the response, up to its end.
unfoldable pub body : List OriginEvent → List ℕ
body [] = []
body (chunk b bs _ sends ∷ events) = received b bs ++ body events
body (interrupted ∷ events) = body events
body (_ ∷ events) = []

-- A reader looks at the entry as often as it likes in each state, with any count of references, and
-- each `send` that succeeds takes a byte at least.
pub data Follows : List Entry → List (Entry × List SendEvent) → Type 0 where
  leaves : {states : List Entry} → Follows states []
  moves :
      {e : Entry} {states : List Entry} {seen : List (Entry × List SendEvent)}
      → Follows states seen
      → Follows (e ∷ states) seen
  looks :
      {e : Entry} {states : List Entry} {seen : List (Entry × List SendEvent)}
      → (refcnt : ℤ) (sends : List SendEvent) → NeverZero sends
      → Follows (e ∷ states) seen
      → Follows (e ∷ states) ((record e { refcnt = refcnt }, sends) ∷ seen)
