-- ===== src/Proxy/Handler/Caching.antt =====
-- What a writer puts into the cache: it does not depend on its client.
use operation_systems.Base.{
  ℕ, ◌+◌, ◌%◌, ◌≡◌, ◌≢◌, refl, ap, Bool, true, false, List, [], ◌∷◌, arith, ltb, if◌then◌else◌,
  length,
}
use operation_systems.Cache.Entry.{size_mod}
use operation_systems.Proxy.Send.{SendStatus, send_all}
use operation_systems.Proxy.Handler.{
  Effect, appends, marks_complete, marks_failed, Run, done, after_send, OriginEvent, chunk, closed,
  interrupted, reset, broken, received, relay,
}

-- The effects on the contents and the flags of the entry.
abbrev pub on_entry : List Effect → List Effect
on_entry [] = []
on_entry (appends bytes ∷ es) = appends bytes ∷ on_entry es
on_entry (marks_complete ∷ es) = marks_complete ∷ on_entry es
on_entry (marks_failed ∷ es) = marks_failed ∷ on_entry es
on_entry (_ ∷ es) = on_entry es

-- The response as the origin gives it: each chunk, and then the mark. A reset counts as the end of a
-- response of which some bytes came.
pub response : List OriginEvent → ℕ → List Effect
response [] total = []
response (interrupted ∷ events) total = response events total
response (reset ∷ events) total = (if ltb 0 total then marks_complete else marks_failed) ∷ []
response (broken ∷ events) total = marks_failed ∷ []
response (closed ∷ events) total = marks_complete ∷ []
response (chunk b bs false sends ∷ events) total = appends (received b bs) ∷ marks_failed ∷ []
response (chunk b bs true sends ∷ events) total =
    appends (received b bs) ∷ response events ((total + length (received b bs)) % size_mod)

-- No `send` to the client blocks for good.
abbrev pub NeverBlocks : List OriginEvent → Type 0
NeverBlocks [] = Unit {0}
NeverBlocks (chunk b bs stored sends ∷ events) =
    ((send_all sends (received b bs)).status ≢ SendStatus.blocked) × NeverBlocks events
NeverBlocks (_ ∷ events) = NeverBlocks events

-- The origin ends the response in some way, or the cache refuses a chunk.
abbrev pub ends : List OriginEvent → Bool
ends [] = false
ends (interrupted ∷ events) = ends events
ends (chunk b bs true sends ∷ events) = ends events
ends (_ ∷ events) = true

-- The entry gets what the origin gives, and a response that ends makes the loop end.
abbrev Relays : List OriginEvent → ℕ → Run → Type 0
Relays events total r =
    (on_entry r.effects ≡ response events total) × (ends events ≡ true → r.status ≡ done)

after_send-Relays :
    (events : List OriginEvent) (total : ℕ) (status : SendStatus) (go stop : Run)
    → status ≢ SendStatus.blocked
    → Relays events total go
    → Relays events total stop
    → Relays events total (after_send status go stop)
after_send-Relays events total (SendStatus.returns k) go stop n g s = g
after_send-Relays events total SendStatus.error go stop n g s = s
after_send-Relays events total SendStatus.blocked go stop n g s = absurd (n refl)

-- If no `send` to the client blocks for good, the entry gets each chunk that the origin gives, in
-- order, and then one mark, whatever becomes of the client; and if the origin ends the response or
-- the cache refuses a chunk, the loop ends.
pub relay_caches :
    (events : List OriginEvent) (alive : Bool) (total : ℕ)
    → NeverBlocks events
    → (on_entry (relay events alive total).effects ≡ response events total)
      × (ends events ≡ true → (relay events alive total).status ≡ done)
unfolding relay response
relay_caches [] alive total n = (refl, λ h. cc)
relay_caches (interrupted ∷ events) alive total n = relay_caches events alive total n
relay_caches (reset ∷ events) alive total n = (ground arith, λ h. refl)
relay_caches (broken ∷ events) alive total n = (refl, λ h. refl)
relay_caches (closed ∷ events) alive total n = (refl, λ h. refl)
relay_caches (chunk b bs false sends ∷ events) alive total n = (refl, λ h. refl)
relay_caches (chunk b bs true sends ∷ events) false total n =
    let (same, end) = relay_caches events false ((total + length (received b bs)) % size_mod) n.1 in
    (ap (◌∷◌ (appends (received b bs))) same, end)
relay_caches (chunk b bs true sends ∷ events) true total n =
    let now = (total + length (received b bs)) % size_mod in
    let (same, end) =
      after_send-Relays events now (send_all sends (received b bs)).status _ _ n.0
        (relay_caches events true now n.1) (relay_caches events false now n.1) in
    (ap (◌∷◌ (appends (received b bs))) same, end)
