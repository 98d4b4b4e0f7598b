-- ===== src/Proxy/Handler/Protocol.antt =====
-- What the handler does with its descriptors and its entry, in which order, on every path.
use operation_systems.Base.{
  ℕ, ◌+◌, ◌%◌, ◌≡◌, refl, subst, inl, inr, Bool, true, false, List, [], ◌∷◌, Option, none, some,
  arith, if◌then◌else◌, leb, length, Bool-cases, if_true, if_false,
}
use operation_systems.Cache.Table.{Join, refused, writer, reader}
use operation_systems.Cache.Entry.{size_mod}
use operation_systems.Proxy.Send.{SendStatus, send_all}
use operation_systems.Proxy.Request.{
  Parsed, parsed, closes, waits_for_more, overflow, receive, Request, parse_request, make_key,
  ◌>>=◌,
}
use operation_systems.Proxy.Stream.{
  StreamEnd, entry_failed, finished, client_gone, stuck, stream_from_cache,
}
use operation_systems.Proxy.Handler.{
  Effect, joins_reader, joins_writer, opens_origin, sends_client, sends_origin, appends,
  marks_complete, marks_failed, releases, closes_origin, closes_client, done, Run, OriginEvent,
  chunk, closed, interrupted, reset, broken, received, relay, World, read_entry, reply_bad_gateway,
  bad_gateway, origin_request, req_size, ask_origin, write_entry, serve, answer, handle_client,
  leave_entry, after_reply, after_send,
}

-- What the handler may do with the entry.
pub data Role : Type 0 where
  outside reading writing marked : Role

-- What the handler holds.
pub record Hand : Type 0 where
  pub client_open : Bool
  pub origin_open : Bool
  pub role : Role

-- An effect is allowed in the state in which it makes sense: what is used is open and held, data are
-- appended before the entry is marked, it is marked once, and a writer marks it before it lets go.
unfoldable pub allowed : Hand → Effect → Option Hand
allowed h joins_reader = elim h.role [ outside ↦ some (record h { role = reading }) | _ ↦ none ]
allowed h joins_writer = elim h.role [ outside ↦ some (record h { role = writing }) | _ ↦ none ]
allowed h opens_origin = if h.origin_open then none else some (record h { origin_open = true })
allowed h (sends_client _) = if h.client_open then some h else none
allowed h (sends_origin _) = if h.origin_open then some h else none
allowed h (appends _) = elim h.role [ writing ↦ some h | _ ↦ none ]
allowed h marks_complete = elim h.role [ writing ↦ some (record h { role = marked }) | _ ↦ none ]
allowed h marks_failed = elim h.role [ writing ↦ some (record h { role = marked }) | _ ↦ none ]
allowed h releases = elim h.role [
  | outside ↦ none
  | reading ↦ some (record h { role = outside })
  | writing ↦ none
  | marked ↦ some (record h { role = outside })
]
allowed h closes_origin = if h.origin_open then some (record h { origin_open = false }) else none
allowed h closes_client = if h.client_open then some (record h { client_open = false }) else none

unfoldable pub replay : Hand → List Effect → Option Hand
unfolding allowed
replay h [] = some h
replay h (e ∷ es) = elim (allowed h e) [ none ↦ none | some next ↦ replay next es ]

-- A handler starts with the client's descriptor, and ends with nothing.
abbrev pub fresh : Hand
fresh = record { client_open = true; origin_open = false; role = outside }

abbrev pub empty_handed : Hand
empty_handed = record { client_open = false; origin_open = false; role = outside }

-- Each effect is allowed, and a handler that returns holds nothing.
abbrev pub Keeps : Hand → Run → Type 0
Keeps h r = (end : Hand) × (replay h r.effects ≡ some end) × (r.status ≡ done → end ≡ empty_handed)

abbrev writer_hand : Bool → Hand
writer_hand origin = record { client_open = true; origin_open = origin; role = writing }

after_send-Keeps :
    (h : Hand) (status : SendStatus) (go stop : Run)
    → Keeps h go
    → Keeps h stop
    → Keeps h (after_send status go stop)
unfolding replay
after_send-Keeps h (SendStatus.returns k) go stop kg ks = kg
after_send-Keeps h SendStatus.error go stop kg ks = ks
after_send-Keeps h SendStatus.blocked go stop kg ks = (h, refl, λ e. cc)

relay-Keeps :
    (events : List OriginEvent) (alive : Bool) (total : ℕ)
    → Keeps (writer_hand true) (relay events alive total)
unfolding relay replay
relay-Keeps [] alive total = (writer_hand true, refl, λ h. cc)
relay-Keeps (interrupted ∷ events) alive total = relay-Keeps events alive total
relay-Keeps (reset ∷ events) alive total = (empty_handed, ground arith, λ h. refl)
relay-Keeps (broken ∷ events) alive total = (empty_handed, refl, λ h. refl)
relay-Keeps (closed ∷ events) alive total = (empty_handed, refl, λ h. refl)
relay-Keeps (chunk b bs false sends ∷ events) alive total = (empty_handed, refl, λ h. refl)
relay-Keeps (chunk b bs true sends ∷ events) false total =
    relay-Keeps events false ((total + length (received b bs)) % size_mod)
relay-Keeps (chunk b bs true sends ∷ events) true total =
    after_send-Keeps (writer_hand true) (send_all sends (received b bs)).status _ _
      (relay-Keeps events true ((total + length (received b bs)) % size_mod))
      (relay-Keeps events false ((total + length (received b bs)) % size_mod))

ask_origin-Keeps : (w : World) (r : Request) → Keeps (writer_hand true) (ask_origin w r)
unfolding ask_origin replay
ask_origin-Keeps w r = elim (Bool-cases (leb req_size (length (origin_request r)))) [
  | inl long ↦ subst (Keeps (writer_hand true)) (if_true _ _ long) (empty_handed, refl, λ h. refl)
  | inr fits ↦ subst (Keeps (writer_hand true)) (if_false _ _ fits) (
      after_send-Keeps (writer_hand true) (send_all w.request_sends (origin_request r)).status _ _
        (relay-Keeps w.origin true 0) (empty_handed, refl, λ h. refl))
]

after_reply-Keeps :
    (wire : List ℕ) (status : SendStatus) → Keeps (writer_hand false) (after_reply wire status)
unfolding replay
after_reply-Keeps wire (SendStatus.returns k) = (empty_handed, refl, λ h. refl)
after_reply-Keeps wire SendStatus.error = (empty_handed, refl, λ h. refl)
after_reply-Keeps wire SendStatus.blocked = (writer_hand false, refl, λ h. cc)

write-Keeps : (w : World) (r : Request) → Keeps fresh (write_entry w r)
unfolding write_entry reply_bad_gateway replay
write-Keeps w r = elim (Bool-cases w.connects) [
  | inl up ↦
      subst (λ (x : Run). Keeps (writer_hand false) x) (if_true _ _ up) (ask_origin-Keeps w r)
  | inr down ↦
      subst (λ (x : Run). Keeps (writer_hand false) x) (if_false _ _ down)
        (after_reply-Keeps (send_all w.reply_sends bad_gateway).wire
          (send_all w.reply_sends bad_gateway).status)
]

leave-Keeps : (wire : List ℕ) (end : StreamEnd) → Keeps fresh (leave_entry wire end)
unfolding replay
leave-Keeps wire entry_failed = (empty_handed, refl, λ h. refl)
leave-Keeps wire finished = (empty_handed, refl, λ h. refl)
leave-Keeps wire client_gone = (empty_handed, refl, λ h. refl)
leave-Keeps wire stuck =
    (record { client_open = true; origin_open = false; role = reading }, refl, λ h. cc)

serve-Keeps : (w : World) (r : Request) (j : Join) → Keeps fresh (serve w r j)
unfolding read_entry replay
serve-Keeps w r refused = (empty_handed, refl, λ h. refl)
serve-Keeps w r (reader a) =
    leave-Keeps (stream_from_cache w.seen).wire (stream_from_cache w.seen).ending
serve-Keeps w r (writer a) = write-Keeps w r

answer-Keeps : (w : World) (p : Parsed Request) → Keeps fresh (answer w p)
unfolding replay
answer-Keeps w (closes reason) = (empty_handed, refl, λ h. refl)
answer-Keeps w waits_for_more = (fresh, refl, λ h. cc)
answer-Keeps w overflow = (fresh, refl, λ h. cc)
answer-Keeps w (parsed r) = serve-Keeps w r (w.join (make_key r))

pub handler_protocol :
    (w : World)
    → (end : Hand) × (replay fresh (handle_client w).effects ≡ some end)
      × ((handle_client w).status ≡ done → end ≡ empty_handed)
unfolding handle_client
handler_protocol w = answer-Keeps w (receive w.recvs [] >>= parse_request)
