-- ===== src/Proxy/Handler.antt =====
-- The second half of `handle_client`: the cache is asked, and the response is read or fetched.
--
-- The handler is the list of what it does, given the answers of the kernel and of the cache. A
-- descriptor or an entry is named by its part, since the handler has one client, at most one origin
-- and at most one entry.
pub mod Protocol
pub mod Caching
use operation_systems.Base.{
  ℕ, ◌+◌, ◌%◌, ◌≡◌, Bool, true, false, List, [], ◌∷◌, ◌++◌, ltb, leb, if◌then◌else◌, length, take,
}
use operation_systems.Base.Bytes.{codes}
use operation_systems.Cache.Entry.{Entry, size_mod}
use operation_systems.Cache.Table.{Join, refused, writer, reader}
use operation_systems.Proxy.Send.{SendEvent, SendStatus, Sent, send_all}
use operation_systems.Proxy.Request.{
  Recv, Parsed, parsed, closes, waits_for_more, overflow, receive, Request, parse_request, make_key,
  ◌>>=◌,
}
use operation_systems.Proxy.Stream.{
  StreamEnd, entry_failed, finished, client_gone, stuck, stream_from_cache,
}

pub data Effect : Type 0 where
  joins_reader joins_writer opens_origin : Effect
  sends_client sends_origin : List ℕ → Effect
  appends : List ℕ → Effect
  marks_complete marks_failed releases closes_origin closes_client : Effect

-- The handler returned, it waits for an answer that does not come, or it wrote behind its buffer.
pub data Status : Type 0 where
  done blocked undefined : Status

pub record Run : Type 0 where
  pub effects : List Effect
  pub status : Status

abbrev pub does : List Effect → Run → Run
does first r = record r { effects = first ++ r.effects }

abbrev pub returns_after : List Effect → Run
returns_after effects = record { effects = effects; status = done }

abbrev pub blocks_after : List Effect → Run
blocks_after effects = record { effects = effects; status = blocked }

-- The three ways out of a call of `send_all`.
abbrev pub after_send : SendStatus → Run → Run → Run
after_send status go stop = elim status [
  | SendStatus.returns _ ↦ go
  | SendStatus.error ↦ stop
  | SendStatus.blocked ↦ blocks_after []
]

-- What `recv` on the origin's connection answers, with what follows for a chunk: whether
-- `cache_append_data` returned 0, and the answers to the `send` calls to the client.
pub data OriginEvent : Type 0 where
  chunk : ℕ → List ℕ → Bool → List SendEvent → OriginEvent
  closed interrupted reset broken : OriginEvent

-- `sizeof(serv_buf)` and `sizeof(req)`
abbrev pub serv_size : ℕ
serv_size = 8192

abbrev pub req_size : ℕ
req_size = 4096

abbrev pub received : ℕ → List ℕ → List ℕ
received b bs = take serv_size (b ∷ bs)

-- The end of the handler of a writer, behind the loop.
abbrev pub finish : Effect → Run
finish mark = returns_after (mark ∷ closes_origin ∷ closes_client ∷ releases ∷ [])

-- The loop over `recv` on the origin: `alive` is `client_alive`, `total` is `total_from_origin`.
unfoldable pub relay : List OriginEvent → Bool → ℕ → Run
relay [] alive total = blocks_after []
relay (interrupted ∷ events) alive total = relay events alive total
relay (reset ∷ events) alive total = finish (if ltb 0 total then marks_complete else marks_failed)
relay (broken ∷ events) alive total = finish marks_failed
relay (closed ∷ events) alive total = finish marks_complete
relay (chunk b bs false sends ∷ events) alive total =
    does (appends (received b bs) ∷ []) (finish marks_failed)
relay (chunk b bs true sends ∷ events) false total =
    does (appends (received b bs) ∷ [])
      (relay events false ((total + length (received b bs)) % size_mod))
relay (chunk b bs true sends ∷ events) true total =
    let sent = send_all sends (received b bs) in
    let now = (total + length (received b bs)) % size_mod in
    does (appends (received b bs) ∷ sends_client sent.wire ∷ []) (elim sent.status [
      | SendStatus.returns _ ↦ relay events true now
      | SendStatus.error ↦ relay events false now
      | SendStatus.blocked ↦ blocks_after []
    ])

-- The answers of the kernel, of `gethostbyname` and of the cache to one client's handler.
pub record World : Type 0 where
  pub recvs : List Recv
  pub join : List ℕ → Join
  pub seen : List (Entry × List SendEvent)
  pub connects : Bool
  pub reply_sends : List SendEvent
  pub request_sends : List SendEvent
  pub origin : List OriginEvent

abbrev line_end : List ℕ
line_end = 0x0d ∷ 0x0a ∷ []

abbrev pub bad_gateway : List ℕ
bad_gateway =
    codes "HTTP/1.0 502 Bad Gateway"
    ++ (line_end
        ++ (codes "Connection: close"
            ++ (line_end ++ (codes "Content-Length: 0" ++ (line_end ++ line_end)))))

-- The request to the origin, as `snprintf` would write it with room enough.
abbrev pub origin_request : Request → List ℕ
origin_request r =
    codes "GET "
    ++ (r.uri
        ++ (codes " HTTP/1.0"
            ++ (line_end
                ++ (codes "Host: "
                    ++ (r.host
                        ++ (line_end ++ (codes "Connection: close" ++ (line_end ++ line_end))))))))

abbrev pub give_up : List Effect
give_up = marks_failed ∷ releases ∷ closes_origin ∷ closes_client ∷ []

-- The branch of a reader, behind `stream_from_cache`.
abbrev pub leave_entry : List ℕ → StreamEnd → Run
leave_entry wire stuck = blocks_after (joins_reader ∷ sends_client wire ∷ [])
leave_entry wire _ =
    returns_after (joins_reader ∷ sends_client wire ∷ releases ∷ closes_client ∷ [])

unfoldable pub read_entry : World → Run
read_entry w = let s = stream_from_cache w.seen in leave_entry s.wire s.ending

-- The origin cannot be reached, whatever becomes of the reply.
abbrev pub after_reply : List ℕ → SendStatus → Run
after_reply wire SendStatus.blocked = blocks_after (sends_client wire ∷ [])
after_reply wire _ =
    returns_after (sends_client wire ∷ marks_failed ∷ releases ∷ closes_client ∷ [])

unfoldable pub reply_bad_gateway : World → Run
reply_bad_gateway w =
    let sent = send_all w.reply_sends bad_gateway in after_reply sent.wire sent.status

-- The request goes to the origin, and the response comes back.
unfoldable pub ask_origin : World → Request → Run
ask_origin w r =
    let sent = send_all w.request_sends (origin_request r) in
    if leb req_size (length (origin_request r))
    then returns_after give_up
    else does (sends_origin sent.wire ∷ [])
        (after_send sent.status (relay w.origin true 0) (returns_after give_up))

unfoldable pub write_entry : World → Request → Run
write_entry w r =
    does (joins_writer ∷ [])
      (if w.connects then does (opens_origin ∷ []) (ask_origin w r) else reply_bad_gateway w)

abbrev pub serve : World → Request → Join → Run
serve w r refused = returns_after (closes_client ∷ [])
serve w r (reader a) = read_entry w
serve w r (writer a) = write_entry w r

abbrev pub answer : World → Parsed Request → Run
answer w (closes reason) = returns_after (closes_client ∷ [])
answer w waits_for_more = blocks_after []
answer w overflow = record { effects = []; status = undefined }
answer w (parsed r) = serve w r (w.join (make_key r))

unfoldable pub handle_client : World → Run
unfolding read_entry write_entry reply_bad_gateway ask_origin
handle_client w = answer w (receive w.recvs [] >>= parse_request)
