-- ===== src/Proxy/Stream.antt =====
-- `stream_from_cache`: a reader that follows an entry while its writer fills it.
--
-- What the reader sees is a list: the entry each time that it holds the entry's lock and looks at
-- its wait condition, with the kernel's answers to the `send` calls that follow. A list that runs
-- out is a wait for a writer that does nothing more, or a `send` that blocks.
pub mod Exact
pub mod Ends
use operation_systems.Base.{
  ℕ, zero, suc, ◌+◌, ◌-◌, ◌≤◌, ◌<◌, ◌≡◌, ◌≢◌, refl, sym, ap, ◌∙◌, subst, ◌⊎◌, inl, inr, Bool, true,
  false, not, ◌&&◌, List, [], ◌∷◌, ◌++◌, Option, none, some, arith, ltb, ◌==◌, if◌then◌else◌,
  Bool-cases, length, take, drop, append_assoc, append-nil, take-add, length-append, length-take,
  length-drop, take-append_left, length-drop, take-take_of_le, drop-take, drop-le, drop-drop,
}
use operation_systems.Cache.Entry.{
  Entry, Outcome, IsValid, contents, cache_append_data, grow, store, cache_mark_complete,
  cache_mark_failed,
}
use operation_systems.Cache.Entry.Change.{Change, appends, completes, fails, Keeps}
use operation_systems.Proxy.Send.{
  SendEvent, SendStatus, returns, error, blocked, Sent, send_all, NeverZero, send_all_lem,
}

-- `sizeof(tmp)`
abbrev pub tmp_size : ℕ
tmp_size = 4096

-- The condition of the `while` around `pthread_cond_wait`.
abbrev pub waits : ℕ → Entry → Bool
waits offset e = (offset == e.size) && (not e.complete && not e.failed)

-- How the loop ends: the entry failed, all of it is sent, the client is gone; or it does not.
pub data StreamEnd : Type 0 where
  entry_failed finished client_gone stuck : StreamEnd

pub record Streamed : Type 0 where
  pub wire : List ℕ
  pub offset : ℕ
  pub ending : StreamEnd

-- `chunk`, and what `memcpy` puts in `tmp`.
abbrev pub chunk_len : ℕ → Entry → ℕ
chunk_len offset e = if ltb (e.size - offset) tmp_size then e.size - offset else tmp_size

abbrev pub chunk_of : ℕ → Entry → List ℕ
chunk_of offset e = take (chunk_len offset e) (drop offset e.block)

-- After a chunk: the rest of the loop, or the end if `send_all` failed.
abbrev pub after_chunk : ℕ → Sent → Streamed → Streamed
after_chunk offset sent rest = elim sent.status [
  | returns _ ↦ record rest { wire = sent.wire ++ rest.wire }
  | error ↦ record { wire = sent.wire; offset = offset; ending = client_gone }
  | blocked ↦ record { wire = sent.wire; offset = offset; ending = stuck }
]

unfoldable pub stream_from : ℕ → List (Entry × List SendEvent) → Streamed
stream_from offset [] = record { wire = []; offset = offset; ending = stuck }
stream_from offset ((e, sends) ∷ seen) =
    let wait = stream_from offset seen in
    let offset' = offset + chunk_len offset e in
    let rest =
      after_chunk offset' (send_all sends (chunk_of offset e)) (stream_from offset' seen) in
    if waits offset e
    then wait
    else if e.failed
    then record { wire = []; offset = offset; ending = entry_failed }
    else if (offset == e.size) && e.complete
    then record { wire = []; offset = offset; ending = finished }
    else rest

unfoldable pub stream_from_cache : List (Entry × List SendEvent) → Streamed
unfolding stream_from
stream_from_cache seen = stream_from 0 seen

-- Each change of an entry that ends a wait of a reader, wherever the reader stands, wakes the
-- readers.
pub Change-wakes :
    (offset : ℕ) {e : Entry} {o : Outcome}
    → Change e o
    → waits offset e ≡ true
    → waits offset o.entry ≡ false
    → o.broadcast ≡ true
unfolding cache_append_data grow store cache_mark_complete cache_mark_failed
Change-wakes offset {e} (appends realloc src len o r room small run) w n = ground arith
Change-wakes offset completes w n = refl
Change-wakes offset fails w n = refl
