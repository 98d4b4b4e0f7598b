-- ===== src/Proxy/Stream/Ends.antt =====
-- A reader of an entry that its writer has marked comes to an end.
use operation_systems.Base.{
  ℕ, ◌+◌, ◌*◌, ◌-◌, ◌≤◌, ◌≡◌, refl, sym, ◌∙◌, subst, ◌⊎◌, inl, inr, true, false, ◌&&◌, List, [],
  ◌∷◌, arith, ◌==◌, if◌then◌else◌, Bool-cases, if_true, if_false, length, drop, length-take,
  take-take_of_le,
}
use operation_systems.Base.Int.{ℤ}
use operation_systems.Cache.Entry.{Entry, contents}
use operation_systems.Proxy.Send.{SendEvent, SendStatus, returns, Sent, send_all, NeverZero}
use operation_systems.Proxy.Stream.Exact.{Sees, stream_exact}
use operation_systems.Proxy.Stream.{
  tmp_size, waits, chunk_len, chunk_of, after_chunk, StreamEnd, entry_failed, finished, Streamed,
  stream_from, stream_from_cache,
}

-- The kernel takes what it is given, up to the size of `tmp`, and a byte at least in each call.
abbrev pub TakesAll : List SendEvent → Type 0
TakesAll sends =
    NeverZero sends
    × ((bytes : List ℕ)
        → length bytes ≤ tmp_size
        → (k : ℕ) × ((send_all sends bytes).status ≡ returns k))

-- The reader looks at the entry as it is now, with any count of references, for a client that takes
-- what it is sent.
abbrev pub Looks : Entry → List (Entry × List SendEvent) → Type 0
Looks e [] = Unit {0}
Looks e ((seen, sends) ∷ rest) =
    ((refcnt : ℤ) × (seen ≡ record e { refcnt = refcnt })) × TakesAll sends × Looks e rest

abbrev end_of : Entry → StreamEnd
end_of e = if e.failed then entry_failed else finished

after_returns :
    (offset : ℕ) (sent : Sent) (rest : Streamed) (k : ℕ)
    → sent.status ≡ returns k
    → (after_chunk offset sent rest).ending ≡ rest.ending
after_returns offset sent rest k h =
    subst
      (λ (s : SendStatus).
        (after_chunk offset (record { wire = sent.wire; left = sent.left; status = s }) rest).ending
        ≡ rest.ending)
      (sym h) refl

-- Each look brings the reader a chunk further.
one_look :
    (offset : ℕ) (e : Entry) (looks : ℕ)
    → offset ≤ e.size
    → (e.size - offset) + tmp_size ≤ tmp_size * (1 + looks)
    → ((offset == e.size) && e.complete) ≡ false
    → (e.complete ≡ true)
    → (offset + chunk_len offset e ≤ e.size)
      × ((e.size - (offset + chunk_len offset e)) + tmp_size ≤ tmp_size * looks)
one_look offset e looks l enough more c = ground arith

not_waiting :
    (offset : ℕ) (e : Entry) → (e.complete ≡ true) ⊎ (e.failed ≡ true) → waits offset e ≡ false
not_waiting offset e marked = ground arith

chunk_fits : (offset : ℕ) (e : Entry) → length (chunk_of offset e) ≤ tmp_size
chunk_fits offset e = ground (arith, length-take (chunk_len offset e) (drop offset e.block))

-- A look at an entry that does not make the reader wait.
look :
    (offset : ℕ) (e : Entry) (sends : List SendEvent) (seen : List (Entry × List SendEvent))
    → TakesAll sends
    → (e.complete ≡ true) ⊎ (e.failed ≡ true)
    → (e.failed ≡ false
        → ((offset == e.size) && e.complete) ≡ false
        → e.complete ≡ true
        → (stream_from (offset + chunk_len offset e) seen).ending ≡ end_of e)
    → (stream_from offset ((e, sends) ∷ seen)).ending ≡ end_of e
unfolding stream_from
look offset e sends seen all marked rest =
    subst Ends (if_false _ _ (not_waiting offset e marked)) (elim (Bool-cases e.failed) [
      | inl bad ↦ subst Ends (if_true _ _ bad) (if_true _ _ bad)
      | inr good ↦
          subst Ends (if_false _ _ good) (elim (Bool-cases ((offset == e.size) && e.complete)) [
            | inl end ↦ subst Ends (if_true _ _ end) (if_false _ _ good)
            | inr more ↦ subst Ends (if_false _ _ more) (
                after_returns (offset + chunk_len offset e) (send_all sends (chunk_of offset e)) _
                  (all.1 (chunk_of offset e) (chunk_fits offset e)).0
                  (all.1 (chunk_of offset e) (chunk_fits offset e)).1
                ∙ rest good more (ground arith))
          ])
    ])
  where
    Ends : Streamed → Type 0
    Ends r = r.ending ≡ end_of e

stream_from-end_of :
    (offset : ℕ) (e : Entry) (seen : List (Entry × List SendEvent))
    → Looks e seen
    → (e.complete ≡ true) ⊎ (e.failed ≡ true)
    → offset ≤ e.size
    → (e.size - offset) + tmp_size ≤ tmp_size * length seen
    → (stream_from offset seen).ending ≡ end_of e
unfolding stream_from
stream_from-end_of offset e [] looks marked l enough = absurd (omega arith)
stream_from-end_of offset e ((e', sends) ∷ seen) ((refcnt, is), all, looks) marked l enough =
    subst (λ (x : Entry). (stream_from offset ((x, sends) ∷ seen)).ending ≡ end_of e) (sym is)
      (look offset (record e { refcnt = refcnt }) sends seen all marked
        (λ good more done.
          let (l', enough') = one_look offset e (length seen) l (omega arith) more done in
          stream_from-end_of (offset + chunk_len offset e) e seen looks marked l' enough'))

same_size : (e : Entry) → e.size ≤ length e.block → e.size ≡ length (contents e)
same_size e fits = ground (arith, length-take e.size e.block)

-- Such looks see one response, the contents of the entry.
Looks-Sees :
    (e : Entry) (least : ℕ) (seen : List (Entry × List SendEvent))
    → e.size ≤ length e.block
    → least ≤ e.size
    → Looks e seen
    → Sees (contents e) least seen
Looks-Sees e least [] fits l looks = tt
Looks-Sees e least ((e', sends) ∷ seen) fits l ((refcnt, is), all, looks) =
    subst (λ (x : Entry). Sees (contents e) least ((x, sends) ∷ seen)) (sym is)
      (
        l,
        omega (arith, same_size e fits),
        sym (take-take_of_le e.size e.size e.block (omega arith)),
        (λ h. same_size e fits),
        all.0,
        Looks-Sees e e.size seen fits (omega arith) looks,
      )

-- A reader of an entry that is complete or failed and whose data fit its block, where `send` takes all
-- blocks of up to 4096 bytes that it is given, and a byte at least in each call, ends after one look
-- more than there are blocks of 4096 bytes in the entry, a started one counted. Of an entry that failed
-- it ends with that failure; of one that did not, it finishes, and all contents of the entry are on the
-- wire.
pub reader_ends :
    (e : Entry) (seen : List (Entry × List SendEvent))
    → e.size ≤ length e.block
    → Looks e seen
    → (e.complete ≡ true) ⊎ (e.failed ≡ true)
    → e.size + tmp_size ≤ tmp_size * length seen
    → ((e.failed ≡ true) × ((stream_from_cache seen).ending ≡ entry_failed))
      ⊎ ((e.failed ≡ false)
          × ((stream_from_cache seen).ending ≡ finished)
          × ((stream_from_cache seen).wire ≡ contents e))
unfolding stream_from_cache
reader_ends e seen fits looks marked enough =
    let (_, whole) =
      stream_exact (contents e) seen (Looks-Sees e 0 seen fits (omega arith) looks) in
    elim (Bool-cases e.failed) [
      | inl bad ↦ inl (bad, ends ∙ sym (if_true _ _ bad))
      | inr good ↦
          inr (good, ends ∙ sym (if_false _ _ good), whole (ends ∙ sym (if_false _ _ good)))
    ]
  where
    ends : (stream_from_cache seen).ending ≡ (if e.failed then entry_failed else finished)
    ends = stream_from-end_of 0 e seen looks marked (omega arith) (omega arith)
