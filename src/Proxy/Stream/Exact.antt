-- ===== src/Proxy/Stream/Exact.antt =====
-- What a reader has sent is a prefix of the response, and all of it when the reader finishes.
use operation_systems.Base.{
  ℕ, ◌+◌, ◌≤◌, ◌≡◌, refl, sym, ap, ◌∙◌, subst, inl, inr, true, false, ◌&&◌, List, [], ◌∷◌, ◌++◌,
  arith, ◌==◌, Bool-cases, if_true, if_false, length, take, drop, append_assoc, append-nil,
  take-take_of_le, drop-take, drop-le, drop-drop, take-append-drop,
}
use operation_systems.Cache.Entry.{Entry, contents}
use operation_systems.Proxy.Send.{
  SendEvent, SendStatus, returns, error, blocked, send_all, NeverZero, send_all_lem,
}
use operation_systems.Proxy.Stream.{
  waits, chunk_len, chunk_of, after_chunk, entry_failed, finished, Streamed, stream_from,
  stream_from_cache,
}

-- The entries that a reader sees hold ever more of the response, and all of it once complete.
abbrev pub Sees : List ℕ → ℕ → List (Entry × List SendEvent) → Type 0
Sees full least [] = Unit {0}
Sees full least ((e, sends) ∷ seen) =
    (least ≤ e.size)
    × (e.size ≤ length full)
    × (contents e ≡ take e.size full)
    × (e.complete ≡ true → e.size ≡ length full)
    × NeverZero sends
    × Sees full e.size seen

pub Sees-mono :
    (full : List ℕ) (a b : ℕ) (seen : List (Entry × List SendEvent))
    → b ≤ a
    → Sees full a seen
    → Sees full b seen
Sees-mono full a b [] h s = s
Sees-mono full a b ((e, sends) ∷ seen) h (l, u, c, d, z, s) = (omega arith, u, c, d, z, s)

-- A prefix of what is due from `offset` on, and all of it if the reader finished.
abbrev pub Due : List ℕ → ℕ → Streamed → Type 0
Due full offset r =
    (rest : List ℕ) × (r.wire ++ rest ≡ drop offset full) × (r.ending ≡ finished → rest ≡ [])

chunk_of-eq :
    (full : List ℕ) (offset : ℕ) (e : Entry)
    → offset ≤ e.size
    → contents e ≡ take e.size full
    → chunk_of offset e ≡ take (chunk_len offset e) (drop offset full)
chunk_of-eq full offset e l c =
    let n = chunk_len offset e in
    let fits : offset + n ≤ e.size = ground arith in
    sym (drop-take offset n (offset + n) e.block refl)
    ∙ ap (drop offset) (
        sym (take-take_of_le (offset + n) e.size e.block fits)
        ∙ ap (take (offset + n)) c
        ∙ take-take_of_le (offset + n) e.size full fits)
    ∙ drop-take offset n (offset + n) full refl

after_chunk-Due :
    (full : List ℕ) (offset n : ℕ) (sends : List SendEvent) (chunk : List ℕ) (r : Streamed)
    → NeverZero sends
    → chunk ≡ take n (drop offset full)
    → Due full (offset + n) r
    → Due full offset (after_chunk (offset + n) (send_all sends chunk) r)
after_chunk-Due full offset n sends chunk r z is (rest, q, fin) =
    cases (send_all sends chunk).wire (send_all sends chunk).left (send_all sends chunk).status
      split all
  where
    split : (send_all sends chunk).wire ++ (send_all sends chunk).left ≡ chunk
    split = (send_all_lem sends chunk).0

    all : (k : ℕ) → (send_all sends chunk).status ≡ returns k → (send_all sends chunk).wire ≡ chunk
    all k h = (send_all_lem sends chunk).2 k z h

    parts : chunk ++ drop (offset + n) full ≡ drop offset full
    parts =
        ap (λ (c : List ℕ). c ++ drop (offset + n) full) is
        ∙ ap (◌++◌ (take n (drop offset full))) (sym (drop-drop offset n (offset + n) full refl))
        ∙ take-append-drop n (drop offset full)

    short : (w l : List ℕ) → w ++ l ≡ chunk → w ++ (l ++ drop (offset + n) full) ≡ drop offset full
    short w l sp =
        sym (append_assoc w l (drop (offset + n) full))
        ∙ ap (λ (c : List ℕ). c ++ drop (offset + n) full) sp
        ∙ parts

    cases :
        (w l : List ℕ) (status : SendStatus)
        → w ++ l ≡ chunk
        → ((k : ℕ) → status ≡ returns k → w ≡ chunk)
        → Due full offset
            (after_chunk (offset + n) (record { wire = w; left = l; status = status }) r)
    cases w l (returns k) sp al = (
      rest,
      append_assoc w r.wire rest
          ∙ ap (◌++◌ w) q
          ∙ ap (λ (c : List ℕ). c ++ drop (offset + n) full) (al k refl)
          ∙ parts,
      fin,
    )
    cases w l error sp al = (l ++ drop (offset + n) full, short w l sp, λ h. cc)
    cases w l blocked sp al = (l ++ drop (offset + n) full, short w l sp, λ h. cc)

stream_from-Due :
    (full : List ℕ) (offset : ℕ) (seen : List (Entry × List SendEvent))
    → Sees full offset seen
    → Due full offset (stream_from offset seen)
unfolding stream_from
stream_from-Due full offset [] s = (drop offset full, refl, λ h. cc)
stream_from-Due full offset ((e, sends) ∷ seen) (l, u, c, d, z, s) =
    elim (Bool-cases (waits offset e)) [
      | inl wait ↦
          subst (Due full offset) (on_wait wait)
            (stream_from-Due full offset seen (Sees-mono full e.size offset seen l s))
      | inr look ↦ elim (Bool-cases e.failed) [
        | inl bad ↦ subst (Due full offset) (on_failure look bad) (drop offset full, refl, λ h. cc)
        | inr good ↦ elim (Bool-cases ((offset == e.size) && e.complete)) [
          | inl end ↦
              subst (Due full offset) (on_end look good end)
                ([], sym (drop-le offset full (ground (arith, d))), λ h. refl)
          | inr more ↦ subst (Due full offset) (on_chunk look good more) (
              after_chunk-Due full offset (chunk_len offset e) sends (chunk_of offset e) _ z
                (chunk_of-eq full offset e l c)
                (stream_from-Due full (offset + chunk_len offset e) seen
                  (Sees-mono full e.size (offset + chunk_len offset e) seen (ground arith) s)))
        ]
      ]
    ]
  where
    run : Streamed
    run = stream_from offset ((e, sends) ∷ seen)

    on_wait : waits offset e ≡ true → stream_from offset seen ≡ run
    on_wait wait = if_true _ _ wait

    on_failure :
        waits offset e ≡ false
        → e.failed ≡ true
        → record { wire = []; offset = offset; ending = entry_failed } ≡ run
    on_failure look bad = if_true _ _ bad ∙ if_false _ _ look

    on_end :
        waits offset e ≡ false
        → e.failed ≡ false
        → ((offset == e.size) && e.complete) ≡ true
        → record { wire = []; offset = offset; ending = finished } ≡ run
    on_end look good end = if_true _ _ end ∙ if_false _ _ good ∙ if_false _ _ look

    on_chunk :
        waits offset e ≡ false
        → e.failed ≡ false
        → ((offset == e.size) && e.complete) ≡ false
        → after_chunk
            (offset + chunk_len offset e)
            (send_all sends (chunk_of offset e))
            (stream_from (offset + chunk_len offset e) seen)
          ≡ run
    on_chunk look good more = if_false _ _ more ∙ if_false _ _ good ∙ if_false _ _ look

-- A reader of an entry that only grows, and that does not grow once it is complete, puts on the wire
-- a prefix of the response, where `send` takes a byte at least; and if it finishes, the whole
-- response.
pub stream_exact :
    (full : List ℕ) (seen : List (Entry × List SendEvent))
    → Sees full 0 seen
    → ((rest : List ℕ) × ((stream_from_cache seen).wire ++ rest ≡ full))
      × ((stream_from_cache seen).ending ≡ finished → (stream_from_cache seen).wire ≡ full)
unfolding stream_from_cache
stream_exact full seen s =
    let (rest, q, fin) = stream_from-Due full 0 seen s in
    (
      (rest, q),
      λ h.
          sym (append-nil (stream_from 0 seen).wire)
          ∙ ap (◌++◌ (stream_from 0 seen).wire) (sym (fin h))
          ∙ q,
    )
