-- ===== src/Proxy/Send.antt =====
-- `send_all`: the loop over `send` until all bytes are gone.
--
-- The kernel's answers are a list. `accepted n` is a call that takes the first `n` of the bytes, or
-- all if there are fewer, which is what `send` may do. A list that runs out is a call that blocks.
use operation_systems.Base.{
  ℕ, zero, suc, ◌+◌, ◌≤◌, ◌≡◌, ◌≢◌, refl, sym, ap, ◌∙◌, List, [], ◌∷◌, ◌++◌, arith, length, take,
  drop, append_assoc, append-nil, take-append-drop, length-append, length-drop,
}

pub data SendEvent : Type 0 where
  accepted : ℕ → SendEvent
  interrupted : SendEvent
  refused : SendEvent

-- The value that `send_all` returns, if it does.
pub data SendStatus : Type 0 where
  returns : ℕ → SendStatus
  error : SendStatus
  blocked : SendStatus

pub record Sent : Type 0 where
  pub wire : List ℕ
  pub left : List ℕ
  pub status : SendStatus

-- The bytes that one call took stand before those of the calls that follow.
abbrev pub before : List ℕ → Sent → Sent
before first s = record s { wire = first ++ s.wire }

pub send_loop : ℕ → List SendEvent → List ℕ → Sent
send_loop sent events [] = record { wire = []; left = []; status = returns sent }
send_loop sent [] (x ∷ xs) = record { wire = []; left = x ∷ xs; status = blocked }
send_loop sent (interrupted ∷ events) (x ∷ xs) = send_loop sent events (x ∷ xs)
send_loop sent (refused ∷ events) (x ∷ xs) = record { wire = []; left = x ∷ xs; status = error }
send_loop sent (accepted zero ∷ events) (x ∷ xs) = record {
  wire = [];
  left = x ∷ xs;
  status = returns sent;
}
send_loop sent (accepted (suc n) ∷ events) (x ∷ xs) =
    before (take (suc n) (x ∷ xs))
      (send_loop (sent + length (take (suc n) (x ∷ xs))) events (drop (suc n) (x ∷ xs)))

unfoldable pub send_all : List SendEvent → List ℕ → Sent
unfolding send_loop
send_all events buf = send_loop 0 events buf

-- `send` on a stream takes a byte at least, when it takes any.
abbrev pub NeverZero : List SendEvent → Type 0
NeverZero [] = Unit {0}
NeverZero (accepted zero ∷ events) = ⊥
NeverZero (_ ∷ events) = NeverZero events

-- Rounds that make progress.
abbrev pub rounds : List SendEvent → ℕ
rounds [] = 0
rounds (accepted n ∷ events) = suc (rounds events)
rounds (_ ∷ events) = rounds events

send_loop_split :
    (sent : ℕ) (events : List SendEvent) (buf : List ℕ)
    → (send_loop sent events buf).wire ++ (send_loop sent events buf).left ≡ buf
unfolding send_loop
send_loop_split sent events [] = refl
send_loop_split sent [] (x ∷ xs) = refl
send_loop_split sent (interrupted ∷ events) (x ∷ xs) = send_loop_split sent events (x ∷ xs)
send_loop_split sent (refused ∷ events) (x ∷ xs) = refl
send_loop_split sent (accepted zero ∷ events) (x ∷ xs) = refl
send_loop_split sent (accepted (suc n) ∷ events) (x ∷ xs) =
    append_assoc (take (suc n) (x ∷ xs)) _ _
    ∙ ap (◌++◌ (take (suc n) (x ∷ xs)))
        (send_loop_split (sent + length (take (suc n) (x ∷ xs))) events (drop (suc n) (x ∷ xs)))
    ∙ take-append-drop (suc n) (x ∷ xs)

abbrev Counts : ℕ → Sent → Type 0
Counts sent s = (k : ℕ) → s.status ≡ returns k → k ≡ sent + length s.wire

send_loop-Counts :
    (sent : ℕ) (events : List SendEvent) (buf : List ℕ) → Counts sent (send_loop sent events buf)
unfolding send_loop
send_loop-Counts sent events [] = λ k h. ground arith
send_loop-Counts sent [] (x ∷ xs) = λ k h. ground arith
send_loop-Counts sent (interrupted ∷ events) (x ∷ xs) = send_loop-Counts sent events (x ∷ xs)
send_loop-Counts sent (refused ∷ events) (x ∷ xs) = λ k h. ground arith
send_loop-Counts sent (accepted zero ∷ events) (x ∷ xs) = λ k h. ground arith
send_loop-Counts sent (accepted (suc n) ∷ events) (x ∷ xs) = λ k h. omega (
  arith,
  send_loop-Counts (sent + suc (length (take n xs))) events (drop n xs) k h,
  length-append (take n xs) (send_loop (sent + suc (length (take n xs))) events (drop n xs)).wire,
)

send_loop_all :
    (sent : ℕ) (events : List SendEvent) (buf : List ℕ) (k : ℕ)
    → NeverZero events
    → (send_loop sent events buf).status ≡ returns k
    → (send_loop sent events buf).left ≡ []
unfolding send_loop
send_loop_all sent events [] k z h = refl
send_loop_all sent [] (x ∷ xs) k z h = cc
send_loop_all sent (interrupted ∷ events) (x ∷ xs) k z h = send_loop_all sent events (x ∷ xs) k z h
send_loop_all sent (refused ∷ events) (x ∷ xs) k z h = cc
send_loop_all sent (accepted zero ∷ events) (x ∷ xs) k z h = absurd z
send_loop_all sent (accepted (suc n) ∷ events) (x ∷ xs) k z h =
    send_loop_all (sent + length (take (suc n) (x ∷ xs))) events (drop (suc n) (x ∷ xs)) k z h

send_loop_ends :
    (sent : ℕ) (events : List SendEvent) (buf : List ℕ)
    → length buf ≤ rounds events
    → (send_loop sent events buf).status ≢ blocked
unfolding send_loop
send_loop_ends sent events [] h = λ e. cc
send_loop_ends sent [] (x ∷ xs) h = absurd (omega arith)
send_loop_ends sent (interrupted ∷ events) (x ∷ xs) h = send_loop_ends sent events (x ∷ xs) h
send_loop_ends sent (refused ∷ events) (x ∷ xs) h = λ e. cc
send_loop_ends sent (accepted zero ∷ events) (x ∷ xs) h = λ e. cc
send_loop_ends sent (accepted (suc n) ∷ events) (x ∷ xs) h =
    send_loop_ends (sent + length (take (suc n) (x ∷ xs))) events (drop n xs)
      (omega (arith, length-drop n xs))

-- What is on the wire and what is left are the buffer, in order; a count that is returned is that of
-- the bytes on the wire; where no call takes zero bytes, a return means that the whole buffer is on
-- the wire; and with as many calls that are not interrupted as there are bytes, the loop ends.
pub send_all_lem :
    (events : List SendEvent) (buf : List ℕ)
    → ((send_all events buf).wire ++ (send_all events buf).left ≡ buf)
      × ((k : ℕ) → (send_all events buf).status ≡ returns k → k ≡ length (send_all events buf).wire)
      × ((k : ℕ)
          → NeverZero events
          → (send_all events buf).status ≡ returns k
          → (send_all events buf).wire ≡ buf)
      × (length buf ≤ rounds events → (send_all events buf).status ≢ blocked)
unfolding send_all
send_all_lem events buf = (
  send_loop_split 0 events buf,
  λ k h. omega (arith, send_loop-Counts 0 events buf k h),
  λ k z h.
      sym (append-nil (send_loop 0 events buf).wire)
      ∙ ap (◌++◌ (send_loop 0 events buf).wire) (sym (send_loop_all 0 events buf k z h))
      ∙ send_loop_split 0 events buf,
  send_loop_ends 0 events buf,
)
