-- ===== src/Proxy/Delivery/Relaying.antt =====
-- The writer's loop fills its entry.
use operation_systems.Base.{
  ◌⊎◌, ℕ, ◌+◌, ◌%◌, ◌≤◌, ◌<◌, ◌≡◌, refl, sym, ap, ◌∙◌, subst, inl, inr, Bool, true, false, List, [],
  ◌∷◌, ◌++◌, Option, some, arith, ltb, if◌then◌else◌, length, length-append, append_assoc, take-le,
}
use operation_systems.Cache.Entry.{
  Entry, ok, error, Outcome, size_mod, cache_append_data, contents, Reallocates,
}
use operation_systems.Cache.Entry.Append.{Appended, Refused, cache_append_data_lem}
use operation_systems.Proxy.Send.{SendEvent, SendStatus, send_all}
use operation_systems.Proxy.Handler.{
  appends, marks_complete, marks_failed, sends_client, Run, finish, after_send, OriginEvent, chunk,
  closed, interrupted, reset, broken, received, relay,
}
use operation_systems.Proxy.Delivery.{
  Allocator, is_ok, entry_of, changed, stored_chunk, answered, body,
}
use operation_systems.Proxy.Delivery.Filling.{
  Good, Fills, Filling, nothing-Fills, change-Fills, same-Fills, Filling-Good, contents-length,
  finish_failed-Fills, finish_complete-Fills,
}

module _ (realloc : Allocator) (full : List ℕ) where
  pub after_send-Fills :
      (e : Entry) (status : SendStatus) (go stop : Run)
      → Good full e
      → Fills realloc full e go.effects
      → Fills realloc full e stop.effects
      → Fills realloc full e (after_send status go stop).effects
  after_send-Fills e (SendStatus.returns k) go stop g a b = a
  after_send-Fills e SendStatus.error go stop g a b = b
  after_send-Fills e SendStatus.blocked go stop g a b = nothing-Fills realloc full e g

  -- A chunk that the cache took, whatever becomes of the client.
  chunk-Fills :
      (e next : Entry) (b : ℕ) (bs : List ℕ) (sends : List SendEvent) (events : List OriginEvent)
      (alive : Bool) (total : ℕ)
      → changed realloc e (appends (received b bs)) ≡ some next
      → e.size ≤ next.size
      → Good full e
      → Good full next
      → ((alive : Bool) (total : ℕ) → Fills realloc full next (relay events alive total).effects)
      → Fills realloc full e (relay (chunk b bs true sends ∷ events) alive total).effects
  unfolding relay
  chunk-Fills e next b bs sends events false total is le g g' rest =
      change-Fills realloc full e next _ _ is le g
        (rest false ((total + length (received b bs)) % size_mod))
  chunk-Fills e next b bs sends events true total is le g g' rest =
      let now = (total + length (received b bs)) % size_mod in
      change-Fills realloc full e next _ _ is le g (
        same-Fills realloc full next (sends_client (send_all sends (received b bs)).wire) _ refl g'
          (after_send-Fills next (send_all sends (received b bs)).status _ _ g' (rest true now)
            (rest false now)))

  Appended-Filling :
      (e : Entry) (bytes rest : List ℕ) (o : Outcome)
      → Filling full e (bytes ++ rest)
      → Appended e bytes (length bytes) o
      → Filling full o.entry rest
  Appended-Filling e bytes rest o f a = record {
    valid = a.valid;
    unfinished = a.complete ∙ f.unfinished;
    good = a.failed ∙ f.good;
    split =
        ap (λ (c : List ℕ). c ++ rest)
          (a.extended ∙ ap (◌++◌ (contents e)) (take-le (length bytes) bytes (omega arith)))
        ∙ append_assoc (contents e) bytes rest
        ∙ f.split;
    small = f.small;
  }

  mark-Fills :
      (e : Entry) (some_came : Bool)
      → Filling full e []
      → Fills realloc full e (finish (if some_came then marks_complete else marks_failed)).effects
  mark-Fills e true f = finish_complete-Fills realloc full e f
  mark-Fills e false f = finish_failed-Fills realloc full e (Filling-Good realloc full e [] f)

  -- A chunk, with what the cache answered to it.
  abbrev Answer :
      Entry → ℕ → List ℕ → List SendEvent → List OriginEvent → Bool → ℕ → Option Outcome → Type 0
  Answer e b bs sends events alive total answer =
      Fills realloc full e
        (relay (stored_chunk b bs sends answer (answered realloc events)) alive total).effects

  Appended-Answer :
      (e : Entry) (b : ℕ) (bs : List ℕ) (sends : List SendEvent) (events : List OriginEvent)
      (alive : Bool) (total : ℕ) (o : Outcome)
      → cache_append_data realloc e (received b bs) (length (received b bs)) ≡ some o
      → Appended e (received b bs) (length (received b bs)) o
      → Good full e
      → Good full o.entry
      → ((alive : Bool) (total : ℕ)
          → Fills realloc full o.entry
              (relay (answered realloc events o.entry) alive total).effects)
      → Answer e b bs sends events alive total (some o)
  Appended-Answer e b bs sends events alive total o ran a g g' rest =
      subst
        (λ (s : Bool).
          Fills realloc full e
            (relay (chunk b bs s sends ∷ answered realloc events o.entry) alive total).effects)
        (sym (ap is_ok a.code))
        (chunk-Fills e o.entry b bs sends (answered realloc events o.entry) alive total
          (ap entry_of ran) (omega (arith, a.size)) g g' rest)

  Refused-Answer :
      (e : Entry) (b : ℕ) (bs : List ℕ) (sends : List SendEvent) (events : List OriginEvent)
      (alive : Bool) (total : ℕ) (o : Outcome)
      → cache_append_data realloc e (received b bs) (length (received b bs)) ≡ some o
      → Refused realloc e o
      → Good full e
      → Answer e b bs sends events alive total (some o)
  unfolding relay
  Refused-Answer e b bs sends events alive total o ran x g =
      let failed = record e { failed = true } in
      subst
        (λ (s : Bool).
          Fills realloc full e
            (relay (chunk b bs s sends ∷ answered realloc events o.entry) alive total).effects)
        (sym (ap is_ok x.code))
        (change-Fills realloc full e failed (appends (received b bs)) _
          (ap entry_of ran ∙ ap (λ (n : Entry). some n) x.entry) (omega arith) g
          (finish_failed-Fills realloc full failed g))

  chunk-Answer :
      (e : Entry) (b : ℕ) (bs : List ℕ) (sends : List SendEvent) (events : List OriginEvent)
      (alive : Bool) (total : ℕ)
      → Reallocates realloc
      → Filling full e (received b bs ++ body events)
      → ((o : Entry) (alive : Bool) (total : ℕ)
          → Filling full o (body events)
          → Fills realloc full o (relay (answered realloc events o) alive total).effects)
      → Answer e b bs sends events alive total
          (cache_append_data realloc e (received b bs) (length (received b bs)))
  chunk-Answer e b bs sends events alive total r f rest =
      let (o, ran, all) =
        cache_append_data_lem realloc e bytes (length bytes) r f.valid (omega arith) fits in
      subst (Answer e b bs sends events alive total) (sym ran) (decide o ran all)
    where
      bytes : List ℕ
      bytes = received b bs

      fits : e.size + length bytes < size_mod
      fits = omega (
        arith,
        f.small,
        ap length f.split,
        length-append (contents e) (bytes ++ body events),
        length-append bytes (body events),
        contents-length realloc full e f.valid,
      )

      good : Good full e
      good = Filling-Good realloc full e (bytes ++ body events) f

      decide :
          (o : Outcome)
          → cache_append_data realloc e bytes (length bytes) ≡ some o
          → ((length bytes ≡ 0) × (o ≡ record { entry = e; rc = ok; broadcast = false }))
            ⊎ ((0 < length bytes)
                × (e.failed ≡ true)
                × (o ≡ record { entry = e; rc = error; broadcast = false }))
            ⊎ ((0 < length bytes) × (e.failed ≡ false) × Appended e bytes (length bytes) o)
            ⊎ ((0 < length bytes)
                × (e.failed ≡ false)
                × (e.capacity < e.size + length bytes)
                × Refused realloc e o)
          → Answer e b bs sends events alive total (some o)
      decide o ran (inl (nothing, _)) = absurd (omega arith)
      decide o ran (inr (inl (_, bad, _))) = absurd (cc (bad, f.good))
      decide o ran (inr (inr (inl (_, _, a)))) =
          let f' = Appended-Filling e bytes (body events) o f a in
          Appended-Answer e b bs sends events alive total o ran a good
            (Filling-Good realloc full o.entry (body events) f')
            (λ alive total. rest o.entry alive total f')
      decide o ran (inr (inr (inr (_, _, _, x)))) =
          Refused-Answer e b bs sends events alive total o ran x good

  -- The answers of the cache are those that the entry gives, and the entry fills.
  pub relay-Fills :
      (events : List OriginEvent) (e : Entry) (alive : Bool) (total : ℕ)
      → Reallocates realloc
      → Filling full e (body events)
      → Fills realloc full e (relay (answered realloc events e) alive total).effects
  unfolding relay answered body
  relay-Fills [] e alive total r f = nothing-Fills realloc full e (Filling-Good realloc full e [] f)
  relay-Fills (interrupted ∷ events) e alive total r f = relay-Fills events e alive total r f
  relay-Fills (closed ∷ events) e alive total r f = finish_complete-Fills realloc full e f
  relay-Fills (broken ∷ events) e alive total r f =
      finish_failed-Fills realloc full e (Filling-Good realloc full e [] f)
  relay-Fills (reset ∷ events) e alive total r f = mark-Fills e (ltb 0 total) f
  relay-Fills (chunk b bs s sends ∷ events) e alive total r f =
      chunk-Answer e b bs sends events alive total r f
        (λ o alive total f'. relay-Fills events o alive total r f')
