-- ===== src/Proxy/Together/Discipline.antt =====
-- Each handler keeps the protocol of `handle_client`, whatever the others do.
use operation_systems.Base.{
  ℕ, ◌≡◌, refl, sym, ◌∙◌, ap, subst, inl, inr, Bool, true, false, List, [], ◌∷◌, Option, none, some,
  arith, Option-cases, Bool-cases, if◌then◌else◌,
}
use operation_systems.Base.Store.{update_all}
use operation_systems.Cache.Table.{Cache}
use operation_systems.Proxy.Handler.{
  Effect, joins_reader, joins_writer, appends, marks_complete, marks_failed, releases, opens_origin,
  sends_client, sends_origin, closes_origin, closes_client, done, World, handle_client,
}
use operation_systems.Proxy.Handler.Protocol.{
  Role, outside, Hand, fresh, empty_handed, allowed, replay, handler_protocol,
}
use operation_systems.Proxy.Together.{
  Handler, in_hand, holding, uses_entry, uses_next, needs_entry, behind, Act, reads, starts, stores,
  completes, fails, lets_go, elsewhere, System, acts, is_call, Reach, start, later,
}

-- A handler holds an entry in the roles in which it has one.
abbrev pub agrees : Role → Option ℕ → Bool
agrees outside none = true
agrees outside (some a) = false
agrees _ none = false
agrees _ (some a) = true

-- What a handler has still to do is allowed, and empties its hands if it is to return.
abbrev pub Goes : World → Handler → Type 0
Goes w h =
    (hand : Hand) × (end : Hand) × (replay hand h.left ≡ some end)
    × ((handle_client w).status ≡ done → end ≡ empty_handed)
    × (agrees hand.role (holding h) ≡ true)

-- The first effect is allowed, and then the others.
pub replay-first :
    (hand end : Hand) (effect : Effect) (rest : List Effect)
    → replay hand (effect ∷ rest) ≡ some end
    → (next : Hand) × (allowed hand effect ≡ some next) × (replay next rest ≡ some end)
unfolding replay
replay-first hand end effect rest q = elim (Option-cases (allowed hand effect)) [
  | inl refused ↦ absurd (cc (sym (ap go refused) ∙ q))
  | inr (next, ok) ↦ (next, ok, sym (ap go ok) ∙ q)
]
  where
    go : Option Hand → Option Hand
    go none = none
    go (some next) = replay next rest

-- An effect that is no call of the cache leaves the role.
same_role :
    (hand next : Hand) (effect : Effect)
    → is_call effect ≡ false
    → allowed hand effect ≡ some next
    → next.role ≡ hand.role
unfolding allowed
same_role hand next opens_origin off ok = ground (arith, ok)
same_role hand next (sends_client _) off ok = ground (arith, ok)
same_role hand next (sends_origin _) off ok = ground (arith, ok)
same_role hand next closes_origin off ok = ground (arith, ok)
same_role hand next closes_client off ok = ground (arith, ok)
same_role hand next _ off ok = absurd (cc off)

-- What an effect that is no call of the cache leaves in hand.
pub same_hand :
    (effect : Effect) (past : List Effect)
    → is_call effect ≡ false
    → in_hand (effect ∷ past) ≡ in_hand past
same_hand opens_origin past off = refl
same_hand (sends_client _) past off = refl
same_hand (sends_origin _) past off = refl
same_hand closes_origin past off = refl
same_hand closes_client past off = refl
same_hand _ past off = absurd (cc off)

abbrev pub held_in : Bool → Option ℕ → Option ℕ
held_in b p = if b then p else none

Act-agrees :
    {c d : Cache} {p q : Option ℕ} (past : List Effect) (hand next : Hand) (effect : Effect)
    → Act c p effect d q
    → allowed hand effect ≡ some next
    → agrees hand.role (held_in (in_hand past) p) ≡ true
    → agrees next.role (held_in (in_hand (effect ∷ past)) q) ≡ true
unfolding allowed
Act-agrees past hand next _ (reads p env addr key d a free run) ok h = ground (arith, ok, h)
Act-agrees past hand next _ (starts p env addr key d a free run) ok h = ground (arith, ok, h)
Act-agrees past hand next _ (stores realloc bytes a e o live r small run) ok h =
    ground (arith, ok, h)
Act-agrees past hand next _ (completes a e live) ok h = ground (arith, ok, h)
Act-agrees past hand next _ (fails a e live) ok h = ground (arith, ok, h)
Act-agrees past hand next _ (lets_go a d run) ok h = ground (arith, ok, h)
Act-agrees past hand next effect (elsewhere p _ off) ok h =
    subst (λ (b : Bool). agrees next.role (held_in b p) ≡ true) (sym (same_hand effect past off))
      (subst (λ (r : Role). agrees r (held_in (in_hand past) p) ≡ true)
        (sym (same_role hand next effect off ok)) h)

Act-Goes :
    {c d : Cache} {p : Option ℕ} (w : World) (h : Handler) (effect : Effect) (rest : List Effect)
    → h.left ≡ effect ∷ rest
    → Act c h.entry effect d p
    → Goes w h
    → Goes w (behind h effect rest p)
Act-Goes w h effect rest now act (hand, end, runs, empties, agree) =
    let (next, ok, q) = replay-first hand end effect rest (ap (replay hand) (sym now) ∙ runs) in
    (next, end, q, empties, Act-agrees h.past hand next effect act ok agree)

pub Reach-Goes :
    {n : ℕ} {c : Cache} {worlds : ℕ → World} {s : System}
    → Reach n c worlds s
    → (i : ℕ) → Goes (worlds i) (s.handlers i)
Reach-Goes {worlds = worlds} start i =
    let (end, runs, empties) = handler_protocol (worlds i) in (fresh, end, runs, empties, refl)
Reach-Goes {worlds = worlds} (later {s = s} r (acts i effect rest d p inside now act)) k =
    update_all (λ j h. Goes (worlds j) h) s.handlers i (behind (s.handlers i) effect rest p)
      (Act-Goes (worlds i) (s.handlers i) effect rest now act (Reach-Goes r i))
      (λ j _. Reach-Goes r j) k

-- A call through `entry` is not allowed outside.
not_outside :
    (hand next : Hand) (effect : Effect)
    → uses_entry effect ≡ true
    → allowed hand effect ≡ some next
    → ¬ (agrees hand.role none ≡ true)
unfolding allowed
not_outside hand next (appends _) uses ok agree = ground (arith, ok, agree)
not_outside hand next marks_complete uses ok agree = ground (arith, ok, agree)
not_outside hand next marks_failed uses ok agree = ground (arith, ok, agree)
not_outside hand next releases uses ok agree = ground (arith, ok, agree)
not_outside hand next _ uses ok agree = absurd (cc uses)

used_in_hand :
    (p : Option ℕ) (b : Bool) (hand next : Hand) (effect : Effect)
    → uses_entry effect ≡ true
    → allowed hand effect ≡ some next
    → agrees hand.role (held_in b p) ≡ true
    → (a : ℕ) × (p ≡ some a) × (held_in b p ≡ some a)
used_in_hand (some a) true hand next effect uses ok agree = (a, refl, refl)
used_in_hand none true hand next effect uses ok agree =
    absurd (not_outside hand next effect uses ok agree)
used_in_hand p false hand next effect uses ok agree =
    absurd (not_outside hand next effect uses ok agree)

-- A handler whose next call goes through `entry` holds that entry.
pub uses-holding :
    (w : World) (h : Handler) (effect : Effect) (rest : List Effect)
    → h.left ≡ effect ∷ rest
    → uses_entry effect ≡ true
    → Goes w h
    → (a : ℕ) × (h.entry ≡ some a) × (holding h ≡ some a)
uses-holding w h effect rest now uses (hand, end, runs, empties, agree) =
    let (next, ok, _) = replay-first hand end effect rest (ap (replay hand) (sym now) ∙ runs) in
    used_in_hand h.entry (in_hand h.past) hand next effect uses ok agree

abbrev pub is_join : Effect → Bool
is_join joins_reader = true
is_join joins_writer = true
is_join _ = false

join_outside :
    (hand next : Hand) (effect : Effect)
    → is_join effect ≡ true
    → allowed hand effect ≡ some next
    → hand.role ≡ outside
unfolding allowed
join_outside hand next joins_reader uses ok = ground (arith, ok)
join_outside hand next joins_writer uses ok = ground (arith, ok)
join_outside hand next _ uses ok = absurd (cc uses)

pub none_outside : (p : Option ℕ) → agrees outside p ≡ true → p ≡ none
none_outside none h = refl
none_outside (some a) h = absurd (cc h)

-- A handler that is about to join holds no entry.
pub join-holding :
    (w : World) (h : Handler) (effect : Effect) (rest : List Effect)
    → h.left ≡ effect ∷ rest
    → is_join effect ≡ true
    → Goes w h
    → holding h ≡ none
join-holding w h effect rest now joins (hand, end, runs, empties, agree) =
    let (next, ok, _) = replay-first hand end effect rest (ap (replay hand) (sym now) ∙ runs) in
    none_outside (holding h) (
      subst (λ (r : Role). agrees r (holding h) ≡ true) (join_outside hand next effect joins ok)
        agree)

-- A handler that has joined has a pointer.
abbrev has_pointer : Bool → Option ℕ → Bool
has_pointer true none = false
has_pointer _ _ = true

pointer_some : (b : Bool) (a : ℕ) → has_pointer b (some a) ≡ true
pointer_some true a = refl
pointer_some false a = refl

Act-pointer :
    {c d : Cache} {p q : Option ℕ} (past : List Effect) (effect : Effect)
    → Act c p effect d q
    → has_pointer (in_hand past) p ≡ true
    → has_pointer (in_hand (effect ∷ past)) q ≡ true
Act-pointer past _ (reads p env addr key d a free run) h = refl
Act-pointer past _ (starts p env addr key d a free run) h = refl
Act-pointer past _ (stores realloc bytes a e o live r small run) h = pointer_some (in_hand past) a
Act-pointer past _ (completes a e live) h = pointer_some (in_hand past) a
Act-pointer past _ (fails a e live) h = pointer_some (in_hand past) a
Act-pointer past _ (lets_go a d run) h = refl
Act-pointer past effect (elsewhere p _ off) h =
    subst (λ (b : Bool). has_pointer b p ≡ true) (sym (same_hand effect past off)) h

Reach-pointer :
    {n : ℕ} {c : Cache} {worlds : ℕ → World} {s : System}
    → Reach n c worlds s
    → (i : ℕ) → has_pointer (in_hand (s.handlers i).past) (s.handlers i).entry ≡ true
Reach-pointer start i = refl
Reach-pointer (later {s = s} r (acts i effect rest d p inside now act)) k =
    update_all (λ j h. has_pointer (in_hand h.past) h.entry ≡ true) s.handlers i
      (behind (s.handlers i) effect rest p)
      (Act-pointer (s.handlers i).past effect act (Reach-pointer r i)) (λ j _. Reach-pointer r j) k

pointed :
    (b : Bool) (p : Option ℕ)
    → b ≡ true
    → has_pointer b p ≡ true
    → (a : ℕ) × (p ≡ some a) × (held_in b p ≡ some a)
pointed true (some a) h q = (a, refl, refl)
pointed true none h q = absurd (cc q)
pointed false p h q = absurd (cc h)

next_used :
    (w : World) (h : Handler) (left : List Effect)
    → h.left ≡ left
    → uses_next left ≡ true
    → Goes w h
    → (a : ℕ) × (h.entry ≡ some a) × (holding h ≡ some a)
next_used w h [] now uses goes = absurd (cc uses)
next_used w h (effect ∷ rest) now uses goes = uses-holding w h effect rest now uses goes

-- A handler that has joined and not released, or whose next call goes through `entry`, holds what the
-- variable points at.
pub needs-holding :
    {n : ℕ} {c : Cache} {worlds : ℕ → World} {s : System}
    → Reach n c worlds s
    → (i : ℕ) → needs_entry (s.handlers i) ≡ true
    → (a : ℕ) × ((s.handlers i).entry ≡ some a) × (holding (s.handlers i) ≡ some a)
needs-holding {worlds = worlds} {s = s} r i needs =
    elim (Bool-cases (in_hand (s.handlers i).past)) [
      | inl joined ↦
          pointed (in_hand (s.handlers i).past) (s.handlers i).entry joined (Reach-pointer r i)
      | inr out ↦
          next_used (worlds i) (s.handlers i) (s.handlers i).left refl (ground (arith, needs, out))
            (Reach-Goes r i)
    ]
