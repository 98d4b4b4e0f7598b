-- ===== src/Cache/Table/Find.antt =====
-- The walk along a chain of live entries: no fault, and the entry of the key if there is one.
use operation_systems.Base.{
  ℕ, ◌≡◌, refl, subst, ◌⊎◌, inl, inr, true, false, List, [], ◌∷◌, Option, none, some, arith,
  Bool-cases, Option-cases,
}
use operation_systems.Base.Bytes.{bytes_eq, bytes_eq→eq, bytes_eq_self}
use operation_systems.Base.Store.{contains}
use operation_systems.Cache.Entry.{Entry}
use operation_systems.Cache.Table.{Cache, bucket_of, find}
use operation_systems.Cache.Table.Primitives.{Linked}

-- What a walk along `chain` says of the key.
abbrev pub Finds : (ℕ → Option Entry) → List ℕ → List ℕ → Option (Option ℕ) → Type 0
Finds heap key chain none = ⊥
Finds heap key chain (some none) =
    (a : ℕ) (e : Entry) → contains a chain ≡ true → heap a ≡ some e → ¬ (e.key ≡ key)
Finds heap key chain (some (some a)) =
    (e : Entry) × (contains a chain ≡ true) × (heap a ≡ some e) × (e.key ≡ key)

bytes_eq→ne : (xs ys : List ℕ) → bytes_eq xs ys ≡ false → ¬ (xs ≡ ys)
bytes_eq→ne xs ys h e = ground (arith, bytes_eq_self xs)

Finds-cons :
    (heap : ℕ → Option Entry) (key : List ℕ) (x : ℕ) (rest : List ℕ) (d : Entry)
    → heap x ≡ some d
    → ¬ (d.key ≡ key)
    → (r : Option (Option ℕ)) → Finds heap key rest r
    → Finds heap key (x ∷ rest) r
Finds-cons heap key x rest d at other none f = f
Finds-cons heap key x rest d at other (some none) f = λ a e link h k. ground (arith, f a e)
Finds-cons heap key x rest d at other (some (some a)) (e, link, h, k) = (e, ground arith, h, k)

find-Finds :
    (heap : ℕ → Option Entry) (key chain : List ℕ)
    → ((a : ℕ) → contains a chain ≡ true → (e : Entry) × (heap a ≡ some e))
    → Finds heap key chain (find heap key chain)
unfolding find
find-Finds heap key [] h = λ a e link. ground arith
find-Finds heap key (x ∷ rest) h =
    let (d, at) = h x (ground arith) in
    let tail = find-Finds heap key rest (λ a link. h a (ground arith)) in
    elim (Bool-cases (bytes_eq d.key key)) [
      | inl same ↦
          subst (Finds heap key (x ∷ rest)) (hit d at same)
            (d, ground arith, at, bytes_eq→eq d.key key same)
      | inr other ↦
          subst (Finds heap key (x ∷ rest)) (miss d at other)
            (Finds-cons heap key x rest d at (bytes_eq→ne d.key key other) _ tail)
    ]
  where
    hit :
        (d : Entry)
        → heap x ≡ some d
        → bytes_eq d.key key ≡ true
        → some (some x) ≡ find heap key (x ∷ rest)
    hit d at same = ground arith

    miss :
        (d : Entry)
        → heap x ≡ some d
        → bytes_eq d.key key ≡ false
        → find heap key rest ≡ find heap key (x ∷ rest)
    miss d at other = ground arith

-- The walk that `cache_start_or_join` makes for a key.
abbrev pub seek : Cache → List ℕ → Option (Option ℕ)
seek c key = find c.heap key (c.buckets (bucket_of c key))

-- In a table whose chains are right, the walk finds the live entry of the key, or there is none.
pub seek_cases :
    {c : Cache}
    → Linked c
    → (key : List ℕ)
    → ((seek c key ≡ some none) × ((a : ℕ) (e : Entry) → c.heap a ≡ some e → ¬ (e.key ≡ key)))
      ⊎ ((a : ℕ) × (e : Entry) × (seek c key ≡ some (some a)) × (c.heap a ≡ some e) × (e.key ≡ key))
seek_cases {c} linked key = cases (seek c key) refl walk
  where
    alive :
        (a : ℕ)
        → contains a (c.buckets (bucket_of c key)) ≡ true
        → (e : Entry) × (c.heap a ≡ some e)
    alive a link = elim (Option-cases (c.heap a)) [
      | inl gone ↦ absurd (ground (arith, linked.chained (bucket_of c key) a link))
      | inr there ↦ there
    ]

    walk : Finds c.heap key (c.buckets (bucket_of c key)) (seek c key)
    walk = find-Finds c.heap key (c.buckets (bucket_of c key)) alive

    cases :
        (r : Option (Option ℕ))
        → seek c key ≡ r
        → Finds c.heap key (c.buckets (bucket_of c key)) r
        → ((seek c key ≡ some none) × ((a : ℕ) (e : Entry) → c.heap a ≡ some e → ¬ (e.key ≡ key)))
          ⊎ ((a : ℕ) × (e : Entry) × (seek c key ≡ some (some a))
              × (c.heap a ≡ some e)
              × (e.key ≡ key))
    cases none q f = absurd f
    cases (some none) q f = inl (
      q,
      λ a e at k.
          f a e (subst (λ s. contains a (c.buckets (bucket_of c s)) ≡ true) k (linked.live a e at))
            at k,
    )
    cases (some (some a)) q (e, link, at, k) = inr (a, e, q, at, k)
