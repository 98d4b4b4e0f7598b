-- ===== src/Cache/Table/Destroy.antt =====
-- `cache_table_destroy` frees each entry once.
use operation_systems.Base.{
  ℕ, zero, suc, ◌+◌, ◌≤◌, ◌<◌, ◌≡◌, refl, subst, inl, inr, true, false, List, [], ◌∷◌, Option, none,
  some, arith, Bool-cases, Option-cases,
}
use operation_systems.Base.Store.{update, contains, distinct}
use operation_systems.Cache.Entry.{Entry}
use operation_systems.Cache.Table.{Cache, bucket_of, cache_table_destroy, free_chain, free_chains}
use operation_systems.Cache.Table.Primitives.{Linked, bucket_at}

free_chain_lem :
    (heap : ℕ → Option Entry) (xs : List ℕ)
    → distinct xs ≡ true
    → ((a : ℕ) → contains a xs ≡ true → (e : Entry) × (heap a ≡ some e))
    → (rest : ℕ → Option Entry) × (free_chain heap xs ≡ some rest)
      × ((a : ℕ) → contains a xs ≡ true → rest a ≡ none)
      × ((a : ℕ) → contains a xs ≡ false → rest a ≡ heap a)
unfolding free_chain
free_chain_lem heap [] d alive = (heap, refl, λ a h. cc, λ a h. refl)
free_chain_lem heap (x ∷ xs) d alive =
    let (e, at) = alive x (ground arith) in
    let (rest, run, gone, same) =
      free_chain_lem (update heap x none) xs (ground arith)
        (λ a h. let (f, there) = alive a (ground arith) in (f, ground arith)) in
    (
      rest,
      ground (arith, run),
      λ a h. elim (Bool-cases (contains a xs)) [
        | inl inside ↦ gone a inside
        | inr outside ↦ ground (arith, same a outside)
      ],
      λ a h. ground (arith, same a),
    )

-- The chains from `i` on are left: the entries of the earlier ones are gone.
record Freed (c : Cache) (i : ℕ) (heap : ℕ → Option Entry) : Type 0 where
  gone : (a k : ℕ) → bucket_at c a ≡ some k → k < i → heap a ≡ none
  there : (a k : ℕ) → bucket_at c a ≡ some k → i ≤ k → heap a ≡ c.heap a
  none_there : (a : ℕ) → c.heap a ≡ none → heap a ≡ none

Freed-next :
    {c : Cache} (linked : Linked c) (i : ℕ) (heap rest : ℕ → Option Entry)
    → Freed c i heap
    → ((a : ℕ) → contains a (c.buckets i) ≡ true → rest a ≡ none)
    → ((a : ℕ) → contains a (c.buckets i) ≡ false → rest a ≡ heap a)
    → Freed c (suc i) rest
Freed-next {c} linked i heap rest f emptied same = record {
  gone = λ a k at h. elim (Bool-cases (contains a (c.buckets i))) [
    | inl inside ↦ emptied a inside
    | inr outside ↦ ground (arith, f.gone a k, same a outside, stands a k at)
  ];
  there = λ a k at h. ground (arith, f.there a k, same a, linked.chained i a);
  none_there = λ a h. elim (Bool-cases (contains a (c.buckets i))) [
    | inl inside ↦ emptied a inside
    | inr outside ↦ ground (arith, same a outside, f.none_there a)
  ];
}
  where
    stands : (a k : ℕ) → bucket_at c a ≡ some k → contains a (c.buckets k) ≡ true
    stands a k at = elim (Option-cases (c.heap a)) [
      | inl dead ↦ absurd (ground arith)
      | inr (e, live) ↦ ground (arith, linked.live a e live)
    ]

free_chains_lem :
    {c : Cache} (linked : Linked c) (n i : ℕ) (heap : ℕ → Option Entry)
    → i + n ≡ c.nbuckets
    → Freed c i heap
    → (rest : ℕ → Option Entry) × (free_chains n i c.buckets heap ≡ some rest)
      × Freed c c.nbuckets rest
unfolding free_chains
free_chains_lem {c} linked zero i heap e f =
    let all : i ≡ c.nbuckets = omega arith in (heap, refl, subst (λ (k : ℕ). Freed c k heap) all f)
free_chains_lem {c} linked (suc n) i heap e f =
    let (rest, run, gone, same) =
      free_chain_lem heap (c.buckets i) (linked.distinct_links i) alive in
    let (last, run', f') =
      free_chains_lem linked n (suc i) rest (omega arith)
        (Freed-next linked i heap rest f gone same) in
    (last, ground (arith, run, run'), f')
  where
    alive : (a : ℕ) → contains a (c.buckets i) ≡ true → (e : Entry) × (heap a ≡ some e)
    alive a h = elim (Option-cases (heap a)) [
      | inl dead ↦ absurd (ground (arith, linked.chained i a, f.there a i))
      | inr live ↦ live
    ]

-- In a table whose chains are right, `cache_table_destroy` frees no entry twice and leaves none.
pub destroy_frees_all :
    {c : Cache}
    → Linked c
    → (rest : ℕ → Option Entry) × (cache_table_destroy c ≡ some rest) × ((a : ℕ) → rest a ≡ none)
unfolding cache_table_destroy
destroy_frees_all {c} linked =
    let (rest, run, f) = free_chains_lem linked c.nbuckets 0 c.heap (omega arith) (record {
      gone = λ a k at h. absurd (omega arith);
      there = λ a k at h. refl;
      none_there = λ a h. h;
    }) in
    (
      rest,
      run,
      λ a. elim (Option-cases (c.heap a)) [
        | inl dead ↦ f.none_there a dead
        | inr (e, live) ↦
            f.gone a (bucket_of c e.key) (ground arith) (grind (arith, linked.some_buckets))
      ],
    )
