-- ===== src/Proxy/Search.antt =====
-- `memmem_simple` and `find_host_header`: searches in the bytes of a request.
use operation_systems.Base.{
  ℕ, zero, suc, ◌+◌, ◌-◌, ◌≤◌, ◌<◌, ◌≡◌, subst, inl, inr, Bool, true, false, ◌||◌, List, [], ◌∷◌,
  Option, none, some, arith, ltb, ◌==◌, if◌then◌else◌, Bool-cases, length, take, drop,
}
use operation_systems.Base.Bytes.{codes, bytes_eq, bytes_eq→eq, bytes_eq_self}

-- The loop over the places `i` where the needle may stand, with the rounds that are left.
scan : ℕ → ℕ → List ℕ → List ℕ → Option ℕ
scan zero i haystack needle = none
scan (suc rounds) i haystack needle =
    elim (bytes_eq (take (length needle) (drop i haystack)) needle) [
      | true ↦ some i
      | false ↦ scan rounds (suc i) haystack needle
    ]

-- The index of the first occurrence, for the pointer that the source returns.
unfoldable pub memmem_simple : List ℕ → List ℕ → Option ℕ
unfolding scan
memmem_simple haystack needle =
    if (length needle == 0) || ltb (length haystack) (length needle)
    then none
    else scan (length haystack - length needle + 1) 0 haystack needle

-- The needle stands at `i`, within the haystack.
abbrev pub OccursAt : List ℕ → List ℕ → ℕ → Type 0
OccursAt haystack needle i =
    (i + length needle ≤ length haystack) × (take (length needle) (drop i haystack) ≡ needle)

-- The first place, or none at all.
abbrev pub First : List ℕ → List ℕ → Option ℕ → Type 0
First haystack needle none = (i : ℕ) → ¬ OccursAt haystack needle i
First haystack needle (some i) =
    OccursAt haystack needle i × ((j : ℕ) → j < i → ¬ OccursAt haystack needle j)

scan-First :
    (rounds i : ℕ) (haystack needle : List ℕ)
    → rounds + i + length needle ≡ length haystack + 1
    → ((j : ℕ) → j < i → ¬ OccursAt haystack needle j)
    → First haystack needle (scan rounds i haystack needle)
unfolding scan
scan-First zero i haystack needle e before = λ j at. before j (omega arith) at
scan-First (suc rounds) i haystack needle e before =
    elim (Bool-cases (bytes_eq (take (length needle) (drop i haystack)) needle)) [
      | inl here ↦
          subst (First haystack needle) (hit here)
            ((omega arith, bytes_eq→eq _ needle here), before)
      | inr other ↦ subst (First haystack needle) (miss other) (
          scan-First rounds (suc i) haystack needle (omega arith) (λ j h at.
            elim (Bool-cases (j == i)) [
              | inl same ↦ absurd (ground (arith, bytes_eq_self needle))
              | inr earlier ↦ before j (ground arith) at
            ]))
    ]
  where
    hit :
        bytes_eq (take (length needle) (drop i haystack)) needle ≡ true
        → some i ≡ scan (suc rounds) i haystack needle
    hit here = ground arith

    miss :
        bytes_eq (take (length needle) (drop i haystack)) needle ≡ false
        → scan rounds (suc i) haystack needle ≡ scan (suc rounds) i haystack needle
    miss other = ground arith

-- For a needle that is not empty, the search gives the first place where the needle stands in the
-- haystack, and nothing exactly when it stands nowhere.
pub memmem_simple-First :
    (haystack needle : List ℕ)
    → 0 < length needle
    → First haystack needle (memmem_simple haystack needle)
unfolding memmem_simple
memmem_simple-First haystack needle h = elim (Bool-cases (ltb (length haystack) (length needle))) [
  | inl short ↦ subst (First haystack needle) (left short) (λ i at. ground arith)
  | inr fits ↦ subst (First haystack needle) (right fits) (
      scan-First (length haystack - length needle + 1) 0 haystack needle (ground arith)
        (λ j k at. absurd (omega arith)))
]
  where
    left : ltb (length haystack) (length needle) ≡ true → none ≡ memmem_simple haystack needle
    left short = ground arith

    right :
        ltb (length haystack) (length needle) ≡ false
        → scan (length haystack - length needle + 1) 0 haystack needle
          ≡ memmem_simple haystack needle
    right fits = ground arith

-- How many bytes a loop `while (p < end && test(*p)) p++` passes over.
abbrev pub span : (ℕ → Bool) → List ℕ → ℕ
span test [] = 0
span test (x ∷ xs) = if test x then suc (span test xs) else 0

pub span-le : (test : ℕ → Bool) (xs : List ℕ) → span test xs ≤ length xs
span-le test [] = omega arith
span-le test (x ∷ xs) = ground (arith, span-le test xs)

abbrev pub is_blank : ℕ → Bool
is_blank c = (c == b' ') || (c == 0x09)

-- Where the value of the `Host:` header starts.
unfoldable pub find_host_header : List ℕ → Option ℕ
find_host_header buf = elim (memmem_simple buf (codes "Host:")) [
  | none ↦ none
  | some i ↦ some (i + 5 + span is_blank (drop (i + 5) buf))
]
