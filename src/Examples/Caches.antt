-- ===== src/Examples/Caches.antt =====
-- An append that grows the block of its entry.
use operation_systems.Base.{
  ℕ, ◌+◌, ◌<◌, ◌≡◌, refl, ◌⊎◌, true, false, List, [], ◌∷◌, ◌++◌, Option, some, arith, length, take,
  replicate, length-append, take-append_left, take-take_of_le, length-take, length-replicate, sym,
  ap, ◌∙◌,
}
use mathlib.Core.Option.{some-injective}
use operation_systems.Base.Bytes.{codes}
use operation_systems.Cache.Entry.{
  Entry, Outcome, ok, error, new_entry, cache_append_data, Reallocates, IsValid,
}
use operation_systems.Cache.Entry.Append.{Appended, Refused, cache_append_data_lem}

-- An allocator that always has a block: the old bytes, and zeros.
pub realloc : List ℕ → ℕ → Option (List ℕ)
realloc b n = some (take n (b ++ replicate n 0))

pub realloc-Reallocates : Reallocates realloc
unfolding realloc
realloc-Reallocates = record {
  sized = λ b n c e. omega (
    arith,
    ap length (some-injective _ _ e),
    length-take n (b ++ replicate n 0),
    length-append b (replicate n 0),
    length-replicate {A = ℕ} n 0,
  );
  kept = λ b n c e h.
      ap (take (length b)) (sym (some-injective _ _ e))
      ∙ take-take_of_le (length b) n (b ++ replicate n 0) h
      ∙ take-append_left (length b) b (replicate n 0) refl;
}

page : Entry
page = new_entry (codes "host /page")

page-IsValid : IsValid page
unfolding page
page-IsValid = record { allocated = refl; fits = omega arith }

cache_append_data_lem_example :
    (o : Outcome) × (cache_append_data realloc page (1 ∷ 2 ∷ 3 ∷ []) 3 ≡ some o)
    × ((◌≡◌ {A = ℕ} 3 0 × (o ≡ record { entry = page; rc = ok; broadcast = false }))
        ⊎ ((0 < 3)
            × (page.failed ≡ true)
            × (o ≡ record { entry = page; rc = error; broadcast = false }))
        ⊎ ((0 < 3) × (page.failed ≡ false) × Appended page (1 ∷ 2 ∷ 3 ∷ []) 3 o)
        ⊎ ((0 < 3)
            × (page.failed ≡ false)
            × (page.capacity < page.size + 3)
            × Refused realloc page o))
unfolding page
cache_append_data_lem_example =
    cache_append_data_lem realloc page (1 ∷ 2 ∷ 3 ∷ []) 3 realloc-Reallocates page-IsValid
      (omega arith) (omega arith)
