-- ===== src/Examples/Storages.antt =====
-- A list of two strings behind its first node.
use operation_systems.Base.{ℕ, ◌+◌, ◌≡◌, refl, Bool, List, [], ◌∷◌, none, some, arith, ltb}
use mathlib.Core.List.{Perm}
use operation_systems.Base.Store.{update}
use operation_systems.Storage.{Storage, do_random_swap}
use operation_systems.Storage.Links.{Holds}
use operation_systems.Storage.Swap.{after, by_length, swap_list, do_random_swap_lem}

abbrev first_node : ℕ × List ℕ
first_node = (5, [])

abbrev pairs : List (ℕ × List ℕ)
pairs = (6, 97 ∷ 98 ∷ []) ∷ (7, 99 ∷ []) ∷ []

abbrev two_strings : Storage
two_strings = record {
  first = 5;
  count = 2;
  nodes =
      update
        (update (update (λ _. none) 5 (some (record { value = []; next = some 6 }))) 6
          (some (record { value = 97 ∷ 98 ∷ []; next = some 7 })))
        7 (some (record { value = 99 ∷ []; next = none }));
}

two_strings-Holds : Holds two_strings (first_node ∷ pairs)
two_strings-Holds = record { at_first = refl; linked = (refl, (refl, (refl, tt))); apart = refl }

-- The predicate `pred_greater`.
abbrev pred_greater : ℕ → ℕ → Bool
pred_greater a b = ltb b a

do_random_swap_lem_example :
    (t : Storage) × (after two_strings (do_random_swap pred_greater two_strings 9) ≡ some t)
    × Holds t (first_node ∷ swap_list (by_length pred_greater) 0 pairs)
    × (t.count ≡ 2)
    × Perm (swap_list (by_length pred_greater) 0 pairs) pairs
do_random_swap_lem_example =
    do_random_swap_lem pred_greater two_strings 9 first_node pairs (omega arith) two_strings-Holds

-- The longer string goes behind the shorter.
swapped_pairs : swap_list (by_length pred_greater) 0 pairs ≡ (7, 99 ∷ []) ∷ (6, 97 ∷ 98 ∷ []) ∷ []
unfolding swap_list
swapped_pairs = refl

-- The node of call `i` of `malloc` at address `i + 5`, and one letter in each.
abbrev addr : ℕ → ℕ
addr i = i + 5

abbrev word : ℕ → List ℕ
word i = (97 + i) ∷ []
