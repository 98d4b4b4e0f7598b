-- ===== src/Storage/Traversal.antt =====
-- A pass of `traverse_list` against a count over a list.
use operation_systems.Base.{
  ℕ, zero, suc, ◌+◌, ◌<◌, ◌≡◌, inl, inr, Bool, List, [], ◌∷◌, Option, some, arith, length,
  if◌then◌else◌, Bool-cases,
}
use operation_systems.Storage.{Node, Storage, traverse_from, traverse_pass}
use operation_systems.Storage.Links.{Linked, Holds}

-- The number of neighbours whose lengths match.
unfoldable pub count_pairs : (ℕ → ℕ → Bool) → List (ℕ × List ℕ) → ℕ
count_pairs match_pred [] = 0
count_pairs match_pred (x ∷ []) = 0
count_pairs match_pred ((a, v) ∷ (b, w) ∷ q) =
    (if match_pred (length v) (length w) then 1 else 0) + count_pairs match_pred ((b, w) ∷ q)

traverse_from-count_pairs :
    (match_pred : ℕ → ℕ → Bool) (nd : ℕ → Option Node) (fuel a : ℕ) (v : List ℕ)
    (q : List (ℕ × List ℕ)) (pairs : ℕ)
    → Linked nd ((a, v) ∷ q)
    → length q < fuel
    → traverse_from fuel match_pred nd a pairs ≡ some (pairs + count_pairs match_pred ((a, v) ∷ q))
unfolding traverse_from count_pairs
traverse_from-count_pairs match_pred nd zero a v q pairs l b = ground arith
traverse_from-count_pairs match_pred nd (suc fuel) a v [] pairs l b = ground (arith, l)
traverse_from-count_pairs match_pred nd (suc fuel) a v ((b, w) ∷ q) pairs (la, (lb, l)) bound =
    let more =
      traverse_from-count_pairs match_pred nd fuel b w q (pairs + 1) (lb, l) (omega arith) in
    let same = traverse_from-count_pairs match_pred nd fuel b w q pairs (lb, l) (omega arith) in
    elim (Bool-cases (match_pred (length v) (length w))) [
      | inl matches ↦ ground (arith, la, lb, matches, more)
      | inr differs ↦ ground (arith, la, lb, differs, same)
    ]

-- On a storage whose nodes are linked, with fuel for each node, a pass of `traverse_list` ends at the
-- last node, and has counted each pair of neighbours whose lengths match.
pub traverse_pass_lem :
    (match_pred : ℕ → ℕ → Bool) (s : Storage) (fuel : ℕ) (head : ℕ × List ℕ) (q : List (ℕ × List ℕ))
    → Holds s (head ∷ q)
    → length q < fuel
    → traverse_pass fuel match_pred s ≡ some (count_pairs match_pred q)
unfolding traverse_pass traverse_from count_pairs
traverse_pass_lem match_pred s fuel (h, vh) [] holds b =
    ground (arith, holds.at_first, holds.linked)
traverse_pass_lem match_pred s fuel (h, vh) ((a, v) ∷ q) holds b =
    let (lh, l) = holds.linked in
    let counted = traverse_from-count_pairs match_pred s.nodes fuel a v q 0 l (omega arith) in
    ground (arith, holds.at_first, lh, counted)
