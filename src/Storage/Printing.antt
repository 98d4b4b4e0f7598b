-- ===== src/Storage/Printing.antt =====
-- `storage_print` of 2.3/*/list.c.
pub mod InOrder
use operation_systems.Base.{ℕ, zero, suc, List, [], ◌∷◌, Option, none, some}
use operation_systems.Storage.{Node, Storage}

-- What is printed: the number of nodes, and the strings with their positions.
pub record Printed : Type 0 where
  pub nodes : ℕ
  pub strings : List (ℕ × List ℕ)

abbrev pub line_before : ℕ × List ℕ → Option (List (ℕ × List ℕ)) → Option (List (ℕ × List ℕ))
line_before l none = none
line_before l (some ls) = some (l ∷ ls)

-- The loop, on fuel; a node that is not live is a fault.
pub print_nodes : ℕ → ℕ → Option ℕ → (ℕ → Option Node) → Option (List (ℕ × List ℕ))
print_nodes fuel i none nodes = some []
print_nodes zero i (some a) nodes = none
print_nodes (suc fuel) i (some a) nodes = elim (nodes a) [
  | none ↦ none
  | some x ↦ line_before (i, x.value) (print_nodes fuel (suc i) x.next nodes)
]

abbrev pub printed : ℕ → Option (List (ℕ × List ℕ)) → Option Printed
printed count none = none
printed count (some ls) = some (record { nodes = count; strings = ls })

pub storage_print : ℕ → Storage → Option Printed
unfolding print_nodes
storage_print fuel s = elim (s.nodes s.first) [
  | none ↦ none
  | some first ↦ printed s.count (print_nodes fuel 0 first.next s.nodes)
]
