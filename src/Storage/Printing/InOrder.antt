-- ===== src/Storage/Printing/InOrder.antt =====
-- What is printed is the list.
use operation_systems.Base.{
  ℕ, zero, suc, ◌≤◌, ◌≡◌, refl, List, [], ◌∷◌, Option, some, arith, length,
}
use operation_systems.Storage.{Node, Storage}
use operation_systems.Storage.Links.{head_of, Linked, Holds}
use operation_systems.Storage.Printing.{print_nodes, storage_print}

-- The strings, numbered from `i` on.
abbrev numbered : ℕ → List (ℕ × List ℕ) → List (ℕ × List ℕ)
numbered i [] = []
numbered i ((a, v) ∷ q) = (i, v) ∷ numbered (suc i) q

print_nodes-numbered :
    (fuel i : ℕ) (q : List (ℕ × List ℕ)) (nodes : ℕ → Option Node)
    → Linked nodes q
    → length q ≤ fuel
    → print_nodes fuel i (head_of q) nodes ≡ some (numbered i q)
unfolding print_nodes
print_nodes-numbered fuel i [] nodes l b = refl
print_nodes-numbered zero i ((a, v) ∷ q) nodes l b = absurd (omega (arith, b))
print_nodes-numbered (suc fuel) i ((a, v) ∷ q) nodes l b =
    ground (arith, l.0, print_nodes-numbered fuel (suc i) q nodes l.1 (omega (arith, b)))

-- With fuel for each node behind the first, `storage_print` ends on a list whose nodes are linked, and
-- prints their strings in the order of the list, numbered from 0, the first node left out.
storage_print-numbered :
    (fuel : ℕ) (s : Storage) (a : ℕ) (v : List ℕ) (q : List (ℕ × List ℕ))
    → Holds s ((a, v) ∷ q)
    → length q ≤ fuel
    → storage_print fuel s ≡ some (record { nodes = s.count; strings = numbered 0 q })
unfolding storage_print
storage_print-numbered fuel s a v q holds enough = ground (
  arith,
  holds.at_first,
  holds.linked.0,
  print_nodes-numbered fuel 0 q s.nodes holds.linked.1 enough,
)
