-- ===== src/Storage/Links.antt =====
-- The list that a heap of nodes holds.
use operation_systems.Base.{ℕ, ◌≡◌, true, List, [], ◌∷◌, Option, none, some, arith}
use operation_systems.Base.Store.{contains, distinct}
use operation_systems.Storage.{Node, Storage}

-- The addresses and the strings of the nodes, in order.
abbrev pub addresses : List (ℕ × List ℕ) → List ℕ
addresses [] = []
addresses ((a, v) ∷ q) = a ∷ addresses q

abbrev pub head_of : List (ℕ × List ℕ) → Option ℕ
head_of [] = none
head_of ((a, v) ∷ q) = some a

abbrev pub Linked : (ℕ → Option Node) → List (ℕ × List ℕ) → Type 0
Linked nd [] = Unit
Linked nd ((a, v) ∷ q) = (nd a ≡ some (record { value = v; next = head_of q })) × Linked nd q

-- The list of a storage, its first node included, which holds no string.
pub record Holds (s : Storage) (q : List (ℕ × List ℕ)) : Type 0 where
  pub at_first : head_of q ≡ some s.first
  pub linked : Linked s.nodes q
  pub apart : distinct (addresses q) ≡ true

pub Linked-of_agree :
    (nd nd' : ℕ → Option Node) (q : List (ℕ × List ℕ))
    → ((j : ℕ) → contains j (addresses q) ≡ true → nd' j ≡ nd j)
    → Linked nd q
    → Linked nd' q
Linked-of_agree nd nd' [] h l = tt
Linked-of_agree nd nd' ((a, v) ∷ q) h (l, rest) =
    (ground (arith, h a, l), Linked-of_agree nd nd' q (λ j c. h j (ground (arith, c))) rest)
