-- ===== src/Storage/Threads/Invariant.antt =====
-- What holds between the steps of the threads.
use mathlib.Core.List.{Perm}
use operation_systems.Base.{
  ℕ, ◌≤◌, ◌≡◌, ◌≢◌, ◌∙◌, ap, inl, inr, Bool, true, false, List, [], ◌∷◌, Option, some, arith,
  Bool-cases,
}
use operation_systems.Base.Store.{contains, distinct}
use operation_systems.Storage.{Node, Storage, with_next, next_of}
use operation_systems.Storage.Links.{addresses, head_of, Linked}
use operation_systems.Storage.Threads.{
  Pc, idle, to_first, at_first, to_second, walking, to_next, advancing, pairing, to_third, deciding,
  relinked1, relinked2, visit_first, visiting_first, visit_second, leaving_first, visiting,
  visit_next, comparing, leaving, held, compatible, next_at, next_at_node, System,
}

-- The nodes that a thread relies on to follow one another: those that it has, and the one it is to
-- lock next.
abbrev pub chain : Pc → List ℕ
chain (to_first k p) = p ∷ []
chain (at_first k p) = p ∷ []
chain (to_second k p a) = p ∷ a ∷ []
chain (walking k p a) = p ∷ a ∷ []
chain (to_next k p a x) = p ∷ a ∷ x ∷ []
chain (advancing k p a x) = p ∷ a ∷ x ∷ []
chain (pairing p a) = p ∷ a ∷ []
chain (to_third p a b) = p ∷ a ∷ b ∷ []
chain (deciding p a b) = p ∷ a ∷ b ∷ []
chain (relinked1 p a b) = p ∷ a ∷ b ∷ []
chain (relinked2 p a b) = p ∷ a ∷ b ∷ []
chain (visit_first f) = f ∷ []
chain (visiting_first f) = f ∷ []
chain (visit_second f a) = f ∷ a ∷ []
chain (leaving_first f a) = f ∷ a ∷ []
chain (visiting a) = a ∷ []
chain (visit_next a b) = a ∷ b ∷ []
chain (comparing a b) = a ∷ b ∷ []
chain (leaving a b) = a ∷ b ∷ []
chain _ = []

abbrev pub Follows : (ℕ → Option Node) → ℕ → List ℕ → Type 0
Follows nd a [] = Unit {0}
Follows nd a (b ∷ c) = next_at nd a ≡ some (some b)

-- The nodes are in the list, and each is linked to the next one.
abbrev pub Chained : (ℕ → Option Node) → List (ℕ × List ℕ) → List ℕ → Type 0
Chained nd q [] = Unit {0}
Chained nd q (a ∷ c) = (contains a (addresses q) ≡ true) × Follows nd a c × Chained nd q c

-- All but the last.
abbrev pub front : List ℕ → List ℕ
front [] = []
front (a ∷ []) = []
front (a ∷ b ∷ c) = a ∷ front (b ∷ c)

pub contains-front-chain :
    (p : Pc) (j : ℕ) → contains j (front (chain p)) ≡ true → contains j (held p) ≡ true
contains-front-chain (to_first k p) j h = ground arith
contains-front-chain p j h = ground (arith, h)

-- Between the writes of a swap.
abbrev pub halfway : Pc → Bool
halfway (relinked1 p a b) = true
halfway (relinked2 p a b) = true
halfway _ = false

-- What the writes so far have made of the links of before.
abbrev pub Written : (ℕ → Option Node) → (ℕ → Option Node) → Pc → Type 0
Written nd old (relinked1 p a b) =
    (nd p ≡ with_next (some b) (old p)) × (nd a ≡ old a) × (nd b ≡ old b)
Written nd old (relinked2 p a b) =
    (nd p ≡ with_next (some b) (old p))
    × (nd a ≡ with_next (next_of (old b)) (old a))
    × (nd b ≡ old b)
Written nd old _ = Unit {0}

-- `old` is the heap as it is when no thread is between two writes: a swap takes effect there with its
-- last write.
pub record Inv (n : ℕ) (shared : Bool) (storage : Storage) (list₀ : List (ℕ × List ℕ)) (s : System)
    : Type 0 where
  pub old : ℕ → Option Node
  pub list : List (ℕ × List ℕ)
  pub linked : Linked old list
  pub distinct_nodes : distinct (addresses list) ≡ true
  pub at_first : head_of list ≡ some s.storage.first
  pub first_kept : s.storage.first ≡ storage.first
  pub count_kept : s.storage.count ≡ storage.count
  pub perm : Perm list list₀
  pub outside : (i : ℕ) → n ≤ i → s.pc i ≡ idle
  pub chained : (i : ℕ) → Chained old list (chain (s.pc i))
  pub apart :
      (i j a : ℕ)
      → i ≢ j
      → contains a (held (s.pc i)) ≡ true
      → contains a (held (s.pc j)) ≡ true
      → compatible shared (s.pc i) (s.pc j) ≡ true
  pub stable :
      (a : ℕ)
      → ((i : ℕ) → halfway (s.pc i) ≡ true → contains a (held (s.pc i)) ≡ false)
      → s.storage.nodes a ≡ old a
  pub written : (i : ℕ) → Written s.storage.nodes old (s.pc i)

-- A chain survives any change that spares all but its last node.
pub Chained-frame :
    (nd nd' : ℕ → Option Node) (q q' : List (ℕ × List ℕ)) (c : List ℕ)
    → ((j : ℕ) → contains j (front c) ≡ true → nd' j ≡ nd j)
    → ((j : ℕ) → contains j (addresses q') ≡ contains j (addresses q))
    → Chained nd q c
    → Chained nd' q' c
Chained-frame nd nd' q q' [] same members l = tt
Chained-frame nd nd' q q' (a ∷ []) same members (h, f, l) = (members a ∙ h, f, l)
Chained-frame nd nd' q q' (a ∷ b ∷ c) same members (h, e, l) = (
  members a ∙ h,
  ap next_at_node (same a (ground arith)) ∙ e,
  Chained-frame nd nd' q q' (b ∷ c) (λ j k. same j (ground (arith, k))) members l,
)

pub halfway_writes : (shared : Bool) (p q : Pc) → halfway q ≡ true → compatible shared p q ≡ false
halfway_writes shared p (relinked1 a b c) h = ground arith
halfway_writes shared p q h = ground (arith, h)

-- A thread that has the lock of a node and is not between two writes sees the node as it is.
pub own_view :
    {n : ℕ} {shared : Bool} {storage : Storage} {list₀ : List (ℕ × List ℕ)} {s : System}
    (inv : Inv n shared storage list₀ s) (i a : ℕ)
    → halfway (s.pc i) ≡ false
    → contains a (held (s.pc i)) ≡ true
    → s.storage.nodes a ≡ inv.old a
own_view {shared = shared} {s = s} inv i a whole has = inv.stable a λ j mid.
    elim (Bool-cases (contains a (held (s.pc j)))) [
      | inl also ↦
          let other : i ≢ j = λ e. ground (arith, e) in
          ground
            (arith, inv.apart i j a other has also, halfway_writes shared (s.pc i) (s.pc j) mid)
      | inr off ↦ off
    ]
