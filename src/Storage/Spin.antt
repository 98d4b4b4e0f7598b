-- ===== src/Storage/Spin.antt =====
-- 2.3/spinlock/list.c: `storage_init`, whose `prev` starts as NULL.
--
-- Line 30 of the file ends with a colon where a semicolon is meant; it is modelled as if it had one.
use operation_systems.Base.{
  ℕ, zero, suc, ◌+◌, ◌≡◌, refl, List, [], Option, none, some, arith, if◌then◌else◌,
}
use operation_systems.Base.Int.{ℤ, pos, negsuc, is_pos}
use operation_systems.Base.Store.{update}
use operation_systems.Storage.{Node, Storage, set_next}

-- What a call of `storage_init` comes to: a result, or a write through NULL.
pub data Made : Type 0 where
  returns : Option Storage → Made
  null_write : Made

-- `prev->next = node`
abbrev pub set_prev : (ℕ → Option Node) → Option ℕ → ℕ → Option (ℕ → Option Node)
set_prev nd none node = none
set_prev nd (some prev) node = some (set_next nd prev (some node))

-- The loop, from its round `i` on; none if it writes through NULL.
unfoldable pub add_nodes_from :
    (ℕ → ℕ) → (ℕ → List ℕ) → ℕ → ℕ → Option ℕ → (ℕ → Option Node) → Option (ℕ → Option Node)
add_nodes_from addr word zero i prev nd = some nd
add_nodes_from addr word (suc left) i prev nd =
    let made = update nd (addr (i + 1)) (some (record { value = word i; next = none })) in
    elim (set_prev made prev (addr (i + 1))) [
      | none ↦ none
      | some linked ↦ add_nodes_from addr word left (i + 1) (some (addr (i + 1))) linked
    ]

abbrev pub made_of : ℕ → ℕ → Option (ℕ → Option Node) → Made
made_of first n none = null_write
made_of first n (some nd) = returns (some (record { first = first; count = n; nodes = nd }))

-- `storage_init` of a positive number.
unfoldable pub spin_storage_of : (ℕ → ℕ) → (ℕ → List ℕ) → ℕ → Made
unfolding add_nodes_from
spin_storage_of addr word n =
    let head = update (λ _. none) (addr 0) (some (record { value = []; next = none })) in
    made_of (addr 0) n (add_nodes_from addr word n 0 none head)

-- Where no call of `malloc` fails and no lock: the program exits otherwise.
unfoldable pub spin_storage_init : (ℕ → ℕ) → (ℕ → List ℕ) → ℤ → Made
unfolding spin_storage_of
spin_storage_init addr word (pos zero) = returns none
spin_storage_init addr word (pos (suc n)) = spin_storage_of addr word (suc n)
spin_storage_init addr word (negsuc n) = returns none

-- `storage_init` of 2.3/spinlock returns no storage: for a number that is not positive it returns
-- NULL, and for every other number it writes through NULL.
pub spin_storage_init_lem :
    (addr : ℕ → ℕ) (word : ℕ → List ℕ) (n : ℤ)
    → spin_storage_init addr word n ≡ (if is_pos n then null_write else returns none)
unfolding spin_storage_init spin_storage_of add_nodes_from
spin_storage_init_lem addr word (pos zero) = refl
spin_storage_init_lem addr word (pos (suc n)) = ground arith
spin_storage_init_lem addr word (negsuc n) = refl
