-- ===== src/Storage/Main/Running.antt =====
-- The program of 2.3 as a whole, from the argument of `main` on.
use mathlib.Core.List.{Perm}
use operation_systems.Base.{
  ℕ, ◌<◌, ◌≡◌, ◌∙◌, subst, zero, suc, Bool, false, List, [], ◌∷◌, Option, none, some, arith,
}
use operation_systems.Base.Int.{ℤ, pos, negsuc}
use operation_systems.Storage.{Storage}
use operation_systems.Storage.Links.{Holds}
use operation_systems.Storage.Lifetime.{nodes_of, storage_init-Holds}
use operation_systems.Storage.Threads.Invariant.{halfway}
use operation_systems.Storage.Threads.Safety.{list_kept}
use operation_systems.Storage.Counting.{System, Reach}
use operation_systems.Storage.Counting.Going.{base-Reach}
use operation_systems.Storage.Main.{list_size, main, starts, job_of_main}

positive : (arg : Option ℤ) (n : ℕ) → list_size arg ≡ some n → 0 < n
positive none n h = ground (arith, h)
positive (some (pos zero)) n h = ground (arith, h)
positive (some (pos (suc m))) n h = ground (arith, h)
positive (some (negsuc m)) n h = ground (arith, h)

-- `main` starts its threads whenever the argument is positive, or there is none, on a list of as many
-- nodes as it says.
pub main_starts :
    (addr : ℕ → ℕ) (word : ℕ → List ℕ)
    → ((i j : ℕ) → addr i ≡ addr j → i ≡ j)
    → (arg : Option ℤ) (n : ℕ) → list_size arg ≡ some n
    → (s : Storage) × (main addr word arg ≡ starts s)
      × (s.count ≡ n)
      × Holds s ((addr 0, []) ∷ nodes_of addr word 0 n)
unfolding main
main_starts addr word apart arg n size =
    let (s, made, count, holds, _) = storage_init-Holds addr word apart n (positive arg n size) in
    (s, ground (arith, made, size), count, holds)

-- Of the threads that `main` starts on a list of `n` nodes: in every state that they reach in which no
-- swap is between its first write and its last, the nodes are linked, and they are those that
-- `storage_init` made, with their strings, each once, in some order.
pub main_keeps_list :
    (addr : ℕ → ℕ) (word : ℕ → List ℕ)
    → ((i j : ℕ) → addr i ≡ addr j → i ≡ j)
    → (arg : Option ℤ) (n : ℕ) → list_size arg ≡ some n
    → (shared : Bool) (storage : Storage) (s : System) → main addr word arg ≡ starts storage
    → Reach 7 shared job_of_main storage s
    → ((i : ℕ) → halfway (s.base.pc i) ≡ false)
    → (s.base.storage.count ≡ n)
      × ((q : List (ℕ × List ℕ)) × Holds s.base.storage q
          × Perm q ((addr 0, []) ∷ nodes_of addr word 0 n))
main_keeps_list addr word apart arg n size shared storage s begun r whole =
    let (made, same, count, holds) = main_starts addr word apart arg n size in
    let holds' : Holds storage ((addr 0, []) ∷ nodes_of addr word 0 n) =
      subst (λ t. Holds t ((addr 0, []) ∷ nodes_of addr word 0 n)) (ground (arith, begun, same))
        holds in
    let (_, kept, rest) = list_kept holds' (base-Reach r) whole in
    (kept ∙ ground (arith, begun, same, count), rest)
