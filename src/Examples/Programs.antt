-- ===== src/Examples/Programs.antt =====
-- The program of 2.3 on a list of two strings.
use mathlib.Core.List.{Perm}
use operation_systems.Base.{ℕ, ◌+◌, ◌≡◌, refl, true, List, [], ◌∷◌, some, arith}
use operation_systems.Base.Int.{pos}
use operation_systems.Base.Store.{update}
use operation_systems.Storage.{Storage}
use operation_systems.Storage.Links.{Holds}
use operation_systems.Storage.Lifetime.{nodes_of}
use operation_systems.Storage.Threads
use operation_systems.Storage.Threads.{idle, visit_first, silent, TraverseMove}
use operation_systems.Storage.Counting.{System, works, Reach, start, later}
use operation_systems.Storage.Main.{job_of_main, main, starts}
use operation_systems.Storage.Main.Running.{main_starts, main_keeps_list}

abbrev addr : ℕ → ℕ
addr i = i + 5

abbrev word : ℕ → List ℕ
word i = (97 + i) ∷ []

begun :
    (s : Storage) × (main addr word (some (pos 2)) ≡ starts s)
    × (s.count ≡ 2)
    × Holds s ((addr 0, []) ∷ nodes_of addr word 0 2)
begun = main_starts addr word (λ i j e. omega arith) (some (pos 2)) 2 refl

-- `thread_asc` has begun a pass.
in_pass :
    (s : System) × Reach 7 true job_of_main begun.0 s
    × (s.base.pc ≡ update (λ _. idle) 0 (visit_first begun.0.first))
in_pass = (
  _,
  later start 0 (omega arith) (
      works _ refl (λ e. refl)
        (Threads.traverses idle silent (visit_first begun.0.first) (omega arith) refl
          TraverseMove.begin tt)),
  refl,
)

main_keeps_list_example :
    (in_pass.0.base.storage.count ≡ 2)
    × ((q : List (ℕ × List ℕ)) × Holds in_pass.0.base.storage q
        × Perm q ((5, []) ∷ (6, 97 ∷ []) ∷ (7, 98 ∷ []) ∷ []))
main_keeps_list_example =
    main_keeps_list addr word (λ i j e. omega arith) (some (pos 2)) 2 refl true begun.0 in_pass.0
      begun.1 in_pass.1 (λ i. ground (arith, in_pass.2))
