-- ===== src/Storage/Jobs.antt =====
-- The thread functions of 2.3/*/threads.c, with the predicates and the counters that they pass.
use operation_systems.Base.{ℕ, Bool, not, ltb, ◌==◌, List, [], ◌∷◌}

-- The counters, by their addresses.
abbrev pub asc_iterations : ℕ
asc_iterations = 0

abbrev pub desc_iterations : ℕ
desc_iterations = 1

abbrev pub equal_iterations : ℕ
equal_iterations = 2

abbrev pub asc_pairs : ℕ
asc_pairs = 3

abbrev pub desc_pairs : ℕ
desc_pairs = 4

abbrev pub equal_pairs : ℕ
equal_pairs = 5

abbrev pub asc_swaps : ℕ
asc_swaps = 6

abbrev pub desc_swaps : ℕ
desc_swaps = 7

abbrev pub equal_swaps : ℕ
equal_swaps = 8

-- What `snapshot_counters` reads, in its order.
abbrev pub shown_counters : List ℕ
shown_counters =
    asc_iterations ∷ desc_iterations ∷ equal_iterations ∷ asc_swaps ∷ desc_swaps ∷ equal_swaps ∷ []

abbrev pub pred_less : ℕ → ℕ → Bool
pred_less l1 l2 = ltb l1 l2

abbrev pub pred_greater : ℕ → ℕ → Bool
pred_greater l1 l2 = ltb l2 l1

abbrev pub pred_equal : ℕ → ℕ → Bool
pred_equal l1 l2 = l1 == l2

abbrev pub pred_not_equal : ℕ → ℕ → Bool
pred_not_equal l1 l2 = not (l1 == l2)

-- What a thread function does for ever, with the arguments that it passes.
pub data Job : Type 0 where
  -- `traverse_list` with `match_pred`, `iter_counter` and `pairs_counter`
  traversing : (ℕ → ℕ → Bool) → ℕ → ℕ → Job
  -- `do_random_swap` with `need_swap` and `swap_counter`
  swapping : (ℕ → ℕ → Bool) → ℕ → Job
  monitoring : Job

abbrev pub thread_asc : Job
thread_asc = traversing pred_less asc_iterations asc_pairs

abbrev pub thread_desc : Job
thread_desc = traversing pred_greater desc_iterations desc_pairs

abbrev pub thread_equal : Job
thread_equal = traversing pred_equal equal_iterations equal_pairs

abbrev pub thread_swap_asc : Job
thread_swap_asc = swapping pred_greater asc_swaps

abbrev pub thread_swap_desc : Job
thread_swap_desc = swapping pred_less desc_swaps

abbrev pub thread_swap_equal : Job
thread_swap_equal = swapping pred_not_equal equal_swaps

abbrev pub thread_monitor : Job
thread_monitor = monitoring
