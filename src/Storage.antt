-- ===== src/Storage.antt =====
-- 2.3/mutex/list.c, list.h and threads.c: a list of strings, whose threads swap neighbours.
--
-- A node is known by its address, and the heap maps the addresses of live nodes to them. The calls
-- of one thread are modelled as they run when it has the locks of the nodes that it works on. The
-- directories 2.3/rw and 2.3/spinlock have the same `threads.c` but for the kind of lock.
pub mod Lifetime
pub mod Links
pub mod Relink
pub mod Spin
pub mod Swap
pub mod Threads
pub mod Counting
pub mod Jobs
pub mod Main
pub mod Printing
pub mod Traversal
use operation_systems.Base.{
  ℕ, zero, suc, ◌+◌, ◌-◌, ◌%◌, Bool, true, false, List, [], ◌∷◌, Option, none, some, if◌then◌else◌,
  length, leb, ltb,
}
use operation_systems.Base.Store.{update}

-- `Node`
pub record Node : Type 0 where
  pub value : List ℕ
  pub next : Option ℕ

-- `Storage`, with the heap of its nodes.
pub record Storage : Type 0 where
  pub first : ℕ
  pub count : ℕ
  pub nodes : ℕ → Option Node

-- `alphabet[rand() % alpha_len]`
abbrev pub letter : ℕ → ℕ
letter r = 97 + r % 26

abbrev pub letters : ℕ → (ℕ → ℕ) → ℕ → List ℕ
letters zero rand i = []
letters (suc n) rand i = letter (rand i) ∷ letters n rand (i + 1)

-- `rand` has the numbers that `rand()` returns, from the first call on.
unfoldable pub random_string : ℕ → (ℕ → ℕ) → List ℕ
random_string buf_size rand =
    let max_len = buf_size - 1 in let len = 1 + rand 0 % max_len in letters len rand 1

abbrev pub with_next : Option ℕ → Option Node → Option Node
with_next n none = none
with_next n (some x) = some (record x { next = n })

-- The assignment `a->next = n`.
abbrev pub set_next : (ℕ → Option Node) → ℕ → Option ℕ → ℕ → Option Node
set_next nd a n = update nd a (with_next n (nd a))

-- `addr i` is what the call `i` of `malloc` for a node returns, and `word i` the string of node `i`.
unfoldable pub add_nodes : (ℕ → ℕ) → (ℕ → List ℕ) → ℕ → ℕ → ℕ → (ℕ → Option Node) → ℕ → Option Node
add_nodes addr word zero i prev nd = nd
add_nodes addr word (suc left) i prev nd =
    let made = update nd (addr (i + 1)) (some (record { value = word i; next = none })) in
    add_nodes addr word left (i + 1) (addr (i + 1)) (set_next made prev (some (addr (i + 1))))

-- Where no call of `malloc` fails and no lock: the program exits otherwise.
unfoldable pub storage_init : (ℕ → ℕ) → (ℕ → List ℕ) → ℕ → Option Storage
unfolding add_nodes
storage_init addr word n =
    let head = update (λ _. none) (addr 0) (some (record { value = []; next = none })) in
    if leb n 0
    then none
    else some (record { first = addr 0; count = n; nodes = add_nodes addr word n 0 (addr 0) head })

-- The loop of `storage_destroy`, on fuel; a node that is not live is a fault.
unfoldable pub free_nodes : ℕ → Option ℕ → (ℕ → Option Node) → Option (ℕ → Option Node)
free_nodes fuel none nd = some nd
free_nodes zero (some a) nd = none
free_nodes (suc fuel) (some a) nd = elim (nd a) [
  | none ↦ none
  | some x ↦ free_nodes fuel x.next (update nd a none)
]

unfoldable pub storage_destroy : ℕ → Storage → Option (ℕ → Option Node)
unfolding free_nodes
storage_destroy fuel s = free_nodes fuel (some s.first) s.nodes

-- What a call of `do_random_swap` does to the list; `swapped` counts in `swap_counter`.
pub data Outcome : Type 0 where
  unchanged fault : Outcome
  swapped : Storage → Outcome

-- The loop of `do_random_swap`, with `prev` and `a`.
unfoldable pub walk : ℕ → (ℕ → Option Node) → ℕ → ℕ → Option (ℕ × ℕ)
walk zero nd prev a = some (prev, a)
walk (suc i) nd prev a = elim (nd a) [
  | none ↦ none
  | some x ↦ elim x.next [ none ↦ some (prev, a) | some next ↦ walk i nd a next ]
]

abbrev pub next_of : Option Node → Option ℕ
next_of none = none
next_of (some x) = x.next

-- `prev->next = b; a->next = b->next; b->next = a;`
abbrev pub relink : (ℕ → Option Node) → ℕ → ℕ → ℕ → ℕ → Option Node
relink nd prev a b =
    let nd1 = set_next nd prev (some b) in
    let nd2 = set_next nd1 a (next_of (nd1 b)) in set_next nd2 b (some a)

abbrev pub swap_pair : (ℕ → ℕ → Bool) → Storage → ℕ → ℕ → Outcome
swap_pair need_swap s prev a = elim (s.nodes a) [
  | none ↦ fault
  | some x ↦ elim x.next [
    | none ↦ unchanged
    | some b ↦ elim (s.nodes b) [
      | none ↦ fault
      | some y ↦
          if need_swap (length x.value) (length y.value)
          then swapped (record s { nodes = relink s.nodes prev a b })
          else unchanged
    ]
  ]
]

abbrev pub swap_from : (ℕ → ℕ → Bool) → Storage → ℕ → ℕ → ℕ → Outcome
swap_from need_swap s i prev a = elim (walk i s.nodes prev a) [
  | none ↦ fault
  | some (p, c) ↦ swap_pair need_swap s p c
]

-- `draw` is the result of `rand_r`.
unfoldable pub do_random_swap : (ℕ → ℕ → Bool) → Storage → ℕ → Outcome
unfolding walk
do_random_swap need_swap s draw = if ltb s.count 2 then unchanged else elim (s.nodes s.first) [
  | none ↦ fault
  | some x ↦ elim x.next [
    | none ↦ unchanged
    | some a ↦ swap_from need_swap s (draw % (s.count - 1)) s.first a
  ]
]

-- One pass of `traverse_list` from node `a` on: the pairs that match, on fuel.
unfoldable pub traverse_from : ℕ → (ℕ → ℕ → Bool) → (ℕ → Option Node) → ℕ → ℕ → Option ℕ
traverse_from zero match_pred nd a pairs = none
traverse_from (suc fuel) match_pred nd a pairs = elim (nd a) [
  | none ↦ none
  | some x ↦ elim x.next [
    | none ↦ some pairs
    | some b ↦ elim (nd b) [
      | none ↦ none
      | some y ↦
          let more = traverse_from fuel match_pred nd b (pairs + 1) in
          let same = traverse_from fuel match_pred nd b pairs in
          if match_pred (length x.value) (length y.value) then more else same
    ]
  ]
]

unfoldable pub traverse_pass : ℕ → (ℕ → ℕ → Bool) → Storage → Option ℕ
unfolding traverse_from
traverse_pass fuel match_pred s = elim (s.nodes s.first) [
  | none ↦ none
  | some x ↦ elim x.next [ none ↦ some 0 | some a ↦ traverse_from fuel match_pred s.nodes a 0 ]
]
