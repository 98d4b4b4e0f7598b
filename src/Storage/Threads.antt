-- ===== src/Storage/Threads.antt =====
-- `do_random_swap` and `traverse_list` of 2.3/*/threads.c in any number of threads, hand over hand.
--
-- Each lock, unlock, read of a link and write of a link is a step; the steps of the threads are
-- interleaved in any order. In 2.3/rw the lock of a node is `pthread_rwlock_t`, which traversals take
-- shared; in 2.3/mutex and 2.3/spinlock each lock is exclusive.
pub mod Relink
pub mod Rank
pub mod Invariant
pub mod Writes
pub mod Writing
pub mod Steps
pub mod Quiet
pub mod Safety
pub mod Progress
pub mod Moving
use operation_systems.Base.{
  ℕ, suc, zero, ◌-◌, ◌≤◌, ◌<◌, ◌≡◌, ◌≢◌, Bool, true, false, ◌&&◌, List, [], ◌∷◌, Option, none, some,
  length,
}
use operation_systems.Base.Store.{update, contains}
use operation_systems.Storage.{Node, Storage, set_next}

-- Where a thread stands, with its local variables.
pub data Pc : Type 0 where
  idle : Pc
  -- `do_random_swap`, with the rounds of its loop that are left
  to_first at_first : ℕ → ℕ → Pc  -- before and behind the lock of `prev`
  to_second walking : ℕ → ℕ → ℕ → Pc  -- before and behind the lock of `a`
  to_next advancing : ℕ → ℕ → ℕ → ℕ → Pc  -- before and behind the lock of `next`
  pairing : ℕ → ℕ → Pc  -- behind the loop
  to_third deciding : ℕ → ℕ → ℕ → Pc  -- before and behind the lock of `b`
  relinked1 relinked2 : ℕ → ℕ → ℕ → Pc  -- behind the first and the second write
  unlocking3 : ℕ → ℕ → ℕ → Pc  -- before the unlock of `b`
  unlocking2 : ℕ → ℕ → Pc  -- before the unlock of `a`
  unlocking1 : ℕ → Pc  -- before the unlock of `prev`
  -- `traverse_list`
  visit_first visiting_first : ℕ → Pc  -- before and behind the lock of `first`
  visit_second leaving_first : ℕ → ℕ → Pc  -- before and behind the lock of the first `a`
  visiting : ℕ → Pc  -- the head of the inner loop
  visit_next comparing : ℕ → ℕ → Pc  -- before and behind the lock of `b`
  leaving : ℕ → ℕ → Pc  -- before the unlock of `a`, in the loop
  visited : ℕ → Pc  -- before the unlock of `a`, behind the loop

-- The nodes whose locks a thread has.
abbrev pub held : Pc → List ℕ
held idle = []
held (to_first k p) = []
held (at_first k p) = p ∷ []
held (to_second k p a) = p ∷ []
held (walking k p a) = p ∷ a ∷ []
held (to_next k p a x) = p ∷ a ∷ []
held (advancing k p a x) = p ∷ a ∷ x ∷ []
held (pairing p a) = p ∷ a ∷ []
held (to_third p a b) = p ∷ a ∷ []
held (deciding p a b) = p ∷ a ∷ b ∷ []
held (relinked1 p a b) = p ∷ a ∷ b ∷ []
held (relinked2 p a b) = p ∷ a ∷ b ∷ []
held (unlocking3 p a b) = p ∷ a ∷ b ∷ []
held (unlocking2 p a) = p ∷ a ∷ []
held (unlocking1 p) = p ∷ []
held (visit_first f) = []
held (visiting_first f) = f ∷ []
held (visit_second f a) = f ∷ []
held (leaving_first f a) = f ∷ a ∷ []
held (visiting a) = a ∷ []
held (visit_next a b) = a ∷ []
held (comparing a b) = a ∷ b ∷ []
held (leaving a b) = a ∷ b ∷ []
held (visited a) = a ∷ []

-- In a traversal.
abbrev pub reads : Pc → Bool
reads (visit_first f) = true
reads (visiting_first f) = true
reads (visit_second f a) = true
reads (leaving_first f a) = true
reads (visiting a) = true
reads (visit_next a b) = true
reads (comparing a b) = true
reads (leaving a b) = true
reads (visited a) = true
reads _ = false

-- Whether two threads may have the lock of one node, where `shared` is whether traversals share it.
abbrev pub compatible : Bool → Pc → Pc → Bool
compatible shared p q = shared && reads p && reads q

-- What a step does to what the threads share.
pub data Act : Type 0 where
  silent : Act
  locks : ℕ → Act
  writes : ℕ → Option ℕ → Act  -- `a->next = n`

abbrev pub acted : Act → Storage → Storage
acted silent s = s
acted (locks a) s = s
acted (writes a n) s = record s { nodes = set_next s.nodes a n }

-- The link of a node that is live.
abbrev pub next_at_node : Option Node → Option (Option ℕ)
next_at_node none = none
next_at_node (some x) = some x.next

abbrev pub next_at : (ℕ → Option Node) → ℕ → Option (Option ℕ)
next_at nd a = next_at_node (nd a)

-- A step of `do_random_swap` with predicate `need`.
pub data SwapMove (need : ℕ → ℕ → Bool) (s : Storage) : Pc → Act → Pc → Type 0 where
  call : (k : ℕ) → 2 ≤ s.count → k < s.count - 1 → SwapMove need s idle silent (to_first k s.first)
  lock_first : {k p : ℕ} → SwapMove need s (to_first k p) (locks p) (at_first k p)
  no_first :
      {k p : ℕ}
      → next_at s.nodes p ≡ some none
      → SwapMove need s (at_first k p) silent (unlocking1 p)
  read_first :
      {k p a : ℕ}
      → next_at s.nodes p ≡ some (some a)
      → SwapMove need s (at_first k p) silent (to_second k p a)
  lock_second : {k p a : ℕ} → SwapMove need s (to_second k p a) (locks a) (walking k p a)
  walked : {p a : ℕ} → SwapMove need s (walking zero p a) silent (pairing p a)
  break :
      {k p a : ℕ}
      → next_at s.nodes a ≡ some none
      → SwapMove need s (walking (suc k) p a) silent (pairing p a)
  read_next :
      {k p a x : ℕ}
      → next_at s.nodes a ≡ some (some x)
      → SwapMove need s (walking (suc k) p a) silent (to_next k p a x)
  lock_next : {k p a x : ℕ} → SwapMove need s (to_next k p a x) (locks x) (advancing k p a x)
  advance : {k p a x : ℕ} → SwapMove need s (advancing k p a x) silent (walking k a x)
  no_third :
      {p a : ℕ}
      → next_at s.nodes a ≡ some none
      → SwapMove need s (pairing p a) silent (unlocking2 p a)
  read_third :
      {p a b : ℕ}
      → next_at s.nodes a ≡ some (some b)
      → SwapMove need s (pairing p a) silent (to_third p a b)
  lock_third : {p a b : ℕ} → SwapMove need s (to_third p a b) (locks b) (deciding p a b)
  keep :
      {p a b : ℕ} {x y : Node}
      → s.nodes a ≡ some x
      → s.nodes b ≡ some y
      → need (length x.value) (length y.value) ≡ false
      → SwapMove need s (deciding p a b) silent (unlocking3 p a b)
  write_prev :
      {p a b : ℕ} {x y : Node}
      → s.nodes a ≡ some x
      → s.nodes b ≡ some y
      → need (length x.value) (length y.value) ≡ true
      → SwapMove need s (deciding p a b) (writes p (some b)) (relinked1 p a b)
  write_a :
      {p a b : ℕ} {n : Option ℕ}
      → next_at s.nodes b ≡ some n
      → SwapMove need s (relinked1 p a b) (writes a n) (relinked2 p a b)
  write_b : {p a b : ℕ} → SwapMove need s (relinked2 p a b) (writes b (some a)) (unlocking3 p a b)
  unlock3 : {p a b : ℕ} → SwapMove need s (unlocking3 p a b) silent (unlocking2 p a)
  unlock2 : {p a : ℕ} → SwapMove need s (unlocking2 p a) silent (unlocking1 p)
  unlock1 : {p : ℕ} → SwapMove need s (unlocking1 p) silent idle

-- A step of `traverse_list`.
pub data TraverseMove (s : Storage) : Pc → Act → Pc → Type 0 where
  begin : TraverseMove s idle silent (visit_first s.first)
  lock_first : {f : ℕ} → TraverseMove s (visit_first f) (locks f) (visiting_first f)
  no_first :
      {f : ℕ} → next_at s.nodes f ≡ some none → TraverseMove s (visiting_first f) silent (visited f)
  read_first :
      {f a : ℕ}
      → next_at s.nodes f ≡ some (some a)
      → TraverseMove s (visiting_first f) silent (visit_second f a)
  lock_second : {f a : ℕ} → TraverseMove s (visit_second f a) (locks a) (leaving_first f a)
  leave_first : {f a : ℕ} → TraverseMove s (leaving_first f a) silent (visiting a)
  last : {a : ℕ} → next_at s.nodes a ≡ some none → TraverseMove s (visiting a) silent (visited a)
  read_next :
      {a b : ℕ}
      → next_at s.nodes a ≡ some (some b)
      → TraverseMove s (visiting a) silent (visit_next a b)
  lock_next : {a b : ℕ} → TraverseMove s (visit_next a b) (locks b) (comparing a b)
  compare :
      {a b : ℕ} {x y : Node}
      → s.nodes a ≡ some x
      → s.nodes b ≡ some y
      → TraverseMove s (comparing a b) silent (leaving a b)
  leave : {a b : ℕ} → TraverseMove s (leaving a b) silent (visiting b)
  end : {a : ℕ} → TraverseMove s (visited a) silent idle

pub record System : Type 0 where
  pub storage : Storage
  pub pc : ℕ → Pc

-- The lock of a node is granted if no other thread has it in a way that excludes this one.
abbrev pub Granted : Bool → System → ℕ → Act → Type 0
Granted shared s i silent = Unit {0}
Granted shared s i (locks a) =
    (j : ℕ) → j ≢ i → contains a (held (s.pc j)) ≡ true → compatible shared (s.pc i) (s.pc j) ≡ true
Granted shared s i (writes a n) = Unit {0}

abbrev pub moved : System → ℕ → Act → Pc → System
moved s i act q = record { storage = acted act s.storage; pc = update s.pc i q }

-- A step of thread `i`, of `n` threads, where thread `i` swaps by the predicate `need i`.
pub data Step (n : ℕ) (shared : Bool) (need : ℕ → ℕ → ℕ → Bool) (s : System) (i : ℕ)
    : System → Type 0 where
  swaps :
      (p : Pc) (act : Act) (q : Pc)
      → i < n
      → s.pc i ≡ p
      → SwapMove (need i) s.storage p act q
      → Granted shared s i act
      → Step n shared need s i (moved s i act q)
  traverses :
      (p : Pc) (act : Act) (q : Pc)
      → i < n
      → s.pc i ≡ p
      → TraverseMove s.storage p act q
      → Granted shared s i act
      → Step n shared need s i (moved s i act q)

abbrev pub init : Storage → System
init storage = record { storage = storage; pc = λ _. idle }

pub data Reach (n : ℕ) (shared : Bool) (need : ℕ → ℕ → ℕ → Bool) (storage : Storage)
    : System → Type 0 where
  start : Reach n shared need storage (init storage)
  later :
      {s t : System}
      → Reach n shared need storage s
      → (i : ℕ) → Step n shared need s i t
      → Reach n shared need storage t
