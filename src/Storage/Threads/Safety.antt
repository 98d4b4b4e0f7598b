-- ===== src/Storage/Threads/Safety.antt =====
-- The list in every state that the threads reach.
use mathlib.Core.List.{Perm}
use mathlib.Core.List.Perm
use operation_systems.Base.{
  ℕ, ◌<◌, ◌≡◌, refl, sym, subst, Bool, true, false, List, [], ◌∷◌, Option, some, arith,
}
use operation_systems.Base.Store.{contains}
use operation_systems.Storage.{Storage}
use operation_systems.Storage.Links.{addresses, head_of, Linked-of_agree, Holds}
use operation_systems.Storage.Threads.{
  Pc, deciding, relinked1, relinked2, unlocking3, held, Act, silent, locks, writes, SwapMove,
  TraverseMove, System, Granted, moved, Step, swaps, traverses, Reach, start, later,
}
use operation_systems.Storage.Threads.Invariant.{chain, Chained, halfway, Written, Inv, own_view}
use operation_systems.Storage.Threads.Steps.{quiet-Inv}
use operation_systems.Storage.Threads.Quiet.{
  SwapMove-halfway, SwapMove-Quiet, TraverseMove-halfway, TraverseMove-Quiet,
}
use operation_systems.Storage.Threads.Writing.{writes-Inv}
use operation_systems.Storage.Threads.Writes.{write_prev-Writes, write_a-Writes, write_b-Writes}

contains-head_of :
    (q : List (ℕ × List ℕ)) (a : ℕ) → head_of q ≡ some a → contains a (addresses q) ≡ true
contains-head_of [] a h = ground (arith, h)
contains-head_of ((x, v) ∷ q) a h = ground (arith, h)

module _ {n : ℕ} {shared : Bool} {storage : Storage} {list₀ : List (ℕ × List ℕ)} {s : System}
    (inv : Inv n shared storage list₀ s) (i : ℕ) (p : Pc) (at : s.pc i ≡ p) where
  pub own_chain : Chained inv.old inv.list (chain p)
  own_chain = subst (λ c. Chained inv.old inv.list (chain c)) at (inv.chained i)

  pub own_written : Written s.storage.nodes inv.old p
  own_written = subst (λ c. Written s.storage.nodes inv.old c) at (inv.written i)

  pub sees :
      halfway p ≡ false → (a : ℕ) → contains a (held p) ≡ true → s.storage.nodes a ≡ inv.old a
  sees whole a has =
      own_view inv i a (subst (λ c. halfway c ≡ false) (sym at) whole)
        (subst (λ c. contains a (held c) ≡ true) (sym at) has)

written_Inv :
    {n : ℕ} {shared : Bool} {storage : Storage} {list₀ : List (ℕ × List ℕ)} {s : System}
    (inv : Inv n shared storage list₀ s) (i : ℕ) {need : ℕ → ℕ → Bool} {p q : Pc} (x : ℕ)
    (m : Option ℕ)
    → i < n
    → s.pc i ≡ p
    → SwapMove need s.storage p (writes x m) q
    → Inv n shared storage list₀ (moved s i (writes x m) q)
written_Inv inv i x m below at (SwapMove.write_prev {p = p} {a = a} {b = b} l l' asked) =
    writes-Inv inv i (deciding p a b) (relinked1 p a b) below at _ (
      write_prev-Writes inv p a b (own_chain inv i (deciding p a b) at)
        (sees inv i (deciding p a b) at refl))
written_Inv inv i x m below at (SwapMove.write_a {p = p} {a = a} {b = b} e) =
    writes-Inv inv i (relinked1 p a b) (relinked2 p a b) below at _ (
      write_a-Writes inv p a b (own_chain inv i (relinked1 p a b) at) m e
        (own_written inv i (relinked1 p a b) at))
written_Inv inv i x m below at (SwapMove.write_b {p = p} {a = a} {b = b}) =
    writes-Inv inv i (relinked2 p a b) (unlocking3 p a b) below at _ (
      write_b-Writes inv p a b (own_chain inv i (relinked2 p a b) at)
        (own_written inv i (relinked2 p a b) at))

module _ {n : ℕ} {shared : Bool} {storage : Storage} {list₀ : List (ℕ × List ℕ)} {s : System}
    (inv : Inv n shared storage list₀ s) (i : ℕ) (p : Pc) (at : s.pc i ≡ p) where
  pub SwapMove-Inv :
      {need : ℕ → ℕ → Bool} {q : Pc} (act : Act)
      → i < n
      → SwapMove need s.storage p act q
      → Granted shared s i act
      → Inv n shared storage list₀ (moved s i act q)
  SwapMove-Inv {q = q} silent below mv granted =
      let (whole, _) = SwapMove-halfway mv refl in
      quiet-Inv inv i p silent q below at granted (
        SwapMove-Quiet inv.old inv.list s.storage inv.linked
          (contains-head_of inv.list _ inv.at_first) mv refl (own_chain inv i p at)
          (sees inv i p at whole))
  SwapMove-Inv {q = q} (locks a) below mv granted =
      let (whole, _) = SwapMove-halfway mv refl in
      quiet-Inv inv i p (locks a) q below at granted (
        SwapMove-Quiet inv.old inv.list s.storage inv.linked
          (contains-head_of inv.list _ inv.at_first) mv refl (own_chain inv i p at)
          (sees inv i p at whole))
  SwapMove-Inv (writes x m) below mv granted = written_Inv inv i x m below at mv

  pub TraverseMove-Inv :
      {q : Pc} (act : Act)
      → i < n
      → TraverseMove s.storage p act q
      → Granted shared s i act
      → Inv n shared storage list₀ (moved s i act q)
  TraverseMove-Inv {q = q} silent below mv granted =
      let (_, whole, _) = TraverseMove-halfway mv in
      quiet-Inv inv i p silent q below at granted (
        TraverseMove-Quiet inv.old inv.list s.storage inv.linked
          (contains-head_of inv.list _ inv.at_first) mv (own_chain inv i p at)
          (sees inv i p at whole))
  TraverseMove-Inv {q = q} (locks a) below mv granted =
      let (_, whole, _) = TraverseMove-halfway mv in
      quiet-Inv inv i p (locks a) q below at granted (
        TraverseMove-Quiet inv.old inv.list s.storage inv.linked
          (contains-head_of inv.list _ inv.at_first) mv (own_chain inv i p at)
          (sees inv i p at whole))
  TraverseMove-Inv (writes x m) below mv granted =
      let (quiet, _, _) = TraverseMove-halfway mv in ground (arith, quiet)

Step-Inv :
    {n : ℕ} {shared : Bool} {need : ℕ → ℕ → ℕ → Bool} {storage : Storage}
    {list₀ : List (ℕ × List ℕ)} {s : System} {i : ℕ} {t : System}
    → Step n shared need s i t
    → Inv n shared storage list₀ s
    → Inv n shared storage list₀ t
Step-Inv {i = i} (swaps p act q below at mv granted) inv =
    SwapMove-Inv inv i p at act below mv granted
Step-Inv {i = i} (traverses p act q below at mv granted) inv =
    TraverseMove-Inv inv i p at act below mv granted

pub Reach-Inv :
    {n : ℕ} {shared : Bool} {need : ℕ → ℕ → ℕ → Bool} {storage : Storage}
    {list₀ : List (ℕ × List ℕ)} {s : System}
    → Holds storage list₀
    → Reach n shared need storage s
    → Inv n shared storage list₀ s
Reach-Inv {storage = storage} {list₀ = list₀} holds start = record {
  old = storage.nodes;
  list = list₀;
  linked = holds.linked;
  distinct_nodes = holds.apart;
  at_first = holds.at_first;
  first_kept = refl;
  count_kept = refl;
  perm = Perm.refl list₀;
  outside = λ i h. refl;
  chained = λ i. tt;
  apart = λ i j a ne has. ground (arith, has);
  stable = λ a h. refl;
  written = λ i. tt;
}
Reach-Inv holds (later r i st) = Step-Inv st (Reach-Inv holds r)

-- Of any number of threads that swap and traverse, in any order: in every state that is reached in
-- which no swap is between its first write and its last, the nodes are linked, from the same first
-- node on, and they are the nodes of the start with their strings, each once, in some order.
pub list_kept :
    {n : ℕ} {shared : Bool} {need : ℕ → ℕ → ℕ → Bool} {storage : Storage}
    {list₀ : List (ℕ × List ℕ)} {s : System}
    → Holds storage list₀
    → Reach n shared need storage s
    → ((i : ℕ) → halfway (s.pc i) ≡ false)
    → (s.storage.first ≡ storage.first)
      × (s.storage.count ≡ storage.count)
      × ((q : List (ℕ × List ℕ)) × Holds s.storage q × Perm q list₀)
list_kept {s = s} holds r whole =
    let inv = Reach-Inv holds r in
    let now = λ (a : ℕ). inv.stable a (λ i mid. ground (arith, whole i, mid)) in
    (
      inv.first_kept,
      inv.count_kept,
      (
        inv.list,
        record {
          at_first = inv.at_first;
          linked = Linked-of_agree inv.old s.storage.nodes inv.list (λ j h. now j) inv.linked;
          apart = inv.distinct_nodes;
        },
        inv.perm,
      ),
    )
