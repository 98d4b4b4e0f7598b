-- ===== src/Storage/Threads/Moving.antt =====
-- What a thread in a call can do next: take the lock that it waits for, or make a step without a lock.
use operation_systems.Base.{
  ℕ, zero, suc, ◌<◌, ◌≡◌, ◌≢◌, refl, ◌∙◌, ap, subst, ◌⊎◌, inl, inr, Bool, true, false, List, [],
  ◌∷◌, Option, none, some, arith, ◌==◌, Bool-cases, Option-cases, length,
}
use operation_systems.Base.Store.{contains, distinct}
use operation_systems.Storage.{Node, Storage}
use operation_systems.Storage.Links.{addresses, head_of, Linked}
use operation_systems.Storage.Threads.{
  Pc, idle, to_first, at_first, to_second, walking, to_next, advancing, pairing, to_third, deciding,
  relinked1, relinked2, unlocking3, unlocking2, unlocking1, visit_first, visiting_first,
  visit_second, leaving_first, visiting, visit_next, comparing, leaving, visited, held, next_at,
  next_at_node, Act, silent, locks, writes, SwapMove, TraverseMove,
}
use operation_systems.Storage.Threads.Rank.{rank, rank-next_at}
use operation_systems.Storage.Threads.Invariant.{chain, Chained, halfway, Written}
use operation_systems.Storage.Threads.Safety.{sees}

-- The node whose lock a thread is about to take.
abbrev pub waits : Pc → Option ℕ
waits (to_first k p) = some p
waits (to_second k p a) = some a
waits (to_next k p a x) = some x
waits (to_third p a b) = some b
waits (visit_first f) = some f
waits (visit_second f a) = some a
waits (visit_next a b) = some b
waits _ = none

-- A step that a thread can make, once its lock is granted.
pub data Ready (need : ℕ → ℕ → Bool) (s : Storage) (p : Pc) (act : Act) : Type 0 where
  swap : (q : Pc) → SwapMove need s p act q → Ready need s p act
  traverse : (q : Pc) → TraverseMove s p act q → Ready need s p act

pub lock_move :
    (need : ℕ → ℕ → Bool) (s : Storage) (p : Pc) (x : ℕ)
    → waits p ≡ some x
    → Ready need s p (locks x)
lock_move need s (to_first k p) x e =
    subst (λ (y : ℕ). Ready need s (to_first k p) (locks y)) (ground (arith, e))
      (swap _ SwapMove.lock_first)
lock_move need s (to_second k p a) x e =
    subst (λ (y : ℕ). Ready need s (to_second k p a) (locks y)) (ground (arith, e))
      (swap _ SwapMove.lock_second)
lock_move need s (to_next k p a b) x e =
    subst (λ (y : ℕ). Ready need s (to_next k p a b) (locks y)) (ground (arith, e))
      (swap _ SwapMove.lock_next)
lock_move need s (to_third p a b) x e =
    subst (λ (y : ℕ). Ready need s (to_third p a b) (locks y)) (ground (arith, e))
      (swap _ SwapMove.lock_third)
lock_move need s (visit_first f) x e =
    subst (λ (y : ℕ). Ready need s (visit_first f) (locks y)) (ground (arith, e))
      (traverse _ TraverseMove.lock_first)
lock_move need s (visit_second f a) x e =
    subst (λ (y : ℕ). Ready need s (visit_second f a) (locks y)) (ground (arith, e))
      (traverse _ TraverseMove.lock_second)
lock_move need s (visit_next a b) x e =
    subst (λ (y : ℕ). Ready need s (visit_next a b) (locks y)) (ground (arith, e))
      (traverse _ TraverseMove.lock_next)
lock_move need s p x e = ground (arith, e)

-- A thread that waits does so for a node behind all those that it has.
pub wait_below :
    (nd : ℕ → Option Node) (q : List (ℕ × List ℕ)) (p : Pc) (x h : ℕ)
    → Linked nd q
    → distinct (addresses q) ≡ true
    → Chained nd q (chain p)
    → waits p ≡ some x
    → contains h (held p) ≡ true
    → rank q x < rank q h
wait_below nd q (to_second k p a) x h l d (in_p, e, _) w has =
    ground (arith, rank-next_at nd q p a l d in_p e, w, has)
wait_below nd q (to_next k p a b) x h l d (in_p, e, (in_a, e', _)) w has =
    ground (arith, rank-next_at nd q p a l d in_p e, rank-next_at nd q a b l d in_a e', w, has)
wait_below nd q (to_third p a b) x h l d (in_p, e, (in_a, e', _)) w has =
    ground (arith, rank-next_at nd q p a l d in_p e, rank-next_at nd q a b l d in_a e', w, has)
wait_below nd q (visit_second f a) x h l d (in_f, e, _) w has =
    ground (arith, rank-next_at nd q f a l d in_f e, w, has)
wait_below nd q (visit_next a b) x h l d (in_a, e, _) w has =
    ground (arith, rank-next_at nd q a b l d in_a e, w, has)
wait_below nd q p x h l d c w has = ground (arith, w, has)

live :
    (nd : ℕ → Option Node) (q : List (ℕ × List ℕ)) (a : ℕ)
    → Linked nd q
    → contains a (addresses q) ≡ true
    → (x : Node) × (nd a ≡ some x)
live nd [] a l h = ground (arith, h)
live nd ((b, v) ∷ q) a (lb, l) h = elim (Bool-cases (b == a)) [
  | inl at ↦ (record { value = v; next = head_of q }, ground (arith, lb, at))
  | inr off ↦ live nd q a l (ground (arith, h, off))
]

-- The first node of the chain of a thread, or its second, is live, so its link can be read.
read_link :
    (nd old : ℕ → Option Node) (q : List (ℕ × List ℕ)) (a : ℕ)
    → Linked old q
    → contains a (addresses q) ≡ true
    → nd a ≡ old a
    → (next_at nd a ≡ some none) ⊎ ((b : ℕ) × (next_at nd a ≡ some (some b)))
read_link nd old q a l h same =
    let (x, e) = live old q a l h in
    elim (Option-cases x.next) [
      | inl end ↦ inl (ground (arith, same, e, end))
      | inr (b, more) ↦ inr (b, ground (arith, same, e, more))
    ]

-- A step of a thread that waits for no lock.
pub data Free (need : ℕ → ℕ → Bool) (s : Storage) (p : Pc) : Type 0 where
  quiet : Ready need s p silent → Free need s p
  writing : (a : ℕ) (m : Option ℕ) → Ready need s p (writes a m) → Free need s p

module _ (need : ℕ → ℕ → Bool) (s : Storage) (old : ℕ → Option Node) (q : List (ℕ × List ℕ))
    (l : Linked old q) where
  decide :
      (p a b : ℕ)
      → contains a (addresses q) ≡ true
      → contains b (addresses q) ≡ true
      → s.nodes a ≡ old a
      → s.nodes b ≡ old b
      → Free need s (deciding p a b)
  decide p a b in_a in_b same_a same_b =
      let (x, ex) = live old q a l in_a in
      let (y, ey) = live old q b l in_b in
      elim (Bool-cases (need (length x.value) (length y.value))) [
        | inl asked ↦
            writing p (some b) (swap _ (SwapMove.write_prev (same_a ∙ ex) (same_b ∙ ey) asked))
        | inr kept ↦ quiet (swap _ (SwapMove.keep (same_a ∙ ex) (same_b ∙ ey) kept))
      ]

  pub Free-move :
      (p : Pc)
      → p ≢ idle
      → waits p ≡ none
      → Chained old q (chain p)
      → (halfway p ≡ false → (a : ℕ) → contains a (held p) ≡ true → s.nodes a ≡ old a)
      → Written s.nodes old p
      → Free need s p
  Free-move (at_first k p) ne w (in_p, _, _) sees wr =
      elim (read_link s.nodes old q p l in_p (sees refl p (ground arith))) [
        | inl end ↦ quiet (swap _ (SwapMove.no_first end))
        | inr (a, e) ↦ quiet (swap _ (SwapMove.read_first e))
      ]
  Free-move (walking zero p a) ne w c sees wr = quiet (swap _ SwapMove.walked)
  Free-move (walking (suc k) p a) ne w (_, _, (in_a, _, _)) sees wr =
      elim (read_link s.nodes old q a l in_a (sees refl a (ground arith))) [
        | inl end ↦ quiet (swap _ (SwapMove.break end))
        | inr (x, e) ↦ quiet (swap _ (SwapMove.read_next e))
      ]
  Free-move (advancing k p a x) ne w c sees wr = quiet (swap _ SwapMove.advance)
  Free-move (pairing p a) ne w (_, _, (in_a, _, _)) sees wr =
      elim (read_link s.nodes old q a l in_a (sees refl a (ground arith))) [
        | inl end ↦ quiet (swap _ (SwapMove.no_third end))
        | inr (b, e) ↦ quiet (swap _ (SwapMove.read_third e))
      ]
  Free-move (deciding p a b) ne w (_, _, (in_a, _, (in_b, _, _))) sees wr =
      decide p a b in_a in_b (sees refl a (ground arith)) (sees refl b (ground arith))
  Free-move (relinked1 p a b) ne w (_, _, (in_a, _, (in_b, _, _))) sees (_, _, same) =
      let (y, ey) = live old q b l in_b in
      writing a y.next (swap _ (SwapMove.write_a (ap next_at_node (same ∙ ey))))
  Free-move (relinked2 p a b) ne w c sees wr = writing b (some a) (swap _ SwapMove.write_b)
  Free-move (unlocking3 p a b) ne w c sees wr = quiet (swap _ SwapMove.unlock3)
  Free-move (unlocking2 p a) ne w c sees wr = quiet (swap _ SwapMove.unlock2)
  Free-move (unlocking1 p) ne w c sees wr = quiet (swap _ SwapMove.unlock1)
  Free-move (visiting_first f) ne w (in_f, _, _) sees wr =
      elim (read_link s.nodes old q f l in_f (sees refl f (ground arith))) [
        | inl end ↦ quiet (traverse _ (TraverseMove.no_first end))
        | inr (a, e) ↦ quiet (traverse _ (TraverseMove.read_first e))
      ]
  Free-move (leaving_first f a) ne w c sees wr = quiet (traverse _ TraverseMove.leave_first)
  Free-move (visiting a) ne w (in_a, _, _) sees wr =
      elim (read_link s.nodes old q a l in_a (sees refl a (ground arith))) [
        | inl end ↦ quiet (traverse _ (TraverseMove.last end))
        | inr (b, e) ↦ quiet (traverse _ (TraverseMove.read_next e))
      ]
  Free-move (comparing a b) ne w (in_a, _, (in_b, _, _)) sees wr =
      let (x, ex) = live old q a l in_a in
      let (y, ey) = live old q b l in_b in
      quiet (
        traverse _ (
          TraverseMove.compare (sees refl a (ground arith) ∙ ex) (sees refl b (ground arith) ∙ ey)))
  Free-move (leaving a b) ne w c sees wr = quiet (traverse _ TraverseMove.leave)
  Free-move (visited a) ne w c sees wr = quiet (traverse _ TraverseMove.end)
  Free-move p ne w c sees wr = ground (arith, ne, w)
