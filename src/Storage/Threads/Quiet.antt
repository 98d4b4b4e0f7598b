-- ===== src/Storage/Threads/Quiet.antt =====
-- The steps that write no link: what a thread relies on before them gives what it relies on behind.
use operation_systems.Base.{
  ℕ, ◌≡◌, ◌∙◌, sym, ap, Bool, true, false, ◌||◌, List, Option, some, arith,
}
use operation_systems.Base.Store.{contains}
use operation_systems.Storage.{Node, Storage}
use operation_systems.Storage.Links.{addresses, Linked}
use operation_systems.Storage.Threads.{
  Pc, held, reads, next_at, next_at_node, Act, silent, locks, writes, SwapMove, TraverseMove,
}
use operation_systems.Storage.Threads.Relink.{contains-next_at}
use operation_systems.Storage.Threads.Invariant.{chain, Chained, halfway}
use operation_systems.Storage.Threads.Steps.{gains, Quiet}

abbrev pub writes_none : Act → Bool
writes_none silent = true
writes_none (locks a) = true
writes_none (writes a n) = false

module _ {need : ℕ → ℕ → Bool} {st : Storage} where
  pub SwapMove-halfway :
      {p q : Pc} {act : Act}
      → SwapMove need st p act q
      → writes_none act ≡ true
      → (halfway p ≡ false) × (halfway q ≡ false)
  SwapMove-halfway (SwapMove.call k two h) w = ground arith
  SwapMove-halfway mv w = ground (arith, w)

  SwapMove-held :
      {p q : Pc} {act : Act}
      → SwapMove need st p act q
      → writes_none act ≡ true
      → (a : ℕ) → contains a (held q) ≡ true
      → (contains a (held p) || gains act a) ≡ true
  SwapMove-held (SwapMove.call k two h) w a has = ground (arith, has)
  SwapMove-held mv w a has = ground (arith, w, has)

  SwapMove-reads :
      {p q : Pc} {act : Act}
      → SwapMove need st p act q
      → (a : ℕ) → contains a (held q) ≡ true
      → reads q ≡ reads p
  SwapMove-reads (SwapMove.call k two h) a has = ground arith
  SwapMove-reads mv a has = ground (arith, has)

module _ {st : Storage} where
  pub TraverseMove-halfway :
      {p q : Pc} {act : Act}
      → TraverseMove st p act q
      → (writes_none act ≡ true) × (halfway p ≡ false) × (halfway q ≡ false)
  TraverseMove-halfway TraverseMove.begin = ground arith
  TraverseMove-halfway mv = ground arith

  TraverseMove-held :
      {p q : Pc} {act : Act}
      → TraverseMove st p act q
      → (a : ℕ) → contains a (held q) ≡ true
      → (contains a (held p) || gains act a) ≡ true
  TraverseMove-held TraverseMove.begin a has = ground (arith, has)
  TraverseMove-held mv a has = ground (arith, has)

  TraverseMove-reads :
      {p q : Pc} {act : Act}
      → TraverseMove st p act q
      → (a : ℕ) → contains a (held q) ≡ true
      → reads q ≡ reads p
  TraverseMove-reads TraverseMove.begin a has = ground (arith, has)
  TraverseMove-reads mv a has = ground (arith, has)

module _ (old : ℕ → Option Node) (list : List (ℕ × List ℕ)) (st : Storage)
    (linked : Linked old list) (first_in : contains st.first (addresses list) ≡ true) where
  -- A link that the thread reads leads on in the list.
  follow :
      (a b : ℕ)
      → st.nodes a ≡ old a
      → contains a (addresses list) ≡ true
      → next_at st.nodes a ≡ some (some b)
      → (next_at old a ≡ some (some b)) × (contains b (addresses list) ≡ true)
  follow a b same h e =
      let e' = sym (ap next_at_node same) ∙ e in (e', contains-next_at old list a b linked h e')

  SwapMove-Chained :
      {need : ℕ → ℕ → Bool} {p q : Pc} {act : Act}
      → SwapMove need st p act q
      → writes_none act ≡ true
      → Chained old list (chain p)
      → ((a : ℕ) → contains a (held p) ≡ true → st.nodes a ≡ old a)
      → Chained old list (chain q)
  SwapMove-Chained (SwapMove.call k two h) w c sees = (first_in, tt, tt)
  SwapMove-Chained SwapMove.lock_first w c sees = c
  SwapMove-Chained (SwapMove.read_first {p = p} {a = a} e) w (in_p, _, _) sees =
      let (e', in_a) = follow p a (sees p (ground arith)) in_p e in (in_p, e', (in_a, tt, tt))
  SwapMove-Chained SwapMove.lock_second w c sees = c
  SwapMove-Chained SwapMove.walked w c sees = c
  SwapMove-Chained (SwapMove.break e) w c sees = c
  SwapMove-Chained (SwapMove.read_next {a = a} {x = x} e) w (in_p, f, (in_a, _, _)) sees =
      let (e', in_x) = follow a x (sees a (ground arith)) in_a e in
      (in_p, f, (in_a, e', (in_x, tt, tt)))
  SwapMove-Chained SwapMove.lock_next w c sees = c
  SwapMove-Chained SwapMove.advance w (in_p, f, c) sees = c
  SwapMove-Chained (SwapMove.read_third {a = a} {b = b} e) w (in_p, f, (in_a, _, _)) sees =
      let (e', in_b) = follow a b (sees a (ground arith)) in_a e in
      (in_p, f, (in_a, e', (in_b, tt, tt)))
  SwapMove-Chained SwapMove.lock_third w c sees = c
  SwapMove-Chained (SwapMove.write_prev l l' n) w c sees = ground (arith, w)
  SwapMove-Chained (SwapMove.write_a e) w c sees = ground (arith, w)
  SwapMove-Chained SwapMove.write_b w c sees = ground (arith, w)
  SwapMove-Chained mv w c sees = tt

  TraverseMove-Chained :
      {p q : Pc} {act : Act}
      → TraverseMove st p act q
      → Chained old list (chain p)
      → ((a : ℕ) → contains a (held p) ≡ true → st.nodes a ≡ old a)
      → Chained old list (chain q)
  TraverseMove-Chained TraverseMove.begin c sees = (first_in, tt, tt)
  TraverseMove-Chained TraverseMove.lock_first c sees = c
  TraverseMove-Chained (TraverseMove.read_first {f = f} {a = a} e) (in_f, _, _) sees =
      let (e', in_a) = follow f a (sees f (ground arith)) in_f e in (in_f, e', (in_a, tt, tt))
  TraverseMove-Chained TraverseMove.lock_second c sees = c
  TraverseMove-Chained TraverseMove.leave_first (in_f, _, c) sees = c
  TraverseMove-Chained (TraverseMove.read_next {a = a} {b = b} e) (in_a, _, _) sees =
      let (e', in_b) = follow a b (sees a (ground arith)) in_a e in (in_a, e', (in_b, tt, tt))
  TraverseMove-Chained TraverseMove.lock_next c sees = c
  TraverseMove-Chained (TraverseMove.compare l l') c sees = c
  TraverseMove-Chained TraverseMove.leave (in_a, _, c) sees = c
  TraverseMove-Chained mv c sees = tt

  pub SwapMove-Quiet :
      {need : ℕ → ℕ → Bool} {p q : Pc} {act : Act}
      → SwapMove need st p act q
      → writes_none act ≡ true
      → Chained old list (chain p)
      → ((a : ℕ) → contains a (held p) ≡ true → st.nodes a ≡ old a)
      → Quiet old list p act q
  SwapMove-Quiet mv w c sees =
      let (before, whole) = SwapMove-halfway mv w in
      record {
        whole_before = before;
        whole = whole;
        chained = SwapMove-Chained mv w c sees;
        has = SwapMove-held mv w;
        mode = SwapMove-reads mv;
      }

  pub TraverseMove-Quiet :
      {p q : Pc} {act : Act}
      → TraverseMove st p act q
      → Chained old list (chain p)
      → ((a : ℕ) → contains a (held p) ≡ true → st.nodes a ≡ old a)
      → Quiet old list p act q
  TraverseMove-Quiet mv c sees =
      let (_, before, whole) = TraverseMove-halfway mv in
      record {
        whole_before = before;
        whole = whole;
        chained = TraverseMove-Chained mv c sees;
        has = TraverseMove-held mv;
        mode = TraverseMove-reads mv;
      }
