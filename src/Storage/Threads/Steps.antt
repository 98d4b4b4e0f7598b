-- ===== src/Storage/Threads/Steps.antt =====
-- Steps that write no link keep the invariant.
use operation_systems.Base.{
  ℕ, ◌<◌, ◌≡◌, ◌≢◌, refl, sym, inl, inr, Bool, true, false, ◌||◌, List, Option, arith, ◌==◌,
  Bool-cases,
}
use operation_systems.Base.Store.{update, update_all, contains}
use operation_systems.Storage.{Node, Storage}
use operation_systems.Storage.Threads.{
  Pc, relinked1, relinked2, held, reads, compatible, Act, silent, locks, writes, System, Granted,
}
use operation_systems.Storage.Threads.Invariant.{chain, Chained, halfway, Written, Inv}

-- The node that a step locks.
abbrev pub gains : Act → ℕ → Bool
gains silent a = false
gains (locks x) a = x == a
gains (writes x n) a = false

pub Granted-gains :
    (shared : Bool) (s : System) (i : ℕ) (act : Act) (a j : ℕ)
    → Granted shared s i act
    → gains act a ≡ true
    → j ≢ i
    → contains a (held (s.pc j)) ≡ true
    → compatible shared (s.pc i) (s.pc j) ≡ true
Granted-gains shared s i (locks x) a j g h ne has = g j ne (ground (arith, h, has))
Granted-gains shared s i act a j g h ne has = ground (arith, h)

-- What a step from `p` to `q` must satisfy, when it writes no link.
pub record Quiet (old : ℕ → Option Node) (list : List (ℕ × List ℕ)) (p : Pc) (act : Act) (q : Pc)
    : Type 0 where
  pub whole_before : halfway p ≡ false
  pub whole : halfway q ≡ false
  pub chained : Chained old list (chain q)
  pub has : (a : ℕ) → contains a (held q) ≡ true → (contains a (held p) || gains act a) ≡ true
  pub mode : (a : ℕ) → contains a (held q) ≡ true → reads q ≡ reads p

Written_whole : (nd old : ℕ → Option Node) (q : Pc) → halfway q ≡ false → Written nd old q
Written_whole nd old (relinked1 p a b) h = ground (arith, h)
Written_whole nd old (relinked2 p a b) h = ground (arith, h)
Written_whole nd old q h = tt

module _ {n : ℕ} {shared : Bool} {storage : Storage} {list₀ : List (ℕ × List ℕ)} {s : System}
    (inv : Inv n shared storage list₀ s) (i : ℕ) (p : Pc) (act : Act) (q : Pc) (below : i < n)
    (at : s.pc i ≡ p) (granted : Granted shared s i act)
    (quiet : Quiet inv.old inv.list p act q) where
  own_apart :
      (j a : ℕ)
      → j ≢ i
      → contains a (held q) ≡ true
      → contains a (held (s.pc j)) ≡ true
      → compatible shared q (s.pc j) ≡ true
  own_apart j a ne has has_j = elim (Bool-cases (contains a (held p))) [
    | inl before ↦
        ground (arith, inv.apart i j a (λ e. ne (sym e)), at, before, has_j, quiet.mode a has)
    | inr new ↦
        let gained : gains act a ≡ true = ground (arith, quiet.has a has, new) in
        ground
          (arith, Granted-gains shared s i act a j granted gained ne has_j, at, quiet.mode a has)
  ]

  own_stable :
      (a : ℕ)
      → ((j : ℕ)
          → halfway (update s.pc i q j) ≡ true
          → contains a (held (update s.pc i q j)) ≡ false)
      → (j : ℕ) → halfway (s.pc j) ≡ true
      → contains a (held (s.pc j)) ≡ false
  own_stable a h j mid = ground (arith, h j, quiet.whole_before, at, mid)

  pub quiet-Inv : Inv n shared storage list₀ (record { storage = s.storage; pc = update s.pc i q })
  quiet-Inv = record {
    old = inv.old;
    list = inv.list;
    linked = inv.linked;
    distinct_nodes = inv.distinct_nodes;
    at_first = inv.at_first;
    first_kept = inv.first_kept;
    count_kept = inv.count_kept;
    perm = inv.perm;
    outside = λ j h. ground (arith, inv.outside j h, below, h);
    chained =
        update_all (λ j c. Chained inv.old inv.list (chain c)) s.pc i q quiet.chained
          (λ j ne. inv.chained j);
    apart =
        update_all
          (λ j c.
            (k a : ℕ)
            → j ≢ k
            → contains a (held c) ≡ true
            → contains a (held (update s.pc i q k)) ≡ true
            → compatible shared c (update s.pc i q k) ≡ true)
          s.pc i q
          (update_all
            (λ k c.
              (a : ℕ)
              → i ≢ k
              → contains a (held q) ≡ true
              → contains a (held c) ≡ true
              → compatible shared q c ≡ true)
            s.pc i q (λ a ne. absurd (ne refl)) (λ k ne a _. own_apart k a ne))
          (λ j ne.
            update_all
              (λ k c.
                (a : ℕ)
                → j ≢ k
                → contains a (held (s.pc j)) ≡ true
                → contains a (held c) ≡ true
                → compatible shared (s.pc j) c ≡ true)
              s.pc i q (λ a _ has_j has_q. ground (arith, own_apart j a ne has_q has_j))
              (λ k _ a. inv.apart j k a));
    stable = λ a h. inv.stable a (own_stable a h);
    written =
        update_all (λ j c. Written s.storage.nodes inv.old c) s.pc i q
          (Written_whole s.storage.nodes inv.old q quiet.whole) (λ j ne. inv.written j);
  }
