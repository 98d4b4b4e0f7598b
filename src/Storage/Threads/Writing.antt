-- ===== src/Storage/Threads/Writing.antt =====
-- A write that keeps what the other threads rely on keeps the invariant.
use mathlib.Core.List.{Perm}
use mathlib.Core.List.Perm
use operation_systems.Base.{
  ℕ, ◌<◌, ◌≡◌, ◌≢◌, refl, sym, ◌∙◌, ap, inl, inr, Bool, true, false, List, Option, some, arith,
  Bool-cases,
}
use operation_systems.Base.Store.{update, update_all, contains, distinct}
use operation_systems.Storage.{Node, Storage, with_next, next_of}
use operation_systems.Storage.Links.{addresses, head_of, Linked}
use operation_systems.Storage.Threads.{Pc, relinked1, relinked2, held, reads, compatible, System}
use operation_systems.Storage.Threads.Invariant.{
  chain, contains-front-chain, Chained, Chained-frame, halfway, Written, Inv,
}

-- What the writes of one swap touch is spared by what another thread relies on.
Written-frame :
    (nd nd' old old' : ℕ → Option Node) (p : Pc)
    → ((a : ℕ) → contains a (held p) ≡ true → nd' a ≡ nd a)
    → ((a : ℕ) → contains a (held p) ≡ true → old' a ≡ old a)
    → Written nd old p
    → Written nd' old' p
Written-frame nd nd' old old' (relinked1 p a b) same same' (wp, wa, wb) = (
  same p (ground arith) ∙ wp ∙ ap (with_next (some b)) (sym (same' p (ground arith))),
  same a (ground arith) ∙ wa ∙ sym (same' a (ground arith)),
  same b (ground arith) ∙ wb ∙ sym (same' b (ground arith)),
)
Written-frame nd nd' old old' (relinked2 p a b) same same' (wp, wa, wb) = (
  same p (ground arith) ∙ wp ∙ ap (with_next (some b)) (sym (same' p (ground arith))),
  same a (ground arith)
      ∙ wa
      ∙ ap (λ (x : Option Node). with_next (next_of x) (old a)) (sym (same' b (ground arith)))
      ∙ ap (with_next (next_of (old' b))) (sym (same' a (ground arith))),
  same b (ground arith) ∙ wb ∙ sym (same' b (ground arith)),
)
Written-frame nd nd' old old' p same same' w = tt

-- The heap and the list behind a write of a thread that goes from `p` to `q`.
pub record Writes {n : ℕ} {shared : Bool} {storage : Storage} {list₀ : List (ℕ × List ℕ)}
    {s : System} (inv : Inv n shared storage list₀ s) (p q : Pc) (nodes : ℕ → Option Node)
    : Type 0 where
  pub old : ℕ → Option Node
  pub list : List (ℕ × List ℕ)
  pub linked : Linked old list
  pub distinct_nodes : distinct (addresses list) ≡ true
  pub same_head : head_of list ≡ head_of inv.list
  pub perm : Perm list inv.list
  pub members : (j : ℕ) → contains j (addresses list) ≡ contains j (addresses inv.list)
  pub spared : (a : ℕ) → contains a (held p) ≡ false → old a ≡ inv.old a
  pub spared_nodes : (a : ℕ) → contains a (held p) ≡ false → nodes a ≡ s.storage.nodes a
  pub same_held : held q ≡ held p
  pub writer : reads p ≡ false
  pub writer_behind : reads q ≡ false
  pub chained : Chained old list (chain q)
  pub written : Written nodes old q
  pub settled : (a : ℕ) → contains a (held p) ≡ true → halfway q ≡ false → nodes a ≡ old a

module _ {n : ℕ} {shared : Bool} {storage : Storage} {list₀ : List (ℕ × List ℕ)} {s : System}
    (inv : Inv n shared storage list₀ s) (i : ℕ) (p q : Pc) (below : i < n) (at : s.pc i ≡ p)
    (nodes : ℕ → Option Node) (w : Writes inv p q nodes) where
  not_mine : (j a : ℕ) → j ≢ i → contains a (held (s.pc j)) ≡ true → contains a (held p) ≡ false
  not_mine j a ne has = elim (Bool-cases (contains a (held p))) [
    | inl mine ↦ ground (arith, inv.apart j i a ne has, at, mine, w.writer)
    | inr other ↦ other
  ]

  stable_behind :
      (a : ℕ)
      → ((j : ℕ)
          → halfway (update s.pc i q j) ≡ true
          → contains a (held (update s.pc i q j)) ≡ false)
      → nodes a ≡ w.old a
  stable_behind a h = elim (Bool-cases (contains a (held p))) [
    | inl mine ↦ w.settled a mine (ground (arith, h i, w.same_held, mine))
    | inr other ↦
        w.spared_nodes a other
        ∙ inv.stable a (λ j mid. ground (arith, h j, at, other, mid))
        ∙ sym (w.spared a other)
  ]

  pub writes-Inv :
      Inv n shared storage list₀
        (record { storage = record s.storage { nodes = nodes }; pc = update s.pc i q })
  writes-Inv = record {
    old = w.old;
    list = w.list;
    linked = w.linked;
    distinct_nodes = w.distinct_nodes;
    at_first = w.same_head ∙ inv.at_first;
    first_kept = inv.first_kept;
    count_kept = inv.count_kept;
    perm = Perm.trans w.perm inv.perm;
    outside = λ j h. ground (arith, inv.outside j h, below, h);
    chained =
        update_all (λ j c. Chained w.old w.list (chain c)) s.pc i q w.chained
          λ j ne.
            Chained-frame inv.old w.old inv.list w.list (chain (s.pc j))
              (λ a in_front.
                w.spared a (not_mine j a ne (contains-front-chain (s.pc j) a in_front)))
              w.members (inv.chained j);
    apart =
        update_all
          (λ j c.
            (k a : ℕ)
            → j ≢ k
            → contains a (held c) ≡ true
            → contains a (held (update s.pc i q k)) ≡ true
            → compatible shared c (update s.pc i q k) ≡ true)
          s.pc i q
          (update_all
            (λ k c.
              (a : ℕ)
              → i ≢ k
              → contains a (held q) ≡ true
              → contains a (held c) ≡ true
              → compatible shared q c ≡ true)
            s.pc i q (λ a ne. absurd (ne refl))
            (λ k ne a _ mine has. ground (arith, not_mine k a ne has, w.same_held, mine)))
          (λ j ne.
            update_all
              (λ k c.
                (a : ℕ)
                → j ≢ k
                → contains a (held (s.pc j)) ≡ true
                → contains a (held c) ≡ true
                → compatible shared (s.pc j) c ≡ true)
              s.pc i q (λ a _ has mine. ground (arith, not_mine j a ne has, w.same_held, mine))
              (λ k _ a. inv.apart j k a));
    stable = stable_behind;
    written =
        update_all (λ j c. Written nodes w.old c) s.pc i q w.written
          λ j ne.
            Written-frame s.storage.nodes nodes inv.old w.old (s.pc j)
              (λ a has. w.spared_nodes a (not_mine j a ne has))
              (λ a has. w.spared a (not_mine j a ne has)) (inv.written j);
  }
