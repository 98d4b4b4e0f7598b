-- ===== src/Locks/Race/Ending.antt =====
-- A run in which an increment is lost.
use operation_systems.Base.{
  ℕ, zero, suc, ◌+◌, ◌*◌, ◌-◌, ◌<◌, ◌≤◌, ◌≡◌, ◌≢◌, refl, sym, ◌∙◌, inl, inr, false, arith, ◌==◌,
  Bool-cases,
}
use operation_systems.Base.Store.{update, update_ne}
use operation_systems.Base.Totals.{total-update, total_all}
use operation_systems.Locks.Race.{
  Pc, working, loaded, finished, Move, finish, load, store, System, moves, init, Reach, start,
  later, prints_ok,
}
use operation_systems.Locks.Race.Losing.{stores, Inv, Move-Inv}

-- One thread more has finished.
still_over :
    (t u : System) (k : ℕ)
    → u.pc k ≡ finished
    → ((j : ℕ) → j ≢ k → u.pc j ≡ t.pc j)
    → ((i : ℕ) → i < k → t.pc i ≡ finished)
    → (i : ℕ) → i < suc k
    → u.pc i ≡ finished
still_over t u k last same over i h = elim (Bool-cases (i == k)) [
  | inl e ↦ ground (arith, last, e)
  | inr ne ↦ same i (λ e. ground (arith, ne, e)) ∙ over i (ground (arith, ne, h))
]

module _ (n iters : ℕ) where
  -- A state that is reached, with an increment lost.
  abbrev Lost : System → Type 0
  Lost s = Reach n iters s × Inv n iters 1 s

  step-Lost :
      (s : System) {c : ℕ} {p q : Pc} (i : ℕ)
      → i < n
      → s.pc i ≡ p
      → Move iters s.counter p c q
      → Lost s
      → Lost (record { counter = c; pc = update s.pc i q })
  step-Lost s {c} {p} {q} i below at mv (r, inv) =
      (later r (moves i c p q below at mv), Move-Inv i below at mv inv)

  -- The state in which thread `i` has finished, and the others stand where they stood.
  abbrev Ends : System → ℕ → Type 0
  Ends s i = (t : System) × Lost t × (t.pc i ≡ finished) × ((j : ℕ) → j ≢ i → t.pc j ≡ s.pc j)

  -- What ends a later state, which differs in thread `i` alone, ends this one.
  Ends-before :
      (s : System) (i c : ℕ) (q : Pc)
      → Ends (record { counter = c; pc = update s.pc i q }) i
      → Ends s i
  Ends-before s i c q (t, lost, over, same) =
      (t, lost, over, λ j ne. same j ne ∙ update_ne s.pc i q j (λ e. ne (sym e)))

  ends :
      (rounds : ℕ) (s : System) (i d : ℕ)
      → i < n
      → s.pc i ≡ working d
      → d + rounds ≡ iters
      → Lost s
      → Ends s i
  ends zero s i d below at left lost = (
    _,
    step-Lost s i below at (finish (omega arith)) lost,
    ground arith,
    λ j ne. ground (arith, ne),
  )
  ends (suc rounds) s i d below at left lost =
      let s1 : System = record { counter = s.counter; pc = update s.pc i (loaded d s.counter) } in
      let s2 : System = record { counter = s.counter + 1; pc = update s1.pc i (working (d + 1)) } in
      let lost1 : Lost s1 = step-Lost s i below at (load (omega arith)) lost in
      let lost2 : Lost s2 = step-Lost s1 i below (ground arith) store lost1 in
      Ends-before s i s.counter (loaded d s.counter) (
        Ends-before s1 i (s.counter + 1) (working (d + 1))
          (ends rounds s2 i (d + 1) below (ground arith) (omega arith) lost2))

  ends_from : (s : System) (i : ℕ) (p : Pc) → i < n → s.pc i ≡ p → Lost s → Ends s i
  ends_from s i (working d) below at lost =
      ends (iters - d) s i d below at (ground (arith, lost.1.sound i, at)) lost
  ends_from s i (loaded d c) below at lost =
      let s1 : System = record { counter = c + 1; pc = update s.pc i (working (d + 1)) } in
      Ends-before s i (c + 1) (working (d + 1)) (
        ends (iters - (d + 1)) s1 i (d + 1) below (ground arith)
          (ground (arith, lost.1.sound i, at)) (step-Lost s i below at store lost))
  ends_from s i finished below at lost = (s, lost, at, λ j ne. refl)

  -- The first `k` threads finish, one after another.
  all_end :
      (s : System)
      → Lost s
      → (k : ℕ) → k ≤ n
      → (t : System) × Lost t × ((i : ℕ) → i < k → t.pc i ≡ finished)
  all_end s lost zero le = (s, lost, λ i h. absurd (omega arith))
  all_end s lost (suc k) le =
      let (t, lost1, over) = all_end s lost k (omega arith) in
      let (u, lost2, last, same) = ends_from t k (t.pc k) (omega arith) refl lost1 in
      (u, lost2, still_over t u k last same over)

  -- Threads 0 and 1 both load 0.
  abbrev pc2 : ℕ → Pc
  pc2 = update (update init.pc 0 (loaded 0 0)) 1 (loaded 0 0)

  -- Both store 1.
  abbrev pc4 : ℕ → Pc
  pc4 = update (update pc2 0 (working 1)) 1 (working 1)

  both_store : 2 ≤ n → 1 ≤ iters → Lost (record { counter = 1; pc = pc4 })
  both_store two one = (
    later
        (later
          (later
            (later start
              (moves 0 0 (working 0) (loaded 0 0) (omega arith) refl (load (omega arith))))
            (moves 1 0 (working 0) (loaded 0 0) (omega arith) refl (load (omega arith))))
          (moves 0 1 (loaded 0 0) (working 1) (omega arith) refl store))
        (moves 1 1 (loaded 0 0) (working 1) (omega arith) refl store),
    record {
      counted = ground (
        arith,
        total-update (stores iters) n init.pc 0 (loaded 0 0) (omega arith),
        total-update (stores iters) n (update init.pc 0 (loaded 0 0)) 1 (loaded 0 0) (omega arith),
        total-update (stores iters) n pc2 0 (working 1) (omega arith),
        total-update (stores iters) n (update pc2 0 (working 1)) 1 (working 1) (omega arith),
      );
      sound = λ i. ground arith;
    },
  )

-- With two threads or more and an iteration or more, a run of `worker_race` ends, with all threads
-- finished, at a counter below the number that `run_test` expects, and it prints RACE.
pub race_loses :
    (n iters : ℕ)
    → 2 ≤ n
    → 1 ≤ iters
    → (s : System) × Reach n iters s
      × ((i : ℕ) → i < n → s.pc i ≡ finished)
      × (s.counter < n * iters)
      × (prints_ok n iters s.counter ≡ false)
race_loses n iters two one =
    let (s, lost, over) = all_end n iters _ (both_store n iters two one) n (omega arith) in
    let all = total_all (stores iters) n iters s.pc (λ i h. ground (arith, over i h)) in
    let less : s.counter < n * iters = omega (arith, lost.1.counted, all) in
    (s, lost.0, over, less, ground (arith, less))
