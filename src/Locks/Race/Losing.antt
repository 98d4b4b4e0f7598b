-- ===== src/Locks/Race/Losing.antt =====
-- Without a lock the counter is never too large, and can be too small.
use operation_systems.Base.{ℕ, ◌+◌, ◌*◌, ◌<◌, ◌≤◌, ◌≡◌, refl, sym, arith, subst}
use operation_systems.Base.Store.{update, update_all}
use operation_systems.Base.Totals.{total, total-update, total_all}
use operation_systems.Locks.Race.{
  Pc, working, loaded, finished, Move, finish, load, store, System, Step, moves, init, Reach, start,
  later,
}

-- The stores that a thread has made.
abbrev pub stores : ℕ → Pc → ℕ
stores iters (working d) = d
stores iters (loaded d c) = d
stores iters finished = iters

-- Iterations are counted, and a value that was loaded is at least `lost` behind the stores.
abbrev pub Sound : ℕ → ℕ → ℕ → Pc → Type 0
Sound iters lost made (working d) = d ≤ iters
Sound iters lost made (loaded d c) = (d < iters) × (c + lost ≤ made)
Sound iters lost made finished = Unit {0}

Sound-mono : (iters lost a b : ℕ) (p : Pc) → a ≤ b → Sound iters lost a p → Sound iters lost b p
Sound-mono iters lost a b (working d) le w = w
Sound-mono iters lost a b (loaded d c) le w = (w.0, omega (arith, w.1))
Sound-mono iters lost a b finished le w = tt

-- At least `lost` of the stores were lost.
pub record Inv (n iters lost : ℕ) (s : System) : Type 0 where
  pub counted : s.counter + lost ≤ total (stores iters) n s.pc
  pub sound : (i : ℕ) → Sound iters lost (total (stores iters) n s.pc) (s.pc i)

-- A thread that moves, where the stores are `made` behind it.
moved-Inv :
    {n iters lost : ℕ} {s : System} (i c : ℕ) (q : Pc)
    → Inv n iters lost s
    → (made : ℕ) → total (stores iters) n (update s.pc i q) ≡ made
    → total (stores iters) n s.pc ≤ made
    → c + lost ≤ made
    → Sound iters lost made q
    → Inv n iters lost (record { counter = c; pc = update s.pc i q })
moved-Inv {n} {iters} {lost} {s} i c q inv made is more fits sound = record {
  counted = omega (arith, is, fits);
  sound =
      update_all (λ _ p. Sound iters lost (total (stores iters) n (update s.pc i q)) p) s.pc i q
        (subst (λ (m : ℕ). Sound iters lost m q) (sym is) sound)
        (λ j _. Sound-mono iters lost _ _ (s.pc j) (omega (arith, is, more)) (inv.sound j));
}

pub Move-Inv :
    {n iters lost : ℕ} {s : System} {c : ℕ} {p q : Pc} (i : ℕ)
    → i < n
    → s.pc i ≡ p
    → Move iters s.counter p c q
    → Inv n iters lost s
    → Inv n iters lost (record { counter = c; pc = update s.pc i q })
Move-Inv {n} {iters} {lost} {s} i below at (finish {d} over) inv =
    moved-Inv i s.counter finished inv (total (stores iters) n s.pc)
      (ground (arith, total-update (stores iters) n s.pc i finished below, inv.sound i, at, over))
      (omega arith) inv.counted tt
Move-Inv {n} {iters} {lost} {s} i below at (load {d} less) inv =
    moved-Inv i s.counter (loaded d s.counter) inv (total (stores iters) n s.pc)
      (ground (arith, total-update (stores iters) n s.pc i (loaded d s.counter) below, at))
      (omega arith) inv.counted (less, inv.counted)
Move-Inv {n} {iters} {lost} {s} i below at (store {d} {c}) inv =
    moved-Inv i (c + 1) (working (d + 1)) inv (total (stores iters) n s.pc + 1)
      (ground (arith, total-update (stores iters) n s.pc i (working (d + 1)) below, at))
      (omega arith) (ground (arith, inv.sound i, at)) (ground (arith, inv.sound i, at))

Step-Inv :
    {n iters lost : ℕ} {s t : System} → Step n iters s t → Inv n iters lost s → Inv n iters lost t
Step-Inv (moves i c p q below at mv) inv = Move-Inv i below at mv inv

Reach-Inv : {n iters : ℕ} {s : System} → Reach n iters s → Inv n iters 0 s
Reach-Inv {n} {iters} start = record {
  counted = omega (arith, total_all (stores iters) n 0 init.pc (λ i h. refl));
  sound = λ i. omega arith;
}
Reach-Inv (later r st) = Step-Inv st (Reach-Inv r)

-- In every state that is reached with all threads finished, the counter is at most the number that
-- `run_test` expects.
pub race_bounded :
    {n iters : ℕ} {s : System}
    → Reach n iters s
    → ((i : ℕ) → i < n → s.pc i ≡ finished)
    → s.counter ≤ n * iters
race_bounded {n} {iters} {s} r over = omega (
  arith,
  (Reach-Inv r).counted,
  total_all (stores iters) n iters s.pc (λ i h. ground (arith, over i h)),
)
