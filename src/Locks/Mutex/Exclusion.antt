-- ===== src/Locks/Mutex/Exclusion.antt =====
-- Mutual exclusion, and no increment lost.
use operation_systems.Base.{ℕ, ◌≡◌, ◌≢◌, refl, Bool, true, false, arith}
use operation_systems.Base.Store.{update}
use operation_systems.Locks.Mutex.{
  Shared, Pc, entered, got, leaving, Move, first_try, retry, write, exchange, System, Step, moves,
  wakes, wakes_none, Reach, start, later,
}

-- Between the `mutex_trylock` that succeeds and the exchange of `mutex_unlock`.
abbrev pub critical : Pc → Bool
critical entered = true
critical (got _) = true
critical leaving = true
critical _ = false

-- The counter that a thread has read is still the counter.
abbrev pub Current : Shared → Pc → Type 0
Current m (got c) = c ≡ m.counter
Current m _ = Unit

pub record Inv (s : System) : Type 0 where
  pub locked : (i : ℕ) → critical (s.pc i) ≡ true → s.shared.state ≢ 0
  pub alone : (i j : ℕ) → critical (s.pc i) ≡ true → critical (s.pc j) ≡ true → i ≡ j
  pub counted : s.shared.counter ≡ s.shared.increments
  pub current : (i : ℕ) → Current s.shared (s.pc i)

module _ {s : System} (inv : Inv s) (i : ℕ) where
  open inv use {locked, alone, counted, current}

  Move-locked :
      {m : Shared} {p q : Pc}
      → s.pc i ≡ p
      → Move s.shared p m q
      → (j : ℕ) → critical (update s.pc i q j) ≡ true
      → m.state ≢ 0
  Move-locked at (first_try h) j c = λ e. omega arith
  Move-locked at (retry h) j c = λ e. omega arith
  Move-locked at exchange j c = ground (arith, alone i j)
  Move-locked at mv j c = ground (arith, locked i, locked j)

  Move-alone :
      {m : Shared} {p q : Pc}
      → s.pc i ≡ p
      → Move s.shared p m q
      → (j k : ℕ) → critical (update s.pc i q j) ≡ true
      → critical (update s.pc i q k) ≡ true
      → j ≡ k
  Move-alone at (first_try h) j k c d = ground (arith, locked j, locked k, alone j k)
  Move-alone at (retry h) j k c d = ground (arith, locked j, locked k, alone j k)
  Move-alone at mv j k c d = ground (arith, alone j k, alone i k, alone i j)

  Move-counted :
      {m : Shared} {p q : Pc} → s.pc i ≡ p → Move s.shared p m q → m.counter ≡ m.increments
  Move-counted at (first_try h) = counted
  Move-counted at write = ground (arith, current i)
  Move-counted at mv = counted

  Move-Current :
      {m : Shared} {p q : Pc}
      → s.pc i ≡ p
      → Move s.shared p m q
      → (j : ℕ) → Current m (update s.pc i q j)
  Move-Current at (first_try h) j = ground (arith, current j)
  Move-Current at write j = ground (arith, current j, alone i j)
  Move-Current at mv j = ground (arith, current j)

  Move-Inv :
      {m : Shared} {p q : Pc}
      → s.pc i ≡ p
      → Move s.shared p m q
      → Inv (record { shared = m; pc = update s.pc i q })
  Move-Inv at mv = record {
    locked = Move-locked at mv;
    alone = Move-alone at mv;
    counted = Move-counted at mv;
    current = Move-Current at mv;
  }

-- A step keeps the invariant.
pub Step-Inv : {n : ℕ} {s t : System} → Step n s t → Inv s → Inv t
Step-Inv (moves i m p q lt at mv) inv = Move-Inv inv i at mv
Step-Inv {s = s} (wakes i j lt lt' at at') inv = record {
  locked = λ k c. ground (arith, inv.locked k);
  alone = λ k l c d. ground (arith, inv.alone k l);
  counted = inv.counted;
  current = λ k. ground (arith, inv.current k);
}
Step-Inv {s = s} (wakes_none i lt at none_asleep) inv = record {
  locked = λ k c. ground (arith, inv.locked k);
  alone = λ k l c d. ground (arith, inv.alone k l);
  counted = inv.counted;
  current = λ k. ground (arith, inv.current k);
}

pub Reach-Inv : {n : ℕ} {s : System} → Reach n s → Inv s
Reach-Inv start = record {
  locked = λ i c. cc;
  alone = λ i j c d. cc;
  counted = refl;
  current = λ i. tt;
}
Reach-Inv (later r st) = Step-Inv st (Reach-Inv r)

-- Of any number of threads, two are never between a `mutex_lock` that returned and the release.
pub mutual_exclusion :
    {n : ℕ} {s : System}
    → Reach n s
    → (i j : ℕ) → critical (s.pc i) ≡ true
    → critical (s.pc j) ≡ true
    → i ≡ j
mutual_exclusion r = (Reach-Inv r).alone

-- No increment under the mutex is lost: in every state that is reached the counter is the number of
-- increments, and a thread that is in the middle of one has read the counter as it is.
pub no_lost_increment :
    {n : ℕ} {s : System}
    → Reach n s
    → (s.shared.counter ≡ s.shared.increments) × ((i c : ℕ) → s.pc i ≡ got c → c ≡ s.shared.counter)
no_lost_increment {s = s} r =
    let inv = Reach-Inv r in (inv.counted, λ i c at. ground (arith, inv.current i))
