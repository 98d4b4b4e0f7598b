-- ===== src/Locks/Mutex/Wakeup.antt =====
-- A thread that sleeps in `futex_wait` beside a free mutex, while all other threads are idle.
use operation_systems.Base.{ℕ, ◌+◌, ◌≤◌, ◌≡◌, ◌≢◌, refl, sym, ap, subst, arith, zero, suc}
use operation_systems.Base.Store.{update}
use operation_systems.Locks.Mutex.{
  Shared, Pc, idle, calling_wait, sleeping, retrying, entered, exchanged, calling_wake, Move,
  first_try, first_fail, load, mark, wait, retry, read, write, exchange, no_wake, to_wake, System,
  Step, moves, wakes, wakes_none, init, Reach, start, later,
}

-- The steps from one state to another.
pub data Leads (n : ℕ) (s : System) : System → Type 0 where
  here : Leads n s s
  next : {t u : System} → Leads n s t → Step n t u → Leads n s u

Leads-Reach : {n : ℕ} {s t : System} → Reach n s → Leads n s t → Reach n t
Leads-Reach r here = r
Leads-Reach r (next l st) = later (Leads-Reach r l) st

-- Shared memory with the mutex in a state, after a number of increments.
abbrev memory : ℕ → ℕ → Shared
memory state count = record { state = state; counter = count; increments = count }

module _ (n : ℕ) (enough : 3 ≤ n) (from : System) where
  -- A state that `from` leads to, with threads 0, 1 and 2 at `a`, `b` and `c`, and the others idle.
  record At (m : Shared) (a b c : Pc) : Type 0 where
    last : System
    reach : Leads n from last
    shared : last.shared ≡ m
    at0 : last.pc 0 ≡ a
    at1 : last.pc 1 ≡ b
    at2 : last.pc 2 ≡ c
    others : (j : ℕ) → 3 ≤ j → last.pc j ≡ idle

  turn0 : {m w : Shared} {a b c a' : Pc} → At m a b c → Move m a w a' → At w a' b c
  turn0 {w = w} {a = a} {a' = a'} s mv = record {
    last = record { shared = w; pc = update s.last.pc 0 a' };
    reach = next s.reach (
        moves 0 w a a' (omega arith) s.at0
          (subst (λ (v : Shared). Move v a w a') (sym s.shared) mv));
    shared = refl;
    at0 = refl;
    at1 = s.at1;
    at2 = s.at2;
    others = λ j h. ground (arith, s.others j);
  }

  turn1 : {m w : Shared} {a b c b' : Pc} → At m a b c → Move m b w b' → At w a b' c
  turn1 {w = w} {b = b} {b' = b'} s mv = record {
    last = record { shared = w; pc = update s.last.pc 1 b' };
    reach = next s.reach (
        moves 1 w b b' (omega arith) s.at1
          (subst (λ (v : Shared). Move v b w b') (sym s.shared) mv));
    shared = refl;
    at0 = s.at0;
    at1 = refl;
    at2 = s.at2;
    others = λ j h. ground (arith, s.others j);
  }

  turn2 : {m w : Shared} {a b c c' : Pc} → At m a b c → Move m c w c' → At w a b c'
  turn2 {w = w} {c = c} {c' = c'} s mv = record {
    last = record { shared = w; pc = update s.last.pc 2 c' };
    reach = next s.reach (
        moves 2 w c c' (omega arith) s.at2
          (subst (λ (v : Shared). Move v c w c') (sym s.shared) mv));
    shared = refl;
    at0 = s.at0;
    at1 = s.at1;
    at2 = refl;
    others = λ j h. ground (arith, s.others j);
  }

  -- Thread 0 holds the mutex; thread 1 has announced that it will wait, and has not yet done so.
  announced : At (memory 0 0) idle idle idle → At (memory 2 0) entered calling_wait idle
  announced begin =
      let s1 = turn0 begin (first_try refl) in
      let s2 = turn1 s1 (first_fail (omega arith)) in
      let s3 = turn1 s2 load in turn1 s3 (mark refl refl)

  -- A round of the critical section of thread 0, from its start to the exchange of the release.
  round0 :
      {v k : ℕ} {b c : Pc} → At (memory v k) entered b c → At (memory 0 (k + 1)) (exchanged v) b c
  round0 s = turn0 (turn0 (turn0 s read) write) exchange

  wake_none :
      {m : Shared} {b c : Pc} → At m calling_wake b c → b ≢ sleeping → c ≢ sleeping → At m idle b c
  wake_none s not1 not2 = record {
    last = record { shared = s.last.shared; pc = update s.last.pc 0 idle };
    reach = next s.reach (wakes_none 0 (omega arith) s.at0 awake);
    shared = s.shared;
    at0 = refl;
    at1 = s.at1;
    at2 = s.at2;
    others = λ j h. ground (arith, s.others j);
  }
    where
      awake : (j : ℕ) → s.last.pc j ≢ sleeping
      awake zero = ground (arith, s.at0)
      awake (suc zero) = ground (arith, s.at1)
      awake (suc (suc zero)) = ground (arith, s.at2)
      awake (suc (suc (suc j))) = ground (arith, s.others (suc (suc (suc j))))

  -- The mutex goes round once, and thread 2 waits for it too: both sleep.
  both_asleep : At (memory 0 0) idle idle idle → At (memory 2 1) entered sleeping sleeping
  both_asleep begin =
      let s1 = turn0 (round0 (announced begin)) (to_wake refl) in
      let s2 = wake_none s1 (ground arith) (ground arith) in
      let s3 = turn0 s2 (first_try refl) in
      let s4 = turn2 s3 (first_fail (omega arith)) in
      let s5 = turn2 (turn2 s4 load) (mark refl refl) in turn1 (turn2 s5 (wait refl)) (wait refl)

  -- Thread 0 releases the marked mutex, and is about to wake a thread.
  about_to_wake :
      At (memory 2 1) entered sleeping sleeping → At (memory 0 2) calling_wake sleeping sleeping
  about_to_wake s = turn0 (round0 s) (to_wake refl)

  -- Thread 1, woken, takes the mutex and releases it unmarked.
  left_asleep : At (memory 0 2) idle retrying sleeping → At (memory 0 3) idle idle sleeping
  left_asleep s =
      let s1 = turn1 s (retry refl) in
      let s2 = turn1 (turn1 (turn1 s1 read) write) exchange in turn1 s2 (no_wake (omega arith))

-- The state itself.
stay :
    (n : ℕ) (enough : 3 ≤ n) (s : System) (m : Shared) (a b c : Pc)
    → s.shared ≡ m
    → s.pc 0 ≡ a
    → s.pc 1 ≡ b
    → s.pc 2 ≡ c
    → ((j : ℕ) → 3 ≤ j → s.pc j ≡ idle)
    → At n enough s m a b c
stay n enough s m a b c shared at0 at1 at2 others = record {
  last = s;
  reach = here;
  shared = shared;
  at0 = at0;
  at1 = at1;
  at2 = at2;
  others = others;
}

-- With three threads or more: a state is reached in which thread 0 has the mutex, marked, and threads 1
-- and 2 sleep in `futex_wait`. From there the threads come to one in which thread 0 has released it and
-- calls `futex_wake`; it is free, and both sleep still; the call wakes thread 1 and leaves thread 2 asleep; and from
-- there they come to one in which the mutex is free and unmarked, every thread but thread 2 is idle, and
-- thread 2 still sleeps.
pub lost_wakeup :
    (n : ℕ)
    → 3 ≤ n
    → (s : System) × (t : System) × (u : System) × (v : System) × Reach n s
      × ((s.shared.state ≡ 2) × (s.pc 0 ≡ entered) × (s.pc 1 ≡ sleeping) × (s.pc 2 ≡ sleeping))
      × Leads n s t
      × ((t.shared.state ≡ 0) × (t.pc 0 ≡ calling_wake) × (t.pc 1 ≡ sleeping) × (t.pc 2 ≡ sleeping))
      × Step n t u
      × ((u.pc 0 ≡ idle) × (u.pc 1 ≡ retrying) × (u.pc 2 ≡ sleeping))
      × Leads n u v
      × ((v.shared.state ≡ 0) × (v.pc 2 ≡ sleeping) × ((j : ℕ) → j ≢ 2 → v.pc j ≡ idle))
lost_wakeup n enough =
    let asleep =
      both_asleep n enough init
        (stay n enough init (memory 0 0) idle idle idle refl refl refl refl (λ j h. refl)) in
    let s = asleep.last in
    let waking = about_to_wake n enough s (
      stay n enough s (memory 2 1) entered sleeping sleeping asleep.shared asleep.at0 asleep.at1
        asleep.at2 asleep.others) in
    let t = waking.last in
    let u : System = record t { pc = update (update t.pc 1 retrying) 0 idle } in
    let end = left_asleep n enough u (
      stay n enough u (memory 0 2) idle retrying sleeping waking.shared refl refl waking.at2
        (λ j h. ground (arith, waking.others j))) in
    (
      s,
      t,
      u,
      end.last,
      Leads-Reach start asleep.reach,
      (ap (λ (m : Shared). m.state) asleep.shared, asleep.at0, asleep.at1, asleep.at2),
      waking.reach,
      (ap (λ (m : Shared). m.state) waking.shared, waking.at0, waking.at1, waking.at2),
      wakes 0 1 (omega arith) (omega arith) waking.at0 waking.at1,
      (refl, refl, waking.at2),
      end.reach,
      (
        ap (λ (m : Shared). m.state) end.shared,
        end.at2,
        all_idle end.last.pc end.at0 end.at1 end.others,
      ),
    )
  where
    all_idle :
        (pc : ℕ → Pc)
        → pc 0 ≡ idle
        → pc 1 ≡ idle
        → ((j : ℕ) → 3 ≤ j → pc j ≡ idle)
        → (j : ℕ) → j ≢ 2
        → pc j ≡ idle
    all_idle pc at0 at1 others zero h = at0
    all_idle pc at0 at1 others (suc zero) h = at1
    all_idle pc at0 at1 others (suc (suc zero)) h = ground arith
    all_idle pc at0 at1 others (suc (suc (suc j))) h = others (suc (suc (suc j))) (omega arith)
