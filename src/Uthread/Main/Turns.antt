-- ===== src/Uthread/Main/Turns.antt =====
-- The order of the lines that the workers print.
use operation_systems.Base.{
  ℕ, zero, suc, ◌<◌, ◌+◌, ◌*◌, ◌≡◌, ◌≢◌, refl, sym, if_true, if_false, ap, ◌∙◌, true, false, List,
  [], ◌∷◌, some, arith, ltb, length,
}
use operation_systems.Base.Store.{update, contains, distinct}
use operation_systems.Uthread.{
  World, CreateEnv, uthread_create, uthread_run_all, q_pop_ready, q_push,
}
use operation_systems.Uthread.Slices.{addresses, slices, schedule, work}
use operation_systems.Uthread.Run.{Prepared, uthread_create-Prepared, uthread_run_all_lem}
use operation_systems.Uthread.Main.{
  no_threads, create_all, lines, program, ended, run_created, main,
}

abbrev answers : CreateEnv
answers = record { stack_ok = true; context_ok = true }

abbrev all_answer : List ℕ → List (ℕ × CreateEnv)
all_answer [] = []
all_answer (t ∷ ts) = (t, answers) ∷ all_answer ts

abbrev threes : List ℕ → List (ℕ × ℕ)
threes [] = []
threes (t ∷ ts) = (t, 3) ∷ threes ts

-- The threads in the ready queue: the last one that was created first.
abbrev last_first : List ℕ → List ℕ → List ℕ
last_first [] done = done
last_first (t ∷ ts) done = last_first ts (t ∷ done)

-- All lines of a thread, one behind the other, and then those of the next.
abbrev turns : List ℕ → List (ℕ × ℕ)
turns [] = []
turns (t ∷ ts) = (t, 0) ∷ (t, 1) ∷ (t, 2) ∷ turns ts

-- No identifier of the first list is in the second, or stands twice.
abbrev ApartFrom : List ℕ → List ℕ → Type 0
ApartFrom [] done = Unit {0}
ApartFrom (t ∷ ts) done = (contains t done ≡ false) × ApartFrom ts (t ∷ done)

addresses-threes : (ts : List ℕ) → addresses (threes ts) ≡ ts
addresses-threes [] = refl
addresses-threes (t ∷ ts) = ap (λ (l : List ℕ). t ∷ l) (addresses-threes ts)

create_all-Prepared :
    (w : World) (ts done : List ℕ)
    → Prepared w (threes done)
    → ApartFrom ts done
    → (v : World) × (create_all w (all_answer ts) ≡ some v)
      × Prepared v (threes (last_first ts done))
unfolding create_all
create_all-Prepared w [] done p a = (w, refl, p)
create_all-Prepared w (t ∷ ts) done p a =
    let (v, made, q) =
      uthread_create-Prepared w (threes done) t 3 p (ground (arith, a.0, addresses-threes done)) in
    let (u, rest, r) = create_all-Prepared v ts (t ∷ done) q a.1 in
    (u, ground (arith, made, rest), r)

run_Prepared :
    (k : ℕ) (w : World) (q : List (ℕ × ℕ))
    → Prepared w q
    → work q < k
    → (v : World) × (uthread_run_all k w ≡ some (v, schedule q))
unfolding uthread_run_all q_pop_ready
run_Prepared zero w [] p b = absurd (omega arith)
run_Prepared (suc k) w [] p b = (w, ground (arith, p.queue))
run_Prepared k w ((c, n) ∷ q) p b = let got = uthread_run_all_lem k w c n q p b in (got.0, got.1)

-- The lines from iteration `i` on, with `n` iterations to go.
abbrev upto : ℕ → ℕ → ℕ → List (ℕ × ℕ) → List (ℕ × ℕ)
upto i zero id rest = rest
upto i (suc n) id rest = (id, i) ∷ upto (suc i) n id rest

-- The slices of a thread print its lines, and count at no other thread.
lines-slices :
    (n i : ℕ) (seen : ℕ → ℕ) (id : ℕ) (rest : List ℕ)
    → seen id ≡ i
    → i + n ≡ 3
    → (now : ℕ → ℕ) × ((j : ℕ) → j ≢ id → now j ≡ seen j)
      × (lines seen (slices id n rest) ≡ upto i n id (lines now rest))
unfolding lines
lines-slices zero i seen id rest at sum = (
  update seen id (suc (seen id)),
  λ j ne. ground (arith, ne),
  sym (if_false {b = ltb (seen id) 3} _ _ (ground (arith, at, sum))),
)
lines-slices (suc n) i seen id rest at sum =
    let (now, same, eq) =
      lines-slices n (suc i) (update seen id (suc (seen id))) id rest (ground (arith, at))
        (omega (arith, sum)) in
    (
      now,
      λ j ne. same j ne ∙ ground (arith, ne),
      sym (if_true {b = ltb (seen id) 3} _ _ (ground (arith, at, sum))) ∙ ground (arith, eq, at),
    )

lines-schedule :
    (seen : ℕ → ℕ) (ts : List ℕ)
    → distinct ts ≡ true
    → ((j : ℕ) → contains j ts ≡ true → seen j ≡ 0)
    → lines seen (schedule (threes ts)) ≡ turns ts
unfolding lines
lines-schedule seen [] d z = refl
lines-schedule seen (t ∷ ts) d z =
    let (now, same, eq) =
      lines-slices 3 0 seen t (schedule (threes ts)) (ground (arith, z t)) refl in
    eq
    ∙ ap (upto 0 3 t)
        (lines-schedule now ts (ground (arith, d)) (λ j h. ground (arith, same j, z j, d, h)))

ApartFrom-distinct :
    (ts done : List ℕ)
    → ApartFrom ts done
    → distinct done ≡ true
    → distinct (last_first ts done) ≡ true
ApartFrom-distinct [] done a d = d
ApartFrom-distinct (t ∷ ts) done a d = ApartFrom-distinct ts (t ∷ done) a.1 (ground (arith, a.0, d))

work-threes : (ts : List ℕ) → work (threes ts) ≡ 4 * length ts
work-threes [] = refl
work-threes (t ∷ ts) = omega (arith, work-threes ts)

length-last_first : (ts done : List ℕ) → length (last_first ts done) ≡ length ts + length done
length-last_first [] done = omega arith
length-last_first (t ∷ ts) done = length-last_first ts (t ∷ done) ∙ omega arith

-- With enough fuel, the program ends with code 0 whatever threads it creates, if they can be created
-- and are distinct, and the workers do not take turns: it prints all lines of the thread that was
-- created last, then all lines of the one before it, and so on to the first.
workers_in_turn :
    (k : ℕ) (ids : List ℕ)
    → ApartFrom ids []
    → 4 * length ids < k
    → program k (all_answer ids) ≡ some (0, turns (last_first ids []))
unfolding program ended run_created
workers_in_turn k ids apart enough =
    let (w, made, p) = create_all-Prepared no_threads ids [] none_yet apart in
    let (v, ran) =
      run_Prepared k w (threes (last_first ids [])) p
        (omega (arith, work-threes (last_first ids []), length-last_first ids [])) in
    ap (run_created k) made
    ∙ ap ended ran
    ∙ ap (λ (l : List (ℕ × ℕ)). some (0, l))
        (lines-schedule (λ _. 0) (last_first ids []) (ApartFrom-distinct ids [] apart refl)
          (λ j h. refl))
  where
    none_yet : Prepared no_threads []
    none_yet = record {
      queue = refl;
      waiting = tt;
      apart = refl;
      live_stacks = λ j h. ground arith;
    }

-- So `main` prints the lines of its third thread, then of its second, then of its first.
main_in_turn : main answers answers answers ≡ some (0, turns (3 ∷ 2 ∷ 1 ∷ []))
unfolding main
main_in_turn = workers_in_turn 13 (1 ∷ 2 ∷ 3 ∷ []) (refl, (refl, (refl, tt))) (omega arith)

-- If its second thread cannot be created, it prints nothing, and returns 1.
main_failing :
    (env3 : CreateEnv)
    → main answers (record { stack_ok = false; context_ok = true }) env3 ≡ some (1, [])
unfolding main program create_all run_created uthread_create q_push
main_failing env3 = refl
