-- ===== src/Mythread/Joining.antt =====
-- What `mythread_join` gives to its callers.
use operation_systems.Base.{ℕ, ◌≡◌, refl, Bool, true, false, some, arith}
use operation_systems.Base.Store.{update}
use operation_systems.Mythread.{
  Flags, Entry, working, Client, copying, exchanging, Runs, result, complete, Calls, seen, System,
  runs, calls, copies, Reach, start, later, init, create-start,
}

abbrev in_routine : Entry → Bool
in_routine working = true
in_routine _ = false

abbrev is_copying : Client → Bool
is_copying copying = true
is_copying _ = false

record Gives (s : System) : Type 0 where
  stored : in_routine s.entry ≡ false → s.flags.result ≡ some s.flags.retval
  over : s.flags.completed ≡ true → in_routine s.entry ≡ false
  copied_late : (i : ℕ) → is_copying (s.clients i) ≡ true → s.flags.completed ≡ true
  handed : (i v : ℕ) → s.given i ≡ some v → (s.flags.completed ≡ true) × (s.flags.result ≡ some v)

Runs-Gives :
    (s : System) (f : Flags) (p q : Entry)
    → s.entry ≡ p
    → Runs s.flags p f q
    → Gives s
    → Gives (record s { flags = f; entry = q })
Runs-Gives s f p q at (result v) g = record {
  stored = λ h. refl;
  over = λ h. refl;
  copied_late = λ i h. ground (arith, g.copied_late i h);
  handed = λ i v h. ground (arith, g.handed i v h, g.over, at);
}
Runs-Gives s f p q at complete g = record {
  stored = λ h. ground (arith, g.stored, at);
  over = λ h. refl;
  copied_late = λ i h. refl;
  handed = λ i v h. ground (arith, g.handed i v h);
}
Runs-Gives s f p q at _ g = record {
  stored = λ h. ground (arith, g.stored, at, h);
  over = λ h. ground (arith, g.over, at, h);
  copied_late = g.copied_late;
  handed = g.handed;
}

Calls-Gives :
    (s : System) (i : ℕ) (f : Flags) (p q : Client)
    → s.clients i ≡ p
    → Calls s.flags p f q
    → Gives s
    → Gives (record s { flags = f; clients = update s.clients i q })
Calls-Gives s i f p q at (seen c) g = record {
  stored = g.stored;
  over = g.over;
  copied_late = λ j h. c;
  handed = g.handed;
}
Calls-Gives s i f p q at _ g = record {
  stored = g.stored;
  over = g.over;
  copied_late = λ j h. ground (arith, g.copied_late j, h);
  handed = g.handed;
}

copies-Gives :
    (s : System) (i : ℕ)
    → s.clients i ≡ copying
    → Gives s
    → Gives (record s {
      clients = update s.clients i exchanging;
      given = update s.given i (some s.flags.retval);
    })
copies-Gives s i at g = record {
  stored = g.stored;
  over = g.over;
  copied_late = λ j h. ground (arith, g.copied_late j, h);
  handed = λ j v h. ground (arith, g.handed j v, g.copied_late i, g.over, g.stored, at, h);
}

init-Gives : Gives init
init-Gives = record {
  stored = λ h. ground (arith, h);
  over = λ h. ground (arith, h);
  copied_late = λ i h. ground (arith, h);
  handed = λ i v h. ground (arith, h);
}

Reach-Gives : {s : System} → Reach s → Gives s
Reach-Gives (start env made) = create-start Gives env made init-Gives
Reach-Gives (later {s = s} r (runs f p q at mv)) = Runs-Gives s f p q at mv (Reach-Gives r)
Reach-Gives (later {s = s} r (calls i f p q at mv)) = Calls-Gives s i f p q at mv (Reach-Gives r)
Reach-Gives (later {s = s} r (copies i at)) = copies-Gives s i at (Reach-Gives r)

-- Whatever joins and detaches the clients call, and in whatever order: when a `mythread_join` has given
-- a value, the thread has completed, and the value is the one that its start routine returned.
pub join_gives_result :
    {s : System} (i v : ℕ)
    → Reach s
    → s.given i ≡ some v
    → (s.flags.completed ≡ true) × (s.flags.result ≡ some v)
join_gives_result i v r h = (Reach-Gives r).handed i v h
