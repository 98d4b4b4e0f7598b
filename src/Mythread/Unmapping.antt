-- ===== src/Mythread/Unmapping.antt =====
-- How often the stack is unmapped, and when.
use operation_systems.Base.{ℕ, ◌+◌, ◌≤◌, ◌≡◌, refl, false, some, arith}
use operation_systems.Base.Store.{update}
use operation_systems.Mythread.{
  Flags, working, Client, copying, exchanging, Calls, seen, detach, over, first, free, System, runs,
  calls, copies, Reach, start, later, init, create-start,
}
use operation_systems.Mythread.Invariant.{Inv, Runs-Inv}

Calls-Inv :
    (s : System) (i : ℕ) (f : Flags) (p q : Client)
    → s.clients i ≡ p
    → Calls s.flags p f q
    → Inv s
    → Inv (record s { flags = f; clients = update s.clients i q })
Calls-Inv s i f p q at detach inv = record {
  thread_first = inv.thread_first;
  thread_once = inv.thread_once;
  attached = λ h. ground (arith, h);
  unfinished = inv.unfinished;
  open_clients = λ h j. ground (arith, inv.open_clients h i, inv.open_clients h j, at);
  unjoined = inv.unjoined;
  clients_once = inv.clients_once;
  freeing_first = λ j h. ground (arith, inv.freeing_first j, at);
  alone = λ j k hj hk. ground (arith, inv.alone j k, at);
  running = inv.running;
}
Calls-Inv s i f p q at (seen c) inv = record {
  thread_first = inv.thread_first;
  thread_once = inv.thread_once;
  attached = inv.attached;
  unfinished = inv.unfinished;
  open_clients = λ h j. ground (arith, c, h);
  unjoined = inv.unjoined;
  clients_once = inv.clients_once;
  freeing_first = λ j h. ground (arith, inv.freeing_first j, at);
  alone = λ j k hj hk. ground (arith, inv.alone j k, at);
  running = inv.running;
}
Calls-Inv s i f p q at (over c) inv = record {
  thread_first = inv.thread_first;
  thread_once = inv.thread_once;
  attached = inv.attached;
  unfinished = inv.unfinished;
  open_clients = λ h j. ground (arith, c, h);
  unjoined = inv.unjoined;
  clients_once = inv.clients_once;
  freeing_first = λ j h. ground (arith, inv.freeing_first j, at);
  alone = λ j k hj hk. ground (arith, inv.alone j k, at);
  running = inv.running;
}
Calls-Inv s i f p q at (first u) inv = record {
  thread_first = inv.thread_first;
  thread_once = inv.thread_once;
  attached = inv.attached;
  unfinished = inv.unfinished;
  open_clients = λ h j. ground (arith, inv.open_clients h i, inv.open_clients h j, at);
  unjoined = λ h. ground (arith, h);
  clients_once = inv.clients_once;
  freeing_first = λ j h. (refl, inv.unjoined u);
  alone = λ j k hj hk. ground (arith, inv.freeing_first j, inv.freeing_first k, u, hj, hk);
  running = inv.running;
}
Calls-Inv s i f p q at free inv = record {
  thread_first = inv.thread_first;
  thread_once = inv.thread_once;
  attached = inv.attached;
  unfinished = inv.unfinished;
  open_clients = λ h j. ground (arith, inv.open_clients h i, inv.open_clients h j, at);
  unjoined = λ h. ground (arith, inv.freeing_first i, at, h);
  clients_once = ground (arith, inv.freeing_first i, at);
  freeing_first = λ j h. ground (arith, inv.freeing_first j, inv.alone i j, at, h);
  alone = λ j k hj hk. ground (arith, inv.alone j k, at);
  running = λ h. ground (arith, inv.open_clients h i, at);
}
Calls-Inv s i f p q at _ inv = record {
  thread_first = inv.thread_first;
  thread_once = inv.thread_once;
  attached = inv.attached;
  unfinished = inv.unfinished;
  open_clients = λ h j. ground (arith, inv.open_clients h i, inv.open_clients h j, at);
  unjoined = inv.unjoined;
  clients_once = inv.clients_once;
  freeing_first = λ j h. ground (arith, inv.freeing_first j, at);
  alone = λ j k hj hk. ground (arith, inv.alone j k, at);
  running = inv.running;
}

copies-Inv :
    (s : System) (i : ℕ)
    → s.clients i ≡ copying
    → Inv s
    → Inv (record s {
      clients = update s.clients i exchanging;
      given = update s.given i (some s.flags.retval);
    })
copies-Inv s i at inv = record {
  thread_first = inv.thread_first;
  thread_once = inv.thread_once;
  attached = inv.attached;
  unfinished = inv.unfinished;
  open_clients = λ h j. ground (arith, inv.open_clients h i, inv.open_clients h j, at);
  unjoined = inv.unjoined;
  clients_once = inv.clients_once;
  freeing_first = λ j h. ground (arith, inv.freeing_first j, at);
  alone = λ j k hj hk. ground (arith, inv.alone j k, at);
  running = inv.running;
}

init-Inv : Inv init
init-Inv = record {
  thread_first = λ h. refl;
  thread_once = omega arith;
  attached = λ h. (refl, refl);
  unfinished = λ h. refl;
  open_clients = λ h i. refl;
  unjoined = λ h. refl;
  clients_once = omega arith;
  freeing_first = λ i h. ground arith;
  alone = λ i j h k. ground arith;
  running = λ h. refl;
}

Reach-Inv : {s : System} → Reach s → Inv s
Reach-Inv (start env made) = create-start Inv env made init-Inv
Reach-Inv (later {s = s} r (runs f p q at mv)) = Runs-Inv s f p q at mv (Reach-Inv r)
Reach-Inv (later {s = s} r (calls i f p q at mv)) = Calls-Inv s i f p q at mv (Reach-Inv r)
Reach-Inv (later {s = s} r (copies i at)) = copies-Inv s i at (Reach-Inv r)

-- In every state that is reached, whatever joins and detaches the clients call: the stack is not
-- unmapped while the start routine runs; clients unmap it at most once; and the thread itself does
-- so at most once, and never unless a client has detached it.
pub unmap_cases :
    {s : System}
    → Reach s
    → (s.entry ≡ working → s.flags.by_thread + s.flags.by_clients ≡ 0)
      × (s.flags.by_clients ≤ 1)
      × (s.flags.by_thread ≤ 1)
      × (s.flags.detached ≡ false → s.flags.by_thread ≡ 0)
unmap_cases {s = s} r =
    let inv = Reach-Inv r in
    (
      λ w. ground (arith, w, inv.thread_first, inv.unfinished, inv.running),
      inv.clients_once,
      inv.thread_once,
      λ h. let (_, e) = inv.attached h in e,
    )
