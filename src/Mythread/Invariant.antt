-- ===== src/Mythread/Invariant.antt =====
-- What holds of the flags and of the calls of `munmap` between steps.
use operation_systems.Base.{ℕ, ◌≤◌, ◌≡◌, Bool, true, false, arith}
use operation_systems.Mythread.{
  Flags, Entry, working, storing, looking, unmapping, returning, ended, Client, copying, exchanging,
  freeing, Runs, complete, is_detached, unmap, System,
}

-- The thread has seen that it is detached, and has not called `munmap`.
abbrev pub may_unmap : Entry → Bool
may_unmap looking = true
may_unmap unmapping = true
may_unmap _ = false

abbrev pub before_unmap : Entry → Bool
before_unmap returning = false
before_unmap ended = false
before_unmap _ = true

abbrev pub is_working : Entry → Bool
is_working working = true
is_working storing = true
is_working _ = false

abbrev pub is_freeing : Client → Bool
is_freeing freeing = true
is_freeing _ = false

-- The client has seen `completed`.
abbrev pub past_end : Client → Bool
past_end copying = true
past_end exchanging = true
past_end freeing = true
past_end _ = false

pub record Inv (s : System) : Type 0 where
  pub thread_first : before_unmap s.entry ≡ true → s.flags.by_thread ≡ 0
  pub thread_once : s.flags.by_thread ≤ 1
  pub attached : s.flags.detached ≡ false → (may_unmap s.entry ≡ false) × (s.flags.by_thread ≡ 0)
  pub unfinished : is_working s.entry ≡ true → s.flags.completed ≡ false
  pub open_clients : s.flags.completed ≡ false → (i : ℕ) → past_end (s.clients i) ≡ false
  pub unjoined : s.flags.joined ≡ false → s.flags.by_clients ≡ 0
  pub clients_once : s.flags.by_clients ≤ 1
  pub freeing_first :
      (i : ℕ) → is_freeing (s.clients i) ≡ true → (s.flags.joined ≡ true) × (s.flags.by_clients ≡ 0)
  pub alone : (i j : ℕ) → is_freeing (s.clients i) ≡ true → is_freeing (s.clients j) ≡ true → i ≡ j
  pub running : s.flags.completed ≡ false → s.flags.by_clients ≡ 0

pub Runs-Inv :
    (s : System) (f : Flags) (p q : Entry)
    → s.entry ≡ p
    → Runs s.flags p f q
    → Inv s
    → Inv (record s { flags = f; entry = q })
Runs-Inv s f p q at complete inv = record {
  thread_first = λ h. ground (arith, inv.thread_first, at);
  thread_once = inv.thread_once;
  attached = λ h. ground (arith, inv.attached h, at);
  unfinished = λ h. ground arith;
  open_clients = λ h i. ground arith;
  unjoined = inv.unjoined;
  clients_once = inv.clients_once;
  freeing_first = inv.freeing_first;
  alone = inv.alone;
  running = λ h. ground arith;
}
Runs-Inv s f p q at unmap inv = record {
  thread_first = λ h. ground arith;
  thread_once = ground (arith, inv.thread_first, at);
  attached = λ h. ground (arith, inv.attached h, at);
  unfinished = λ h. ground (arith, inv.unfinished, at);
  open_clients = inv.open_clients;
  unjoined = inv.unjoined;
  clients_once = inv.clients_once;
  freeing_first = inv.freeing_first;
  alone = inv.alone;
  running = inv.running;
}
Runs-Inv s f p q at (is_detached d) inv = record {
  thread_first = λ h. ground (arith, inv.thread_first, at);
  thread_once = inv.thread_once;
  attached = λ h. ground (arith, d, h);
  unfinished = λ h. ground (arith, inv.unfinished, at);
  open_clients = inv.open_clients;
  unjoined = inv.unjoined;
  clients_once = inv.clients_once;
  freeing_first = inv.freeing_first;
  alone = inv.alone;
  running = inv.running;
}
Runs-Inv s f p q at _ inv = record {
  thread_first = λ h. ground (arith, inv.thread_first, at);
  thread_once = inv.thread_once;
  attached = λ h. ground (arith, inv.attached h, at);
  unfinished = λ h. ground (arith, inv.unfinished, at);
  open_clients = inv.open_clients;
  unjoined = inv.unjoined;
  clients_once = inv.clients_once;
  freeing_first = inv.freeing_first;
  alone = inv.alone;
  running = inv.running;
}
