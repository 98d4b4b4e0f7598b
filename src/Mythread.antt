-- ===== src/Mythread.antt =====
-- 1.6/mythread.c and mythread.h: who unmaps the stack of a thread that was made by `clone`.
--
-- One thread behind a `mythread_create` that succeeded, and any number of clients that call
-- `mythread_join` and `mythread_detach` on it. Each access to its flags and each system call is a
-- step, in any order; the accesses are taken to be sequentially consistent.
pub mod Unmapping
pub mod Invariant
pub mod Joining
use operation_systems.Base.{
  ℕ, ◌+◌, ◌≡◌, Bool, true, false, Option, none, some, subst, if◌then◌else◌,
}
use operation_systems.Base.Store.{update}

-- The flags of `mythread_t` and its `retval`, where NULL is 0; besides, what the start routine
-- returned, if it did, and how often `munmap` was called on the stack: by the thread, and by clients.
pub record Flags : Type 0 where
  pub completed : Bool
  pub detached : Bool
  pub joined : Bool
  pub retval : ℕ
  pub result : Option ℕ
  pub by_thread : ℕ
  pub by_clients : ℕ

-- Where the thread stands in `mythread_entry`.
pub data Entry : Type 0 where
  working : Entry  -- in `start_routine`, or before the store of `retval`
  storing : Entry  -- before the store of `completed`
  waking : Entry  -- before `futex_wake`
  checking : Entry  -- before the load of `detached`
  looking : Entry  -- before the load of `joined`
  unmapping : Entry  -- before `munmap`
  returning : Entry
  ended : Entry

-- Where a client stands in `mythread_join` or `mythread_detach`.
pub data Client : Type 0 where
  idle : Client
  looping : Client  -- before the load of `completed` in `mythread_join`
  waiting : Client  -- before `futex_wait`
  sleeping : Client
  copying : Client  -- before the load of `retval`
  detaching : Client  -- behind the store of `detached`
  exchanging : Client  -- before the exchange of `joined`
  freeing : Client  -- before `munmap`

pub data Runs (f : Flags) : Entry → Flags → Entry → Type 0 where
  result : (v : ℕ) → Runs f working (record f { retval = v; result = some v }) storing
  complete : Runs f storing (record f { completed = true }) waking
  wake : Runs f waking f checking
  is_detached : f.detached ≡ true → Runs f checking f looking
  not_detached : f.detached ≡ false → Runs f checking f returning
  was_joined : f.joined ≡ true → Runs f looking f returning
  not_joined : f.joined ≡ false → Runs f looking f unmapping
  unmap : Runs f unmapping (record f { by_thread = f.by_thread + 1 }) returning
  returns : Runs f returning f ended

pub data Calls (f : Flags) : Client → Flags → Client → Type 0 where
  join : f.detached ≡ false → Calls f idle f looping
  refused : f.detached ≡ true → Calls f idle f idle
  seen : f.completed ≡ true → Calls f looping f copying
  unseen : f.completed ≡ false → Calls f looping f waiting
  sleep : f.completed ≡ false → Calls f waiting f sleeping
  no_sleep : f.completed ≡ true → Calls f waiting f looping
  awake : Calls f sleeping f looping
  detach : Calls f idle (record f { detached = true }) detaching
  over : f.completed ≡ true → Calls f detaching f exchanging
  not_over : f.completed ≡ false → Calls f detaching f idle
  first : f.joined ≡ false → Calls f exchanging (record f { joined = true }) freeing
  not_first : f.joined ≡ true → Calls f exchanging f idle
  free : Calls f freeing (record f { by_clients = f.by_clients + 1 }) idle

-- `given` is what a client's last `mythread_join` stored through its `retval`, or would have stored.
pub record System : Type 0 where
  pub flags : Flags
  pub entry : Entry
  pub clients : ℕ → Client
  pub given : ℕ → Option ℕ

pub data Step (s : System) : System → Type 0 where
  runs :
      (f : Flags) (p q : Entry)
      → s.entry ≡ p
      → Runs s.flags p f q
      → Step s (record s { flags = f; entry = q })
  calls :
      (i : ℕ) (f : Flags) (p q : Client)
      → s.clients i ≡ p
      → Calls s.flags p f q
      → Step s (record s { flags = f; clients = update s.clients i q })
  copies :
      (i : ℕ)
      → s.clients i ≡ copying
      → Step s (record s {
        clients = update s.clients i exchanging;
        given = update s.given i (some s.flags.retval);
      })

-- Behind `mythread_create`.
abbrev pub init : System
init = record {
  flags = record {
    completed = false;
    detached = false;
    joined = false;
    retval = 0;
    result = none;
    by_thread = 0;
    by_clients = 0;
  };
  entry = working;
  clients = λ _. idle;
  given = λ _. none;
}

-- Whether the arguments are there, and `mmap` and `clone` succeed.
pub record CreateEnv : Type 0 where
  pub thread_given : Bool
  pub routine_given : Bool
  pub mmap_ok : Bool
  pub clone_ok : Bool

-- The thread runs; or the call returned -1, and it had mapped and unmapped a stack so often.
pub data Created : Type 0 where
  started : System → Created
  failed : ℕ → ℕ → Created

unfoldable pub mythread_create : CreateEnv → Created
mythread_create env =
    if env.thread_given
    then (if env.routine_given
        then (if env.mmap_ok
            then (if env.clone_ok then started init else failed 1 1)
            else failed 0 0)
        else failed 0 0)
    else failed 0 0

pub data Reach : System → Type 0 where
  start : {s : System} (env : CreateEnv) → mythread_create env ≡ started s → Reach s
  later : {s t : System} → Reach s → Step s t → Reach t

-- What holds of every thread that a call starts.
abbrev Starts : (System → Type 0) → Created → Type 0
Starts P (started s) = P s
Starts P (failed mapped unmapped) = Unit {0}

pub create-start :
    (P : System → Type 0) {s : System} (env : CreateEnv)
    → mythread_create env ≡ started s
    → P init
    → P s
unfolding mythread_create
create-start P env made p = subst (Starts P) made (
    if-Starts env.thread_given _ _
      (if-Starts env.routine_given _ _
        (if-Starts env.mmap_ok _ _ (if-Starts env.clone_ok _ _ p tt) tt) tt)
      tt)
  where
    if-Starts :
        (test : Bool) (c d : Created) → Starts P c → Starts P d → Starts P (if test then c else d)
    if-Starts true c d pc pd = pc
    if-Starts false c d pc pd = pd
