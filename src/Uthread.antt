-- ===== src/Uthread.antt =====
-- 1.7/uthread.c and uthread.h: threads of user space, switched by `swapcontext`.
--
-- A thread is known by the address of its `uthread_t`. The ready queue is the list of the addresses
-- on its links; a push of a thread that is in the queue would cut the links behind it, and is a fault
-- here. What a start routine does is how often it calls `uthread_yield` before it returns.
pub mod Run
pub mod Slices
pub mod Main
use operation_systems.Base.{
  ℕ, zero, suc, Bool, true, false, List, [], ◌∷◌, Option, none, some, ◌++◌, if◌then◌else◌,
}
use operation_systems.Base.Store.{update, contains}

-- `uthread_state_t`
pub data State : Type 0 where
  ready running finished : State

-- The member `stack`: NULL, a block that is live, or one that was freed.
pub data Stack : Type 0 where
  null live freed : Stack

-- `uthread_t`; `left` is how many calls of `uthread_yield` its start routine has before it.
pub record Thread : Type 0 where
  pub state : State
  pub stack : Stack
  pub left : ℕ

-- The variables `current` and `readyq`, and the threads.
pub record World : Type 0 where
  pub current : Option ℕ
  pub readyq : List ℕ
  pub threads : ℕ → Thread

abbrev pub set_state : World → ℕ → State → World
set_state w t s = record w { threads = update w.threads t (record (w.threads t) { state = s }) }

abbrev pub is_ready : State → Bool
is_ready ready = true
is_ready running = false
is_ready finished = false

abbrev pub is_running : State → Bool
is_running ready = false
is_running running = true
is_running finished = false

unfoldable pub q_push : World → ℕ → Option World
q_push w t = if contains t w.readyq then none else some (record w { readyq = t ∷ w.readyq })

abbrev pub skip : ℕ → Option (ℕ × List ℕ) → Option (ℕ × List ℕ)
skip a none = none
skip a (some (t, q)) = some (t, a ∷ q)

-- The first thread of the queue that is ready, and the queue without it.
unfoldable pub q_pop_ready : (ℕ → Thread) → List ℕ → Option (ℕ × List ℕ)
q_pop_ready th [] = none
q_pop_ready th (a ∷ q) =
    let rest = q_pop_ready th q in if is_ready (th a).state then some (a, q) else skip a rest

-- What `malloc` and `getcontext` answer.
pub record CreateEnv : Type 0 where
  pub stack_ok : Bool
  pub context_ok : Bool

-- The result code 0 or -1, with the world behind the call; a NULL argument is `none`.
pub data Created : Type 0 where
  created not_created : World → Created
  broken_queue : Created

abbrev pub created_as : Option World → Created
created_as none = broken_queue
created_as (some w) = created w

-- The thread behind the `memset`, with its stack.
abbrev pub zeroed : World → ℕ → Stack → ℕ → World
zeroed w t s left = record w {
  threads = update w.threads t (record { state = ready; stack = s; left = left });
}

unfoldable pub uthread_create : CreateEnv → World → Option ℕ → Option ℕ → Created
unfolding q_push
uthread_create env w none routine = not_created w
uthread_create env w (some t) none = not_created w
uthread_create env w (some t) (some left) =
    if env.stack_ok
    then (if env.context_ok
        then created_as (q_push (zeroed w t live left) t)
        else not_created (zeroed w t freed 0))
    else not_created (zeroed w t null 0)

-- Where a call of `uthread_yield` goes on: in the thread that is now current, in `main_ctx`, or
-- behind the call itself.
pub data Switch : Type 0 where
  to_thread to_main returns : World → Switch
  broken : Switch

abbrev pub resume : World → ℕ → World
resume w t = set_state (record w { current = some t }) t running

-- The choice of the next thread, with `prev` as the thread that yields.
unfoldable pub pick : Option ℕ → World → Switch
unfolding q_pop_ready
pick prev w = elim (q_pop_ready w.threads w.readyq) [
  | none ↦ elim prev [ none ↦ returns w | some p ↦ to_main w ]
  | some (t, q) ↦ to_thread (resume (record w { readyq = q }) t)
]

abbrev pub pick_from : Option ℕ → Option World → Switch
pick_from prev none = broken
pick_from prev (some w) = pick prev w

abbrev pub requeue : World → ℕ → Option World
requeue w p =
    let pushed = q_push (set_state w p ready) p in
    if is_running (w.threads p).state then pushed else some w

abbrev pub yield_from : Option ℕ → World → Switch
yield_from none w = pick none w
yield_from (some p) w = pick_from (some p) (requeue w p)

unfoldable pub uthread_yield : World → Switch
unfolding q_push pick
uthread_yield w = yield_from w.current w

abbrev pub uthread_run : World → ℕ → World
uthread_run w t = resume w t

-- What the thread that was switched to does until it switches: its routine calls `uthread_yield`, or
-- returns to `uthread_entry`, which ends the thread.
abbrev pub slice_of : World → ℕ → ℕ → Switch
slice_of w c zero = uthread_yield (set_state w c finished)
slice_of w c (suc n) =
    uthread_yield (record w { threads = update w.threads c (record (w.threads c) { left = n }) })

abbrev pub slice : World → ℕ → Switch
slice w c = slice_of w c (w.threads c).left

abbrev log : ℕ → Option (World × List ℕ) → Option (World × List ℕ)
log c none = none
log c (some (w, trace)) = some (w, c ∷ trace)

-- From a switch to a thread until `main_ctx` is switched to, with the thread of each slice. It is
-- none if the fuel does not last, or the ready queue breaks.
unfoldable pub run : ℕ → World → Option (World × List ℕ)
run zero w = none
run (suc k) w = elim w.current [
  | none ↦ none
  | some c ↦ elim (slice w c) [
    | to_thread v ↦ log c (run k v)
    | to_main v ↦ some (v, c ∷ [])
    | returns v ↦ none
    | broken ↦ none
  ]
]

-- `free(t->stack)`, which is a fault for a block that was freed.
abbrev pub free_stack : World → ℕ → Stack → Option World
free_stack w t null = some w
free_stack w t live =
    some (record w { threads = update w.threads t (record (w.threads t) { stack = null }) })
free_stack w t freed = none

-- What `uthread_run_all` does with the thread that it had switched to.
abbrev pub reap : World → ℕ → State → Option World
reap w t ready = q_push w t
reap w t running = some w
reap w t finished = free_stack w t (w.threads t).stack

abbrev pub and_then : List ℕ → Option (World × List ℕ) → Option (World × List ℕ)
and_then trace none = none
and_then trace (some (w, more)) = some (w, trace ++ more)

unfoldable pub uthread_run_all : ℕ → World → Option (World × List ℕ)
unfolding q_pop_ready run q_push
uthread_run_all zero w = none
uthread_run_all (suc k) w = elim (q_pop_ready w.threads w.readyq) [
  | none ↦ some (w, [])
  | some (t, q) ↦ elim (run k (resume (record w { readyq = q }) t)) [
    | none ↦ none
    | some (v, trace) ↦ elim (reap v t (v.threads t).state) [
      | none ↦ none
      | some u ↦ and_then trace (uthread_run_all k u)
    ]
  ]
]
