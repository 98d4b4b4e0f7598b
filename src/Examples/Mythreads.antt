-- ===== src/Examples/Mythreads.antt =====
-- Runs in which the stack is unmapped beneath the thread, and in which it is unmapped twice.
use operation_systems.Base.{◌+◌, ◌≤◌, ◌≡◌, refl, true, false, none, some}
use operation_systems.Base.Store.{update}
use operation_systems.Mythread.{
  Flags, working, storing, copying, result, copies, waking, checking, looking, unmapping, returning,
  idle, looping, detaching, exchanging, freeing, complete, wake, is_detached, not_joined, unmap,
  join, seen, detach, over, first, free, System, runs, calls, init, Reach, start, later, CreateEnv,
  mythread_create, failed,
}
use operation_systems.Mythread.Unmapping.{unmap_cases}
use operation_systems.Mythread.Joining.{join_gives_result}

abbrev all_well : CreateEnv
all_well = record { thread_given = true; routine_given = true; mmap_ok = true; clone_ok = true }

no_stack_left : mythread_create (record all_well { clone_ok = false }) ≡ failed 1 1
unfolding mythread_create
no_stack_left = refl

created : Reach init
unfolding mythread_create
created = start all_well refl

-- The start routine returned 9.
abbrev worked : Flags
worked = record init.flags { retval = 9; result = some 9 }

-- Client 0 joins while the thread works, and the thread stores `completed`.
abbrev woken : System
woken = record {
  flags = record worked { completed = true };
  entry = waking;
  clients = update (λ _. idle) 0 looping;
  given = λ _. none;
}

reach_woken : Reach woken
reach_woken =
    later
      (later (later created (calls 0 init.flags idle looping refl (join refl)))
        (runs worked working storing refl (result 9)))
      (runs woken.flags storing waking refl complete)

-- The client has read the result.
abbrev joined : System
joined = record woken {
  clients = update (update woken.clients 0 copying) 0 exchanging;
  given = update woken.given 0 (some 9);
}

reach_joined : Reach joined
reach_joined =
    later (later reach_woken (calls 0 woken.flags looping copying refl (seen refl))) (copies 0 refl)

-- The client unmaps the stack, and the thread has yet to call `futex_wake` on it.
unmapped_beneath : (s : System) × Reach s × (s.entry ≡ waking) × (s.flags.by_clients ≡ 1)
unmapped_beneath = (
  _,
  later
      (later reach_joined
        (calls 0 (record woken.flags { joined = true }) exchanging freeing refl (first refl)))
      (calls 0 (record woken.flags { joined = true; by_clients = 1 }) freeing idle refl free),
  refl,
  refl,
)

-- The thread is done, client 0 detaches it, and the thread finds that it is detached and not joined.
abbrev both : Flags
both = record worked { completed = true; detached = true }

unmapped_twice : (s : System) × Reach s × (s.flags.by_thread ≡ 1) × (s.flags.by_clients ≡ 1)
unmapped_twice =
    let ended : Flags = record worked { completed = true } in
    let s0 = later created (runs worked working storing refl (result 9)) in
    let s1 = later s0 (runs ended storing waking refl complete) in
    let s2 = later s1 (runs ended waking checking refl wake) in
    let s3 = later s2 (calls 0 both idle detaching refl detach) in
    let s4 = later s3 (runs both checking looking refl (is_detached refl)) in
    let s5 = later s4 (calls 0 both detaching exchanging refl (over refl)) in
    let s6 = later s5 (runs both looking unmapping refl (not_joined refl)) in
    let s7 =
      later s6 (calls 0 (record both { joined = true }) exchanging freeing refl (first refl)) in
    let s8 =
      later s7
        (runs (record both { joined = true; by_thread = 1 }) unmapping returning refl unmap) in
    (
      _,
      later s8 (
          calls 0 (record both { joined = true; by_thread = 1; by_clients = 1 }) freeing idle refl
            free),
      refl,
      refl,
    )

join_gives_result_example : (joined.flags.completed ≡ true) × (joined.flags.result ≡ some 9)
join_gives_result_example = join_gives_result 0 9 reach_joined refl

unmap_cases_example :
    (woken.entry ≡ working → woken.flags.by_thread + woken.flags.by_clients ≡ 0)
    × (woken.flags.by_clients ≤ 1)
    × (woken.flags.by_thread ≤ 1)
    × (woken.flags.detached ≡ false → woken.flags.by_thread ≡ 0)
unmap_cases_example = unmap_cases reach_woken
