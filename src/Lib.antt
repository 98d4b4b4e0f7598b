-- ===== src/Lib.antt =====
-- A verification library for the repository's programs: a caching HTTP proxy (cache, proxy,
-- threadpool, logger, main.c) and exercises on threads and locks (1.6, 1.7, 2.3, 2.4).
--
-- The proxy. A client is accepted by proxy_run and handled by handle_client in a worker of the
-- thread pool: the handler reads the headers, takes the request apart, and asks the cache for the
-- entry of its key. The first client of a key is the writer of the entry: it fetches the response
-- from the origin and appends it, chunk by chunk. The others are readers, who follow the entry while
-- it grows.
--
--   Cache/Entry (cache/cache.c, cache/cache.h): cache_entry_t with its block of memory, and
--     cache_entry_create, cache_append_data, cache_mark_complete, cache_mark_failed. Append has what
--     an append does, Change what no call of a holder undoes.
--   Cache/Table: the chains of cache_table_t over a heap of live entries; cache_table_init,
--     cache_start_or_join, cache_release, cache_table_destroy. Primitives, Find and Destroy have the
--     lemmas on the links, the walk along a chain, and the last call.
--   Cache/Clients: the calls of any number of clients, one after another, as a step relation with
--     the references that they hold; Invariant, Steps and Safety. Logging has the log line of
--     cache_release behind the unlock.
--   Cache/Spec: a map from keys to responses with their holders, its operations, and the map that a
--     table with its clients stands for. Calls has the calls of clients as calls on the map, Views
--     what the walks along the chains show, Showing what a change of the heap or of a chain does to
--     it, Refines the operations of the table as those of the map.
--   Proxy/Search, Proxy/Send, Proxy/Request, Proxy/Stream, Proxy/Handler (proxy/proxy.c):
--     memmem_simple and find_host_header, send_all, the parts of handle_client in order
--     (parse_request, make_key, read_entry, write_entry, relay), and stream_from_cache.
--   Proxy/Delivery: the calls of a writer's handler, run on its entry with the answers of the cache,
--     and the handlers of other clients, who look at the entry meanwhile; Filling, Relaying and
--     Readers.
--   Proxy/Together: any number of handlers on one table, their effects interleaved; Calls has their
--     calls on the table, Discipline the protocol that each keeps, Counted has them as clients of
--     Cache/Clients, Ending what they rely on and what they leave, Refines what they do to the map
--     of Cache/Spec.
--   Proxy/Server (proxy/proxy.c): create_listen_socket, connect_to_origin and proxy_run, with the
--     loop over accept; Ownership has what is closed and freed.
--   Logger (logger/logger.c, logger/logger.h): the filter of vlog_internal, and where a line goes.
--
-- The thread pool and the exercises.
--
--   Pool (threadpool/threadpool.c, threadpool/threadpool.h): the queue of tasks as links over a
--     heap, threadPoolCreate, threadPoolSubmit, and what a worker does when it holds the lock. Queue
--     has the lemmas on the links. Pool/Workers runs any number of workers, submits and a stop in
--     any order, with what was accepted and started and who waits; Invariant, Steps, Safety and
--     Waiting. Pool/Creation has the loop over pthread_create together with the workers that have
--     started; Failing what holds when a thread cannot be created, Hanging a run in which the call
--     does not return.
--   Locks/Mutex (2.4/mutex): mutex_lock and mutex_unlock, an access to shared memory at a time, in
--     any number of threads; Exclusion, and Wakeup, a run of three threads.
--   Mythread (1.6): the thread of mythread_create and clients that join and detach it, an access at
--     a time; Invariant has what holds between steps, Unmapping who unmaps the stack, Joining what a
--     join gives.
--   Locks/Spin (2.4/spinlock): spinlock_lock and spinlock_unlock with their back-off, in the workers
--     of main_spinlock.c, and the check of run_test; Counting has what the workers count.
--   Locks/Race (2.4/mutex/main_mutex.c): worker_race, which counts without a lock, and the check of
--     run_test; Losing bounds what the workers count, Ending is a run that ends.
--   Storage (2.3/mutex): storage_init, storage_destroy, a pass of traverse_list and do_random_swap
--     over a heap of nodes. Links has the list that a heap holds, Relink a swap of neighbours,
--     Lifetime, Swap and Traversal the operations. Storage/Spin has the storage_init of
--     2.3/spinlock/list.c, which differs in two lines; Storage/Printing has storage_print.
--   Storage/Threads (2.3/rw, 2.3/mutex and 2.3/spinlock, whose threads.c differ in the kind of
--     lock): any number of threads in do_random_swap and traverse_list, which lock the nodes hand
--     over hand. Relink and Rank have a swap anywhere in the list and the order of the locks,
--     Invariant what holds between steps, Steps, Quiet, Writing and Writes that each step keeps it,
--     Moving which step a thread can make, Safety and Progress what follows.
--   Storage/Counting: inc_long and snapshot_counters, called by these threads; Events has what they
--     count, Exact the counters, Going the two kinds of lock together. Storage/Jobs has the thread
--     functions with the predicates and counters that they pass.
--   Storage/Main (2.3/mutex/main_mutex.c, 2.3/rw/main_rw.c): the list that main makes and the
--     threads that it starts; Running has the program as a whole.
--   Uthread (1.7): uthread_create, uthread_yield and uthread_run_all; Slices and Run have the order
--     of the threads. Uthread/Main has the program of 1.7/main.c, and Turns the lines that it
--     prints.
--
-- Conventions. A pointer into a buffer is an index, a string is the list of its bytes, and an array
-- is the list of the bytes that are in use; a write or a copy that leaves its array is a fault
-- (none, or overflow). An entry is known by its address. unsigned long and size_t have 64 bits.
-- Counters of type int are integers without a bound: 2^31 references to one entry are not reached.
-- NULL is no value of a reference, since the callers pass none; where a call may return NULL, so
-- does the model.
--
-- What the code does not hold is a parameter: an allocator (with the contract of realloc), the
-- address of a new block, and the answers of the kernel, of the name service and of the origin, as
-- lists of events. A list of events that runs out stands for a call that blocks, so loops over
-- events need no fuel; the results say when they end. uthread_run_all is given fuel, more than the
-- number of slices that its threads have left, and this is enough; storage_destroy and traverse_list
-- are given as much as there are nodes.
--
-- Concurrency. Each call on the table holds the table's lock from its first access to its last, and
-- each call on an entry holds the entry's lock, so calls are steps that do not overlap.
-- cache_release reads an entry once more for a log line behind its unlock, which has a definition of
-- its own; the other log calls read an entry that their caller holds, that it is
-- about to free, or that it leaves in the table as complete, and are left out.
--
-- The locks of 2.4 and the threads of 1.6 are taken apart to their atomic accesses, which are taken
-- to be sequentially consistent. The locks and condition variables of pthread do what their
-- documentation says: a lock is granted when no other thread has it in a way that excludes the
-- caller, a signal wakes one thread that waits, if there is one, and threads may wake without a
-- signal.
--
-- Not modelled: the log calls of the other components, the arguments of the socket calls, and the
-- functions main of the proxy, of 1.6 and of 2.4, which only start the parts; what the monitor of
-- 2.3 prints; the times that run_test takes; sched_yield and sleep, which change nothing that is
-- shared.
pub mod Base
pub mod Cache
pub mod Proxy
pub mod Pool
pub mod Locks
pub mod Uthread
pub mod Storage
pub mod Mythread
pub mod Logger
mod Examples
