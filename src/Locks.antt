-- ===== src/Locks.antt =====
-- The locks of 2.4: a mutex on a futex, a spin lock, and a count without a lock.
pub mod Mutex
pub mod Spin
pub mod Race
