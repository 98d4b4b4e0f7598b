-- ===== src/Cache.antt =====
-- cache/cache.c and cache/cache.h: the shared table of responses.
pub mod Entry
pub mod Table
pub mod Clients
pub mod Spec
