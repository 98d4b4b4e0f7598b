-- ===== src/Cache/Clients.antt =====
-- The table and the clients that hold references to its entries, one call after another.
--
-- Each call is one step; the lock of the table makes the calls on the table so, and the lock of an
-- entry the calls on the entry. The clients keep the rule of `handle_client`: they touch an entry
-- only while they hold a reference that `cache_start_or_join` gave them, and release it once.
pub mod Invariant
pub mod Steps
pub mod Safety
pub mod Logging
use operation_systems.Base.{ℕ, suc, ◌-◌, ◌<◌, ◌≡◌, List, Option, none, some}
use operation_systems.Base.Store.{update}
use operation_systems.Cache.Entry.{Entry, CreateEnv, Outcome}
use operation_systems.Cache.Entry.Change.{Change}
use operation_systems.Cache.Table.{
  Cache, Join, refused, writer, reader, default_buckets, put, cache_start_or_join, cache_release,
}

-- `held a` counts the references to the entry at `a` that the clients have.
pub record System : Type 0 where
  pub cache : Cache
  pub held : ℕ → ℕ

-- The references after a call of `cache_start_or_join`.
abbrev pub taken : (ℕ → ℕ) → Join → ℕ → ℕ
taken held refused = held
taken held (writer a) = update held a (suc (held a))
taken held (reader a) = update held a (suc (held a))

pub data Step (s : System) : System → Type 0 where
  joins :
      (env : CreateEnv) (addr : ℕ) (key : List ℕ) (c : Cache) (r : Join)
      → s.cache.heap addr ≡ none
      → cache_start_or_join env addr s.cache key ≡ some (c, r)
      → Step s (record { cache = c; held = taken s.held r })
  changes :
      (a : ℕ) (e : Entry) (o : Outcome)
      → 0 < s.held a
      → s.cache.heap a ≡ some e
      → Change e o
      → Step s (record { cache = put s.cache a o.entry; held = s.held })
  releases :
      (a : ℕ) (c : Cache)
      → 0 < s.held a
      → cache_release s.cache a ≡ some c
      → Step s (record { cache = c; held = update s.held a (s.held a - 1) })

-- After `cache_table_init`, and before the first client.
abbrev pub init : Cache → System
init c = record { cache = c; held = λ _. 0 }

pub data Reach (c : Cache) : System → Type 0 where
  start : Reach c (init c)
  later : {s t : System} → Reach c s → Step s t → Reach c t
