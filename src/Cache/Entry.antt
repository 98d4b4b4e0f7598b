-- ===== src/Cache/Entry.antt =====
-- One response in the cache: `cache_entry_t` and the operations under its own lock.
--
-- A pointer of the source that may not be NULL here is an argument of a type without NULL: the
-- callers in proxy/proxy.c pass no other. `none` is a fault, an access outside a block of memory.
pub mod Append
pub mod Change
use operation_systems.Base.{
  ℕ, ◌+◌, ◌*◌, ◌%◌, ◌^◌, ◌≤◌, ◌≡◌, Bool, true, false, List, [], Option, none, some, ltb, ◌==◌,
  if◌then◌else◌, length, take,
}
use operation_systems.Base.Int.{ℤ, pos}
use operation_systems.Base.Bytes.{memcpy_at}

-- `cache_entry_t`. `block` is what `data` points at; the link `next` is the place in a chain.
pub record Entry : Type 0 where
  pub key : List ℕ
  pub block : List ℕ
  pub size : ℕ
  pub capacity : ℕ
  pub complete : Bool
  pub failed : Bool
  pub refcnt : ℤ

-- What the system calls of `cache_entry_create` answer.
pub record CreateEnv : Type 0 where
  pub calloc_ok : Bool
  pub strdup_ok : Bool
  pub mutex_ok : Bool
  pub cond_ok : Bool

abbrev pub new_entry : List ℕ → Entry
new_entry key = record {
  key = key;
  block = [];
  size = 0;
  capacity = 0;
  complete = false;
  failed = false;
  refcnt = pos 1;
}

unfoldable pub cache_entry_create : CreateEnv → List ℕ → Option Entry
cache_entry_create env key =
    if env.calloc_ok
    then (if env.strdup_ok
        then (if env.mutex_ok then (if env.cond_ok then some (new_entry key) else none) else none)
        else none)
    else none

-- The result codes 0 and -1.
pub data Rc : Type 0 where
  ok error : Rc

-- What a call leaves behind; `broadcast` says whether it woke the readers that wait on `cond`.
pub record Outcome : Type 0 where
  pub entry : Entry
  pub rc : Rc
  pub broadcast : Bool

-- `size_t`
abbrev pub size_mod : ℕ
size_mod = 2 ^ 64

-- The next capacity: twice the last, and at least what is needed.
unfoldable pub new_capacity : ℕ → ℕ → ℕ
new_capacity capacity need =
    let doubled : ℕ = if capacity == 0 then 64 * 1024 else (capacity * 2) % size_mod in
    if ltb doubled need then need else doubled

-- The copy at the end of `cache_append_data`.
unfoldable pub store : Entry → List ℕ → ℕ → Option Outcome
store e src len = elim (memcpy_at e.block e.size src len) [
  | none ↦ none
  | some block ↦ some (record {
    entry = record e { block = block; size = (e.size + len) % size_mod };
    rc = ok;
    broadcast = true;
  })
]

-- The growth of the block. `realloc` is the allocator's: a block and a size to a new block.
unfoldable pub grow : (List ℕ → ℕ → Option (List ℕ)) → Entry → List ℕ → ℕ → ℕ → Option Outcome
grow realloc e src len cap = elim (realloc e.block cap) [
  | none ↦ some (record { entry = record e { failed = true }; rc = error; broadcast = true })
  | some block ↦ store (record e { block = block; capacity = cap }) src len
]

unfoldable pub cache_append_data :
    (List ℕ → ℕ → Option (List ℕ)) → Entry → List ℕ → ℕ → Option Outcome
cache_append_data realloc e src len =
    if len == 0
    then some (record { entry = e; rc = ok; broadcast = false })
    else if e.failed
    then some (record { entry = e; rc = error; broadcast = false })
    else if ltb e.capacity ((e.size + len) % size_mod)
    then grow realloc e src len (new_capacity e.capacity ((e.size + len) % size_mod))
    else store e src len

unfoldable pub cache_mark_complete : Entry → Outcome
cache_mark_complete e = record { entry = record e { complete = true }; rc = ok; broadcast = true }

unfoldable pub cache_mark_failed : Entry → Outcome
cache_mark_failed e = record { entry = record e { failed = true }; rc = ok; broadcast = true }

-- The bytes that readers may see.
abbrev pub contents : Entry → List ℕ
contents e = take e.size e.block

-- The capacity is the length of the block, and the data fit.
pub record IsValid (e : Entry) : Type 0 where
  pub allocated : e.capacity ≡ length e.block
  pub fits : e.size ≤ e.capacity

-- What C promises of a `realloc` that succeeds: a block of the size asked for that keeps the bytes.
pub record Reallocates (realloc : List ℕ → ℕ → Option (List ℕ)) : Type 0 where
  pub sized : (b : List ℕ) (n : ℕ) (c : List ℕ) → realloc b n ≡ some c → length c ≡ n
  pub kept :
      (b : List ℕ) (n : ℕ) (c : List ℕ)
      → realloc b n ≡ some c
      → length b ≤ n
      → take (length b) c ≡ b
