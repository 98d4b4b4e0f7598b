-- ===== src/Cache/Table.antt =====
-- The table of `cache_table_t`: chains of entries by the hash of their keys, under the table's lock.
--
-- An entry is known by its address, and the heap maps the addresses of live entries to them. A link
-- `next` is the place in a chain. Each call is one step, since it holds `t->lock` from its first
-- access to its last, but for the `free` of an entry that no chain holds any more. `none` is a
-- fault: an access to an entry that was freed.
pub mod Primitives
pub mod Find
pub mod Destroy
use operation_systems.Base.{
  ℕ, zero, suc, ◌+◌, ◌*◌, ◌%◌, ◌^◌, Bool, true, false, not, ◌&&◌, List, [], ◌∷◌, Option, none, some,
  if◌then◌else◌,
}
use mathlib.Core.Option
use operation_systems.Base.Int.{ℤ, inc, dec, is_pos, is_zero}
use operation_systems.Base.Bytes.{bytes_eq}
use operation_systems.Base.Store.{update, unlink}
use operation_systems.Cache.Entry.{Entry, CreateEnv, cache_entry_create}

-- `unsigned long`
abbrev pub word_mod : ℕ
word_mod = 2 ^ 64

hash_from : ℕ → List ℕ → ℕ
hash_from h [] = h
hash_from h (c ∷ cs) = hash_from ((((h * 2 ^ 5) % word_mod + h) % word_mod + c) % word_mod) cs

-- djb2 over the bytes of the key.
unfoldable pub hash_key : List ℕ → ℕ
unfolding hash_from
hash_key s = hash_from 5381 s

abbrev pub default_buckets : ℕ
default_buckets = 1024

pub record Cache : Type 0 where
  pub nbuckets : ℕ
  pub buckets : ℕ → List ℕ
  pub heap : ℕ → Option Entry

-- `calloc` of the buckets and the initialisation of the lock may fail.
unfoldable pub cache_table_init : Bool → Bool → Option Cache
cache_table_init calloc_ok mutex_ok =
    if calloc_ok
    then (if mutex_ok
        then some (record { nbuckets = default_buckets; buckets = λ _. []; heap = λ _. none })
        else none)
    else none

abbrev pub bucket_of : Cache → List ℕ → ℕ
bucket_of c key = hash_key key % c.nbuckets

-- The walk along a chain: a fault, no entry with the key, or the first such entry.
unfoldable pub find : (ℕ → Option Entry) → List ℕ → List ℕ → Option (Option ℕ)
find heap key [] = some none
find heap key (a ∷ rest) = elim (heap a) [
  | none ↦ none
  | some e ↦ elim (bytes_eq e.key key) [ true ↦ some (some a) | false ↦ find heap key rest ]
]

-- What `cache_start_or_join` returns: NULL, an entry to write, or an entry to read.
pub data Join : Type 0 where
  refused : Join
  writer : ℕ → Join
  reader : ℕ → Join

-- The entry at `a` changed in place.
abbrev pub put : Cache → ℕ → Entry → Cache
put c a e = record c { heap = update c.heap a (some e) }

abbrev pub link : Cache → ℕ → Entry → Cache
link c a e = record c {
  buckets = update c.buckets (bucket_of c e.key) (a ∷ c.buckets (bucket_of c e.key));
  heap = update c.heap a (some e);
}

-- The entry at `a` taken out of its chain and freed.
abbrev pub remove : Cache → ℕ → List ℕ → Cache
remove c a key = record c {
  buckets = update c.buckets (bucket_of c key) (unlink a (c.buckets (bucket_of c key)));
  heap = update c.heap a none;
}

-- A new entry at the head of its chain, at the address that the allocator gives.
unfoldable pub start : CreateEnv → ℕ → Cache → List ℕ → Cache × Join
start env addr c key = elim (cache_entry_create env key) [
  | none ↦ (c, refused)
  | some e ↦ (link c addr e, writer addr)
]

-- The branch of a key that is there: a failed entry that nobody holds is replaced.
unfoldable pub join : CreateEnv → ℕ → Cache → List ℕ → ℕ → Entry → Cache × Join
join env addr c key a e =
    if e.failed && is_zero e.refcnt
    then start env addr (remove c a key) key
    else (put c a (record e { refcnt = inc e.refcnt }), reader a)

unfoldable pub cache_start_or_join : CreateEnv → ℕ → Cache → List ℕ → Option (Cache × Join)
cache_start_or_join env addr c key = elim (find c.heap key (c.buckets (bucket_of c key))) [
  | none ↦ none
  | some none ↦ some (start env addr c key)
  | some (some a) ↦ Option.map (join env addr c key a) (c.heap a)
]

-- What `cache_release` does under the lock of the table.
unfoldable pub cache_release : Cache → ℕ → Option Cache
cache_release c a = elim (c.heap a) [
  | none ↦ none
  | some e ↦
      if is_pos (dec e.refcnt)
      then some (put c a (record e { refcnt = dec e.refcnt }))
      else if e.complete && not e.failed
      then some (put c a (record e { refcnt = dec e.refcnt }))
      else some (remove c a e.key)
]

-- The log line of `cache_release` where references are left: it reads the entry once more, behind the
-- unlock and with the reference given up. It is none where the entry has been freed.
unfoldable pub release_log : Cache → ℕ → Option (List ℕ × ℤ)
release_log c a = elim (c.heap a) [ none ↦ none | some e ↦ some (e.key, e.refcnt) ]

-- `cache_table_destroy`: each entry of a chain is freed, chain after chain.
free_chain : (ℕ → Option Entry) → List ℕ → Option (ℕ → Option Entry)
free_chain heap [] = some heap
free_chain heap (a ∷ rest) = elim (heap a) [
  | none ↦ none
  | some e ↦ free_chain (update heap a none) rest
]

free_chains : ℕ → ℕ → (ℕ → List ℕ) → (ℕ → Option Entry) → Option (ℕ → Option Entry)
free_chains zero i buckets heap = some heap
free_chains (suc n) i buckets heap = elim (free_chain heap (buckets i)) [
  | none ↦ none
  | some rest ↦ free_chains n (suc i) buckets rest
]

unfoldable pub cache_table_destroy : Cache → Option (ℕ → Option Entry)
unfolding free_chains free_chain
cache_table_destroy c = free_chains c.nbuckets 0 c.buckets c.heap
