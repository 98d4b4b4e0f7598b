-- ===== src/Proxy/Together.antt =====
-- The handlers of several clients and the one table they share, a call after another.
--
-- Handler `i` does what `handle_client` does with the answers in `worlds i`, in order; the handlers'
-- effects are interleaved in any way. A call of the cache is a step, as in Cache/Clients. It goes
-- through the variable `entry` of the handler, which a release leaves as it is; a call on an entry
-- that has been freed has no step. The key of a join, and whether an append succeeds, are left open,
-- so the runs of the code are among these; Proxy/Delivery has the answer of an append as the one that
-- the handler goes on with.
pub mod Calls
pub mod Discipline
pub mod Counted
pub mod Ending
pub mod Refines
use operation_systems.Base.{
  ℕ, ◌+◌, ◌<◌, ◌≡◌, Bool, true, false, ◌||◌, List, [], ◌∷◌, Option, none, some, length,
  if◌then◌else◌,
}
use operation_systems.Base.Store.{update}
use operation_systems.Cache.Entry.{
  Entry, CreateEnv, Outcome, size_mod, cache_append_data, cache_mark_complete, cache_mark_failed,
  Reallocates,
}
use operation_systems.Cache.Table.{Cache, reader, writer, put, cache_start_or_join, cache_release}
use operation_systems.Proxy.Handler.{
  Effect, joins_reader, joins_writer, appends, marks_complete, marks_failed, releases, opens_origin,
  sends_client, sends_origin, closes_origin, closes_client, World, handle_client,
}

-- What a handler has still to do, its variable `entry`, and what it has done, the last first.
pub record Handler : Type 0 where
  pub left : List Effect
  pub entry : Option ℕ
  pub past : List Effect

-- It has joined an entry and has not released it.
abbrev pub in_hand : List Effect → Bool
in_hand [] = false
in_hand (joins_reader ∷ past) = true
in_hand (joins_writer ∷ past) = true
in_hand (releases ∷ past) = false
in_hand (_ ∷ past) = in_hand past

-- The entry that it holds.
abbrev pub holding : Handler → Option ℕ
holding h = if in_hand h.past then h.entry else none

-- A call that goes through `entry`.
abbrev pub uses_entry : Effect → Bool
uses_entry (appends _) = true
uses_entry marks_complete = true
uses_entry marks_failed = true
uses_entry releases = true
uses_entry _ = false

abbrev pub is_call : Effect → Bool
is_call opens_origin = false
is_call (sends_client _) = false
is_call (sends_origin _) = false
is_call closes_origin = false
is_call closes_client = false
is_call _ = true

-- An effect of a handler on the table, and on its variable.
pub data Act (c : Cache) : Option ℕ → Effect → Cache → Option ℕ → Type 0 where
  reads :
      (p : Option ℕ) (env : CreateEnv) (addr : ℕ) (key : List ℕ) (d : Cache) (a : ℕ)
      → c.heap addr ≡ none
      → cache_start_or_join env addr c key ≡ some (d, reader a)
      → Act c p joins_reader d (some a)
  starts :
      (p : Option ℕ) (env : CreateEnv) (addr : ℕ) (key : List ℕ) (d : Cache) (a : ℕ)
      → c.heap addr ≡ none
      → cache_start_or_join env addr c key ≡ some (d, writer a)
      → Act c p joins_writer d (some a)
  stores :
      (realloc : List ℕ → ℕ → Option (List ℕ)) (bytes : List ℕ) (a : ℕ) (e : Entry) (o : Outcome)
      → c.heap a ≡ some e
      → Reallocates realloc
      → e.size + length bytes < size_mod
      → cache_append_data realloc e bytes (length bytes) ≡ some o
      → Act c (some a) (appends bytes) (put c a o.entry) (some a)
  completes :
      (a : ℕ) (e : Entry)
      → c.heap a ≡ some e
      → Act c (some a) marks_complete (put c a (cache_mark_complete e).entry) (some a)
  fails :
      (a : ℕ) (e : Entry)
      → c.heap a ≡ some e
      → Act c (some a) marks_failed (put c a (cache_mark_failed e).entry) (some a)
  lets_go : (a : ℕ) (d : Cache) → cache_release c a ≡ some d → Act c (some a) releases d (some a)
  elsewhere : (p : Option ℕ) (effect : Effect) → is_call effect ≡ false → Act c p effect c p

-- The handler behind an effect.
abbrev pub behind : Handler → Effect → List Effect → Option ℕ → Handler
behind h effect rest p = record { left = rest; entry = p; past = effect ∷ h.past }

abbrev pub uses_next : List Effect → Bool
uses_next [] = false
uses_next (effect ∷ left) = uses_entry effect

-- It has joined and not released, or its next call goes through `entry`.
abbrev pub needs_entry : Handler → Bool
needs_entry h = in_hand h.past || uses_next h.left

pub record System : Type 0 where
  pub cache : Cache
  pub handlers : ℕ → Handler

pub data Step (n : ℕ) (s : System) : System → Type 0 where
  acts :
      (i : ℕ) (effect : Effect) (rest : List Effect) (d : Cache) (p : Option ℕ)
      → i < n
      → (s.handlers i).left ≡ effect ∷ rest
      → Act s.cache (s.handlers i).entry effect d p
      → Step n s (record {
        cache = d;
        handlers = update s.handlers i (behind (s.handlers i) effect rest p);
      })

abbrev pub fresh_handler : World → Handler
fresh_handler w = record { left = (handle_client w).effects; entry = none; past = [] }

abbrev pub init : Cache → (ℕ → World) → System
init c worlds = record { cache = c; handlers = λ i. fresh_handler (worlds i) }

-- `n` handlers on a new table.
pub data Reach (n : ℕ) (c : Cache) (worlds : ℕ → World) : System → Type 0 where
  start : Reach n c worlds (init c worlds)
  later : {s t : System} → Reach n c worlds s → Step n s t → Reach n c worlds t
