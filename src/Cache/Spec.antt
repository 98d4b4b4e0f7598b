-- ===== src/Cache/Spec.antt =====
-- What the table promises, without addresses, chains, hashes and blocks: a map from keys to responses.
--
-- The operations of cache/cache.c on such a map. `view` is the map that a table with its clients
-- stands for.
pub mod Calls
pub mod Views
pub mod Showing
pub mod Refines
use mathlib.Core.Option
use operation_systems.Base.{
  ℕ, suc, ◌-◌, ◌<◌, ◌≡◌, Bool, true, false, not, ◌&&◌, ◌||◌, ◌⊎◌, List, [], ◌∷◌, ◌++◌, Option, none,
  some, ltb, if◌then◌else◌,
}
use operation_systems.Base.Bytes.{bytes_eq}
use operation_systems.Cache.Entry.{Entry, contents}
use operation_systems.Cache.Table.{Join, refused, writer, reader}
use operation_systems.Cache.Table.Find.{seek}
use operation_systems.Cache.Clients.{System}

-- A response, with the number of its holders.
pub record Item : Type 0 where
  pub bytes : List ℕ
  pub complete : Bool
  pub failed : Bool
  pub holders : ℕ

abbrev pub Spec : Type 0
Spec = List ℕ → Option Item

abbrev pub no_items : Spec
no_items key = none

abbrev pub set_item : Spec → List ℕ → Option Item → Spec
set_item m key v k = if bytes_eq key k then v else m k

-- What the caller of `cache_start_or_join` is told.
pub data Answer : Type 0 where
  refuses writes reads : Answer

abbrev pub answer : Join → Answer
answer refused = refuses
answer (writer a) = writes
answer (reader a) = reads

abbrev pub new_item : Item
new_item = record { bytes = []; complete = false; failed = false; holders = 1 }

-- A key that is there has one holder more; one that is not there starts, if it can be made.
abbrev pub joined : Spec → List ℕ → Bool → Option Item → Spec × Answer
joined m key made (some it) =
    (set_item m key (some (record it { holders = suc it.holders })), reads)
joined m key true none = (set_item m key (some new_item), writes)
joined m key false none = (m, refuses)

abbrev pub spec_join : Spec → List ℕ → Bool → Spec × Answer
spec_join m key made = joined m key made (m key)

-- The last holder of a response that is not whole takes it along.
abbrev pub released : Option Item → Option Item
released none = none
released (some it) =
    if ltb 1 it.holders || (it.complete && not it.failed)
    then some (record it { holders = it.holders - 1 })
    else none

abbrev pub spec_release : Spec → List ℕ → Spec
spec_release m key = set_item m key (released (m key))

-- What a holder calls for.
pub data Call : Type 0 where
  to_add : List ℕ → Call
  to_complete to_fail : Call

-- What a holder's call does to the response. Bytes are not added to a response that has failed, and it
-- fails if there is no memory for them.
pub data Alters (it : Item) : Call → Item → Type 0 where
  adds :
      (bytes : List ℕ)
      → it.failed ≡ false
      → Alters it (to_add bytes) (record it { bytes = it.bytes ++ bytes })
  gives_up :
      (bytes : List ℕ) → it.failed ≡ false → Alters it (to_add bytes) (record it { failed = true })
  ignores : (bytes : List ℕ) → (bytes ≡ []) ⊎ (it.failed ≡ true) → Alters it (to_add bytes) it
  completes : Alters it to_complete (record it { complete = true })
  fails : Alters it to_fail (record it { failed = true })

-- A call on the map: `join_op key made answer`, a holder's call on the response of a key, and a release.
pub data Op : Type 0 where
  join_op : List ℕ → Bool → Answer → Op
  alter_op : List ℕ → Call → Op
  release_op : List ℕ → Op

pub data SpecStep (m : Spec) : Op → Spec → Type 0 where
  joins :
      (key : List ℕ) (made : Bool)
      → SpecStep m (join_op key made (spec_join m key made).1) (spec_join m key made).0
  alters :
      (key : List ℕ) (call : Call) (it after : Item)
      → m key ≡ some it
      → 0 < it.holders
      → Alters it call after
      → SpecStep m (alter_op key call) (set_item m key (some after))
  releases :
      (key : List ℕ) (it : Item)
      → m key ≡ some it
      → 0 < it.holders
      → SpecStep m (release_op key) (spec_release m key)

-- The runs of the map, from the empty one, with their calls, the last one first.
pub data SpecReach : List Op → Spec → Type 0 where
  start : SpecReach [] no_items
  later :
      {ops : List Op} {m n : Spec} {op : Op}
      → SpecReach ops m
      → SpecStep m op n
      → SpecReach (op ∷ ops) n

abbrev pub item : Entry → ℕ → Item
item e holders = record {
  bytes = contents e;
  complete = e.complete;
  failed = e.failed;
  holders = holders;
}

abbrev pub item_at : System → Option (Option ℕ) → Option Item
item_at s (some (some a)) = Option.map (λ e. item e (s.held a)) (s.cache.heap a)
item_at s _ = none

-- The map that the walks along the chains show.
abbrev pub view : System → Spec
view s key = item_at s (seek s.cache key)
