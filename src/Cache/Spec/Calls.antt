-- ===== src/Cache/Spec/Calls.antt =====
-- The calls that the clients of a table make, as calls on the map.
use operation_systems.Base.{ℕ, Bool, true, false, List, [], ◌∷◌, Option, none, some, take}
use operation_systems.Cache.Entry.{Entry, Outcome, CreateEnv, cache_entry_create}
use operation_systems.Cache.Entry.Change.{
  Change, appends, completes as marks_complete, fails as marks_failed,
}
use operation_systems.Cache.Table.{Cache}
use operation_systems.Cache.Clients.{System, Step, joins, changes, releases, Reach, start, later}
use operation_systems.Cache.Spec.{
  Call, to_add, to_complete, to_fail, Op, join_op, alter_op, release_op, answer,
}

abbrev pub is_made : Option Entry → Bool
is_made none = false
is_made (some e) = true

-- Whether the entry of a key can be made.
abbrev pub can_make : CreateEnv → List ℕ → Bool
can_make env key = is_made (cache_entry_create env key)

abbrev pub key_at : Option Entry → List ℕ
key_at none = []
key_at (some e) = e.key

abbrev pub call_of : {e : Entry} {o : Outcome} → Change e o → Call
call_of (appends realloc src len o _ _ _ _) = to_add (take len src)
call_of marks_complete = to_complete
call_of marks_failed = to_fail

abbrev pub op_of : {s t : System} → Step s t → Op
op_of (joins env addr key c r _ _) = join_op key (can_make env key) (answer r)
op_of (changes a e o _ _ change) = alter_op e.key (call_of change)
op_of {s} (releases a c _ _) = release_op (key_at (s.cache.heap a))

-- The calls of a run, the last one first.
abbrev pub calls_of : {c : Cache} {s : System} → Reach c s → List Op
calls_of start = []
calls_of (later r step) = op_of step ∷ calls_of r
