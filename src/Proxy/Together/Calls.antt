-- ===== src/Proxy/Together/Calls.antt =====
-- The calls on the table that handlers make, as calls on the map of Cache/Spec.
use operation_systems.Base.{ℕ, List, [], ◌∷◌, Option}
use operation_systems.Cache.Table.{Cache}
use operation_systems.Cache.Spec.{
  to_add, to_complete, to_fail, Op, join_op, alter_op, release_op, reads as read_it,
  writes as write_it,
}
use operation_systems.Cache.Spec.Calls.{can_make, key_at}
use operation_systems.Proxy.Handler.{Effect, World}
use operation_systems.Proxy.Together.{
  Act, reads, starts, stores, completes, fails, lets_go, elsewhere, System, Step, acts, Reach,
  start, later,
}

-- The calls so far, with that of an effect, if it is a call.
abbrev pub called :
    {c : Cache} {p : Option ℕ} {effect : Effect} {d : Cache} {q : Option ℕ}
    → Act c p effect d q
    → List Op
    → List Op
called (reads _ env addr key d a _ _) ops = join_op key (can_make env key) read_it ∷ ops
called (starts _ env addr key d a _ _) ops = join_op key (can_make env key) write_it ∷ ops
called (stores realloc bytes a e o _ _ _ _) ops = alter_op e.key (to_add bytes) ∷ ops
called (completes a e _) ops = alter_op e.key to_complete ∷ ops
called (fails a e _) ops = alter_op e.key to_fail ∷ ops
called {c} (lets_go a d _) ops = release_op (key_at (c.heap a)) ∷ ops
called (elsewhere p effect _) ops = ops

abbrev pub called_by : {n : ℕ} {s t : System} → Step n s t → List Op → List Op
called_by (acts i effect rest d p _ _ act) ops = called act ops

-- The calls of a run, the last one first.
abbrev pub calls :
    {n : ℕ} {c : Cache} {worlds : ℕ → World} {s : System} → Reach n c worlds s → List Op
calls start = []
calls (later r step) = called_by step (calls r)
