-- ===== src/Cache/Spec/Refines.antt =====
-- Each call on the table is the operation of its name on the map.
use mathlib.Core.Path.{fun_ext}
use mathlib.Core.Option.{some-injective}
use operation_systems.Base.{
  ℕ, suc, ◌-◌, ◌<◌, ◌≡◌, refl, sym, ap, ◌∙◌, subst, inl, inr, Bool, true, not, ◌&&◌, ◌||◌, List, [],
  Option, none, some, arith, ltb,
}
use operation_systems.Base.Int.{dec, inc}
use operation_systems.Base.Store.{update}
use operation_systems.Cache.Entry.{Entry, CreateEnv, new_entry, cache_entry_create}
use operation_systems.Cache.Entry.Change.{Change-Keeps}
use operation_systems.Cache.Table.{
  Cache, Join, put, remove, cache_start_or_join, cache_release, cache_table_init,
}
use operation_systems.Cache.Table.Primitives.{Linked}
use operation_systems.Cache.Clients.{
  System, Step, joins, changes, releases, taken, init, Reach, start, later,
}
use operation_systems.Cache.Clients.Invariant.{Inv}
use operation_systems.Cache.Clients.Steps.{Step-Inv, Reach-Inv}
use operation_systems.Cache.Clients.Safety.{start_or_join_cases, release_cases}
use operation_systems.Cache.Spec.{
  Item, Spec, set_item, Answer, answer, writes, reads, spec_join, joined, released, spec_release,
  SpecStep, SpecReach, item, view, join_op, alter_op, release_op,
}
use operation_systems.Cache.Spec.Calls.{is_made, can_make, key_at, call_of, op_of, calls_of}
use operation_systems.Cache.Spec.Showing.{
  shown, absent, put-view, put-view_same, link-view, remove-view, Change-Alters,
}

-- The table behind a call of `cache_start_or_join`, with its answer, is the map's.
abbrev JoinRefines : System → List ℕ → Bool → Cache × Join → Type 0
JoinRefines s key made (c, r) =
    Linked c
    → (view (record { cache = c; held = taken s.held r }), answer r) ≡ spec_join (view s) key made

module _ {c : Cache} {s : System} (calloc_ok mutex_ok : Bool)
    (made : cache_table_init calloc_ok mutex_ok ≡ some c) (reach : Reach c s) where
  inv : Inv s
  inv = Reach-Inv calloc_ok mutex_ok made reach

  -- A key that is not there.
  absent_joins :
      (env : CreateEnv) (key : List ℕ) (o : Option Entry)
      → ((a : ℕ) (e : Entry) → s.cache.heap a ≡ some e → ¬ (e.key ≡ key))
      → cache_entry_create env key ≡ o
      → joined (view s) key (is_made o) none ≡ spec_join (view s) key (can_make env key)
  absent_joins env key o new q =
      ap (λ (b : Bool). joined (view s) key b none) (ap is_made (sym q))
      ∙ ap (joined (view s) key (can_make env key)) (sym (absent s key inv.linked new))

  -- A key that is there.
  present_joins :
      (key : List ℕ) (a : ℕ) (e : Entry) (can : Bool)
      → s.cache.heap a ≡ some e
      → e.key ≡ key
      → joined (view s) key can (some (item e (s.held a))) ≡ spec_join (view s) key can
  present_joins key a e can at same = ap (joined (view s) key can) (
      subst (λ (k : List ℕ). some (item e (s.held a)) ≡ view s k) same
        (sym (shown s a e inv.linked at)))

  -- In every state that clients reach, a call of `cache_start_or_join` does to the table what the
  -- operation on the map does, and answers the same: it refuses, or makes the caller the writer of an
  -- empty response or a reader of the one that is there, with one holder more.
  pub start_or_join_refines :
      (env : CreateEnv) (addr : ℕ) (key : List ℕ) (d : Cache) (r : Join)
      → s.cache.heap addr ≡ none
      → cache_start_or_join env addr s.cache key ≡ some (d, r)
      → (view (record { cache = d; held = taken s.held r }), answer r)
        ≡ spec_join (view s) key (can_make env key)
  start_or_join_refines env addr key d r free run =
      elim (start_or_join_cases calloc_ok mutex_ok made reach env addr key free) [
        | inl (new, q, made) ↦
            subst (JoinRefines s key (can_make env key)) (some-injective _ _ (sym q ∙ run))
              (λ l. absent_joins env key none (λ a e at k. new a e (at, k)) made) linked
        | inr (inl (new, q, made)) ↦
            subst (JoinRefines s key (can_make env key)) (some-injective _ _ (sym q ∙ run))
              (λ l.
                ap (λ (m : Spec). (m, writes))
                  (link-view s addr key inv.linked l free (inv.unheld addr free))
                ∙ absent_joins env key (some (new_entry key)) (λ a e at k. new a e (at, k)) made)
              linked
        | inr (inr (a, e, (at, same), q)) ↦
            subst (JoinRefines s key (can_make env key)) (some-injective _ _ (sym q ∙ run))
              (λ l.
                ap (λ (m : Spec). (m, reads))
                  (put-view s a (suc (s.held a)) e (record e { refcnt = inc e.refcnt }) inv.linked l
                      at refl
                    ∙ ap (λ (k : List ℕ). set_item (view s) k (some (item e (suc (s.held a)))))
                        same)
                ∙ present_joins key a e (can_make env key) at same)
              linked
      ]
    where
      linked : Linked d
      linked = (Step-Inv (joins env addr key d r free run) inv).linked

  releases_to :
      (a : ℕ) (e : Entry) (v : Option Item)
      → s.cache.heap a ≡ some e
      → released (some (item e (s.held a))) ≡ v
      → set_item (view s) e.key v ≡ spec_release (view s) e.key
  releases_to a e v at q =
      ap (set_item (view s) e.key) (sym q ∙ ap released (sym (shown s a e inv.linked at)))

  -- In every state that clients reach, a holder's `cache_release` does to the table what the operation
  -- on the map does.
  release_refines :
      (a : ℕ) (e : Entry) (d : Cache)
      → 0 < s.held a
      → s.cache.heap a ≡ some e
      → cache_release s.cache a ≡ some d
      → view (record { cache = d; held = update s.held a (s.held a - 1) })
        ≡ spec_release (view s) e.key
  release_refines a e d h at run =
      let (f, bt, cases) = release_cases calloc_ok mutex_ok made reach a h in
      let one : f ≡ e = some-injective _ _ (sym bt ∙ at) in
      elim cases [
        | inl (more, q) ↦ stays_there f bt one q (ground arith)
        | inr (inl (last, whole, good, q)) ↦ stays_there f bt one q (ground arith)
        | inr (inr (last, why, q)) ↦
            subst (λ (c : Cache). Linked c → Left c)
              (ap (λ (g : Entry). remove s.cache a g.key) (sym one)
                ∙ some-injective _ _ (sym q ∙ run))
              (λ l.
                remove-view s a (s.held a - 1) e inv.linked l at
                ∙ releases_to a e none at (ground (arith, one)))
              linked
      ]
    where
      linked : Linked d
      linked = (Step-Inv (releases a d h run) inv).linked

      Left : Cache → Type 0
      Left c =
          view (record { cache = c; held = update s.held a (s.held a - 1) })
          ≡ spec_release (view s) e.key

      stays_there :
          (f : Entry)
          → s.cache.heap a ≡ some f
          → f ≡ e
          → cache_release s.cache a ≡ some (put s.cache a (record f { refcnt = dec f.refcnt }))
          → (ltb 1 (s.held a) || (f.complete && not f.failed)) ≡ true
          → Left d
      stays_there f bt one q why =
          subst (λ (c : Cache). Linked c → Left c)
            (ap (λ (g : Entry). put s.cache a (record g { refcnt = dec g.refcnt })) (sym one)
              ∙ some-injective _ _ (sym q ∙ run))
            (λ l.
              put-view s a (s.held a - 1) e (record e { refcnt = dec e.refcnt }) inv.linked l at
                refl
              ∙ releases_to a e (some (item e (s.held a - 1))) at (ground (arith, one, why)))
            linked

-- A call of a client is that call on the map.
Step-SpecStep :
    {c : Cache} {s t : System} (calloc_ok mutex_ok : Bool)
    → cache_table_init calloc_ok mutex_ok ≡ some c
    → Reach c s
    → (step : Step s t) → SpecStep (view s) (op_of step) (view t)
Step-SpecStep {s = s} ok1 ok2 made reach (joins env addr key d r free run) =
    let same = start_or_join_refines ok1 ok2 made reach env addr key d r free run in
    subst (λ (p : Spec × Answer). SpecStep (view s) (join_op key (can_make env key) p.1) p.0)
      (sym same) (SpecStep.joins key (can_make env key))
Step-SpecStep {s = s} ok1 ok2 made reach (changes a e o h at ch) =
    let inv = Reach-Inv ok1 ok2 made reach in
    subst (SpecStep (view s) (alter_op e.key (call_of ch)))
      (sym (
        put-view_same s a e o.entry inv.linked (Step-Inv (changes a e o h at ch) inv).linked at
          (Change-Keeps (inv.valid a e at) ch).key))
      (SpecStep.alters e.key (call_of ch) (item e (s.held a)) (item o.entry (s.held a))
        (shown s a e inv.linked at) h (Change-Alters (s.held a) (inv.valid a e at) ch))
Step-SpecStep {s = s} ok1 ok2 made reach (releases a d h run) =
    let inv = Reach-Inv ok1 ok2 made reach in
    let (e, at, _) = release_cases ok1 ok2 made reach a h in
    subst
      (λ (o : Option Entry).
        SpecStep (view s) (release_op (key_at o))
          (view (record { cache = d; held = update s.held a (s.held a - 1) })))
      (sym at)
      (subst (SpecStep (view s) (release_op e.key))
        (sym (release_refines ok1 ok2 made reach a e d h at run))
        (SpecStep.releases e.key (item e (s.held a)) (shown s a e inv.linked at) h))

empty_view :
    (c : Cache) (ok1 ok2 : Bool) (key : List ℕ)
    → cache_table_init ok1 ok2 ≡ some c
    → view (init c) key ≡ none
unfolding cache_table_init
empty_view c ok1 ok2 key made =
    absent (init c) key (Reach-Inv ok1 ok2 made start).linked (λ a e at. ground arith)

-- A run of clients of a table that was made is a run of the map, from the empty one, with the same
-- calls in the same order: each caller of `cache_start_or_join` is told what the map answers, each
-- holder's call alters the response of its key as it does on the map, and each release is a release of
-- that response.
pub table_refines_map :
    {c : Cache} {s : System} (calloc_ok mutex_ok : Bool)
    → cache_table_init calloc_ok mutex_ok ≡ some c
    → (run : Reach c s) → SpecReach (calls_of run) (view s)
table_refines_map {c} ok1 ok2 made start =
    subst (SpecReach []) (sym (fun_ext (λ key. empty_view c ok1 ok2 key made))) SpecReach.start
table_refines_map ok1 ok2 made (later r st) =
    SpecReach.later (table_refines_map ok1 ok2 made r) (Step-SpecStep ok1 ok2 made r st)
