-- ===== src/Proxy/Together/Refines.antt =====
-- The handlers on the map that the table stands for.
use mathlib.Core.Path.{fun_ext}
use operation_systems.Base.{ℕ, ◌<◌, ◌≡◌, refl, subst, Bool, true, List, some}
use operation_systems.Base.Int.{pos}
use operation_systems.Cache.Entry.{Entry}
use operation_systems.Cache.Table.{Cache, cache_table_init}
use operation_systems.Cache.Clients
use operation_systems.Cache.Clients.Steps.{Reach-Inv}
use operation_systems.Cache.Spec.{Spec, Op, SpecReach, item, view}
use operation_systems.Cache.Spec.Views.{Shows-view}
use operation_systems.Cache.Spec.Refines.{table_refines_map}
use operation_systems.Proxy.Handler.{World}
use operation_systems.Proxy.Together.{holding, needs_entry, System, Reach}
use operation_systems.Proxy.Together.Discipline.{needs-holding}
use operation_systems.Proxy.Together.Counted.{holders, RunOf, Reach-AsClients}
use operation_systems.Proxy.Together.Calls.{calls}
use operation_systems.Proxy.Together.Ending.{handlers_hold_live}

-- The table, with the handlers that hold an entry as the clients that do.
abbrev pub as_clients : ℕ → System → Clients.System
as_clients n s = record { cache = s.cache; held = λ a. holders a n s.handlers }

-- The map, with the number of the handlers that hold each response.
abbrev pub served : ℕ → System → Spec
served n s = view (as_clients n s)

module _ {n : ℕ} {c : Cache} {worlds : ℕ → World} {s : System} (calloc_ok mutex_ok : Bool)
    (made : cache_table_init calloc_ok mutex_ok ≡ some c) (reach : Reach n c worlds s) where
  -- The run of the clients, with the same calls.
  clients_run : RunOf c s.cache (calls reach) (λ a. holders a n s.handlers)
  clients_run =
      let (held, run, same) = Reach-AsClients reach in
      subst (RunOf c s.cache (calls reach)) (fun_ext same) run

  -- On a table that was made, a run of the handlers of any clients, in whatever order their effects are
  -- interleaved, is a run of the map, from the empty one, with the same calls in the same order: a
  -- handler reads or writes a response where the map answers so, its chunks and marks alter the response
  -- of its key, and its release is a release of that response.
  pub handlers_refine_map : SpecReach (calls reach) (served n s)
  handlers_refine_map =
      subst (λ (ops : List Op). SpecReach ops (served n s)) clients_run.1
        (table_refines_map calloc_ok mutex_ok made clients_run.0)

  -- An entry that a handler holds is live, and shows on the map.
  held_shown :
      (i a : ℕ)
      → i < n
      → holding (s.handlers i) ≡ some a
      → (e : Entry) × (s.cache.heap a ≡ some e)
        × (e.refcnt ≡ pos (holders a n s.handlers))
        × (served n s e.key ≡ some (item e (holders a n s.handlers)))
  held_shown i a inside has =
      let (e, at, count) = handlers_hold_live calloc_ok mutex_ok made reach i a inside has in
      let inv = Reach-Inv calloc_ok mutex_ok made clients_run.0 in
      (
        e,
        at,
        count,
        Shows-view (as_clients n s) e.key (some (item e (holders a n s.handlers))) inv.linked
            (a, e, at, refl, refl),
      )

  -- In every state that the handlers reach on a table that was made, of each handler that has joined and
  -- has not released, or whose next call goes through its variable `entry`: the variable points at an
  -- entry that is live, whatever the other handlers have released; the count of references of that entry
  -- is the number of the handlers that hold it; and the map has it under its key, with its bytes, its
  -- marks and that number.
  pub handlers_share_map :
      (i : ℕ)
      → i < n
      → needs_entry (s.handlers i) ≡ true
      → (a : ℕ) × (e : Entry) × ((s.handlers i).entry ≡ some a)
        × (s.cache.heap a ≡ some e)
        × (e.refcnt ≡ pos (holders a n s.handlers))
        × (served n s e.key ≡ some (item e (holders a n s.handlers)))
  handlers_share_map i inside needs =
      let (a, at, has) = needs-holding reach i needs in
      let (e, live, count, shown) = held_shown i a inside has in (a, e, at, live, count, shown)
