-- ===== src/Proxy/Together/Ending.antt =====
-- What the handlers rely on, and what they leave behind.
use mathlib.Core.Option.{some-injective}
use operation_systems.Base.{
  ℕ, ◌<◌, ◌≡◌, sym, ◌∙◌, ap, subst, inl, inr, Bool, true, false, [], Option, none, some, arith,
  Option-cases,
}
use operation_systems.Base.Int.{pos}
use operation_systems.Base.Totals.{total_all}
use operation_systems.Cache.Entry.{Entry}
use operation_systems.Cache.Table.{Cache, cache_table_init, cache_table_destroy}
use operation_systems.Cache.Clients.Steps.{Reach-Inv}
use operation_systems.Cache.Clients.Safety.{idle_entries_are_good, destroy_leaves_none}
use operation_systems.Proxy.Handler.{done, World, handle_client}
use operation_systems.Proxy.Handler.Protocol.{Hand, replay}
use operation_systems.Proxy.Together.{Handler, holding, System, Reach}
use operation_systems.Proxy.Together.Discipline.{agrees, Goes, Reach-Goes, none_outside}
use operation_systems.Proxy.Together.Counted.{holds, holders, held_by, Reach-AsClients}

-- The handler has done all its effects, and it returns then.
abbrev pub HasReturned : World → Handler → Type 0
HasReturned w h = (h.left ≡ []) × ((handle_client w).status ≡ done)

HasReturned-holding : (w : World) (h : Handler) → Goes w h → HasReturned w h → holding h ≡ none
unfolding replay
HasReturned-holding w h (hand, end, runs, empties, agree) (over, ends) =
    let is_end = some-injective _ _ (sym (ap (replay hand) over) ∙ runs) in
    none_outside (holding h)
      (subst (λ (k : Hand). agrees k.role (holding h) ≡ true) (is_end ∙ empties ends) agree)

module _ {n : ℕ} {c : Cache} {worlds : ℕ → World} {s : System} (calloc_ok mutex_ok : Bool)
    (made : cache_table_init calloc_ok mutex_ok ≡ some c) (reach : Reach n c worlds s) where
  -- On a table that was made, in every state that the handlers of any clients reach, in whatever order
  -- their effects are interleaved: the entry that a handler holds is live, and its count of references
  -- is the number of the handlers that hold it.
  pub handlers_hold_live :
      (i a : ℕ)
      → i < n
      → holding (s.handlers i) ≡ some a
      → (e : Entry) × (s.cache.heap a ≡ some e) × (e.refcnt ≡ pos (holders a n s.handlers))
  handlers_hold_live i a inside has =
      let (held, (r, _), same) = Reach-AsClients reach in
      let inv = Reach-Inv calloc_ok mutex_ok made r in
      elim (Option-cases (s.cache.heap a)) [
        | inl gone ↦ absurd (omega (arith, inv.unheld a gone, same a, held_by s i inside [] a has))
        | inr (e, at) ↦ (e, at, inv.counted a e at ∙ ap pos (same a))
      ]

  -- On a table that was made, when all handlers have returned, no reference to any entry is left; each
  -- entry that is still in the table is complete and has not failed; and `cache_table_destroy` frees
  -- all that is left, touching no freed entry.
  pub handlers_leave_whole :
      ((i : ℕ) → i < n → HasReturned (worlds i) (s.handlers i))
      → ((a : ℕ) (e : Entry)
          → s.cache.heap a ≡ some e
          → (e.refcnt ≡ pos 0) × (e.complete ≡ true) × (e.failed ≡ false))
        × ((rest : ℕ → Option Entry) × (cache_table_destroy s.cache ≡ some rest)
            × ((a : ℕ) → rest a ≡ none))
  handlers_leave_whole returned =
      let (held, (r, _), same) = Reach-AsClients reach in
      let inv = Reach-Inv calloc_ok mutex_ok made r in
      (
        λ a e at.
            let none_held : held a ≡ 0 = same a ∙ nobody a in
            let good = idle_entries_are_good calloc_ok mutex_ok made r a e at none_held in
            (inv.counted a e at ∙ ap pos none_held, good.0, good.1),
        destroy_leaves_none calloc_ok mutex_ok made r,
      )
    where
      nobody : (a : ℕ) → holders a n s.handlers ≡ 0
      nobody a = omega (
        arith,
        total_all (holds a) n 0 s.handlers (λ i h. ground (
          arith,
          HasReturned-holding (worlds i) (s.handlers i) (Reach-Goes reach i) (returned i h),
        )),
      )
