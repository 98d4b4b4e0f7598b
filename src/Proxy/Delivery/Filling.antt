-- ===== src/Proxy/Delivery/Filling.antt =====
-- The entry while its writer fills it.
use mathlib.Core.Option
use operation_systems.Base.{
  ℕ, ◌≤◌, ◌<◌, ◌≡◌, refl, sym, ap, ◌∙◌, true, false, List, [], ◌∷◌, ◌++◌, some, arith, length, take,
  length-append, take-append_left, append-nil, length-take,
}
use operation_systems.Cache.Entry.{
  Entry, size_mod, cache_mark_complete, cache_mark_failed, contents, IsValid,
}
use operation_systems.Proxy.Handler.{
  Effect, marks_complete, marks_failed, releases, closes_origin, closes_client, finish,
}
use operation_systems.Proxy.Delivery.{Allocator, changed, go_on, performed}

-- The entry holds a first part of the response, and all of it once it is complete.
abbrev pub Good : List ℕ → Entry → Type 0
Good full e =
    (e.size ≤ length full)
    × (contents e ≡ take e.size full)
    × (e.complete ≡ true → e.size ≡ length full)

-- The states hold ever more of the response.
abbrev pub Grows : List ℕ → ℕ → List Entry → Type 0
Grows full least [] = Unit {0}
Grows full least (e ∷ states) = (least ≤ e.size) × Good full e × Grows full e.size states

-- The calls make no access out of bounds, and the entry grows in them.
abbrev pub Fills : Allocator → List ℕ → Entry → List Effect → Type 0
Fills realloc full e effects =
    (states : List Entry) × (performed realloc effects e ≡ some states) × Grows full e.size states

-- An entry that its writer still fills, where `rest` of the response is to come.
pub record Filling (full : List ℕ) (e : Entry) (rest : List ℕ) : Type 0 where
  pub valid : IsValid e
  pub unfinished : e.complete ≡ false
  pub good : e.failed ≡ false
  pub split : contents e ++ rest ≡ full
  pub small : length full < size_mod

module _ (realloc : Allocator) (full : List ℕ) where
  pub nothing-Fills : (e : Entry) → Good full e → Fills realloc full e []
  unfolding performed
  nothing-Fills e g = (e ∷ [], refl, (omega arith, g, tt))

  pub change-Fills :
      (e next : Entry) (effect : Effect) (effects : List Effect)
      → changed realloc e effect ≡ some next
      → e.size ≤ next.size
      → Good full e
      → Fills realloc full next effects
      → Fills realloc full e (effect ∷ effects)
  unfolding performed
  change-Fills e next effect effects is le g (states, q, grows) = (
    e ∷ states,
    ap (go_on e (performed realloc effects)) is ∙ ap (Option.map (◌∷◌ e)) q,
    (omega arith, g, Grows-mono states grows),
  )
    where
      Grows-mono : (xs : List Entry) → Grows full next.size xs → Grows full e.size xs
      Grows-mono [] g = tt
      Grows-mono (x ∷ xs) (l, good, rest) = (omega (arith, le), good, rest)

  pub contents-length : (e : Entry) → IsValid e → length (contents e) ≡ e.size
  contents-length e v = omega (arith, v.allocated, v.fits, length-take e.size e.block)

  pub Filling-Good : (e : Entry) (rest : List ℕ) → Filling full e rest → Good full e
  Filling-Good e rest f =
      let size = contents-length e f.valid in
      (
        omega (arith, ap length f.split, length-append (contents e) rest),
        sym (take-append_left e.size (contents e) rest (sym size)) ∙ ap (take e.size) f.split,
        λ h. cc (h, f.unfinished),
      )

  pub same-Fills :
      (e : Entry) (effect : Effect) (effects : List Effect)
      → changed realloc e effect ≡ some e
      → Good full e
      → Fills realloc full e effects
      → Fills realloc full e (effect ∷ effects)
  same-Fills e effect effects is g fills = change-Fills e e effect effects is (omega arith) g fills

  -- The writer marks the entry, and touches it no more.
  rest-Fills :
      (e : Entry)
      → Good full e
      → Fills realloc full e (closes_origin ∷ closes_client ∷ releases ∷ [])
  rest-Fills e g =
      same-Fills e closes_origin _ refl g
        (same-Fills e closes_client _ refl g (same-Fills e releases _ refl g (nothing-Fills e g)))

  pub finish_failed-Fills :
      (e : Entry) → Good full e → Fills realloc full e (finish marks_failed).effects
  unfolding cache_mark_failed
  finish_failed-Fills e g =
      change-Fills e (record e { failed = true }) marks_failed _ refl (omega arith) g
        (rest-Fills (record e { failed = true }) g)

  pub finish_complete-Fills :
      (e : Entry) → Filling full e [] → Fills realloc full e (finish marks_complete).effects
  unfolding cache_mark_complete
  finish_complete-Fills e f =
      let g = Filling-Good e [] f in
      change-Fills e (record e { complete = true }) marks_complete _ refl (omega arith) g
        (rest-Fills (record e { complete = true })
          (
            g.0,
            g.1,
            λ h.
                sym (contents-length e f.valid)
                ∙ ap length (sym (append-nil (contents e)) ∙ f.split),
          ))
