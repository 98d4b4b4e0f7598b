-- ===== src/Cache/Spec/Views.antt =====
-- What a table shows of a key.
use operation_systems.Base.{
  ℕ, ◌≡◌, ◌≢◌, refl, sym, ap, ◌∙◌, subst, inl, inr, List, Option, none, some, arith, ◌==◌,
  Bool-cases,
}
use operation_systems.Cache.Entry.{Entry}
use operation_systems.Cache.Table.Primitives.{Linked}
use operation_systems.Cache.Table.Find.{seek_cases}
use operation_systems.Cache.Clients.{System}
use operation_systems.Cache.Spec.{Item, item, item_at, view}

-- No live entry has the key; or one has, and `it` is what stands there.
abbrev pub Shows : System → List ℕ → Option Item → Type 0
Shows s key none = (a : ℕ) (e : Entry) → s.cache.heap a ≡ some e → ¬ (e.key ≡ key)
Shows s key (some it) =
    (a : ℕ) × (e : Entry) × (s.cache.heap a ≡ some e) × (e.key ≡ key) × (it ≡ item e (s.held a))

Shows-unique :
    (s : System) (key : List ℕ) (v w : Option Item)
    → Linked s.cache
    → Shows s key v
    → Shows s key w
    → v ≡ w
Shows-unique s key none none l p q = refl
Shows-unique s key none (some it) l p (a, e, at, k, _) = absurd (p a e at k)
Shows-unique s key (some it) none l (a, e, at, k, _) q = absurd (q a e at k)
Shows-unique s key (some it) (some jt) l (a, e, at, k, x) (b, f, bt, m, y) =
    let one : a ≡ b = l.unique a b e f at bt (k ∙ sym m) in ground (arith, one, at, bt, x, y)

pub view-Shows : (s : System) (key : List ℕ) → Linked s.cache → Shows s key (view s key)
view-Shows s key l = elim (seek_cases l key) [
  | inl (q, new) ↦ subst (λ r. Shows s key (item_at s r)) (sym q) new
  | inr (a, e, q, at, k) ↦
      subst (λ r. Shows s key (item_at s r)) (sym q)
        (subst (Shows s key) (there a e at) (a, e, at, k, refl))
]
  where
    there :
        (a : ℕ) (e : Entry)
        → s.cache.heap a ≡ some e
        → some (item e (s.held a)) ≡ item_at s (some (some a))
    there a e at = ground (arith, at)

-- What a table shows is its view.
pub Shows-view :
    (s : System) (key : List ℕ) (v : Option Item) → Linked s.cache → Shows s key v → view s key ≡ v
Shows-view s key v l p = Shows-unique s key (view s key) v l (view-Shows s key l) p

-- A change at one address, whose entries before and after have one key, shows at no other key.
pub Shows-elsewhere :
    (s t : System) (a : ℕ) (key k : List ℕ)
    → ((b : ℕ) → b ≢ a → t.cache.heap b ≡ s.cache.heap b)
    → ((b : ℕ) → b ≢ a → t.held b ≡ s.held b)
    → ((e : Entry) → s.cache.heap a ≡ some e → e.key ≡ key)
    → ((e : Entry) → t.cache.heap a ≡ some e → e.key ≡ key)
    → ¬ (key ≡ k)
    → (v : Option Item) → Shows s k v
    → Shows t k v
Shows-elsewhere s t a key k heap held before behind other none p = λ b e at m.
    elim (Bool-cases (b == a)) [
      | inl same ↦
          let one : b ≡ a = ground arith in
          other (sym (behind e (subst (λ (c : ℕ). t.cache.heap c ≡ some e) one at)) ∙ m)
      | inr apart ↦ p b e (sym (heap b (λ q. ground (arith, apart))) ∙ at) m
    ]
Shows-elsewhere s t a key k heap held before behind other (some it) (b, e, at, m, x) =
    (b, e, heap b apart ∙ at, m, x ∙ ap (item e) (sym (held b apart)))
  where
    apart : b ≢ a
    apart q = other (sym (before e (subst (λ (c : ℕ). s.cache.heap c ≡ some e) q at)) ∙ m)
