-- ===== src/Cache/Spec/Showing.antt =====
-- How the table's changes show, each at one key.
use mathlib.Core.Path.{fun_ext}
use mathlib.Core.Option.{some-injective}
use operation_systems.Base.{
  ℕ, zero, suc, ◌≡◌, ◌≢◌, refl, sym, ap, ◌∙◌, subst, inl, inr, List, [], ◌++◌, Option, none, some,
  arith, if_true, if_false, Bool-cases, take,
}
use operation_systems.Base.Bytes.{bytes_eq, bytes_eq→eq, bytes_eq_self}
use operation_systems.Base.Store.{update}
use operation_systems.Cache.Entry.{
  Entry, Outcome, new_entry, cache_mark_complete, cache_mark_failed, contents, IsValid,
}
use operation_systems.Cache.Entry.Append.{Appended, cache_append_data_lem}
use operation_systems.Cache.Entry.Change.{
  Change, appends, completes as marks_complete, fails as marks_failed,
}
use operation_systems.Cache.Table.{put, link, remove}
use operation_systems.Cache.Table.Primitives.{Linked}
use operation_systems.Cache.Clients.{System}
use operation_systems.Cache.Spec.{
  Item, set_item, new_item, Alters, to_add, adds, gives_up, ignores, completes, fails, item, view,
}
use operation_systems.Cache.Spec.Calls.{call_of}
use operation_systems.Cache.Spec.Views.{Shows, view-Shows, Shows-view, Shows-elsewhere}

-- A change at one address shows as a change at one key.
view-set :
    (s t : System) (a : ℕ) (key : List ℕ) (v : Option Item)
    → Linked s.cache
    → Linked t.cache
    → ((b : ℕ) → b ≢ a → t.cache.heap b ≡ s.cache.heap b)
    → ((b : ℕ) → b ≢ a → t.held b ≡ s.held b)
    → ((e : Entry) → s.cache.heap a ≡ some e → e.key ≡ key)
    → ((e : Entry) → t.cache.heap a ≡ some e → e.key ≡ key)
    → Shows t key v
    → view t ≡ set_item (view s) key v
view-set s t a key v ls lt heap held before behind shows = fun_ext (λ k. at k)
  where
    at : (k : List ℕ) → view t k ≡ set_item (view s) key v k
    at k = elim (Bool-cases (bytes_eq key k)) [
      | inl same ↦
          subst (λ (c : List ℕ). view t c ≡ v) (bytes_eq→eq key k same)
            (Shows-view t key v lt shows)
          ∙ if_true v (view s k) same
      | inr apart ↦
          Shows-view t k (view s k) lt (
            Shows-elsewhere s t a key k heap held before behind
              (λ q. ground (arith, apart, q, bytes_eq_self k)) (view s k) (view-Shows s k ls))
          ∙ if_false v (view s k) apart
    ]

-- What a live entry shows.
pub shown :
    (s : System) (a : ℕ) (e : Entry)
    → Linked s.cache
    → s.cache.heap a ≡ some e
    → view s e.key ≡ some (item e (s.held a))
shown s a e l at = Shows-view s e.key (some (item e (s.held a))) l (a, e, at, refl, refl)

pub absent :
    (s : System) (key : List ℕ)
    → Linked s.cache
    → ((a : ℕ) (e : Entry) → s.cache.heap a ≡ some e → ¬ (e.key ≡ key))
    → view s key ≡ none
absent s key l new = Shows-view s key none l new

-- An entry that is put in the place of another with its key.
pub put-view :
    (s : System) (a n : ℕ) (e f : Entry)
    → Linked s.cache
    → Linked (put s.cache a f)
    → s.cache.heap a ≡ some e
    → f.key ≡ e.key
    → view (record { cache = put s.cache a f; held = update s.held a n })
      ≡ set_item (view s) e.key (some (item f n))
put-view s a n e f ls lt at same =
    view-set s (record { cache = put s.cache a f; held = update s.held a n }) a e.key
      (some (item f n)) ls lt (λ b q. ground (arith, q)) (λ b q. ground (arith, q))
      (λ g h. ground (arith, at, h)) (λ g h. ground (arith, same, h))
      (a, f, ground arith, same, ground arith)

pub put-view_same :
    (s : System) (a : ℕ) (e f : Entry)
    → Linked s.cache
    → Linked (put s.cache a f)
    → s.cache.heap a ≡ some e
    → f.key ≡ e.key
    → view (record { cache = put s.cache a f; held = s.held })
      ≡ set_item (view s) e.key (some (item f (s.held a)))
put-view_same s a e f ls lt at same =
    view-set s (record { cache = put s.cache a f; held = s.held }) a e.key
      (some (item f (s.held a))) ls lt (λ b q. ground (arith, q)) (λ b q. refl)
      (λ g h. ground (arith, at, h)) (λ g h. ground (arith, same, h))
      (a, f, ground arith, same, refl)

pub link-view :
    (s : System) (a : ℕ) (key : List ℕ)
    → Linked s.cache
    → Linked (link s.cache a (new_entry key))
    → s.cache.heap a ≡ none
    → s.held a ≡ 0
    → view
        (record { cache = link s.cache a (new_entry key); held = update s.held a (suc (s.held a)) })
      ≡ set_item (view s) key (some new_item)
link-view s a key ls lt free unheld =
    view-set s
      (record { cache = link s.cache a (new_entry key); held = update s.held a (suc (s.held a)) }) a
      key (some new_item) ls lt (λ b q. ground (arith, q)) (λ b q. ground (arith, q))
      (λ g h. ground (arith, free, h)) (λ g h. ground (arith, h))
      (a, new_entry key, ground arith, refl, ground (arith, unheld))

pub remove-view :
    (s : System) (a n : ℕ) (e : Entry)
    → Linked s.cache
    → Linked (remove s.cache a e.key)
    → s.cache.heap a ≡ some e
    → view (record { cache = remove s.cache a e.key; held = update s.held a n })
      ≡ set_item (view s) e.key none
remove-view s a n e ls lt at =
    view-set s (record { cache = remove s.cache a e.key; held = update s.held a n }) a e.key none ls
      lt (λ b q. ground (arith, q)) (λ b q. ground (arith, q)) (λ g h. ground (arith, at, h))
      (λ g h. ground (arith, h)) (λ b g h k. ground (arith, h, k, at, ls.unique a b e g))

Appended-item :
    (e : Entry) (src : List ℕ) (len n : ℕ) (o : Outcome)
    → Appended e src len o
    → ◌≡◌ {A = Item} (record (item e n) { bytes = contents e ++ take len src }) (item o.entry n)
Appended-item e src len n o a = ground (arith, a.extended, a.complete, a.failed)

take-none : (len : ℕ) (src : List ℕ) → len ≡ 0 → take len src ≡ []
take-none zero src h = refl
take-none (suc len) src h = absurd (omega (arith, h))

-- A change of an entry is an alteration of its response.
pub Change-Alters :
    {e : Entry} {o : Outcome} (n : ℕ)
    → IsValid e
    → (change : Change e o) → Alters (item e n) (call_of change) (item o.entry n)
unfolding cache_mark_complete cache_mark_failed
Change-Alters {e} n v (appends realloc src len o r room small run) =
    let (p, run', cases) = cache_append_data_lem realloc e src len r v room small in
    subst (λ (q : Outcome). Alters (item e n) (to_add (take len src)) (item q.entry n))
      (some-injective _ _ (sym run' ∙ run))
      (elim cases [
        | inl (nothing, q) ↦
            subst Behind (ap it_of (sym q))
              (ignores (take len src) (inl (take-none len src nothing)))
        | inr (inl (_, bad, q)) ↦ subst Behind (ap it_of (sym q)) (ignores (take len src) (inr bad))
        | inr (inr (inl (_, good, a))) ↦
            subst Behind (Appended-item e src len n p a) (adds (take len src) good)
        | inr (inr (inr (_, good, _, f))) ↦
            subst Behind (ap (λ (g : Entry). item g n) (sym f.entry)) (gives_up (take len src) good)
      ])
  where
    Behind : Item → Type 0
    Behind it = Alters (item e n) (to_add (take len src)) it

    it_of : Outcome → Item
    it_of q = item q.entry n
Change-Alters n v marks_complete = completes
Change-Alters n v marks_failed = fails
