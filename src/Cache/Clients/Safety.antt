-- ===== src/Cache/Clients/Safety.antt =====
-- What clients of the table may rely on, in every state that they reach.
use operation_systems.Base.{
  ℕ, ◌-◌, ◌<◌, ◌≡◌, refl, sym, ◌∙◌, subst, ◌⊎◌, inl, inr, Bool, true, false, not, ◌&&◌, List, [],
  ◌++◌, Option, none, some, arith, ◌==◌, Bool-cases, Option-cases, append-nil,
}
use operation_systems.Base.Int.{ℤ, pos, dec, inc, is_pos, is_zero}
use operation_systems.Base.Store.{update}
use operation_systems.Cache.Entry.{
  Entry, CreateEnv, Outcome, new_entry, cache_entry_create, contents,
}
use operation_systems.Cache.Entry.Change.{Change-Keeps}
use operation_systems.Cache.Table.{
  Cache, Join, refused, writer, reader, put, link, remove, cache_start_or_join, cache_release,
  cache_table_init, cache_table_destroy, start as start_entry, join,
}
use operation_systems.Cache.Table.Find.{seek_cases}
use operation_systems.Cache.Table.Destroy.{destroy_frees_all}
use operation_systems.Cache.Clients.{System, Step, joins, changes, releases, Reach}
use operation_systems.Cache.Clients.Invariant.{Inv}
use operation_systems.Cache.Clients.Steps.{Reach-Inv, create_cases, never_dropped}

-- The entry of a key in the abstract: its address and what stands there.
abbrev pub Live : Cache → List ℕ → ℕ → Entry → Type 0
Live c key a e = (c.heap a ≡ some e) × (e.key ≡ key)

-- What is left of an entry after a call: it is live, and holds what it held and perhaps more.
abbrev pub Grown : Entry → Option Entry → Type 0
Grown e none = ⊥
Grown e (some f) =
    ((rest : List ℕ) × (contents f ≡ contents e ++ rest))
    × (f.key ≡ e.key)
    × (e.complete ≡ true → f.complete ≡ true)
    × (e.failed ≡ true → f.failed ≡ true)

Grown-self : (e : Entry) (n : ℤ) → Grown e (some (record e { refcnt = n }))
Grown-self e n = (([], sym (append-nil (contents e))), refl, λ h. h, λ h. h)

Grown-same : (e : Entry) (o : Option Entry) → o ≡ some e → Grown e o
Grown-same e o q = subst (Grown e) (sym q) (Grown-self e e.refcnt)

module _ {c : Cache} {s : System} (calloc_ok mutex_ok : Bool)
    (made : cache_table_init calloc_ok mutex_ok ≡ some c) (reach : Reach c s) where
  inv : Inv s
  inv = Reach-Inv calloc_ok mutex_ok made reach

  -- In every state that clients reach, one key has one live entry: two live entries whose keys are
  -- equal stand at one address.
  pub one_entry_per_key :
      (a b : ℕ) (e f : Entry) (key : List ℕ) → Live s.cache key a e → Live s.cache key b f → a ≡ b
  one_entry_per_key a b e f key (at, k) (bt, l) = inv.linked.unique a b e f at bt (k ∙ sym l)

  -- In every state that clients reach, `cache_start_or_join` touches no freed entry, and does one of
  -- three things. The key has no live entry and the new one could not be made: NULL, and the table is
  -- as it was. The key has no live entry: the caller is the writer of a new empty entry with the key,
  -- which it alone holds. The key has a live entry: the caller is a reader of it, counted.
  pub start_or_join_cases :
      (env : CreateEnv) (addr : ℕ) (key : List ℕ)
      → s.cache.heap addr ≡ none
      → (((a : ℕ) (e : Entry) → ¬ Live s.cache key a e)
          × (cache_start_or_join env addr s.cache key ≡ some (s.cache, refused))
          × (cache_entry_create env key ≡ none))
        ⊎ (((a : ℕ) (e : Entry) → ¬ Live s.cache key a e)
            × (cache_start_or_join env addr s.cache key
                ≡ some (link s.cache addr (new_entry key), writer addr))
            × (cache_entry_create env key ≡ some (new_entry key)))
        ⊎ ((a : ℕ) × (e : Entry) × Live s.cache key a e
            × (cache_start_or_join env addr s.cache key
                ≡ some (put s.cache a (record e { refcnt = inc e.refcnt }), reader a)))
  unfolding cache_start_or_join join start_entry
  start_or_join_cases env addr key free = elim (seek_cases inv.linked key) [
    | inl (q, new) ↦ elim (create_cases env key) [
      | inl failed ↦ inl (λ a e l. new a e l.0 l.1, ground arith, failed)
      | inr fresh ↦ inr (inl (λ a e l. new a e l.0 l.1, ground arith, fresh))
    ]
    | inr (a, e, q, at, same) ↦
        let keep = never_dropped inv a e at in inr (inr (a, e, (at, same), ground arith))
  ]

  -- In every state that clients reach, a holder's `cache_release` touches no freed entry while it
  -- has the lock of the table. The entry goes exactly when the caller is its last holder and it is not a
  -- complete response that did not fail; otherwise it stays, with one reference less.
  pub release_cases :
      (a : ℕ)
      → 0 < s.held a
      → (e : Entry) × (s.cache.heap a ≡ some e)
        × (((1 < s.held a)
              × (cache_release s.cache a
                  ≡ some (put s.cache a (record e { refcnt = dec e.refcnt }))))
            ⊎ ((s.held a ≡ 1)
                × (e.complete ≡ true)
                × (e.failed ≡ false)
                × (cache_release s.cache a
                    ≡ some (put s.cache a (record e { refcnt = dec e.refcnt }))))
            ⊎ ((s.held a ≡ 1)
                × ((e.complete ≡ false) ⊎ (e.failed ≡ true))
                × (cache_release s.cache a ≡ some (remove s.cache a e.key))))
  unfolding cache_release
  release_cases a h = elim (Option-cases (s.cache.heap a)) [
    | inl gone ↦ absurd (ground (arith, inv.unheld a))
    | inr (e, at) ↦ (
      e,
      at,
      elim (Bool-cases (is_pos (dec e.refcnt))) [
        | inl more ↦ inl (ground (arith, inv.counted a e), ground arith)
        | inr last ↦ elim (Bool-cases (e.complete && not e.failed)) [
          | inl good ↦
              inr (inl (ground (arith, inv.counted a e), ground arith, ground arith, ground arith))
          | inr bad ↦ inr (inr (ground (arith, inv.counted a e), ground arith, ground arith))
        ]
      ],
    )
  ]

  -- In every state that clients reach, the count of references of each live entry is the number of
  -- references that clients have; the test of the branch of `cache_start_or_join` that drops an entry, for
  -- one that failed and whose count is 0, comes out false on it; and a count of 0 is that of a complete
  -- response.
  pub drop_never_taken :
      (a : ℕ) (e : Entry)
      → s.cache.heap a ≡ some e
      → (e.refcnt ≡ pos (s.held a))
        × ((e.failed && is_zero e.refcnt) ≡ false)
        × ((not e.complete && is_zero e.refcnt) ≡ false)
  drop_never_taken a e at =
      (inv.counted a e at, never_dropped inv a e at, ground (arith, inv.counted a e, inv.kept a e))

  -- In every state that clients reach, an entry that no client holds is a complete response that did
  -- not fail.
  pub idle_entries_are_good :
      (a : ℕ) (e : Entry)
      → s.cache.heap a ≡ some e
      → s.held a ≡ 0
      → (e.complete ≡ true) × (e.failed ≡ false)
  idle_entries_are_good = inv.kept

  -- In every state that clients reach, `cache_table_destroy` frees each entry once and leaves none.
  pub destroy_leaves_none :
      (rest : ℕ → Option Entry) × (cache_table_destroy s.cache ≡ some rest)
      × ((a : ℕ) → rest a ≡ none)
  destroy_leaves_none = destroy_frees_all inv.linked

  counts_keep :
      (a b : ℕ) (e f : Entry) (n : ℤ) (d : Cache)
      → s.cache.heap a ≡ some e
      → s.cache.heap b ≡ some f
      → put s.cache b (record f { refcnt = n }) ≡ d
      → Grown e (d.heap a)
  counts_keep a b e f n d at bt q = elim (Bool-cases (b == a)) [
    | inl same ↦ subst (Grown e) (hit same) (Grown-self e n)
    | inr other ↦ Grown-same e (d.heap a) (ground arith)
  ]
    where
      hit : (b == a) ≡ true → some (record e { refcnt = n }) ≡ d.heap a
      hit same = ground arith

  joins_keep :
      (a : ℕ) (e : Entry) (env : CreateEnv) (addr : ℕ) (key : List ℕ) (d : Cache) (r : Join)
      → s.cache.heap a ≡ some e
      → s.cache.heap addr ≡ none
      → cache_start_or_join env addr s.cache key ≡ some (d, r)
      → Grown e (d.heap a)
  joins_keep a e env addr key d r at free run = elim (start_or_join_cases env addr key free) [
    | inl (_, q, _) ↦ Grown-same e (d.heap a) (ground arith)
    | inr (inl (_, q, _)) ↦ Grown-same e (d.heap a) (ground arith)
    | inr (inr (b, f, l, q)) ↦ counts_keep a b e f (inc f.refcnt) d at l.0 (ground arith)
  ]

  releases_keep :
      (a b : ℕ) (e : Entry) (d : Cache)
      → s.cache.heap a ≡ some e
      → 0 < s.held b
      → 0 < update s.held b (s.held b - 1) a
      → cache_release s.cache b ≡ some d
      → Grown e (d.heap a)
  releases_keep a b e d at h still run =
      let (f, bt, cases) = release_cases b h in
      elim cases [
        | inl (_, q) ↦ counts_keep a b e f (dec f.refcnt) d at bt (ground arith)
        | inr (inl (_, _, _, q)) ↦ counts_keep a b e f (dec f.refcnt) d at bt (ground arith)
        | inr (inr (last, _, q)) ↦ Grown-same e (d.heap a) (ground arith)
      ]

  -- In every state that clients reach, the entry of a client that holds a reference before and after
  -- a call, of whichever client, stays live at its address with its key; its contents are what they
  -- were, or those with more bytes behind them, and neither flag is taken back.
  pub held_entries_grow :
      {t : System} (a : ℕ) (e : Entry)
      → Step s t
      → s.cache.heap a ≡ some e
      → 0 < s.held a
      → 0 < t.held a
      → Grown e (t.cache.heap a)
  held_entries_grow a e (joins env addr key d r free run) at h still =
      joins_keep a e env addr key d r at free run
  held_entries_grow a e (changes b f o hb bt ch) at h still = elim (Bool-cases (b == a)) [
    | inl same ↦
        let k = Change-Keeps (inv.valid b f bt) ch in
        let one : f ≡ e = ground arith in
        subst (Grown e) (there o b same) (
          subst (λ (g : Entry). Grown g (some o.entry)) one (k.grown, k.key, k.completed, k.broken))
    | inr other ↦ Grown-same e _ (ground arith)
  ]
    where
      there :
          (o : Outcome) (b : ℕ)
          → (b == a) ≡ true
          → some o.entry ≡ update s.cache.heap b (some o.entry) a
      there o b same = ground arith
  held_entries_grow a e (releases b d hb run) at h still = releases_keep a b e d at hb still run
