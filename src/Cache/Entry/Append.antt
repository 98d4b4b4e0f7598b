-- ===== src/Cache/Entry/Append.antt =====
-- `cache_append_data` on a well-formed entry: no access out of bounds, and the data stand at the end.
use operation_systems.Base.{
  ℕ, ◌+◌, ◌≤◌, ◌<◌, ◌≡◌, refl, sym, ap, ◌∙◌, ◌⊎◌, inl, inr, true, false, List, ◌++◌, Option, none,
  some, arith, ltb, ◌==◌, Bool-cases, Option-cases, length, take, drop, length-take, length-append,
  append_assoc, take-append_left, length-drop, ◌%◌, take-take_of_le,
}
use operation_systems.Base.Bytes.{memcpy_at}
use operation_systems.Cache.Entry.{
  Entry, ok, error, Outcome, size_mod, new_capacity, store, grow, cache_append_data, contents,
  IsValid, Reallocates,
}

new_capacity-ge : (capacity need : ℕ) → need ≤ new_capacity capacity need
unfolding new_capacity
new_capacity-ge capacity need = ground arith

-- A copy within the bounds of both blocks succeeds.
pub memcpy_at_fits :
    (dst : List ℕ) (off : ℕ) (src : List ℕ) (len : ℕ)
    → off + len ≤ length dst
    → len ≤ length src
    → memcpy_at dst off src len ≡ some (take off dst ++ (take len src ++ drop (off + len) dst))
memcpy_at_fits dst off src len fits room = ground arith

pub take-memcpy_at :
    (dst : List ℕ) (off : ℕ) (src : List ℕ) (len : ℕ)
    → off + len ≤ length dst
    → len ≤ length src
    → take (off + len) (take off dst ++ (take len src ++ drop (off + len) dst))
      ≡ take off dst ++ take len src
take-memcpy_at dst off src len fits room =
    ap (take (off + len)) (sym (append_assoc (take off dst) (take len src) (drop (off + len) dst)))
    ∙ take-append_left (off + len) (take off dst ++ take len src) (drop (off + len) dst) (
        omega (
          arith,
          length-append (take off dst) (take len src),
          length-take off dst,
          length-take len src,
        ))

length-memcpy_at :
    (dst : List ℕ) (off : ℕ) (src : List ℕ) (len : ℕ)
    → off + len ≤ length dst
    → len ≤ length src
    → length (take off dst ++ (take len src ++ drop (off + len) dst)) ≡ length dst
length-memcpy_at dst off src len fits room = omega (
  arith,
  length-append (take off dst) (take len src ++ drop (off + len) dst),
  length-append (take len src) (drop (off + len) dst),
  length-take off dst,
  length-take len src,
  length-drop (off + len) dst,
)

-- The data stand behind the old contents; nothing else of the entry is changed but its block.
pub record Appended (e : Entry) (src : List ℕ) (len : ℕ) (o : Outcome) : Type 0 where
  pub valid : IsValid o.entry
  pub code : o.rc ≡ ok
  pub extended : contents o.entry ≡ contents e ++ take len src
  pub size : o.entry.size ≡ e.size + len
  pub key : o.entry.key ≡ e.key
  pub complete : o.entry.complete ≡ e.complete
  pub failed : o.entry.failed ≡ e.failed
  pub refcnt : o.entry.refcnt ≡ e.refcnt
  pub woken : o.broadcast ≡ true

-- The allocator refused: the entry is failed, with its data as they were.
pub record Refused (realloc : List ℕ → ℕ → Option (List ℕ)) (e : Entry) (o : Outcome) : Type 0 where
  pub asked : ℕ
  pub none_left : realloc e.block asked ≡ none
  pub code : o.rc ≡ error
  pub entry : o.entry ≡ record e { failed = true }
  pub woken : o.broadcast ≡ true

abbrev copied : Entry → List ℕ → ℕ → Outcome
copied e src len = record {
  entry = record e {
    block = take e.size e.block ++ (take len src ++ drop (e.size + len) e.block);
    size = (e.size + len) % size_mod;
  };
  rc = ok;
  broadcast = true;
}

store_lem :
    (e : Entry) (src : List ℕ) (len : ℕ)
    → len ≤ length src
    → e.size + len < size_mod
    → IsValid e
    → e.size + len ≤ e.capacity
    → (o : Outcome) × (store e src len ≡ some o) × Appended e src len o
unfolding store
store_lem e src len room small v fits = (
  copied e src len,
  rw (memcpy_at_fits e.block e.size src len inside room, store),
  record {
    valid = record {
      allocated = omega (arith, v.allocated, length-memcpy_at e.block e.size src len inside room);
      fits = omega (arith, v.fits);
    };
    code = refl;
    extended = rw no_wrap (take-memcpy_at e.block e.size src len inside room);
    size = no_wrap;
    key = refl;
    complete = refl;
    failed = refl;
    refcnt = refl;
    woken = refl;
  },
)
  where
    inside : e.size + len ≤ length e.block
    inside = omega (arith, v.allocated)

    no_wrap : (e.size + len) % size_mod ≡ e.size + len
    no_wrap = omega arith

-- A block that `realloc` moved holds the same contents.
contents-realloc :
    (realloc : List ℕ → ℕ → Option (List ℕ)) (e : Entry) (cap : ℕ) (block : List ℕ)
    → Reallocates realloc
    → IsValid e
    → e.capacity ≤ cap
    → realloc e.block cap ≡ some block
    → take e.size block ≡ contents e
contents-realloc realloc e cap block r v larger moved =
    sym (take-take_of_le e.size (length e.block) block (omega (arith, v.allocated, v.fits)))
    ∙ ap (take e.size) (r.kept e.block cap block moved (omega (arith, v.allocated)))

grow_lem :
    (realloc : List ℕ → ℕ → Option (List ℕ)) (e : Entry) (src : List ℕ) (len cap : ℕ)
    → Reallocates realloc
    → len ≤ length src
    → e.size + len < size_mod
    → IsValid e
    → e.capacity ≤ cap
    → e.size + len ≤ cap
    → (o : Outcome) × (grow realloc e src len cap ≡ some o)
      × (Appended e src len o ⊎ Refused realloc e o)
unfolding grow
grow_lem realloc e src len cap r room small v larger enough =
    elim (Option-cases (realloc e.block cap)) [
      | inl none_left ↦ (
        record { entry = record e { failed = true }; rc = error; broadcast = true },
        rw (none_left, grow),
        inr (record {
          asked = cap;
          none_left = none_left;
          code = refl;
          entry = refl;
          woken = refl;
        }),
      )
      | inr (block, moved) ↦
          let (o, e_o, a) =
            store_lem (record e { block = block; capacity = cap }) src len room small
              (record { allocated = sym (r.sized e.block cap block moved); fits = omega arith })
              enough in
          (
            o,
            rw (moved, grow) e_o,
            inl (record {
              valid = a.valid;
              code = a.code;
              extended =
                  a.extended
                  ∙ ap (λ c. c ++ take len src)
                      (contents-realloc realloc e cap block r v larger moved);
              size = a.size;
              key = a.key;
              complete = a.complete;
              failed = a.failed;
              refcnt = a.refcnt;
              woken = a.woken;
            }),
          )
    ]

-- On a valid entry, for data in bounds whose size does not overflow `size_t`, the call makes no
-- access out of bounds. No data: nothing happens. An entry that has failed: -1, and it stays as it
-- is. Otherwise either the data are appended to the contents, at 0 with the readers woken, or the
-- allocator refused, the entry is failed with its contents kept, and the readers are woken.
pub cache_append_data_lem :
    (realloc : List ℕ → ℕ → Option (List ℕ)) (e : Entry) (src : List ℕ) (len : ℕ)
    → Reallocates realloc
    → IsValid e
    → len ≤ length src
    → e.size + len < size_mod
    → (o : Outcome) × (cache_append_data realloc e src len ≡ some o)
      × (((len ≡ 0) × (o ≡ record { entry = e; rc = ok; broadcast = false }))
          ⊎ ((0 < len)
              × (e.failed ≡ true)
              × (o ≡ record { entry = e; rc = error; broadcast = false }))
          ⊎ ((0 < len) × (e.failed ≡ false) × Appended e src len o)
          ⊎ ((0 < len) × (e.failed ≡ false) × (e.capacity < e.size + len) × Refused realloc e o))
unfolding cache_append_data
cache_append_data_lem realloc e src len r v room small = elim (Bool-cases (len == 0)) [
  | inl nothing ↦ (_, ground arith, inl (ground arith, refl))
  | inr some_data ↦ elim (Bool-cases e.failed) [
    | inl bad ↦ (_, ground arith, inr (inl (ground arith, bad, refl)))
    | inr good ↦ elim (Bool-cases (ltb e.capacity ((e.size + len) % size_mod))) [
      | inl short ↦
          let ge = new_capacity-ge e.capacity ((e.size + len) % size_mod) in
          let need : (e.size + len) % size_mod ≡ e.size + len = omega arith in
          let (o, e_o, d) =
            grow_lem realloc e src len (new_capacity e.capacity ((e.size + len) % size_mod)) r room
              small v (ground (arith, ge)) (omega (arith, ge, need)) in
          (
            o,
            ground (arith, e_o),
            elim d [
              | inl a ↦ inr (inr (inl (ground arith, good, a)))
              | inr f ↦ inr (inr (inr (ground arith, good, ground arith, f)))
            ],
          )
      | inr enough ↦
          let (o, e_o, a) = store_lem e src len room small v (ground arith) in
          (o, ground (arith, e_o), inr (inr (inl (ground arith, good, a))))
    ]
  ]
]
