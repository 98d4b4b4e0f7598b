-- ===== src/Cache/Entry/Change.antt =====
-- What the holders of an entry may do to it, and what no such change undoes.
use operation_systems.Base.{
  ℕ, ◌+◌, ◌≤◌, ◌<◌, ◌≡◌, refl, sym, subst, ◌∙◌, inl, inr, Bool, true, List, [], ◌++◌, Option, some,
  arith, length, take, append-nil,
}
use operation_systems.Cache.Entry.{
  Entry, Outcome, size_mod, cache_append_data, cache_mark_complete, cache_mark_failed, contents,
  IsValid, Reallocates,
}
use operation_systems.Cache.Entry.Append.{Appended, cache_append_data_lem}

-- One call on an entry that is held, with what it leaves behind.
pub data Change (e : Entry) : Outcome → Type 0 where
  appends :
      (realloc : List ℕ → ℕ → Option (List ℕ)) (src : List ℕ) (len : ℕ) (o : Outcome)
      → Reallocates realloc
      → len ≤ length src
      → e.size + len < size_mod
      → cache_append_data realloc e src len ≡ some o
      → Change e o
  completes : Change e (cache_mark_complete e)
  fails : Change e (cache_mark_failed e)

pub record Keeps (e f : Entry) : Type 0 where
  pub valid : IsValid f
  pub key : f.key ≡ e.key
  pub refcnt : f.refcnt ≡ e.refcnt
  pub grown : (rest : List ℕ) × (contents f ≡ contents e ++ rest)
  pub completed : e.complete ≡ true → f.complete ≡ true
  pub broken : e.failed ≡ true → f.failed ≡ true

-- An entry with other flags.
reflagged :
    (e : Entry) (c f : Bool)
    → IsValid e
    → (e.complete ≡ true → c ≡ true)
    → (e.failed ≡ true → f ≡ true)
    → Keeps e (record e { complete = c; failed = f })
reflagged e c f v hc hf = record {
  valid = record { allocated = v.allocated; fits = v.fits };
  key = refl;
  refcnt = refl;
  grown = ([], sym (append-nil (contents e)));
  completed = hc;
  broken = hf;
}

failed-Keeps : (e f : Entry) → IsValid e → f ≡ record e { failed = true } → Keeps e f
failed-Keeps e f v same = rw same (reflagged e e.complete true v (λ h. h) (λ h. refl))

Appended-Keeps :
    (e : Entry) (src : List ℕ) (len : ℕ) (o : Outcome) → Appended e src len o → Keeps e o.entry
Appended-Keeps e src len o a = record {
  valid = a.valid;
  key = a.key;
  refcnt = a.refcnt;
  grown = (take len src, a.extended);
  completed = λ h. a.complete ∙ h;
  broken = λ h. a.failed ∙ h;
}

-- A change keeps the entry well formed, its key and its count; it only ever adds to the contents,
-- and it takes neither flag back.
pub Change-Keeps : {e : Entry} {o : Outcome} → IsValid e → Change e o → Keeps e o.entry
unfolding cache_mark_complete cache_mark_failed
Change-Keeps {e} v (appends realloc src len o r room small run) =
    let (p, run', cases) = cache_append_data_lem realloc e src len r v room small in
    let same : p ≡ o = ground (arith, run, run') in
    subst (λ (q : Outcome). Keeps e q.entry) same
      (elim cases [
        | inl (_, q) ↦ rw q (reflagged e e.complete e.failed v (λ h. h) (λ h. h))
        | inr (inl (_, _, q)) ↦ rw q (reflagged e e.complete e.failed v (λ h. h) (λ h. h))
        | inr (inr (inl (_, _, a))) ↦ Appended-Keeps e src len p a
        | inr (inr (inr (_, _, _, f))) ↦ failed-Keeps e p.entry v f.entry
      ])
Change-Keeps {e} v completes = reflagged e true e.failed v (λ h. refl) (λ h. h)
Change-Keeps {e} v fails = reflagged e e.complete true v (λ h. h) (λ h. refl)
