-- ===== src/Cache/Table/Primitives.antt =====
-- The chains and the heap agree, and the three changes of the table keep it so.
use operation_systems.Base.{ℕ, ◌<◌, ◌≡◌, true, Option, none, some, arith}
use operation_systems.Base.Store.{
  contains, distinct, contains-unlink_ne, contains-unlink_self, contains_of_unlink, distinct-unlink,
}
use operation_systems.Cache.Entry.{Entry}
use operation_systems.Cache.Table.{Cache, bucket_of, put, link, remove}

-- The bucket of the entry at an address, if one is live there.
abbrev pub bucket_at : Cache → ℕ → Option ℕ
bucket_at c a = elim (c.heap a) [ none ↦ none | some e ↦ some (bucket_of c e.key) ]

-- A chain holds live entries of its own bucket, each once; each live entry stands in its chain; and
-- no two live entries have one key.
pub record Linked (c : Cache) : Type 0 where
  pub some_buckets : 0 < c.nbuckets
  pub chained : (i a : ℕ) → contains a (c.buckets i) ≡ true → bucket_at c a ≡ some i
  pub live :
      (a : ℕ) (e : Entry) → c.heap a ≡ some e → contains a (c.buckets (bucket_of c e.key)) ≡ true
  pub unique :
      (a b : ℕ) (e f : Entry) → c.heap a ≡ some e → c.heap b ≡ some f → e.key ≡ f.key → a ≡ b
  pub distinct_links : (i : ℕ) → distinct (c.buckets i) ≡ true

module _ {c : Cache} (linked : Linked c) where
  open linked use {chained, live, unique, distinct_links}

  pub put-Linked : (a : ℕ) (e f : Entry) → c.heap a ≡ some e → f.key ≡ e.key → Linked (put c a f)
  put-Linked a e f at same = record {
    some_buckets = linked.some_buckets;
    chained = λ i b h. ground (arith, chained i b);
    live = λ b g h. ground (arith, live b g, live a e at);
    unique = λ b d g h p q k. ground (arith, unique b d g h, unique a d e h, unique b a g e);
    distinct_links = distinct_links;
  }

  pub link-Linked :
      (a : ℕ) (f : Entry)
      → c.heap a ≡ none
      → ((b : ℕ) (g : Entry) → c.heap b ≡ some g → ¬ (g.key ≡ f.key))
      → Linked (link c a f)
  link-Linked a f free new = record {
    some_buckets = linked.some_buckets;
    chained = λ i b h. ground (arith, chained i b);
    live = λ b g h. ground (arith, live b g);
    unique = λ b d g h p q k. ground (arith, unique b d g h, new b g, new d h);
    distinct_links = λ i. ground (arith, distinct_links i, chained i a);
  }

  pub remove-Linked : (a : ℕ) (e : Entry) → c.heap a ≡ some e → Linked (remove c a e.key)
  remove-Linked a e at = record {
    some_buckets = linked.some_buckets;
    chained = λ i b h. ground (
      arith,
      chained i b,
      contains_of_unlink a b (c.buckets i),
      contains-unlink_self a (c.buckets i),
      distinct_links i,
    );
    live =
        λ b g h. ground (arith, live b g, contains-unlink_ne a b (c.buckets (bucket_of c g.key)));
    unique = λ b d g h p q k. ground (arith, unique b d g h);
    distinct_links = λ i. ground (arith, distinct_links i, distinct-unlink a (c.buckets i));
  }
