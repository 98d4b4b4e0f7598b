-- ===== src/Cache/Clients/Invariant.antt =====
-- What holds in every state that the clients reach: chains, counts and flags agree.
use operation_systems.Base.{ℕ, suc, ◌-◌, ◌<◌, ◌≡◌, refl, ◌⊎◌, true, false, List, none, some, arith}
use operation_systems.Base.Int.{pos, dec, inc}
use operation_systems.Base.Store.{update}
use operation_systems.Cache.Entry.{Entry, IsValid, new_entry}
use operation_systems.Cache.Entry.Change.{Keeps}
use operation_systems.Cache.Table.{put, link, remove}
use operation_systems.Cache.Table.Primitives.{Linked, put-Linked, link-Linked, remove-Linked}
use operation_systems.Cache.Clients.{System}

pub record Inv (s : System) : Type 0 where
  pub linked : Linked s.cache
  pub valid : (a : ℕ) (e : Entry) → s.cache.heap a ≡ some e → IsValid e
  pub counted : (a : ℕ) (e : Entry) → s.cache.heap a ≡ some e → e.refcnt ≡ pos (s.held a)
  pub unheld : (a : ℕ) → s.cache.heap a ≡ none → s.held a ≡ 0
  pub kept :
      (a : ℕ) (e : Entry)
      → s.cache.heap a ≡ some e
      → s.held a ≡ 0
      → (e.complete ≡ true) × (e.failed ≡ false)

module _ {s : System} (inv : Inv s) where
  open inv use {linked, valid, counted, unheld, kept}

  -- An entry changed in place while its holders stay the same.
  pub changed-Inv :
      (a : ℕ) (e f : Entry)
      → 0 < s.held a
      → s.cache.heap a ≡ some e
      → Keeps e f
      → Inv (record { cache = put s.cache a f; held = s.held })
  changed-Inv a e f h at k = record {
    linked = put-Linked linked a e f at k.key;
    valid = λ b g p. ground (arith, valid b g, k.valid);
    counted = λ b g p. ground (arith, counted b g, counted a e, k.refcnt);
    unheld = λ b p. ground (arith, unheld b);
    kept = λ b g p q. ground (arith, kept b g);
  }

  -- One more holder of an entry that is there.
  pub joined-Inv :
      (a : ℕ) (e : Entry)
      → s.cache.heap a ≡ some e
      → Inv (record {
        cache = put s.cache a (record e { refcnt = inc e.refcnt });
        held = update s.held a (suc (s.held a));
      })
  joined-Inv a e at = record {
    linked = put-Linked linked a e _ at refl;
    valid = λ b g p. ground (arith, valid b g, valid a e);
    counted = λ b g p. ground (arith, counted b g, counted a e);
    unheld = λ b p. ground (arith, unheld b);
    kept = λ b g p q. ground (arith, kept b g);
  }

  -- A new entry, which its writer holds.
  pub started-Inv :
      (addr : ℕ) (key : List ℕ)
      → s.cache.heap addr ≡ none
      → ((b : ℕ) (g : Entry) → s.cache.heap b ≡ some g → ¬ (g.key ≡ key))
      → Inv (record {
        cache = link s.cache addr (new_entry key);
        held = update s.held addr (suc (s.held addr));
      })
  started-Inv addr key free new = record {
    linked = link-Linked linked addr (new_entry key) free new;
    valid = λ b g p. ground (arith, valid b g);
    counted = λ b g p. ground (arith, counted b g, unheld addr);
    unheld = λ b p. ground (arith, unheld b);
    kept = λ b g p q. ground (arith, kept b g);
  }

  -- One holder less, and the entry stays: others hold it, or it is complete.
  pub left-Inv :
      (a : ℕ) (e : Entry)
      → 0 < s.held a
      → s.cache.heap a ≡ some e
      → (1 < s.held a) ⊎ ((e.complete ≡ true) × (e.failed ≡ false))
      → Inv (record {
        cache = put s.cache a (record e { refcnt = dec e.refcnt });
        held = update s.held a (s.held a - 1);
      })
  left-Inv a e h at why = record {
    linked = put-Linked linked a e _ at refl;
    valid = λ b g p. ground (arith, valid b g, valid a e);
    counted = λ b g p. ground (arith, counted b g, counted a e);
    unheld = λ b p. ground (arith, unheld b);
    kept = λ b g p q. ground (arith, kept b g);
  }

  -- The last holder is gone, and the entry with it.
  pub removed-Inv :
      (a : ℕ) (e : Entry)
      → s.held a ≡ 1
      → s.cache.heap a ≡ some e
      → Inv (record { cache = remove s.cache a e.key; held = update s.held a (s.held a - 1) })
  removed-Inv a e h at = record {
    linked = remove-Linked linked a e at;
    valid = λ b g p. ground (arith, valid b g);
    counted = λ b g p. ground (arith, counted b g);
    unheld = λ b p. ground (arith, unheld b);
    kept = λ b g p q. ground (arith, kept b g);
  }
