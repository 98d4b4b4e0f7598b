-- ===== src/Storage/Relink.antt =====
-- The three writes that swap two neighbours, at each node and on the list.
use operation_systems.Base.{ℕ, ◌≡◌, ◌≢◌, ◌∙◌, ap, true, false, List, ◌∷◌, Option, some, arith}
use operation_systems.Base.Store.{update, contains, distinct, update_ne, ne_of_contains}
use operation_systems.Storage.{Node, set_next, with_next, next_of, relink}
use operation_systems.Storage.Links.{addresses, head_of, Linked, Linked-of_agree}

pub relink_ne :
    (nd : ℕ → Option Node) (p a b j : ℕ) → p ≢ j → a ≢ j → b ≢ j → relink nd p a b j ≡ nd j
relink_ne nd p a b j hp ha hb =
    let nd1 = set_next nd p (some b) in
    let nd2 = set_next nd1 a (next_of (nd1 b)) in
    update_ne nd2 b (with_next (some a) (nd2 b)) j hb
    ∙ update_ne nd1 a (with_next (next_of (nd1 b)) (nd1 a)) j ha
    ∙ update_ne nd p (with_next (some b) (nd p)) j hp

update_eq : (nd : ℕ → Option Node) (i : ℕ) (v : Option Node) → update nd i v i ≡ v
update_eq nd i v = ground arith

module _ (nd : ℕ → Option Node) (p a b : ℕ) (pa : p ≢ a) (pb : p ≢ b) (ab : a ≢ b) where
  pub relink_prev : relink nd p a b p ≡ with_next (some b) (nd p)
  relink_prev = ground (arith, pa, pb)

  pub relink_first : relink nd p a b a ≡ with_next (next_of (nd b)) (nd a)
  relink_first = ground (arith, pa, pb, ab)

  pub relink_second : relink nd p a b b ≡ with_next (some a) (nd b)
  relink_second = ground (arith, pa, pb, ab)

relink_tail :
    (nd : ℕ → Option Node) (p a b : ℕ) (q : List ℕ)
    → distinct (p ∷ a ∷ b ∷ q) ≡ true
    → (j : ℕ) → contains j q ≡ true
    → relink nd p a b j ≡ nd j
relink_tail nd p a b q d j h =
    relink_ne nd p a b j (ne_of_contains p j q (ground (arith, d)) h)
      (ne_of_contains a j q (ground (arith, d)) h) (ne_of_contains b j q (ground (arith, d)) h)

pub relink_outside :
    (nd : ℕ → Option Node) (p a b : ℕ) (q : List ℕ) (j : ℕ)
    → contains j (p ∷ a ∷ b ∷ q) ≡ false
    → relink nd p a b j ≡ nd j
relink_outside nd p a b q j h =
    relink_ne nd p a b j (λ e. ground (arith, e)) (λ e. ground (arith, e)) (λ e. ground (arith, e))

pub distinct_three :
    (p a b : ℕ) (q : List ℕ) → distinct (p ∷ a ∷ b ∷ q) ≡ true → (p ≢ a) × (p ≢ b) × (a ≢ b)
distinct_three p a b q d = (λ e. ground (arith, e), λ e. ground (arith, e), λ e. ground (arith, e))

-- Linked nodes `p`, `a` and `b` are linked as `p`, `b` and `a` behind the writes.
pub relink-Linked :
    (nd : ℕ → Option Node) (p : ℕ) (vp : List ℕ) (a : ℕ) (va : List ℕ) (b : ℕ) (vb : List ℕ)
    (r : List (ℕ × List ℕ))
    → Linked nd ((p, vp) ∷ (a, va) ∷ (b, vb) ∷ r)
    → distinct (p ∷ a ∷ b ∷ addresses r) ≡ true
    → Linked (relink nd p a b) ((p, vp) ∷ (b, vb) ∷ (a, va) ∷ r)
relink-Linked nd p vp a va b vb r (lp, (la, (lb, rest))) d =
    let (pa, pb, ab) = distinct_three p a b (addresses r) d in
    (
      relink_prev nd p a b pa pb ab ∙ ap (with_next (some b)) lp,
      (
        relink_second nd p a b pa pb ab ∙ ap (with_next (some a)) lb,
        (
          relink_first nd p a b pa pb ab
              ∙ ap (λ (x : Option Node). with_next (next_of x) (nd a)) lb
              ∙ ap (with_next (head_of r)) la,
          Linked-of_agree nd _ r (relink_tail nd p a b (addresses r) d) rest,
        ),
      ),
    )
