-- ===== src/Storage/Threads/Rank.antt =====
-- How many nodes stand behind a node of the list: the order in which the locks are taken.
use operation_systems.Base.{
  ℕ, ◌+◌, ◌<◌, ◌≡◌, ◌≢◌, inl, inr, true, List, [], ◌∷◌, Option, some, arith, ◌==◌, if◌then◌else◌,
  Bool-cases, length, subst,
}
use operation_systems.Base.Store.{contains, distinct, distinct-cons, ne_of_contains}
use operation_systems.Storage.{Node}
use operation_systems.Storage.Links.{addresses, Linked}
use operation_systems.Storage.Threads.{next_at}
use operation_systems.Storage.Threads.Relink.{contains-next_at}

abbrev pub rank : List (ℕ × List ℕ) → ℕ → ℕ
rank [] a = 0
rank ((x, v) ∷ q) a = if x == a then length q + 1 else rank q a

pub rank-le : (q : List (ℕ × List ℕ)) (a : ℕ) → rank q a < length q + 1
rank-le [] a = ground arith
rank-le ((x, v) ∷ q) a = ground (arith, rank-le q a)

rank_behind :
    (x : ℕ) (v : List ℕ) (q : List (ℕ × List ℕ)) (a p : ℕ)
    → x ≢ a
    → x ≢ p
    → rank q a < rank q p
    → rank ((x, v) ∷ q) a < rank ((x, v) ∷ q) p
rank_behind x v q a p na np h = ground (arith, na, np, h)

rank_second :
    (x : ℕ) (v : List ℕ) (y : ℕ) (w : List ℕ) (q : List (ℕ × List ℕ))
    → distinct (x ∷ y ∷ addresses q) ≡ true
    → rank ((x, v) ∷ (y, w) ∷ q) y < rank ((x, v) ∷ (y, w) ∷ q) x
rank_second x v y w q d = ground (arith, d)

-- A link leads to a node of lower rank.
pub rank-next_at :
    (nd : ℕ → Option Node) (q : List (ℕ × List ℕ)) (p a : ℕ)
    → Linked nd q
    → distinct (addresses q) ≡ true
    → contains p (addresses q) ≡ true
    → next_at nd p ≡ some (some a)
    → rank q a < rank q p
rank-next_at nd [] p a l d h e = ground (arith, h)
rank-next_at nd ((x, v) ∷ []) p a (lx, l) d h e = ground (arith, lx, h, e)
rank-next_at nd ((x, v) ∷ (y, w) ∷ q) p a (lx, l) d h e = elim (Bool-cases (x == p)) [
  | inl at ↦
      let behind : List (ℕ × List ℕ) = (x, v) ∷ (y, w) ∷ q in
      let here : x ≡ p = ground (arith, at) in
      let second : y ≡ a = ground (arith, lx, at, e) in
      subst (λ (c : ℕ). rank behind a < rank behind c) here
        (subst (λ (c : ℕ). rank behind c < rank behind x) second (rank_second x v y w q d))
  | inr off ↦
      let (new, rest) = distinct-cons x (y ∷ addresses q) d in
      let in_rest : contains p (y ∷ addresses q) ≡ true = ground (arith, h, off) in
      let in_a = contains-next_at nd ((y, w) ∷ q) p a l in_rest e in
      let less = rank-next_at nd ((y, w) ∷ q) p a l rest in_rest e in
      rank_behind x v ((y, w) ∷ q) a p (ne_of_contains x a (y ∷ addresses q) new in_a)
        (λ same. ground (arith, off, same)) less
]

pub ne_of_next_at :
    (nd : ℕ → Option Node) (q : List (ℕ × List ℕ)) (p a : ℕ)
    → Linked nd q
    → distinct (addresses q) ≡ true
    → contains p (addresses q) ≡ true
    → next_at nd p ≡ some (some a)
    → p ≢ a
ne_of_next_at nd q p a l d h e same =
    let less = rank-next_at nd q p a l d h e in
    let looped = subst (λ (c : ℕ). rank q a < rank q c) same less in omega (arith, looped)
