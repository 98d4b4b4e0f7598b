-- ===== src/Base/Store.antt =====
-- Maps from addresses, and chains of addresses: what the heap models share.
use Prim.Native.Nat.{ℕ}
use mathlib.Core.Path.{◌≡◌, refl, sym, subst, ◌∙◌}
use mathlib.Core.Logic.{◌≢◌, inl, inr}
use mathlib.Core.Bool.{Bool, true, false, not, ◌&&◌, ◌||◌, false≢true}
use mathlib.Core.List.{List, [], ◌∷◌}
use native.Mathlib.Omega.{arith}
use operation_systems.Base.Tests.{◌==◌, if◌then◌else◌, Bool-cases, if_true, if_false}

-- A map changed at one place.
abbrev pub update {ℓ} : {A : Type ℓ} → (ℕ → A) → ℕ → A → ℕ → A
update f i v j = if i == j then v else f j

abbrev pub contains : ℕ → List ℕ → Bool
contains a [] = false
contains a (x ∷ xs) = (x == a) || contains a xs

abbrev pub distinct : List ℕ → Bool
distinct [] = true
distinct (x ∷ xs) = not (contains x xs) && distinct xs

-- A chain without the first link to `a`: the walk `while (*pp) …` that ends at the link it removes.
abbrev pub unlink : ℕ → List ℕ → List ℕ
unlink a [] = []
unlink a (x ∷ xs) = if x == a then xs else x ∷ unlink a xs

pub contains-unlink_ne :
    (a b : ℕ) (xs : List ℕ) → (a == b) ≡ false → contains b (unlink a xs) ≡ contains b xs
contains-unlink_ne a b [] h = refl
contains-unlink_ne a b (x ∷ xs) h = ground (arith, contains-unlink_ne a b xs h)

pub contains-unlink_self :
    (a : ℕ) (xs : List ℕ) → distinct xs ≡ true → contains a (unlink a xs) ≡ false
contains-unlink_self a [] h = refl
contains-unlink_self a (x ∷ xs) h = ground (arith, contains-unlink_self a xs)

pub contains_of_unlink :
    (a b : ℕ) (xs : List ℕ) → contains b (unlink a xs) ≡ true → contains b xs ≡ true
contains_of_unlink a b [] h = h
contains_of_unlink a b (x ∷ xs) h = ground (arith, contains_of_unlink a b xs)

pub distinct-unlink : (a : ℕ) (xs : List ℕ) → distinct xs ≡ true → distinct (unlink a xs) ≡ true
distinct-unlink a [] h = refl
distinct-unlink a (x ∷ xs) h = ground (arith, distinct-unlink a xs, contains_of_unlink a x xs)

pub not-contains-cons :
    (a b : ℕ) (xs : List ℕ) → contains b (a ∷ xs) ≡ false → (a ≢ b) × (contains b xs ≡ false)
not-contains-cons a b xs h = ((λ e. ground arith), ground arith)

pub distinct-cons :
    (a : ℕ) (xs : List ℕ)
    → distinct (a ∷ xs) ≡ true
    → (contains a xs ≡ false) × (distinct xs ≡ true)
distinct-cons a xs h = (ground arith, ground arith)

pub ne_of_contains : (a b : ℕ) (xs : List ℕ) → contains a xs ≡ false → contains b xs ≡ true → a ≢ b
ne_of_contains a b xs h k e = false≢true (sym h ∙ subst (λ (c : ℕ). contains c xs ≡ true) (sym e) k)

pub update_ne {ℓ} : {A : Type ℓ} (f : ℕ → A) (i : ℕ) (v : A) (j : ℕ) → i ≢ j → update f i v j ≡ f j
update_ne f i v j h = ground arith

-- What holds of the new value, and of every other value, holds of the changed map.
pub update_all {ℓ κ} :
    {A : Type ℓ} (P : ℕ → A → Type κ) (f : ℕ → A) (i : ℕ) (v : A)
    → P i v
    → ((j : ℕ) → j ≢ i → P j (f j))
    → (j : ℕ) → P j (update f i v j)
update_all P f i v new old j = elim (Bool-cases (i == j)) [
  | inl same ↦
      let e : i ≡ j = ground (arith, same) in
      subst (λ w. P j w) (if_true v (f j) same) (subst (λ (k : ℕ). P k v) e new)
  | inr other ↦ subst (λ w. P j w) (if_false v (f j) other) (old j (λ e. ground (arith, other, e)))
]
