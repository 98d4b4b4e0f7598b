-- ===== src/Base/Totals.antt =====
-- A number for each of the first `n` places of a map, added up.
use Prim.Native.Nat.{ℕ, zero, suc, ◌+◌, ◌*◌, ◌≤◌, ◌<◌}
use mathlib.Core.Path.{◌≡◌, refl}
use native.Mathlib.Omega.{arith}
use native.Mathlib.Decide.{dec_lt}
use operation_systems.Base.Store.{update}

module _ {ℓ} {A : Type ℓ} (weight : A → ℕ) where
  unfoldable pub total : ℕ → (ℕ → A) → ℕ
  total zero f = 0
  total (suc n) f = weight (f n) + total n f

  total-update_above :
      (n : ℕ) (f : ℕ → A) (i : ℕ) (a : A) → n ≤ i → total n (update f i a) ≡ total n f
  unfolding total
  total-update_above zero f i a h = refl
  total-update_above (suc n) f i a h = ground (arith, total-update_above n f i a)

  pub total-update :
      (n : ℕ) (f : ℕ → A) (i : ℕ) (a : A)
      → i < n
      → total n (update f i a) + weight (f i) ≡ total n f + weight a
  unfolding total
  total-update zero f i a h = ground (arith, h)
  total-update (suc n) f i a h = elim (dec_lt i n) [
    | yes less ↦ ground (arith, total-update n f i a less)
    | no more ↦ ground (arith, total-update_above n f i a)
  ]

  pub total_all : (n k : ℕ) (f : ℕ → A) → ((i : ℕ) → i < n → weight (f i) ≡ k) → total n f ≡ n * k
  unfolding total
  total_all zero k f h = omega arith
  total_all (suc n) k f h = ground (arith, h n, total_all n k f (λ i l. h i (omega (arith, l))))
