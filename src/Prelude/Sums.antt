-- ===== src/Prelude/Sums.antt =====
-- Weights summed over a list, and what a write of one element does to the sum.
use Prim.Native.Nat.{ℕ, zero, suc, ◌+◌, ◌*◌, ◌≤◌}
use mathlib.Core.Path.{◌≡◌, refl}
use mathlib.Core.Logic.{◌≢◌, ◌⊎◌, inl, inr}
use mathlib.Core.List.{List, [], ◌∷◌}
use mathlib.Core.Option.{some}
use native.Mathlib.Omega.{arith}
use native.Mathlib.Decide.{dec_lt}
use nnos.Prelude.Lists.{get_elem?, set, replicate}

module _ {ℓ} {A : Type ℓ} where
  -- What stands in the list after a write is the new element or an old one.
  pub set-cases :
      (xs : List A) (k j : ℕ) (a v b : A)
      → get_elem? xs k ≡ some a
      → get_elem? (set xs k v) j ≡ some b
      → (b ≡ v) ⊎ ((k ≢ j) × (get_elem? xs j ≡ some b))
  set-cases [] k j a v b h e = cc
  set-cases (x ∷ xs) zero zero a v b h e = inl (cc)
  set-cases (x ∷ xs) zero (suc j) a v b h e = inr (omega arith, e)
  set-cases (x ∷ xs) (suc k) zero a v b h e = inr (omega arith, e)
  set-cases (x ∷ xs) (suc k) (suc j) a v b h e = elim (set-cases xs k j a v b h e) [
    | inl new ↦ inl new
    | inr (ne, old) ↦ inr ((λ q. ne (omega arith)), old)
  ]

module _ {ℓ} {A : Type ℓ} (w : A → ℕ) where
  unfoldable pub total : List A → ℕ
  total [] = 0
  total (x ∷ xs) = w x + total xs

  pub total-set :
      (xs : List A) (k : ℕ) (a b : A)
      → get_elem? xs k ≡ some a
      → total (set xs k b) + w a ≡ total xs + w b
  unfolding total
  total-set [] k a b h = cc
  total-set (x ∷ xs) zero a b h = ground arith
  total-set (x ∷ xs) (suc k) a b h = omega (arith, total-set xs k a b h)

  pub le-total : (xs : List A) (k : ℕ) (a : A) → get_elem? xs k ≡ some a → w a ≤ total xs
  unfolding total
  le-total [] k a h = cc
  le-total (x ∷ xs) zero a h = ground arith
  le-total (x ∷ xs) (suc k) a h = omega (arith, le-total xs k a h)

  pub add-le-total :
      (xs : List A) (i j : ℕ) (a b : A)
      → get_elem? xs i ≡ some a
      → get_elem? xs j ≡ some b
      → i ≢ j
      → w a + w b ≤ total xs
  unfolding total
  add-le-total [] i j a b h k ne = cc
  add-le-total (x ∷ xs) zero zero a b h k ne = absurd (ne refl)
  add-le-total (x ∷ xs) zero (suc j) a b h k ne = ground (arith, le-total xs j b k)
  add-le-total (x ∷ xs) (suc i) zero a b h k ne = ground (arith, le-total xs i a h)
  add-le-total (x ∷ xs) (suc i) (suc j) a b h k ne =
      omega (arith, add-le-total xs i j a b h k (λ e. ne (omega arith)))

  pub total-replicate : (n : ℕ) (a : A) → total (replicate n a) ≡ n * w a
  unfolding total
  total-replicate zero a = omega arith
  total-replicate (suc n) a = grind (arith, total-replicate n a)

  -- a sum that is not 0 has a part that is not
  pub total-pos :
      (xs : List A) → 1 ≤ total xs → (k : ℕ) × (a : A) × (get_elem? xs k ≡ some a) × (1 ≤ w a)
  unfolding total
  total-pos [] h = absurd (omega arith)
  total-pos (x ∷ xs) h = elim (dec_lt 0 (w x)) [
    | yes p ↦ (0, x, refl, omega (arith, p))
    | no n ↦ (let (k, a, e, q) = total-pos xs (omega (arith, n)) in (suc k, a, e, q))
  ]
