-- ===== src/Base/Bits/Step.antt =====
-- The bit operations, one binary digit at a time.
use Prim.Native.Nat.{
  ℕ, zero, suc, ◌+◌, ◌*◌, ◌/◌, ◌%◌, ◌≤◌, ◌<◌, min, max, bit_and, bit_or, bit_xor, digits, bitwise,
  differ, bit_and-bitwise, bit_or-bitwise, bit_xor-bitwise,
}
use mathlib.Core.Path.{◌≡◌, ◌∙◌, refl, sym}
use native.Mathlib.Omega.{arith}

module _ (z : ℕ → ℕ) (f : ℕ → ℕ → ℕ) where
  -- No digits are left of 0.
  none_left : (fuel b : ℕ) → digits z f fuel zero b ≡ z b
  none_left zero b = refl
  none_left (suc fuel) b = refl

  -- Fuel above the number changes nothing.
  enough : (a b fuel more : ℕ) → a ≤ more → a ≤ fuel → digits z f more a b ≡ digits z f fuel a b
  enough zero b fuel more h k = none_left more b ∙ sym (none_left fuel b)
  enough (suc a) b zero more h k = absurd (omega arith)
  enough (suc a) b (suc fuel) zero h k = absurd (omega arith)
  enough (suc a) b (suc fuel) (suc more) h k =
      omega (arith, enough (suc a / 2) (b / 2) fuel more (omega arith) (omega arith))

  low_digit :
      (a b : ℕ)
      → f (suc a % 2) (b % 2) + 2 * bitwise z f (suc a / 2) (b / 2) ≡ bitwise z f (suc a) b
  low_digit a b =
      let half = suc a / 2 in omega (arith, enough half (b / 2) half a (omega arith) (omega arith))

pub bit_and_step : (a b : ℕ) → bit_and a b ≡ min (a % 2) (b % 2) + 2 * bit_and (a / 2) (b / 2)
bit_and_step zero b = simp bit_and-bitwise (omega arith)
bit_and_step (suc a) b = simp bit_and-bitwise (sym (low_digit (λ rest. 0) min a b))

pub bit_or_step : (a b : ℕ) → bit_or a b ≡ max (a % 2) (b % 2) + 2 * bit_or (a / 2) (b / 2)
bit_or_step zero b = simp bit_or-bitwise (omega arith)
bit_or_step (suc a) b = simp bit_or-bitwise (sym (low_digit (λ rest. rest) max a b))

halves_upto :
    (P : ℕ → Type 0) → P 0 → ((a : ℕ) → P (suc a / 2) → P (suc a)) → (bound a : ℕ) → a ≤ bound → P a
halves_upto P base step bound zero h = base
halves_upto P base step zero (suc a) h = absurd (omega arith)
halves_upto P base step (suc bound) (suc a) h =
    step a (halves_upto P base step bound (suc a / 2) (omega arith))

-- Induction on the binary digits.
pub by_halves : (P : ℕ → Type 0) → P 0 → ((a : ℕ) → P (suc a / 2) → P (suc a)) → (a : ℕ) → P a
by_halves P base step a = halves_upto P base step a a (omega arith)

differ_mod : (a b : ℕ) → a < 2 → b < 2 → differ a b ≡ (a + b) % 2
differ_mod zero zero h k = refl
differ_mod zero (suc zero) h k = refl
differ_mod (suc zero) zero h k = refl
differ_mod (suc zero) (suc zero) h k = refl
differ_mod (suc (suc a)) b h k = absurd (omega arith)
differ_mod zero (suc (suc b)) h k = absurd (omega arith)
differ_mod (suc zero) (suc (suc b)) h k = absurd (omega arith)

pub bit_xor_step : (a b : ℕ) → bit_xor a b ≡ bit_xor (a / 2) (b / 2) * 2 + (a + b) % 2
bit_xor_step zero b = simp bit_xor-bitwise (omega arith)
bit_xor_step (suc a) b = simp bit_xor-bitwise (
    omega (
      arith,
      low_digit (λ y. y) differ a b,
      differ_mod (suc a % 2) (b % 2) (omega arith) (omega arith),
    ))
