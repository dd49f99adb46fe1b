-- ===== src/Base/Powers.antt =====
-- Powers of two with a sum for an exponent.
use Prim.Native.Nat.{ℕ, zero, suc, ◌+◌, ◌-◌, ◌*◌, ◌^◌, ◌≤◌}
use mathlib.Core.Path.{◌≡◌, ap, ◌∙◌}
use native.Mathlib.Nat.{pow-suc, one-le-pow}
use native.Mathlib.Omega.{arith}

pub two-pow-add : (m n : ℕ) → 2 ^ (m + n) ≡ 2 ^ m * 2 ^ n
two-pow-add m zero = ap (λ k. 2 ^ k) {x = m + 0} {y = m} (omega arith) ∙ omega arith
two-pow-add m (suc n) =
    ap (λ k. 2 ^ k) {x = m + suc n} {y = suc (m + n)} (omega arith)
    ∙ omega (
      arith,
      pow-suc 2 (m + n),
      pow-suc 2 n,
      two-pow-add m n,
      ap (λ (t : ℕ). 2 ^ m * t) (pow-suc 2 n),
    )

pub two-pow-split : (k n : ℕ) → k ≤ n → 2 ^ n ≡ 2 ^ (n - k) * 2 ^ k
two-pow-split k n h = ap (λ t. 2 ^ t) {x = n} {y = n - k + k} (omega arith) ∙ two-pow-add (n - k) k

pub two-pow-pos : (n : ℕ) → 1 ≤ 2 ^ n
two-pow-pos n = one-le-pow n 2 (omega arith)
