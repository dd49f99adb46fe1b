-- ===== src/Base/Bits/Xor.antt =====
-- The laws of exclusive or.
use Prim.Native.Nat.{ℕ, zero, suc, ◌+◌, ◌*◌, ◌/◌, ◌%◌, ◌^◌, ◌≤◌, ◌<◌, bit_xor, bit_xor-bitwise}
use mathlib.Core.Path.{◌≡◌, refl, ap}
use native.Mathlib.Nat.{pow-suc}
use native.Mathlib.Omega.{arith}
use libcsp_dphi.Base.Bits.Step.{bit_xor_step, by_halves}

pub bit_xor-half : (a b : ℕ) → bit_xor a b / 2 ≡ bit_xor (a / 2) (b / 2)
bit_xor-half a b = omega (arith, bit_xor_step a b)

pub bit_xor-odd : (a b : ℕ) → bit_xor a b % 2 ≡ (a + b) % 2
bit_xor-odd a b = omega (arith, bit_xor_step a b)

pub bit_xor-zero : (a : ℕ) → bit_xor a 0 ≡ a
bit_xor-zero =
    by_halves (λ a. bit_xor a 0 ≡ a) refl (λ a h. omega (arith, bit_xor_step (suc a) 0, h))

zero_xor : (b : ℕ) → bit_xor 0 b ≡ b
zero_xor b = simp bit_xor-bitwise

pub bit_xor_self : (a : ℕ) → bit_xor a a ≡ 0
bit_xor_self =
    by_halves (λ a. bit_xor a a ≡ 0) refl (λ a h. omega (arith, bit_xor_step (suc a) (suc a), h))

comm_upto : (n a b : ℕ) → a ≤ n → bit_xor a b ≡ bit_xor b a
comm_upto n zero b h = omega (arith, bit_xor-zero b, zero_xor b)
comm_upto zero (suc a) b h = absurd (omega arith)
comm_upto (suc n) (suc a) b h = omega (
  arith,
  bit_xor_step (suc a) b,
  bit_xor_step b (suc a),
  comm_upto n (suc a / 2) (b / 2) (omega arith),
)

pub bit_xor_comm : (a b : ℕ) → bit_xor a b ≡ bit_xor b a
bit_xor_comm a b = comm_upto a a b (omega arith)

assoc_upto : (n a b c : ℕ) → a ≤ n → bit_xor (bit_xor a b) c ≡ bit_xor a (bit_xor b c)
assoc_upto n zero b c h = rw (zero_xor b, zero_xor (bit_xor b c))
assoc_upto zero (suc a) b c h = absurd (omega arith)
assoc_upto (suc n) (suc a) b c h = omega (
  arith,
  bit_xor_step (bit_xor (suc a) b) c,
  bit_xor_step (suc a) (bit_xor b c),
  bit_xor-odd (suc a) b,
  bit_xor-odd b c,
  step_left,
  step_right,
  assoc_upto n (suc a / 2) (b / 2) (c / 2) (omega arith),
)
  where
    step_left :
        bit_xor (bit_xor (suc a) b / 2) (c / 2) ≡ bit_xor (bit_xor (suc a / 2) (b / 2)) (c / 2)
    step_left = rw (bit_xor-half (suc a) b)

    step_right :
        bit_xor (suc a / 2) (bit_xor b c / 2) ≡ bit_xor (suc a / 2) (bit_xor (b / 2) (c / 2))
    step_right = rw (bit_xor-half b c)

pub bit_xor_assoc : (a b c : ℕ) → bit_xor (bit_xor a b) c ≡ bit_xor a (bit_xor b c)
bit_xor_assoc a b c = assoc_upto a a b c (omega arith)

twice : (k m : ℕ) → m * 2 ^ k + m * 2 ^ k ≡ m * 2 ^ suc k
twice k m = rw (pow-suc 2 k) (omega arith)

-- A number below `2 ^ k` changes the low `k` bits only.
pub bit_xor_low :
    (k q r b : ℕ) → r < 2 ^ k → b < 2 ^ k → bit_xor (q * 2 ^ k + r) b ≡ q * 2 ^ k + bit_xor r b
bit_xor_low zero q zero zero h g = omega (arith, bit_xor-zero (q * 1 + 0), bit_xor-zero 0)
bit_xor_low zero q (suc r) b h g = absurd (omega arith)
bit_xor_low zero q zero (suc b) h g = absurd (omega arith)
bit_xor_low (suc k) q r b h g = omega (
  arith,
  bit_xor_step (q * 2 ^ suc k + r) b,
  bit_xor_step r b,
  halved,
  twice k q,
  bit_xor_low k q (r / 2) (b / 2) (omega (arith, pow-suc 2 k)) (omega (arith, pow-suc 2 k)),
)
  where
    halved : bit_xor ((q * 2 ^ suc k + r) / 2) (b / 2) ≡ bit_xor (q * 2 ^ k + r / 2) (b / 2)
    halved = ap (λ t. bit_xor t (b / 2)) (omega (arith, twice k q))

pub bit_xor-lt : (k a b : ℕ) → a < 2 ^ k → b < 2 ^ k → bit_xor a b < 2 ^ k
bit_xor-lt zero zero zero h g = omega (arith, bit_xor-zero 0)
bit_xor-lt zero (suc a) b h g = absurd (omega arith)
bit_xor-lt zero zero (suc b) h g = absurd (omega arith)
bit_xor-lt (suc k) a b h g = omega (
  arith,
  bit_xor_step a b,
  pow-suc 2 k,
  bit_xor-lt k (a / 2) (b / 2) (omega (arith, pow-suc 2 k)) (omega (arith, pow-suc 2 k)),
)
