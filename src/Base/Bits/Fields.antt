-- ===== src/Base/Bits/Fields.antt =====
-- `|` of disjoint fields is a sum, and `&` with a mask of low or of high ones is a remainder.
use Prim.Native.Nat.{ℕ, zero, suc, ◌+◌, ◌-◌, ◌*◌, ◌/◌, ◌%◌, ◌^◌, ◌<◌, bit_and, bit_or}
use mathlib.Core.Path.{◌≡◌, refl, ap, ap₂, ◌∙◌}
use native.Mathlib.Nat.{pow-suc, one-le-pow}
use native.Mathlib.Omega.{arith}
use libcsp_dphi.Base.Bits.Step.{bit_or_step, bit_and_step, by_halves}

bit_or-zero : (a : ℕ) → bit_or a 0 ≡ a
bit_or-zero = by_halves (λ a. bit_or a 0 ≡ a) refl (λ a h. omega (arith, bit_or_step (suc a) 0, h))

pub bit_and-zero : (a : ℕ) → bit_and a 0 ≡ 0
bit_and-zero =
    by_halves (λ a. bit_and a 0 ≡ 0) refl (λ a h. omega (arith, bit_and_step (suc a) 0, h))

twice : (k m : ℕ) → m * 2 ^ k + m * 2 ^ k ≡ m * 2 ^ suc k
twice k m = rw (pow-suc 2 k) (omega arith)

-- A number with `k` clear low bits, and one of `k` bits.
bit_or_fields : (k top low : ℕ) → low < 2 ^ k → top * 2 ^ k + low ≡ bit_or (top * 2 ^ k) low
bit_or_fields zero top low small = ground (arith, bit_or-zero top)
bit_or_fields (suc k) top low small =
    let rest = bit_or_fields k top (low / 2) (omega (arith, pow-suc 2 k)) in
    ground (arith, rest, twice k top, bit_or_step (top * 2 ^ suc k) low)

and_low_fields : (k q r : ℕ) → r < 2 ^ k → bit_and (q * 2 ^ k + r) (2 ^ k - 1) ≡ r
and_low_fields zero q r fits = rw bit_and-zero (omega arith)
and_low_fields (suc k) q r fits = ground (
  arith,
  bit_and_step (q * 2 ^ suc k + r) (2 ^ suc k - 1),
  twice k q,
  pow-suc 2 k,
  one-le-pow k 2,
  and_low_fields k q (r / 2),
)

-- A mask of `k` low ones.
pub bit_and_low : (k a : ℕ) → bit_and a (2 ^ k - 1) ≡ a % 2 ^ k
bit_and_low k a = ground (arith, one-le-pow k 2, and_low_fields k (a / 2 ^ k) (a % 2 ^ k))

-- A mask whose `k` low bits are clear looks only at what lies above them.
pub bit_and_high :
    (k q r m : ℕ) → r < 2 ^ k → bit_and (q * 2 ^ k + r) (m * 2 ^ k) ≡ bit_and q m * 2 ^ k
bit_and_high zero q r m fits =
    ap₂ bit_and {x = q * 1 + r} {y = q} {u = m * 1} {v = m} (omega arith) (omega arith)
    ∙ omega arith
bit_and_high (suc k) q r m fits = omega (
  arith,
  bit_and_step (q * 2 ^ suc k + r) (m * 2 ^ suc k),
  halved,
  twice k m,
  twice k (bit_and q m),
  bit_and_high k q (r / 2) m (omega (arith, pow-suc 2 k)),
)
  where
    halved :
        bit_and ((q * 2 ^ suc k + r) / 2) (m * 2 ^ suc k / 2)
        ≡ bit_and (q * 2 ^ k + r / 2) (m * 2 ^ k)
    halved =
        ap₂ bit_and {x = (q * 2 ^ suc k + r) / 2} {y = q * 2 ^ k + r / 2} {u = m * 2 ^ suc k / 2}
          {v = m * 2 ^ k} (omega (arith, twice k q)) (omega (arith, twice k m))

pub bit_or_disjoint : (k q : ℕ) {a b : ℕ} → a ≡ q * 2 ^ k → b < 2 ^ k → bit_or a b ≡ a + b
bit_or_disjoint k q {b} e fits = rw (e, ← bit_or_fields k q b fits)

-- The `k` low bits pass through where the other side has none.
pub bit_or_above :
    (k q r s : ℕ) → r < 2 ^ k → bit_or (q * 2 ^ k + r) (s * 2 ^ k) ≡ bit_or q s * 2 ^ k + r
bit_or_above zero q r s fits =
    ap₂ bit_or {x = q * 1 + r} {y = q} {u = s * 1} {v = s} (omega arith) (omega arith) ∙ omega arith
bit_or_above (suc k) q r s fits = omega (
  arith,
  bit_or_step (q * 2 ^ suc k + r) (s * 2 ^ suc k),
  halved,
  twice k s,
  twice k q,
  twice k (bit_or q s),
  bit_or_above k q (r / 2) s (omega (arith, pow-suc 2 k)),
)
  where
    halved :
        bit_or ((q * 2 ^ suc k + r) / 2) (s * 2 ^ suc k / 2)
        ≡ bit_or (q * 2 ^ k + r / 2) (s * 2 ^ k)
    halved =
        ap₂ bit_or {x = (q * 2 ^ suc k + r) / 2} {y = q * 2 ^ k + r / 2} {u = s * 2 ^ suc k / 2}
          {v = s * 2 ^ k} (omega (arith, twice k q)) (omega (arith, twice k s))

-- A flag that was set is found.
pub flag_set : (k a : ℕ) → 0 < bit_and (bit_or a (2 ^ k)) (2 ^ k)
flag_set zero a = omega (arith, bit_or_step a 1, bit_and_step (bit_or a 1) 1)
flag_set (suc k) a =
    let half : bit_or a (2 ^ suc k) / 2 ≡ bit_or (a / 2) (2 ^ k) = omega (
      arith,
      bit_or_step a (2 ^ suc k),
      pow-suc 2 k,
      ap (bit_or (a / 2)) {x = 2 ^ suc k / 2} {y = 2 ^ k} (omega (arith, pow-suc 2 k)),
    ) in
    let power : 2 ^ suc k / 2 ≡ 2 ^ k = omega (arith, pow-suc 2 k) in
    omega (
      arith,
      bit_and_step (bit_or a (2 ^ suc k)) (2 ^ suc k),
      ap₂ bit_and {x = bit_or a (2 ^ suc k) / 2} {y = bit_or (a / 2) (2 ^ k)} {u = 2 ^ suc k / 2}
          {v = 2 ^ k} half power,
      flag_set k (a / 2),
    )
