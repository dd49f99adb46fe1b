-- ===== src/Crc32/Detect.antt =====
-- The checksum tells two messages apart that differ in one byte.
use libcsp_dphi.Base.{
  ℕ, zero, suc, ◌*◌, ◌/◌, ◌%◌, ◌^◌, ◌<◌, ◌≡◌, refl, sym, ap, ◌∙◌, ◌++◌, ◌≢◌, arith, bit_xor, List,
  [], ◌∷◌, All, All-append, IsByte,
}
use libcsp_dphi.Base.Bits.Xor.{bit_xor_self, bit_xor_comm, bit_xor-lt}
use libcsp_dphi.Crc32.{memory}
use libcsp_dphi.Crc32.Bitwise.{
  polynomial, shift_bit, shift_bits, shift_byte, divide, xor_cancel, xor_zero, shift_bit-xor,
  memory-eq-divide,
}

shift_bit-lt : (c : ℕ) → c < 2 ^ 32 → shift_bit c < 2 ^ 32
unfolding shift_bit
shift_bit-lt c h = bit_xor-lt 32 (c / 2) (c % 2 * polynomial) (omega arith) (omega arith)

-- Only zero shifts to zero: the polynomial has its top bit, which a halved register has not.
shift_bit-zero : (c : ℕ) → c < 2 ^ 32 → shift_bit c ≡ 0 → c ≡ 0
unfolding shift_bit
shift_bit-zero c h e = omega (arith, xor_zero (c / 2) (c % 2 * polynomial) e)

shift_bit-injective : (a b : ℕ) → a < 2 ^ 32 → b < 2 ^ 32 → shift_bit a ≡ shift_bit b → a ≡ b
shift_bit-injective a b h k e = xor_zero a b (
    shift_bit-zero (bit_xor a b) (bit_xor-lt 32 a b h k)
      (shift_bit-xor a b ∙ rw e (bit_xor_self (shift_bit b))))

shift_bits-lt : (n c : ℕ) → c < 2 ^ 32 → shift_bits n c < 2 ^ 32
unfolding shift_bits
shift_bits-lt zero c h = h
shift_bits-lt (suc n) c h = shift_bits-lt n (shift_bit c) (shift_bit-lt c h)

shift_bits-injective :
    (n a b : ℕ) → a < 2 ^ 32 → b < 2 ^ 32 → shift_bits n a ≡ shift_bits n b → a ≡ b
unfolding shift_bits
shift_bits-injective zero a b h k e = e
shift_bits-injective (suc n) a b h k e =
    shift_bit-injective a b h k
      (shift_bits-injective n (shift_bit a) (shift_bit b) (shift_bit-lt a h) (shift_bit-lt b k) e)

shift_byte-lt : (c : ℕ) → c < 2 ^ 32 → shift_byte c < 2 ^ 32
unfolding shift_byte
shift_byte-lt = shift_bits-lt 8

shift_byte-injective : (a b : ℕ) → a < 2 ^ 32 → b < 2 ^ 32 → shift_byte a ≡ shift_byte b → a ≡ b
unfolding shift_byte
shift_byte-injective = shift_bits-injective 8

divide-injective :
    (bytes : List ℕ) (a b : ℕ)
    → All IsByte bytes
    → a < 2 ^ 32
    → b < 2 ^ 32
    → divide a bytes ≡ divide b bytes
    → a ≡ b
unfolding divide
divide-injective [] a b h ha hb e = e
divide-injective (x ∷ bytes) a b h ha hb e = xor_cancel a b x (
    shift_byte-injective (bit_xor a x) (bit_xor b x) (fits a ha) (fits b hb) (
      divide-injective bytes _ _ h.1 (shift_byte-lt _ (fits a ha)) (shift_byte-lt _ (fits b hb)) e))
  where
    fits : (c : ℕ) → c < 2 ^ 32 → bit_xor c x < 2 ^ 32
    fits c hc = bit_xor-lt 32 c x hc (omega arith)

divide-append : (c : ℕ) (xs ys : List ℕ) → divide c (xs ++ ys) ≡ divide (divide c xs) ys
unfolding divide
divide-append c [] ys = refl
divide-append c (x ∷ xs) ys = divide-append (shift_byte (bit_xor c x)) xs ys

divide-lt : (c : ℕ) (xs : List ℕ) → All IsByte xs → c < 2 ^ 32 → divide c xs < 2 ^ 32
unfolding divide
divide-lt c [] b h = h
divide-lt c (x ∷ xs) b h =
    divide-lt (shift_byte (bit_xor c x)) xs b.1
      (shift_byte-lt (bit_xor c x) (bit_xor-lt 32 c x h (omega arith)))

-- A message that differs from another in one byte has another checksum.
pub memory_detects_byte :
    (before after : List ℕ) (x y : ℕ)
    → All IsByte before
    → All IsByte after
    → IsByte x
    → IsByte y
    → x ≢ y
    → memory (before ++ x ∷ after) ≢ memory (before ++ y ∷ after)
unfolding divide
memory_detects_byte before after x y hb ha hx hy ne e = ne (
    xor_cancel x y c (
      rw (bit_xor_comm x c, bit_xor_comm y c)
        (shift_byte-injective (bit_xor c x) (bit_xor c y) (fits x hx) (fits y hy) (
          divide-injective after _ _ ha (shift_byte-lt _ (fits x hx)) (shift_byte-lt _ (fits y hy))
            same))))
  where
    c : ℕ
    c = divide 0xFFFFFFFF before

    fits : (b : ℕ) → IsByte b → bit_xor c b < 2 ^ 32
    fits b h = bit_xor-lt 32 c b (divide-lt 0xFFFFFFFF before hb (omega arith)) (omega arith)

    division :
        (b : ℕ)
        → IsByte b
        → memory (before ++ b ∷ after)
          ≡ bit_xor (divide (shift_byte (bit_xor c b)) after) 0xFFFFFFFF
    division b h =
        memory-eq-divide (before ++ b ∷ after) (All-append IsByte before (b ∷ after) hb (h, ha))
        ∙ ap (λ t. bit_xor t 0xFFFFFFFF) (divide-append 0xFFFFFFFF before (b ∷ after))

    same : divide (shift_byte (bit_xor c x)) after ≡ divide (shift_byte (bit_xor c y)) after
    same = xor_cancel _ _ 0xFFFFFFFF (sym (division x hx) ∙ e ∙ division y hy)
