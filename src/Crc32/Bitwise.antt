-- ===== src/Crc32/Bitwise.antt =====
-- The table look-up against the definition of the checksum: a division, one bit at a time, by the
-- reflected Castagnoli polynomial.
use libcsp_dphi.Base.{
  and_true, ℕ, zero, suc, ◌+◌, ◌*◌, ◌/◌, ◌%◌, ◌^◌, ◌<◌, ◌≡◌, refl, sym, ap, ◌∙◌, arith, bit_xor,
  Bool, true, length, ◌&&◌, ◌==◌, ==_iff, List, [], ◌∷◌, get_or, All, IsByte,
}
use libcsp_dphi.Base.Bits.Fields.{bit_and_low}
use libcsp_dphi.Base.Bits.Xor.{
  bit_xor-half, bit_xor-odd, bit_xor-zero, bit_xor_self, bit_xor_comm, bit_xor_assoc, bit_xor_low,
  bit_xor-lt,
}
use libcsp_dphi.Crc32.{update_byte, update, memory}
use libcsp_dphi.Crc32.Table.{crc_tab}

-- The polynomial 0x1EDC6F41 with its bits reversed.
abbrev pub polynomial : ℕ
polynomial = 0x82F63B78

-- One step of the division.
unfoldable pub shift_bit : ℕ → ℕ
shift_bit c = bit_xor (c / 2) (c % 2 * polynomial)

-- Several of them; a byte takes eight.
unfoldable pub shift_bits : ℕ → ℕ → ℕ
shift_bits zero c = c
shift_bits (suc n) c = shift_bits n (shift_bit c)

unfoldable pub shift_byte : ℕ → ℕ
unfolding shift_bits
shift_byte c = shift_bits 8 c

-- The division of a message: each byte is added at the low end and shifted through.
unfoldable pub divide : ℕ → List ℕ → ℕ
divide c [] = c
divide c (byte ∷ bytes) = divide (shift_byte (bit_xor c byte)) bytes

-- A table that holds the shifted bytes from `i` on.
agrees : ℕ → List ℕ → Bool
agrees i [] = true
agrees i (entry ∷ entries) = entry == shift_byte i && agrees (i + 1) entries

agrees-get_or :
    (entries : List ℕ) (i k : ℕ)
    → agrees i entries ≡ true
    → k < length entries
    → get_or entries k 0 ≡ shift_byte (i + k)
unfolding agrees
agrees-get_or [] i k h inside = absurd (omega arith)
agrees-get_or (entry ∷ entries) i zero h inside =
    (==_iff entry (shift_byte i)).0 (and_true (entry == shift_byte i) _ h).0
    ∙ ap shift_byte {x = i} {y = i + 0} (omega arith)
agrees-get_or (entry ∷ entries) i (suc k) h inside =
    agrees-get_or entries (i + 1) k (and_true (entry == shift_byte i) _ h).1 (omega arith)
    ∙ ap shift_byte {x = i + 1 + k} {y = i + suc k} (omega arith)

table_check : agrees 0 crc_tab ≡ true
unfolding agrees crc_tab shift_byte shift_bit
table_check = refl

table_length : length crc_tab ≡ 256
unfolding crc_tab
table_length = refl

crc_tab_lem : (b : ℕ) → b < 256 → get_or crc_tab b 0 ≡ shift_byte b
crc_tab_lem b h =
    agrees-get_or crc_tab 0 b table_check (omega (arith, table_length))
    ∙ ap shift_byte {x = 0 + b} {y = b} (omega arith)

xor_swap : (x u y v : ℕ) → bit_xor (bit_xor x u) (bit_xor y v) ≡ bit_xor (bit_xor x y) (bit_xor u v)
xor_swap x u y v = cc (
  bit_xor_assoc x u (bit_xor y v),
  bit_xor_assoc u y v,
  bit_xor_comm u y,
  bit_xor_assoc y u v,
  bit_xor_assoc x y (bit_xor u v),
)

pub xor_cancel : (a b c : ℕ) → bit_xor a c ≡ bit_xor b c → a ≡ b
xor_cancel a b c e = sym (undo a) ∙ ap (λ t. bit_xor t c) e ∙ undo b
  where
    undo : (t : ℕ) → bit_xor (bit_xor t c) c ≡ t
    undo t = rw (bit_xor_assoc t c c, bit_xor_self c) (bit_xor-zero t)

pub xor_zero : (a b : ℕ) → bit_xor a b ≡ 0 → a ≡ b
xor_zero a b e = xor_cancel a b b (e ∙ sym (bit_xor_self b))

-- The polynomial, added or not.
times_bit :
    (s t : ℕ) → s < 2 → t < 2 → bit_xor (s * polynomial) (t * polynomial) ≡ (s + t) % 2 * polynomial
times_bit zero zero h k = refl
times_bit zero (suc zero) h k = refl
times_bit (suc zero) zero h k = refl
times_bit (suc zero) (suc zero) h k = refl
times_bit (suc (suc s)) t h k = absurd (omega arith)
times_bit zero (suc (suc t)) h k = absurd (omega arith)
times_bit (suc zero) (suc (suc t)) h k = absurd (omega arith)

pub shift_bit-xor : (a b : ℕ) → shift_bit (bit_xor a b) ≡ bit_xor (shift_bit a) (shift_bit b)
unfolding shift_bit
shift_bit-xor a b =
    rw (xor_swap (a / 2) (a % 2 * polynomial) (b / 2) (b % 2 * polynomial), ← bit_xor-half a b)
      (ap (bit_xor (bit_xor a b / 2)) odd_part)
  where
    odd_part : bit_xor a b % 2 * polynomial ≡ bit_xor (a % 2 * polynomial) (b % 2 * polynomial)
    odd_part = omega (arith, bit_xor-odd a b, times_bit (a % 2) (b % 2) (omega arith) (omega arith))

shift_bit-even : (q : ℕ) → shift_bit (q * 2) ≡ q
unfolding shift_bit
shift_bit-even q =
    ap (λ t. bit_xor t (q * 2 % 2 * polynomial)) {x = q * 2 / 2} {y = q} (omega arith)
    ∙ ap (bit_xor q) {x = q * 2 % 2 * polynomial} {y = 0} (omega arith)
    ∙ bit_xor-zero q

shift_byte-xor : (a b : ℕ) → shift_byte (bit_xor a b) ≡ bit_xor (shift_byte a) (shift_byte b)
unfolding shift_byte
shift_byte-xor a b = simp shift_bit-xor

halve : (q r : ℕ) → r ≡ q * 2 → shift_bit r ≡ q
halve q r e = rw e (shift_bit-even q)

shift_byte-high : (q : ℕ) → shift_byte (q * 2 ^ 8) ≡ q
unfolding shift_byte
shift_byte-high q =
    rw
      (
        halve (q * 128) (q * 256) (omega arith),
        halve (q * 64) (q * 128) (omega arith),
        halve (q * 32) (q * 64) (omega arith),
        halve (q * 16) (q * 32) (omega arith),
        halve (q * 8) (q * 16) (omega arith),
        halve (q * 4) (q * 8) (omega arith),
        halve (q * 2) (q * 4) (omega arith),
      )
      (shift_bit-even q)

-- The low byte is looked up, the rest moves down.
shift_byte-split : (x : ℕ) → shift_byte x ≡ bit_xor (get_or crc_tab (x % 2 ^ 8) 0) (x / 2 ^ 8)
shift_byte-split x =
    ap shift_byte parts
    ∙ shift_byte-xor (x / 2 ^ 8 * 2 ^ 8) (x % 2 ^ 8)
    ∙ rw (
      shift_byte-high (x / 2 ^ 8),
      ← crc_tab_lem (x % 2 ^ 8) (omega arith),
      bit_xor_comm (x / 2 ^ 8) (get_or crc_tab (x % 2 ^ 8) 0),
    )
  where
    parts : x ≡ bit_xor (x / 2 ^ 8 * 2 ^ 8) (x % 2 ^ 8)
    parts = omega (
      arith,
      bit_xor_comm 0 (x % 2 ^ 8),
      bit_xor-zero (x % 2 ^ 8),
      bit_xor_low 8 (x / 2 ^ 8) 0 (x % 2 ^ 8) (omega arith) (omega arith),
      ap (λ t. bit_xor t (x % 2 ^ 8)) {x = x / 2 ^ 8 * 2 ^ 8 + 0} {y = x / 2 ^ 8 * 2 ^ 8}
          (omega arith),
    )

xor_byte-high : (c b : ℕ) → b < 2 ^ 8 → bit_xor c b / 2 ^ 8 ≡ c / 2 ^ 8
xor_byte-high c b h = omega (
  arith,
  ap (λ t. bit_xor t b) {x = c} {y = c / 2 ^ 8 * 2 ^ 8 + c % 2 ^ 8} (omega arith),
  bit_xor_low 8 (c / 2 ^ 8) (c % 2 ^ 8) b (omega arith) h,
  bit_xor-lt 8 (c % 2 ^ 8) b (omega arith) h,
)

update_byte-shift : (c b : ℕ) → b < 2 ^ 8 → update_byte c b ≡ shift_byte (bit_xor c b)
unfolding update_byte
update_byte-shift c b h =
    rw (shift_byte-split (bit_xor c b), bit_and_low 8 (bit_xor c b), xor_byte-high c b h)

update-divide : (c : ℕ) (bytes : List ℕ) → All IsByte bytes → update c bytes ≡ divide c bytes
unfolding update divide
update-divide c [] h = refl
update-divide c (b ∷ bytes) h =
    ap (λ t. update t bytes) (update_byte-shift c b h.0)
    ∙ update-divide (shift_byte (bit_xor c b)) bytes h.1

-- On every message of bytes the table-driven checksum is the bitwise CRC-32C: the register starts
-- with ones, each bit is divided out by the polynomial, and the result is complemented.
pub memory-eq-divide :
    (bytes : List ℕ)
    → All IsByte bytes
    → memory bytes ≡ bit_xor (divide 0xFFFFFFFF bytes) 0xFFFFFFFF
unfolding memory
memory-eq-divide bytes h = ap (λ c. bit_xor c 0xFFFFFFFF) (update-divide 0xFFFFFFFF bytes h)
