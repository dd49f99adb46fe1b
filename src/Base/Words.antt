-- ===== src/Base/Words.antt =====
-- C integers of fixed width as numbers: casts, and the byte orders of endian.h. A word that is
-- copied to memory after `htobe32` lies there most significant byte first, on every host.
use Prim.Native.Nat.{ℕ, ◌+◌, ◌*◌, ◌/◌, ◌%◌, ◌^◌, ◌<◌}
use mathlib.Core.Path.{◌≡◌}
use native.Mathlib.Omega.{arith}
use mathlib.Core.List.{List, [], ◌∷◌}

abbrev pub u8 : ℕ → ℕ
u8 n = n % 2 ^ 8

abbrev pub u16 : ℕ → ℕ
u16 n = n % 2 ^ 16

abbrev pub u32 : ℕ → ℕ
u32 n = n % 2 ^ 32

abbrev pub u64 : ℕ → ℕ
u64 n = n % 2 ^ 64

abbrev pub IsByte : ℕ → Type 0
IsByte b = b < 2 ^ 8

abbrev pub byte_of : ℕ → ℕ → ℕ
byte_of x k = x / 2 ^ k % 2 ^ 8

abbrev pub be32 : ℕ → List ℕ
be32 x = byte_of x 24 ∷ byte_of x 16 ∷ byte_of x 8 ∷ byte_of x 0 ∷ []

abbrev pub le32 : ℕ → List ℕ
le32 x = byte_of x 0 ∷ byte_of x 8 ∷ byte_of x 16 ∷ byte_of x 24 ∷ []

abbrev pub be64 : ℕ → List ℕ
be64 x =
    byte_of x 56
    ∷ byte_of x 48
    ∷ byte_of x 40
    ∷ byte_of x 32
    ∷ byte_of x 24
    ∷ byte_of x 16
    ∷ byte_of x 8
    ∷ byte_of x 0
    ∷ []

of_be_from : ℕ → List ℕ → ℕ
of_be_from acc [] = acc
of_be_from acc (b ∷ bs) = of_be_from (acc * 2 ^ 8 + b) bs

-- The number that bytes stand for, most significant first.
unfoldable pub of_be : List ℕ → ℕ
unfolding of_be_from
of_be bs = of_be_from 0 bs

-- The same, least significant first.
unfoldable pub of_le : List ℕ → ℕ
of_le [] = 0
of_le (b ∷ bs) = b + 2 ^ 8 * of_le bs

pub of_be-be32 : (n : ℕ) → n < 2 ^ 32 → of_be (be32 n) ≡ n
unfolding of_be
of_be-be32 n small = omega arith
