-- ===== src/Id/Pack.antt =====
-- The header words of csp_id.c as sums of their fields, and back.
use libcsp_dphi.Base.{ℕ, ◌+◌, ◌*◌, ◌/◌, ◌^◌, ◌<◌, ◌≡◌, ◌∙◌, ap₂, bit_or, arith, u32, refl}
use libcsp_dphi.Base.Bits.Fields.{bit_or_disjoint, bit_or_above, bit_and_low}
use libcsp_dphi.Packet.{CspId}
use libcsp_dphi.Id.V1
use libcsp_dphi.Id.V2

-- The fields fit the header.
pub record FitsV1 (id : CspId) : Type 0 where
  pub pri : id.pri < 2 ^ 2
  pub src : id.src < 2 ^ 5
  pub dst : id.dst < 2 ^ 5
  pub dport : id.dport < 2 ^ 6
  pub sport : id.sport < 2 ^ 6
  pub flags : id.flags < 2 ^ 8

pub record FitsV2 (id : CspId) : Type 0 where
  pub pri : id.pri < 2 ^ 2
  pub dst : id.dst < 2 ^ 14
  pub src : id.src < 2 ^ 14
  pub dport : id.dport < 2 ^ 6
  pub sport : id.sport < 2 ^ 6
  pub flags : id.flags < 2 ^ 6

abbrev pub sum_v1 : CspId → ℕ
sum_v1 id =
    id.pri * 2 ^ 30
    + id.src * 2 ^ 25
    + id.dst * 2 ^ 20
    + id.dport * 2 ^ 14
    + id.sport * 2 ^ 8
    + id.flags

abbrev pub sum_v2 : CspId → ℕ
sum_v2 id =
    id.pri * 2 ^ 46
    + id.dst * 2 ^ 32
    + id.src * 2 ^ 18
    + id.dport * 2 ^ 12
    + id.sport * 2 ^ 6
    + id.flags

-- Destination and source stand in the word in the other order than in the expression.
three_fields :
    (pri dst src : ℕ)
    → dst < 2 ^ 5
    → src < 2 ^ 5
    → bit_or (bit_or (pri * 2 ^ 30) (dst * 2 ^ 20)) (src * 2 ^ 25)
      ≡ pri * 2 ^ 30 + src * 2 ^ 25 + dst * 2 ^ 20
three_fields pri dst src h g =
    rw (bit_or_disjoint 30 pri {a = pri * 2 ^ 30} {b = dst * 2 ^ 20} refl (omega arith)) (
      rw shape (
        omega (
          arith,
          bit_or_above 25 (pri * 2 ^ 5) (dst * 2 ^ 20) src (omega arith),
          bit_or_disjoint 5 pri {a = pri * 2 ^ 5} {b = src} refl g,
        )))
  where
    shape : pri * 2 ^ 30 + dst * 2 ^ 20 ≡ pri * 2 ^ 5 * 2 ^ 25 + dst * 2 ^ 20
    shape = omega arith

-- One more field on the right of those that are joined.
join : (k q a b : ℕ) {x y : ℕ} → x ≡ a → y ≡ b → a ≡ q * 2 ^ k → b < 2 ^ k → bit_or x y ≡ a + b
join k q a b p r e fits = rw (p, r) (bit_or_disjoint k q e fits)

pub raw-sum_v1 : (id : CspId) → FitsV1 id → V1.raw id ≡ sum_v1 id
unfolding V1.raw
raw-sum_v1 id f =
    let a1 = id.pri * 2 ^ 30 + id.src * 2 ^ 25 + id.dst * 2 ^ 20 in
    let a2 = a1 + id.dport * 2 ^ 14 in
    let a3 = a2 + id.sport * 2 ^ 8 in
    join 8 (a3 / 2 ^ 8) a3 id.flags
      (join 14 (a2 / 2 ^ 14) a2 (id.sport * 2 ^ 8)
        (join 20 (a1 / 2 ^ 20) a1 (id.dport * 2 ^ 14)
          (first ∙ three_fields id.pri id.dst id.src f.dst f.src) (omega arith) (omega arith)
          (omega arith))
        (omega arith) (omega arith) (omega arith))
      (omega arith) (omega arith) (omega arith)
  where
    first :
        bit_or (bit_or (u32 (id.pri * 2 ^ 30)) (u32 (id.dst * 2 ^ 20))) (u32 (id.src * 2 ^ 25))
        ≡ bit_or (bit_or (id.pri * 2 ^ 30) (id.dst * 2 ^ 20)) (id.src * 2 ^ 25)
    first =
        ap₂ bit_or {u = u32 (id.src * 2 ^ 25)} {v = id.src * 2 ^ 25}
          (ap₂ bit_or {x = u32 (id.pri * 2 ^ 30)} {y = id.pri * 2 ^ 30} {u = u32 (id.dst * 2 ^ 20)}
            {v = id.dst * 2 ^ 20} (omega arith) (omega arith))
          (omega arith)

pub parse-sum_v1 : (id : CspId) → FitsV1 id → V1.parse (sum_v1 id) ≡ id
unfolding V1.parse
parse-sum_v1 id f =
    let w = sum_v1 id in
    ground (
      arith,
      bit_and_low 2 (w / 2 ^ 30),
      bit_and_low 5 (w / 2 ^ 25),
      bit_and_low 5 (w / 2 ^ 20),
      bit_and_low 6 (w / 2 ^ 14),
      bit_and_low 6 (w / 2 ^ 8),
      bit_and_low 8 (w / 2 ^ 0),
    )

pub raw-sum_v2 : (id : CspId) → FitsV2 id → V2.raw id ≡ sum_v2 id
unfolding V2.raw
raw-sum_v2 id f =
    let a1 = id.pri * 2 ^ 46 in
    let a2 = a1 + id.dst * 2 ^ 32 in
    let a3 = a2 + id.src * 2 ^ 18 in
    let a4 = a3 + id.dport * 2 ^ 12 in
    let a5 = a4 + id.sport * 2 ^ 6 in
    join 6 (a5 / 2 ^ 6) a5 id.flags
      (join 12 (a4 / 2 ^ 12) a4 (id.sport * 2 ^ 6)
        (join 18 (a3 / 2 ^ 18) a3 (id.dport * 2 ^ 12)
          (join 32 (a2 / 2 ^ 32) a2 (id.src * 2 ^ 18)
            (join 46 id.pri a1 (id.dst * 2 ^ 32) (omega arith) (omega arith) refl (omega arith))
            (omega arith) (omega arith) (omega arith))
          (omega arith) (omega arith) (omega arith))
        (omega arith) (omega arith) (omega arith))
      (omega arith) (omega arith) (omega arith)

pub parse-sum_v2 : (id : CspId) → FitsV2 id → V2.parse (sum_v2 id) ≡ id
unfolding V2.parse
parse-sum_v2 id f =
    let w = sum_v2 id in
    ground (
      arith,
      bit_and_low 2 (w / 2 ^ 46),
      bit_and_low 14 (w / 2 ^ 32),
      bit_and_low 14 (w / 2 ^ 18),
      bit_and_low 6 (w / 2 ^ 12),
      bit_and_low 6 (w / 2 ^ 6),
      bit_and_low 6 (w / 2 ^ 0),
    )

-- What a header word parses to always fits, and is that word.
pub parse_v1 : (w : ℕ) → w < 2 ^ 32 → FitsV1 (V1.parse w) × (sum_v1 (V1.parse w) ≡ w)
unfolding V1.parse
parse_v1 w h = ground (
  arith,
  bit_and_low 2 (w / 2 ^ 30),
  bit_and_low 5 (w / 2 ^ 25),
  bit_and_low 5 (w / 2 ^ 20),
  bit_and_low 6 (w / 2 ^ 14),
  bit_and_low 6 (w / 2 ^ 8),
  bit_and_low 8 (w / 2 ^ 0),
)

pub parse_v2 : (w : ℕ) → w < 2 ^ 48 → FitsV2 (V2.parse w) × (sum_v2 (V2.parse w) ≡ w)
unfolding V2.parse
parse_v2 w h = ground (
  arith,
  bit_and_low 2 (w / 2 ^ 46),
  bit_and_low 14 (w / 2 ^ 32),
  bit_and_low 14 (w / 2 ^ 18),
  bit_and_low 6 (w / 2 ^ 12),
  bit_and_low 6 (w / 2 ^ 6),
  bit_and_low 6 (w / 2 ^ 0),
)
