-- ===== src/Id/Frame.antt =====
-- csp_id_strip on what csp_id_prepend built gives the packet back, in both versions.
use libcsp_dphi.Base.{
  ℕ, ◌+◌, ◌-◌, ◌/◌, ◌^◌, ◌≤◌, ◌≡◌, refl, arith, true, false, some, inl, inr, List, [], ◌∷◌, ◌++◌,
  length, write_at, ◌==◌, if◌then◌else◌, Bool, Bool-cases, read_at-write_at, read_at-write_at_after,
  of_be, of_le,
}
use libcsp_dphi.Packet.{Packet, CspId, data_start, payload, IsSized, buffer_size}
use libcsp_dphi.Id.V1
use libcsp_dphi.Id.V2
use libcsp_dphi.Id.{prepend_fixup, strip_fixup}
use libcsp_dphi.Id.Pack.{
  FitsV1, FitsV2, sum_v1, sum_v2, raw-sum_v1, raw-sum_v2, parse-sum_v1, parse-sum_v2,
}

-- The bytes of a header read back as its word.
pub header_v1 : (id : CspId) → FitsV1 id → of_be (V1.header id false) ≡ sum_v1 id
unfolding V1.header of_be
header_v1 id f = omega (arith, raw-sum_v1 id f)

pub header_fixup_v1 : (id : CspId) → FitsV1 id → of_le (V1.header id true) ≡ sum_v1 id
unfolding V1.header of_le
header_fixup_v1 id f = omega (arith, raw-sum_v1 id f)

pub header_v2 : (id : CspId) → FitsV2 id → of_be (V2.header id ++ 0 ∷ 0 ∷ []) / 2 ^ 16 ≡ sum_v2 id
unfolding V2.header of_be
header_v2 id f = omega (arith, raw-sum_v2 id f)

-- The identifier fits the header of the version.
abbrev pub Fits : ℕ → CspId → Type 0
Fits version id = if version == 2 then FitsV2 id else FitsV1 id

pub length-header_v1 : (id : CspId) (fixup : Bool) → length (V1.header id fixup) ≡ V1.header_size
unfolding V1.header
length-header_v1 id true = refl
length-header_v1 id false = refl

pub length-header_v2 : (id : CspId) → length (V2.header id) ≡ V2.header_size
unfolding V2.header
length-header_v2 id = refl

-- What a packet is after its header is stripped from the frame that `prepend` built.
abbrev pub stripped : Packet → ℕ → List ℕ → Packet
stripped p size header = record p {
  frame_begin = data_start - size;
  frame_length = p.len + size;
  mem = write_at p.mem (data_start - size) header;
}

module _ (p : Packet) (sized : IsSized p) (short : p.len ≤ buffer_size) where
  strip-prepend_v1 :
      FitsV1 p.id
      → (fixup : Bool)
      → V1.strip (V1.prepend p fixup) fixup
        ≡ some (stripped p V1.header_size (V1.header p.id fixup))
  unfolding V1.strip V1.prepend
  strip-prepend_v1 f true = ground (
    arith,
    read_at-write_at p.mem 4 4 (V1.header p.id true),
    length-header_v1 p.id true,
    header_fixup_v1 p.id f,
    parse-sum_v1 p.id f,
  )
  strip-prepend_v1 f false = ground (
    arith,
    read_at-write_at p.mem 4 4 (V1.header p.id false),
    length-header_v1 p.id false,
    header_v1 p.id f,
    parse-sum_v1 p.id f,
  )

  strip-prepend_v2 :
      FitsV2 p.id → V2.strip (V2.prepend p) ≡ some (stripped p V2.header_size (V2.header p.id))
  unfolding V2.strip V2.prepend
  strip-prepend_v2 f = ground (
    arith,
    read_at-write_at p.mem 2 6 (V2.header p.id),
    length-header_v2 p.id,
    header_v2 p.id f,
    parse-sum_v2 p.id f,
  )

-- A packet that was framed and stripped again has its identifier, its length and its data back, in
-- both versions and with either byte order of version 1, if its identifier fits the header.
pub strip-prepend :
    (version : ℕ) (fixup : Bool) (p : Packet)
    → IsSized p
    → p.len ≤ buffer_size
    → Fits version p.id
    → (q : Packet) × (strip_fixup version fixup (prepend_fixup version fixup p) ≡ some q)
      × (q.id ≡ p.id)
      × (q.len ≡ p.len)
      × (payload q ≡ payload p)
unfolding strip_fixup prepend_fixup
strip-prepend version fixup p sized short f = elim (Bool-cases (version == 2)) [
  | inl e ↦ (
    stripped p V2.header_size (V2.header p.id),
    rw e (strip-prepend_v2 p sized short (rw e at f)),
    refl,
    refl,
    read_at-write_at_after p.mem 2 (V2.header p.id) data_start p.len
        (omega (arith, length-header_v2 p.id)),
  )
  | inr e ↦ (
    stripped p V1.header_size (V1.header p.id fixup),
    rw e (strip-prepend_v1 p sized short (rw e at f) fixup),
    refl,
    refl,
    read_at-write_at_after p.mem 4 (V1.header p.id fixup) data_start p.len
        (omega (arith, length-header_v1 p.id fixup)),
  )
]
