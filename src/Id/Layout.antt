-- ===== src/Id/Layout.antt =====
-- csp_id_prepend and csp_id_strip by the bytes of a frame: the header first, the data after it.
use libcsp_dphi.Base.{
  ℕ, ◌+◌, ◌-◌, ◌^◌, ◌≤◌, ◌<◌, ◌≡◌, ◌∙◌, ap, ap₂, arith, false, some, inl, inr, List, ◌++◌, length,
  read_at, write_at, ◌==◌, if◌then◌else◌, Bool-cases, read_at-write_at, read_at-write_at_after, u16,
  read_at_add,
}
use libcsp_dphi.Packet.{Packet, CspId, data_start, IsSized}
use libcsp_dphi.Id.V1
use libcsp_dphi.Id.V2
use libcsp_dphi.Id.{prepend, prepend_fixup, strip, strip_fixup, header_size}
use libcsp_dphi.Id.Pack.{FitsV1, FitsV2, parse-sum_v1, parse-sum_v2}
use libcsp_dphi.Id.Frame.{Fits, length-header_v1, length-header_v2, header_v1, header_v2}

-- The header bytes of the version.
abbrev pub header : ℕ → CspId → List ℕ
header version id = if version == 2 then V2.header id else V1.header id false

pub length-header : (version : ℕ) (id : CspId) → length (header version id) ≡ header_size version
length-header version id = ground (arith, length-header_v1 id false, length-header_v2 id)

-- `csp_id_prepend` in one equation.
pub prepend_lem :
    (version : ℕ) (p : Packet)
    → prepend version p ≡ record p {
      frame_begin = data_start - header_size version;
      frame_length = u16 (p.len + header_size version);
      mem = write_at p.mem (data_start - header_size version) (header version p.id);
    }
unfolding prepend prepend_fixup V1.prepend V2.prepend
prepend_lem version p = ground arith

-- The header does not touch the data.
pub read_at-prepend :
    (version : ℕ) (p : Packet) (j n : ℕ)
    → data_start ≤ j
    → read_at (prepend version p).mem j n ≡ read_at p.mem j n
read_at-prepend version p j n h = rw (prepend_lem version p) (
    read_at-write_at_after p.mem (data_start - header_size version) (header version p.id) j n
      (ground (arith, length-header version p.id)))

-- The frame is the header, and the data after it.
pub frame-prepend :
    (version : ℕ) (p : Packet) (n : ℕ)
    → IsSized p
    → read_at (prepend version p).mem (data_start - header_size version) (header_size version + n)
      ≡ header version p.id ++ read_at p.mem data_start n
frame-prepend version p n sized =
    read_at_add (prepend version p).mem (data_start - header_size version) (header_size version) n
    ∙ ap₂ ◌++◌ own rest
  where
    own :
        read_at (prepend version p).mem (data_start - header_size version) (header_size version)
        ≡ header version p.id
    own = rw (prepend_lem version p) (
        read_at-write_at p.mem (data_start - header_size version) (header_size version)
          (header version p.id) (length-header version p.id) (ground arith))

    rest :
        read_at (prepend version p).mem (data_start - header_size version + header_size version) n
        ≡ read_at p.mem data_start n
    rest =
        ap (λ k. read_at (prepend version p).mem k n)
          {x = data_start - header_size version + header_size version} {y = data_start}
          (ground arith)
        ∙ read_at-prepend version p data_start n (omega arith)

read_v1 :
    (p : Packet) (id : CspId)
    → FitsV1 id
    → 4 ≤ p.frame_length
    → p.frame_length < 2 ^ 16
    → read_at p.mem p.frame_begin 4 ≡ V1.header id false
    → V1.strip p false ≡ some (record p { len = p.frame_length - 4; id = id })
unfolding V1.strip
read_v1 p id f long fits h = ground (arith, h, header_v1 id f, parse-sum_v1 id f)

read_v2 :
    (p : Packet) (id : CspId)
    → FitsV2 id
    → 6 ≤ p.frame_length
    → p.frame_length < 2 ^ 16
    → read_at p.mem p.frame_begin 6 ≡ V2.header id
    → V2.strip p ≡ some (record p { len = p.frame_length - 6; id = id })
unfolding V2.strip
read_v2 p id f long fits h = ground (arith, h, header_v2 id f, parse-sum_v2 id f)

-- What `strip` makes of a frame that starts with the header of an identifier.
pub strip_reads :
    (version : ℕ) (p : Packet) (id : CspId)
    → Fits version id
    → header_size version ≤ p.frame_length
    → p.frame_length < 2 ^ 16
    → read_at p.mem p.frame_begin (header_size version) ≡ header version id
    → strip version p ≡ some (record p { len = p.frame_length - header_size version; id = id })
unfolding strip strip_fixup
strip_reads version p id f long fits h = elim (Bool-cases (version == 2)) [
  | inl e ↦ rw e (read_v2 p id (rw e at f) (rw e at long) fits (rw e at h))
  | inr e ↦ rw e (read_v1 p id (rw e at f) (rw e at long) fits (rw e at h))
]
