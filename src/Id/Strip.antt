-- ===== src/Id/Strip.antt =====
-- csp_id_strip on a received frame: what it reads, packed again, is what was received.
use libcsp_dphi.Base.{
  ℕ, ◌+◌, ◌-◌, ◌*◌, ◌/◌, ◌^◌, ◌≤◌, ◌<◌, ◌≡◌, ◌∙◌, refl, ap, arith, true, false, none, some, ◌⊎◌,
  inl, inr, List, [], ◌∷◌, ◌++◌, All, length, take, read_at, ◌==◌, Bool-cases, write_at-read_at,
  length-read_at, All-read_at, be32, be64, of_be, IsByte, u64, ltb, ltb→lt,
}
use libcsp_dphi.Packet.{Packet, CspId, data_start, mem_size, IsSized}
use libcsp_dphi.Id.V1
use libcsp_dphi.Id.V2
use libcsp_dphi.Id.{prepend, prepend_fixup, strip, strip_fixup, header_size}
use libcsp_dphi.Id.Pack.{FitsV1, FitsV2, raw-sum_v1, raw-sum_v2, parse_v1, parse_v2}
use libcsp_dphi.Id.Frame.{Fits}

be32-of_be :
    (bs : List ℕ) → length bs ≡ 4 → All IsByte bs → (be32 (of_be bs) ≡ bs) × (of_be bs < 2 ^ 32)
unfolding of_be
be32-of_be (a ∷ b ∷ c ∷ d ∷ []) e h = (ground arith, ground arith)
be32-of_be _ e h = absurd (omega arith)

be48-of_be :
    (bs : List ℕ)
    → length bs ≡ 6
    → All IsByte bs
    → let w = of_be (bs ++ 0 ∷ 0 ∷ []) / 2 ^ 16 in
      (take 6 (be64 (u64 (w * 2 ^ 16))) ≡ bs) × (w < 2 ^ 48)
unfolding of_be
be48-of_be (a ∷ b ∷ c ∷ d ∷ e ∷ f ∷ []) l h = (ground arith, ground arith)
be48-of_be _ l h = absurd (omega arith)

header-parse_v1 :
    (bs : List ℕ) → length bs ≡ 4 → All IsByte bs → V1.header (V1.parse (of_be bs)) false ≡ bs
unfolding V1.header
header-parse_v1 bs l h =
    let w = be32-of_be bs l h in
    let (f, e) = parse_v1 (of_be bs) w.1 in ap be32 (raw-sum_v1 (V1.parse (of_be bs)) f ∙ e) ∙ w.0

header-parse_v2 :
    (bs : List ℕ)
    → length bs ≡ 6
    → All IsByte bs
    → V2.header (V2.parse (of_be (bs ++ 0 ∷ 0 ∷ []) / 2 ^ 16)) ≡ bs
unfolding V2.header
header-parse_v2 bs l h =
    let w = be48-of_be bs l h in
    let (f, e) = parse_v2 (of_be (bs ++ 0 ∷ 0 ∷ []) / 2 ^ 16) w.1 in
    ap (λ t. take 6 (be64 (u64 (t * 2 ^ 16)))) (raw-sum_v2 _ f ∙ e) ∙ w.0

-- A received frame: it starts where `setup_rx` put it for a header of `size` bytes, and lies in the
-- packet.
pub record IsFrame (size : ℕ) (p : Packet) : Type 0 where
  pub starts : p.frame_begin ≡ data_start - size
  pub ends : p.frame_begin + p.frame_length ≤ mem_size
  pub sized : IsSized p
  pub bytes : All IsByte p.mem

-- The packet that `strip` returns on a frame that is long enough.
abbrev parsed : Packet → ℕ → CspId → Packet
parsed p size id = record p { len = p.frame_length - size; id = id }

frame_v1 :
    (p : Packet)
    → IsFrame 4 p
    → 4 ≤ p.frame_length
    → let q = parsed p 4 (V1.parse (of_be (read_at p.mem 4 4))) in
      (V1.strip p false ≡ some q) × FitsV1 q.id × (V1.prepend q false ≡ q)
unfolding V1.strip V1.prepend
frame_v1 p v long = (
  ground arith,
  (parse_v1 _ (be32-of_be read (length-read_at p.mem 4 4 (omega (arith, v.sized))) bytes).1).0,
  ground (
    arith,
    header-parse_v1 read (length-read_at p.mem 4 4 (omega (arith, v.sized))) bytes,
    write_at-read_at p.mem 4 4,
  ),
)
  where
    read : List ℕ
    read = read_at p.mem 4 4

    bytes : All IsByte read
    bytes = All-read_at IsByte p.mem 4 4 v.bytes

frame_v2 :
    (p : Packet)
    → IsFrame 6 p
    → 6 ≤ p.frame_length
    → let q = parsed p 6 (V2.parse (of_be (read_at p.mem 2 6 ++ 0 ∷ 0 ∷ []) / 2 ^ 16)) in
      (V2.strip p ≡ some q) × FitsV2 q.id × (V2.prepend q ≡ q)
unfolding V2.strip V2.prepend
frame_v2 p v long = (
  ground arith,
  (parse_v2 _ (be48-of_be read (length-read_at p.mem 2 6 (omega (arith, v.sized))) bytes).1).0,
  ground (
    arith,
    header-parse_v2 read (length-read_at p.mem 2 6 (omega (arith, v.sized))) bytes,
    write_at-read_at p.mem 2 6,
  ),
)
  where
    read : List ℕ
    read = read_at p.mem 2 6

    bytes : All IsByte read
    bytes = All-read_at IsByte p.mem 2 6 v.bytes

short_v1 : (p : Packet) → ltb p.frame_length 4 ≡ true → V1.strip p false ≡ none
unfolding V1.strip
short_v1 p h = rw h

short_v2 : (p : Packet) → ltb p.frame_length 6 ≡ true → V2.strip p ≡ none
unfolding V2.strip
short_v2 p h = rw h

-- Stripping a received frame fails exactly if it is shorter than the header. Otherwise the
-- identifier that it reads fits the header, the rest of the frame is the data, and framing the
-- packet again changes nothing: the header bytes are those received.
pub prepend-strip :
    (version : ℕ) (p : Packet)
    → IsFrame (header_size version) p
    → ((p.frame_length < header_size version) × (strip version p ≡ none))
      ⊎ ((q : Packet) × (strip version p ≡ some q)
          × (q.len + header_size version ≡ p.frame_length)
          × (q.mem ≡ p.mem)
          × Fits version q.id
          × (prepend version q ≡ q))
unfolding strip strip_fixup prepend prepend_fixup
prepend-strip version p v = elim (Bool-cases (version == 2)) [
  | inl e ↦ elim (Bool-cases (ltb p.frame_length 6)) [
    | inl short ↦ inl (rw e (ltb→lt _ _ short), rw e (short_v2 p short))
    | inr long ↦
        let long' : 6 ≤ p.frame_length = ground arith in
        let (s, f, r) = frame_v2 p (rw e at v) long' in
        inr (
          parsed p 6 (V2.parse (of_be (read_at p.mem 2 6 ++ 0 ∷ 0 ∷ []) / 2 ^ 16)),
          rw e s,
          rw e (omega arith),
          refl,
          rw e f,
          rw e r,
        )
  ]
  | inr e ↦ elim (Bool-cases (ltb p.frame_length 4)) [
    | inl short ↦ inl (rw e (ltb→lt _ _ short), rw e (short_v1 p short))
    | inr long ↦
        let long' : 4 ≤ p.frame_length = ground arith in
        let (s, f, r) = frame_v1 p (rw e at v) long' in
        inr (
          parsed p 4 (V1.parse (of_be (read_at p.mem 4 4))),
          rw e s,
          rw e (omega arith),
          refl,
          rw e f,
          rw e r,
        )
  ]
]
