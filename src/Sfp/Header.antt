-- ===== src/Sfp/Header.antt =====
-- csp_sfp.c: a header that was added is found again, and the data before it is the fragment's.
use libcsp_dphi.Base.{
  ◌+◌, ◌-◌, ◌^◌, ◌≤◌, ◌<◌, ◌≡◌, ◌≢◌, ◌∙◌, refl, ap, ap₂, arith, false, ◌==◌, ==_ne, ltb, some, ◌++◌,
  bit_and, be32, of_be, of_be-be32, read_at, write_at, length-write_at, write_at_append,
  read_at-write_at, read_at-write_at_before,
}
use libcsp_dphi.Packet.{Packet, data_start, buffer_size, payload, IsSized, flag_frag}
use libcsp_dphi.Sfp.{SfpHeader, header_size, header_add, header_remove, read_header}

module _ (p : Packet) (h : SfpHeader) (sized : IsSized p) (room : p.len + 8 ≤ buffer_size) where
  whole : (header_add p h).len ≡ p.len + 8
  unfolding header_add
  whole = omega arith

  two_parts :
      (header_add p h).mem
      ≡ write_at
          (write_at p.mem (data_start + p.len) (be32 h.offset))
          (data_start + p.len + 4)
          (be32 h.totalsize)
  unfolding header_add
  two_parts = write_at_append p.mem (data_start + p.len) (be32 h.offset) (be32 h.totalsize)

  offset_at : read_at (header_add p h).mem (data_start + p.len) 4 ≡ be32 h.offset
  offset_at = rw two_parts (
      read_at-write_at_before (write_at p.mem (data_start + p.len) (be32 h.offset))
        (data_start + p.len + 4) (be32 h.totalsize) (data_start + p.len) 4 (omega arith)
      ∙ read_at-write_at p.mem (data_start + p.len) 4 (be32 h.offset) refl (omega arith))

  totalsize_at : read_at (header_add p h).mem (data_start + p.len + 4) 4 ≡ be32 h.totalsize
  totalsize_at = rw two_parts (
      read_at-write_at (write_at p.mem (data_start + p.len) (be32 h.offset))
        (data_start + p.len + 4) 4 (be32 h.totalsize) refl
        (omega (arith, length-write_at p.mem (data_start + p.len) (be32 h.offset))))

  same_data : read_at (header_add p h).mem data_start p.len ≡ payload p
  unfolding header_add
  same_data =
      read_at-write_at_before p.mem (data_start + p.len) (be32 h.offset ++ be32 h.totalsize)
        data_start p.len (omega arith)

  found : h.offset < 2 ^ 32 → h.totalsize < 2 ^ 32 → read_header (header_add p h) ≡ h
  unfolding read_header
  found small small' =
      ap₂ (λ o t. record { offset = o; totalsize = t })
        {x = of_be
          (read_at (header_add p h).mem (data_start + (header_add p h).len - header_size) 4)}
        {y = h.offset}
        {u = of_be (read_at (header_add p h).mem (data_start + (header_add p h).len - 4) 4)}
        {v = h.totalsize}
        (ap (λ i. of_be (read_at (header_add p h).mem i 4))
            {x = data_start + (header_add p h).len - header_size} {y = data_start + p.len}
            (omega (arith, whole))
          ∙ ap of_be offset_at
          ∙ of_be-be32 h.offset small)
        (ap (λ i. of_be (read_at (header_add p h).mem i 4))
            {x = data_start + (header_add p h).len - 4} {y = data_start + p.len + 4}
            (omega (arith, whole))
          ∙ ap of_be totalsize_at
          ∙ of_be-be32 h.totalsize small')

added_id : (p : Packet) (h : SfpHeader) → (header_add p h).id ≡ p.id
unfolding header_add
added_id p h = refl

-- Removing the header that was added to a fragment with room for it, and whose flag is set, gives
-- the header back, if its offset is not above its total size, and leaves a packet with the
-- fragment's length, identifier and data.
pub header_remove-header_add :
    (p : Packet) (h : SfpHeader)
    → IsSized p
    → p.len + 8 ≤ buffer_size
    → bit_and p.id.flags flag_frag ≢ 0
    → h.offset ≤ h.totalsize
    → h.totalsize < 2 ^ 32
    → let (q, header) = header_remove (header_add p h) in
      (header ≡ some h) × (q.len ≡ p.len) × (q.id ≡ p.id) × (payload q ≡ payload p)
unfolding header_remove
header_remove-header_add p h sized room flagged below small =
    rw (flag, long, found p h sized room (omega arith) small, ordered)
      (
        refl,
        left,
        same_id,
        ap (read_at (header_add p h).mem data_start) left ∙ same_data p h sized room,
      )
  where
    same_id : (header_add p h).id ≡ p.id
    same_id = added_id p h

    left : (header_add p h).len - header_size ≡ p.len
    left = omega (arith, whole p h sized room)

    flag : (bit_and (header_add p h).id.flags flag_frag == 0) ≡ false
    flag = rw (added_id p h) (==_ne (bit_and p.id.flags flag_frag) 0 flagged)

    long : ltb (header_add p h).len header_size ≡ false
    long = ground (arith, whole p h sized room)

    ordered : ltb h.totalsize h.offset ≡ false
    ordered = ground arith
