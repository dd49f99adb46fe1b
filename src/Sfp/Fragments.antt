-- ===== src/Sfp/Fragments.antt =====
-- csp_sfp.c: one round of the sender and one of the receiver. A fragment arrives with the identifier
-- that csp_send put on it.
use libcsp_dphi.Base.{
  ℕ, ◌+◌, ◌-◌, ◌^◌, ◌≤◌, ◌<◌, ◌≡◌, ◌∙◌, refl, sym, ap, ap₂, arith, ==_refl, ==_from, lt→ltb,
  not_ltb, Option, none, some, List, [], ◌∷◌, ◌++◌, length, take, bit_or, u16, u32, read_at,
  write_at, length-read_at, length-write_at, read_at_add, read_at-write_at, read_at-write_at_before,
}
use libcsp_dphi.Base.Bits.Fields.{flag_set}
use libcsp_dphi.Packet.{CspId, Packet, data_start, buffer_size, payload, IsSized, flag_frag}
use libcsp_dphi.Sfp.{
  SfpHeader, Status, err_none, err_timedout, header_add, header_remove, fragment, cap, send_from, ℤ,
  as_int, Partial, copy_in, allocate, copy_allocated, take_in, recv,
}
use libcsp_dphi.Sfp.Header.{header_remove-header_add}

abbrev pub arrive : CspId × Packet → Packet
arrive (id, packet) = record packet { id = id }

module _ (packet : Packet) (header : SfpHeader) (part : Partial) where
  abbrev filled : List ℕ
  filled = write_at part.filled part.data_offset (payload packet)

  -- The last fragment completes the data.
  pub copy_last :
      part.data_offset + packet.len ≡ part.datasize
      → part.datasize ≡ header.totalsize
      → part.datasize < 2 ^ 32
      → copy_in packet header part ≡ (none, some (filled, as_int part.datasize), err_none)
  unfolding copy_in
  copy_last ends same small = ground arith

  -- One before the last waits for the next.
  pub copy_more :
      part.data_offset + packet.len < part.datasize
      → 0 < packet.len
      → part.datasize ≡ header.totalsize
      → part.datasize < 2 ^ 32
      → copy_in packet header part ≡ (
        some (record part { filled = filled; data_offset = part.data_offset + packet.len }),
        none,
        err_timedout,
      )
  unfolding copy_in
  copy_more more some_data same small = ground arith

-- A block that is written behind equal beginnings makes longer ones.
pub joined :
    (filled bytes : List ℕ) (count n : ℕ)
    → count + n ≤ length filled
    → length bytes ≡ length filled
    → take count filled ≡ take count bytes
    → take (count + n) (write_at filled count (read_at bytes count n)) ≡ take (count + n) bytes
joined filled bytes count n fits same begun =
    let block = read_at bytes count n in
    let size : length block ≡ n = length-read_at bytes count n (omega arith) in
    read_at_add (write_at filled count block) 0 count n
    ∙ ap₂ ◌++◌ {x = read_at (write_at filled count block) 0 count} {y = read_at bytes 0 count}
        {u = read_at (write_at filled count block) (0 + count) n} {v = read_at bytes (0 + count) n}
        (read_at-write_at_before filled count block 0 count (omega arith) ∙ begun)
        (ap (λ i. read_at (write_at filled count block) i n) {x = 0 + count} {y = count}
            (omega arith)
          ∙ read_at-write_at filled count n block size fits
          ∙ ap (λ i. read_at bytes i n) {x = count} {y = 0 + count} (omega arith))
    ∙ sym (read_at_add bytes 0 count n)

pub cap_bounds :
    (mtu left : ℕ)
    → 0 < mtu
    → 0 < left
    → (0 < cap mtu left) × (cap mtu left ≤ mtu) × (cap mtu left ≤ left)
cap_bounds mtu left some_mtu some_left = ground arith

abbrev pub sent_id : CspId → CspId
sent_id id = record id { flags = bit_or id.flags flag_frag }

module _ (bytes : List ℕ) (totalsize : ℕ) (whole : length bytes ≡ totalsize)
    (small : totalsize < 2 ^ 32) where
  abbrev pub arrived : CspId → ℕ → ℕ → Packet → Packet × Option SfpHeader
  arrived id count size packet =
      header_remove (arrive (sent_id id, fragment bytes totalsize count size packet))

  abbrev header_of : ℕ → SfpHeader
  header_of count = record { offset = count; totalsize = totalsize }

  -- The receiver finds what the sender wrote.
  pub fragment_read :
      (id : CspId) (count size : ℕ) (packet : Packet)
      → IsSized packet
      → size + 8 ≤ buffer_size
      → count + size ≤ totalsize
      → let r = arrived id count size packet in
        (r.1 ≡ some (header_of count)) × (r.0.len ≡ size) × (payload r.0 ≡ read_at bytes count size)
  unfolding fragment header_add
  fragment_read id count size packet sized room below =
      let block = read_at bytes count size in
      let fits : u16 size ≡ size = omega arith in
      let block_size : length block ≡ u16 size =
        omega (arith, length-read_at bytes count size (omega arith)) in
      let p : Packet = record packet {
        id = sent_id id;
        len = u16 size;
        mem = write_at packet.mem data_start block;
      } in
      let found =
        header_remove-header_add p (header_of count)
          (length-write_at packet.mem data_start block ∙ sized) (omega arith)
          (λ e. omega (arith, e, flag_set 4 id.flags)) (omega arith) small in
      (
        found.0,
        found.1 ∙ fits,
        found.3 ∙ read_at-write_at packet.mem data_start (u16 size) block block_size (omega arith),
      )

module _ (malloc : ℕ → Option (List ℕ)) where
  pub take_in_checked :
      (q : Packet) (header : SfpHeader) (part : Partial)
      → header.offset ≡ part.data_offset
      → take_in malloc (q, some header) (some part) ≡ copy_in q header part
  unfolding take_in copy_allocated allocate
  take_in_checked q header part same = rw same (rw (==_refl part.data_offset) refl)

  allocate_lem :
      (header : SfpHeader) (memory : List ℕ)
      → malloc header.totalsize ≡ some memory
      → allocate malloc header none
        ≡ some (record { filled = memory; datasize = header.totalsize; data_offset = 0 })
  unfolding allocate
  allocate_lem header memory got = rw (got, allocate) refl

  -- The first fragment makes the memory that the others are copied to.
  pub take_in_first :
      (q : Packet) (header : SfpHeader) (memory : List ℕ)
      → header.offset ≡ 0
      → malloc header.totalsize ≡ some memory
      → take_in malloc (q, some header) none
        ≡ take_in malloc
            (q, some header)
            (some (record { filled = memory; datasize = header.totalsize; data_offset = 0 }))
  unfolding take_in allocate
  take_in_first q header memory same got =
      rw (==_from header.offset 0 same)
        (ap (copy_allocated q header) (allocate_lem header memory got))

  pub recv_done :
      (p : Packet) (packets : List Packet) (part : Option Partial) (r : Option (List ℕ × ℤ))
      (s : Status)
      → take_in malloc (header_remove p) part ≡ (none, r, s)
      → recv malloc part (p ∷ packets) ≡ (r, s)
  unfolding recv
  recv_done p packets part r s e = rw (e, recv) (ap (λ x. (x.1, x.2)) e)

  pub recv_more :
      (p : Packet) (packets : List Packet) (part : Option Partial) (next : Partial)
      (r : Option (List ℕ × ℤ)) (s : Status)
      → take_in malloc (header_remove p) part ≡ (some next, r, s)
      → recv malloc part (p ∷ packets) ≡ recv malloc (some next) packets
  unfolding recv
  recv_more p packets part next r s e = rw (e, recv) refl

  pub recv_first :
      (p : Packet) (packets : List Packet) (part : Partial)
      → take_in malloc (header_remove p) none ≡ take_in malloc (header_remove p) (some part)
      → recv malloc none (p ∷ packets) ≡ recv malloc (some part) (p ∷ packets)
  unfolding recv
  recv_first p packets part e =
      ap
        (λ (x : Option Partial × Option (List ℕ × ℤ) × Status). elim x.0 [
          | none ↦ (x.1, x.2)
          | some next ↦ recv malloc (some next) packets
        ])
        e

module _ (id : CspId) (bytes : List ℕ) (totalsize mtu : ℕ) (small : totalsize < 2 ^ 32) where
  pub send_done :
      (count : ℕ) (buffers : List Packet)
      → totalsize ≤ count
      → send_from id bytes totalsize mtu count buffers ≡ ([], err_none)
  unfolding send_from
  send_done count [] all = ground arith
  send_done count (packet ∷ buffers) all = rw (not_ltb count totalsize all) refl

  pub send_more :
      (count : ℕ) (packet : Packet) (buffers : List Packet)
      → count < totalsize
      → let size = cap mtu (totalsize - count) in
        let rest = send_from id bytes totalsize mtu (count + size) buffers in
        send_from id bytes totalsize mtu count (packet ∷ buffers)
        ≡ ((sent_id id, fragment bytes totalsize count size packet) ∷ rest.0, rest.1)
  unfolding send_from
  send_more count packet buffers more =
      let size = cap mtu (totalsize - count) in
      let fits : u32 (count + size) ≡ count + size = ground arith in
      rw (fits, lt→ltb count totalsize more) refl
