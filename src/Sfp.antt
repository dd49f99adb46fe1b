-- ===== src/Sfp.antt =====
-- csp_sfp.c: data that is longer than a packet, in fragments. The connection is the identifier that
-- csp_send puts on a packet, and the packets that csp_read returns. Without RDP a connection is
-- always active. csp_buffer_free of a packet that was read is left out.
pub mod Header
pub mod Fragments
pub mod RoundTrip
mod Tests
use libcsp_dphi.Base.{
  ℕ, ◌+◌, ◌-◌, ◌^◌, Bool, true, false, ◌||◌, not, ◌==◌, ltb, leb, if◌then◌else◌, Option, none, some,
  List, [], ◌∷◌, ◌++◌, bit_and, bit_or, u16, u32, be32, of_be, read_at, write_at,
}
use libcsp_dphi.Packet.{CspId, Packet, data_start, buffer_size, flag_frag}

-- sfp_header_t
pub record SfpHeader : Type 0 where
  pub offset : ℕ
  pub totalsize : ℕ

abbrev pub header_size : ℕ
header_size = 8

pub data Status : Type 0 where
  err_none err_inval err_nomem err_timedout err_sfp : Status

-- csp_sfp_header_add, and the two stores into the header that it returns.
unfoldable pub header_add : Packet → SfpHeader → Packet
header_add packet header = record packet {
  len = u16 (packet.len + header_size);
  mem = write_at packet.mem (data_start + packet.len) (be32 header.offset ++ be32 header.totalsize);
}

-- The header behind the data.
unfoldable pub read_header : Packet → SfpHeader
read_header packet = record {
  offset = of_be (read_at packet.mem (data_start + packet.len - header_size) 4);
  totalsize = of_be (read_at packet.mem (data_start + packet.len - 4) 4);
}

-- csp_sfp_header_remove. The source turns the bytes of the header round in place; they are not part
-- of the packet's data any more.
unfoldable pub header_remove : Packet → Packet × Option SfpHeader
header_remove packet =
    if bit_and packet.id.flags flag_frag == 0
    then (packet, none)
    else if ltb packet.len header_size
    then (packet, none)
    else let shorter : Packet = record packet { len = packet.len - header_size } in
      let header = read_header packet in
      if ltb header.totalsize header.offset then (shorter, none) else (shorter, some header)

-- One round of csp_sfp_send_own_memcpy: `size` bytes from `count` on.
unfoldable pub fragment : List ℕ → ℕ → ℕ → ℕ → Packet → Packet
fragment bytes totalsize count size packet =
    header_add
      (record packet {
        len = u16 size;
        mem = write_at packet.mem data_start (read_at bytes count size);
      })
      (record { offset = count; totalsize = totalsize })

abbrev pub cap : ℕ → ℕ → ℕ
cap mtu size = if ltb mtu size then mtu else size

-- The loop. `buffers` is what csp_buffer_get returns, call by call; at its end there is no buffer
-- left.
unfoldable pub send_from : CspId → List ℕ → ℕ → ℕ → ℕ → List Packet → List (CspId × Packet) × Status
send_from id bytes totalsize mtu count [] =
    ([], if ltb count totalsize then err_nomem else err_none)
send_from id bytes totalsize mtu count (packet ∷ buffers) =
    let size = cap mtu (totalsize - count) in
    let (sent, status) = send_from id bytes totalsize mtu (u32 (count + size)) buffers in
    if ltb count totalsize
    then (
      (record id { flags = bit_or id.flags flag_frag }, fragment bytes totalsize count size packet)
          ∷ sent,
      status,
    )
    else ([], err_none)

-- csp_sfp_send_own_memcpy
unfoldable pub send : CspId → List ℕ → ℕ → ℕ → List Packet → List (CspId × Packet) × Status
send id bytes totalsize mtu buffers =
    if mtu == 0 || ltb buffer_size (u32 (mtu + header_size))
    then ([], err_inval)
    else send_from id bytes totalsize mtu 0 buffers

-- An int, and the one that a uint32_t becomes.
pub data ℤ : Type 0 where
  pos negsuc : ℕ → ℤ

unfoldable pub as_int : ℕ → ℤ
as_int n = if ltb n (2 ^ 31) then pos n else negsuc (2 ^ 32 - 1 - n)

-- The memory that the receiver fills, and how far it is filled.
pub record Partial : Type 0 where
  pub filled : List ℕ
  pub datasize : ℕ
  pub data_offset : ℕ

-- The checks and the copy once there is memory. The first component goes on with the next packet.
unfoldable pub copy_in :
    Packet → SfpHeader → Partial → Option Partial × Option (List ℕ × ℤ) × Status
copy_in packet header part =
    if ltb part.datasize (u32 (part.data_offset + packet.len))
      || not (part.datasize == header.totalsize)
    then (none, none, err_sfp)
    else let part' : Partial = record part {
      filled = write_at part.filled part.data_offset (read_at packet.mem data_start packet.len);
      data_offset = u32 (part.data_offset + packet.len);
    } in
      if leb part'.datasize part'.data_offset
      then (none, some (part'.filled, as_int part'.datasize), err_none)
      else if packet.len == 0
      then (none, none, err_sfp)
      else (some part', none, err_timedout)

-- `malloc` of the first fragment's total size.
unfoldable pub allocate : (ℕ → Option (List ℕ)) → SfpHeader → Option Partial → Option Partial
allocate malloc header (some part) = some part
allocate malloc header none = elim (malloc header.totalsize) [
  | none ↦ none
  | some memory ↦ some (record { filled = memory; datasize = header.totalsize; data_offset = 0 })
]

abbrev expected : Option Partial → ℕ
expected none = 0
expected (some part) = part.data_offset

unfoldable pub copy_allocated :
    Packet → SfpHeader → Option Partial → Option Partial × Option (List ℕ × ℤ) × Status
copy_allocated packet header none = (none, none, err_nomem)
copy_allocated packet header (some part) = copy_in packet header part

-- One round of the loop of csp_sfp_recv_fp.
unfoldable pub take_in :
    (ℕ → Option (List ℕ))
    → Packet × Option SfpHeader
    → Option Partial
    → Option Partial × Option (List ℕ × ℤ) × Status
take_in malloc (packet, none) part = (none, none, err_sfp)
take_in malloc (packet, some header) part =
    if not (header.offset == expected part)
    then (none, none, err_sfp)
    else copy_allocated packet header (allocate malloc header part)

-- csp_sfp_recv_fp on the packets that come before the time is out: the data and their size, NULL and 0
-- where there are none.
unfoldable pub recv :
    (ℕ → Option (List ℕ)) → Option Partial → List Packet → Option (List ℕ × ℤ) × Status
recv malloc part [] = (none, err_timedout)
recv malloc part (packet ∷ packets) =
    let (next, result, status) = take_in malloc (header_remove packet) part in
    let rest = λ (p : Partial). recv malloc (some p) packets in
    elim next [ none ↦ (result, status) | some p ↦ rest p ]
