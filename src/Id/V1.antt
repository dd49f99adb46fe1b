-- ===== src/Id/V1.antt =====
-- csp_id.c, the header of CSP 1.x: priority (2 bits), source (5), destination (5), destination port
-- (6), source port (6), flags (8), from the most significant bit down.
use libcsp_dphi.Base.{
  ℕ, ◌+◌, ◌-◌, ◌*◌, ◌/◌, ◌^◌, bit_and, bit_or, Bool, Option, none, some, List, ltb, if◌then◌else◌,
  read_at, write_at, u16, u32, be32, le32, of_be, of_le,
}
use libcsp_dphi.Packet.{CspId, Packet, data_start}

abbrev pub host_size : ℕ
host_size = 5

abbrev pub port_size : ℕ
port_size = 6

abbrev pub header_size : ℕ
header_size = 4

-- The 32-bit word in host order.
unfoldable pub raw : CspId → ℕ
raw id =
    bit_or
      (bit_or
        (bit_or
          (bit_or (bit_or (u32 (id.pri * 2 ^ 30)) (u32 (id.dst * 2 ^ 20))) (u32 (id.src * 2 ^ 25)))
          (u32 (id.dport * 2 ^ 14)))
        (u32 (id.sport * 2 ^ 8)))
      (u32 (id.flags * 2 ^ 0))

-- The fields of that word.
unfoldable pub parse : ℕ → CspId
parse w = record {
  pri = bit_and (w / 2 ^ 30) 0x3;
  dst = bit_and (w / 2 ^ 20) 0x1F;
  src = bit_and (w / 2 ^ 25) 0x1F;
  dport = bit_and (w / 2 ^ 14) 0x3F;
  sport = bit_and (w / 2 ^ 8) 0x3F;
  flags = bit_and (w / 2 ^ 0) 0xFF;
}

-- The bytes that the word has in memory after `htobe32`, or `htole32` with the fix-up.
unfoldable pub header : CspId → Bool → List ℕ
unfolding raw
header id cspv1_fixup = if cspv1_fixup then le32 (raw id) else be32 (raw id)

unfoldable pub prepend : Packet → Bool → Packet
prepend p cspv1_fixup = record p {
  frame_begin = data_start - header_size;
  frame_length = u16 (p.len + header_size);
  mem = write_at p.mem (data_start - header_size) (header p.id cspv1_fixup);
}

-- `none` is the return of -1, which leaves the packet as it was.
unfoldable pub strip : Packet → Bool → Option Packet
strip p cspv1_fixup =
    if ltb p.frame_length header_size
    then none
    else let raw_bytes = read_at p.mem p.frame_begin header_size in
      let w = if cspv1_fixup then of_le raw_bytes else of_be raw_bytes in
      some (record p { len = u16 (p.frame_length - header_size); id = parse w })

unfoldable pub setup_rx : Packet → Packet
setup_rx p = record p { frame_begin = data_start - header_size; frame_length = 0 }
