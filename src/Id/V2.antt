-- ===== src/Id/V2.antt =====
-- csp_id.c, the header of CSP 2.x: priority (2 bits), destination (14), source (14), destination
-- port (6), source port (6), flags (6), from the most significant bit down.
use libcsp_dphi.Base.{
  ℕ, ◌+◌, ◌-◌, ◌*◌, ◌/◌, ◌^◌, bit_and, bit_or, Option, none, some, List, [], ◌∷◌, ◌++◌, ltb,
  if◌then◌else◌, take, read_at, write_at, u16, u64, be64, of_be,
}
use libcsp_dphi.Packet.{CspId, Packet, data_start}

abbrev pub host_size : ℕ
host_size = 14

abbrev pub port_size : ℕ
port_size = 6

abbrev pub header_size : ℕ
header_size = 6

-- The 48-bit word in host order.
unfoldable pub raw : CspId → ℕ
raw id =
    bit_or
      (bit_or
        (bit_or
          (bit_or (bit_or (u64 (id.pri * 2 ^ 46)) (u64 (id.dst * 2 ^ 32))) (u64 (id.src * 2 ^ 18)))
          (u64 (id.dport * 2 ^ 12)))
        (u64 (id.sport * 2 ^ 6)))
      (u64 (id.flags * 2 ^ 0))

unfoldable pub parse : ℕ → CspId
parse w = record {
  pri = bit_and (w / 2 ^ 46) 0x3;
  dst = bit_and (w / 2 ^ 32) 0x3FFF;
  src = bit_and (w / 2 ^ 18) 0x3FFF;
  dport = bit_and (w / 2 ^ 12) 0x3F;
  sport = bit_and (w / 2 ^ 6) 0x3F;
  flags = bit_and (w / 2 ^ 0) 0x3F;
}

-- The first six bytes of the word, shifted to the top of 64 bits, in network order.
unfoldable pub header : CspId → List ℕ
unfolding raw
header id = take header_size (be64 (u64 (raw id * 2 ^ 16)))

unfoldable pub prepend : Packet → Packet
prepend p = record p {
  frame_begin = data_start - header_size;
  frame_length = u16 (p.len + header_size);
  mem = write_at p.mem (data_start - header_size) (header p.id);
}

unfoldable pub strip : Packet → Option Packet
strip p =
    if ltb p.frame_length header_size
    then none
    else let w = of_be (read_at p.mem p.frame_begin header_size ++ 0 ∷ 0 ∷ []) / 2 ^ 16 in
      some (record p { len = u16 (p.frame_length - header_size); id = parse w })

unfoldable pub setup_rx : Packet → Packet
setup_rx p = record p { frame_begin = data_start - header_size; frame_length = 0 }
