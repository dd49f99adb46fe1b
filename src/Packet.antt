-- ===== src/Packet.antt =====
-- csp_types.h: the packet and its identifier. The header padding and the data of a packet lie side
-- by side and are one array here; `frame_begin` is an offset in that array.
use libcsp_dphi.Base.{ℕ, ◌+◌, ◌≡◌, List, length, read_at}

-- csp_types.h: CSP_PACKET_PADDING_BYTES
abbrev pub padding_bytes : ℕ
padding_bytes = 8

-- autoconfig.h: CSP_BUFFER_SIZE
abbrev pub buffer_size : ℕ
buffer_size = 256

-- csp_id_t
pub record CspId : Type 0 where
  pub pri : ℕ
  pub flags : ℕ
  pub src : ℕ
  pub dst : ℕ
  pub dport : ℕ
  pub sport : ℕ

-- csp_packet_t, less the fields that only RDP and CAN use.
pub record Packet : Type 0 where
  pub frame_begin : ℕ
  pub frame_length : ℕ
  pub len : ℕ
  pub id : CspId
  pub mem : List ℕ

-- The offset of `packet->data`.
abbrev pub data_start : ℕ
data_start = padding_bytes

-- The number of bytes from `header` to the end of `data`.
abbrev pub mem_size : ℕ
mem_size = padding_bytes + buffer_size

-- The bytes `packet->data[0 .. length)`.
abbrev pub payload : Packet → List ℕ
payload p = read_at p.mem data_start p.len

-- The bytes `frame_begin[0 .. frame_length)`.
abbrev pub frame : Packet → List ℕ
frame p = read_at p.mem p.frame_begin p.frame_length

-- The array has the size that the struct declares.
abbrev pub IsSized : Packet → Type 0
IsSized p = length p.mem ≡ mem_size

-- csp_id_copy
unfoldable pub id_copy : CspId → CspId → CspId
id_copy target source = record {
  pri = source.pri;
  dst = source.dst;
  src = source.src;
  dport = source.dport;
  sport = source.sport;
  flags = source.flags;
}

-- csp_id_clear
unfoldable pub id_clear : CspId → CspId
id_clear target = record { pri = 0; dst = 0; src = 0; dport = 0; sport = 0; flags = 0 }

-- csp_types.h: the header flags
abbrev pub flag_frag : ℕ
flag_frag = 0x10

abbrev pub flag_hmac : ℕ
flag_hmac = 0x08

abbrev pub flag_rdp : ℕ
flag_rdp = 0x02

abbrev pub flag_crc32 : ℕ
flag_crc32 = 0x01
