-- ===== src/Crc32.antt =====
-- csp_crc32.c: the CRC-32C of a packet, one table look-up for each byte. A checksum variable that a
-- function is handed by pointer is an `Option` where the function tests the pointer.
mod Table
pub mod Bitwise
pub mod Detect
pub mod Checked
mod Tests
use libcsp_dphi.Base.{
  ℕ, ◌+◌, ◌-◌, ◌/◌, ◌^◌, ◌%◌, bit_and, bit_xor, Option, none, some, List, [], ◌∷◌, ltb,
  if◌then◌else◌, ◌==◌, ◌||◌, Bool, get_or, read_at, write_at, be32, u16, u32,
}
use libcsp_dphi.Packet.{Packet, data_start, buffer_size}
use libcsp_dphi.Id.{prepend}
use Table.{crc_tab}

-- csp_crc32_init, _update and _final, at a pointer that is not NULL.
unfoldable pub init : ℕ
init = 0xFFFFFFFF

unfoldable pub update_byte : ℕ → ℕ → ℕ
update_byte crc byte = bit_xor (get_or crc_tab (bit_and (bit_xor crc byte) 0xFF) 0) (crc / 2 ^ 8)

unfoldable pub update : ℕ → List ℕ → ℕ
update crc [] = crc
update crc (byte ∷ data8) = update (update_byte crc byte) data8

unfoldable pub final : Option ℕ → ℕ
final none = 0
final (some crc) = bit_xor crc 0xFFFFFFFF

-- csp_crc32_memory
unfoldable pub memory : List ℕ → ℕ
unfolding init update final
memory bytes = final (some (update init bytes))

-- CSP_ERR_NOMEM of `append` and CSP_ERR_CRC32 of `verify` are `none`.
unfoldable pub append : Packet → Option Packet
append p =
    if ltb buffer_size (p.len + 4)
    then none
    else let crc = memory (read_at p.mem data_start p.len) in
      some
        (record p { len = u16 (p.len + 4); mem = write_at p.mem (data_start + p.len) (be32 crc) })

-- memcmp
unfoldable pub same_bytes : List ℕ → List ℕ → Bool
same_bytes [] [] = Bool.true
same_bytes (x ∷ xs) (y ∷ ys) = if x == y then same_bytes xs ys else Bool.false
same_bytes _ _ = Bool.false

-- The packet comes back with its header packed in front also where the check fails.
unfoldable pub verify : ℕ → Packet → Packet × Bool
verify version p =
    if ltb p.len 4
    then (p, Bool.false)
    else let q = prepend version p in
      let stored = read_at q.mem (data_start + q.len - 4) 4 in
      let with_header = memory (read_at q.mem q.frame_begin (q.frame_length - 4)) in
      let without_header = memory (read_at q.mem data_start (q.len - 4)) in
      if same_bytes stored (be32 with_header) || same_bytes stored (be32 without_header)
      then (record q { len = q.len - 4 }, Bool.true)
      else (q, Bool.false)
