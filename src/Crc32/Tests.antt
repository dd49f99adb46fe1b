-- ===== src/Crc32/Tests.antt =====
-- Tests of the checksum, and concrete cases of the theorems on it.
use libcsp_dphi.Base.{
  ◌+◌, ◌<◌, ◌≤◌, ◌≡◌, ◌≢◌, ◌⊎◌, ◌↔◌, refl, arith, true, none, some, [], ◌∷◌, bit_xor,
}
use libcsp_dphi.Packet.{Packet, payload, buffer_size}
use libcsp_dphi.Crc32.{memory, append, verify}
use libcsp_dphi.Crc32.Bitwise.{divide, memory-eq-divide}
use libcsp_dphi.Crc32.Detect.{memory_detects_byte}
use libcsp_dphi.Crc32.Checked.{Matches, verify-Matches, verify-append}
use libcsp_dphi.Samples

memory-eq-divide_example :
    memory (0x31 ∷ 0x32 ∷ []) ≡ bit_xor (divide 0xFFFFFFFF (0x31 ∷ 0x32 ∷ [])) 0xFFFFFFFF
memory-eq-divide_example = memory-eq-divide (0x31 ∷ 0x32 ∷ []) (omega arith, (omega arith, tt))

memory_detects_byte_example : memory (1 ∷ 2 ∷ 3 ∷ []) ≢ memory (1 ∷ 4 ∷ 3 ∷ [])
memory_detects_byte_example =
    memory_detects_byte (1 ∷ []) (3 ∷ []) 2 4 (omega arith, tt) (omega arith, tt) (omega arith)
      (omega arith) (omega arith)

verify-Matches_example : ((verify 2 Samples.packet).1 ≡ true) ↔ ((4 ≤ 3) × Matches 2 Samples.packet)
verify-Matches_example = verify-Matches 2 Samples.packet refl (omega arith)

verify-append_example :
    ((buffer_size < 3 + 4) × (append Samples.packet ≡ none))
    ⊎ ((q : Packet) × (append Samples.packet ≡ some q)
        × (q.len ≡ 3 + 4)
        × ((verify 2 q).1 ≡ true)
        × ((verify 2 q).0.id ≡ Samples.id)
        × (payload (verify 2 q).0 ≡ payload Samples.packet))
verify-append_example = verify-append 2 Samples.packet refl
