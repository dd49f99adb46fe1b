-- ===== src/Hmac/Tests.antt =====
-- Runs of csp_hmac.c, and concrete cases of the theorems on it.
use libcsp_dphi.Base.{
  ℕ, ◌+◌, ◌-◌, ◌≤◌, ◌<◌, ◌≡◌, ◌⊎◌, ◌↔◌, refl, arith, false, none, some, List, [], ◌∷◌, replicate,
}
use libcsp_dphi.Packet.{Packet, buffer_size, payload}
use libcsp_dphi.Hmac.{memory, append, verify}
use libcsp_dphi.Hmac.Keyed.{rfc2104, memory-eq-rfc2104}
use libcsp_dphi.Hmac.Checked.{tag, carried, covered, verify_iff, verify-append_hmac}
use libcsp_dphi.Samples

abbrev zeros : List ℕ
zeros = replicate 64 0

abbrev ones : List ℕ
ones = replicate 64 1

abbrev key : List ℕ
key = replicate 16 0x0B

memory-eq-rfc2104_example :
    memory zeros (some key) (some (1 ∷ 2 ∷ [])) ≡ some (rfc2104 key (1 ∷ 2 ∷ []))
memory-eq-rfc2104_example = memory-eq-rfc2104 zeros key (1 ∷ 2 ∷ []) refl (omega arith)

verify_iff_example : (verify zeros key Samples.full_packet false ≡ some Samples.packet) ↔ (
    (4 ≤ 252)
    × (carried Samples.full_packet ≡ tag key (covered Samples.full_packet))
    × (Samples.packet ≡ record (Samples.full_packet) { len = 252 - 4 }))
verify_iff_example = verify_iff zeros key refl (omega arith) Samples.full_packet Samples.packet

verify-append_hmac_example :
    ((buffer_size < 3 + 4) × (append zeros key Samples.packet false ≡ none))
    ⊎ ((q r : Packet) × (append zeros key Samples.packet false ≡ some q)
        × (q.len ≡ 3 + 4)
        × (verify ones key q false ≡ some r)
        × (r.len ≡ 3)
        × (r.id ≡ Samples.id)
        × (payload r ≡ payload Samples.packet))
verify-append_hmac_example =
    verify-append_hmac zeros ones key Samples.packet refl refl (omega arith) refl
