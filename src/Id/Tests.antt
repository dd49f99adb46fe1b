-- ===== src/Id/Tests.antt =====
-- Tests of the headers, and concrete cases of the theorems on them.
use libcsp_dphi.Base.{
  ◌+◌, ◌<◌, ◌≡◌, ◌⊎◌, refl, arith, true, false, none, some, [], ◌∷◌, All-replicate, IsByte,
}
use libcsp_dphi.Packet.{Packet, payload}
use libcsp_dphi.Id.V1
use libcsp_dphi.Id.{
  prepend, prepend_fixup, strip, strip_fixup, header_size, is_broadcast, get_host_bits,
  get_max_nodeid,
}
use libcsp_dphi.Id.Frame.{Fits, strip-prepend}
use libcsp_dphi.Id.Strip.{IsFrame, prepend-strip}
use libcsp_dphi.Id.Pack.{FitsV2}
use libcsp_dphi.Samples

header_v1_test : V1.header Samples.id false ≡ 0x86 ∷ 0x51 ∷ 0xE1 ∷ 0x00 ∷ []
unfolding V1.header V1.raw
header_v1_test = refl

is_broadcast_test : is_broadcast 2 0x3FFF (Samples.iface 1) ≡ true
unfolding is_broadcast get_host_bits get_max_nodeid
is_broadcast_test = refl

id-FitsV2 : FitsV2 Samples.id
id-FitsV2 = record {
  pri = omega arith;
  dst = omega arith;
  src = omega arith;
  dport = omega arith;
  sport = omega arith;
  flags = omega arith;
}

strip-prepend_example :
    (q : Packet) × (strip_fixup 2 false (prepend_fixup 2 false Samples.packet) ≡ some q)
    × (q.id ≡ Samples.id)
    × (q.len ≡ 3)
    × (payload q ≡ 0xC0 ∷ 0xDB ∷ 1 ∷ [])
strip-prepend_example = strip-prepend 2 false Samples.packet refl (omega arith) id-FitsV2

received-IsFrame : IsFrame 6 Samples.received
received-IsFrame = record {
  starts = refl;
  ends = omega arith;
  sized = refl;
  bytes = All-replicate IsByte 264 0 (omega arith);
}

prepend-strip_example :
    ((9 < header_size 2) × (strip 2 Samples.received ≡ none))
    ⊎ ((q : Packet) × (strip 2 Samples.received ≡ some q)
        × (q.len + header_size 2 ≡ 9)
        × (q.mem ≡ Samples.clear_mem)
        × Fits 2 q.id
        × (prepend 2 q ≡ q))
prepend-strip_example = prepend-strip 2 Samples.received received-IsFrame
