-- ===== src/Id.antt =====
-- csp_id.c: the packet identifier packed into the 4-byte header of CSP 1.x or the 6-byte header of
-- CSP 2.x. `version` is `csp_conf.version`, whose default is 2.
pub mod V1
pub mod V2
pub mod Pack
pub mod Frame
pub mod Strip
pub mod Layout
mod Tests
use libcsp_dphi.Base.{
  ℕ, ◌-◌, ◌^◌, bit_and, Bool, false, Option, ◌==◌, if◌then◌else◌, ◌&&◌, ◌||◌, u16,
}
use libcsp_dphi.Packet.{Packet}
use libcsp_dphi.Iface.{Iface}

-- csp_id_prepend, csp_id_prepend_fixup_cspv1
unfoldable pub prepend_fixup : ℕ → Bool → Packet → Packet
prepend_fixup version fixup p = if version == 2 then V2.prepend p else V1.prepend p fixup

unfoldable pub prepend : ℕ → Packet → Packet
unfolding prepend_fixup
prepend version p = prepend_fixup version false p

unfoldable pub strip_fixup : ℕ → Bool → Packet → Option Packet
strip_fixup version fixup p = if version == 2 then V2.strip p else V1.strip p fixup

unfoldable pub strip : ℕ → Packet → Option Packet
unfolding strip_fixup
strip version p = strip_fixup version false p

-- csp_id_setup_rx: the packet, and the header size that it returns.
unfoldable pub setup_rx : ℕ → Packet → Packet × ℕ
setup_rx version p =
    if version == 2 then (V2.setup_rx p, V2.header_size) else (V1.setup_rx p, V1.header_size)

abbrev pub header_size : ℕ → ℕ
header_size version = if version == 2 then V2.header_size else V1.header_size

unfoldable pub get_host_bits : ℕ → ℕ
get_host_bits version = if version == 2 then V2.host_size else V1.host_size

unfoldable pub get_max_nodeid : ℕ → ℕ
get_max_nodeid version = if version == 2 then 2 ^ V2.host_size - 1 else 2 ^ V1.host_size - 1

unfoldable pub get_max_port : ℕ → ℕ
get_max_port version = if version == 2 then 2 ^ V2.port_size - 1 else 2 ^ V1.port_size - 1

-- csp_id_is_broadcast
unfoldable pub is_broadcast : ℕ → ℕ → Iface → Bool
is_broadcast version addr iface =
    let hostmask = u16 (2 ^ (get_host_bits version - iface.netmask) - 1) in
    let netmask = u16 (2 ^ get_host_bits version - 1 - hostmask) in
    (bit_and addr hostmask == hostmask && bit_and addr netmask == bit_and iface.addr netmask)
    || addr == get_max_nodeid version
