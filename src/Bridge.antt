-- ===== src/Bridge.antt =====
-- csp_bridge.c, built without promiscuous mode: a node that only passes packets between two
-- interfaces. Its messages are printed.
pub mod Opposite
mod Tests
use libcsp_dphi.Base.{ℕ, Bool, true, false, ◌==◌, if◌then◌else◌, Option, none, some}
use libcsp_dphi.Packet.{Packet}
use libcsp_dphi.Dedup.{Seen, is_duplicate}
use libcsp_dphi.Qfifo
use libcsp_dphi.Node.{Node, Input, free_packet, packet_at, store_at}
use libcsp_dphi.Io.{Driver, no_via, send_direct_iface}
use libcsp_dphi.Io.Direct.{is_same}

-- The static variables bif_a and bif_b.
pub record Bridge : Type 0 where
  pub bif_a : Option ℕ
  pub bif_b : Option ℕ

-- csp_bridge_set_interfaces
unfoldable pub set_interfaces : Option ℕ → Option ℕ → Bridge → Bridge
set_interfaces if_a if_b bridge = record { bif_a = if_a; bif_b = if_b }

-- The opposing interface.
unfoldable pub destif : ℕ → ℕ → Option ℕ → ℕ
destif bif_a bif_b iface = if is_same bif_a iface then bif_b else bif_a

unfoldable pub pass_new : Driver → ℕ → ℕ → Packet × Seen × Bool → Node → Node
pass_new nexthop dest i (packet, seen, true) node =
    free_packet (some i) (store_at i packet (record node { seen = seen }))
pass_new nexthop dest i (packet, seen, false) node =
    send_direct_iface nexthop packet.id i dest no_via false
      (store_at i packet (record node { seen = seen }))

unfoldable pub pass_packet : Driver → ℕ → ℕ → ℕ → Option Packet → Node → Node
pass_packet nexthop now dest i none node = node
pass_packet nexthop now dest i (some packet) node =
    pass_new nexthop dest i (is_duplicate node.version now packet node.seen) node

unfoldable pub pass_input : Driver → ℕ → ℕ → ℕ → Option Input → Node → Node
pass_input nexthop now bif_a bif_b none node = node
pass_input nexthop now bif_a bif_b (some input) node = elim input.packet [
  | none ↦ node
  | some i ↦ pass_packet nexthop now (destif bif_a bif_b input.iface) i (packet_at i node) node
]

-- csp_bridge_work, when csp_get_ms() returns `now`.
unfoldable pub work_between : Driver → ℕ → Option ℕ → Option ℕ → Node → Node
work_between nexthop now none b node = node
work_between nexthop now (some a) none node = node
work_between nexthop now (some a) (some b) node =
    let (node', input) = Qfifo.read node in pass_input nexthop now a b input node'

unfoldable pub work : Driver → ℕ → Bridge → Node → Node
unfolding work_between
work nexthop now bridge node = work_between nexthop now bridge.bif_a bridge.bif_b node
