-- ===== src/Io.antt =====
-- csp_io.c, built with the routing table and without RDP, HMAC and promiscuous mode: sending,
-- connections and sockets. `nexthop` stands for the drivers: whether the one of an interface takes
-- a packet over. The hook for outgoing packets prints.
pub mod Addresses
pub mod Direct
mod Tests
pub mod Loops
pub mod Reaches
pub mod References
pub mod Replies
pub mod Takes
pub mod Sends
pub mod Horizon
pub mod Api
use libcsp_dphi.Base.{
  ℕ, zero, suc, ◌+◌, Bool, true, false, ◌&&◌, ◌||◌, not, ◌==◌, if◌then◌else◌, Option, none, some,
  List, [], ◌∷◌, ◌++◌, length, get_elem?, set, bit_and, u32,
}
use libcsp_dphi.Packet.{Packet, CspId, id_copy, flag_hmac, flag_crc32}
use libcsp_dphi.Iface.{Iface}
use libcsp_dphi.Id.{is_broadcast, get_max_nodeid}
use libcsp_dphi.Crc32
use libcsp_dphi.Buffer.{clone, unsupported}
use libcsp_dphi.Iflist.{get_by_subnet, get_by_isdfl, is_within_subnet}
use libcsp_dphi.Rtable.{Route, find_route, search_backward}
use libcsp_dphi.Qfifo
use libcsp_dphi.Node.{
  Node, Sent, if_lo, iface_at, iface_at?, count, tx_failed, fail_with, free_packet, packet_at,
  store_at,
}

-- Whether the driver of the interface takes the packet: interface, via, packet and from_me.
abbrev pub Driver : Type 0
Driver = ℕ → ℕ → Packet → Bool → Bool

-- csp_rtable.h: CSP_NO_VIA_ADDRESS
abbrev pub no_via : ℕ
no_via = 0xFFFF

-- The label tx_err.
unfoldable pub tx_err : ℕ → ℕ → Node → Node
tx_err packet iface node = count iface tx_failed (free_packet (some packet) node)

unfoldable pub sent_bytes : ℕ → Iface → Iface
sent_bytes bytes i = record i { tx = u32 (i.tx + 1); txbytes = u32 (i.txbytes + bytes) }

-- The call of `nexthop`, which is csp_lo_tx for csp_if_lo.
unfoldable pub next_hop : Driver → ℕ → Packet → ℕ → ℕ → Bool → Node → Node × Bool
next_hop nexthop index packet iface via from_me node =
    if iface == if_lo
    then (Qfifo.write (some index) (some if_lo) node, true)
    else if nexthop iface via packet from_me
    then (
      record node {
        sent =
            node.sent
            ++ record {
              iface = iface;
              via = via;
              from_me = from_me;
              index = index;
              packet = packet;
            }
              ∷ [];
      },
      true,
    )
    else (node, false)

unfoldable pub transmit : Driver → ℕ → Packet → ℕ → ℕ → Bool → Node → Node
transmit nexthop index packet iface via from_me node =
    let (node', taken) = next_hop nexthop index packet iface via from_me node in
    if taken then count iface (sent_bytes packet.len) node' else tx_err index iface node'

-- What is done to a packet of this node: `none` where it cannot be sent.
unfoldable pub seal : Bool → Packet → Option Packet
seal from_me packet =
    if from_me
    then if bit_and packet.id.flags flag_hmac == 0
      then if bit_and packet.id.flags flag_crc32 == 0 then some packet else Crc32.append packet
      else none
    else some packet

unfoldable pub send_sealed : Driver → ℕ → Option Packet → ℕ → ℕ → Bool → Node → Node
send_sealed nexthop index none iface via from_me node = tx_err index iface node
send_sealed nexthop index (some packet) iface via from_me node =
    transmit nexthop index packet iface via from_me (store_at index packet node)

-- The error that is noted for a packet that asks for HMAC.
unfoldable pub note_hmac : Bool → CspId → Node → Node
note_hmac from_me idout node =
    if from_me && not (bit_and idout.flags flag_hmac == 0) then fail_with unsupported node else node

unfoldable pub send_found : Driver → CspId → ℕ → Option Packet → ℕ → ℕ → Bool → Node → Node
send_found nexthop idout index none iface via from_me node = node
send_found nexthop idout index (some p) iface via from_me node =
    let packet : Packet = record p { id = id_copy p.id idout } in
    send_sealed nexthop index (seal from_me packet) iface via from_me
      (note_hmac from_me idout (store_at index packet node))

-- csp_send_direct_iface
unfoldable pub send_direct_iface : Driver → CspId → ℕ → ℕ → ℕ → Bool → Node → Node
send_direct_iface nexthop idout index iface via from_me node =
    send_found nexthop idout index (packet_at index node) iface via from_me node
