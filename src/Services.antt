-- ===== src/Services.antt =====
-- csp_service_handler.c: the services that a node offers on the ports below 7, as a callback of the
-- router. `conf` and `hooks` are what the application and the platform supply.
pub mod Bounds
pub mod Client
pub mod Cmp
pub mod Numbers
pub mod Ps
pub mod Quiet
pub mod Ping
pub mod Releases
pub mod Replies
pub mod Steady
pub mod Takes
mod Tests
use libcsp_dphi.Base.{
  ℕ, ◌==◌, if◌then◌else◌, Bool, true, false, Option, none, some, be32, of_be, u16,
}
use libcsp_dphi.Packet.{Packet}
use libcsp_dphi.Buffer.{remaining}
use libcsp_dphi.Node.{Node, free_packet, packet_at, store_at}
use libcsp_dphi.Io.{Driver}
use libcsp_dphi.Io.Api.{sendto_reply, opt_same}
use Cmp.{Conf, Hooks, Reply, put, bytes_at, cmp_handler}

-- csp_types.h: the two magic words
abbrev pub reboot_magic : ℕ
reboot_magic = 0x80078007

abbrev pub shutdown_magic : ℕ
shutdown_magic = 0xD1E5529A

-- csp_types.h: the ports of the services
pub data Service : Type 0 where
  service_cmp service_ping service_ps service_memfree service_reboot service_buf_free service_uptime
        service_none :
      Service

unfoldable pub service_of : ℕ → Service
service_of dport =
    if dport == 0
    then service_cmp
    else if dport == 1
    then service_ping
    else if dport == 2
    then service_ps
    else if dport == 3
    then service_memfree
    else if dport == 4
    then service_reboot
    else if dport == 5
    then service_buf_free
    else if dport == 6
    then service_uptime
    else service_none

-- The packet with a number of four bytes as its data.
unfoldable pub numbered : ℕ → Packet → Packet
numbered n packet = record (put 0 (be32 n) packet) { len = 4 }

module _ (nexthop : Driver) (conf : Conf) (hooks : Hooks) (i : ℕ) where
  -- The end of the handler: the packet goes back as the reply to itself.
  unfoldable pub reply_in : Packet → Node → Node
  reply_in packet node = sendto_reply nexthop i i opt_same (store_at i packet node)

  -- A number as the reply.
  unfoldable pub reply_number : ℕ → Packet → Node → Node
  reply_number n packet node = reply_in (numbered n packet) node

  unfoldable pub answered : Reply → Node
  answered (packet, node, true) = reply_in packet node
  answered (packet, node, false) = free_packet (some i) (store_at i packet node)

  -- CSP_PS: a packet without a list of processes is freed, and sent back all the same.
  unfoldable pub processes : Packet × ℕ → Node → Node
  processes (packet, len) node =
      let listed = store_at i (record packet { len = u16 len }) node in
      let kept = if u16 len == 0 then free_packet (some i) listed else listed in
      sendto_reply nexthop i i opt_same kept

  unfoldable pub restart : ℕ → Node → Node
  restart magic_word node = free_packet (some i) (
      if magic_word == reboot_magic
      then hooks.reboot node
      else if magic_word == shutdown_magic
      then hooks.shutdown node
      else node)

  -- The switch of csp_service_handler.
  unfoldable pub serve : Service → Packet → Node → Node
  serve service_cmp packet node = answered (cmp_handler conf hooks packet node)
  serve service_ping packet node = sendto_reply nexthop i i opt_same node
  serve service_ps packet node = processes (hooks.ps packet) node
  serve service_memfree packet node = reply_number hooks.memfree packet node
  serve service_reboot packet node = restart (of_be (bytes_at 0 4 packet)) node
  serve service_buf_free packet node = reply_number (remaining node.pool) packet node
  serve service_uptime packet node = reply_number hooks.get_s packet node
  serve service_none packet node = free_packet (some i) node

  unfoldable pub serve_found : Option Packet → Node → Node
  serve_found none node = node
  serve_found (some packet) node = serve (service_of packet.id.dport) packet node

-- csp_service_handler
unfoldable pub handler : Driver → Conf → Hooks → ℕ → Node → Node
handler nexthop conf hooks i node = serve_found nexthop conf hooks i (packet_at i node) node
