-- ===== src/Services/Steady.antt =====
-- csp_service_handler keeps the pool of buffers balanced, as the router asks of a callback.
use libcsp_dphi.Base.{
  le32, ℕ, refl, Bool, true, false, Bool-cases, inl, inr, ◌==◌, ltb, Option, none, some, List, u16,
  of_be,
}
use libcsp_dphi.Packet.{Packet}
use libcsp_dphi.Iface.{Iface}
use libcsp_dphi.Rtable
use libcsp_dphi.Buffer.{Errno, clock_set_fail, unsupported}
use libcsp_dphi.Buffer.Invariant.{IsBalanced, free-IsBalanced, IsBalanced-record}
use libcsp_dphi.Conn.{opt_rdp, opt_hmac}
use libcsp_dphi.Node.{Node, packet_at, store_at, fail_with}
use libcsp_dphi.Io.{Driver}
use libcsp_dphi.Io.Api.{
  has, sendto_id, sendto_packet, sendto, reply_id, reply_with, sendto_reply, opt_same,
}
use libcsp_dphi.Route.Balance.{Steady, store-IsBalanced, send_direct-IsBalanced}
use libcsp_dphi.Services.{
  Service, service_cmp, service_ping, service_ps, service_memfree, service_reboot, service_buf_free,
  service_uptime, service_none, service_of, reboot_magic, shutdown_magic, reply_in, reply_number,
  answered, processes, restart, serve, serve_found, handler,
}
use libcsp_dphi.Services.Cmp.{
  Conf, Hooks, Reply, Request, cmp_ident, cmp_route_set_v1, cmp_route_set_v2, cmp_if_stats,
  cmp_peek, cmp_poke, cmp_clock, cmp_unknown, request_of, routed, set_route, stats_of, do_ident,
  do_route_set_v1, do_route_set_v2, do_if_stats, do_peek, do_poke, read_clock, do_clock, by_code,
  cmp_handler, put, byte_at, bytes_at, named, max_len,
}

-- Hooks that leave the buffers alone.
pub record AreSteady (hooks : Hooks) : Type 0 where
  pub reboot : Steady hooks.reboot
  pub shutdown : Steady hooks.shutdown
  pub poke :
      (addr : ℕ) (bytes : List ℕ) (p : Packet) (node : Node)
      → IsBalanced node.pool
      → IsBalanced (hooks.poke addr bytes p node).1.pool
  pub set_time :
      (sec nsec : ℕ) (node : Node)
      → IsBalanced node.pool
      → IsBalanced (hooks.set_time sec nsec node).0.pool

failed : (e : Errno) → Steady (fail_with e)
failed e node v = IsBalanced-record node.pool _ refl v.valid refl refl v

module _ (nexthop : Driver) where
  pub packet-IsBalanced :
      (prio dest dport src_port opts i : ℕ) (o : Option Packet)
      → Steady (sendto_packet nexthop prio dest dport src_port opts i o)
  unfolding sendto_packet
  packet-IsBalanced prio dest dport src_port opts i none node v = v
  packet-IsBalanced prio dest dport src_port opts i (some packet) node v =
      elim (Bool-cases (has opts opt_rdp)) [
        | inl rdp ↦ rw rdp (free-IsBalanced (some i) _ (failed unsupported node v))
        | inr plain ↦ elim (Bool-cases (has opts opt_hmac)) [
          | inl keyed ↦ rw (plain, keyed) (free-IsBalanced (some i) _ (failed unsupported node v))
          | inr other ↦
              let id = sendto_id prio dest dport src_port opts packet.id in
              rw (plain, other)
                (send_direct-IsBalanced nexthop id i none
                  (store_at i (record packet { id = id }) node)
                  (store-IsBalanced i (record packet { id = id }) node v))
        ]
      ]

  reply-IsBalanced :
      (o : Option Packet) (i : ℕ) (r : Option Packet) (opts : ℕ)
      → Steady (reply_with nexthop o i r opts)
  unfolding reply_with sendto
  reply-IsBalanced none i r opts node v = v
  reply-IsBalanced (some request) i none opts node v = v
  reply-IsBalanced (some request) i (some reply) opts node v =
      let answer = record reply { id = reply_id node.version opts request.id reply.id } in
      packet-IsBalanced request.id.pri request.id.src request.id.sport request.id.dport opts i
        (packet_at i (store_at i answer node)) (store_at i answer node)
        (store-IsBalanced i answer node v)

  pub sendto_reply-IsBalanced :
      (request reply opts : ℕ) → Steady (sendto_reply nexthop request reply opts)
  unfolding sendto_reply
  sendto_reply-IsBalanced request reply opts node v =
      reply-IsBalanced (packet_at request node) reply (packet_at reply node) opts node v

abbrev pub Kept : Reply → Type 0
Kept r = IsBalanced r.1.pool

routed-Kept :
    (p : Packet) (node : Node) (o : Option (Rtable.Table × Bool))
    → IsBalanced node.pool
    → Kept (routed p node o)
unfolding routed
routed-Kept p node none v = v
routed-Kept p node (some (routes, inside)) v = v

set_route-Kept :
    (dest netmask via : ℕ) (o : Option Iface) (p : Packet) (node : Node)
    → IsBalanced node.pool
    → Kept (set_route dest netmask via o p node)
unfolding set_route
set_route-Kept dest netmask via none p node v = v
set_route-Kept dest netmask via (some i) p node v =
    routed-Kept p node
      (Rtable.set_route node.version dest (some netmask) (some i.ptr) via node.routes) v

stats-Kept :
    (o : Option Iface) (p : Packet) (node : Node) → IsBalanced node.pool → Kept (stats_of o p node)
unfolding stats_of
stats-Kept none p node v = v
stats-Kept (some i) p node v = v

module _ (conf : Conf) (hooks : Hooks) (steady : AreSteady hooks) where
  clock-Kept : (p : Packet) (r : Node × Bool) → IsBalanced r.0.pool → Kept (read_clock hooks p r)
  unfolding read_clock
  clock-Kept p (node, true) v = v
  clock-Kept p (node, false) v = failed clock_set_fail node v

  code-Kept :
      (request : Request) (p : Packet) (node : Node)
      → IsBalanced node.pool
      → Kept (by_code conf hooks request p node)
  unfolding by_code do_ident do_route_set_v1 do_route_set_v2 do_if_stats do_peek do_poke do_clock
  code-Kept cmp_ident p node v = v
  code-Kept cmp_route_set_v1 p node v = set_route-Kept _ _ _ (named 4 p node) p node v
  code-Kept cmp_route_set_v2 p node v = set_route-Kept _ _ _ (named 8 p node) p node v
  code-Kept cmp_if_stats p node v = stats-Kept (named 2 p node) p node v
  code-Kept cmp_peek p node v = elim (Bool-cases (ltb max_len (byte_at 6 p))) [
    | inl long ↦ rw long v
    | inr fits ↦ rw fits v
  ]
  code-Kept cmp_poke p node v = elim (Bool-cases (ltb max_len (byte_at 6 p))) [
    | inl long ↦ rw long v
    | inr fits ↦ rw fits (
        steady.poke (of_be (bytes_at 2 4 p)) (bytes_at 7 (byte_at 6 p) p)
          (put 2 (le32 (of_be (bytes_at 2 4 p))) p) node v)
  ]
  code-Kept cmp_clock p node v = elim (Bool-cases (of_be (bytes_at 2 4 p) == 0)) [
    | inl unset ↦ rw unset (clock-Kept p (node, true) v)
    | inr given ↦
        rw given (
          clock-Kept p _ (steady.set_time (of_be (bytes_at 2 4 p)) (of_be (bytes_at 6 4 p)) node v))
  ]
  code-Kept cmp_unknown p node v = v

  pub cmp-Kept :
      (p : Packet) (node : Node) → IsBalanced node.pool → Kept (cmp_handler conf hooks p node)
  unfolding cmp_handler
  cmp-Kept p node v = elim (Bool-cases (byte_at 0 p == 0)) [
    | inl asked ↦ rw asked (code-Kept (request_of (byte_at 1 p)) p node v)
    | inr other ↦ rw other v
  ]

  module _ (nexthop : Driver) (i : ℕ) where
    in-IsBalanced : (p : Packet) → Steady (reply_in nexthop conf hooks i p)
    unfolding reply_in
    in-IsBalanced p node v =
        sendto_reply-IsBalanced nexthop i i opt_same (store_at i p node)
          (store-IsBalanced i p node v)

    answered-IsBalanced : (r : Reply) → Kept r → IsBalanced (answered nexthop conf hooks i r).pool
    unfolding answered
    answered-IsBalanced (p, node, true) v = in-IsBalanced p node v
    answered-IsBalanced (p, node, false) v =
        free-IsBalanced (some i) (store_at i p node).pool (store-IsBalanced i p node v)

    processes-IsBalanced : (r : Packet × ℕ) → Steady (processes nexthop conf hooks i r)
    unfolding processes
    processes-IsBalanced (p, len) node v =
        let listed = store_at i (record p { len = u16 len }) node in
        let w = store-IsBalanced i (record p { len = u16 len }) node v in
        elim (Bool-cases (u16 len == 0)) [
          | inl empty ↦ rw empty (
              sendto_reply-IsBalanced nexthop i i opt_same _
                (free-IsBalanced (some i) listed.pool w))
          | inr full ↦ rw full (sendto_reply-IsBalanced nexthop i i opt_same listed w)
        ]

    restart-IsBalanced : (magic_word : ℕ) → Steady (restart nexthop conf hooks i magic_word)
    unfolding restart
    restart-IsBalanced magic_word node v = elim (Bool-cases (magic_word == reboot_magic)) [
      | inl reboot ↦ rw reboot (free-IsBalanced (some i) _ (steady.reboot node v))
      | inr other ↦ elim (Bool-cases (magic_word == shutdown_magic)) [
        | inl off ↦ rw (other, off) (free-IsBalanced (some i) _ (steady.shutdown node v))
        | inr wrong ↦ rw (other, wrong) (free-IsBalanced (some i) node.pool v)
      ]
    ]

    serve-IsBalanced : (s : Service) (p : Packet) → Steady (serve nexthop conf hooks i s p)
    unfolding serve reply_number
    serve-IsBalanced service_cmp p node v =
        answered-IsBalanced (cmp_handler conf hooks p node) (cmp-Kept p node v)
    serve-IsBalanced service_ping p node v = sendto_reply-IsBalanced nexthop i i opt_same node v
    serve-IsBalanced service_ps p node v = processes-IsBalanced (hooks.ps p) node v
    serve-IsBalanced service_memfree p node v = in-IsBalanced _ node v
    serve-IsBalanced service_reboot p node v = restart-IsBalanced (of_be (bytes_at 0 4 p)) node v
    serve-IsBalanced service_buf_free p node v = in-IsBalanced _ node v
    serve-IsBalanced service_uptime p node v = in-IsBalanced _ node v
    serve-IsBalanced service_none p node v = free-IsBalanced (some i) node.pool v

    found-IsBalanced : (o : Option Packet) → Steady (serve_found nexthop conf hooks i o)
    unfolding serve_found
    found-IsBalanced none node v = v
    found-IsBalanced (some p) node v = serve-IsBalanced (service_of p.id.dport) p node v

-- csp_service_handler keeps a balanced pool balanced for every packet, of every service and of none,
-- where the hooks of the platform do. It is therefore a callback as the router needs one.
pub handler-IsBalanced :
    (nexthop : Driver) (conf : Conf) (hooks : Hooks) (i : ℕ)
    → AreSteady hooks
    → Steady (handler nexthop conf hooks i)
unfolding handler
handler-IsBalanced nexthop conf hooks i steady node v =
    found-IsBalanced conf hooks steady nexthop i (packet_at i node) node v
