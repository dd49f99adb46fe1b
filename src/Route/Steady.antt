-- ===== src/Route/Steady.antt =====
-- csp_route_work, put together from its steps: the pool of buffers stays balanced.
use libcsp_dphi.Base.{ℕ, Bool, true, false, Bool-cases, Option-cases, inl, inr, Option, none, some}
use libcsp_dphi.Packet.{Packet}
use libcsp_dphi.Dedup.{Seen, is_duplicate}
use libcsp_dphi.Buffer.Invariant.{IsBalanced, free-IsBalanced}
use libcsp_dphi.Conn.{Conn, opt_crc32, find_existing}
use libcsp_dphi.Port.{get_callback, get_socket}
use libcsp_dphi.Qfifo
use libcsp_dphi.Node.{Node, Input, Socket, store_at, packet_at}
use libcsp_dphi.Io.{Driver}
use libcsp_dphi.Io.Api.{conn_at, socket_at}
use libcsp_dphi.Route.{
  Callbacks, check_options, security_check, deliver, to_conn, begin, to_listener, to_existing,
  by_conn, to_conn_less, is_conn_less, by_socket, socket_index, by_port, take_in, forward_or_take,
  unless_duplicate, route_counted, is_to_me, looks_for_duplicates, dropped, rx_bytes, route_packet,
  route_input, route_work, count?,
}
use libcsp_dphi.Route.Balance.{
  Steady, store-IsBalanced, send_direct-IsBalanced, pass-IsBalanced, count?-pool,
  options-IsBalanced, security-IsBalanced, deliver-IsBalanced, to_conn-IsBalanced, begin-IsBalanced,
}

module _ (conn_max now : ℕ) (iface : Option ℕ) (i : ℕ) (packet : Packet) where
  listener-IsBalanced :
      (s : ℕ) (o : Option Socket) → Steady (to_listener conn_max now iface i packet s o)
  unfolding to_listener
  listener-IsBalanced s none node v = free-IsBalanced (some i) node.pool v
  listener-IsBalanced s (some socket) node v =
      pass-IsBalanced (begin conn_max now s socket.opts i packet.id) i
        (security_check socket.opts iface i packet node)
        (begin-IsBalanced conn_max now s socket.opts i packet.id)
        (security-IsBalanced socket.opts iface i packet node v)

  existing-IsBalanced :
      (c : ℕ) (o : Option Conn) → Steady (to_existing conn_max now iface i packet c o)
  unfolding to_existing
  existing-IsBalanced c none node v = v
  existing-IsBalanced c (some conn) node v =
      pass-IsBalanced (to_conn c i) i (security_check conn.opts iface i packet node)
        (to_conn-IsBalanced c i) (security-IsBalanced conn.opts iface i packet node v)

  by_conn-IsBalanced :
      (o : Option ℕ) (s : ℕ) (socket : Option Socket)
      → Steady (by_conn conn_max now iface i packet o s socket)
  unfolding by_conn
  by_conn-IsBalanced none s socket node v = listener-IsBalanced s socket node v
  by_conn-IsBalanced (some c) s socket node v = existing-IsBalanced c (conn_at (some c) node) node v

  conn_less-IsBalanced :
      (s : ℕ) (o : Option Socket) → Steady (to_conn_less conn_max now iface i packet s o)
  unfolding to_conn_less
  conn_less-IsBalanced s none node v = v
  conn_less-IsBalanced s (some socket) node v =
      pass-IsBalanced (deliver s i) i (security_check socket.opts iface i packet node)
        (deliver-IsBalanced s i) (security-IsBalanced socket.opts iface i packet node v)

  by_socket-IsBalanced :
      (s : ℕ) (o : Option Socket) → Steady (by_socket conn_max now iface i packet s o)
  unfolding by_socket
  by_socket-IsBalanced s o node v = elim (Bool-cases (is_conn_less o)) [
    | inl less ↦ rw less (conn_less-IsBalanced s o node v)
    | inr full ↦ rw full (by_conn-IsBalanced (find_existing packet.id node.conns) s o node v)
  ]

  module _ (run : Callbacks) (steady : (callback i : ℕ) → Steady (run callback i)) where
    by_port-IsBalanced : (o : Option ℕ) → Steady (by_port conn_max now iface i packet run o)
    unfolding by_port
    by_port-IsBalanced none node v =
        let socket = get_socket node.ports packet.id.dport in
        by_socket-IsBalanced (socket_index conn_max now iface i packet socket)
          (socket_at socket node) node v
    by_port-IsBalanced (some callback) node v =
        pass-IsBalanced (run callback i) i (security_check opt_crc32 iface i packet node)
          (steady callback i) (security-IsBalanced opt_crc32 iface i packet node v)

    take_in-IsBalanced : Steady (take_in conn_max now iface i packet run)
    unfolding take_in
    take_in-IsBalanced node v =
        pass-IsBalanced
          (λ checked.
            by_port conn_max now iface i packet run (get_callback checked.ports packet.id.dport)
              checked)
          i (check_options iface packet.id node)
          (λ checked h. by_port-IsBalanced (get_callback checked.ports packet.id.dport) checked h)
          (options-IsBalanced iface packet.id node v)

    pub forward_or_take-IsBalanced :
        (nexthop : Driver) (to_me : Bool)
        → Steady (forward_or_take conn_max now iface i packet nexthop run to_me)
    unfolding forward_or_take
    forward_or_take-IsBalanced nexthop true node v = take_in-IsBalanced node v
    forward_or_take-IsBalanced nexthop false node v =
        send_direct-IsBalanced nexthop packet.id i iface node v

module _ (nexthop : Driver) (run : Callbacks) (conn_max now : ℕ)
    (steady : (callback i : ℕ) → Steady (run callback i)) where
  unless_duplicate-IsBalanced :
      (iface : Option ℕ) (i : ℕ) (to_me : Bool) (r : Packet × Seen × Bool)
      → Steady (unless_duplicate nexthop run conn_max now iface i to_me r)
  unfolding unless_duplicate
  unless_duplicate-IsBalanced iface i to_me (packet, seen, true) node v =
      free-IsBalanced (some i) _ (
        count?-pool iface dropped (store_at i packet (record node { seen = seen }))
          (store-IsBalanced i packet (record node { seen = seen }) v))
  unless_duplicate-IsBalanced iface i to_me (packet, seen, false) node v =
      forward_or_take-IsBalanced conn_max now iface i packet run steady nexthop to_me
        (store_at i packet (record node { seen = seen }))
        (store-IsBalanced i packet (record node { seen = seen }) v)

  counted-IsBalanced :
      (iface : Option ℕ) (i : ℕ) (packet : Packet)
      → Steady (route_counted nexthop run conn_max now iface i packet)
  unfolding route_counted
  counted-IsBalanced iface i packet node v =
      let to_me = is_to_me packet.id.dst iface node in
      elim (Bool-cases (looks_for_duplicates node.dedup to_me)) [
        | inl looks ↦ rw looks (
            unless_duplicate-IsBalanced iface i to_me
              (is_duplicate node.version now packet node.seen) node v)
        | inr off ↦
            rw off (
              forward_or_take-IsBalanced conn_max now iface i packet run steady nexthop to_me node
                v)
      ]

  packet-IsBalanced :
      (iface : Option ℕ) (i : ℕ) (o : Option Packet)
      → Steady (route_packet nexthop run conn_max now iface i o)
  unfolding route_packet
  packet-IsBalanced iface i none node v = v
  packet-IsBalanced iface i (some packet) node v =
      counted-IsBalanced iface i packet (count? iface (rx_bytes packet.len) node)
        (count?-pool iface (rx_bytes packet.len) node v)

  input-IsBalanced :
      (o : Option Input) (node : Node)
      → IsBalanced node.pool
      → IsBalanced (route_input nexthop run conn_max now o node).0.pool
  unfolding route_input
  input-IsBalanced none node v = v
  input-IsBalanced (some input) node v = elim (Option-cases input.packet) [
    | inl e ↦ rw e v
    | inr (i, e) ↦ rw e (packet-IsBalanced input.iface i (packet_at i node) node v)
  ]

-- Whatever packet the router takes from its queue, and on every way that it goes from there, one
-- call of csp_route_work leaves a balanced pool balanced: the free buffers are exactly those
-- without references. The callbacks are taken to do the same.
pub route_work-IsBalanced :
    (nexthop : Driver) (run : Callbacks) (conn_max now : ℕ) (node : Node)
    → ((callback i : ℕ) → Steady (run callback i))
    → IsBalanced node.pool
    → IsBalanced (route_work nexthop run conn_max now node).0.pool
unfolding route_work Qfifo.read
route_work-IsBalanced nexthop run conn_max now node steady v =
    input-IsBalanced nexthop run conn_max now steady (Qfifo.read node).1 (Qfifo.read node).0 v
