-- ===== src/Route/Security.antt =====
-- csp_route_security_check: a packet that fails its checksum reaches nobody.
use libcsp_dphi.Base.{ℕ, ◌≡◌, refl, Bool, true, false, Bool-cases, inl, inr, Option, none, some}
use libcsp_dphi.Packet.{Packet, flag_hmac, flag_rdp, flag_crc32}
use libcsp_dphi.Iface.{Iface}
use libcsp_dphi.Crc32.{verify}
use libcsp_dphi.Conn.{Conn, opt_crc32, find_existing}
use libcsp_dphi.Buffer.{unsupported}
use libcsp_dphi.Port.{get_callback, get_socket}
use libcsp_dphi.Node.{Node, Socket, store_at, free_packet, rx_failed, auth_failed, fail_with}
use libcsp_dphi.Io.Api.{has, conn_at, socket_at}
use libcsp_dphi.Route.{
  Callbacks, check_options, verified, security_check, pass, deliver, to_conn, begin, to_listener,
  to_existing, by_conn, to_conn_less, is_conn_less, by_socket, socket_index, by_port, take_in,
  count?,
}

-- No queue, no connection and no driver got anything.
abbrev pub Quiet : Node → Node → Type 0
Quiet node m =
    (m.sockets ≡ node.sockets)
    × (m.conns ≡ node.conns)
    × (m.qfifo ≡ node.qfifo)
    × (m.sent ≡ node.sent)

-- The router's node after a packet that it dropped.
abbrev discarded : Option ℕ → ℕ → Packet → Node → Node
discarded iface i packet node =
    free_packet (some i) (count? iface rx_failed (store_at i (verify node.version packet).0 node))

counted-Quiet :
    (iface : Option ℕ) (i : ℕ) (packet : Packet) (node : Node)
    → Quiet node (discarded iface i packet node)
counted-Quiet none i packet node = (refl, refl, refl, refl)
counted-Quiet (some ptr) i packet node = (refl, refl, refl, refl)

module _ (conn_max now : ℕ) (iface : Option ℕ) (i : ℕ) (packet : Packet)
    (summed : has packet.id.flags flag_crc32 ≡ true) where
  stopped :
      (next : Node → Node) (opts : ℕ) (node : Node)
      → (verify node.version packet).1 ≡ false
      → pass next i (security_check opts iface i packet node) ≡ discarded iface i packet node
  unfolding security_check verified
  stopped next opts node bad = rw (summed, bad) refl

  listener-Quiet :
      (s : ℕ) (o : Option Socket) (node : Node)
      → (verify node.version packet).1 ≡ false
      → Quiet node (to_listener conn_max now iface i packet s o node)
  unfolding to_listener
  listener-Quiet s none node bad = (refl, refl, refl, refl)
  listener-Quiet s (some socket) node bad =
      rw (stopped (begin conn_max now s socket.opts i packet.id) socket.opts node bad)
        (counted-Quiet iface i packet node)

  existing-Quiet :
      (c : ℕ) (o : Option Conn) (node : Node)
      → (verify node.version packet).1 ≡ false
      → Quiet node (to_existing conn_max now iface i packet c o node)
  unfolding to_existing
  existing-Quiet c none node bad = (refl, refl, refl, refl)
  existing-Quiet c (some conn) node bad =
      rw (stopped (to_conn c i) conn.opts node bad) (counted-Quiet iface i packet node)

  by_conn-Quiet :
      (o : Option ℕ) (s : ℕ) (socket : Option Socket) (node : Node)
      → (verify node.version packet).1 ≡ false
      → Quiet node (by_conn conn_max now iface i packet o s socket node)
  unfolding by_conn
  by_conn-Quiet none s socket node bad = listener-Quiet s socket node bad
  by_conn-Quiet (some c) s socket node bad = existing-Quiet c (conn_at (some c) node) node bad

  conn_less-Quiet :
      (s : ℕ) (o : Option Socket) (node : Node)
      → (verify node.version packet).1 ≡ false
      → Quiet node (to_conn_less conn_max now iface i packet s o node)
  unfolding to_conn_less
  conn_less-Quiet s none node bad = (refl, refl, refl, refl)
  conn_less-Quiet s (some socket) node bad =
      rw (stopped (deliver s i) socket.opts node bad) (counted-Quiet iface i packet node)

  by_socket-Quiet :
      (s : ℕ) (o : Option Socket) (node : Node)
      → (verify node.version packet).1 ≡ false
      → Quiet node (by_socket conn_max now iface i packet s o node)
  unfolding by_socket
  by_socket-Quiet s o node bad = elim (Bool-cases (is_conn_less o)) [
    | inl less ↦ rw less (conn_less-Quiet s o node bad)
    | inr full ↦ rw full (by_conn-Quiet (find_existing packet.id node.conns) s o node bad)
  ]

  by_port-Quiet :
      (run run' : Callbacks) (o : Option ℕ) (node : Node)
      → (verify node.version packet).1 ≡ false
      → Quiet node (by_port conn_max now iface i packet run o node)
        × (by_port conn_max now iface i packet run' o node
            ≡ by_port conn_max now iface i packet run o node)
  unfolding by_port
  by_port-Quiet run run' none node bad =
      let socket = get_socket node.ports packet.id.dport in
      (
        by_socket-Quiet (socket_index conn_max now iface i packet socket) (socket_at socket node)
            node bad,
        refl,
      )
  by_port-Quiet run run' (some callback) node bad =
      rw (stopped (run callback i) opt_crc32 node bad, stopped (run' callback i) opt_crc32 node bad)
        (counted-Quiet iface i packet node, refl)

  -- What the options of a packet lead to: it is dropped, or handled further as it is.
  options_cases :
      (node : Node) (P : Node × Bool → Type 0)
      → P (count? iface auth_failed (fail_with unsupported node), false)
      → P (count? iface rx_failed (fail_with unsupported node), false)
      → P (node, true)
      → P (check_options iface packet.id node)
  unfolding check_options
  options_cases node P keyed rdp plain = elim (Bool-cases (has packet.id.flags flag_hmac)) [
    | inl e ↦ rw e keyed
    | inr e ↦ elim (Bool-cases (has packet.id.flags flag_rdp)) [
      | inl f ↦ rw (e, f) rdp
      | inr f ↦ rw (e, f) plain
    ]
  ]

refused-Quiet :
    (iface : Option ℕ) (i : ℕ) (change : Iface → Iface) (node : Node)
    → Quiet node (free_packet (some i) (count? iface change (fail_with unsupported node)))
refused-Quiet none i change node = (refl, refl, refl, refl)
refused-Quiet (some ptr) i change node = (refl, refl, refl, refl)

-- A packet for this node that has a checksum, and a wrong one, is given to no socket, no connection
-- and no driver, on no path of csp_route_work; and no callback is called: what the callbacks do
-- makes no difference.
pub take_in-Quiet :
    (conn_max now : ℕ) (iface : Option ℕ) (i : ℕ) (packet : Packet) (node : Node)
    → has packet.id.flags flag_crc32 ≡ true
    → (verify node.version packet).1 ≡ false
    → (run run' : Callbacks)
    → Quiet node (take_in conn_max now iface i packet run node)
      × (take_in conn_max now iface i packet run' node
          ≡ take_in conn_max now iface i packet run node)
unfolding take_in
take_in-Quiet conn_max now iface i packet node summed bad run run' =
    options_cases conn_max now iface i packet summed node
      (λ r.
        Quiet node (
          pass
            (λ checked.
              by_port conn_max now iface i packet run (get_callback checked.ports packet.id.dport)
                checked)
            i r)
        × (pass
              (λ checked.
                by_port conn_max now iface i packet run'
                  (get_callback checked.ports packet.id.dport) checked)
              i r
            ≡ pass
                (λ checked.
                  by_port conn_max now iface i packet run
                    (get_callback checked.ports packet.id.dport) checked)
                i r))
      (refused-Quiet iface i auth_failed node, refl) (refused-Quiet iface i rx_failed node, refl)
      (by_port-Quiet conn_max now iface i packet summed run run'
        (get_callback node.ports packet.id.dport) node bad)
