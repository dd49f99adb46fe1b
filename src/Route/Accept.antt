-- ===== src/Route/Accept.antt =====
-- csp_route_work: the first packet of a connection is found by the one who accepts the connection.
use libcsp_dphi.Base.{ℕ, ◌<◌, ◌≡◌, false, Option, none, some, get_elem?, set}
use libcsp_dphi.Packet.{Packet}
use libcsp_dphi.Queue.{Queue}
use libcsp_dphi.Queue.Order.{IsValid}
use libcsp_dphi.Port.{get_callback, get_socket}
use libcsp_dphi.Conn.{Conn, conn_server, opt_crc32, find_existing, allocate}
use libcsp_dphi.Node.{Node, Socket}
use libcsp_dphi.Io.Api.{so_conn_less, has}
use libcsp_dphi.Route.{Callbacks, reply_ids}
use libcsp_dphi.Route.Delivery.{IsPlain}
use libcsp_dphi.Route.Listening.{given, fresh, drained}

module _ (conn_max now : ℕ) (iface : Option ℕ) (i : ℕ) (packet : Packet) (plain : IsPlain packet.id)
    (run : Callbacks) (node : Node) (s : ℕ) (socket : Socket) (q : Queue (Option ℕ))
    (free : get_callback node.ports packet.id.dport ≡ none)
    (bound : get_socket node.ports packet.id.dport ≡ some s)
    (listens : get_elem? node.sockets s ≡ some socket) (full : has socket.opts so_conn_less ≡ false)
    (unsummed : has socket.opts opt_crc32 ≡ false) (queue : socket.rx_queue ≡ some q)
    (v : IsValid q) (room : q.count < q.len)
    (unknown : find_existing packet.id node.conns ≡ none) where
  module _ (c : ℕ) (conn : Conn) (found : get_elem? node.conns.arr_conn c ≡ some conn)
      (valid : IsValid conn.rx_queue)
      (allocated : allocate conn_max conn_server node.conns ≡ (
        given packet.id (reply_ids packet.id) now c conn node.conns node.pool found,
        some c,
      )) where
    abbrev new_conn : Conn
    new_conn = fresh packet.id (reply_ids packet.id) now c conn node.conns node.pool found

    abbrev node_new : Node
    node_new = record node {
      conns = record (given packet.id (reply_ids packet.id) now c conn node.conns node.pool found) {
        arr_conn =
            set
              (given packet.id (reply_ids packet.id) now c conn node.conns node.pool found).arr_conn
              c new_conn;
      };
      pool = (drained packet.id (reply_ids packet.id) now c conn node.conns node.pool found).1;
    }
