-- ===== src/Route/Delivery.antt =====
-- csp_route_work: a packet that passes the checks is found by the one who waits for it.
use libcsp_dphi.Base.{
  ℕ, ◌<◌, ◌≡◌, refl, ap, true, false, Option, none, some, List, [], ◌∷◌, ◌++◌, get_elem?,
}
use libcsp_dphi.Packet.{Packet, CspId, flag_hmac, flag_rdp, flag_crc32}
use libcsp_dphi.Queue.{Queue, enqueue, dequeue}
use libcsp_dphi.Queue.Order.{IsValid, contents, dequeue_first}
use libcsp_dphi.Port.{get_callback, get_socket}
use libcsp_dphi.Conn
use libcsp_dphi.Conn.{Conn, opt_crc32, is_open, find_existing}
use libcsp_dphi.Node.{Node, Socket}
use libcsp_dphi.Io.Api.{so_conn_less, has, socket_at, put_socket, put_conn, item}
use libcsp_dphi.Route.{
  Callbacks, check_options, security_check, by_socket, by_port, take_in, is_conn_less,
}

-- The packet asks for no code that this build lacks, and has no checksum.
pub record IsPlain (id : CspId) : Type 0 where
  pub hmac : has id.flags flag_hmac ≡ false
  pub rdp : has id.flags flag_rdp ≡ false
  pub crc32 : has id.flags flag_crc32 ≡ false

-- Of a queue that `i` was put into: what comes out next.
abbrev pub oldest : List (Option ℕ) → ℕ → Option ℕ
oldest [] i = some i
oldest (p ∷ waiting) i = p

pub oldest_first :
    (waiting : List (Option ℕ)) (q : Queue (Option ℕ)) (i : ℕ)
    → IsValid q
    → contents q ≡ waiting ++ some i ∷ []
    → item (dequeue q).1 ≡ oldest waiting i
oldest_first [] q i v e = ap item (dequeue_first q (some i) [] v e).0
oldest_first (p ∷ waiting) q i v e = ap item (dequeue_first q p (waiting ++ some i ∷ []) v e).0

module _ (conn_max now : ℕ) (iface : Option ℕ) (i : ℕ) (packet : Packet)
    (plain : IsPlain packet.id) where
  pub options_passed : (node : Node) → check_options iface packet.id node ≡ (node, true)
  unfolding check_options
  options_passed node = rw (plain.hmac, plain.rdp) refl

  pub security_passed :
      (opts : ℕ) (node : Node)
      → has opts opt_crc32 ≡ false
      → security_check opts iface i packet node ≡ (node, true)
  unfolding security_check
  security_passed opts node e = rw (plain.crc32, e) refl

  -- The packet reaches the socket of its port.
  pub to_socket :
      (run : Callbacks) (node : Node) (s : ℕ)
      → get_callback node.ports packet.id.dport ≡ none
      → get_socket node.ports packet.id.dport ≡ some s
      → take_in conn_max now iface i packet run node
        ≡ by_socket conn_max now iface i packet s (socket_at (some s) node) node
  unfolding take_in by_port
  to_socket run node s free bound = rw (options_passed node, free, bound) refl

  module _ (run : Callbacks) (node : Node) (s : ℕ) (socket : Socket) (q : Queue (Option ℕ))
      (free : get_callback node.ports packet.id.dport ≡ none)
      (bound : get_socket node.ports packet.id.dport ≡ some s)
      (found : get_elem? node.sockets s ≡ some socket) (less : has socket.opts so_conn_less ≡ true)
      (unsummed : has socket.opts opt_crc32 ≡ false) (queue : socket.rx_queue ≡ some q)
      (v : IsValid q) (room : q.count < q.len) where
    abbrev after : Node
    after = put_socket (some s) (record socket { rx_queue = some (enqueue q (some i)).0 }) node

  module _ (run : Callbacks) (node : Node) (c : ℕ) (conn : Conn)
      (free : get_callback node.ports packet.id.dport ≡ none)
      (other : is_conn_less (socket_at (get_socket node.ports packet.id.dport) node) ≡ false)
      (known : find_existing packet.id node.conns ≡ some c)
      (found : get_elem? node.conns.arr_conn c ≡ some conn) (opened : is_open conn.state ≡ true)
      (unsummed : has conn.opts opt_crc32 ≡ false) (taken : conn.dest_socket ≡ none)
      (v : IsValid conn.rx_queue) (room : conn.rx_queue.count < conn.rx_queue.len) where
    abbrev longer : Conn
    longer = record conn { rx_queue = (enqueue conn.rx_queue (some i)).0 }

    abbrev after_conn : Node
    after_conn = put_conn (some c) longer node
