-- ===== src/Route.antt =====
-- csp_route.c, built without RDP, HMAC and promiscuous mode: what the router does with a packet
-- that came in. `nexthop` stands for the drivers and `run` for the callbacks bound to ports, by
-- their addresses; a callback owns the packet that it is called with. The hook for incoming
-- packets prints.
pub mod Security
pub mod Balance
pub mod Steady
pub mod Delivery
pub mod Listening
pub mod Accept
mod Tests
mod DeliveryTests
use libcsp_dphi.Base.{
  ℕ, ◌+◌, Bool, true, false, ◌&&◌, ◌||◌, not, ◌==◌, if◌then◌else◌, Option, none, some, List, set,
  get_elem?, bit_and, u8, u32,
}
use libcsp_dphi.Packet.{Packet, CspId, flag_hmac, flag_rdp, flag_crc32}
use libcsp_dphi.Iface.{Iface}
use libcsp_dphi.Id.{is_broadcast}
use libcsp_dphi.Crc32
use libcsp_dphi.Queue.{Queue, enqueue}
use libcsp_dphi.Buffer.{unsupported}
use libcsp_dphi.Iflist.{get_by_addr}
use libcsp_dphi.Port.{get_callback, get_socket}
use libcsp_dphi.Dedup.{Seen, is_duplicate}
use libcsp_dphi.Conn
use libcsp_dphi.Conn.{Conn, conn_server, opt_crc32, find_existing}
use libcsp_dphi.Qfifo
use libcsp_dphi.Node.{
  Node, Socket, Input, DedupMode, dedup_off, dedup_fwd, dedup_incoming, dedup_all, iface_at?, count,
  rx_failed, auth_failed, overflowed, fail_with, free_packet, packet_at, store_at,
}
use libcsp_dphi.Io.{Driver}
use libcsp_dphi.Io.Direct.{send_direct}
use libcsp_dphi.Io.Api.{so_conn_less, has, socket_at, conn_at, put_socket, put_conn}

-- What a callback does.
abbrev pub Callbacks : Type 0
Callbacks = ℕ → ℕ → Node → Node

-- What csp_route_work returns.
pub data Status : Type 0 where
  err_none err_timedout : Status

abbrev pub count? : Option ℕ → (Iface → Iface) → Node → Node
count? none change node = node
count? (some ptr) change node = count ptr change node

-- csp_route_check_options: false is CSP_ERR_NOTSUP.
unfoldable pub check_options : Option ℕ → CspId → Node → Node × Bool
check_options iface id node =
    if has id.flags flag_hmac
    then (count? iface auth_failed (fail_with unsupported node), false)
    else if has id.flags flag_rdp
    then (count? iface rx_failed (fail_with unsupported node), false)
    else (node, true)

unfoldable pub verified : Option ℕ → ℕ → Packet × Bool → Node → Node × Bool
verified iface i (packet, true) node = (store_at i packet node, true)
verified iface i (packet, false) node = (count? iface rx_failed (store_at i packet node), false)

-- csp_route_security_check: false is CSP_ERR_CRC32.
unfoldable pub security_check : ℕ → Option ℕ → ℕ → Packet → Node → Node × Bool
security_check security_opts iface i packet node =
    if has packet.id.flags flag_crc32
    then verified iface i (Crc32.verify node.version packet) node
    else if has security_opts opt_crc32
    then (count? iface rx_failed node, false)
    else (node, true)

abbrev pub is_some_iface : Option Iface → Bool
is_some_iface none = false
is_some_iface (some i) = true

abbrev pub is_broadcast_at : ℕ → ℕ → Option Iface → Bool
is_broadcast_at version addr none = false
is_broadcast_at version addr (some i) = is_broadcast version addr i

-- The packet is for this node.
unfoldable pub is_to_me : ℕ → Option ℕ → Node → Bool
is_to_me dst iface node =
    is_some_iface (get_by_addr dst node.interfaces)
    || is_broadcast_at node.version dst (iface_at? iface node)

abbrev pub looks_for_duplicates : DedupMode → Bool → Bool
looks_for_duplicates dedup_off to_me = false
looks_for_duplicates dedup_fwd to_me = not to_me
looks_for_duplicates dedup_incoming to_me = to_me
looks_for_duplicates dedup_all to_me = true

-- A packet that a test lets through is handled further; one that it stops is freed.
abbrev pub pass : (Node → Node) → ℕ → Node × Bool → Node
pass next i (node, true) = next node
pass next i (node, false) = free_packet (some i) node

-- csp_queue_enqueue on the queue of a socket; one that has none fails.
unfoldable pub socket_enqueue : ℕ → Option Socket → ℕ → Node → Node × Bool
socket_enqueue s none item node = (node, false)
socket_enqueue s (some socket) item node = elim socket.rx_queue [
  | none ↦ (node, false)
  | some q ↦
      let (q', done) = enqueue q (some item) in
      (put_socket (some s) (record socket { rx_queue = some q' }) node, done)
]

-- A packet for a socket without connections.
abbrev pub kept_or_freed : ℕ → Node × Bool → Node
kept_or_freed i (node, true) = node
kept_or_freed i (node, false) = free_packet (some i) (overflowed node)

unfoldable pub deliver : ℕ → ℕ → Node → Node
deliver s i node = kept_or_freed i (socket_enqueue s (socket_at (some s) node) i node)

unfoldable pub announced : ℕ → Conn → Node × Bool → Node
announced c conn (node, true) = put_conn (some c) (record conn { dest_socket = none }) node
announced c conn (node, false) =
    let over = overflowed node in
    let (conns, pool) = Conn.close (some c) over.conns over.pool in
    record over { conns = conns; pool = pool }

unfoldable pub announce_to : ℕ → Conn → Option ℕ → Node → Node
announce_to c conn none node = node
announce_to c conn (some s) node =
    announced c conn (socket_enqueue s (socket_at (some s) node) c node)

-- A new connection is queued at its socket.
unfoldable pub announce : ℕ → Option Conn → Node → Node
announce c none node = node
announce c (some conn) node = announce_to c conn conn.dest_socket node

unfoldable pub enqueued : ℕ → ℕ → Conn.Table × Conn.Status → Node → Node
enqueued c i (conns, Conn.err_none) node =
    let kept = record node { conns = conns } in announce c (conn_at (some c) kept) kept
enqueued c i (conns, Conn.err_inval) node =
    free_packet (some i) (overflowed (record node { conns = conns }))
enqueued c i (conns, Conn.err_nomem) node =
    free_packet (some i) (overflowed (record node { conns = conns }))

-- The packet goes to the connection.
unfoldable pub to_conn : ℕ → ℕ → Node → Node
to_conn c i node = enqueued c i (Conn.enqueue_packet (some c) (some i) node.conns) node

-- The identifier of replies on a new connection.
unfoldable pub reply_ids : CspId → CspId
reply_ids id = record {
  pri = id.pri;
  src = id.dst;
  dst = id.src;
  dport = id.sport;
  sport = id.dport;
  flags = id.flags;
}

unfoldable pub attach : ℕ → ℕ → ℕ → Option Conn → Node → Node
attach c s opts none node = node
attach c s opts (some conn) node =
    put_conn (some c) (record conn { dest_socket = some s; opts = opts }) node

unfoldable pub made : ℕ → ℕ → ℕ → Option ℕ → Node → Node
made s opts i none node = free_packet (some i) (record node {
  conns = record (node.conns) { dbg_conn_out = u8 (node.conns.dbg_conn_out + 1) };
})
made s opts i (some c) node = to_conn c i (attach c s opts (conn_at (some c) node) node)

-- A new connection, made with `conn_max` and at the time `now`.
unfoldable pub begin : ℕ → ℕ → ℕ → ℕ → ℕ → CspId → Node → Node
begin conn_max now s opts i id node =
    let (conns, pool, c) =
      Conn.new conn_max id (reply_ids id) conn_server now node.conns node.pool in
    made s opts i c (record node { conns = conns; pool = pool })

abbrev pub is_conn_less : Option Socket → Bool
is_conn_less none = false
is_conn_less (some socket) = has socket.opts so_conn_less

module _ (conn_max now : ℕ) (iface : Option ℕ) (i : ℕ) (packet : Packet) where
  -- A packet on a new connection: to the socket of its port, if there is one.
  unfoldable pub to_listener : ℕ → Option Socket → Node → Node
  to_listener s none node = free_packet (some i) node
  to_listener s (some socket) node =
      pass (begin conn_max now s socket.opts i packet.id) i
        (security_check socket.opts iface i packet node)

  unfoldable pub to_existing : ℕ → Option Conn → Node → Node
  to_existing c none node = node
  to_existing c (some conn) node =
      pass (to_conn c i) i (security_check conn.opts iface i packet node)

  unfoldable pub by_conn : Option ℕ → ℕ → Option Socket → Node → Node
  by_conn none s socket node = to_listener s socket node
  by_conn (some c) s socket node = to_existing c (conn_at (some c) node) node

  unfoldable pub to_conn_less : ℕ → Option Socket → Node → Node
  to_conn_less s none node = node
  to_conn_less s (some socket) node =
      pass (deliver s i) i (security_check socket.opts iface i packet node)

  -- `s` is the socket of the port, if `socket` is one.
  unfoldable pub by_socket : ℕ → Option Socket → Node → Node
  by_socket s socket node =
      if is_conn_less socket
      then to_conn_less s socket node
      else by_conn (find_existing packet.id node.conns) s socket node

  abbrev pub socket_index : Option ℕ → ℕ
  socket_index none = 0
  socket_index (some s) = s

  unfoldable pub by_port : Callbacks → Option ℕ → Node → Node
  by_port run none node =
      let socket = get_socket node.ports packet.id.dport in
      by_socket (socket_index socket) (socket_at socket node) node
  by_port run (some callback) node =
      pass (run callback i) i (security_check opt_crc32 iface i packet node)

  -- A packet for this node.
  unfoldable pub take_in : Callbacks → Node → Node
  take_in run node =
      pass (λ checked. by_port run (get_callback checked.ports packet.id.dport) checked) i
        (check_options iface packet.id node)

  unfoldable pub forward_or_take : Driver → Callbacks → Bool → Node → Node
  forward_or_take nexthop run true node = take_in run node
  forward_or_take nexthop run false node = (send_direct nexthop packet.id i iface node).1

abbrev pub dropped : Iface → Iface
dropped i = record i { drop = u32 (i.drop + 1) }

abbrev pub rx_bytes : ℕ → Iface → Iface
rx_bytes bytes i = record i { rx = u32 (i.rx + 1); rxbytes = u32 (i.rxbytes + bytes) }

unfoldable pub unless_duplicate :
    Driver → Callbacks → ℕ → ℕ → Option ℕ → ℕ → Bool → Packet × Seen × Bool → Node → Node
unless_duplicate nexthop run conn_max now iface i to_me (packet, seen, true) node =
    free_packet (some i) (count? iface dropped (store_at i packet (record node { seen = seen })))
unless_duplicate nexthop run conn_max now iface i to_me (packet, seen, false) node =
    forward_or_take conn_max now iface i packet nexthop run to_me
      (store_at i packet (record node { seen = seen }))

unfoldable pub route_counted : Driver → Callbacks → ℕ → ℕ → Option ℕ → ℕ → Packet → Node → Node
route_counted nexthop run conn_max now iface i packet node =
    let to_me = is_to_me packet.id.dst iface node in
    if looks_for_duplicates node.dedup to_me
    then unless_duplicate nexthop run conn_max now iface i to_me
        (is_duplicate node.version now packet node.seen) node
    else forward_or_take conn_max now iface i packet nexthop run to_me node

-- A packet of the queue. Its buffer is one of the pool.
unfoldable pub route_packet :
    Driver → Callbacks → ℕ → ℕ → Option ℕ → ℕ → Option Packet → Node → Node
route_packet nexthop run conn_max now iface i none node = node
route_packet nexthop run conn_max now iface i (some packet) node =
    route_counted nexthop run conn_max now iface i packet (count? iface (rx_bytes packet.len) node)

unfoldable pub route_input : Driver → Callbacks → ℕ → ℕ → Option Input → Node → Node × Status
route_input nexthop run conn_max now none node = (node, err_timedout)
route_input nexthop run conn_max now (some input) node = elim input.packet [
  | none ↦ (node, err_timedout)
  | some i ↦ (route_packet nexthop run conn_max now input.iface i (packet_at i node) node, err_none)
]

-- csp_route_work. csp_get_ms() returns `now` throughout.
unfoldable pub route_work : Driver → Callbacks → ℕ → ℕ → Node → Node × Status
route_work nexthop run conn_max now node =
    let (node', input) = Qfifo.read node in route_input nexthop run conn_max now input node'
