-- ===== src/Route/Listening.antt =====
-- csp_route_work: the first packet of a connection. The connection is made, and is found by the one who
-- waits at the socket, with the packet.
use libcsp_dphi.Base.{
  ℕ, ◌<◌, ◌≡◌, ◌∙◌, refl, ap, arith, true, Option, Option-cases, inl, inr, none, some, [], ◌∷◌,
  ◌++◌, length, length-set, get_elem?, set, get_elem?-set_self, get_elem?-lt,
}
use libcsp_dphi.Packet.{CspId, id_copy}
use libcsp_dphi.Queue.{Queue, enqueue}
use libcsp_dphi.Queue.Order.{IsValid, contents, length-contents, enqueue-IsValid, enqueue_room}
use libcsp_dphi.Buffer.{Pool}
use libcsp_dphi.Buffer.Drain.{drain}
use libcsp_dphi.Conn
use libcsp_dphi.Conn.{
  Conn, Table, Kind, conn_server, conn_open, conn_closed, opt_crc32, is_open, find_existing,
  allocate,
}
use libcsp_dphi.Conn.Allocate.{opened}
use libcsp_dphi.Node.{Node, Socket}
use libcsp_dphi.Io.Api.{
  conn_at, put_socket, put_conn, take_from, accept, accept_on, read, read_from,
}
use libcsp_dphi.Route.{
  socket_enqueue, made, attach, to_conn, enqueued, announce, announce_to, announced,
}
use libcsp_dphi.Route.Delivery.{oldest, oldest_first}

-- A connection that was written is there.
conn_at-put_conn :
    (c : ℕ) (conn : Conn) (node : Node)
    → c < length node.conns.arr_conn
    → conn_at (some c) (put_conn (some c) conn node) ≡ some conn
conn_at-put_conn c conn node inside = get_elem?-set_self node.conns.arr_conn c conn inside

-- What csp_conn_new makes of the connection `conn` that was allocated.
module _ (idin idout : CspId) (now c : ℕ) (conn : Conn) (table : Table) (pool : Pool)
    (found : get_elem? table.arr_conn c ≡ some conn) where
  abbrev pub drained : Queue (Option ℕ) × Pool
  drained = drain conn.rx_queue.count conn.rx_queue pool

  abbrev pub fresh : Conn
  fresh = record (opened conn_server conn) {
    idin = id_copy (opened conn_server conn).idin idin;
    idout = id_copy (opened conn_server conn).idout idout;
    timestamp = now;
    rx_queue = drained.0;
  }

  abbrev pub given : Table
  given = record table { arr_conn = set table.arr_conn c (opened conn_server conn); last_given = c }

  pub new_lem :
      (conn_max : ℕ)
      → allocate conn_max conn_server table ≡ (given, some c)
      → Conn.new conn_max idin idout conn_server now table pool
        ≡ (record given { arr_conn = set given.arr_conn c fresh }, drained.1, some c)
  unfolding Conn.new Conn.set_up_allocated Conn.set_up Conn.flush_rx_queue
  new_lem conn_max e =
      rw
        (
          e,
          get_elem?-set_self table.arr_conn c (opened conn_server conn)
              (get_elem?-lt table.arr_conn c conn found),
        )
        refl

-- The connection `f` is new in the table, and the socket that listens has room for it.
module _ (i c s opts : ℕ) (node : Node) (f : Conn) (socket : Socket) (q : Queue (Option ℕ))
    (there : get_elem? node.conns.arr_conn c ≡ some f) (valid : IsValid f.rx_queue)
    (empty : contents f.rx_queue ≡ []) (listens : get_elem? node.sockets s ≡ some socket)
    (queue : socket.rx_queue ≡ some q) (v : IsValid q) (room : q.count < q.len) where
  abbrev attached : Conn
  attached = record f { dest_socket = some s; opts = opts }

  abbrev with_packet : Conn
  with_packet = record attached { rx_queue = (enqueue f.rx_queue (some i)).0 }

  abbrev at_socket : Socket
  at_socket = record socket { rx_queue = some (enqueue q (some c)).0 }

  abbrev node_attached : Node
  node_attached = put_conn (some c) attached node

  abbrev node_stored : Node
  node_stored = put_conn (some c) with_packet node_attached

  abbrev node_queued : Node
  node_queued = put_socket (some s) at_socket node_stored

  abbrev pub node_made : Node
  node_made = put_conn (some c) (record with_packet { dest_socket = none }) node_queued

  inside : c < length node.conns.arr_conn
  inside = get_elem?-lt node.conns.arr_conn c f there

  inside_attached : c < length node_attached.conns.arr_conn
  inside_attached = omega (arith, inside, length-set node.conns.arr_conn c attached)

  inside_stored : c < length node_stored.conns.arr_conn
  inside_stored =
      omega (arith, inside_attached, length-set node_attached.conns.arr_conn c with_packet)

  conn_room : f.rx_queue.count < f.rx_queue.len
  conn_room = omega (arith, length-contents f.rx_queue valid, ap length empty, valid.tail_in)

  packet_stored :
      Conn.enqueue_packet (some c) (some i) node_attached.conns ≡ (node_stored.conns, Conn.err_none)
  unfolding Conn.enqueue_packet Conn.enqueue_found
  packet_stored =
      rw
        (
          conn_at-put_conn c attached node inside,
          (enqueue_room f.rx_queue (some i) valid conn_room).0,
        )
        refl

  socket_queued : socket_enqueue s (some socket) c node_stored ≡ (node_queued, true)
  unfolding socket_enqueue
  socket_queued = rw (queue, (enqueue_room q (some c) v room).0) refl

  announced_lem : announce c (some with_packet) node_stored ≡ node_made
  unfolding announce announce_to announced
  announced_lem = rw (listens, socket_queued) refl

  stored_lem : to_conn c i node_attached ≡ node_made
  unfolding to_conn enqueued
  stored_lem =
      rw packet_stored
        (rw (conn_at-put_conn c with_packet node_attached inside_attached) announced_lem)

  pub made_lem : made s opts i (some c) node ≡ node_made
  unfolding made attach
  made_lem = rw there stored_lem

  -- The one who waits at the socket gets the oldest connection, which is this one if there is no other.
  pub accepted : (accept (some s) node_made).1 ≡ oldest (contents q) c
  unfolding accept accept_on take_from
  accepted =
      rw (get_elem?-set_self node.sockets s at_socket (get_elem?-lt node.sockets s socket listens))
        (oldest_first (contents q) (enqueue q (some c)).0 c (enqueue-IsValid q (some c) v)
          (enqueue_room q (some c) v room).1)

  -- The accepted connection has the packet.
  pub read_first :
      (after : Node)
      → after.conns ≡ node_made.conns
      → is_open f.state ≡ true
      → (read (some c) after).1 ≡ some i
  unfolding read read_from
  read_first after same state =
      let there : conn_at (some c) after ≡ some (record with_packet { dest_socket = none }) =
        ap (λ (t : Table). get_elem? t.arr_conn c) same
        ∙ conn_at-put_conn c (record with_packet { dest_socket = none }) node_queued
            inside_stored in
      rw (there, state)
        (oldest_first [] (enqueue f.rx_queue (some i)).0 i
          (enqueue-IsValid f.rx_queue (some i) valid)
          ((enqueue_room f.rx_queue (some i) valid conn_room).1 ∙ ap (λ l. l ++ some i ∷ []) empty))

put_socket-conns :
    (s : Option ℕ) (socket : Socket) (node : Node) → (put_socket s socket node).conns ≡ node.conns
put_socket-conns none socket node = refl
put_socket-conns (some s) socket node = refl

-- Accepting leaves the connections.
pub accept_on-conns :
    (s : Option ℕ) (o : Option Socket) (node : Node) → (accept_on s o node).0.conns ≡ node.conns
unfolding accept_on take_from
accept_on-conns s none node = refl
accept_on-conns s (some socket) node = elim (Option-cases socket.rx_queue) [
  | inl e ↦ rw e refl
  | inr (q, e) ↦ rw e (put_socket-conns s _ node)
]
