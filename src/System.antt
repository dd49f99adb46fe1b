-- ===== src/System.antt =====
-- A node as its tasks, drivers and interrupts use it, once csp_init has run: calls that the other files
-- of src/ offer, in any order. Each call is one step; what a driver does with a packet, and what is
-- written to one, is the choice of the environment. Ports are bound, routes set and interfaces added
-- outside, and csp_buffer_refc_inc is called on packets that are in use.
pub mod Balance
mod Tests
use libcsp_dphi.Base.{ℕ, ◌+◌, ◌^◌, ◌<◌, ◌≡◌, Option, none, some, get_elem?}
use libcsp_dphi.Packet.{Packet}
use libcsp_dphi.Bridge
use libcsp_dphi.Buffer
use libcsp_dphi.Port
use libcsp_dphi.Conn
use libcsp_dphi.Qfifo
use libcsp_dphi.Node.{Node, Socket, free_packet, store_at}
use libcsp_dphi.Io.{Driver}
use libcsp_dphi.Io.Api
use libcsp_dphi.Io.Api.{socket_at, put_socket}
use libcsp_dphi.Route.{Callbacks, route_work}

-- csp_buffer_get and its kin by their reserve, csp_buffer_clone and csp_buffer_free, a change of a
-- packet by the one who has it, csp_qfifo_write by a driver, csp_route_work, csp_bridge_work, and the
-- calls of applications.
pub data Call : Type 0 where
  gets : ℕ → Call
  clones : Option ℕ → Call
  frees : Option ℕ → Call
  stores : ℕ → Packet → Call
  receives : Option ℕ → Option ℕ → Call
  wakes : Call
  routes : Driver → ℕ → ℕ → Call
  sends : Driver → Option ℕ → Option ℕ → Call
  sends_prio : Driver → ℕ → ℕ → Option ℕ → Call
  sends_to : Driver → ℕ → ℕ → ℕ → ℕ → ℕ → ℕ → Call
  replies : Driver → ℕ → ℕ → ℕ → Call
  reads : Option ℕ → Call
  accepts : Option ℕ → Call
  receives_from : Option ℕ → Call
  connects : ℕ → ℕ → ℕ → ℕ → ℕ → ℕ → ℕ → Call
  closes : Option ℕ → Call
  closes_socket : Option ℕ → Call
  bridges : Driver → ℕ → Bridge.Bridge → Call

-- csp_socket_close on a socket of the node
unfoldable pub socket_closed : Option ℕ → Option Socket → Node → Node
socket_closed s none node = node
socket_closed s (some socket) node =
    let (ports, queue, pool) = Port.socket_close s node.ports socket.rx_queue node.pool in
    put_socket s (record socket { rx_queue = queue }) (record node { ports = ports; pool = pool })

-- `run` stands for the callbacks that are bound to ports.
module _ (run : Callbacks) where
  unfoldable pub perform : Call → Node → Node
  perform (gets reserve) node = record node { pool = (Buffer.get_actual reserve node.pool).0 }
  perform (clones packet) node = record node { pool = (Buffer.clone packet node.pool).0 }
  perform (frees packet) node = free_packet packet node
  perform (stores i packet) node = store_at i packet node
  perform (receives packet iface) node = Qfifo.write packet iface node
  perform wakes node = Qfifo.wake_up node
  perform (routes nexthop conn_max now) node = (route_work nexthop run conn_max now node).0
  perform (sends nexthop c packet) node = Api.send nexthop c packet node
  perform (sends_prio nexthop prio c packet) node = Api.send_prio nexthop prio c packet node
  perform (sends_to nexthop prio dest dport src_port opts packet) node =
      Api.sendto nexthop prio dest dport src_port opts packet node
  perform (replies nexthop request reply opts) node =
      Api.sendto_reply nexthop request reply opts node
  perform (reads c) node = (Api.read c node).0
  perform (accepts s) node = (Api.accept s node).0
  perform (receives_from s) node = (Api.recvfrom s node).0
  perform (connects conn_max conn_dfl_so now prio dest dport opts) node =
      let (conns, pool, c) =
        Conn.connect conn_max conn_dfl_so now prio dest dport opts node.conns node.pool in
      record node { conns = conns; pool = pool }
  perform (closes c) node =
      let (conns, pool) = Conn.close c node.conns node.pool in
      record node { conns = conns; pool = pool }
  perform (closes_socket s) node = socket_closed s (socket_at s node) node
  perform (bridges nexthop now bridge) node = Bridge.work nexthop now bridge node

  -- The nodes that any sequence of calls leads to.
  pub data Reach (start : Node) : Node → Type 0 where
    here : Reach start start
    next : {node : Node} (call : Call) → Reach start node → Reach start (perform call node)
    counted :
        {node : Node} (i : ℕ) (b : Buffer.Buffer)
        → Reach start node
        → get_elem? node.pool.buffers i ≡ some b
        → 0 < b.refcount
        → b.refcount + 1 < 2 ^ 32
        → Reach start (record node { pool = Buffer.refc_inc (some i) node.pool })
