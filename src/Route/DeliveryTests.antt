-- ===== src/Route/DeliveryTests.antt =====
-- csp_route_work: concrete cases of the theorems on delivery.
use libcsp_dphi.Base.{ℕ, some, none, Option, [], ◌∷◌, set, replicate}
use libcsp_dphi.Packet.{Packet}
use libcsp_dphi.Queue.{Queue}
use libcsp_dphi.Port.{port_closed, port_open}
use libcsp_dphi.Conn.{Conn}
use libcsp_dphi.Node.{Node, Socket, free_packet}
use libcsp_dphi.Route.{Callbacks}
use libcsp_dphi.Samples

abbrev drops : Callbacks
drops callback i node = free_packet (some i) node

abbrev queue : Queue (Option ℕ)
queue = record { slots = none ∷ none ∷ []; len = 2; head = 0; tail = 0; count = 0 }

abbrev socket : ℕ → Socket
socket opts = record { rx_queue = some queue; opts = opts }

-- Port 7 belongs to the only socket.
abbrev node : ℕ → Node
node opts = record (Samples.node) {
  ports = set (replicate 34 port_closed) 7 (port_open 0);
  sockets = socket opts ∷ [];
}

-- A reply for the client connection of the samples, behind a packet that waits there.
abbrev reply : Packet
reply = record (Samples.packet) { id = record (Samples.id) { dport = 33; sport = 7 } }
