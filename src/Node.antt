-- ===== src/Node.antt =====
-- The state that the functions of csp_io.c and csp_route.c share: csp_conf, the static variables of
-- the other files, and what drivers were handed. Interfaces, sockets, connections and packets are
-- known by their addresses, an index for the last three.
use libcsp_dphi.Base.{
  ℕ, ◌+◌, Bool, ◌==◌, if◌then◌else◌, Option, none, some, List, [], ◌∷◌, ◌++◌, get_elem?, u8, u32,
}
use libcsp_dphi.Packet.{Packet}
use libcsp_dphi.Iface.{Iface}
use libcsp_dphi.Queue.{Queue}
use libcsp_dphi.Buffer
use libcsp_dphi.Buffer.{Buffer, Pool, Errno}
use libcsp_dphi.Port.{Port}
use libcsp_dphi.Dedup.{Seen}
use libcsp_dphi.Iflist.{first_that}
use libcsp_dphi.Rtable
use libcsp_dphi.Conn

-- csp.h: CSP_DEDUP_OFF to CSP_DEDUP_ALL
pub data DedupMode : Type 0 where
  dedup_off dedup_fwd dedup_incoming dedup_all : DedupMode

-- csp_socket_t; its queue holds packets, or connections.
pub record Socket : Type 0 where
  pub rx_queue : Option (Queue (Option ℕ))
  pub opts : ℕ

-- csp_qfifo_t
pub record Input : Type 0 where
  pub iface : Option ℕ
  pub packet : Option ℕ

-- A packet that the driver of an interface took over.
pub record Sent : Type 0 where
  pub iface : ℕ
  pub via : ℕ
  pub from_me : Bool
  pub index : ℕ
  pub packet : Packet

pub record Node : Type 0 where
  pub version : ℕ
  pub dedup : DedupMode
  pub pool : Pool
  pub interfaces : List Iface
  pub others : List Iface
  pub routes : Rtable.Table
  pub ports : List Port
  pub sockets : List Socket
  pub conns : Conn.Table
  pub qfifo : Queue Input
  pub seen : Seen
  pub sent : List Sent
  pub dbg_inval_reply : ℕ

-- The address of csp_if_lo, which csp_init puts into the list of interfaces.
abbrev pub if_lo : ℕ
if_lo = 0

-- The interfaces that a pointer may lead to: those of the list, and others that a driver has made and
-- that are not in it.
abbrev pub known : Node → List Iface
known node = node.interfaces ++ node.others

-- The interface behind a pointer.
unfoldable pub iface_at : ℕ → Node → Option Iface
iface_at ptr node = first_that (λ i. i.ptr == ptr) (known node)

abbrev pub iface_at? : Option ℕ → Node → Option Iface
iface_at? none node = none
iface_at? (some ptr) node = iface_at ptr node

-- A change of the counters of an interface.
unfoldable pub count_at : ℕ → (Iface → Iface) → List Iface → List Iface
count_at ptr change [] = []
count_at ptr change (i ∷ interfaces) =
    (if i.ptr == ptr then change i else i) ∷ count_at ptr change interfaces

abbrev pub count : ℕ → (Iface → Iface) → Node → Node
count ptr change node = record node {
  interfaces = count_at ptr change node.interfaces;
  others = count_at ptr change node.others;
}

abbrev pub tx_failed : Iface → Iface
tx_failed i = record i { tx_error = u32 (i.tx_error + 1) }

abbrev pub rx_failed : Iface → Iface
rx_failed i = record i { rx_error = u32 (i.rx_error + 1) }

abbrev pub auth_failed : Iface → Iface
auth_failed i = record i { autherr = u32 (i.autherr + 1) }

-- csp_dbg_conn_ovf++
abbrev pub overflowed : Node → Node
overflowed node = record node {
  conns = record (node.conns) { dbg_conn_ovf = u8 (node.conns.dbg_conn_ovf + 1) };
}

abbrev pub fail_with : Errno → Node → Node
fail_with e node = record node { pool = Buffer.set_errno e node.pool }

abbrev pub free_packet : Option ℕ → Node → Node
free_packet packet node = record node { pool = Buffer.free packet node.pool }

-- The packet in a buffer, and a change of it.
abbrev pub packet_of : Option Buffer → Option Packet
packet_of none = none
packet_of (some b) = some b.packet

abbrev pub packet_at : ℕ → Node → Option Packet
packet_at i node = packet_of (get_elem? node.pool.buffers i)

abbrev pub store_found : ℕ → Packet → Option Buffer → Pool → Pool
store_found i packet none pool = pool
store_found i packet (some b) pool = Buffer.set_buffer i (record b { packet = packet }) pool

abbrev pub store_at : ℕ → Packet → Node → Node
store_at i packet node = record node {
  pool = store_found i packet (get_elem? node.pool.buffers i) node.pool;
}
