-- ===== src/Init.antt =====
-- csp_init.c: how a node starts. What lies in the static memory of the other files is an argument.
mod Tests
pub mod Ready
use libcsp_dphi.Base.{ℕ, ◌==◌, ◌||◌, ltb, true, if◌then◌else◌, Option, none, some, List}
use libcsp_dphi.Iface.{Iface}
use libcsp_dphi.Id.{get_host_bits}
use libcsp_dphi.Queue.{Queue, create_static}
use libcsp_dphi.Buffer
use libcsp_dphi.Buffer.{Buffer}
use libcsp_dphi.Iflist.{add}
use libcsp_dphi.Conn
use libcsp_dphi.Promisc.{rxqueue_len}
use libcsp_dphi.Qfifo
use libcsp_dphi.Node.{Node, Input, DedupMode, dedup_off, dedup_fwd, dedup_incoming, dedup_all}

-- autoconfig.h: CSP_BUFFER_COUNT
abbrev pub buffer_count : ℕ
buffer_count = 8

-- The arrays behind the buffers and the queues.
pub record Memory : Type 0 where
  pub buffers : List Buffer
  pub free_buffers : List ℕ
  pub rx_queue : List (Option ℕ)
  pub inputs : List Input

unfoldable pub valid_version : ℕ → ℕ
valid_version version = if version == 0 || ltb 2 version then 2 else version

-- csp_conf.dedup is a byte; a value that is no mode turns deduplication off.
unfoldable pub valid_dedup : ℕ → DedupMode
valid_dedup dedup =
    if dedup == 1
    then dedup_fwd
    else if dedup == 2
    then dedup_incoming
    else if dedup == 3
    then dedup_all
    else dedup_off

abbrev pub and_then : Option Node → (Node → Option Node) → Option Node
and_then none next = none
and_then (some node) next = next node

unfoldable pub init_buffers : Memory → Node → Option Node
init_buffers memory node = elim (Buffer.init buffer_count memory.buffers memory.free_buffers) [
  | none ↦ none
  | some pool ↦ some (record node { pool = pool })
]

-- csp_conn_init
unfoldable pub init_conns : Memory → Node → Option Node
init_conns memory node = elim (create_static rxqueue_len 4 (some memory.rx_queue) true) [
  | none ↦ none
  | some q ↦ some (record node {
    conns = record (node.conns) { arr_conn = Conn.init_from 0 q node.conns.arr_conn };
  })
]

unfoldable pub add_loopback : Iface → Node → Node
add_loopback lo node = record node {
  interfaces = add (record lo { netmask = get_host_bits node.version }) node.interfaces;
}

-- csp_init, with the number in csp_conf.dedup and csp_if_lo. `none` is a queue that could not be made.
unfoldable pub init : ℕ → Iface → Memory → Node → Option Node
init dedup lo memory node =
    and_then
      (init_buffers memory
        (record node { version = valid_version node.version; dedup = valid_dedup dedup }))
      (λ buffered. and_then (init_conns memory buffered) (λ connected.
        and_then (Qfifo.init memory.inputs connected) (λ queued. some (add_loopback lo queued))))
