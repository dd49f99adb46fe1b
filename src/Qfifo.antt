-- ===== src/Qfifo.antt =====
-- csp_qfifo.c: the queue through which interfaces hand packets to the router. The functions for
-- interrupts do the same on this port of the queue.
use libcsp_dphi.Base.{Option, none, some, ℕ, List, if◌then◌else◌, true}
use libcsp_dphi.Queue.{create_static, enqueue, dequeue}
use libcsp_dphi.Buffer.{invalid_pointer}
use libcsp_dphi.Node.{Node, Input, count, tx_failed, overflowed, fail_with, free_packet}

-- autoconfig.h: CSP_QFIFO_LEN
abbrev pub qfifo_len : ℕ
qfifo_len = 16

-- csp_qfifo_init; a queue that cannot be made is NULL, and never is with these arguments.
unfoldable pub init : List Input → Node → Option Node
init storage node = elim (create_static qfifo_len 16 (some storage) true) [
  | none ↦ none
  | some q ↦ some (record node { qfifo = q })
]

-- csp_qfifo_read; `none` is CSP_ERR_TIMEDOUT.
unfoldable pub read : Node → Node × Option Input
read node = let (q, input) = dequeue node.qfifo in (record node { qfifo = q }, input)

unfoldable pub write_to : ℕ → ℕ → Node → Node
write_to packet iface node =
    let (q, done) = enqueue node.qfifo (record { iface = some iface; packet = some packet }) in
    if done
    then record node { qfifo = q }
    else free_packet (some packet) (count iface tx_failed (overflowed node))

-- csp_qfifo_write; the callback at its end does nothing.
unfoldable pub write : Option ℕ → Option ℕ → Node → Node
write none iface node = fail_with invalid_pointer node
write (some packet) none node = free_packet (some packet) (fail_with invalid_pointer node)
write (some packet) (some iface) node = write_to packet iface node

-- csp_qfifo_wake_up
unfoldable pub wake_up : Node → Node
wake_up node = record node {
  qfifo = (enqueue node.qfifo (record { iface = none; packet = none })).0;
}
