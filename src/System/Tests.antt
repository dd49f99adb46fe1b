-- ===== src/System/Tests.antt =====
-- A concrete case of the theorem on the calls of a node.
use libcsp_dphi.Base.{true, some, none, replicate}
use libcsp_dphi.Buffer
use libcsp_dphi.Buffer.{Pool, init_from}
use libcsp_dphi.Conn
use libcsp_dphi.Iflist.{add}
use libcsp_dphi.Qfifo
use libcsp_dphi.Node.{Node, free_packet, dedup_all}
use libcsp_dphi.Io.{Driver}
use libcsp_dphi.Route.{Callbacks}
use libcsp_dphi.Samples
use libcsp_dphi.Samples.Zeroed.{memory}
use libcsp_dphi.System.{perform, gets, stores, receives, routes}

abbrev ready : Driver
ready = λ iface via packet from_me. true

abbrev drops : Callbacks
drops callback i node = free_packet (some i) node

-- The node of the samples after csp_init.
abbrev started : Node
started = record (Samples.node) {
  version = 2;
  dedup = dedup_all;
  pool = init_from 8 0 (record {
    buffers = replicate 8 (Samples.buffer 0 0);
    csp_buffers = record { slots = replicate 8 0; len = 8; head = 0; tail = 0; count = 0 };
    dbg_buffer_out = 0;
    dbg_errno = none;
  });
  conns = record (Samples.table) {
    arr_conn =
        Conn.init_from 0
          (record { slots = replicate 4 none; len = 4; head = 0; tail = 0; count = 0 })
          Samples.table.arr_conn;
  };
  qfifo = record { slots = memory.inputs; len = 16; head = 0; tail = 0; count = 0 };
  interfaces = add (record (Samples.iface 0) { netmask = 14 }) Samples.node.interfaces;
}

-- A driver receives a packet, and the router takes it.
abbrev routed : Node
routed = perform drops (routes ready 2 1000) (
    perform drops (receives (some 0) (some 1))
      (perform drops (stores 0 Samples.packet) (perform drops (gets 2) started)))
