-- ===== src/Samples.antt =====
-- Values for the tests: packets, interfaces, queues and buffers.
pub mod Balanced
pub mod Zeroed
use libcsp_dphi.Base.{ℕ, none, some, List, [], ◌∷◌, replicate, write_at}
use libcsp_dphi.Packet.{Packet, CspId, data_start, mem_size}
use libcsp_dphi.Iface.{Iface}
use libcsp_dphi.Queue.{Queue}
use libcsp_dphi.Buffer.{Buffer, Pool}
use libcsp_dphi.Node.{Node, dedup_off}
use libcsp_dphi.Conn.{Conn, Table, conn_client, conn_open, conn_closed}

abbrev pub id : CspId
id = record { pri = 2; flags = 0; src = 3; dst = 5; dport = 7; sport = 33 }

abbrev pub no_id : CspId
no_id = record { pri = 0; flags = 0; src = 0; dst = 0; dport = 0; sport = 0 }

-- Memory as csp_buffer.c clears it.
abbrev pub clear_mem : List ℕ
clear_mem = replicate mem_size 0

abbrev pub empty : Packet
empty = record { frame_begin = data_start; frame_length = 0; len = 0; id = no_id; mem = clear_mem }

-- A packet whose data needs both escapes on a serial line.
abbrev pub packet : Packet
packet = record {
  frame_begin = data_start;
  frame_length = 0;
  len = 3;
  id = id;
  mem = write_at clear_mem data_start (0xC0 ∷ 0xDB ∷ 1 ∷ []);
}

-- A packet with as much data as leaves no room behind its checksum.
abbrev pub full_packet : Packet
full_packet = record {
  frame_begin = data_start;
  frame_length = 0;
  len = 252;
  id = id;
  mem = clear_mem;
}

-- A frame of version 2 as a driver leaves it.
abbrev pub received : Packet
received = record { frame_begin = 2; frame_length = 9; len = 0; id = no_id; mem = clear_mem }

abbrev pub iface : ℕ → Iface
iface ptr = record {
  ptr = ptr;
  addr = 8;
  netmask = 4;
  name = some (ptr ∷ 0 ∷ []);
  is_default = 1;
  tx = 0;
  rx = 0;
  tx_error = 0;
  rx_error = 0;
  drop = 0;
  autherr = 0;
  frame = 0;
  txbytes = 0;
  rxbytes = 0;
  irq = 0;
}

-- A queue that goes round its end: 5 is older than 6.
abbrev pub queue : Queue ℕ
queue = record { slots = 6 ∷ 0 ∷ 5 ∷ []; len = 3; head = 1; tail = 2; count = 2 }

abbrev pub buffer : ℕ → ℕ → Buffer
buffer addr refcount = record { refcount = refcount; skbf_addr = addr; base = addr; packet = empty }

-- Two buffers are in use and one is free.
abbrev pub pool : Pool
pool = record {
  buffers = buffer 0 1 ∷ buffer 1 2 ∷ buffer 2 0 ∷ [];
  csp_buffers = record { slots = 0 ∷ 1 ∷ 2 ∷ []; len = 3; head = 0; tail = 2; count = 1 };
  dbg_buffer_out = 0;
  dbg_errno = none;
}

abbrev pub conn : Conn
conn = record {
  kind = conn_client;
  state = conn_open;
  idin = record { pri = 2; flags = 0; src = 5; dst = 3; dport = 33; sport = 7 };
  idout = id;
  sport_outgoing = 33;
  rx_queue = record { slots = some 0 ∷ none ∷ []; len = 2; head = 1; tail = 0; count = 1 };
  dest_socket = none;
  timestamp = 0;
  opts = 0;
}

abbrev pub table : Table
table = record {
  arr_conn = conn ∷ record conn { state = conn_closed } ∷ [];
  last_given = 0;
  dbg_conn_out = 0;
  dbg_conn_ovf = 0;
}

-- Two buffers are in use and four are free.
abbrev pub wide_pool : Pool
wide_pool = record {
  buffers =
      record (buffer 0 1) { packet = packet }
      ∷ buffer 1 1
      ∷ buffer 2 0
      ∷ buffer 3 0
      ∷ buffer 4 0
      ∷ buffer 5 0
      ∷ [];
  csp_buffers = record {
    slots = 5 ∷ 2 ∷ 3 ∷ 4 ∷ 0 ∷ 0 ∷ [];
    len = 6;
    head = 4;
    tail = 0;
    count = 4;
  };
  dbg_buffer_out = 0;
  dbg_errno = none;
}

-- The loopback interface, one with the address 8 and one with 4097. The first packet came in on
-- the last of them and goes to address 5, which is in the subnet of the second.
abbrev pub node : Node
node = record {
  version = 2;
  dedup = dedup_off;
  pool = wide_pool;
  interfaces =
      record (iface 0) { addr = 0; netmask = 14; is_default = 0 }
      ∷ iface 1
      ∷ record (iface 2) { addr = 4097 }
      ∷ [];
  others = [];
  routes = record { rtable = []; inptr = 0 };
  ports = [];
  sockets = [];
  conns = table;
  qfifo = record {
    slots = record { iface = some 2; packet = some 0 } ∷ [];
    len = 1;
    head = 0;
    tail = 0;
    count = 1;
  };
  seen = record { array = []; timestamp = []; dedup_in = 0 };
  sent = [];
  dbg_inval_reply = 0;
}
