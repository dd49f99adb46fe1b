-- ===== src/Conn.antt =====
-- csp_conn.c, built without RDP and HMAC: the table of connections. A connection is named by its
-- index, a socket by its address, and NULL is `none`. `conn_max` is CSP_CONN_MAX.
pub mod Getters
pub mod Match
pub mod Allocate
pub mod Balance
mod Tests
use libcsp_dphi.Base.{
  ℕ, zero, suc, ◌+◌, ◌-◌, ◌%◌, ◌^◌, bit_and, bit_or, Bool, true, false, not, ◌&&◌, ◌==◌,
  if◌then◌else◌, Option, none, some, List, [], ◌∷◌, get_elem?, set, map, u8,
}
use libcsp_dphi.Packet.{CspId, id_copy, flag_crc32}
use libcsp_dphi.Queue.{Queue, create_static, enqueue}
use libcsp_dphi.Buffer.{Pool, set_errno, already_closed, unsupported}
use libcsp_dphi.Buffer.Drain.{drain}
use libcsp_dphi.Port.{port_max_bind}

-- csp_conn_state_t
pub data State : Type 0 where
  conn_closed conn_open : State

-- csp_conn_type_t
pub data Kind : Type 0 where
  conn_client conn_server : Kind

-- struct csp_conn_s, less the callback, which nothing uses.
pub record Conn : Type 0 where
  pub kind : Kind
  pub state : State
  pub idin : CspId
  pub idout : CspId
  pub sport_outgoing : ℕ
  pub rx_queue : Queue (Option ℕ)
  pub dest_socket : Option ℕ
  pub timestamp : ℕ
  pub opts : ℕ

-- The pool of connections, the static variable of csp_conn_allocate, and the counters.
pub record Table : Type 0 where
  pub arr_conn : List Conn
  pub last_given : ℕ
  pub dbg_conn_out : ℕ
  pub dbg_conn_ovf : ℕ

abbrev pub is_open : State → Bool
is_open conn_open = true
is_open conn_closed = false

abbrev pub is_client : Kind → Bool
is_client conn_client = true
is_client conn_server = false

pub data Status : Type 0 where
  err_none err_inval err_nomem : Status

unfoldable pub enqueue_found : ℕ → Option Conn → Option ℕ → Table → Table × Status
enqueue_found i none packet table = (table, err_inval)
enqueue_found i (some conn) packet table =
    let (q, done) = enqueue conn.rx_queue packet in
    if done
    then (record table { arr_conn = set table.arr_conn i (record conn { rx_queue = q }) }, err_none)
    else (record table { dbg_conn_ovf = u8 (table.dbg_conn_ovf + 1) }, err_nomem)

-- csp_conn_enqueue_packet
unfoldable pub enqueue_packet : Option ℕ → Option ℕ → Table → Table × Status
enqueue_packet none packet table = (table, err_inval)
enqueue_packet (some i) packet table = enqueue_found i (get_elem? table.arr_conn i) packet table

-- csp_conn_init, from connection `i` on. `rx_queue` is what csp_queue_create_static makes for it.
unfoldable pub init_from : ℕ → Queue (Option ℕ) → List Conn → List Conn
init_from i rx_queue [] = []
init_from i rx_queue (conn ∷ conns) =
    record conn {
      sport_outgoing = u8 (port_max_bind + 1 + i);
      state = conn_closed;
      idin = record (conn.idin) { flags = 0 };
      rx_queue = rx_queue;
    }
    ∷ init_from (i + 1) rx_queue conns

-- The index of the first connection that passes the test.
unfoldable pub first_that : (Conn → Bool) → ℕ → List Conn → Option ℕ
first_that test i [] = none
first_that test i (conn ∷ conns) =
    let rest = first_that test (i + 1) conns in if test conn then some i else rest

-- The tests of csp_conn_find_dport
unfoldable pub serves_dport : ℕ → Conn → Bool
serves_dport dport conn =
    if not (conn.idin.dport == dport)
    then false
    else if not (is_open conn.state)
    then false
    else is_client conn.kind

-- csp_conn_find_dport
unfoldable pub find_dport : ℕ → Table → Option ℕ
find_dport dport table = first_that (serves_dport dport) 0 table.arr_conn

-- The tests of csp_conn_find_existing
unfoldable pub matches : CspId → Conn → Bool
matches id conn =
    if not (is_open conn.state)
    then false
    else if is_client conn.kind
    then conn.idin.dport == id.dport
    else if not (conn.idin.dport == id.dport)
    then false
    else if not (conn.idin.sport == id.sport)
    then false
    else conn.idin.src == id.src

-- csp_conn_find_existing
unfoldable pub find_existing : CspId → Table → Option ℕ
find_existing id table = first_that (matches id) 0 table.arr_conn

-- csp_conn_flush_rx_queue
unfoldable pub flush_rx_queue : Conn → Pool → Conn × Pool
flush_rx_queue conn pool =
    let (q, pool') = drain conn.rx_queue.count conn.rx_queue pool in
    (record conn { rx_queue = q }, pool')

abbrev pub is_free : Option Conn → Bool
is_free none = false
is_free (some conn) = not (is_open conn.state)

-- The loop of csp_conn_allocate: at most `rounds` more indices, behind `i`.
unfoldable pub probe : List Conn → ℕ → ℕ → ℕ → Option ℕ
probe arr_conn conn_max zero i = none
probe arr_conn conn_max (suc rounds) i =
    let j = (i + 1) % conn_max in
    let rest = probe arr_conn conn_max rounds j in
    if is_free (get_elem? arr_conn j) then some j else rest

unfoldable pub claim : Kind → ℕ → Option Conn → Table → Table × Option ℕ
claim kind i none table = (table, none)
claim kind i (some conn) table = (
  record table {
    arr_conn = set table.arr_conn i (record conn {
      state = conn_open;
      timestamp = 0;
      kind = kind;
      idin = record (conn.idin) { flags = 0 };
      idout = record (conn.idout) { flags = 0 };
    });
    last_given = u8 i;
  },
  some i,
)

unfoldable pub claim_probed : Kind → Option ℕ → Table → Table × Option ℕ
claim_probed kind none table = (record table { dbg_conn_out = u8 (table.dbg_conn_out + 1) }, none)
claim_probed kind (some i) table = claim kind i (get_elem? table.arr_conn i) table

-- csp_conn_allocate
unfoldable pub allocate : ℕ → Kind → Table → Table × Option ℕ
allocate conn_max kind table =
    claim_probed kind (probe table.arr_conn conn_max conn_max table.last_given) table

unfoldable pub set_up : CspId → CspId → ℕ → ℕ → Option Conn → Table → Pool → Table × Pool × Option ℕ
set_up idin idout now i none table pool = (table, pool, none)
set_up idin idout now i (some conn) table pool =
    let (flushed, pool') =
      flush_rx_queue
        (record conn {
          idin = id_copy conn.idin idin;
          idout = id_copy conn.idout idout;
          timestamp = now;
        })
        pool in
    (record table { arr_conn = set table.arr_conn i flushed }, pool', some i)

unfoldable pub set_up_allocated :
    CspId → CspId → ℕ → Option ℕ → Table → Pool → Table × Pool × Option ℕ
set_up_allocated idin idout now none table pool = (table, pool, none)
set_up_allocated idin idout now (some i) table pool =
    set_up idin idout now i (get_elem? table.arr_conn i) table pool

-- csp_conn_new, when csp_get_ms() returns `now`.
unfoldable pub new : ℕ → CspId → CspId → Kind → ℕ → Table → Pool → Table × Pool × Option ℕ
new conn_max idin idout kind now table pool =
    let (table', conn) = allocate conn_max kind table in
    set_up_allocated idin idout now conn table' pool

unfoldable pub close_found : ℕ → Option Conn → Table → Pool → Table × Pool
close_found i none table pool = (table, pool)
close_found i (some conn) table pool =
    if not (is_open conn.state)
    then (table, set_errno already_closed pool)
    else let (flushed, pool') = flush_rx_queue conn pool in
      (
        record table { arr_conn = set table.arr_conn i (record flushed { state = conn_closed }) },
        pool',
      )

-- csp_conn_close and csp_close, which always return CSP_ERR_NONE.
unfoldable pub close : Option ℕ → Table → Pool → Table × Pool
close none table pool = (table, pool)
close (some i) table pool = close_found i (get_elem? table.arr_conn i) table pool

abbrev pub opt_rdp : ℕ
opt_rdp = 0x0001

abbrev pub opt_hmac : ℕ
opt_hmac = 0x0004

abbrev pub opt_crc32 : ℕ
opt_crc32 = 0x0040

abbrev pub opt_nocrc32 : ℕ
opt_nocrc32 = 0x0080

-- The options of csp_connect: the default ones are forced on, and CSP_O_NOCRC32 takes off the
-- other.
unfoldable pub connect_opts : ℕ → ℕ → ℕ
connect_opts conn_dfl_so opts =
    let forced = bit_or opts conn_dfl_so in
    if bit_and forced opt_nocrc32 == 0 then forced else bit_and forced (2 ^ 32 - 1 - opt_crc32)

unfoldable pub own_ports : ℕ → ℕ → Option Conn → Table → Table
own_ports opts i none table = table
own_ports opts i (some conn) table = record table {
  arr_conn = set table.arr_conn i (record conn {
    idout = record (conn.idout) { sport = conn.sport_outgoing };
    idin = record (conn.idin) { dport = conn.sport_outgoing };
    dest_socket = none;
    opts = opts;
  });
}

unfoldable pub connected : ℕ → Table × Pool × Option ℕ → Table × Pool × Option ℕ
connected opts (table, pool, none) = (table, pool, none)
connected opts (table, pool, some i) =
    (own_ports opts i (get_elem? table.arr_conn i) table, pool, some i)

-- csp_connect. RDP and HMAC are not in this build.
unfoldable pub connect : ℕ → ℕ → ℕ → ℕ → ℕ → ℕ → ℕ → Table → Pool → Table × Pool × Option ℕ
connect conn_max conn_dfl_so now prio dest dport opts table pool =
    let all_opts = connect_opts conn_dfl_so opts in
    let flags = if bit_and all_opts opt_crc32 == 0 then 0 else flag_crc32 in
    let incoming : CspId = record {
      pri = prio;
      flags = flags;
      src = dest;
      dst = 0;
      dport = 0;
      sport = dport;
    } in
    let outgoing : CspId = record {
      pri = prio;
      flags = flags;
      src = 0;
      dst = dest;
      dport = dport;
      sport = 0;
    } in
    if not (bit_and all_opts opt_rdp == 0)
    then (table, set_errno unsupported pool, none)
    else if not (bit_and all_opts opt_hmac == 0)
    then (table, set_errno unsupported pool, none)
    else connected all_opts (new conn_max incoming outgoing conn_client now table pool)
