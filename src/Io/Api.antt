-- ===== src/Io/Api.antt =====
-- csp_io.c: what applications call to send and to receive. The store of a caller's buffer is a list
-- of bytes; NULL is `none`. Timeouts are ignored by this port of the queue: `meanwhile` is what the
-- other tasks do while a call waits.
use libcsp_dphi.Base.{
  ℕ, ◌+◌, Bool, false, not, ◌==◌, ltb, if◌then◌else◌, Option, none, some, List, [], get_elem?, set,
  bit_and, bit_or, write_at, take, u8, u16,
}
use libcsp_dphi.Packet.{Packet, CspId, flag_crc32, payload, data_start, buffer_size}
use libcsp_dphi.Queue.{Queue, dequeue}
use libcsp_dphi.Buffer
use libcsp_dphi.Buffer.{invalid_pointer, unsupported}
use libcsp_dphi.Conn
use libcsp_dphi.Conn.{Conn, is_open, opt_rdp, opt_hmac, opt_crc32}
use libcsp_dphi.Id.{get_max_nodeid}
use libcsp_dphi.Node.{Node, Socket, fail_with, free_packet, packet_at, store_at}
use libcsp_dphi.Io.{Driver}
use libcsp_dphi.Io.Direct.{send_direct}

-- csp_types.h: CSP_SO_CONN_LESS and CSP_O_SAME
abbrev pub so_conn_less : ℕ
so_conn_less = 0x0100

abbrev pub opt_same : ℕ
opt_same = 0x8000

abbrev pub has : ℕ → ℕ → Bool
has opts flag = not (bit_and opts flag == 0)

abbrev pub socket_at : Option ℕ → Node → Option Socket
socket_at none node = none
socket_at (some s) node = get_elem? node.sockets s

abbrev pub conn_at : Option ℕ → Node → Option Conn
conn_at none node = none
conn_at (some c) node = get_elem? node.conns.arr_conn c

abbrev pub put_socket : Option ℕ → Socket → Node → Node
put_socket none socket node = node
put_socket (some s) socket node = record node { sockets = set node.sockets s socket }

abbrev pub put_conn : Option ℕ → Conn → Node → Node
put_conn none conn node = node
put_conn (some c) conn node = record node {
  conns = record (node.conns) { arr_conn = set node.conns.arr_conn c conn };
}

-- An item of a queue of pointers; a queue that is empty gives NULL.
abbrev pub item : Option (Option ℕ) → Option ℕ
item none = none
item (some p) = p

unfoldable pub take_from : Option ℕ → Socket → Option (Queue (Option ℕ)) → Node → Node × Option ℕ
take_from s socket none node = (node, none)
take_from s socket (some q) node =
    let (q', p) = dequeue q in (put_socket s (record socket { rx_queue = some q' }) node, item p)

unfoldable pub accept_on : Option ℕ → Option Socket → Node → Node × Option ℕ
accept_on s none node = (fail_with invalid_pointer node, none)
accept_on s (some socket) node = elim socket.rx_queue [
  | none ↦ (fail_with invalid_pointer node, none)
  | some q ↦ take_from s socket (some q) node
]

-- csp_accept
unfoldable pub accept : Option ℕ → Node → Node × Option ℕ
accept s node = accept_on s (socket_at s node) node

unfoldable pub read_from : Option ℕ → Option Conn → Node → Node × Option ℕ
read_from c none node = (node, none)
read_from c (some conn) node =
    let (q, p) = dequeue conn.rx_queue in
    if not (is_open conn.state)
    then (node, none)
    else (put_conn c (record conn { rx_queue = q }) node, item p)

-- csp_read
unfoldable pub read : Option ℕ → Node → Node × Option ℕ
read c node = read_from c (conn_at c node) node

unfoldable pub recv_on : Option ℕ → Option Socket → Node → Node × Option ℕ
recv_on s none node = (node, none)
recv_on s (some socket) node =
    if has socket.opts so_conn_less then take_from s socket socket.rx_queue node else (node, none)

-- csp_recvfrom
unfoldable pub recvfrom : Option ℕ → Node → Node × Option ℕ
recvfrom s node = recv_on s (socket_at s node) node

-- The connection keeps what csp_send_direct writes to its identifier.
unfoldable pub send_on : Driver → Option ℕ → Conn → ℕ → Node → Node
send_on nexthop c conn packet node =
    let (idout, node') = send_direct nexthop conn.idout packet none node in
    put_conn c (record conn { idout = idout }) node'

unfoldable pub send_open : Driver → Option ℕ → Option Conn → ℕ → Node → Node
send_open nexthop c none packet node = free_packet (some packet) node
send_open nexthop c (some conn) packet node =
    if is_open conn.state
    then send_on nexthop c conn packet node
    else free_packet (some packet) node

-- csp_send
unfoldable pub send : Driver → Option ℕ → Option ℕ → Node → Node
send nexthop c none node = node
send nexthop c (some packet) node = send_open nexthop c (conn_at c node) packet node

unfoldable pub set_pri : ℕ → Option ℕ → Option Conn → Node → Node
set_pri prio c none node = node
set_pri prio c (some conn) node =
    put_conn c (record conn { idout = record (conn.idout) { pri = prio } }) node

-- csp_send_prio, on a connection that is not NULL.
unfoldable pub send_prio : Driver → ℕ → ℕ → Option ℕ → Node → Node
send_prio nexthop prio c packet node =
    send nexthop (some c) packet (set_pri prio (some c) (conn_at (some c) node) node)

-- The identifier of csp_sendto.
unfoldable pub sendto_id : ℕ → ℕ → ℕ → ℕ → ℕ → CspId → CspId
sendto_id prio dest dport src_port opts id =
    let kept = if has opts opt_same then id.flags else 0 in
    record id {
      flags = if has opts opt_crc32 then bit_or kept flag_crc32 else kept;
      dst = dest;
      dport = dport;
      sport = src_port;
      pri = prio;
    }

unfoldable pub sendto_packet : Driver → ℕ → ℕ → ℕ → ℕ → ℕ → ℕ → Option Packet → Node → Node
sendto_packet nexthop prio dest dport src_port opts i none node = node
sendto_packet nexthop prio dest dport src_port opts i (some packet) node =
    let id = sendto_id prio dest dport src_port opts packet.id in
    if has opts opt_rdp
    then free_packet (some i) (fail_with unsupported node)
    else if has opts opt_hmac
    then free_packet (some i) (fail_with unsupported node)
    else (send_direct nexthop id i none (store_at i (record packet { id = id }) node)).1

-- csp_sendto
unfoldable pub sendto : Driver → ℕ → ℕ → ℕ → ℕ → ℕ → ℕ → Node → Node
sendto nexthop prio dest dport src_port opts packet node =
    sendto_packet nexthop prio dest dport src_port opts packet (packet_at packet node) node

-- What csp_sendto_reply writes to the reply, which may be the request itself.
unfoldable pub reply_id : ℕ → ℕ → CspId → CspId → CspId
reply_id version opts request reply = record reply {
  flags = if has opts opt_same then request.flags else reply.flags;
  src = if request.dst == get_max_nodeid version then 0 else request.dst;
}

unfoldable pub reply_with : Driver → Option Packet → ℕ → Option Packet → ℕ → Node → Node
reply_with nexthop none i reply opts node = node
reply_with nexthop (some request) i none opts node = node
reply_with nexthop (some request) i (some reply) opts node =
    sendto nexthop request.id.pri request.id.src request.id.sport request.id.dport opts i
      (store_at i (record reply { id = reply_id node.version opts request.id reply.id }) node)

-- csp_sendto_reply, on a request that is not NULL.
unfoldable pub sendto_reply : Driver → ℕ → ℕ → ℕ → Node → Node
sendto_reply nexthop request reply opts node =
    reply_with nexthop (packet_at request node) reply (packet_at reply node) opts node

-- The reply of a transaction: its length, and the bytes copied to the caller. A length of `none` is
-- the -1 of a caller that takes any.
unfoldable pub take_reply : Option ℕ → ℕ → Option Packet → Node → Node × ℕ × List ℕ
take_reply inlen i none node = (node, 0, [])
take_reply none i (some packet) node = (free_packet (some i) node, packet.len, payload packet)
take_reply (some inlen) i (some packet) node =
    if packet.len == inlen then (free_packet (some i) node, packet.len, payload packet) else (
      free_packet (some i) (record node { dbg_inval_reply = u8 (node.dbg_inval_reply + 1) }),
      0,
      [],
    )

unfoldable pub reply_of : Option ℕ → Node × Option ℕ → Node × ℕ × List ℕ
reply_of inlen (node, none) = (node, 0, [])
reply_of inlen (node, some i) = take_reply inlen i (packet_at i node) node

abbrev pub wants_none : Option ℕ → Bool
wants_none none = false
wants_none (some inlen) = inlen == 0

-- The request in the buffer that was got.
unfoldable pub put_request : ℕ → Option (List ℕ) → ℕ → Option Packet → Node → Node
put_request i outbuf outlen none node = node
put_request i none outlen (some packet) node = store_at i (record packet { len = u16 outlen }) node
put_request i (some outbuf) outlen (some packet) node =
    store_at i
      (record packet {
        len = u16 outlen;
        mem = write_at packet.mem data_start (take outlen outbuf);
      })
      node

unfoldable pub transact :
    Driver
    → (Node → Node)
    → Option ℕ
    → Option (List ℕ)
    → ℕ
    → Option ℕ
    → Node × Option ℕ
    → Node × ℕ × List ℕ
transact nexthop meanwhile c outbuf outlen inlen (node, none) = (node, 0, [])
transact nexthop meanwhile c outbuf outlen inlen (node, some i) =
    let asked = send nexthop c (some i) (put_request i outbuf outlen (packet_at i node) node) in
    if wants_none inlen then (asked, 1, []) else reply_of inlen (read c (meanwhile asked))

-- csp_transaction_persistent
unfoldable pub transaction_persistent :
    Driver → (Node → Node) → Option ℕ → Option (List ℕ) → ℕ → Option ℕ → Node → Node × ℕ × List ℕ
transaction_persistent nexthop meanwhile c outbuf outlen inlen node =
    let (pool, packet) = Buffer.get 0 node.pool in
    if ltb buffer_size outlen
    then (node, 0, [])
    else transact nexthop meanwhile c outbuf outlen inlen (record node { pool = pool }, packet)

unfoldable pub closing : Option ℕ → Node × ℕ × List ℕ → Node × ℕ × List ℕ
closing c (node, status, reply) =
    let (conns, pool) = Conn.close c node.conns node.pool in
    (record node { conns = conns; pool = pool }, status, reply)

unfoldable pub transact_on :
    Driver → (Node → Node) → Option (List ℕ) → ℕ → Option ℕ → Node → Option ℕ → Node × ℕ × List ℕ
transact_on nexthop meanwhile outbuf outlen inlen node none = (node, 0, [])
transact_on nexthop meanwhile outbuf outlen inlen node (some c) =
    closing (some c) (transaction_persistent nexthop meanwhile (some c) outbuf outlen inlen node)

-- csp_transaction_w_opts; `conn_max` and `conn_dfl_so` are CSP_CONN_MAX and the default options,
-- and csp_get_ms() returns `now`.
unfoldable pub transaction_w_opts :
    Driver
    → (Node → Node)
    → ℕ
    → ℕ
    → ℕ
    → ℕ
    → ℕ
    → ℕ
    → Option (List ℕ)
    → ℕ
    → Option ℕ
    → ℕ
    → Node
    → Node × ℕ × List ℕ
transaction_w_opts nexthop meanwhile conn_max conn_dfl_so now prio dest port outbuf outlen inlen
      opts node =
    let (conns, pool, c) =
      Conn.connect conn_max conn_dfl_so now prio dest port opts node.conns node.pool in
    transact_on nexthop meanwhile outbuf outlen inlen (record node { conns = conns; pool = pool }) c
