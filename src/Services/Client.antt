-- ===== src/Services/Client.antt =====
-- csp_services.c: the calls by which an application asks for the services of another node, less
-- csp_ps (Services.Ps) and those that only print. As in Io.Api, `meanwhile` is what the other tasks
-- do while a call waits, csp_get_ms() returns `now`, and `conn_max` and `conn_dfl_so` are of the
-- configuration.
use libcsp_dphi.Base.{
  ℕ, ◌+◌, ◌-◌, ◌%◌, ◌^◌, Bool, true, false, ◌==◌, ltb, if◌then◌else◌, Option, none, some, List, [],
  ◌∷◌, read_at, write_at, be32, of_be, u8, u16, suc, zero,
}
use libcsp_dphi.Packet.{Packet, data_start, buffer_size}
use libcsp_dphi.Buffer
use libcsp_dphi.Conn
use libcsp_dphi.Conn.{opt_crc32}
use libcsp_dphi.Node.{Node, free_packet, packet_at, store_at}
use libcsp_dphi.Io.{Driver}
use libcsp_dphi.Io.Api.{send, read, transaction_w_opts}
use libcsp_dphi.Services.{reboot_magic, shutdown_magic}
use libcsp_dphi.Services.Cmp.{put}

-- csp_error.h: CSP_ERR_NONE and CSP_ERR_TIMEDOUT
pub data Status : Type 0 where
  err_none err_timedout : Status

-- csp_types.h: CSP_PRIO_NORM
abbrev pub prio_norm : ℕ
prio_norm = 2

-- The bytes of a ping: increasing numbers.
unfoldable pub counting : ℕ → ℕ → List ℕ
counting i zero = []
counting i (suc n) = u8 i ∷ counting (i + 1) n

unfoldable pub counts : ℕ → List ℕ → Bool
counts i [] = true
counts i (b ∷ bs) = let rest = counts (i + 1) bs in if b == u8 i then rest else false

-- Whether the data of the reply are those of the ping; its length is not looked at.
unfoldable pub echoed : ℕ → Option Packet → Bool
echoed size none = false
echoed size (some packet) = counts 0 (read_at packet.mem data_start size)

unfoldable pub fill : ℕ → List ℕ → ℕ → Option Packet → Node → Node
fill len bytes i none node = node
fill len bytes i (some packet) node =
    store_at i (record (put 0 bytes packet) { len = u16 len }) node

unfoldable pub hang_up : ℕ → Node → Node
hang_up c node =
    let (conns, pool) = Conn.close (some c) node.conns node.pool in
    record node { conns = conns; pool = pool }

unfoldable pub ping_reply : ℕ → Node × Option ℕ → Node × Option ℕ × Bool
ping_reply size (node, none) = (node, none, false)
ping_reply size (node, some i) = (node, some i, echoed size (packet_at i node))

-- The end of csp_ping: the time that went by, or `none` for -1.
unfoldable pub ping_end : ℕ → ℕ → ℕ → Node × Option ℕ × Bool → Node × Option ℕ
ping_end now later c (node, packet, status) =
    let closed = hang_up c (free_packet packet node) in
    if status then (closed, some ((later + 2 ^ 32 - now) % 2 ^ 32)) else (closed, none)

-- The value of a service that replies with a number.
unfoldable pub number_in : Node × ℕ × List ℕ → Node × Status × ℕ
number_in (node, status, reply) =
    if status == 4 then (node, err_none, of_be reply) else (node, err_timedout, 0)

unfoldable pub message_in : List ℕ → Node × ℕ × List ℕ → Node × Status × List ℕ
message_in msg (node, status, reply) =
    (node, (if status == 0 then err_timedout else err_none), write_at msg 0 reply)

module _ (nexthop : Driver) (meanwhile : Node → Node) (conn_max conn_dfl_so now : ℕ) where
  abbrev pub dial : ℕ → ℕ → ℕ → Node → Node × Option ℕ
  dial dest port opts node =
      let (conns, pool, c) =
        Conn.connect conn_max conn_dfl_so now prio_norm dest port opts node.conns node.pool in
      (record node { conns = conns; pool = pool }, c)

  unfoldable pub ping_with : ℕ → ℕ → Node × Option ℕ → Node × Option ℕ × Bool
  ping_with size c (node, none) = (node, none, false)
  ping_with size c (node, some i) =
      let asked =
        send nexthop (some c) (some i) (fill size (counting 0 size) i (packet_at i node) node) in
      ping_reply size (read (some c) (meanwhile asked))

  unfoldable pub ping_on : ℕ → ℕ → Node × Option ℕ → Node × Option ℕ
  ping_on later size (node, none) = (node, none)
  ping_on later size (node, some c) =
      let (pool, packet) = Buffer.get 0 node.pool in
      ping_end now later c (ping_with size c (record node { pool = pool }, packet))

  -- csp_ping; csp_get_ms() returns `later` at the end.
  unfoldable pub ping : ℕ → ℕ → ℕ → ℕ → Node → Node × Option ℕ
  ping later dest size opts node =
      if ltb buffer_size size then (node, none) else ping_on later size (dial dest 1 opts node)

  unfoldable pub noreply_on : ℕ → Node × Option ℕ → Node
  noreply_on i (node, none) = free_packet (some i) node
  noreply_on i (node, some c) =
      hang_up c (send nexthop (some c) (some i) (fill 1 (0x55 ∷ []) i (packet_at i node) node))

  unfoldable pub noreply_with : ℕ → Node × Option ℕ → Node
  noreply_with dest (node, none) = node
  noreply_with dest (node, some i) = noreply_on i (dial dest 1 opt_crc32 node)

  -- csp_ping_noreply
  unfoldable pub ping_noreply : ℕ → Node → Node
  ping_noreply dest node =
      let (pool, packet) = Buffer.get 0 node.pool in
      noreply_with dest (record node { pool = pool }, packet)

  abbrev asked_of : ℕ → ℕ → Option (List ℕ) → ℕ → ℕ → Node → Node × ℕ × List ℕ
  asked_of dest port outbuf outlen inlen node =
      transaction_w_opts nexthop meanwhile conn_max conn_dfl_so now prio_norm dest port outbuf
        outlen (some inlen) opt_crc32 node

  -- csp_reboot
  unfoldable pub reboot : ℕ → Node → Node
  reboot dest node = (asked_of dest 4 (some (be32 reboot_magic)) 4 0 node).0

  -- csp_shutdown
  unfoldable pub shutdown : ℕ → Node → Node
  shutdown dest node = (asked_of dest 4 (some (be32 shutdown_magic)) 4 0 node).0

  -- csp_get_memfree
  unfoldable pub get_memfree : ℕ → Node → Node × Status × ℕ
  get_memfree dest node = number_in (asked_of dest 3 none 0 4 node)

  -- csp_get_buf_free
  unfoldable pub get_buf_free : ℕ → Node → Node × Status × ℕ
  get_buf_free dest node = number_in (asked_of dest 5 none 0 4 node)

  -- csp_get_uptime
  unfoldable pub get_uptime : ℕ → Node → Node × Status × ℕ
  get_uptime dest node = number_in (asked_of dest 6 none 0 4 node)

  -- csp_cmp: the message is the request first, and then the reply.
  unfoldable pub cmp : ℕ → ℕ → ℕ → List ℕ → Node → Node × Status × List ℕ
  cmp dest code msg_size msg node =
      let request = write_at msg 0 (0 ∷ u8 code ∷ []) in
      message_in request (asked_of dest 0 (some request) msg_size msg_size node)
