-- ===== src/Port.antt =====
-- csp_port.c: which socket or callback a port is bound to.
pub mod Lookup
mod Tests
use libcsp_dphi.Base.{
  ℕ, ◌+◌, Bool, true, false, ◌==◌, ltb, if◌then◌else◌, Option, none, some, List, [], ◌∷◌, get_elem?,
  get_or, set, replicate,
}
use libcsp_dphi.Queue.{Queue, create_static}
use libcsp_dphi.Buffer.{Pool}
use libcsp_dphi.Buffer.Drain.{drain}

-- autoconfig.h: CSP_PORT_MAX_BIND
abbrev pub port_max_bind : ℕ
port_max_bind = 32

-- csp_types.h: CSP_ANY
abbrev pub csp_any : ℕ
csp_any = 255

-- csp_port_t, its state and its union in one. A socket or a callback is its address.
pub data Port : Type 0 where
  port_closed : Port
  port_open : ℕ → Port
  port_open_cb : ℕ → Port

-- csp_error.h: what the functions of this file return.
pub data Status : Type 0 where
  err_none err_inval err_used err_already : Status

-- The array, which .bss clears.
unfoldable pub cleared : List Port
cleared = replicate (port_max_bind + 2) port_closed

abbrev pub at : List Port → ℕ → Port
at ports port = get_or ports port port_closed

abbrev pub socket_of : Port → Option ℕ
socket_of (port_open s) = some s
socket_of (port_open_cb c) = none
socket_of port_closed = none

abbrev pub callback_of : Port → Option ℕ
callback_of (port_open s) = none
callback_of (port_open_cb c) = some c
callback_of port_closed = none

-- Whether the port has its own binding; a closed one falls back on CSP_ANY.
abbrev pub lookup : (Port → Option ℕ) → Port → Port → Option ℕ
lookup pick port_closed any = pick any
lookup pick (port_open s) any = pick (port_open s)
lookup pick (port_open_cb c) any = pick (port_open_cb c)

-- csp_port_get_callback
unfoldable pub get_callback : List Port → ℕ → Option ℕ
get_callback ports port =
    if ltb port_max_bind port
    then none
    else lookup callback_of (at ports port) (at ports (port_max_bind + 1))

-- csp_port_get_socket
unfoldable pub get_socket : List Port → ℕ → Option ℕ
get_socket ports port =
    if ltb port_max_bind port
    then none
    else lookup socket_of (at ports port) (at ports (port_max_bind + 1))

abbrev pub is_closed : Port → Bool
is_closed port_closed = true
is_closed (port_open s) = false
is_closed (port_open_cb c) = false

-- The part that csp_bind and csp_bind_callback share: `taken` is returned for a port in use.
unfoldable pub bind_to : Port → Status → ℕ → List Port → List Port × Status
bind_to binding taken port ports =
    if is_closed (at ports port) then (set ports port binding, err_none) else (ports, taken)

unfoldable pub bind_checked : Port → Status → ℕ → List Port → List Port × Status
bind_checked binding taken port ports =
    if port == csp_any
    then bind_to binding taken (port_max_bind + 1) ports
    else if ltb port_max_bind port
    then (ports, err_inval)
    else bind_to binding taken port ports

-- csp_bind
unfoldable pub bind : Option ℕ → ℕ → List Port → List Port × Status
bind none port ports = (ports, err_inval)
bind (some socket) port ports = bind_checked (port_open socket) err_used port ports

-- csp_bind_callback
unfoldable pub bind_callback : Option ℕ → ℕ → List Port → List Port × Status
bind_callback none port ports = (ports, err_inval)
bind_callback (some callback) port ports =
    bind_checked (port_open_cb callback) err_already port ports

abbrev pub holds : ℕ → Port → Bool
holds sock (port_open s) = s == sock
holds sock (port_open_cb c) = false
holds sock port_closed = false

-- The loop of csp_socket_close: the first port that is bound to the socket is closed.
unfoldable pub unbind : ℕ → List Port → List Port
unbind sock [] = []
unbind sock (p ∷ ports) =
    let rest = unbind sock ports in if holds sock p then port_closed ∷ ports else p ∷ rest

-- csp_listen: the socket's queue
unfoldable pub listen : ℕ → List (Option ℕ) → Option (Queue (Option ℕ))
listen rxqueue_len storage = create_static rxqueue_len 4 (some storage) true

unfoldable pub drain_queue : Option (Queue (Option ℕ)) → Pool → Option (Queue (Option ℕ)) × Pool
drain_queue none pool = (none, pool)
drain_queue (some q) pool = let (q', pool') = drain q.count q pool in (some q', pool')

-- csp_socket_close: the ports, and the socket's queue and the pool of buffers.
unfoldable pub socket_close :
    Option ℕ
    → List Port
    → Option (Queue (Option ℕ))
    → Pool
    → List Port × Option (Queue (Option ℕ)) × Pool
socket_close none ports queue pool = (ports, queue, pool)
socket_close (some sock) ports queue pool =
    let (queue', pool') = drain_queue queue pool in (unbind sock ports, queue', pool')
