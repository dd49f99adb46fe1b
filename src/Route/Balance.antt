-- ===== src/Route/Balance.antt =====
-- csp_route_work: whatever comes in, the pool of buffers stays balanced.
use libcsp_dphi.Base.{
  ℕ, ◌+◌, ◌≢◌, refl, arith, Bool, true, false, Bool-cases, Option-cases, inl, inr, Option, none,
  some, get_elem?,
}
use libcsp_dphi.Packet.{Packet, CspId, flag_hmac, flag_rdp, flag_crc32}
use libcsp_dphi.Buffer.{free, clone, unsupported}
use libcsp_dphi.Buffer.Balance.{clone-IsBalanced}
use libcsp_dphi.Buffer.Invariant.{IsBalanced, free-IsBalanced, IsBalanced-record}
use libcsp_dphi.Conn
use libcsp_dphi.Conn.{Conn, conn_server, opt_crc32}
use libcsp_dphi.Conn.Balance.{close-IsBalanced, new-IsBalanced}
use libcsp_dphi.Iface.{Iface}
use libcsp_dphi.Crc32
use libcsp_dphi.Iflist.{get_by_subnet}
use libcsp_dphi.Node.{
  Node, Socket, if_lo, iface_at, store_at, fail_with, overflowed, rx_failed, auth_failed,
}
use libcsp_dphi.Io.{Driver, send_direct_iface, no_via}
use libcsp_dphi.Io.Direct.{send_cloned, send_copy, send_direct, is_loopback, is_none}
use libcsp_dphi.Io.Loops.{send_locally_inv}
use libcsp_dphi.Io.References.{refs}
use libcsp_dphi.Io.Takes.{store-Holds, send_direct_iface-Holds}
use libcsp_dphi.Io.Api.{conn_at, socket_at, has}
use libcsp_dphi.Route.{
  check_options, verified, security_check, pass, socket_enqueue, kept_or_freed, deliver, announced,
  announce_to, announce, enqueued, to_conn, attach, made, begin, reply_ids, count?,
}

next : (i : ℕ) → i ≢ i + 1
next i e = omega arith

pub store-IsBalanced :
    (i : ℕ) (packet : Packet) (node : Node)
    → IsBalanced node.pool
    → IsBalanced (store_at i packet node).pool
store-IsBalanced i packet node v =
    (store-Holds i (i + 1) (refs node.pool (i + 1)) packet (get_elem? node.pool.buffers i) node.pool
      refl (next i) (v, refl)).0

pub iface-IsBalanced :
    (nexthop : Driver) (id : CspId) (i iface via : ℕ) (from_me : Bool) (node : Node)
    → IsBalanced node.pool
    → IsBalanced (send_direct_iface nexthop id i iface via from_me node).pool
iface-IsBalanced nexthop id i iface via from_me node v =
    (send_direct_iface-Holds nexthop (i + 1) (refs node.pool (i + 1)) id i iface via from_me node
      (next i) (v, refl)).0

copy-IsBalanced :
    (nexthop : Driver) (id : CspId) (packet iface via : ℕ) (from_me : Bool) (node : Node)
    → IsBalanced node.pool
    → IsBalanced (send_copy nexthop id packet iface via from_me node).pool
unfolding send_copy send_cloned
copy-IsBalanced nexthop id packet iface via from_me node v =
    cloned (clone (some packet) node.pool).1
      (record node { pool = (clone (some packet) node.pool).0 })
      (clone-IsBalanced (some packet) node.pool v)
  where
    cloned :
        (copy : Option ℕ) (m : Node)
        → IsBalanced m.pool
        → IsBalanced (send_cloned nexthop id copy iface via from_me m).pool
    cloned none m h = h
    cloned (some k) m h = iface-IsBalanced nexthop id k iface via from_me m h

pub send_direct-IsBalanced :
    (nexthop : Driver) (idout : CspId) (packet : ℕ) (routed_from : Option ℕ) (node : Node)
    → IsBalanced node.pool
    → IsBalanced (send_direct nexthop idout packet routed_from node).1.pool
unfolding send_direct
send_direct-IsBalanced nexthop idout packet routed_from node v =
    elim (Bool-cases (is_loopback idout (iface_at if_lo node))) [
      | inl lo ↦
          rw lo (iface-IsBalanced nexthop idout packet if_lo no_via (is_none routed_from) node v)
      | inr away ↦ rw away (
          send_locally_inv nexthop packet routed_from (λ m. IsBalanced m.pool)
            (λ id i via m known free h.
              copy-IsBalanced nexthop id packet i.ptr via (is_none routed_from) m h)
            (λ m. IsBalanced m.pool) (λ m h. free-IsBalanced (some packet) m.pool h) idout
            (get_by_subnet node.version idout.dst none node.interfaces) node v)
    ]

-- A step of the router that keeps the pool balanced.
abbrev pub Steady : (Node → Node) → Type 0
Steady step = (node : Node) → IsBalanced node.pool → IsBalanced (step node).pool

pub pass-IsBalanced :
    (step : Node → Node) (i : ℕ) (r : Node × Bool)
    → Steady step
    → IsBalanced r.0.pool
    → IsBalanced (pass step i r).pool
pass-IsBalanced step i (node, true) h v = h node v
pass-IsBalanced step i (node, false) h v = free-IsBalanced (some i) node.pool v

pub count?-pool :
    (iface : Option ℕ) (change : Iface → Iface) (node : Node)
    → IsBalanced node.pool
    → IsBalanced (count? iface change node).pool
count?-pool none change node v = v
count?-pool (some ptr) change node v = v

pub options-IsBalanced :
    (iface : Option ℕ) (id : CspId) (node : Node)
    → IsBalanced node.pool
    → IsBalanced (check_options iface id node).0.pool
unfolding check_options
options-IsBalanced iface id node v = elim (Bool-cases (has id.flags flag_hmac)) [
  | inl keyed ↦ rw keyed (count?-pool iface auth_failed _ unsupported_too)
  | inr plain ↦ elim (Bool-cases (has id.flags flag_rdp)) [
    | inl rdp ↦ rw (plain, rdp) (count?-pool iface rx_failed _ unsupported_too)
    | inr other ↦ rw (plain, other) v
  ]
]
  where
    unsupported_too : IsBalanced (fail_with unsupported node).pool
    unsupported_too = IsBalanced-record node.pool _ refl v.valid refl refl v

verified-IsBalanced :
    (iface : Option ℕ) (i : ℕ) (r : Packet × Bool) (node : Node)
    → IsBalanced node.pool
    → IsBalanced (verified iface i r node).0.pool
unfolding verified
verified-IsBalanced iface i (packet, true) node v = store-IsBalanced i packet node v
verified-IsBalanced iface i (packet, false) node v =
    count?-pool iface rx_failed (store_at i packet node) (store-IsBalanced i packet node v)

pub security-IsBalanced :
    (opts : ℕ) (iface : Option ℕ) (i : ℕ) (packet : Packet) (node : Node)
    → IsBalanced node.pool
    → IsBalanced (security_check opts iface i packet node).0.pool
unfolding security_check
security-IsBalanced opts iface i packet node v =
    elim (Bool-cases (has packet.id.flags flag_crc32)) [
      | inl summed ↦
          rw summed (verified-IsBalanced iface i (Crc32.verify node.version packet) node v)
      | inr plain ↦ elim (Bool-cases (has opts opt_crc32)) [
        | inl required ↦ rw (plain, required) (count?-pool iface rx_failed node v)
        | inr free ↦ rw (plain, free) v
      ]
    ]

enqueue-IsBalanced :
    (s : ℕ) (o : Option Socket) (item : ℕ) (node : Node)
    → IsBalanced node.pool
    → IsBalanced (socket_enqueue s o item node).0.pool
unfolding socket_enqueue
enqueue-IsBalanced s none item node v = v
enqueue-IsBalanced s (some socket) item node v = elim (Option-cases socket.rx_queue) [
  | inl e ↦ rw e v
  | inr (q, e) ↦ rw e v
]

pub deliver-IsBalanced : (s i : ℕ) → Steady (deliver s i)
unfolding deliver
deliver-IsBalanced s i node v =
    kept (socket_enqueue s (socket_at (some s) node) i node)
      (enqueue-IsBalanced s (socket_at (some s) node) i node v)
  where
    kept : (r : Node × Bool) → IsBalanced r.0.pool → IsBalanced (kept_or_freed i r).pool
    kept (m, true) h = h
    kept (m, false) h = free-IsBalanced (some i) m.pool h

announce-IsBalanced : (c : ℕ) (o : Option Conn) → Steady (announce c o)
unfolding announce announce_to announced
announce-IsBalanced c none node v = v
announce-IsBalanced c (some conn) node v = to conn.dest_socket
  where
    said : (r : Node × Bool) → IsBalanced r.0.pool → IsBalanced (announced c conn r).pool
    said (m, true) h = h
    said (m, false) h = close-IsBalanced c (overflowed m).conns m.pool h

    to : (o : Option ℕ) → IsBalanced (announce_to c conn o node).pool
    to none = v
    to (some s) =
        said (socket_enqueue s (socket_at (some s) node) c node)
          (enqueue-IsBalanced s (socket_at (some s) node) c node v)

pub to_conn-IsBalanced : (c i : ℕ) → Steady (to_conn c i)
unfolding to_conn enqueued
to_conn-IsBalanced c i node v = by_status (Conn.enqueue_packet (some c) (some i) node.conns)
  where
    by_status : (r : Conn.Table × Conn.Status) → IsBalanced (enqueued c i r node).pool
    by_status (conns, Conn.err_none) =
        announce-IsBalanced c (conn_at (some c) (record node { conns = conns }))
          (record node { conns = conns }) v
    by_status (conns, Conn.err_inval) = free-IsBalanced (some i) node.pool v
    by_status (conns, Conn.err_nomem) = free-IsBalanced (some i) node.pool v

made-IsBalanced : (s opts i : ℕ) (o : Option ℕ) → Steady (made s opts i o)
unfolding made attach
made-IsBalanced s opts i none node v = free-IsBalanced (some i) node.pool v
made-IsBalanced s opts i (some c) node v =
    to_conn-IsBalanced c i (attach c s opts (conn_at (some c) node) node)
      (elim (Option-cases (conn_at (some c) node)) [ inl e ↦ rw e v | inr (conn, e) ↦ rw e v ])

pub begin-IsBalanced :
    (conn_max now s opts i : ℕ) (id : CspId) → Steady (begin conn_max now s opts i id)
unfolding begin
begin-IsBalanced conn_max now s opts i id node v =
    made-IsBalanced s opts i _ _
      (new-IsBalanced conn_max id (reply_ids id) conn_server now node.conns node.pool v)
