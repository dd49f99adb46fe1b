-- ===== src/Io/Direct.antt =====
-- csp_io.c: csp_send_direct, which finds the interfaces for a packet: the ones of its subnet, those
-- of its route, or the default ones. A caller's identifier is an argument, and comes back with what
-- was written to it. A loop runs on fuel; `from` is the pointer that its search starts behind.
use libcsp_dphi.Base.{
  ℕ, zero, suc, Bool, true, false, ◌&&◌, ◌||◌, ◌==◌, if◌then◌else◌, Option, none, some, length,
  get_elem?,
}
use libcsp_dphi.Packet.{CspId}
use libcsp_dphi.Iface.{Iface}
use libcsp_dphi.Id.{is_broadcast, get_max_nodeid}
use libcsp_dphi.Buffer.{clone}
use libcsp_dphi.Iflist.{get_by_subnet, get_by_isdfl, is_within_subnet}
use libcsp_dphi.Rtable.{Route, find_route, search_backward}
use libcsp_dphi.Node.{Node, if_lo, iface_at, iface_at?, free_packet}
use libcsp_dphi.Io.{Driver, no_via, send_direct_iface}

abbrev pub is_same : ℕ → Option ℕ → Bool
is_same ptr none = false
is_same ptr (some other) = ptr == other

abbrev pub is_none : Option ℕ → Bool
is_none none = true
is_none (some x) = false

-- The two tests of the split horizon.
unfoldable pub is_behind : Option ℕ → Iface → Node → Bool
is_behind routed_from i node =
    is_same i.ptr routed_from || is_within_subnet node.version i.addr (iface_at? routed_from node)

unfoldable pub send_cloned : Driver → CspId → Option ℕ → ℕ → ℕ → Bool → Node → Node
send_cloned nexthop idout none iface via from_me node = node
send_cloned nexthop idout (some copy) iface via from_me node =
    send_direct_iface nexthop idout copy iface via from_me node

-- A copy of the packet is sent, if there is a buffer for one.
unfoldable pub send_copy : Driver → CspId → ℕ → ℕ → ℕ → Bool → Node → Node
send_copy nexthop idout packet iface via from_me node =
    let (pool, copy) = clone (some packet) node.pool in
    send_cloned nexthop idout copy iface via from_me (record node { pool = pool })

-- The source address of a packet of this node that has none yet.
abbrev pub own_source : Option ℕ → CspId → Iface → ℕ
own_source routed_from idout i = if is_none routed_from && idout.src == 0 then i.addr else idout.src

-- What the loop over the subnets does to its copy `_idout` of the identifier.
unfoldable pub local_id : Option ℕ → CspId → CspId → Iface → ℕ → CspId
local_id routed_from idout copied i version =
    let src = if is_none routed_from && idout.src == 0 then i.addr else copied.src in
    let dst = if is_broadcast version idout.dst i then get_max_nodeid version else copied.dst in
    record copied { src = src; dst = dst }

-- One round of the loop, at the interface `i`.
unfoldable pub local_round : Driver → CspId → ℕ → Option ℕ → Iface → CspId × Node → CspId × Node
local_round nexthop idout packet routed_from i (copied, node) =
    let id = local_id routed_from idout copied i node.version in
    if is_behind routed_from i node
    then (copied, node)
    else (id, send_copy nexthop id packet i.ptr no_via (is_none routed_from) node)

unfoldable pub local_loop :
    Driver → CspId → ℕ → Option ℕ → ℕ → Option ℕ → CspId × Node → CspId × Node
local_loop nexthop idout packet routed_from zero from s = s
local_loop nexthop idout packet routed_from (suc fuel) from s =
    let rest = λ (i : Iface).
      local_loop nexthop idout packet routed_from fuel (some i.ptr)
        (local_round nexthop idout packet routed_from i s) in
    elim (get_by_subnet s.1.version idout.dst from s.1.interfaces) [ none ↦ s | some i ↦ rest i ]

-- One round of the other two loops: `idout` is the caller's.
unfoldable pub send_round : Driver → ℕ → Option ℕ → ℕ → Iface → CspId × Node → CspId × Node
send_round nexthop packet routed_from via i (idout, node) =
    let id = record idout { src = own_source routed_from idout i } in
    if is_behind routed_from i node
    then (idout, node)
    else (id, send_copy nexthop id packet i.ptr via (is_none routed_from) node)

-- The round at a route. A route's interface is one of the list.
unfoldable pub route_round :
    Driver → ℕ → Option ℕ → Route → Option Iface → CspId × Node → CspId × Node
route_round nexthop packet routed_from r none s = s
route_round nexthop packet routed_from r (some i) s =
    send_round nexthop packet routed_from r.via i s

unfoldable pub route_at : Driver → ℕ → Option ℕ → Option Route → CspId × Node → CspId × Node
route_at nexthop packet routed_from none s = s
route_at nexthop packet routed_from (some r) s =
    route_round nexthop packet routed_from r (iface_at r.iface s.1) s

-- The do-while loop; `continue` goes on with its condition.
unfoldable pub route_loop : Driver → ℕ → Option ℕ → ℕ → Option ℕ → CspId × Node → CspId × Node
route_loop nexthop packet routed_from zero route s = s
route_loop nexthop packet routed_from (suc fuel) none s = s
route_loop nexthop packet routed_from (suc fuel) (some k) s =
    route_loop nexthop packet routed_from fuel (search_backward (some k) s.1.routes)
      (route_at nexthop packet routed_from (get_elem? s.1.routes.rtable k) s)

unfoldable pub default_loop : Driver → ℕ → Option ℕ → ℕ → Option ℕ → CspId × Node → CspId × Node
default_loop nexthop packet routed_from zero from s = s
default_loop nexthop packet routed_from (suc fuel) from s =
    let rest = λ (i : Iface).
      default_loop nexthop packet routed_from fuel (some i.ptr)
        (send_round nexthop packet routed_from no_via i s) in
    elim (get_by_isdfl from s.1.interfaces) [ none ↦ s | some i ↦ rest i ]

-- Behind each loop the packet itself is freed.
abbrev pub let_go : ℕ → CspId × Node → CspId × Node
let_go packet (idout, node) = (idout, free_packet (some packet) node)

unfoldable pub send_by_default : Driver → CspId → ℕ → Option ℕ → Node → CspId × Node
send_by_default nexthop idout packet routed_from node =
    let_go packet
      (default_loop nexthop packet routed_from (suc (length node.interfaces)) none (idout, node))

unfoldable pub send_routed : Driver → CspId → ℕ → Option ℕ → Option ℕ → Node → CspId × Node
send_routed nexthop idout packet routed_from none node =
    send_by_default nexthop idout packet routed_from node
send_routed nexthop idout packet routed_from (some k) node =
    let_go packet (
      route_loop nexthop packet routed_from (suc (length node.routes.rtable)) (some k)
        (idout, node))

unfoldable pub send_locally : Driver → CspId → ℕ → Option ℕ → Option Iface → Node → CspId × Node
send_locally nexthop idout packet routed_from none node =
    send_routed nexthop idout packet routed_from (find_route node.version idout.dst node.routes)
      node
send_locally nexthop idout packet routed_from (some i) node = let_go packet (
  idout,
  (local_loop nexthop idout packet routed_from (suc (length node.interfaces)) none (idout, node)).1,
)

abbrev pub is_loopback : CspId → Option Iface → Bool
is_loopback idout none = false
is_loopback idout (some lo) = idout.dst == lo.addr

-- csp_send_direct: the loop over the subnets is entered if its first search finds an interface.
unfoldable pub send_direct : Driver → CspId → ℕ → Option ℕ → Node → CspId × Node
send_direct nexthop idout packet routed_from node =
    if is_loopback idout (iface_at if_lo node)
    then (idout, send_direct_iface nexthop idout packet if_lo no_via (is_none routed_from) node)
    else send_locally nexthop idout packet routed_from
        (get_by_subnet node.version idout.dst none node.interfaces) node
