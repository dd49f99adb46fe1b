-- ===== src/Services/Ping.antt =====
-- csp_service_handler.c: the answer to a ping.
use libcsp_dphi.Base.{
  ℕ, ◌≤◌, ◌≡◌, subst, ◌∙◌, refl, sym, ap, none, some, List, ◌∷◌, ◌++◌, get_elem?-lt,
  get_elem?-set_self,
}
use libcsp_dphi.Packet.{Packet, CspId}
use libcsp_dphi.Iface.{Iface}
use libcsp_dphi.Queue.{messages_waiting}
use libcsp_dphi.Buffer.{Buffer, remaining, set_buffer}
use libcsp_dphi.Buffer.Count.{buffer_at}
use libcsp_dphi.Node.{Node, Sent, iface_at, packet_at, packet_of, store_at}
use libcsp_dphi.Io.{Driver}
use libcsp_dphi.Io.Direct.{is_behind, send_direct}
use libcsp_dphi.Io.Api.{
  sendto_id, sendto_packet, sendto, reply_id, reply_with, sendto_reply, opt_same,
}
use libcsp_dphi.Io.Replies.{packet_at-store_at}
use libcsp_dphi.Io.Reaches.{CanReach, send_direct-Hands}
use libcsp_dphi.Route.Balance.{store-IsBalanced}
use libcsp_dphi.Services.{service_of, serve, serve_found, handler}
use libcsp_dphi.Services.Cmp.{Conf, Hooks}

-- The identifier of the answer that a service gives, as csp_sendto has it.
abbrev pub answer_id : ℕ → CspId → CspId
answer_id version request =
    sendto_id request.pri request.src request.sport request.dport opt_same
      (reply_id version opt_same request request)

store_at-found :
    (i : ℕ) (b : Buffer) (p : Packet) (node : Node)
    → buffer_at node.pool i ≡ some b
    → store_at i p node ≡ record node { pool = set_buffer i (record b { packet = p }) node.pool }
store_at-found i b p node found = rw found refl

abbrev renamed : CspId → Buffer → Buffer
renamed id b = record b { packet = record (b.packet) { id = id } }

-- Another identifier in the packet changes nothing.
renamed-CanReach :
    (nexthop : Driver) (idout id : CspId) (i : ℕ) (b : Buffer) (j : Iface) (q : Packet)
    (node : Node)
    → CanReach nexthop idout none i b j q node
    → CanReach nexthop idout none i
        (renamed id b)
        j
        q
        (store_at i (record (b.packet) { id = id }) node)
unfolding remaining messages_waiting iface_at is_behind
renamed-CanReach nexthop idout id i b j q node can = record {
  balanced = store-IsBalanced i (record (b.packet) { id = id }) node can.balanced;
  found =
      ap (λ m. buffer_at m.pool i)
        (store_at-found i b (record (b.packet) { id = id }) node can.found)
      ∙ get_elem?-set_self node.pool.buffers i (renamed id b)
          (get_elem?-lt node.pool.buffers i b can.found);
  used = can.used;
  spare =
      subst (λ m. 2 ≤ remaining m.pool)
        (sym (store_at-found i b (record (b.packet) { id = id }) node can.found)) can.spare;
  away = can.away;
  here = can.here;
  free = can.free;
  line = can.line;
  sealed = can.sealed;
  accepted = can.accepted;
}

-- A reply in the packet of its request is one call of csp_send_direct.
pub sendto_reply-same :
    (nexthop : Driver) (i : ℕ) (p : Packet) (node : Node)
    → packet_at i node ≡ some p
    → sendto_reply nexthop i i opt_same node
      ≡ (send_direct nexthop (answer_id node.version p.id) i none (
          store_at i
            (record p { id = answer_id node.version p.id })
            (store_at i (record p { id = reply_id node.version opt_same p.id p.id }) node))).1
unfolding sendto_reply reply_with sendto sendto_packet
sendto_reply-same nexthop i p node here =
    let first : Packet = record p { id = reply_id node.version opt_same p.id p.id } in
    rw (here, packet_at-store_at i first p node here) refl

-- csp_service_handler answers a ping. Where the answer's identifier can reach the first interface of
-- the subnet that the request's source is in, the driver of that interface is handed the request's
-- packet under that identifier first, with a checksum if the request had one. It can if the packet
-- is in use in a balanced pool with two buffers to spare, if neither the source nor the interface is
-- the loopback, if the packet passes the checks on packets of this node, and if the driver takes it.
pub handler-Hands :
    (nexthop : Driver) (conf : Conf) (hooks : Hooks) (i : ℕ) (b : Buffer) (j : Iface) (q : Packet)
    (node : Node)
    → b.packet.id.dport ≡ 1
    → CanReach nexthop (answer_id node.version b.packet.id) none i b j q node
    → (e : Sent) × (rest : List Sent) × ((handler nexthop conf hooks i node).sent
        ≡ node.sent ++ e ∷ rest)
      × (e.iface ≡ j.ptr)
      × (e.packet ≡ q)
unfolding handler serve_found service_of serve
handler-Hands nexthop conf hooks i b j q node ping can =
    let p = b.packet in
    let id = answer_id node.version p.id in
    let first = reply_id node.version opt_same p.id p.id in
    let here : packet_at i node ≡ some p = ap packet_of can.found in
    let mid : Node = store_at i (record p { id = first }) node in
    let (e, rest, sent, iface, same) =
      send_direct-Hands nexthop id i none (store_at i (record p { id = id }) mid) j
        (renamed id (renamed first b)) q
        (renamed-CanReach nexthop id id i (renamed first b) j q mid
          (renamed-CanReach nexthop id first i b j q node can)) in
    rw (here, ping)
      (e, rest, ap (λ m. m.sent) (sendto_reply-same nexthop i p node here) ∙ sent, iface, same)
