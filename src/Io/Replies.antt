-- ===== src/Io/Replies.antt =====
-- csp_io.c: what csp_sendto and csp_sendto_reply hand to drivers.
use libcsp_dphi.Base.{
  none-some, ℕ, All-map, ==_ne, ◌≡◌, ◌≢◌, ◌∙◌, refl, sym, ap, append-nil, Bool-cases, Option-cases,
  bit_or, if◌then◌else◌, inl, inr, none, some, List, [], ◌++◌, get_elem?, get_elem?-lt,
  get_elem?-set_self, All, some-eq,
}
use libcsp_dphi.Packet.{Packet, CspId, flag_crc32}
use libcsp_dphi.Id.{is_broadcast, get_max_nodeid}
use libcsp_dphi.Buffer.{Buffer, unsupported}
use libcsp_dphi.Conn.{opt_rdp, opt_hmac, opt_crc32}
use libcsp_dphi.Node.{Node, Sent, packet_at, packet_of, store_at, fail_with, free_packet}
use libcsp_dphi.Io.{Driver}
use libcsp_dphi.Io.Sends.{Settled, Logged}
use libcsp_dphi.Io.Horizon.{Member-Settled}
use libcsp_dphi.Io.Addresses.{StandsFor, Destined, is_broadcast-bare, send_direct-Logged}
use libcsp_dphi.Io.Api.{
  has, sendto_id, sendto_packet, sendto, reply_id, reply_with, sendto_reply, opt_same,
}

pub packet_at-store_at :
    (i : ℕ) (p q : Packet) (node : Node)
    → packet_at i node ≡ some q
    → packet_at i (store_at i p node) ≡ some p
packet_at-store_at i p q node e = elim (Option-cases (get_elem? node.pool.buffers i)) [
  | inl missing ↦ absurd (none-some q (rw missing at e))
  | inr (b, found) ↦
      let b' : Buffer = record b { packet = p } in
      let again =
        get_elem?-set_self node.pool.buffers i b' (get_elem?-lt node.pool.buffers i b found) in
      rw (found, again) refl
]

pub store_at-cases :
    (i : ℕ) (p : Packet) (node : Node) (q : Packet)
    → packet_at i (store_at i p node) ≡ some q
    → q ≡ p
store_at-cases i p node q e = elim (Option-cases (get_elem? node.pool.buffers i)) [
  | inl missing ↦ absurd (none-some q (rw (missing, missing) at e))
  | inr (b, found) ↦ some-eq (sym e ∙ packet_at-store_at i p b.packet node (ap packet_of found))
]

-- The flags of an answer: those of the request if they were asked for, and a checksum as asked.
abbrev pub answer_flags : ℕ → ℕ → ℕ
answer_flags opts flags =
    let kept = if has opts opt_same then flags else 0 in
    if has opts opt_crc32 then bit_or kept flag_crc32 else kept

-- An identifier that answers a request: the ports turned round, and from the address that the
-- request was sent to, if that was one.
abbrev pub Answers : Node → ℕ → CspId → CspId → Type 0
Answers node opts request id =
    (id.pri ≡ request.pri)
    × (id.flags ≡ answer_flags opts request.flags)
    × (id.dport ≡ request.sport)
    × (id.sport ≡ request.dport)
    × (request.dst ≢ get_max_nodeid node.version → request.dst ≢ 0 → id.src ≡ request.dst)
    × Destined node request.src id.dst

Destined-Still :
    (node m : Node) (dst to : ℕ) → Settled node m → Destined m dst to → Destined node dst to
Destined-Still node m dst to (b, v, o) (inl same) = inl same
Destined-Still node m dst to (b, v, o) (inr (all, (k, i, e, cast))) =
    let (k', j, found, same) = Member-Settled node.interfaces m.interfaces i b (k, e) in
    inr (
      all ∙ ap get_max_nodeid v,
      (
        k',
        j,
        found,
        is_broadcast-bare node.version dst i j same
            ∙ ap (λ version. is_broadcast version dst i) (sym v)
            ∙ cast,
      ),
    )

pub Answers-Still :
    (opts : ℕ) (node m : Node) (request id : CspId)
    → Settled node m
    → Answers m opts request id
    → Answers node opts request id
Answers-Still opts node m request id settled (pri, flags, dport, sport, source, dst) = (
  pri,
  flags,
  dport,
  sport,
  λ single own. source (λ p. single (p ∙ ap get_max_nodeid settled.1)) own,
  Destined-Still node m request.src id.dst settled dst,
)

module _ (nexthop : Driver) where
  sendto_packet-Logged :
      (prio dest dport src_port opts i : ℕ) (packet : Packet) (node : Node)
      → Logged
          (λ e. StandsFor node (sendto_id prio dest dport src_port opts packet.id) e.packet.id)
          node
          (sendto_packet nexthop prio dest dport src_port opts i (some packet) node)
  unfolding sendto_packet
  sendto_packet-Logged prio dest dport src_port opts i packet node =
      elim (Bool-cases (has opts opt_rdp)) [
        | inl rdp ↦ rw rdp unsent
        | inr plain ↦ elim (Bool-cases (has opts opt_hmac)) [
          | inl keyed ↦ rw (plain, keyed) unsent
          | inr other ↦
              let id = sendto_id prio dest dport src_port opts packet.id in
              rw (plain, other)
                (send_direct-Logged nexthop id (store_at i (record packet { id = id }) node) i none)
        ]
      ]
    where
      unsent :
          Logged
            (λ e. StandsFor node (sendto_id prio dest dport src_port opts packet.id) e.packet.id)
            node
            (free_packet (some i) (fail_with unsupported node))
      unsent = ((refl, refl, refl), [], sym (append-nil node.sent), tt)

  answer-Answers :
      (opts : ℕ) (node : Node) (request reply id : CspId)
      → StandsFor node
          (sendto_id request.pri request.src request.sport request.dport opts
            (reply_id node.version opts request reply))
          id
      → Answers node opts request id
  unfolding sendto_id reply_id
  answer-Answers opts node request reply id (pri, flags, dport, sport, source, dst) = (
    pri,
    elim (Bool-cases (has opts opt_same)) [
      | inl same ↦ rw same (rw same at flags)
      | inr fresh ↦ rw fresh (rw fresh at flags)
    ],
    dport,
    sport,
    λ single own.
        let other = ==_ne request.dst (get_max_nodeid node.version) single in
        rw other at source own,
    dst,
  )

  reply_with-Answers :
      (reply opts : ℕ) (p q : Packet) (node : Node)
      → packet_at reply node ≡ some q
      → Logged
          (λ e. Answers node opts p.id e.packet.id)
          node
          (reply_with nexthop (some p) reply (some q) opts node)
  unfolding reply_with sendto
  reply_with-Answers reply opts p q node there =
      let id = reply_id node.version opts p.id q.id in
      let written : Packet = record q { id = id } in
      let (settled, new, log, all) =
        sendto_packet-Logged p.id.pri p.id.src p.id.sport p.id.dport opts reply written
          (store_at reply written node) in
      rw (packet_at-store_at reply written q node there) (
        settled,
        new,
        log,
        All-map
            (λ e.
              StandsFor node (sendto_id p.id.pri p.id.src p.id.sport p.id.dport opts id)
                e.packet.id)
            (λ e. Answers node opts p.id e.packet.id)
            (λ e. answer-Answers opts node p.id q.id e.packet.id) new all,
      )

  -- A request that is not in the pool is not answered.
  pub sendto_reply-none :
      (request reply opts : ℕ) (node : Node)
      → packet_at request node ≡ none
      → sendto_reply nexthop request reply opts node ≡ node
  unfolding sendto_reply reply_with
  sendto_reply-none request reply opts node missing = rw missing refl

  -- Whatever csp_sendto_reply hands to drivers, behind what they were handed before, answers the
  -- request: it has the request's priority, the request's ports turned round, the request's flags
  -- if they were asked for, and it is from the address that the request was sent to, unless that
  -- was a broadcast to everyone or 0; it goes to the request's source, or to everyone where that is
  -- a broadcast on the subnet of an interface. The request and the reply, which may be one packet,
  -- are in the pool.
  pub sendto_reply-Answers :
      (request reply opts : ℕ) (p q : Packet) (node : Node)
      → packet_at request node ≡ some p
      → packet_at reply node ≡ some q
      → (new : List Sent) × ((sendto_reply nexthop request reply opts node).sent ≡ node.sent ++ new)
        × All (λ e. Answers node opts p.id e.packet.id) new
  unfolding sendto_reply
  sendto_reply-Answers request reply opts p q node asked there =
      let (settled, new, log, all) = reply_with-Answers reply opts p q node there in
      rw (asked, there) (new, log, all)
