-- ===== src/Io/Reaches.antt =====
-- csp_send_direct: a packet does leave on the interface of its subnet.
use libcsp_dphi.Base.{
  ==_from, ◌⊎◌, ℕ, suc, ◌≤◌, ◌<◌, ◌≡◌, ◌≢◌, ◌∙◌, refl, sym, ap, Bool, true, false, Bool-cases, inl,
  inr, ◌==◌, ==_ne, not, ◌&&◌, Option, none, some, List, [], ◌∷◌, ◌++◌, append-nil, append_assoc,
  length, bit_and,
}
use libcsp_dphi.Packet.{Packet, CspId, id_copy, flag_hmac, flag_crc32}
use libcsp_dphi.Crc32
use libcsp_dphi.Iface.{Iface}
use libcsp_dphi.Iflist.{get_by_subnet}
use libcsp_dphi.Buffer.{Buffer, clone, remaining, unsupported}
use libcsp_dphi.Buffer.Count.{buffer_at}
use libcsp_dphi.Buffer.Clone.{clone_lem}
use libcsp_dphi.Buffer.Invariant.{IsBalanced}
use libcsp_dphi.Node.{Node, Sent, if_lo, iface_at, packet_of, store_at, fail_with}
use libcsp_dphi.Io.{
  Driver, no_via, seal, transmit, next_hop, send_sealed, note_hmac, send_found, send_direct_iface,
}
use libcsp_dphi.Io.Direct.{
  is_none, is_behind, is_loopback, send_cloned, send_copy, local_id, local_round, local_loop,
  send_locally, send_direct,
}
use libcsp_dphi.Io.Loops.{local_loop_inv}
use libcsp_dphi.Io.Sends.{Logged, Logged-Sends, send_copy-Sends}

-- The driver of `iface` is handed this packet next.
abbrev pub Hands : ℕ → Packet → Node → Node → Type 0
Hands iface q node m =
    (e : Sent) × (m.sent ≡ node.sent ++ e ∷ []) × (e.iface ≡ iface) × (e.packet ≡ q)

module _ (nexthop : Driver) (iface via : ℕ) (from_me : Bool) (line : iface ≢ if_lo) where
  transmit-Hands :
      (i : ℕ) (q : Packet) (node : Node)
      → nexthop iface via q from_me ≡ true
      → Hands iface q node (transmit nexthop i q iface via from_me node)
  unfolding transmit next_hop
  transmit-Hands i q node taken = rw (==_ne iface if_lo line, taken) (_, refl, refl, refl)

  found-Hands :
      (id : CspId) (i : ℕ) (p q : Packet) (node : Node)
      → seal from_me (record p { id = id }) ≡ some q
      → nexthop iface via q from_me ≡ true
      → Hands iface q node (send_found nexthop id i (some p) iface via from_me node)
  unfolding send_found id_copy send_sealed note_hmac
  found-Hands id i p q node sealed taken =
      elim (Bool-cases (from_me && not (bit_and id.flags flag_hmac == 0))) [
        | inl asked ↦
            rw (sealed, asked)
              (transmit-Hands i q
                (store_at i q (fail_with unsupported (store_at i (record p { id = id }) node)))
                taken)
        | inr plain ↦
            rw (sealed, plain)
              (transmit-Hands i q (store_at i q (store_at i (record p { id = id }) node)) taken)
      ]

  send_copy-Hands :
      (id : CspId) (packet : ℕ) (b : Buffer) (q : Packet) (node : Node)
      → IsBalanced node.pool
      → buffer_at node.pool packet ≡ some b
      → 0 < b.refcount
      → 2 ≤ remaining node.pool
      → seal from_me (record (b.packet) { id = id }) ≡ some q
      → nexthop iface via q from_me ≡ true
      → Hands iface q node (send_copy nexthop id packet iface via from_me node)
  unfolding send_copy send_cloned send_direct_iface
  send_copy-Hands id packet b q node v found used enough sealed taken =
      let (k, c, twin, there, same) = clone_lem node.pool packet b v found used enough in
      rw (twin, ap packet_of there)
        (found-Hands id k c.packet q (record node { pool = (clone (some packet) node.pool).0 })
          (ap (λ p. seal from_me (record p { id = id })) same ∙ sealed) taken)

-- What leaves of a packet of this node: the packet itself, or with a checksum appended if its flags
-- ask for one; never if they ask for HMAC. A packet of another node leaves as it is.
abbrev pub Sealed : Bool → Packet → Packet → Type 0
Sealed false p q = q ≡ p
Sealed true p q =
    (bit_and p.id.flags flag_hmac ≡ 0)
    × (((bit_and p.id.flags flag_crc32 ≡ 0) × (q ≡ p))
        ⊎ ((bit_and p.id.flags flag_crc32 ≢ 0) × (Crc32.append p ≡ some q)))

seal-Sealed : (from_me : Bool) (p q : Packet) → Sealed from_me p q → seal from_me p ≡ some q
unfolding seal
seal-Sealed false p q e = ap some (sym e)
seal-Sealed true p q (plain, inl (bare, e)) =
    rw
      (
        ==_from (bit_and p.id.flags flag_hmac) 0 plain,
        ==_from (bit_and p.id.flags flag_crc32) 0 bare,
      )
      (ap some (sym e))
seal-Sealed true p q (plain, inr (summed, e)) =
    rw
      (
        ==_from (bit_and p.id.flags flag_hmac) 0 plain,
        ==_ne (bit_and p.id.flags flag_crc32) 0 summed,
      )
      e

-- What lets a packet leave on the first interface of its subnet: the packet is in use in a balanced
-- pool with two buffers to spare, and does not go to the loopback; the interface is no loopback
-- either, nor one that the packet came from or is behind; its copy passes the checks of this node's
-- packets, to become `q`, and the driver takes that.
pub record CanReach (nexthop : Driver) (idout : CspId) (routed_from : Option ℕ) (packet : ℕ)
    (b : Buffer) (i : Iface) (q : Packet) (node : Node) : Type 0 where
  pub balanced : IsBalanced node.pool
  pub found : buffer_at node.pool packet ≡ some b
  pub used : 0 < b.refcount
  pub spare : 2 ≤ remaining node.pool
  pub away : is_loopback idout (iface_at if_lo node) ≡ false
  pub here : get_by_subnet node.version idout.dst none node.interfaces ≡ some i
  pub free : is_behind routed_from i node ≡ false
  pub line : i.ptr ≢ if_lo
  pub sealed :
      Sealed
        (is_none routed_from)
        (record (b.packet) { id = local_id routed_from idout idout i node.version })
        q
  pub accepted : nexthop i.ptr no_via q (is_none routed_from) ≡ true

module _ (nexthop : Driver) (idout : CspId) (packet : ℕ) (routed_from : Option ℕ) where
  -- The rounds that follow take nothing back.
  rest-Logged :
      (fuel : ℕ) (from : Option ℕ) (s : CspId × Node)
      → Logged (λ e. Unit {0}) s.1 (local_loop nexthop idout packet routed_from fuel from s).1
  rest-Logged fuel from s =
      (local_loop_inv nexthop packet routed_from idout (Logged (λ e. Unit {0}) s.1) (λ id. Unit {0})
        (λ id src kept ok. tt) (λ id i node m all p ok. tt)
        (λ id i via m ok known free h.
          Logged-Sends (λ e. Unit {0}) id i.ptr via (is_none routed_from) s.1 m
            (send_copy nexthop id packet i.ptr via (is_none routed_from) m) h
            (send_copy-Sends nexthop via (is_none routed_from) id packet i.ptr m) (λ e handed. tt))
        fuel from s (tt, ((refl, refl, refl), [], sym (append-nil s.1.sent), tt))).1

  -- The first round of the loop over the subnets.
  first_round :
      (fuel : ℕ) (node : Node) (i : Iface)
      → get_by_subnet node.version idout.dst none node.interfaces ≡ some i
      → is_behind routed_from i node ≡ false
      → let id = local_id routed_from idout idout i node.version in
        local_loop nexthop idout packet routed_from (suc fuel) none (idout, node)
        ≡ local_loop nexthop idout packet routed_from fuel
            (some i.ptr)
            (id, send_copy nexthop id packet i.ptr no_via (is_none routed_from) node)
  unfolding local_loop local_round
  first_round fuel node i here free = rw (here, free, local_loop) refl

  -- The driver of the first interface of the subnet is handed the packet first, under the identifier
  -- that csp_send_direct fills in, and with a checksum if one is asked for.
  pub send_direct-Hands :
      (node : Node) (i : Iface) (b : Buffer) (q : Packet)
      → CanReach nexthop idout routed_from packet b i q node
      → (e : Sent) × (rest : List Sent) × ((send_direct nexthop idout packet routed_from
            node).1.sent
          ≡ node.sent ++ e ∷ rest)
        × (e.iface ≡ i.ptr)
        × (e.packet ≡ q)
  unfolding send_direct send_locally
  send_direct-Hands node i b q can =
      let id = local_id routed_from idout idout i node.version in
      let mid : Node = send_copy nexthop id packet i.ptr no_via (is_none routed_from) node in
      let (e, first, iface, sent) =
        send_copy-Hands nexthop i.ptr no_via (is_none routed_from) can.line id packet b q node
          can.balanced can.found can.used can.spare
          (seal-Sealed (is_none routed_from) (record (b.packet) { id = id }) q can.sealed)
          can.accepted in
      let (settled, rest, more, all) =
        rest-Logged (length node.interfaces) (some i.ptr) (id, mid) in
      rw (can.away, can.here, first_round (length node.interfaces) node i can.here can.free)
        (
          e,
          rest,
          more ∙ ap (λ l. l ++ rest) first ∙ append_assoc node.sent (e ∷ []) rest,
          iface,
          sent,
        )
