-- ===== src/Io/Takes.antt =====
-- csp_send_direct takes the packet that it is given, and no other that is in use.
use libcsp_dphi.Base.{
  ℕ, ◌+◌, ◌-◌, ◌<◌, ◌≡◌, ◌≢◌, ◌∙◌, refl, ap, arith, Bool, false, Bool-cases, inl, inr, ◌==◌, not,
  ◌&&◌, Option, none, some, set, bit_and,
}
use libcsp_dphi.Packet.{Packet, CspId, id_copy, flag_hmac}
use libcsp_dphi.Iface.{Iface}
use libcsp_dphi.Queue.{enqueue}
use libcsp_dphi.Iflist.{get_by_subnet}
use libcsp_dphi.Buffer.{Buffer, Pool, free, clone, Errno, unsupported}
use libcsp_dphi.Buffer.Count.{buffer_at}
use libcsp_dphi.Buffer.Balance.{clone-IsBalanced}
use libcsp_dphi.Buffer.Invariant.{IsBalanced, due, free-IsBalanced, IsBalanced-record, rebalance}
use libcsp_dphi.Qfifo
use libcsp_dphi.Node.{Node, if_lo, iface_at, store_found, store_at, packet_at, fail_with}
use libcsp_dphi.Io.{
  Driver, tx_err, next_hop, transmit, send_sealed, note_hmac, send_found, send_direct_iface,
}
use libcsp_dphi.Io.Direct.{is_none, is_loopback, send_cloned, send_copy, send_locally, send_direct}
use libcsp_dphi.Io.Loops.{send_locally_inv}
use libcsp_dphi.Io.References.{refs, refs-set, free-refs, clone-refs}

-- The pool is balanced, and a buffer has a number of references.
abbrev pub Holds : ℕ → ℕ → Pool → Type 0
Holds j n pool = IsBalanced pool × (refs pool j ≡ n)

free-Holds : (i j n : ℕ) (pool : Pool) → i ≢ j → Holds j n pool → Holds j n (free (some i) pool)
free-Holds i j n pool ne (v, e) = (free-IsBalanced (some i) pool v, (free-refs pool i v).1 j ne ∙ e)

pub store-Holds :
    (i j n : ℕ) (packet : Packet) (o : Option Buffer) (pool : Pool)
    → buffer_at pool i ≡ o
    → i ≢ j
    → Holds j n pool
    → Holds j n (store_found i packet o pool)
store-Holds i j n packet none pool f ne h = h
store-Holds i j n packet (some b) pool f ne (v, e) =
    let c : Buffer = record b { packet = packet } in
    let pool' : Pool = record pool { buffers = set pool.buffers i c } in
    (
      rebalance pool i b c v f (v.own i b f) pool' refl v.valid refl (λ k ne. refl)
          (v.counted i ∙ ap due f),
      (refs-set pool pool' i b c f refl).1 j ne ∙ e,
    )

errno-Holds :
    (j n : ℕ) (e : Errno) (node : Node) → Holds j n node.pool → Holds j n (fail_with e node).pool
errno-Holds j n e node (v, r) = (IsBalanced-record node.pool _ refl v.valid refl refl v, r)

write_to-Holds :
    (i j n iface : ℕ) (node : Node)
    → i ≢ j
    → Holds j n node.pool
    → Holds j n (Qfifo.write_to i iface node).pool
unfolding Qfifo.write_to
write_to-Holds i j n iface node ne h =
    elim (Bool-cases (enqueue node.qfifo (record { iface = some iface; packet = some i })).1) [
      | inl room ↦ rw room h
      | inr full ↦ rw full (free-Holds i j n node.pool ne h)
    ]

module _ (nexthop : Driver) (j n : ℕ) where
  next_hop-Holds :
      (i : ℕ) (packet : Packet) (iface via : ℕ) (from_me : Bool) (node : Node)
      → i ≢ j
      → Holds j n node.pool
      → Holds j n (next_hop nexthop i packet iface via from_me node).0.pool
  unfolding next_hop Qfifo.write
  next_hop-Holds i packet iface via from_me node ne h = elim (Bool-cases (iface == if_lo)) [
    | inl lo ↦ rw lo (write_to-Holds i j n if_lo node ne h)
    | inr line ↦ elim (Bool-cases (nexthop iface via packet from_me)) [
      | inl taken ↦ rw (line, taken) h
      | inr refused ↦ rw (line, refused) h
    ]
  ]

  transmit-Holds :
      (i : ℕ) (packet : Packet) (iface via : ℕ) (from_me : Bool) (node : Node)
      → i ≢ j
      → Holds j n node.pool
      → Holds j n (transmit nexthop i packet iface via from_me node).pool
  unfolding transmit tx_err
  transmit-Holds i packet iface via from_me node ne h =
      let after = next_hop-Holds i packet iface via from_me node ne h in
      elim (Bool-cases (next_hop nexthop i packet iface via from_me node).1) [
        | inl taken ↦ rw taken after
        | inr refused ↦
            rw refused
              (free-Holds i j n (next_hop nexthop i packet iface via from_me node).0.pool ne after)
      ]

  sealed-Holds :
      (i : ℕ) (o : Option Packet) (iface via : ℕ) (from_me : Bool) (node : Node)
      → i ≢ j
      → Holds j n node.pool
      → Holds j n (send_sealed nexthop i o iface via from_me node).pool
  unfolding send_sealed tx_err
  sealed-Holds i none iface via from_me node ne h = free-Holds i j n node.pool ne h
  sealed-Holds i (some packet) iface via from_me node ne h =
      transmit-Holds i packet iface via from_me (store_at i packet node) ne
        (store-Holds i j n packet (buffer_at node.pool i) node.pool refl ne h)

  noted-Holds :
      (from_me : Bool) (id : CspId) (node : Node)
      → Holds j n node.pool
      → Holds j n (note_hmac from_me id node).pool
  unfolding note_hmac
  noted-Holds from_me id node h =
      elim (Bool-cases (from_me && not (bit_and id.flags flag_hmac == 0))) [
        | inl asked ↦ rw asked (errno-Holds j n unsupported node h)
        | inr plain ↦ rw plain h
      ]

  found-Holds :
      (id : CspId) (i : ℕ) (o : Option Packet) (iface via : ℕ) (from_me : Bool) (node : Node)
      → i ≢ j
      → Holds j n node.pool
      → Holds j n (send_found nexthop id i o iface via from_me node).pool
  unfolding send_found
  found-Holds id i none iface via from_me node ne h = h
  found-Holds id i (some p) iface via from_me node ne h = sealed-Holds i _ iface via from_me _ ne (
      noted-Holds from_me id (store_at i (record p { id = id_copy p.id id }) node) (
        store-Holds i j n (record p { id = id_copy p.id id }) (buffer_at node.pool i) node.pool refl
          ne h))

  -- Sending a packet on an interface leaves the references of every other packet.
  pub send_direct_iface-Holds :
      (id : CspId) (i iface via : ℕ) (from_me : Bool) (node : Node)
      → i ≢ j
      → Holds j n node.pool
      → Holds j n (send_direct_iface nexthop id i iface via from_me node).pool
  unfolding send_direct_iface
  send_direct_iface-Holds id i iface via from_me node ne h =
      found-Holds id i (packet_at i node) iface via from_me node ne h

  cloned-Holds :
      (id : CspId) (copy : Option ℕ) (iface via : ℕ) (from_me : Bool) (node : Node)
      → copy ≢ some j
      → Holds j n node.pool
      → Holds j n (send_cloned nexthop id copy iface via from_me node).pool
  unfolding send_cloned
  cloned-Holds id none iface via from_me node ne h = h
  cloned-Holds id (some i) iface via from_me node ne h =
      send_direct_iface-Holds id i iface via from_me node (λ p. ne (ap some p)) h

  copy-Holds :
      (id : CspId) (packet iface via : ℕ) (from_me : Bool) (node : Node)
      → 0 < n
      → Holds j n node.pool
      → Holds j n (send_copy nexthop id packet iface via from_me node).pool
  unfolding send_copy
  copy-Holds id packet iface via from_me node pos (v, e) =
      let (other, same) = clone-refs node.pool packet j v (omega arith) in
      cloned-Holds id (clone (some packet) node.pool).1 iface via from_me
        (record node { pool = (clone (some packet) node.pool).0 }) other
        (clone-IsBalanced (some packet) node.pool v, same ∙ e)

-- What csp_send_direct does to the references of a balanced pool, wherever the packet goes but to
-- the loopback interface, and whatever fails on the way: the packet that is handed in loses one
-- reference, and no other packet that is in use loses or gains any.
pub send_direct-refs :
    (nexthop : Driver) (idout : CspId) (packet : ℕ) (routed_from : Option ℕ) (node : Node)
    → IsBalanced node.pool
    → is_loopback idout (iface_at if_lo node) ≡ false
    → 0 < refs node.pool packet
    → let pool' = (send_direct nexthop idout packet routed_from node).1.pool in
      IsBalanced pool'
      × (refs pool' packet + 1 ≡ refs node.pool packet)
      × ((j : ℕ) → packet ≢ j → 0 < refs node.pool j → refs pool' j ≡ refs node.pool j)
unfolding send_direct
send_direct-refs nexthop idout packet routed_from node v away used =
    rw away (mine.0, omega (arith, mine.1), others)
  where
    o : Option Iface
    o = get_by_subnet node.version idout.dst none node.interfaces

    after : Pool
    after = (send_locally nexthop idout packet routed_from o node).1.pool

    mine : IsBalanced after × (refs after packet ≡ refs node.pool packet - 1)
    mine =
        send_locally_inv nexthop packet routed_from
          (λ m. Holds packet (refs node.pool packet) m.pool)
          (λ id i via m known free h.
            copy-Holds nexthop packet (refs node.pool packet) id packet i.ptr via
              (is_none routed_from) m used h)
          (λ m. IsBalanced m.pool × (refs m.pool packet ≡ refs node.pool packet - 1))
          (λ m h. (
            free-IsBalanced (some packet) m.pool h.0,
            (free-refs m.pool packet h.0).0 ∙ ap (λ k. k - 1) h.1,
          ))
          idout o node (v, refl)

    others : (j : ℕ) → packet ≢ j → 0 < refs node.pool j → refs after j ≡ refs node.pool j
    others j ne h =
        (send_locally_inv nexthop packet routed_from (λ m. Holds j (refs node.pool j) m.pool)
          (λ id i via m known free k.
            copy-Holds nexthop j (refs node.pool j) id packet i.ptr via (is_none routed_from) m h k)
          (λ m. Holds j (refs node.pool j) m.pool)
          (λ m k. free-Holds packet j (refs node.pool j) m.pool ne k) idout o node (v, refl)).1
