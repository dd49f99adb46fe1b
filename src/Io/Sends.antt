-- ===== src/Io/Sends.antt =====
-- csp_send_direct_iface: what drivers are handed. `Sends` is one packet at most, on one interface.
use libcsp_dphi.Base.{
  none-some, append_assoc, All, All-append, ℕ, ◌+◌, ◌≡◌, ◌∙◌, ◌⊎◌, refl, sym, ap, Bool, true, false,
  Bool-cases, inl, inr, ◌==◌, not, ◌&&◌, ltb, subst, Option, none, some, List, [], ◌∷◌, ◌++◌,
  bit_and,
}
use libcsp_dphi.Packet.{Packet, CspId, id_copy, flag_hmac, flag_crc32, buffer_size}
use libcsp_dphi.Iface.{Iface}
use libcsp_dphi.Queue.{enqueue}
use libcsp_dphi.Buffer.{clone, unsupported}
use libcsp_dphi.Crc32
use libcsp_dphi.Qfifo
use libcsp_dphi.Node.{
  Node, Sent, if_lo, count, count_at, known, tx_failed, store_at, packet_at, fail_with, free_packet,
}
use libcsp_dphi.Io.{
  Driver, tx_err, sent_bytes, next_hop, transmit, seal, send_sealed, note_hmac, send_found,
  send_direct_iface,
}
use libcsp_dphi.Io.Direct.{send_cloned, send_copy}

-- An interface without its counters.
abbrev pub bare : Iface → Iface
bare i = record i {
  tx = 0;
  rx = 0;
  tx_error = 0;
  rx_error = 0;
  drop = 0;
  autherr = 0;
  frame = 0;
  txbytes = 0;
  rxbytes = 0;
}

abbrev pub bares : List Iface → List Iface
bares [] = []
bares (i ∷ interfaces) = bare i ∷ bares interfaces

-- The interfaces, their counters aside, and the version stay.
abbrev pub Settled : Node → Node → Type 0
Settled node node' =
    (bares node'.interfaces ≡ bares node.interfaces)
    × (node'.version ≡ node.version)
    × (bares node'.others ≡ bares node.others)

-- What a driver is handed under an identifier.
abbrev pub Handed : CspId → ℕ → ℕ → Bool → Sent → Type 0
Handed id iface via from_me e =
    (e.iface ≡ iface) × (e.via ≡ via) × (e.from_me ≡ from_me) × (e.packet.id ≡ id)

abbrev pub Sends : CspId → ℕ → ℕ → Bool → Node → Node → Type 0
Sends id iface via from_me node node' =
    Settled node node'
    × ((node'.sent ≡ node.sent)
        ⊎ ((e : Sent) × (node'.sent ≡ node.sent ++ e ∷ []) × Handed id iface via from_me e))

-- What drivers have been handed since `node`; the interfaces and the version stayed.
abbrev pub Logged : (Sent → Type 0) → Node → Node → Type 0
Logged Q node m = Settled node m × (new : List Sent) × (m.sent ≡ node.sent ++ new) × All Q new

pub Logged-Sends :
    (Q : Sent → Type 0) (id : CspId) (iface via : ℕ) (from_me : Bool) (node m m' : Node)
    → Logged Q node m
    → Sends id iface via from_me m m'
    → ((e : Sent) → Handed id iface via from_me e → Q e)
    → Logged Q node m'
Logged-Sends Q id iface via from_me node m m' ((b, v, o), new, log, all) ((b', v', o'), inl same)
      ok =
    ((b' ∙ b, v' ∙ v, o' ∙ o), new, same ∙ log, all)
Logged-Sends Q id iface via from_me node m m' ((b, v, o), new, log, all)
      ((b', v', o'), inr (e, more, handed)) ok =
    (
      (b' ∙ b, v' ∙ v, o' ∙ o),
      new ++ e ∷ [],
      more ∙ ap (λ l. l ++ e ∷ []) log ∙ append_assoc node.sent new (e ∷ []),
      All-append Q new (e ∷ []) all (ok e handed, tt),
    )

bares-append : (l r : List Iface) → bares (l ++ r) ≡ bares l ++ bares r
bares-append [] r = refl
bares-append (i ∷ l) r = ap (λ k. bare i ∷ k) (bares-append l r)

pub bares-known : (node m : Node) → Settled node m → bares (known m) ≡ bares (known node)
bares-known node m (b, v, o) =
    bares-append m.interfaces m.others
    ∙ ap (λ l. l ++ bares m.others) b
    ∙ ap (λ l. bares node.interfaces ++ l) o
    ∙ sym (bares-append node.interfaces node.others)

bares-count_at :
    (ptr : ℕ) (change : Iface → Iface) (interfaces : List Iface)
    → ((i : Iface) → bare (change i) ≡ bare i)
    → bares (count_at ptr change interfaces) ≡ bares interfaces
unfolding count_at
bares-count_at ptr change [] h = refl
bares-count_at ptr change (i ∷ interfaces) h = elim (Bool-cases (i.ptr == ptr)) [
  | inl here ↦ rw here (
      ap (λ b. b ∷ bares (count_at ptr change interfaces)) (h i)
      ∙ ap (λ l. bare i ∷ l) (bares-count_at ptr change interfaces h))
  | inr on ↦ rw on (ap (λ l. bare i ∷ l) (bares-count_at ptr change interfaces h))
]

fails-Sends :
    (id : CspId) (i iface ptr via : ℕ) (from_me : Bool) (node : Node)
    → Sends id ptr via from_me node (tx_err i iface node)
unfolding tx_err
fails-Sends id i iface ptr via from_me node = (
  (
    bares-count_at iface tx_failed node.interfaces (λ k. refl),
    refl,
    bares-count_at iface tx_failed node.others (λ k. refl),
  ),
  inl refl,
)

write-Sends :
    (id : CspId) (i iface ptr via : ℕ) (from_me : Bool) (node : Node)
    → Sends id ptr via from_me node (Qfifo.write (some i) (some iface) node)
unfolding Qfifo.write Qfifo.write_to
write-Sends id i iface ptr via from_me node =
    elim (Bool-cases (enqueue node.qfifo (record { iface = some iface; packet = some i })).1) [
      | inl room ↦ rw room ((refl, refl, refl), inl refl)
      | inr full ↦ rw full (
        (
          bares-count_at iface tx_failed node.interfaces (λ k. refl),
          refl,
          bares-count_at iface tx_failed node.others (λ k. refl),
        ),
        inl refl,
      )
    ]

-- A step that sends, and one that only counts behind it.
then-counts :
    (id : CspId) (ptr via : ℕ) (from_me : Bool) (node mid : Node) (iface : ℕ)
    (change : Iface → Iface)
    → ((i : Iface) → bare (change i) ≡ bare i)
    → Sends id ptr via from_me node mid
    → Sends id ptr via from_me node (count iface change mid)
then-counts id ptr via from_me node mid iface change h ((b, v, o), s) = (
  (
    bares-count_at iface change mid.interfaces h ∙ b,
    v,
    bares-count_at iface change mid.others h ∙ o,
  ),
  s,
)

-- What a packet may become keeps its identifier.
id_of_some : (a p : Packet) → a.id ≡ p.id → (q : Packet) → some a ≡ some q → q.id ≡ p.id
id_of_some a p same q e = ap (λ o. elim o [ none ↦ p.id | some b ↦ b.id ]) (sym e) ∙ same

append-id : (p q : Packet) → Crc32.append p ≡ some q → q.id ≡ p.id
unfolding Crc32.append
append-id p q e = elim (Bool-cases (ltb buffer_size (p.len + 4))) [
  | inl full ↦ absurd (none-some q (rw full at e))
  | inr room ↦ id_of_some _ p refl q (rw room at e)
]

seal-id : (from_me : Bool) (p q : Packet) → seal from_me p ≡ some q → q.id ≡ p.id
unfolding seal
seal-id false p q e = id_of_some p p refl q e
seal-id true p q e = elim (Bool-cases (bit_and p.id.flags flag_hmac == 0)) [
  | inl plain ↦ elim (Bool-cases (bit_and p.id.flags flag_crc32 == 0)) [
    | inl bare ↦ id_of_some p p refl q (rw (plain, bare) at e)
    | inr summed ↦ append-id p q (rw (plain, summed) at e)
  ]
  | inr keyed ↦ absurd (none-some q (rw keyed at e))
]

module _ (nexthop : Driver) (via : ℕ) (from_me : Bool) where
  next_hop-Sends :
      (i : ℕ) (packet : Packet) (iface : ℕ) (node : Node)
      → Sends packet.id iface via from_me node (next_hop nexthop i packet iface via from_me node).0
  unfolding next_hop
  next_hop-Sends i packet iface node = elim (Bool-cases (iface == if_lo)) [
    | inl lo ↦ rw lo (write-Sends packet.id i if_lo iface via from_me node)
    | inr line ↦ elim (Bool-cases (nexthop iface via packet from_me)) [
      | inl taken ↦ rw (line, taken) ((refl, refl, refl), inr (_, refl, (refl, refl, refl, refl)))
      | inr refused ↦ rw (line, refused) ((refl, refl, refl), inl refl)
    ]
  ]

  transmit-Sends :
      (i : ℕ) (packet : Packet) (iface : ℕ) (node : Node)
      → Sends packet.id iface via from_me node (transmit nexthop i packet iface via from_me node)
  unfolding transmit tx_err sent_bytes
  transmit-Sends i packet iface node =
      let after = next_hop-Sends i packet iface node in
      let mid : Node = (next_hop nexthop i packet iface via from_me node).0 in
      elim (Bool-cases (next_hop nexthop i packet iface via from_me node).1) [
        | inl taken ↦ rw taken (
            then-counts packet.id iface via from_me node mid iface (sent_bytes packet.len)
              (λ k. refl) after)
        | inr refused ↦ rw refused (
            then-counts packet.id iface via from_me node (free_packet (some i) mid) iface tx_failed
              (λ k. refl) after)
      ]

  sealed-Sends :
      (id : CspId) (i : ℕ) (o : Option Packet) (iface : ℕ) (node : Node)
      → ((q : Packet) → o ≡ some q → q.id ≡ id)
      → Sends id iface via from_me node (send_sealed nexthop i o iface via from_me node)
  unfolding send_sealed
  sealed-Sends id i none iface node same = fails-Sends id i iface iface via from_me node
  sealed-Sends id i (some packet) iface node same =
      subst
        (λ d.
          Sends d iface via from_me node
            (transmit nexthop i packet iface via from_me (store_at i packet node)))
        (same packet refl) (transmit-Sends i packet iface (store_at i packet node))

  noted-Sends :
      (id : CspId) (i : ℕ) (o : Option Packet) (iface : ℕ) (node : Node)
      → ((q : Packet) → o ≡ some q → q.id ≡ id)
      → Sends id iface via from_me node
          (send_sealed nexthop i o iface via from_me (note_hmac from_me id node))
  unfolding note_hmac
  noted-Sends id i o iface node same =
      elim (Bool-cases (from_me && not (bit_and id.flags flag_hmac == 0))) [
        | inl asked ↦ rw asked (sealed-Sends id i o iface (fail_with unsupported node) same)
        | inr plain ↦ rw plain (sealed-Sends id i o iface node same)
      ]

  found-Sends :
      (id : CspId) (i : ℕ) (o : Option Packet) (iface : ℕ) (node : Node)
      → Sends id iface via from_me node (send_found nexthop id i o iface via from_me node)
  unfolding send_found id_copy
  found-Sends id i none iface node = ((refl, refl, refl), inl refl)
  found-Sends id i (some p) iface node =
      noted-Sends id i (seal from_me (record p { id = id })) iface
        (store_at i (record p { id = id }) node) (seal-id from_me (record p { id = id }))

  -- A call hands its interface's driver one packet at most, under the identifier given; it changes
  -- no interface but for its counters.
  pub send_direct_iface-Sends :
      (id : CspId) (i iface : ℕ) (node : Node)
      → Sends id iface via from_me node (send_direct_iface nexthop id i iface via from_me node)
  unfolding send_direct_iface
  send_direct_iface-Sends id i iface node = found-Sends id i (packet_at i node) iface node

  cloned-Sends :
      (id : CspId) (copy : Option ℕ) (iface : ℕ) (node : Node)
      → Sends id iface via from_me node (send_cloned nexthop id copy iface via from_me node)
  unfolding send_cloned
  cloned-Sends id none iface node = ((refl, refl, refl), inl refl)
  cloned-Sends id (some i) iface node = send_direct_iface-Sends id i iface node

  pub send_copy-Sends :
      (id : CspId) (packet iface : ℕ) (node : Node)
      → Sends id iface via from_me node (send_copy nexthop id packet iface via from_me node)
  unfolding send_copy
  send_copy-Sends id packet iface node =
      cloned-Sends id (clone (some packet) node.pool).1 iface
        (record node { pool = (clone (some packet) node.pool).0 })
