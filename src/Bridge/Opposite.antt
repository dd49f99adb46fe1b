-- ===== src/Bridge/Opposite.antt =====
-- csp_bridge_work: a packet leaves on the other interface.
use libcsp_dphi.Base.{
  ℕ, ◌≡◌, ◌≢◌, ◌∙◌, ◌⊎◌, refl, sym, ap, Bool, true, false, Bool-cases, Option-cases, inl, inr, ◌==◌,
  ==_from, ==_iff, Option, none, some, [], ◌∷◌, ◌++◌,
}
use libcsp_dphi.Packet.{Packet}
use libcsp_dphi.Dedup.{Seen, is_duplicate}
use libcsp_dphi.Queue.{dequeue}
use libcsp_dphi.Qfifo
use libcsp_dphi.Node.{Node, Sent, Input, packet_at, store_at}
use libcsp_dphi.Io.{Driver, no_via}
use libcsp_dphi.Io.Sends.{send_direct_iface-Sends}
use libcsp_dphi.Bridge.{destif, pass_new, pass_packet, pass_input, work}

-- At most one packet is handed over, on this interface, as one that is not of this node.
abbrev pub Passes : ℕ → Node → Node → Type 0
Passes dest node node' =
    (node'.sent ≡ node.sent)
    ⊎ ((e : Sent) × (node'.sent ≡ node.sent ++ e ∷ [])
        × (e.iface ≡ dest)
        × (e.via ≡ no_via)
        × (e.from_me ≡ false))

module _ (nexthop : Driver) (dest : ℕ) where
  new-Passes :
      (i : ℕ) (r : Packet × Seen × Bool) (node : Node)
      → Passes dest node (pass_new nexthop dest i r node)
  unfolding pass_new
  new-Passes i (packet, seen, true) node = inl refl
  new-Passes i (packet, seen, false) node =
      elim (send_direct_iface-Sends nexthop no_via false packet.id i dest
        (store_at i packet (record node { seen = seen }))).1 [
          | inl same ↦ inl same
          | inr (e, more, handed) ↦ inr (e, more, handed.0, handed.1, handed.2)
        ]

  packet-Passes :
      (now i : ℕ) (o : Option Packet) (node : Node)
      → Passes dest node (pass_packet nexthop now dest i o node)
  unfolding pass_packet
  packet-Passes now i none node = inl refl
  packet-Passes now i (some packet) node =
      new-Passes i (is_duplicate node.version now packet node.seen) node

destif_lem :
    (a b : ℕ) (from : Option ℕ)
    → ((from ≡ some a) × (destif a b from ≡ b)) ⊎ ((from ≢ some a) × (destif a b from ≡ a))
unfolding destif
destif_lem a b none = inr (λ p. cc, refl)
destif_lem a b (some other) = elim (Bool-cases (a == other)) [
  | inl same ↦ inl (ap some (sym ((==_iff a other).0 same)), rw same refl)
  | inr differ ↦ inr (λ p. apart (some_eq p) differ, rw differ refl)
]
  where
    some_eq : some other ≡ some a → other ≡ a
    some_eq p = cc

    apart : other ≡ a → ¬ ((a == other) ≡ false)
    apart p h = cc (sym (==_from a other (sym p)) ∙ h)

-- What a read of the input leads to.
abbrev pub Led : ℕ → ℕ → Option Input → Node → Node → Type 0
Led a b input node node' =
    (node'.sent ≡ node.sent)
    ⊎ ((from : Option ℕ) × (i : ℕ) × (e : Sent) × (input
          ≡ some (record { iface = from; packet = some i }))
        × (node'.sent ≡ node.sent ++ e ∷ [])
        × (((from ≡ some a) × (e.iface ≡ b)) ⊎ ((from ≢ some a) × (e.iface ≡ a)))
        × (e.from_me ≡ false))

input-Led :
    (nexthop : Driver) (now a b : ℕ) (o : Option Input) (node : Node)
    → Led a b o node (pass_input nexthop now a b o node)
unfolding pass_input
input-Led nexthop now a b none node = inl refl
input-Led nexthop now a b (some input) node = elim (Option-cases input.packet) [
  | inl e ↦ rw e (inl refl)
  | inr (i, e) ↦
      let dest = destif a b input.iface in
      rw e (elim (packet-Passes nexthop dest now i (packet_at i node) node) [
        | inl same ↦ inl same
        | inr (s, more, iface, via, from_me) ↦ inr (
          input.iface,
          i,
          s,
          refl,
          more,
          elim (destif_lem a b input.iface) [
            | inl (p, q) ↦ inl (p, iface ∙ q)
            | inr (p, q) ↦ inr (p, iface ∙ q)
          ],
          from_me,
        )
      ])
]

-- The bridge between two interfaces hands a driver one packet at most for each that it reads. It is
-- handed to the interface that the packet did not come from: to the second one if it came from the
-- first, and otherwise to the first; and as a packet that is not of this node.
pub work-Led :
    (nexthop : Driver) (now a b : ℕ) (node : Node)
    → Led a b
        (Qfifo.read node).1
        node
        (work nexthop now (record { bif_a = some a; bif_b = some b }) node)
unfolding work Qfifo.read
work-Led nexthop now a b node =
    input-Led nexthop now a b (dequeue node.qfifo).1
      (record node { qfifo = (dequeue node.qfifo).0 })
