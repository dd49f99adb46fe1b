-- ===== src/Io/Addresses.antt =====
-- csp_io.c: csp_send_direct, and the identifiers that a packet leaves under.
use libcsp_dphi.Base.{
  ℕ, ◌≡◌, ◌≢◌, ◌∙◌, ◌⊎◌, refl, sym, ap, subst, append-nil, Bool, true, Bool-cases, inl, inr, Option,
  none, some, [], get_elem?,
}
use libcsp_dphi.Packet.{CspId}
use libcsp_dphi.Iface.{Iface}
use libcsp_dphi.Id.{is_broadcast, get_max_nodeid}
use libcsp_dphi.Iflist.{get_by_subnet}
use libcsp_dphi.Node.{Node, Sent, if_lo, iface_at}
use libcsp_dphi.Io.{Driver, no_via, send_direct_iface}
use libcsp_dphi.Io.Direct.{is_none, is_loopback, send_copy, send_direct}
use libcsp_dphi.Io.Loops.{Member, send_locally_rule}
use libcsp_dphi.Io.Sends.{
  bare, Handed, Logged, Logged-Sends, send_copy-Sends, send_direct_iface-Sends,
}
use libcsp_dphi.Io.Horizon.{Member-Settled}

-- An address that is a broadcast on the subnet of one of the interfaces.
abbrev pub Broadcast : Node → ℕ → Type 0
Broadcast node dst =
    (k : ℕ) × (i : Iface) × (get_elem? node.interfaces k ≡ some i)
    × (is_broadcast node.version dst i ≡ true)

-- Where a packet for `dst` goes: there, or to everyone if it is a broadcast.
abbrev pub Destined : Node → ℕ → ℕ → Type 0
Destined node dst to = (to ≡ dst) ⊎ ((to ≡ get_max_nodeid node.version) × Broadcast node dst)

-- An identifier that stands for `idout` on the line: the same but for a source that was missing and
-- for a broadcast.
abbrev pub StandsFor : Node → CspId → CspId → Type 0
StandsFor node idout id =
    (id.pri ≡ idout.pri)
    × (id.flags ≡ idout.flags)
    × (id.dport ≡ idout.dport)
    × (id.sport ≡ idout.sport)
    × (idout.src ≢ 0 → id.src ≡ idout.src)
    × Destined node idout.dst id.dst

pub is_broadcast-bare :
    (version dst : ℕ) (i j : Iface)
    → bare j ≡ bare i
    → is_broadcast version dst j ≡ is_broadcast version dst i
unfolding is_broadcast
is_broadcast-bare version dst i j same = ap (λ b. is_broadcast version dst b) same

module _ (nexthop : Driver) (idout : CspId) (node : Node) where
  abbrev Ok : Sent → Type 0
  Ok e = StandsFor node idout e.packet.id

  Ok-owned :
      (id : CspId) (src : ℕ)
      → (idout.src ≢ 0 → id.src ≢ 0 → src ≡ id.src)
      → StandsFor node idout id
      → StandsFor node idout (record id { src = src })
  Ok-owned id src kept (pri, flags, dport, sport, source, dst) =
      (pri, flags, dport, sport, λ ne. kept ne (λ z. ne (sym (source ne) ∙ z)) ∙ source ne, dst)

  Ok-cast :
      (id : CspId) (i : Iface) (m : Node)
      → Member i m.interfaces
      → is_broadcast m.version idout.dst i ≡ true
      → Logged Ok node m
      → StandsFor node idout id
      → StandsFor node idout (record id { dst = get_max_nodeid m.version })
  Ok-cast id i m known all h (pri, flags, dport, sport, source, dst) =
      let (k, j, found, same) = Member-Settled node.interfaces m.interfaces i h.0.0 known in
      (
        pri,
        flags,
        dport,
        sport,
        source,
        inr (
          ap get_max_nodeid h.0.1,
          (
            k,
            j,
            found,
            is_broadcast-bare node.version idout.dst i j same
                ∙ ap (λ v. is_broadcast v idout.dst i) (sym h.0.1)
                ∙ all,
          ),
        ),
      )

  Handed-Ok :
      (id : CspId) (iface via : ℕ) (from_me : Bool) (e : Sent)
      → StandsFor node idout id
      → Handed id iface via from_me e
      → Ok e
  Handed-Ok id iface via from_me e ok handed = subst (StandsFor node idout) (sym handed.3) ok

  itself : StandsFor node idout idout
  itself = (refl, refl, refl, refl, λ ne. refl, inl refl)

  start-Logged : Logged Ok node node
  start-Logged = ((refl, refl, refl), [], sym (append-nil node.sent), tt)

  copy-Logged :
      (packet via : ℕ) (from_me : Bool) (id : CspId) (i : Iface) (m : Node)
      → StandsFor node idout id
      → Logged Ok node m
      → Logged Ok node (send_copy nexthop id packet i.ptr via from_me m)
  copy-Logged packet via from_me id i m ok h =
      Logged-Sends Ok id i.ptr via from_me node m (send_copy nexthop id packet i.ptr via from_me m)
        h (send_copy-Sends nexthop via from_me id packet i.ptr m)
        (λ e handed. Handed-Ok id i.ptr via from_me e ok handed)

  pub send_direct-Logged :
      (packet : ℕ) (routed_from : Option ℕ)
      → Logged Ok node (send_direct nexthop idout packet routed_from node).1
  unfolding send_direct
  send_direct-Logged packet routed_from =
      elim (Bool-cases (is_loopback idout (iface_at if_lo node))) [
        | inl lo ↦ rw lo (
            Logged-Sends Ok idout if_lo no_via (is_none routed_from) node node
              (send_direct_iface nexthop idout packet if_lo no_via (is_none routed_from) node)
              start-Logged
              (send_direct_iface-Sends nexthop no_via (is_none routed_from) idout packet if_lo node)
              (λ e handed. Handed-Ok idout if_lo no_via (is_none routed_from) e itself handed))
        | inr away ↦ rw away (
            send_locally_rule nexthop packet routed_from idout (Logged Ok node)
              (StandsFor node idout) Ok-owned Ok-cast
              (λ id i via m ok known free h.
                copy-Logged packet via (is_none routed_from) id i m ok h)
              (Logged Ok node) (λ m h. h)
              (get_by_subnet node.version idout.dst none node.interfaces) node itself start-Logged)
      ]
