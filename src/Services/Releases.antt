-- ===== src/Services/Releases.antt =====
-- csp_service_handler.c: the reference of the request, which the handler takes over.
use libcsp_dphi.Base.{
  ℕ, ◌+◌, ◌<◌, ◌≡◌, ◌≢◌, ◌∙◌, refl, sym, ap, arith, subst, true, false, Bool-cases, inl, inr, ◌==◌,
  ==_iff, ==_from, Option, none, some, List, get_elem?, u16,
}
use libcsp_dphi.Packet.{Packet, CspId}
use libcsp_dphi.Iface.{Iface}
use libcsp_dphi.Buffer.{Buffer, Pool}
use libcsp_dphi.Buffer.Count.{buffer_at}
use libcsp_dphi.Buffer.Invariant.{IsBalanced}
use libcsp_dphi.Node.{Node, if_lo, iface_at, packet_at, store_found, store_at, free_packet}
use libcsp_dphi.Io.{Driver}
use libcsp_dphi.Io.Direct.{is_loopback, send_direct}
use libcsp_dphi.Io.Api.{sendto_id, sendto_reply, opt_same, reply_id}
use libcsp_dphi.Io.References.{refs, refs_of, refs-set, free-refs}
use libcsp_dphi.Io.Takes.{send_direct-refs}
use libcsp_dphi.Route.Balance.{store-IsBalanced}
use libcsp_dphi.Services.Cmp.{Hooks}
use libcsp_dphi.Services.Ping.{answer_id, sendto_reply-same}
use libcsp_dphi.Services.Quiet.{AreQuiet}
use libcsp_dphi.Services.Steady.{AreSteady}

-- The packet `i` loses one reference, and no other packet in use loses or gains any.
abbrev pub Releases : ℕ → Pool → Pool → Type 0
Releases i pool pool' =
    (refs pool' i + 1 ≡ refs pool i)
    × ((j : ℕ) → i ≢ j → 0 < refs pool j → refs pool' j ≡ refs pool j)

-- The references of the packets and the address of the loopback stay.
abbrev pub Aside : Node → Node → Type 0
Aside node m =
    ((j : ℕ) → refs m.pool j ≡ refs node.pool j) × (iface_at if_lo m ≡ iface_at if_lo node)

-- Hooks that leave the references and the loopback alone, keep the pool balanced, send nothing and
-- keep the identifier of a packet, and a list of processes that is not empty.
pub record AreTidy (hooks : Hooks) : Type 0 where
  pub steady : AreSteady hooks
  pub quiet : AreQuiet hooks
  pub reboot : (node : Node) → Aside node (hooks.reboot node)
  pub shutdown : (node : Node) → Aside node (hooks.shutdown node)
  pub poke :
      (addr : ℕ) (bytes : List ℕ) (p : Packet) (node : Node)
      → Aside node (hooks.poke addr bytes p node).1
  pub set_time : (sec nsec : ℕ) (node : Node) → Aside node (hooks.set_time sec nsec node).0
  pub lists : (p : Packet) → (u16 (hooks.ps p).1 == 0) ≡ false

pub beside : (node : Node) → Aside node node
beside node = (λ j. refl, refl)

store_found-refs :
    (i : ℕ) (p : Packet) (o : Option Buffer) (pool : Pool) (j : ℕ)
    → buffer_at pool i ≡ o
    → refs (store_found i p o pool) j ≡ refs pool j
store_found-refs i p none pool j f = refl
store_found-refs i p (some b) pool j f =
    let c : Buffer = record b { packet = p } in
    let (mine, others) = refs-set pool (store_found i p (some b) pool) i b c f refl in
    elim (Bool-cases (i == j)) [
      | inl same ↦
          let e : i ≡ j = (==_iff i j).0 same in
          ap (refs (store_found i p (some b) pool)) (sym e)
          ∙ mine
          ∙ sym (ap refs_of f)
          ∙ ap (refs pool) e
      | inr other ↦ others j (λ e. true-false (sym (==_from i j e) ∙ other))
    ]
  where
    true-false : ¬ (true ≡ false)
    true-false h = cc

pub store-Aside : (i : ℕ) (p : Packet) (node : Node) → Aside node (store_at i p node)
unfolding iface_at
store-Aside i p node =
    (λ j. store_found-refs i p (get_elem? node.pool.buffers i) node.pool j refl, refl)

pub free-Releases :
    (i : ℕ) (node : Node)
    → IsBalanced node.pool
    → 0 < refs node.pool i
    → Releases i node.pool (free_packet (some i) node).pool
free-Releases i node v used =
    let (mine, others) = free-refs node.pool i v in (omega (arith, mine), λ j ne _. others j ne)

-- What comes before leaves the references.
pub after-Releases :
    (i : ℕ) (node m : Node) (pool : Pool)
    → Aside node m
    → Releases i m.pool pool
    → Releases i node.pool pool
after-Releases i node m pool (kept, lo) (mine, others) =
    (mine ∙ kept i, λ j ne used. others j ne (subst (λ n. 0 < n) (sym (kept j)) used) ∙ kept j)

loopback-version :
    (v w : ℕ) (id : CspId) (o : Option Iface)
    → is_loopback (answer_id v id) o ≡ is_loopback (answer_id w id) o
unfolding sendto_id
loopback-version v w id none = refl
loopback-version v w id (some lo) = refl

module _ (nexthop : Driver) (i : ℕ) (id : CspId) (node : Node) (used : 0 < refs node.pool i)
    (away : is_loopback (answer_id node.version id) (iface_at if_lo node) ≡ false) where
  -- A reply takes over the reference of the packet that it is in.
  pub reply-Releases :
      (m : Node) (p : Packet)
      → IsBalanced m.pool
      → Aside node m
      → packet_at i m ≡ some p
      → p.id ≡ id
      → Releases i node.pool (sendto_reply nexthop i i opt_same m).pool
  unfolding iface_at
  reply-Releases m p v aside here same =
      let first : Packet = record p { id = reply_id m.version opt_same p.id p.id } in
      let second : Packet = record p { id = answer_id m.version p.id } in
      let one : Node = store_at i first m in
      let two : Node = store_at i second one in
      let (kept, lo) = aside in
      let balanced = store-IsBalanced i second one (store-IsBalanced i first m v) in
      let there : Aside node two =
        (λ j. (store-Aside i second one).0 j ∙ (store-Aside i first m).0 j ∙ kept j, lo) in
      let free_of : is_loopback (answer_id m.version p.id) (iface_at if_lo two) ≡ false =
        ap (λ d. is_loopback (answer_id m.version d) (iface_at if_lo two)) same
        ∙ ap (is_loopback (answer_id m.version id)) lo
        ∙ loopback-version m.version node.version id (iface_at if_lo node)
        ∙ away in
      let (whole, mine, others) =
        send_direct-refs nexthop (answer_id m.version p.id) i none two balanced free_of
          (subst (λ n. 0 < n) (sym (there.0 i)) used) in
      subst (λ (n : Node). Releases i node.pool n.pool) (sym (sendto_reply-same nexthop i p m here))
        (after-Releases i node two
          (send_direct nexthop (answer_id m.version p.id) i none two).1.pool there (mine, others))
