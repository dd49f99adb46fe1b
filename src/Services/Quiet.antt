-- ===== src/Services/Quiet.antt =====
-- csp_service_handler.c: what the requests of the management protocol leave alone.
use libcsp_dphi.Base.{
  le32, ℕ, ◌≡◌, refl, Bool, true, false, Bool-cases, inl, inr, ◌==◌, ltb, Option, none, some, List,
  of_be,
}
use libcsp_dphi.Packet.{Packet, CspId}
use libcsp_dphi.Iface.{Iface}
use libcsp_dphi.Rtable
use libcsp_dphi.Node.{Node}
use libcsp_dphi.Io.Sends.{Settled}
use libcsp_dphi.Services.Cmp.{
  Conf, Hooks, Reply, Request, cmp_ident, cmp_route_set_v1, cmp_route_set_v2, cmp_if_stats,
  cmp_peek, cmp_poke, cmp_clock, cmp_unknown, request_of, routed, set_route, stats_of, do_ident,
  do_route_set_v1, do_route_set_v2, do_if_stats, do_peek, do_poke, read_clock, do_clock, by_code,
  cmp_handler, put, byte_at, bytes_at, named, max_len,
}

-- Nothing is handed to a driver, and the interfaces and the version stay.
abbrev pub Still : Node → Node → Type 0
Still node m = Settled node m × (m.sent ≡ node.sent)

-- Hooks that send nothing, and leave the interfaces and a packet's identifier alone.
pub record AreQuiet (hooks : Hooks) : Type 0 where
  pub reboot : (node : Node) → Still node (hooks.reboot node)
  pub shutdown : (node : Node) → Still node (hooks.shutdown node)
  pub poke :
      (addr : ℕ) (bytes : List ℕ) (p : Packet) (node : Node)
      → ((hooks.poke addr bytes p node).0.id ≡ p.id) × Still node (hooks.poke addr bytes p node).1
  pub set_time : (sec nsec : ℕ) (node : Node) → Still node (hooks.set_time sec nsec node).0
  pub ps : (p : Packet) → (hooks.ps p).0.id ≡ p.id

pub still : (node : Node) → Still node node
still node = ((refl, refl, refl), refl)

-- What a request leaves in the packet and in the node.
abbrev pub Keeps : CspId → Node → Reply → Type 0
Keeps id node r = (r.0.id ≡ id) × Still node r.1

routed-Keeps :
    (p : Packet) (node : Node) (o : Option (Rtable.Table × Bool))
    → Keeps p.id node (routed p node o)
unfolding routed
routed-Keeps p node none = (refl, still node)
routed-Keeps p node (some (routes, inside)) = (refl, still node)

set_route-Keeps :
    (dest netmask via : ℕ) (o : Option Iface) (p : Packet) (node : Node)
    → Keeps p.id node (set_route dest netmask via o p node)
unfolding set_route
set_route-Keeps dest netmask via none p node = (refl, still node)
set_route-Keeps dest netmask via (some i) p node =
    routed-Keeps p node
      (Rtable.set_route node.version dest (some netmask) (some i.ptr) via node.routes)

stats-Keeps : (o : Option Iface) (p : Packet) (node : Node) → Keeps p.id node (stats_of o p node)
unfolding stats_of
stats-Keeps none p node = (refl, still node)
stats-Keeps (some i) p node = (refl, still node)

module _ (conf : Conf) (hooks : Hooks) (quiet : AreQuiet hooks) where
  clock-Keeps :
      (p : Packet) (node : Node) (r : Node × Bool)
      → Still node r.0
      → Keeps p.id node (read_clock hooks p r)
  unfolding read_clock
  clock-Keeps p node (m, true) h = (refl, h)
  clock-Keeps p node (m, false) h = (refl, h)

  code-Keeps :
      (request : Request) (p : Packet) (node : Node)
      → Keeps p.id node (by_code conf hooks request p node)
  unfolding by_code do_ident do_route_set_v1 do_route_set_v2 do_if_stats do_peek do_poke do_clock
  code-Keeps cmp_ident p node = (refl, still node)
  code-Keeps cmp_route_set_v1 p node = set_route-Keeps _ _ _ (named 4 p node) p node
  code-Keeps cmp_route_set_v2 p node = set_route-Keeps _ _ _ (named 8 p node) p node
  code-Keeps cmp_if_stats p node = stats-Keeps (named 2 p node) p node
  code-Keeps cmp_peek p node = elim (Bool-cases (ltb max_len (byte_at 6 p))) [
    | inl long ↦ rw long (refl, still node)
    | inr fits ↦ rw fits (refl, still node)
  ]
  code-Keeps cmp_poke p node = elim (Bool-cases (ltb max_len (byte_at 6 p))) [
    | inl long ↦ rw long (refl, still node)
    | inr fits ↦ rw fits (
        quiet.poke (of_be (bytes_at 2 4 p)) (bytes_at 7 (byte_at 6 p) p)
          (put 2 (le32 (of_be (bytes_at 2 4 p))) p) node)
  ]
  code-Keeps cmp_clock p node = elim (Bool-cases (of_be (bytes_at 2 4 p) == 0)) [
    | inl unset ↦ rw unset (clock-Keeps p node (node, true) (still node))
    | inr given ↦ rw given (
        clock-Keeps p node _
          (quiet.set_time (of_be (bytes_at 2 4 p)) (of_be (bytes_at 6 4 p)) node))
  ]
  code-Keeps cmp_unknown p node = (refl, still node)

  pub cmp-Keeps : (p : Packet) (node : Node) → Keeps p.id node (cmp_handler conf hooks p node)
  unfolding cmp_handler
  cmp-Keeps p node = elim (Bool-cases (byte_at 0 p == 0)) [
    | inl asked ↦ rw asked (code-Keeps (request_of (byte_at 1 p)) p node)
    | inr other ↦ rw other (refl, still node)
  ]
