-- ===== src/Services/Takes.antt =====
-- csp_service_handler takes over the request: every branch answers with it or frees it.
use libcsp_dphi.Base.{
  arith, le32, ℕ, ◌<◌, ◌≡◌, ◌∙◌, refl, sym, subst, Bool, true, false, Bool-cases, Option-cases, inl,
  inr, ◌==◌, ltb, Option, none, some, get_elem?, u16, of_be,
}
use libcsp_dphi.Packet.{Packet}
use libcsp_dphi.Iface.{Iface}
use libcsp_dphi.Rtable
use libcsp_dphi.Buffer.{Buffer, remaining}
use libcsp_dphi.Buffer.Invariant.{IsBalanced}
use libcsp_dphi.Node.{Node, if_lo, iface_at, packet_at, packet_of, store_at, free_packet}
use libcsp_dphi.Io.{Driver}
use libcsp_dphi.Io.Direct.{is_loopback}
use libcsp_dphi.Io.References.{refs, refs_of}
use libcsp_dphi.Io.Replies.{packet_at-store_at}
use libcsp_dphi.Route.Balance.{store-IsBalanced}
use libcsp_dphi.Services.{
  Service, service_cmp, service_ping, service_ps, service_memfree, service_reboot, service_buf_free,
  service_uptime, service_none, service_of, reboot_magic, shutdown_magic, reply_in, reply_number,
  answered, processes, restart, serve, serve_found, handler, numbered,
}
use libcsp_dphi.Services.Cmp.{
  Conf, Hooks, Reply, Request, cmp_ident, cmp_route_set_v1, cmp_route_set_v2, cmp_if_stats,
  cmp_peek, cmp_poke, cmp_clock, cmp_unknown, request_of, routed, set_route, stats_of, do_ident,
  do_route_set_v1, do_route_set_v2, do_if_stats, do_peek, do_poke, read_clock, do_clock, by_code,
  cmp_handler, put, byte_at, bytes_at, named, max_len,
}
use libcsp_dphi.Services.Ping.{answer_id}
use libcsp_dphi.Services.Quiet.{cmp-Keeps}
use libcsp_dphi.Services.Releases.{
  Releases, Aside, AreTidy, beside, store-Aside, free-Releases, after-Releases, reply-Releases,
}
use libcsp_dphi.Services.Steady.{cmp-Kept}

routed-Aside :
    (p : Packet) (node : Node) (o : Option (Rtable.Table × Bool)) → Aside node (routed p node o).1
unfolding routed iface_at
routed-Aside p node none = beside node
routed-Aside p node (some (routes, inside)) = beside node

set_route-Aside :
    (dest netmask via : ℕ) (o : Option Iface) (p : Packet) (node : Node)
    → Aside node (set_route dest netmask via o p node).1
unfolding set_route
set_route-Aside dest netmask via none p node = beside node
set_route-Aside dest netmask via (some i) p node =
    routed-Aside p node
      (Rtable.set_route node.version dest (some netmask) (some i.ptr) via node.routes)

stats-Aside : (o : Option Iface) (p : Packet) (node : Node) → Aside node (stats_of o p node).1
unfolding stats_of
stats-Aside none p node = beside node
stats-Aside (some i) p node = beside node

absent-refs : (o : Option Buffer) → packet_of o ≡ none → refs_of o ≡ 0
absent-refs none e = refl
absent-refs (some b) e = cc

irrefl : (n : ℕ) → ¬ (n < n)
irrefl n h = omega (arith, h)

module _ (conf : Conf) (hooks : Hooks) (tidy : AreTidy hooks) where
  clock-Aside :
      (p : Packet) (node : Node) (r : Node × Bool)
      → Aside node r.0
      → Aside node (read_clock hooks p r).1
  unfolding read_clock iface_at
  clock-Aside p node (m, true) h = h
  clock-Aside p node (m, false) h = h

  code-Aside :
      (request : Request) (p : Packet) (node : Node)
      → Aside node (by_code conf hooks request p node).1
  unfolding by_code do_ident do_route_set_v1 do_route_set_v2 do_if_stats do_peek do_poke do_clock
  code-Aside cmp_ident p node = beside node
  code-Aside cmp_route_set_v1 p node = set_route-Aside _ _ _ (named 4 p node) p node
  code-Aside cmp_route_set_v2 p node = set_route-Aside _ _ _ (named 8 p node) p node
  code-Aside cmp_if_stats p node = stats-Aside (named 2 p node) p node
  code-Aside cmp_peek p node = elim (Bool-cases (ltb max_len (byte_at 6 p))) [
    | inl long ↦ rw long (beside node)
    | inr fits ↦ rw fits (beside node)
  ]
  code-Aside cmp_poke p node = elim (Bool-cases (ltb max_len (byte_at 6 p))) [
    | inl long ↦ rw long (beside node)
    | inr fits ↦ rw fits (
        tidy.poke (of_be (bytes_at 2 4 p)) (bytes_at 7 (byte_at 6 p) p)
          (put 2 (le32 (of_be (bytes_at 2 4 p))) p) node)
  ]
  code-Aside cmp_clock p node = elim (Bool-cases (of_be (bytes_at 2 4 p) == 0)) [
    | inl unset ↦ rw unset (clock-Aside p node (node, true) (beside node))
    | inr given ↦ rw given (
        clock-Aside p node _ (tidy.set_time (of_be (bytes_at 2 4 p)) (of_be (bytes_at 6 4 p)) node))
  ]
  code-Aside cmp_unknown p node = beside node

  cmp-Aside : (p : Packet) (node : Node) → Aside node (cmp_handler conf hooks p node).1
  unfolding cmp_handler
  cmp-Aside p node = elim (Bool-cases (byte_at 0 p == 0)) [
    | inl asked ↦ rw asked (code-Aside (request_of (byte_at 1 p)) p node)
    | inr other ↦ rw other (beside node)
  ]

  module _ (nexthop : Driver) (i : ℕ) (p : Packet) (node : Node) (v : IsBalanced node.pool)
      (used : 0 < refs node.pool i) (found : packet_at i node ≡ some p)
      (away : is_loopback (answer_id node.version p.id) (iface_at if_lo node) ≡ false) where
    freed-Releases :
        (m : Node)
        → IsBalanced m.pool
        → Aside node m
        → Releases i node.pool (free_packet (some i) m).pool
    freed-Releases m w aside =
        after-Releases i node m (free_packet (some i) m).pool aside
          (free-Releases i m w (subst (λ n. 0 < n) (sym (aside.0 i)) used))

    stored-Aside : (q : Packet) (m : Node) → Aside node m → Aside node (store_at i q m)
    unfolding iface_at
    stored-Aside q m (kept, lo) = (λ j. (store-Aside i q m).0 j ∙ kept j, lo)

    in-Releases :
        (q : Packet) (m : Node)
        → IsBalanced m.pool
        → Aside node m
        → q.id ≡ p.id
        → Releases i node.pool (reply_in nexthop conf hooks i q m).pool
    unfolding reply_in
    in-Releases q m w aside same = elim (Option-cases (packet_at i m)) [
      | inl missing ↦ absurd (
          irrefl 0 (
            subst (λ n. 0 < n) (sym (aside.0 i) ∙ absent-refs (get_elem? m.pool.buffers i) missing)
              used))
      | inr (r, here) ↦
          reply-Releases nexthop i p.id node used away (store_at i q m) q (store-IsBalanced i q m w)
            (stored-Aside q m aside) (packet_at-store_at i q r m here) same
    ]

    answered-Releases :
        (r : Reply)
        → IsBalanced r.1.pool
        → Aside node r.1
        → r.0.id ≡ p.id
        → Releases i node.pool (answered nexthop conf hooks i r).pool
    unfolding answered
    answered-Releases (q, m, true) w aside same = in-Releases q m w aside same
    answered-Releases (q, m, false) w aside same =
        freed-Releases (store_at i q m) (store-IsBalanced i q m w) (stored-Aside q m aside)

    restart-Releases :
        (word : ℕ) → Releases i node.pool (restart nexthop conf hooks i word node).pool
    unfolding restart
    restart-Releases word = elim (Bool-cases (word == reboot_magic)) [
      | inl reboot ↦ rw reboot (freed-Releases _ (tidy.steady.reboot node v) (tidy.reboot node))
      | inr other ↦ elim (Bool-cases (word == shutdown_magic)) [
        | inl off ↦
            rw (other, off) (freed-Releases _ (tidy.steady.shutdown node v) (tidy.shutdown node))
        | inr wrong ↦ rw (other, wrong) (freed-Releases node v (beside node))
      ]
    ]

    ps-Releases : Releases i node.pool (processes nexthop conf hooks i (hooks.ps p) node).pool
    unfolding processes
    ps-Releases =
        let (q, len) = hooks.ps p in
        let listed : Packet = record q { len = u16 len } in
        rw (tidy.lists p) (
          reply-Releases nexthop i p.id node used away (store_at i listed node) listed
            (store-IsBalanced i listed node v) (stored-Aside listed node (beside node))
            (packet_at-store_at i listed p node found) (tidy.quiet.ps p))

    serve-Releases : (s : Service) → Releases i node.pool (serve nexthop conf hooks i s p node).pool
    unfolding serve reply_number numbered
    serve-Releases service_cmp =
        answered-Releases (cmp_handler conf hooks p node) (cmp-Kept conf hooks tidy.steady p node v)
          (cmp-Aside p node) (cmp-Keeps conf hooks tidy.quiet p node).0
    serve-Releases service_ping =
        reply-Releases nexthop i p.id node used away node p v (beside node) found refl
    serve-Releases service_ps = ps-Releases
    serve-Releases service_memfree =
        in-Releases (numbered hooks.memfree p) node v (beside node) refl
    serve-Releases service_reboot = restart-Releases (of_be (bytes_at 0 4 p))
    serve-Releases service_buf_free =
        in-Releases (numbered (remaining node.pool) p) node v (beside node) refl
    serve-Releases service_uptime = in-Releases (numbered hooks.get_s p) node v (beside node) refl
    serve-Releases service_none = freed-Releases node v (beside node)

-- csp_service_handler takes exactly one reference of the request that it is given, on every branch:
-- whatever service is asked, and of none, the packet has one reference fewer afterwards, and no other
-- packet in use gains or loses one. The pool is balanced before, the answer is not for the loopback
-- interface, the hooks leave the references and the loopback alone and keep the pool balanced, send
-- nothing and leave the interfaces and the version alone, keep the identifier of the packet, and the
-- platform has a list of processes that is not empty.
pub handler-Releases :
    (nexthop : Driver) (conf : Conf) (hooks : Hooks) (i : ℕ) (p : Packet) (node : Node)
    → AreTidy hooks
    → IsBalanced node.pool
    → packet_at i node ≡ some p
    → 0 < refs node.pool i
    → is_loopback (answer_id node.version p.id) (iface_at if_lo node) ≡ false
    → Releases i node.pool (handler nexthop conf hooks i node).pool
unfolding handler serve_found
handler-Releases nexthop conf hooks i p node tidy v found used away =
    rw found
      (serve-Releases conf hooks tidy nexthop i p node v used found away (service_of p.id.dport))
