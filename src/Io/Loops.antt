-- ===== src/Io/Loops.antt =====
-- csp_send_direct: what every copy that is sent keeps, the loops keep.
use libcsp_dphi.Base.{
  ℕ, zero, suc, ◌≡◌, refl, ◌≢◌, Bool, true, false, ◌&&◌, if◌then◌else◌, Bool-cases, and_true,
  ==_iff, Option-cases, inl, inr, Option, none, some, length, get_elem?, List, [], ◌∷◌, ◌++◌, ◌==◌,
}
use libcsp_dphi.Packet.{CspId}
use libcsp_dphi.Iface.{Iface}
use libcsp_dphi.Id.{is_broadcast, get_max_nodeid}
use libcsp_dphi.Iflist.{get_by_subnet, get_by_isdfl, first_that, start, after}
use libcsp_dphi.Rtable.{Route, find_route, search_backward}
use libcsp_dphi.Node.{Node, known, iface_at, free_packet}
use libcsp_dphi.Io.{Driver, no_via}
use libcsp_dphi.Io.Direct.{
  is_none, is_behind, send_copy, local_id, own_source, local_round, local_loop, send_round,
  route_round, route_at, route_loop, default_loop, send_by_default, send_routed, send_locally,
}

-- An interface of the list.
abbrev pub Member : Iface → List Iface → Type 0
Member i interfaces = (k : ℕ) × (get_elem? interfaces k ≡ some i)

Member-after :
    (ptr : ℕ) (i : Iface) (interfaces : List Iface)
    → Member i (after ptr interfaces)
    → Member i interfaces
unfolding after
Member-after ptr i [] (k, e) = (k, e)
Member-after ptr i (j ∷ interfaces) m = elim (Bool-cases (j.ptr == ptr)) [
  | inl here ↦ let (k, e) = rw here at m in (suc k, e)
  | inr on ↦ let (k, e) = Member-after ptr i interfaces (rw on at m) in (suc k, e)
]

-- An interface of the list is one that a pointer may lead to.
Member-known : (i : Iface) (l r : List Iface) → Member i l → Member i (l ++ r)
Member-known i [] r (k, e) = cc
Member-known i (j ∷ l) r (zero, e) = (0, e)
Member-known i (j ∷ l) r (suc k, e) = let (k', f) = Member-known i l r (k, e) in (suc k', f)

Member-start :
    (from : Option ℕ) (i : Iface) (interfaces : List Iface)
    → Member i (start from interfaces)
    → Member i interfaces
unfolding start
Member-start none i interfaces m = m
Member-start (some ptr) i interfaces m = Member-after ptr i interfaces m

first_that-Member :
    (test : Iface → Bool) (i : Iface) (interfaces : List Iface)
    → first_that test interfaces ≡ some i
    → Member i interfaces
unfolding first_that
first_that-Member test i [] e = cc
first_that-Member test i (j ∷ interfaces) e = elim (Bool-cases (test j)) [
  | inl hit ↦ (0, rw hit at e)
  | inr miss ↦ let (k, f) = first_that-Member test i interfaces (rw miss at e) in (suc k, f)
]

-- `P` is what a node keeps, and `Ok` what the identifiers do that copies of the packet are sent under,
-- the caller's `idout` to begin with: a source of zero is filled in, and a broadcast to a subnet goes
-- to everyone.
module _ (nexthop : Driver) (packet : ℕ) (routed_from : Option ℕ) (idout : CspId)
    (P : Node → Type 0) (Ok : CspId → Type 0)
    (owned : (id : CspId) (src : ℕ)
      → (idout.src ≢ 0 → id.src ≢ 0 → src ≡ id.src)
      → Ok id
      → Ok (record id { src = src }))
    (cast : (id : CspId) (i : Iface) (node : Node)
      → Member i node.interfaces
      → is_broadcast node.version idout.dst i ≡ true
      → P node
      → Ok id
      → Ok (record id { dst = get_max_nodeid node.version }))
    (keep : (id : CspId) (i : Iface) (via : ℕ) (node : Node)
      → Ok id
      → Member i (known node)
      → is_behind routed_from i node ≡ false
      → P node
      → P (send_copy nexthop id packet i.ptr via (is_none routed_from) node)) where
  abbrev Holds : CspId × Node → Type 0
  Holds s = Ok s.0 × P s.1

  sourced :
      (id : CspId) (b : Bool) (addr : ℕ)
      → b && idout.src == 0 ≡ true
      → idout.src ≢ 0
      → addr ≡ id.src
  sourced id b addr h ne = absurd (ne ((==_iff idout.src 0).0 (and_true b (idout.src == 0) h).1))

  local_id-Ok :
      (copied : CspId) (i : Iface) (node : Node)
      → Member i node.interfaces
      → P node
      → Ok copied
      → Ok (local_id routed_from idout copied i node.version)
  unfolding local_id
  local_id-Ok copied i node m h ok = elim (Bool-cases (is_broadcast node.version idout.dst i)) [
    | inl all ↦ rw all (cast _ i node m all h (from_here copied i ok))
    | inr one ↦ rw one (from_here copied i ok)
  ]
    where
      from_here :
          (copied : CspId) (i : Iface)
          → Ok copied
          → Ok (record copied {
            src = if is_none routed_from && idout.src == 0 then i.addr else copied.src;
          })
      from_here copied i ok = elim (Bool-cases (is_none routed_from && idout.src == 0)) [
        | inl fill ↦
            rw fill
              (owned copied i.addr (λ ne _. sourced copied (is_none routed_from) i.addr fill ne) ok)
        | inr have ↦ rw have (owned copied copied.src (λ _ _. refl) ok)
      ]

  own_source-kept : (id : CspId) (i : Iface) → id.src ≢ 0 → own_source routed_from id i ≡ id.src
  own_source-kept id i ne = elim (Bool-cases (is_none routed_from && id.src == 0)) [
    | inl fill ↦
        absurd (ne ((==_iff id.src 0).0 (and_true (is_none routed_from) (id.src == 0) fill).1))
    | inr have ↦ rw have refl
  ]

  local_round_inv :
      (i : Iface) (s : CspId × Node)
      → Member i s.1.interfaces
      → Holds s
      → Holds (local_round nexthop idout packet routed_from i s)
  unfolding local_round
  local_round_inv i (copied, node) m (ok, h) = elim (Bool-cases (is_behind routed_from i node)) [
    | inl behind ↦ rw behind (ok, h)
    | inr free ↦
        let ok' = local_id-Ok copied i node m h ok in
        rw free (
          ok',
          keep (local_id routed_from idout copied i node.version) i no_via node ok'
              (Member-known i node.interfaces node.others m) free h,
        )
  ]

  pub local_loop_inv :
      (fuel : ℕ) (from : Option ℕ) (s : CspId × Node)
      → Holds s
      → Holds (local_loop nexthop idout packet routed_from fuel from s)
  unfolding local_loop get_by_subnet
  local_loop_inv zero from s h = h
  local_loop_inv (suc fuel) from s h =
      elim (Option-cases (get_by_subnet s.1.version idout.dst from s.1.interfaces)) [
        | inl e ↦ rw (e, local_loop) h
        | inr (i, e) ↦
            rw (e, local_loop)
              (local_loop_inv fuel (some i.ptr) (local_round nexthop idout packet routed_from i s) (
                local_round_inv i s (Member-start from i s.1.interfaces (first_that-Member _ i _ e))
                  h))
      ]

  send_round_inv :
      (via : ℕ) (i : Iface) (s : CspId × Node)
      → Member i (known s.1)
      → Holds s
      → Holds (send_round nexthop packet routed_from via i s)
  unfolding send_round
  send_round_inv via i (id, node) m (ok, h) = elim (Bool-cases (is_behind routed_from i node)) [
    | inl behind ↦ rw behind (ok, h)
    | inr free ↦
        let ok' = owned id (own_source routed_from id i) (λ _ ne. own_source-kept id i ne) ok in
        rw free
          (ok', keep (record id { src = own_source routed_from id i }) i via node ok' m free h)
  ]

  route_round_inv :
      (r : Route) (o : Option Iface) (s : CspId × Node)
      → ((i : Iface) → o ≡ some i → Member i (known s.1))
      → Holds s
      → Holds (route_round nexthop packet routed_from r o s)
  unfolding route_round
  route_round_inv r none s m h = h
  route_round_inv r (some i) s m h = send_round_inv r.via i s (m i refl) h

  route_at_inv :
      (o : Option Route) (s : CspId × Node)
      → Holds s
      → Holds (route_at nexthop packet routed_from o s)
  unfolding route_at iface_at
  route_at_inv none s h = h
  route_at_inv (some r) s h =
      route_round_inv r (iface_at r.iface s.1) s (λ i e. first_that-Member _ i (known s.1) e) h

  route_loop_inv :
      (fuel : ℕ) (route : Option ℕ) (s : CspId × Node)
      → Holds s
      → Holds (route_loop nexthop packet routed_from fuel route s)
  unfolding route_loop
  route_loop_inv zero route s h = h
  route_loop_inv (suc fuel) none s h = h
  route_loop_inv (suc fuel) (some k) s h =
      route_loop_inv fuel (search_backward (some k) s.1.routes)
        (route_at nexthop packet routed_from (get_elem? s.1.routes.rtable k) s)
        (route_at_inv (get_elem? s.1.routes.rtable k) s h)

  default_loop_inv :
      (fuel : ℕ) (from : Option ℕ) (s : CspId × Node)
      → Holds s
      → Holds (default_loop nexthop packet routed_from fuel from s)
  unfolding default_loop get_by_isdfl
  default_loop_inv zero from s h = h
  default_loop_inv (suc fuel) from s h = elim (Option-cases (get_by_isdfl from s.1.interfaces)) [
    | inl e ↦ rw (e, default_loop) h
    | inr (i, e) ↦
        rw (e, default_loop)
          (default_loop_inv fuel (some i.ptr) (send_round nexthop packet routed_from no_via i s) (
            send_round_inv no_via i s
              (Member-known i s.1.interfaces s.1.others
                (Member-start from i s.1.interfaces (first_that-Member _ i _ e)))
              h))
  ]

  -- Past the loops, the packet itself is let go.
  module _ (Q : Node → Type 0)
      (last : (node : Node) → P node → Q (free_packet (some packet) node)) where
    pub send_locally_rule :
        (o : Option Iface) (node : Node)
        → Ok idout
        → P node
        → Q (send_locally nexthop idout packet routed_from o node).1
    unfolding send_locally send_routed send_by_default
    send_locally_rule (some i) node ok h =
        last _ (local_loop_inv (suc (length node.interfaces)) none (idout, node) (ok, h)).1
    send_locally_rule none node ok h =
        elim (Option-cases (find_route node.version idout.dst node.routes)) [
          | inl e ↦ rw e (
              last _ (default_loop_inv (suc (length node.interfaces)) none (idout, node) (ok, h)).1)
          | inr (k, e) ↦ rw e (
              last _
                (route_loop_inv (suc (length node.routes.rtable)) (some k) (idout, node) (ok, h)).1)
        ]

-- Where the identifiers do not matter.
module _ (nexthop : Driver) (packet : ℕ) (routed_from : Option ℕ) (P : Node → Type 0)
    (keep : (id : CspId) (i : Iface) (via : ℕ) (node : Node)
      → Member i (known node)
      → is_behind routed_from i node ≡ false
      → P node
      → P (send_copy nexthop id packet i.ptr via (is_none routed_from) node))
    (Q : Node → Type 0) (last : (node : Node) → P node → Q (free_packet (some packet) node)) where
  pub send_locally_inv :
      (idout : CspId) (o : Option Iface) (node : Node)
      → P node
      → Q (send_locally nexthop idout packet routed_from o node).1
  send_locally_inv idout o node h =
      send_locally_rule nexthop packet routed_from idout P (λ id. Unit {0}) (λ id src kept ok. tt)
        (λ id i node m all p ok. tt) (λ id i via m ok known free p. keep id i via m known free p) Q
        last o node tt h
