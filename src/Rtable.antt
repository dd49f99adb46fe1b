-- ===== src/Rtable.antt =====
-- csp_rtable_cidr.c: the routing table, an array of which the first `inptr` entries are in use.
-- `version` is `csp_conf.version`; an interface is known by its address, `none` for NULL.
pub mod Prefix
pub mod Best
pub mod Insert
mod Tests
use libcsp_dphi.Base.{
  ℕ, zero, suc, ◌+◌, ◌-◌, ◌^◌, bit_and, Bool, true, false, ◌&&◌, ◌||◌, ◌==◌, ltb, leb,
  if◌then◌else◌, Option, none, some, List, [], ◌∷◌, length, get_elem?, set, take, replicate, u16,
}
use libcsp_dphi.Id.{get_host_bits}

-- CSP_RTABLE_SIZE
abbrev pub rtable_size : ℕ
rtable_size = 4

-- csp_route_t
pub record Route : Type 0 where
  pub address : ℕ
  pub netmask : ℕ
  pub via : ℕ
  pub iface : ℕ

pub record Table : Type 0 where
  pub rtable : List Route
  pub inptr : ℕ

-- The entries in use.
abbrev pub used : Table → List Route
used t = take t.inptr t.rtable

-- csp_rtable_find_exact: the index of the entry, counted from `i`.
unfoldable pub find_exact_from : ℕ → ℕ → ℕ → ℕ → List Route → Option ℕ
find_exact_from i addr netmask ifc [] = none
find_exact_from i addr netmask ifc (r ∷ routes) =
    if (r.address == addr && r.netmask == netmask) && r.iface == ifc
    then some i
    else find_exact_from (i + 1) addr netmask ifc routes

unfoldable pub find_exact : ℕ → ℕ → ℕ → Table → Option ℕ
unfolding find_exact_from
find_exact addr netmask ifc t = find_exact_from 0 addr netmask ifc (used t)

-- csp_rtable_search_backward: from the index below `before` down, an entry with the address and the
-- netmask of `route`.
unfoldable pub search_down : ℕ → Route → List Route → Option ℕ
search_down zero route rtable = none
search_down (suc i) route rtable =
    let rest = search_down i route rtable in
    elim (get_elem? rtable i) [
      | none ↦ rest
      | some r ↦ if r.netmask == route.netmask && r.address == route.address then some i else rest
    ]

unfoldable pub search_backward : Option ℕ → Table → Option ℕ
unfolding search_down
search_backward none t = none
search_backward (some start_route) t = elim (get_elem? t.rtable start_route) [
  | none ↦ none
  | some route ↦ search_down start_route route t.rtable
]

-- The test of csp_rtable_find_route: the addresses agree in the bits of the network. `~` of a
-- 16-bit word is its difference from 0xFFFF.
unfoldable pub net_match : ℕ → ℕ → Route → Bool
net_match version addr route =
    let hostbits = u16 (2 ^ (get_host_bits version - route.netmask) - 1) in
    let netbits = 0xFFFF - hostbits in bit_and route.address netbits == bit_and addr netbits

-- Its loop, from index `i`: the best entry so far and the netmask of it.
unfoldable pub find_route_from : ℕ → ℕ → ℕ → Option ℕ → ℕ → List Route → Option ℕ
find_route_from version addr i best_result best_mask [] = best_result
find_route_from version addr i best_result best_mask (r ∷ routes) =
    let better = net_match version addr r && leb best_mask r.netmask in
    find_route_from version addr (i + 1) (if better then some i else best_result)
      (if better then r.netmask else best_mask) routes

unfoldable pub find_route : ℕ → ℕ → Table → Option ℕ
unfolding find_route_from
find_route version addr t = find_route_from version addr 0 none 0 (used t)

-- csp_rtable_set_internal. The second component says whether the entry written lies in the array:
-- with the table full a new entry goes to `rtable[CSP_RTABLE_SIZE]`, past its end.
unfoldable pub write_entry : Option ℕ → Route → Table → Table × Bool
write_entry (some i) entry t = (record t { rtable = set t.rtable i entry }, true)
write_entry none entry t = (
  record {
    rtable = set t.rtable t.inptr entry;
    inptr = if ltb rtable_size (t.inptr + 1) then rtable_size else t.inptr + 1;
  },
  ltb t.inptr (length t.rtable),
)

unfoldable pub set_internal : ℕ → ℕ → ℕ → ℕ → Table → Table × Bool
unfolding find_exact
set_internal address netmask ifc via t =
    write_entry (find_exact address netmask ifc t)
      (record { address = address; netmask = netmask; via = via; iface = ifc }) t

abbrev zero_route : Route
zero_route = record { address = 0; netmask = 0; via = 0; iface = 0 }

-- The first `n` routes are handed to the iterator, which may change them; its answer is not looked at.
unfoldable pub visit :
    {C : Type 0} → (C → Route → C × Route × Bool) → C → ℕ → List Route → C × List Route
visit iter ctx zero routes = (ctx, routes)
visit iter ctx (suc n) [] = (ctx, [])
visit iter ctx (suc n) (r ∷ routes) =
    let (ctx', r', answer) = iter ctx r in
    let (last, rest) = visit iter ctx' n routes in (last, r' ∷ rest)

-- csp_rtable_iterate
unfoldable pub iterate : {C : Type 0} → (C → Route → C × Route × Bool) → C → Table → C × Table
iterate iter ctx t =
    let (last, routes) = visit iter ctx t.inptr t.rtable in (last, record t { rtable = routes })

-- csp_rtable_free and csp_rtable_clear
unfoldable pub free : Table
free = record { rtable = replicate rtable_size zero_route; inptr = 0 }

-- csp_rtable_set. A negative netmask is `none`; `none` is the return of CSP_ERR_INVAL.
unfoldable pub clamp_netmask : ℕ → Option ℕ → ℕ
clamp_netmask version none = get_host_bits version
clamp_netmask version (some netmask) =
    if ltb (get_host_bits version) netmask then get_host_bits version else netmask

unfoldable pub set_route : ℕ → ℕ → Option ℕ → Option ℕ → ℕ → Table → Option (Table × Bool)
unfolding clamp_netmask set_internal
set_route version address netmask none via t = none
set_route version address netmask (some ifc) via t =
    some (set_internal address (clamp_netmask version netmask) ifc via t)
