-- ===== src/Rtable/Tests.antt =====
-- Tests of the routing table, and concrete cases of the theorems on it.
use libcsp_dphi.Base.{
  ℕ, ◌/◌, ◌^◌, ◌≡◌, ◌⊎◌, ◌↔◌, refl, arith, true, false, none, some, [], ◌∷◌, All,
}
use libcsp_dphi.Rtable.{
  Route, Table, used, net_match, find_route, find_route_from, set_internal, rtable_size, iterate,
  visit,
}
use libcsp_dphi.Id.{get_host_bits}
use libcsp_dphi.Rtable.Prefix.{host_part, net_match_iff}
use libcsp_dphi.Rtable.Best.{IsBest, find_route-IsBest}
use libcsp_dphi.Rtable.Insert.{IsValid, put, has_key, set_internal-put}

abbrev route : ℕ → ℕ → Route
route address netmask = record { address = address; netmask = netmask; via = 0xFFFF; iface = 1 }

abbrev table : Table
table = record { rtable = route 0 0 ∷ route 0x100 6 ∷ route 0x100 8 ∷ route 0 0 ∷ []; inptr = 3 }

find_route_test : find_route 2 0x101 table ≡ some 2
unfolding find_route find_route_from net_match get_host_bits
find_route_test = refl

-- The iterator sees the routes in use, in their order, whatever it answers.
iterate_test : (iterate (λ seen r. (r.netmask ∷ seen, r, false)) [] table).0 ≡ 8 ∷ 6 ∷ 0 ∷ []
unfolding iterate visit
iterate_test = refl

net_match_iff_example :
    (net_match 2 0x13F (route 0x100 8) ≡ true)
    ↔ (0x100 / 2 ^ host_part 2 (route 0x100 8) ≡ 0x13F / 2 ^ host_part 2 (route 0x100 8))
net_match_iff_example = net_match_iff 2 0x13F (route 0x100 8) (omega arith) (omega arith)

table-IsValid : IsValid table
table-IsValid = record { sized = refl; filled = omega arith }

set_internal-put_example :
    let (t', inside) = set_internal 0x200 8 1 0xFFFF table in
    IsValid t'
    × (((inside ≡ true) × (used t' ≡ put (route 0x200 8) (used table)))
        ⊎ ((inside ≡ false)
            × (3 ≡ rtable_size)
            × (has_key (route 0x200 8) (used table) ≡ false)
            × (used t' ≡ used table)))
set_internal-put_example = set_internal-put table (route 0x200 8) table-IsValid

find_route-IsBest_example :
    ((find_route 2 0x101 table ≡ none) × All (λ r. net_match 2 0x101 r ≡ false) (used table))
    ⊎ ((k : ℕ) × IsBest 2 0x101 (used table) k × (find_route 2 0x101 table ≡ some k))
find_route-IsBest_example = find_route-IsBest 2 0x101 table
