-- ===== src/Rtable/Best.antt =====
-- csp_rtable_find_route returns the longest match, the latest of equals.
use libcsp_dphi.Base.{
  some-eq, and_true, subst, leb→le, ℕ, zero, suc, ◌+◌, ◌≤◌, ◌<◌, ◌≡◌, ◌⊎◌, inl, inr, refl, ap, ◌∙◌,
  sym, arith, true, false, Bool-cases, ◌&&◌, leb, Option, none, some, List, [], ◌∷◌, get_elem?, All,
  All-get,
}
use libcsp_dphi.Rtable.{Route, Table, used, net_match, find_route_from, find_route}

module _ (version addr : ℕ) where
  -- No entry matches with a netmask of `mask` or more.
  abbrev pub NoneAbove : ℕ → List Route → Type 0
  NoneAbove mask routes =
      (j : ℕ) (r : Route)
      → get_elem? routes j ≡ some r
      → net_match version addr r ≡ true
      → r.netmask < mask

  -- The entry at `k` matches, no match has a longer netmask, and those with the same are not later.
  pub record IsBest (routes : List Route) (k : ℕ) : Type 0 where
    pub route : Route
    pub here : get_elem? routes k ≡ some route
    pub matches : net_match version addr route ≡ true
    pub longest :
        (j : ℕ) (r : Route)
        → get_elem? routes j ≡ some r
        → net_match version addr r ≡ true
        → (r.netmask < route.netmask) ⊎ ((r.netmask ≡ route.netmask) × (j ≤ k))

  better_first :
      (routes : List Route) (r : Route)
      → net_match version addr r ≡ true
      → NoneAbove r.netmask routes
      → IsBest (r ∷ routes) 0
  better_first routes r m none_above = record {
    route = r;
    here = refl;
    matches = m;
    longest = longest;
  }
    where
      longest :
          (j : ℕ) (s : Route)
          → get_elem? (r ∷ routes) j ≡ some s
          → net_match version addr s ≡ true
          → (s.netmask < r.netmask) ⊎ ((s.netmask ≡ r.netmask) × (j ≤ 0))
      longest zero s e n = inr (cc, omega arith)
      longest (suc j) s e n = inl (none_above j s e n)

  later :
      (routes : List Route) (r : Route) (k : ℕ) (b : IsBest routes k)
      → (net_match version addr r ≡ true → r.netmask ≤ b.route.netmask)
      → IsBest (r ∷ routes) (suc k)
  later routes r k b below = record {
    route = b.route;
    here = b.here;
    matches = b.matches;
    longest = longest;
  }
    where
      longest :
          (j : ℕ) (s : Route)
          → get_elem? (r ∷ routes) j ≡ some s
          → net_match version addr s ≡ true
          → (s.netmask < b.route.netmask) ⊎ ((s.netmask ≡ b.route.netmask) × (j ≤ suc k))
      longest zero s e n =
          let same = some-eq e in
          let m = subst (λ t. net_match version addr t ≡ true) (sym same) n in
          ground (arith, same, below m)
      longest (suc j) s e n = ground (arith, b.longest j s e n)

  -- What the loop returns from the entries that are left.
  abbrev Outcome : ℕ → Option ℕ → ℕ → List Route → Option ℕ → Type 0
  Outcome i best mask routes result =
      ((result ≡ best) × NoneAbove mask routes)
      ⊎ ((k : ℕ) × (b : IsBest routes k) × (mask ≤ b.route.netmask) × (result ≡ some (i + k)))

  taken :
      (i : ℕ) (best : Option ℕ) (mask : ℕ) (r : Route) (routes : List Route) (result : Option ℕ)
      → net_match version addr r ≡ true
      → mask ≤ r.netmask
      → Outcome (i + 1) (some i) r.netmask routes result
      → Outcome i best mask (r ∷ routes) result
  unfolding better_first later
  taken i best mask r routes result m le (inl (e, none_above)) =
      inr (0, better_first routes r m none_above, le, e ∙ ap some {x = i} {y = i + 0} (omega arith))
  taken i best mask r routes result m le (inr (k, b, above, e)) = inr (
    suc k,
    later routes r k b (λ _. above),
    omega arith,
    e ∙ ap some {x = i + 1 + k} {y = i + suc k} (omega arith),
  )

  passed :
      (i : ℕ) (best : Option ℕ) (mask : ℕ) (r : Route) (routes : List Route) (result : Option ℕ)
      → (net_match version addr r ≡ true → r.netmask < mask)
      → Outcome (i + 1) best mask routes result
      → Outcome i best mask (r ∷ routes) result
  unfolding later
  passed i best mask r routes result below (inl (e, none_above)) = inl (e, all)
    where
      all : NoneAbove mask (r ∷ routes)
      all zero s e n =
          let same = some-eq e in
          let m = subst (λ t. net_match version addr t ≡ true) (sym same) n in
          ground (arith, same, below m)
      all (suc j) s e n = none_above j s e n
  passed i best mask r routes result below (inr (k, b, above, e)) = inr (
    suc k,
    later routes r k b (λ m. omega (arith, below m, above)),
    above,
    e ∙ ap some {x = i + 1 + k} {y = i + suc k} (omega arith),
  )

  find_route_from-Outcome :
      (i : ℕ) (best : Option ℕ) (mask : ℕ) (routes : List Route)
      → Outcome i best mask routes (find_route_from version addr i best mask routes)
  unfolding find_route_from
  find_route_from-Outcome i best mask [] = inl (refl, λ j r e. cc)
  find_route_from-Outcome i best mask (r ∷ routes) =
      elim (Bool-cases (net_match version addr r && leb mask r.netmask)) [
        | inl better ↦
            let (m, le) = and_true (net_match version addr r) (leb mask r.netmask) better in
            rw better (
              taken i best mask r routes
                (find_route_from version addr (i + 1) (some i) r.netmask routes) m (leb→le _ _ le)
                (find_route_from-Outcome (i + 1) (some i) r.netmask routes))
        | inr not_better ↦ rw not_better (
            passed i best mask r routes (find_route_from version addr (i + 1) best mask routes)
              (λ m. ground arith) (find_route_from-Outcome (i + 1) best mask routes))
      ]

  -- The look-up fails exactly if no entry in use matches. Otherwise the entry that it returns
  -- matches, no matching entry has a longer netmask, and none with the same netmask comes later.
  pub find_route-IsBest :
      (t : Table)
      → ((find_route version addr t ≡ none) × All (λ r. net_match version addr r ≡ false) (used t))
        ⊎ ((k : ℕ) × IsBest (used t) k × (find_route version addr t ≡ some k))
  unfolding find_route
  find_route-IsBest t = conclude (find_route_from-Outcome 0 none 0 (used t))
    where
      conclude :
          Outcome 0 none 0 (used t) (find_route_from version addr 0 none 0 (used t))
          → ((find_route version addr t ≡ none)
              × All (λ r. net_match version addr r ≡ false) (used t))
            ⊎ ((k : ℕ) × IsBest (used t) k × (find_route version addr t ≡ some k))
      conclude (inl (e, none_above)) = inl (
        e,
        All-get (λ r. net_match version addr r ≡ false) (used t)
            (λ j r at. elim (Bool-cases (net_match version addr r)) [
              | inl m ↦ absurd (omega (arith, none_above j r at m))
              | inr m ↦ m
            ]),
      )
      conclude (inr (k, b, above, e)) = inr (k, b, e ∙ ap some {x = 0 + k} {y = k} (omega arith))
