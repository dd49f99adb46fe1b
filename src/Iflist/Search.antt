-- ===== src/Iflist/Search.antt =====
-- The searches of csp_iflist.c: started again behind each result, they visit every interface that
-- passes the test, once and in the order of the list.
use libcsp_dphi.Base.{
  subst, append_assoc, length-append, ℕ, zero, suc, ◌<◌, ◌≡◌, ◌≢◌, ◌⊎◌, inl, inr, refl, ap, ◌∙◌,
  sym, arith, Bool, false, Bool-cases, ◌==◌, ==_refl, ==_ne, if◌then◌else◌, Option, none, some,
  List, [], ◌∷◌, ◌++◌, length, All,
}
use libcsp_dphi.Iface.{Iface}
use libcsp_dphi.Iflist.{after, start, first_that, get_by_subnet, get_by_isdfl, is_within_subnet}

-- No two interfaces of the list have one address.
abbrev pub Apart : List Iface → Type 0
Apart [] = Unit {0}
Apart (i ∷ interfaces) = All (λ j. j.ptr ≢ i.ptr) interfaces × Apart interfaces

-- `while ((iface = search(iface)) != NULL)`, at most `fuel` times.
pub visit : (Option ℕ → List Iface → Option Iface) → ℕ → Option ℕ → List Iface → List Iface
visit search zero from interfaces = []
visit search (suc fuel) from interfaces = elim (search from interfaces) [
  | none ↦ []
  | some i ↦ i ∷ visit search fuel (some i.ptr) interfaces
]

module _ (test : Iface → Bool) where
  pub filter_that : List Iface → List Iface
  filter_that [] = []
  filter_that (i ∷ interfaces) =
      if test i then i ∷ filter_that interfaces else filter_that interfaces

  abbrev searching : Option ℕ → List Iface → Option Iface
  searching from interfaces = first_that test (start from interfaces)

after-append :
    (before rest : List Iface) (i : Iface)
    → Apart (before ++ i ∷ rest)
    → after i.ptr (before ++ i ∷ rest) ≡ rest
unfolding after
after-append [] rest i a = rw (==_refl i.ptr)
after-append (j ∷ before) rest i a =
    rw (==_ne j.ptr i.ptr (λ e. All-middle (λ k. k.ptr ≢ j.ptr) before rest i a.0 (sym e)))
      (after-append before rest i a.1)
  where
    All-middle :
        (P : Iface → Type 0) (before rest : List Iface) (i : Iface)
        → All P (before ++ i ∷ rest)
        → P i
    All-middle P [] rest i h = h.0
    All-middle P (j ∷ before) rest i h = All-middle P before rest i h.1

module _ (test : Iface → Bool) where
  -- A search fails if nothing passes, and otherwise splits the list at the first that does.
  first_that_cases :
      (left : List Iface)
      → ((first_that test left ≡ none) × (filter_that test left ≡ []))
        ⊎ ((skipped : List Iface) × (i : Iface) × (rest : List Iface) × (left ≡ skipped ++ i ∷ rest)
            × (first_that test left ≡ some i)
            × (filter_that test left ≡ i ∷ filter_that test rest))
  unfolding first_that filter_that
  first_that_cases [] = inl (refl, refl)
  first_that_cases (i ∷ left) = elim (Bool-cases (test i)) [
    | inl hit ↦ inr ([], i, left, refl, rw hit, rw hit)
    | inr miss ↦ elim (first_that_cases left) [
      | inl (a, b) ↦ inl (rw miss a, rw miss b)
      | inr (skipped, j, rest, a, b, c) ↦
          inr (i ∷ skipped, j, rest, ap (λ l. i ∷ l) a, rw miss b, rw miss c)
    ]
  ]

  visit-none :
      (fuel : ℕ) (from : Option ℕ) (interfaces : List Iface)
      → first_that test (start from interfaces) ≡ none
      → visit (searching test) (suc fuel) from interfaces ≡ []
  unfolding visit
  visit-none fuel from interfaces e = rw (e, visit)

  visit-some :
      (fuel : ℕ) (from : Option ℕ) (interfaces : List Iface) (i : Iface)
      → first_that test (start from interfaces) ≡ some i
      → visit (searching test) (suc fuel) from interfaces
        ≡ i ∷ visit (searching test) fuel (some i.ptr) interfaces
  unfolding visit
  visit-some fuel from interfaces i e = rw (e, visit)

  visit_from :
      (fuel : ℕ) (from : Option ℕ) (before left interfaces : List Iface)
      → interfaces ≡ before ++ left
      → start from interfaces ≡ left
      → Apart interfaces
      → length left < fuel
      → visit (searching test) fuel from interfaces ≡ filter_that test left
  unfolding start
  visit_from zero from before left interfaces e s a h = absurd (omega arith)
  visit_from (suc fuel) from before left interfaces e s a h = elim (first_that_cases left) [
    | inl (missed, none_left) ↦
        visit-none fuel from interfaces (ap (first_that test) s ∙ missed) ∙ sym none_left
    | inr (skipped, i, rest, split, hit, others) ↦
        let whole : interfaces ≡ (before ++ skipped) ++ i ∷ rest =
          e ∙ ap (λ l. before ++ l) split ∙ sym (append_assoc before skipped (i ∷ rest)) in
        let whole' : interfaces ≡ ((before ++ skipped) ++ i ∷ []) ++ rest =
          whole ∙ sym (append_assoc (before ++ skipped) (i ∷ []) rest) in
        let behind : start (some i.ptr) interfaces ≡ rest =
          ap (after i.ptr) whole ∙ after-append (before ++ skipped) rest i (subst Apart whole a) in
        let fewer : length rest < fuel =
          omega (arith, ap length split, length-append skipped (i ∷ rest)) in
        visit-some fuel from interfaces i (ap (first_that test) s ∙ hit)
        ∙ ap (λ l. i ∷ l)
            (visit_from fuel (some i.ptr) ((before ++ skipped) ++ i ∷ []) rest interfaces whole'
              behind a fewer)
        ∙ sym others
  ]

-- An interface with a netmask and in the subnet of an address.
abbrev pub in_subnet : ℕ → ℕ → Iface → Bool
in_subnet version addr i = if i.netmask == 0 then false else is_within_subnet version addr (some i)

-- The loop over csp_iflist_get_by_subnet visits the interfaces that have a netmask and hold the
-- address in their subnet, each once and in the order of the list, and then ends. A list of
-- distinct interfaces needs no more rounds than it has members, and one.
pub get_by_subnet-visits :
    (version addr : ℕ) (interfaces : List Iface)
    → Apart interfaces
    → visit (get_by_subnet version addr) (suc (length interfaces)) none interfaces
      ≡ filter_that (in_subnet version addr) interfaces
unfolding start get_by_subnet
get_by_subnet-visits version addr interfaces a =
    visit_from (in_subnet version addr) (suc (length interfaces)) none [] interfaces interfaces refl
      refl a (omega arith)

-- So does the loop over csp_iflist_get_by_isdfl, for the default interfaces.
pub get_by_isdfl-visits :
    (interfaces : List Iface)
    → Apart interfaces
    → visit get_by_isdfl (suc (length interfaces)) none interfaces
      ≡ filter_that (λ i. i.is_default == 1) interfaces
unfolding start get_by_isdfl
get_by_isdfl-visits interfaces a =
    visit_from (λ i. i.is_default == 1) (suc (length interfaces)) none [] interfaces interfaces refl
      refl a (omega arith)
