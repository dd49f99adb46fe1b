-- ===== src/Rtable/Insert.antt =====
-- csp_rtable_set_internal on the list of the routes in use.
use libcsp_dphi.Base.{
  subst, ℕ, zero, suc, ◌+◌, ◌≤◌, ◌<◌, ◌≡◌, ◌⊎◌, inl, inr, refl, ap, ◌∙◌, sym, arith, Bool, true,
  false, Bool-cases, ◌&&◌, ◌==◌, ltb, if◌then◌else◌, Option, none, some, List, [], ◌∷◌, ◌++◌,
  length, set, take, length-set, length-take,
}
use libcsp_dphi.Rtable.{Route, Table, rtable_size, used, find_exact_from, set_internal, write_entry}

abbrev pub same_key : Route → Route → Bool
same_key e r = (r.address == e.address && r.netmask == e.netmask) && r.iface == e.iface

-- A route replaces the one of its address, netmask and interface, or is the last.
unfoldable pub put : Route → List Route → List Route
put e [] = e ∷ []
put e (r ∷ routes) = if same_key e r then e ∷ routes else r ∷ put e routes

-- Some route has the key of `e`.
unfoldable pub has_key : Route → List Route → Bool
has_key e [] = false
has_key e (r ∷ routes) = if same_key e r then true else has_key e routes

pub record IsValid (t : Table) : Type 0 where
  pub sized : length t.rtable ≡ rtable_size
  pub filled : t.inptr ≤ rtable_size

abbrev Found : ℕ → Route → List Route → Option ℕ → Type 0
Found i e routes result =
    ((result ≡ none) × (has_key e routes ≡ false) × (put e routes ≡ routes ++ e ∷ []))
    ⊎ ((k : ℕ) × (result ≡ some (i + k)) × (k < length routes) × (put e routes ≡ set routes k e))

skip :
    (i : ℕ) (e r : Route) (routes : List Route) (result : Option ℕ)
    → same_key e r ≡ false
    → Found (i + 1) e routes result
    → Found i e (r ∷ routes) result
unfolding put has_key
skip i e r routes result other (inl (a, b, c)) = inl (a, rw (other, b), rw (other, c))
skip i e r routes result other (inr (k, a, b, c)) =
    inr
      (suc k, a ∙ ap some {x = i + 1 + k} {y = i + suc k} (omega arith), omega arith, rw (other, c))

find_exact_from-Found :
    (i : ℕ) (e : Route) (routes : List Route)
    → Found i e routes (find_exact_from i e.address e.netmask e.iface routes)
unfolding find_exact_from put has_key
find_exact_from-Found i e [] = inl (refl, refl, refl)
find_exact_from-Found i e (r ∷ routes) = elim (Bool-cases (same_key e r)) [
  | inl same ↦ rw same (inr (0, ap some {x = i} {y = i + 0} (omega arith), omega arith, refl))
  | inr other ↦ subst (Found i e (r ∷ routes)) (sym (rw other)) (
      skip i e r routes (find_exact_from (i + 1) e.address e.netmask e.iface routes) other
        (find_exact_from-Found (i + 1) e routes))
]

take-set_lt :
    (n k : ℕ) (xs : List Route) (v : Route) → k < n → take n (set xs k v) ≡ set (take n xs) k v
take-set_lt zero k xs v h = absurd (omega arith)
take-set_lt (suc n) k [] v h = refl
take-set_lt (suc n) zero (x ∷ xs) v h = refl
take-set_lt (suc n) (suc k) (x ∷ xs) v h = ap (λ l. x ∷ l) (take-set_lt n k xs v (omega arith))

take-set_last :
    (n : ℕ) (xs : List Route) (v : Route)
    → n < length xs
    → take (suc n) (set xs n v) ≡ take n xs ++ v ∷ []
take-set_last n [] v h = absurd (omega arith)
take-set_last zero (x ∷ xs) v h = refl
take-set_last (suc n) (x ∷ xs) v h = ap (λ l. x ∷ l) (take-set_last n xs v (omega arith))

set_end : (xs : List Route) (n : ℕ) (v : Route) → length xs ≤ n → set xs n v ≡ xs
set_end [] n v h = refl
set_end (x ∷ xs) zero v h = absurd (omega arith)
set_end (x ∷ xs) (suc n) v h = ap (λ l. x ∷ l) (set_end xs n v (omega arith))

-- Setting a route in a table puts it among the routes in use, inside the array, unless the table is
-- full and has no route of that key. Then the write falls just past the end of the array, and the
-- routes stay as they were.
pub set_internal-put :
    (t : Table) (e : Route)
    → IsValid t
    → let (t', inside) = set_internal e.address e.netmask e.iface e.via t in
      IsValid t'
      × (((inside ≡ true) × (used t' ≡ put e (used t)))
          ⊎ ((inside ≡ false)
              × (t.inptr ≡ rtable_size)
              × (has_key e (used t) ≡ false)
              × (used t' ≡ used t)))
unfolding set_internal write_entry
set_internal-put t e v = conclude (find_exact_from-Found 0 e (used t))
  where
    Goal : Type 0
    Goal =
        let (t', inside) = set_internal e.address e.netmask e.iface e.via t in
        IsValid t'
        × (((inside ≡ true) × (used t' ≡ put e (used t)))
            ⊎ ((inside ≡ false)
                × (t.inptr ≡ rtable_size)
                × (has_key e (used t) ≡ false)
                × (used t' ≡ used t)))

    conclude : Found 0 e (used t) (find_exact_from 0 e.address e.netmask e.iface (used t)) → Goal
    conclude (inl (a, b, c)) = elim (Bool-cases (ltb t.inptr rtable_size)) [
      | inl room ↦
          let appended = take-set_last t.inptr t.rtable e (ground arith) in
          rw a (ground (arith, appended, c, length-set t.rtable t.inptr e))
      | inr full ↦
          let at_end = set_end t.rtable t.inptr e (ground arith) in
          let count : t.inptr ≡ rtable_size = ground arith in
          rw a (ground (arith, at_end, b, count))
    ]
    conclude (inr (k, a, b, c)) =
        let below = length-take t.inptr t.rtable in
        let written = take-set_lt t.inptr (0 + k) t.rtable e (omega arith) in
        rw a (ground (arith, written, c, length-set t.rtable (0 + k) e))
