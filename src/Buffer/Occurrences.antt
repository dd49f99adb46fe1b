-- ===== src/Buffer/Occurrences.antt =====
-- How often a number occurs in a list, and how long a list of small numbers is that has each of
-- them once at most.
use libcsp_dphi.Base.{
  ℕ, zero, suc, ◌+◌, ◌≤◌, ◌<◌, ◌≡◌, ◌∙◌, refl, sym, ap, arith, Bool-cases, inl, inr, ◌==◌, ==_refl,
  ==_iff, if◌then◌else◌, ltb, ltb→lt, List, [], ◌∷◌, ◌++◌, length, All,
}

unfoldable pub occ : ℕ → List ℕ → ℕ
occ i [] = 0
occ i (x ∷ xs) = (if x == i then 1 else 0) + occ i xs

pub occ-append : (i : ℕ) (xs ys : List ℕ) → occ i (xs ++ ys) ≡ occ i xs + occ i ys
unfolding occ
occ-append i [] ys = omega arith
occ-append i (x ∷ xs) ys = omega (arith, occ-append i xs ys)

pub occ_head : (x : ℕ) (xs : List ℕ) → 0 < occ x (x ∷ xs)
unfolding occ
occ_head x xs = rw (==_refl x) (omega arith)

-- The occurrences of the numbers below `n`.
unfoldable tally : ℕ → List ℕ → ℕ
tally zero xs = 0
tally (suc n) xs = occ n xs + tally n xs

tally-cons : (n x : ℕ) (xs : List ℕ) → tally n (x ∷ xs) ≡ (if ltb x n then 1 else 0) + tally n xs
unfolding tally occ
tally-cons zero x xs = ground arith
tally-cons (suc n) x xs = ground (arith, tally-cons n x xs)

tally-nil : (n : ℕ) → tally n [] ≡ 0
unfolding tally occ
tally-nil zero = refl
tally-nil (suc n) = omega (arith, tally-nil n)

length-tally : (n : ℕ) (xs : List ℕ) → All (λ x. x < n) xs → length xs ≡ tally n xs
unfolding tally
length-tally n [] h = sym (tally-nil n)
length-tally n (x ∷ xs) h = ground (arith, tally-cons n x xs, length-tally n xs h.1)

tally-le : (n : ℕ) (xs : List ℕ) → ((i : ℕ) → occ i xs ≤ 1) → tally n xs ≤ n
unfolding tally
tally-le zero xs once = omega arith
tally-le (suc n) xs once = omega (arith, once n, tally-le n xs once)

tally-lt :
    (n j : ℕ) (xs : List ℕ) → ((i : ℕ) → occ i xs ≤ 1) → j < n → occ j xs ≡ 0 → tally n xs < n
unfolding tally
tally-lt zero j xs once h e = absurd (omega arith)
tally-lt (suc n) j xs once h e = elim (Bool-cases (j == n)) [
  | inl same ↦
      let e' : occ n xs ≡ 0 = ap (λ k. occ k xs) (sym ((==_iff j n).0 same)) ∙ e in
      omega (arith, e', tally-le n xs once)
  | inr other ↦ omega (arith, once n, tally-lt n j xs once (ground arith) e)
]

bounded : (n : ℕ) (xs : List ℕ) → ((i : ℕ) → n ≤ i → occ i xs ≡ 0) → All (λ x. x < n) xs
unfolding occ
bounded n [] h = tt
bounded n (x ∷ xs) h = (inside, bounded n xs (λ i le. omega (arith, h i le)))
  where
    inside : x < n
    inside = elim (Bool-cases (ltb x n)) [
      | inl e ↦ ltb→lt x n e
      | inr e ↦ absurd (omega (arith, h x (ground arith), occ_head x xs))
    ]

-- A list without repetition, of numbers below `n` and without one of them, is shorter than `n`.
pub length-lt :
    (n j : ℕ) (xs : List ℕ)
    → ((i : ℕ) → occ i xs ≤ 1)
    → ((i : ℕ) → n ≤ i → occ i xs ≡ 0)
    → j < n
    → occ j xs ≡ 0
    → length xs < n
length-lt n j xs once out h e =
    omega (arith, length-tally n xs (bounded n xs out), tally-lt n j xs once h e)
