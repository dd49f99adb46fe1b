-- ===== src/Io/References.antt =====
-- csp_send_direct: the references of the packets, one of which it takes over.
use libcsp_dphi.Base.{
  some-eq, none-some, ℕ, ◌-◌, ◌<◌, ◌≡◌, ◌≢◌, ◌∙◌, refl, sym, ap, arith, true, false, Bool-cases,
  Option-cases, inl, inr, ◌==◌, Option, none, some, get_elem?, set, get_elem?-set_self,
  get_elem?-set_ne, get_elem?-lt, ==_from, ==_iff, ltb, ltb→lt,
}
use libcsp_dphi.Buffer.{Buffer, Pool, free, release, clone, get, get_actual, copy, copy_to}
use libcsp_dphi.Buffer.Count.{buffer_at}
use libcsp_dphi.Buffer.Balance.{Gives, get_actual-IsBalanced}
use libcsp_dphi.Buffer.Invariant.{IsBalanced}

abbrev pub refs_of : Option Buffer → ℕ
refs_of none = 0
refs_of (some b) = b.refcount

-- The number of references of a buffer.
abbrev pub refs : Pool → ℕ → ℕ
refs pool j = refs_of (buffer_at pool j)

pub refs-set :
    (pool pool' : Pool) (i : ℕ) (b c : Buffer)
    → buffer_at pool i ≡ some b
    → pool'.buffers ≡ set pool.buffers i c
    → (refs pool' i ≡ c.refcount) × ((j : ℕ) → i ≢ j → refs pool' j ≡ refs pool j)
refs-set pool pool' i b c found e = (
  ap (λ l. refs_of (get_elem? l i)) e
      ∙ ap refs_of (get_elem?-set_self pool.buffers i c (get_elem?-lt pool.buffers i b found)),
  λ j ne. ap (λ l. refs_of (get_elem? l j)) e ∙ ap refs_of (get_elem?-set_ne pool.buffers i j c ne),
)

free_used :
    (pool : Pool) (i : ℕ) (b : Buffer)
    → IsBalanced pool
    → buffer_at pool i ≡ some b
    → 0 < b.refcount
    → (free (some i) pool).buffers ≡ set pool.buffers i (record b { refcount = b.refcount - 1 })
unfolding free release
free_used pool i b v found h = elim (Bool-cases (ltb 0 (b.refcount - 1))) [
  | inl more ↦ rw (found, same, left, more) refl
  | inr last ↦ rw (found, same, left, last) refl
]
  where
    same : (b.skbf_addr == i) ≡ true
    same = ==_from b.skbf_addr i (v.own i b found)

    left : (b.refcount == 0) ≡ false
    left = ground arith

free-none : (pool : Pool) (i : ℕ) → buffer_at pool i ≡ none → free (some i) pool ≡ pool
unfolding free
free-none pool i e = rw e refl

free_unused :
    (pool : Pool) (i : ℕ) (b : Buffer)
    → IsBalanced pool
    → buffer_at pool i ≡ some b
    → b.refcount ≡ 0
    → (free (some i) pool).buffers ≡ pool.buffers
unfolding free release
free_unused pool i b v found h = rw (found, ==_from b.skbf_addr i (v.own i b found), none_left) refl
  where
    none_left : (b.refcount == 0) ≡ true
    none_left = ground arith

-- Freeing a packet takes one reference of its buffer, if it has any, and leaves the others.
pub free-refs :
    (pool : Pool) (i : ℕ)
    → IsBalanced pool
    → (refs (free (some i) pool) i ≡ refs pool i - 1)
      × ((j : ℕ) → i ≢ j → refs (free (some i) pool) j ≡ refs pool j)
free-refs pool i v = elim (Option-cases (buffer_at pool i)) [
  | inl e ↦
      let same = free-none pool i e in
      (ap (λ p. refs p i) same ∙ omega (arith, ap refs_of e), λ j ne. ap (λ p. refs p j) same)
  | inr (b, e) ↦ elim (Bool-cases (ltb 0 b.refcount)) [
    | inl used ↦
        let (mine, others) =
          refs-set pool (free (some i) pool) i b (record b { refcount = b.refcount - 1 }) e
            (free_used pool i b v e (ltb→lt 0 b.refcount used)) in
        (mine ∙ omega (arith, ap refs_of e), others)
    | inr unused ↦
        let same = free_unused pool i b v e (ground arith) in
        (
          ap (λ l. refs_of (get_elem? l i)) same ∙ grind (arith, ap refs_of e),
          λ j ne. ap (λ l. refs_of (get_elem? l j)) same,
        )
  ]
]

copy-refs : (s t : Option ℕ) (pool : Pool) (j : ℕ) → refs (copy s t pool) j ≡ refs pool j
unfolding copy copy_to
copy-refs none t pool j = refl
copy-refs (some s) none pool j = refl
copy-refs (some s) (some t) pool j = elim (Option-cases (buffer_at pool s)) [
  | inl e ↦ rw e refl
  | inr (a, e) ↦ elim (Option-cases (buffer_at pool t)) [
    | inl f ↦ rw (e, f) refl
    | inr (b, f) ↦ rw (e, f) (copied a b f)
  ]
]
  where
    copied :
        (a b : Buffer)
        → buffer_at pool t ≡ some b
        → refs_of (get_elem? (set pool.buffers t (copy_to a b)) j) ≡ refs pool j
    copied a b f =
        let (mine, others) =
          refs-set pool (record pool { buffers = set pool.buffers t (copy_to a b) }) t b
            (copy_to a b) f refl in
        elim (Bool-cases (t == j)) [
          | inl same ↦
              let p : t ≡ j = (==_iff t j).0 same in
              ap (λ k. refs_of (get_elem? (set pool.buffers t (copy_to a b)) k)) (sym p)
              ∙ mine
              ∙ ap refs_of (sym f)
              ∙ ap (refs pool) p
          | inr other ↦ others j (λ p. grind (arith, ==_from t j p))
        ]

get-refs :
    (pool : Pool) (r : Pool × Option ℕ) (j : ℕ)
    → Gives pool r
    → 0 < refs pool j
    → (r.1 ≢ some j) × (refs r.0 j ≡ refs pool j)
get-refs pool r j (inl (e, same)) h =
    (λ p. absurd (none-some j (sym e ∙ p)), ap (λ l. refs_of (get_elem? l j)) same)
get-refs pool r j (inr (k, b, e, found, unused, same)) h =
    (λ p. apart (some-eq (sym e ∙ p)), (refs-set pool r.0 k b _ found same).1 j apart)
  where
    apart : k ≢ j
    apart p = absurd (omega (arith, ap refs_of found, ap (refs pool) p))

-- A copy is made in a buffer that had no references, and has one then; the others keep theirs.
pub clone-refs :
    (pool : Pool) (i j : ℕ)
    → IsBalanced pool
    → 0 < refs pool j
    → ((clone (some i) pool).1 ≢ some j) × (refs (clone (some i) pool).0 j ≡ refs pool j)
unfolding clone get
clone-refs pool i j v h =
    let (other, same) = get-refs pool (get_actual 2 pool) j (get_actual-IsBalanced 2 pool v).1 h in
    (other, copy-refs (some i) (get_actual 2 pool).1 (get_actual 2 pool).0 j ∙ same)
