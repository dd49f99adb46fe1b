-- ===== src/Buffer/Invariant.antt =====
-- csp_buffer.c: a pool whose queue holds exactly the buffers without references, and freeing in it.
use libcsp_dphi.Base.{
  ℕ, zero, suc, ◌+◌, ◌-◌, ◌≤◌, ◌<◌, ◌≡◌, ◌≢◌, ◌∙◌, refl, sym, ap, arith, Bool, true, false,
  Bool-cases, Option-cases, inl, inr, ◌==◌, ==_refl, ==_ne, ==_iff, ==_from, ltb, ltb→lt, lt→ltb,
  if◌then◌else◌, Option, none, some, List, [], ◌∷◌, ◌++◌, length, length-set, get_elem?, set,
  get_elem?-set_self, get_elem?-set_ne, get_elem?-lt,
}
use libcsp_dphi.Queue.{Queue, enqueue}
use libcsp_dphi.Queue.Fifo.{put}
use libcsp_dphi.Queue.Order.{
  IsValid, contents, length-contents, enqueue-IsValid, enqueue_refines, len-enqueue,
}
use libcsp_dphi.Buffer.{Buffer, Pool, release, free}
use libcsp_dphi.Buffer.Count.{free_list, buffer_at}
use libcsp_dphi.Buffer.Occurrences.{occ, occ-append, length-lt}

-- How often a buffer should be in the queue.
abbrev pub due : Option Buffer → ℕ
due none = 0
due (some b) = if b.refcount == 0 then 1 else 0

-- The queue is valid and has a place for each buffer, each buffer knows its own place, and those in
-- the queue, once each, are those without references.
pub record IsBalanced (pool : Pool) : Type 0 where
  pub valid : IsValid pool.csp_buffers
  pub size : length pool.buffers ≤ pool.csp_buffers.len
  pub own : (i : ℕ) (b : Buffer) → buffer_at pool i ≡ some b → b.skbf_addr ≡ i
  pub counted : (i : ℕ) → occ i (free_list pool) ≡ due (buffer_at pool i)

abbrev pub one_if : Bool → ℕ
one_if t = if t then 1 else 0

pub due-le : (o : Option Buffer) → due o ≤ 1
due-le none = omega arith
due-le (some b) = ground arith

beyond : (buffers : List Buffer) (i : ℕ) → length buffers ≤ i → get_elem? buffers i ≡ none
beyond [] i h = refl
beyond (b ∷ buffers) zero h = absurd (omega arith)
beyond (b ∷ buffers) (suc i) h = beyond buffers i (omega arith)

in_use : (b : Buffer) → 0 < b.refcount → due (some b) ≡ 0
in_use b h = ground arith

-- With a buffer in use, there is room in the queue.
pub room :
    (pool : Pool) (i : ℕ) (b : Buffer)
    → IsBalanced pool
    → buffer_at pool i ≡ some b
    → 0 < b.refcount
    → pool.csp_buffers.count < pool.csp_buffers.len
room pool i b v found used = omega (
  arith,
  v.size,
  length-contents pool.csp_buffers v.valid,
  length-lt (length pool.buffers) i (free_list pool)
      (λ j. omega (arith, v.counted j, due-le (buffer_at pool j)))
      (λ j le. v.counted j ∙ ap due (beyond pool.buffers j le))
      (get_elem?-lt pool.buffers i b found) (v.counted i ∙ ap due found ∙ in_use b used),
)

-- A buffer is written back, and the queue holds it now if it has no references.
module _ (pool : Pool) (i : ℕ) (b c : Buffer) (v : IsBalanced pool)
    (found : buffer_at pool i ≡ some b) (addr : c.skbf_addr ≡ i) where
  here : get_elem? (set pool.buffers i c) i ≡ some c
  here = get_elem?-set_self pool.buffers i c (get_elem?-lt pool.buffers i b found)

  own-set : (j : ℕ) (d : Buffer) → get_elem? (set pool.buffers i c) j ≡ some d → d.skbf_addr ≡ j
  own-set j d e = elim (Bool-cases (i == j)) [
    | inl same ↦
        let p : i ≡ j = (==_iff i j).0 same in
        let q : some c ≡ some d = sym here ∙ ap (get_elem? (set pool.buffers i c)) p ∙ e in
        some_addr q ∙ addr ∙ p
    | inr other ↦
        v.own j d
          (sym (get_elem?-set_ne pool.buffers i j c (λ p. grind (arith, ==_from i j p))) ∙ e)
  ]
    where
      some_addr : some c ≡ some d → d.skbf_addr ≡ c.skbf_addr
      some_addr q = ap (λ (o : Option Buffer). elim o [ none ↦ 0 | some a ↦ a.skbf_addr ]) (sym q)

  pub rebalance :
      (pool' : Pool)
      → pool'.buffers ≡ set pool.buffers i c
      → IsValid pool'.csp_buffers
      → pool'.csp_buffers.len ≡ pool.csp_buffers.len
      → ((j : ℕ) → i ≢ j → occ j (free_list pool') ≡ occ j (free_list pool))
      → occ i (free_list pool') ≡ due (some c)
      → IsBalanced pool'
  rebalance pool' e valid len others mine = record {
    valid = valid;
    size = omega (arith, v.size, ap length e, length-set pool.buffers i c);
    own = λ j d f. own-set j d (ap (λ l. get_elem? l j) (sym e) ∙ f);
    counted = λ j. elim (Bool-cases (i == j)) [
      | inl same ↦
          let p : i ≡ j = (==_iff i j).0 same in
          ap (λ k. occ k (free_list pool')) (sym p)
          ∙ mine
          ∙ ap due
              (sym here ∙ ap (get_elem? (set pool.buffers i c)) p ∙ ap (λ l. get_elem? l j) (sym e))
      | inr other ↦
          let p : i ≢ j = λ p. grind (arith, ==_from i j p) in
          others j p
          ∙ v.counted j
          ∙ ap due (sym (get_elem?-set_ne pool.buffers i j c p) ∙ ap (λ l. get_elem? l j) (sym e))
    ];
  }

-- What a call may do to the pool's counters is without effect on its balance.
pub IsBalanced-record :
    (pool pool' : Pool)
    → pool'.buffers ≡ pool.buffers
    → IsValid pool'.csp_buffers
    → pool'.csp_buffers.len ≡ pool.csp_buffers.len
    → free_list pool' ≡ free_list pool
    → IsBalanced pool
    → IsBalanced pool'
IsBalanced-record pool pool' e valid len same v = record {
  valid = valid;
  size = omega (arith, v.size, ap length e);
  own = λ i b f. v.own i b (ap (λ l. get_elem? l i) (sym e) ∙ f);
  counted = λ i. ap (occ i) same ∙ v.counted i ∙ ap (λ l. due (get_elem? l i)) (sym e);
}

-- A number is put behind the queue, if there is room.
pub contents-enqueue :
    (q : Queue ℕ) (i : ℕ)
    → IsValid q
    → q.count < q.len
    → contents (enqueue q i).0 ≡ contents q ++ i ∷ []
unfolding put
contents-enqueue q i v h =
    ap (λ o. o.0) (enqueue_refines q i v) ∙ rw (length-contents q v, lt→ltb q.count q.len h) refl

pub occ-last : (j i : ℕ) (xs : List ℕ) → occ j (xs ++ i ∷ []) ≡ occ j xs + (if i == j then 1 else 0)
unfolding occ
occ-last j i xs = omega (arith, occ-append j xs (i ∷ []))

release-IsBalanced :
    (pool : Pool) (i : ℕ) (b : Buffer)
    → IsBalanced pool
    → buffer_at pool i ≡ some b
    → IsBalanced (release i b pool)
unfolding release
release-IsBalanced pool i b v found = elim (Bool-cases (b.refcount == 0)) [
  | inl zero_left ↦ rw (same, zero_left) (IsBalanced-record pool _ refl v.valid refl refl v)
  | inr left ↦ elim (Bool-cases (ltb 0 (b.refcount - 1))) [
    | inl more ↦
        rw (same, left, more)
          (rebalance pool i b lower v found (v.own i b found) _ refl v.valid refl (λ j ne. refl)
            (v.counted i
              ∙ ap due found
              ∙ in_use b (used left)
              ∙ sym (in_use lower (ltb→lt 0 (b.refcount - 1) more))))
    | inr last ↦
        rw (same, left, last)
          (rebalance pool i b lower v found (v.own i b found) _ refl
            (enqueue-IsValid pool.csp_buffers i v.valid) (len-enqueue pool.csp_buffers i)
            (λ j ne.
              ap (occ j) (queued left)
              ∙ omega (arith, occ-last j i (free_list pool), ap one_if (==_ne i j ne)))
            (ap (occ i) (queued left)
              ∙ omega (
                arith,
                occ-last i i (free_list pool),
                ap one_if (==_refl i),
                v.counted i ∙ ap due found ∙ in_use b (used left),
                ap one_if {x = lower.refcount == 0} {y = true} (ground arith),
              )))
  ]
]
  where
    lower : Buffer
    lower = record b { refcount = b.refcount - 1 }

    same : (b.skbf_addr == i) ≡ true
    same = ==_from b.skbf_addr i (v.own i b found)

    used : (b.refcount == 0) ≡ false → 0 < b.refcount
    used e = ground arith

    queued :
        (b.refcount == 0) ≡ false
        → contents (enqueue pool.csp_buffers i).0 ≡ free_list pool ++ i ∷ []
    queued e = contents-enqueue pool.csp_buffers i v.valid (room pool i b v found (used e))

pub free-IsBalanced :
    (packet : Option ℕ) (pool : Pool) → IsBalanced pool → IsBalanced (free packet pool)
unfolding free
free-IsBalanced none pool v = v
free-IsBalanced (some i) pool v = elim (Option-cases (buffer_at pool i)) [
  | inl e ↦ rw e v
  | inr (b, e) ↦ rw e (release-IsBalanced pool i b v e)
]
