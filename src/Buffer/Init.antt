-- ===== src/Buffer/Init.antt =====
-- csp_buffer.c: the pool that csp_buffer_init makes of zeroed memory is balanced, and all its buffers
-- are free.
use libcsp_dphi.Base.{
  ℕ, zero, suc, ◌+◌, ◌≤◌, ◌<◌, ◌^◌, ◌≡◌, ◌≢◌, ◌⊎◌, ◌∙◌, refl, some-eq, sym, ap, subst, arith, true,
  Bool-cases, Option-cases, inl, inr, ◌==◌, ==_iff, ==_from, ltb, lt→ltb, not_ltb, none, some, List,
  [], ◌∷◌, ◌++◌, length, length-append, length-set, get_elem?, set, get_elem?-set_self,
  get_elem?-set_ne, get_elem?-lt, get_elem?-some,
}
use libcsp_dphi.Queue.{Queue, enqueue, create_static, messages_waiting}
use libcsp_dphi.Queue.Order.{IsValid, contents, length-contents, enqueue-IsValid, len-enqueue}
use libcsp_dphi.Buffer.{Buffer, Pool, init, init_from, remaining}
use libcsp_dphi.Buffer.Count.{free_list, buffer_at}
use libcsp_dphi.Buffer.Occurrences.{occ}
use libcsp_dphi.Buffer.Invariant.{IsBalanced, one_if, contents-enqueue, occ-last}

-- The first `i` of `n` buffers have their addresses, and are in the queue.
record Built (n i : ℕ) (pool : Pool) : Type 0 where
  valid : IsValid pool.csp_buffers
  len : pool.csp_buffers.len ≡ n
  size : length pool.buffers ≡ n
  queued : length (free_list pool) ≡ i
  own : (j : ℕ) (b : Buffer) → buffer_at pool j ≡ some b → j < i → b.skbf_addr ≡ j
  unused : (j : ℕ) (b : Buffer) → buffer_at pool j ≡ some b → b.refcount ≡ 0
  counted : (j : ℕ) → occ j (free_list pool) ≡ one_if (ltb j i)

-- What stands at `j` after a write at `i`.
at_set :
    (buffers : List Buffer) (i j : ℕ) (b c : Buffer)
    → i < length buffers
    → get_elem? (set buffers i b) j ≡ some c
    → ((i ≡ j) × (c ≡ b)) ⊎ ((i ≢ j) × (get_elem? buffers j ≡ some c))
at_set buffers i j b c below e = elim (Bool-cases (i == j)) [
  | inl same ↦
      let p : i ≡ j = (==_iff i j).0 same in
      inl (
        p,
        sym (
            some-eq (
              sym (get_elem?-set_self buffers i b below) ∙ ap (get_elem? (set buffers i b)) p ∙ e)),
      )
  | inr other ↦
      let p : i ≢ j = λ p. grind (arith, ==_from i j p) in
      inr (p, sym (get_elem?-set_ne buffers i j b p) ∙ e)
]

module _ (n i : ℕ) (pool : Pool) (v : Built n i pool) (more : i < n) where
  abbrev queue : Queue ℕ
  queue = (enqueue pool.csp_buffers i).0

  room : pool.csp_buffers.count < pool.csp_buffers.len
  room = omega (arith, v.len, v.queued, length-contents pool.csp_buffers v.valid)

  grown : contents queue ≡ free_list pool ++ i ∷ []
  grown = contents-enqueue pool.csp_buffers i v.valid room

  round-Built :
      (b : Buffer)
      → buffer_at pool i ≡ some b
      → Built n (i + 1) (record pool {
        buffers = set pool.buffers i (record b { skbf_addr = i });
        csp_buffers = queue;
      })
  round-Built b found = record {
    valid = enqueue-IsValid pool.csp_buffers i v.valid;
    len = len-enqueue pool.csp_buffers i ∙ v.len;
    size = length-set pool.buffers i (record b { skbf_addr = i }) ∙ v.size;
    queued = omega (arith, ap length grown ∙ length-append (free_list pool) (i ∷ []), v.queued);
    own = λ j c e below. elim (written j c e) [
      | inl (p, q) ↦ ap (λ (b : Buffer). b.skbf_addr) q ∙ p
      | inr (p, old) ↦ v.own j c old (omega (arith, below, p))
    ];
    unused = λ j c e. elim (written j c e) [
      | inl (p, q) ↦ ap (λ (b : Buffer). b.refcount) q ∙ v.unused i b found
      | inr (p, old) ↦ v.unused j c old
    ];
    counted = λ j.
        ap (occ j) grown ∙ omega (arith, occ-last j i (free_list pool), v.counted j, one_more j);
  }
    where
      written :
          (j : ℕ) (c : Buffer)
          → get_elem? (set pool.buffers i (record b { skbf_addr = i })) j ≡ some c
          → ((i ≡ j) × (c ≡ record b { skbf_addr = i })) ⊎ ((i ≢ j) × (buffer_at pool j ≡ some c))
      written j c e =
          at_set pool.buffers i j (record b { skbf_addr = i }) c (omega (arith, v.size)) e

      one_more : (j : ℕ) → one_if (ltb j i) + one_if (i == j) ≡ one_if (ltb j (i + 1))
      one_more j = ground arith

init_from-Built :
    (k n i : ℕ) (pool : Pool) → Built n i pool → i + k ≡ n → Built n n (init_from k i pool)
unfolding init_from
init_from-Built zero n i pool v e = subst (λ k. Built n k pool) (omega (arith, e)) v
init_from-Built (suc k) n i pool v e =
    let (b, found) = get_elem?-some pool.buffers i (omega (arith, v.size)) in
    rw found
      (init_from-Built k n (i + 1) _ (round-Built n i pool v (omega arith) b found) (omega arith))

absent : (buffers : List Buffer) (j : ℕ) → get_elem? buffers j ≡ none → length buffers ≤ j
absent [] j e = omega arith
absent (b ∷ buffers) zero e = cc
absent (b ∷ buffers) (suc j) e = omega (arith, absent buffers j e)

Built-IsBalanced : (n : ℕ) (pool : Pool) → Built n n pool → IsBalanced pool
Built-IsBalanced n pool v = record {
  valid = v.valid;
  size = omega (arith, v.size, v.len);
  own = λ j b e. v.own j b e (omega (arith, get_elem?-lt pool.buffers j b e, v.size));
  counted = λ j. v.counted j ∙ elim (Option-cases (buffer_at pool j)) [
    | inl e ↦ rw e (ap one_if (not_ltb j n omega (arith, v.size, absent pool.buffers j e)))
    | inr (b, e) ↦
        rw (e, v.unused j b e)
          (ap one_if (lt→ltb j n (omega (arith, get_elem?-lt pool.buffers j b e, v.size))))
  ];
}

-- The queue as csp_queue_create_static leaves it.
abbrev empty_queue : ℕ → List ℕ → Queue ℕ
empty_queue count storage = record { slots = storage; len = count; head = 0; tail = 0; count = 0 }

created :
    (count : ℕ) (storage : List ℕ)
    → 0 < count
    → create_static count 4 (some storage) true ≡ some (empty_queue count storage)
unfolding create_static
created count storage some_count = ground arith

-- csp_buffer_init of `count` buffers without references, and of a queue with as many places, makes a
-- balanced pool in which all of them are free.
pub init-IsBalanced :
    (count : ℕ) (buffers : List Buffer) (storage : List ℕ)
    → 0 < count
    → count < 2 ^ 32
    → length buffers ≡ count
    → count ≤ length storage
    → ((i : ℕ) (b : Buffer) → get_elem? buffers i ≡ some b → b.refcount ≡ 0)
    → (pool : Pool) × (init count buffers storage ≡ some pool)
      × IsBalanced pool
      × (remaining pool ≡ count)
unfolding init remaining messages_waiting occ
init-IsBalanced count buffers storage some_count small size places zeroed =
    let first : Pool = record {
      buffers = buffers;
      csp_buffers = empty_queue count storage;
      dbg_buffer_out = 0;
      dbg_errno = none;
    } in
    let start : Built count 0 first = record {
      valid = record {
        storage = places;
        small = small;
        tail_in = some_count;
        count_in = omega arith;
        head_at = ground arith;
      };
      len = refl;
      size = size;
      queued = refl;
      own = λ j b e below. absurd (omega (arith, below));
      unused = zeroed;
      counted = λ j. sym (ap one_if (not_ltb j 0 (omega arith)));
    } in
    let built = init_from-Built count count 0 first start (omega arith) in
    (
      init_from count 0 first,
      rw (created count storage some_count, init) refl,
      Built-IsBalanced count (init_from count 0 first) built,
      omega
          (arith, length-contents (init_from count 0 first).csp_buffers built.valid, built.queued),
    )
