-- ===== src/Buffer/Balance.antt =====
-- csp_buffer.c: getting and copying buffers, and any sequence of calls, keep the balance of the pool.
use libcsp_dphi.Base.{
  ℕ, ◌<◌, ◌≡◌, ◌⊎◌, ◌∙◌, refl, sym, ap, arith, true, Bool-cases, Option-cases, inl, inr, ◌==◌,
  ==_refl, ==_ne, ==_from, ltb, Option, none, some, List, [], ◌∷◌, set,
}
use libcsp_dphi.Queue.{dequeue, messages_waiting}
use libcsp_dphi.Queue.Fifo.{pick}
use libcsp_dphi.Queue.Order.{contents, dequeue-IsValid, dequeue_refines, len-dequeue}
use libcsp_dphi.Buffer.{
  Buffer, Pool, packet_init, hand_out, take_out, get_actual, get, free, copy_to, copy, clone,
}
use libcsp_dphi.Buffer.Count.{free_list, buffer_at}
use libcsp_dphi.Buffer.Occurrences.{occ, occ_head}
use libcsp_dphi.Buffer.Invariant.{
  IsBalanced, due, due-le, one_if, free-IsBalanced, IsBalanced-record, rebalance,
}

-- What a call that asks for a buffer returns: none, and the buffers stay; or one without
-- references, which then has one.
abbrev pub Gives : Pool → Pool × Option ℕ → Type 0
Gives pool (pool', packet) =
    ((packet ≡ none) × (pool'.buffers ≡ pool.buffers))
    ⊎ ((i : ℕ) × (b : Buffer) × (packet ≡ some i)
        × (buffer_at pool i ≡ some b)
        × (b.refcount ≡ 0)
        × (pool'.buffers
            ≡ set pool.buffers i
                (record b { refcount = 1; base = i; packet = packet_init b.packet })))

take_out-nil :
    (pool : Pool)
    → IsBalanced pool
    → free_list pool ≡ []
    → let r = take_out (dequeue pool.csp_buffers).0 (dequeue pool.csp_buffers).1 pool in
      IsBalanced r.0 × Gives pool r
unfolding take_out pick
take_out-nil pool v e = rw (ap (λ o. o.1) picked) (
  IsBalanced-record pool _ refl (dequeue-IsValid pool.csp_buffers v.valid)
      (len-dequeue pool.csp_buffers) (ap (λ o. o.0) picked ∙ sym e) v,
  inl (refl, refl),
)
  where
    picked :
        ◌≡◌ {A = List ℕ × Option ℕ}
          (contents (dequeue pool.csp_buffers).0, (dequeue pool.csp_buffers).1)
          ([], none)
    picked = dequeue_refines pool.csp_buffers v.valid ∙ ap pick e

take_out-cons :
    (pool : Pool) (i : ℕ) (rest : List ℕ) (b : Buffer)
    → IsBalanced pool
    → free_list pool ≡ i ∷ rest
    → buffer_at pool i ≡ some b
    → b.refcount ≡ 0
    → let r = take_out (dequeue pool.csp_buffers).0 (dequeue pool.csp_buffers).1 pool in
      IsBalanced r.0 × Gives pool r
unfolding take_out hand_out pick occ
take_out-cons pool i rest b v e found unused =
    rw (ap (λ o. o.1) picked, found, same)
      (
        rebalance pool i b _ v found (v.own i b found) _ refl
            (dequeue-IsValid pool.csp_buffers v.valid) (len-dequeue pool.csp_buffers)
            (λ j ne.
              ap (occ j) (ap (λ o. o.0) picked)
              ∙ omega (arith, ap (occ j) e, ap one_if (==_ne i j ne)))
            (ap (occ i) (ap (λ o. o.0) picked)
              ∙ omega (
                arith,
                ap (occ i) e,
                ap one_if (==_refl i),
                v.counted i,
                due-le (buffer_at pool i),
              )),
        inr (i, b, refl, found, unused, refl),
      )
  where
    same : (i == b.skbf_addr) ≡ true
    same = ==_from i b.skbf_addr (sym (v.own i b found))

    picked :
        ◌≡◌ {A = List ℕ × Option ℕ}
          (contents (dequeue pool.csp_buffers).0, (dequeue pool.csp_buffers).1)
          (rest, some i)
    picked = dequeue_refines pool.csp_buffers v.valid ∙ ap pick e

-- A buffer of the queue is in the pool, and has no references.
pub queued_buffer :
    (pool : Pool) (i : ℕ)
    → IsBalanced pool
    → 0 < occ i (free_list pool)
    → (b : Buffer) × (buffer_at pool i ≡ some b) × (b.refcount ≡ 0)
queued_buffer pool i v h = elim (Option-cases (buffer_at pool i)) [
  | inl e ↦ absurd (omega (arith, v.counted i, ap due e))
  | inr (b, e) ↦ (b, e, unused b (omega (arith, v.counted i, ap due e)))
]
  where
    unused : (b : Buffer) → 0 < due (some b) → b.refcount ≡ 0
    unused b h = ground arith

take_out-IsBalanced :
    (pool : Pool) (waiting : List ℕ)
    → free_list pool ≡ waiting
    → IsBalanced pool
    → let r = take_out (dequeue pool.csp_buffers).0 (dequeue pool.csp_buffers).1 pool in
      IsBalanced r.0 × Gives pool r
take_out-IsBalanced pool [] e v = take_out-nil pool v e
take_out-IsBalanced pool (i ∷ rest) e v =
    let (b, found, unused) =
      queued_buffer pool i v (omega (arith, ap (occ i) e, occ_head i rest)) in
    take_out-cons pool i rest b v e found unused

-- A request for a buffer, whatever its reserve, keeps the balance. It returns none and leaves the
-- buffers, or returns one that had no references and now has one, with an empty packet.
pub get_actual-IsBalanced :
    (reserve : ℕ) (pool : Pool)
    → IsBalanced pool
    → IsBalanced (get_actual reserve pool).0 × Gives pool (get_actual reserve pool)
unfolding get_actual
get_actual-IsBalanced reserve pool v =
    elim (Bool-cases (ltb (messages_waiting (some pool.csp_buffers)) reserve)) [
      | inl few ↦ rw few (v, inl (refl, refl))
      | inr many ↦ rw many (take_out-IsBalanced pool (free_list pool) refl v)
    ]

-- Copying a packet leaves the references.
copy-IsBalanced :
    (source target : Option ℕ) (pool : Pool)
    → IsBalanced pool
    → IsBalanced (copy source target pool)
unfolding copy copy_to
copy-IsBalanced none target pool v = v
copy-IsBalanced (some s) none pool v = v
copy-IsBalanced (some s) (some t) pool v = elim (Option-cases (buffer_at pool s)) [
  | inl e ↦ rw e v
  | inr (a, e) ↦ elim (Option-cases (buffer_at pool t)) [
    | inl f ↦ rw (e, f) v
    | inr (b, f) ↦
        rw (e, f)
          (rebalance pool t b (copy_to a b) v f (v.own t b f) _ refl v.valid refl (λ j ne. refl)
            (v.counted t ∙ ap due f))
  ]
]

pub clone-IsBalanced :
    (packet : Option ℕ) (pool : Pool) → IsBalanced pool → IsBalanced (clone packet pool).0
unfolding clone get
clone-IsBalanced none pool v = v
clone-IsBalanced (some i) pool v =
    copy-IsBalanced (some i) (get_actual 2 pool).1 (get_actual 2 pool).0
      (get_actual-IsBalanced 2 pool v).0

-- What the rest of the stack asks of the pool.
pub data Op : Type 0 where
  gets : ℕ → Op
  frees : Option ℕ → Op
  clones : Option ℕ → Op

unfoldable pub step : Op → Pool → Pool
step (gets reserve) pool = (get_actual reserve pool).0
step (frees packet) pool = free packet pool
step (clones packet) pool = (clone packet pool).0

unfoldable pub run : List Op → Pool → Pool
run [] pool = pool
run (op ∷ ops) pool = run ops (step op pool)

-- After any sequence of requests, copies and releases of buffers, double releases and full pools
-- included, from a balanced pool: the queue holds each buffer without references once and no
-- other, and has room for all of them.
pub run-IsBalanced : (ops : List Op) (pool : Pool) → IsBalanced pool → IsBalanced (run ops pool)
unfolding run step
run-IsBalanced [] pool v = v
run-IsBalanced (gets reserve ∷ ops) pool v =
    run-IsBalanced ops (get_actual reserve pool).0 (get_actual-IsBalanced reserve pool v).0
run-IsBalanced (frees packet ∷ ops) pool v =
    run-IsBalanced ops (free packet pool) (free-IsBalanced packet pool v)
run-IsBalanced (clones packet ∷ ops) pool v =
    run-IsBalanced ops (clone packet pool).0 (clone-IsBalanced packet pool v)
