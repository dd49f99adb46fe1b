-- ===== src/Buffer/Count.antt =====
-- csp_buffer.c: which buffers are free, on every branch of getting and freeing one.
use libcsp_dphi.Base.{
  ℕ, ◌-◌, ◌≤◌, ◌<◌, ◌≡◌, ◌⊎◌, ◌∙◌, refl, sym, ap, arith, true, false, Bool-cases, inl, inr, ◌==◌,
  ==_iff, ltb, lt→ltb, Option, none, some, List, [], ◌∷◌, ◌++◌, length, get_elem?,
  get_elem?-set_self, get_elem?-lt,
}
use libcsp_dphi.Queue.{dequeue, messages_waiting}
use libcsp_dphi.Queue.Fifo.{put, pick}
use libcsp_dphi.Queue.Order.{
  IsValid, contents, length-contents, enqueue-IsValid, dequeue-IsValid, enqueue_refines,
  dequeue_refines,
}
use libcsp_dphi.Buffer.{
  Buffer, already_free, Pool, packet_init, hand_out, take_out, get_actual, release, free, remaining,
}

-- The free buffers, in the order in which they will be handed out.
abbrev pub free_list : Pool → List ℕ
free_list pool = contents pool.csp_buffers

-- The buffers of the queue are in the pool.
abbrev pub buffer_at : Pool → ℕ → Option Buffer
buffer_at pool i = get_elem? pool.buffers i

-- A buffer that is got is the first free one, if at least `reserve` buffers are free: it is no
-- longer free, it has one reference and an empty packet, and the others stay free in their order.
pub get_actual_takes :
    (reserve : ℕ) (pool : Pool) (i : ℕ) (rest : List ℕ) (b : Buffer)
    → IsValid pool.csp_buffers
    → free_list pool ≡ i ∷ rest
    → buffer_at pool i ≡ some b
    → b.skbf_addr ≡ i
    → reserve ≤ remaining pool
    → let (pool', packet) = get_actual reserve pool in
      (packet ≡ some i)
      × (free_list pool' ≡ rest)
      × IsValid pool'.csp_buffers
      × (buffer_at pool' i
          ≡ some (record {
            refcount = 1;
            skbf_addr = b.skbf_addr;
            base = i;
            packet = packet_init b.packet;
          }))
unfolding get_actual remaining take_out hand_out pick
get_actual_takes reserve pool i rest b v e found own enough =
    rw (many, taken, found, same)
      (
        refl,
        ap (λ o. o.0) picked,
        dequeue-IsValid pool.csp_buffers v,
        get_elem?-set_self pool.buffers i _ (get_elem?-lt pool.buffers i b found),
      )
  where
    many : ltb (messages_waiting (some pool.csp_buffers)) reserve ≡ false
    many = ground arith

    same : (i == b.skbf_addr) ≡ true
    same = ground arith

    picked :
        ◌≡◌ {A = List ℕ × Option ℕ}
          (contents (dequeue pool.csp_buffers).0, (dequeue pool.csp_buffers).1)
          (rest, some i)
    picked = dequeue_refines pool.csp_buffers v ∙ ap pick e

    taken : (dequeue pool.csp_buffers).1 ≡ some i
    taken = ap (λ o. o.1) picked

-- With fewer than `reserve` buffers free, or none, nothing is handed out and the free ones stay.
pub get_actual_refuses :
    (reserve : ℕ) (pool : Pool)
    → IsValid pool.csp_buffers
    → (remaining pool < reserve) ⊎ (free_list pool ≡ [])
    → let (pool', packet) = get_actual reserve pool in
      (packet ≡ none) × (free_list pool' ≡ free_list pool) × (pool'.buffers ≡ pool.buffers)
unfolding get_actual remaining take_out pick
get_actual_refuses reserve pool v h =
    elim (Bool-cases (ltb (messages_waiting (some pool.csp_buffers)) reserve)) [
      | inl few ↦ rw few (refl, refl, refl)
      | inr many ↦
          rw (many, ap (λ o. o.1) (picked many))
            (refl, ap (λ o. o.0) (picked many) ∙ sym (empty many), refl)
    ]
  where
    empty : ltb (messages_waiting (some pool.csp_buffers)) reserve ≡ false → free_list pool ≡ []
    empty many = elim h [ inl few ↦ absurd (ground arith) | inr e ↦ e ]

    picked :
        ltb (messages_waiting (some pool.csp_buffers)) reserve ≡ false
        → ◌≡◌ {A = List ℕ × Option ℕ}
            (contents (dequeue pool.csp_buffers).0, (dequeue pool.csp_buffers).1)
            ([], none)
    picked many = dequeue_refines pool.csp_buffers v ∙ ap pick (empty many)

-- What freeing does to a buffer of the pool, by its references: with none it is an error and
-- nothing else changes; the last one puts the buffer behind the free ones; of more, one is taken
-- away.
pub free_lem :
    (pool : Pool) (i : ℕ) (b : Buffer)
    → IsValid pool.csp_buffers
    → buffer_at pool i ≡ some b
    → b.skbf_addr ≡ i
    → remaining pool < pool.csp_buffers.len
    → let pool' = free (some i) pool in
      ((b.refcount ≡ 0) × (pool' ≡ record pool { dbg_errno = some already_free }))
      ⊎ ((b.refcount ≡ 1)
          × (free_list pool' ≡ free_list pool ++ i ∷ [])
          × IsValid pool'.csp_buffers
          × (buffer_at pool' i ≡ some (record b { refcount = 0 })))
      ⊎ ((1 < b.refcount)
          × (pool'.csp_buffers ≡ pool.csp_buffers)
          × (buffer_at pool' i ≡ some (record b { refcount = b.refcount - 1 })))
unfolding free release remaining messages_waiting put
free_lem pool i b v found own room = elim (Bool-cases (b.refcount == 0)) [
  | inl zero_left ↦ inl ((==_iff b.refcount 0).0 zero_left, rw (found, same, zero_left))
  | inr left ↦ elim (Bool-cases (ltb 0 (b.refcount - 1))) [
    | inl more ↦ inr (
        inr (
          rw (found, same, left, more)
            (ground arith, refl, get_elem?-set_self pool.buffers i _ inside)))
    | inr last ↦ inr (
        inl (
          rw (found, same, left, last)
            (
              ground arith,
              ap (λ o. o.0) (enqueue_refines pool.csp_buffers i v) ∙ behind,
              enqueue-IsValid pool.csp_buffers i v,
              get_elem?-set_self pool.buffers i _ inside
                  ∙ ap (λ n. some (record b { refcount = n })) {x = b.refcount - 1} {y = 0}
                      (ground arith),
            )))
  ]
]
  where
    same : (b.skbf_addr == i) ≡ true
    same = ground arith

    inside : i < length pool.buffers
    inside = get_elem?-lt pool.buffers i b found

    behind : (put pool.csp_buffers.len (free_list pool) i).0 ≡ free_list pool ++ i ∷ []
    behind = rw (
      length-contents pool.csp_buffers v,
      lt→ltb pool.csp_buffers.count pool.csp_buffers.len room,
    )
