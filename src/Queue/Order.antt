-- ===== src/Queue/Order.antt =====
-- A queue returns what was put in, in order: it refines a list of bounded length.
use libcsp_dphi.Base.{
  ℕ, zero, suc, ◌+◌, ◌-◌, ◌≤◌, ◌<◌, ◌^◌, ◌≡◌, ◌≢◌, ◌∙◌, sym, refl, ap, arith, true, false, Bool,
  Bool-cases, ltb→lt, lt→ltb, inl, inr, ltb, if◌then◌else◌, Option, none, some, List, [], ◌∷◌, ◌++◌,
  length, get_elem?, set, length-set, get_elem?-set_self, get_elem?-set_ne, get_elem?-some, u32,
}
use libcsp_dphi.Queue.Fifo
use libcsp_dphi.Queue.{
  Queue, create_static, next, enqueue, dequeue, spaces_available, messages_waiting, reset,
}
use libcsp_dphi.Queue.Fifo.{Op, sends, receives, Reply, sent, received}

-- The index `k` places after `t`.
abbrev pub place : ℕ → ℕ → ℕ → ℕ
place n t k = if ltb (t + k) n then t + k else t + k - n

-- One place further is one place less from the next index.
place-next : (n t k : ℕ) → n < 2 ^ 32 → t < n → suc k ≤ n → place n (next n t) k ≡ place n t (suc k)
place-next n t k small h g = ground arith

place-ne : (n t k : ℕ) → t < n → suc k < n → place n t (suc k) ≢ t
place-ne n t k h g = ground arith

place-lt : (n t k : ℕ) → t < n → k ≤ n → place n t k < n
place-lt n t k h g = ground arith

next-lt : (n t : ℕ) → n < 2 ^ 32 → t < n → next n t < n
next-lt n t small h = ground arith

module _ {ℓ} {A : Type ℓ} where
  abbrev pub cons? : Option A → List A → List A
  cons? none xs = xs
  cons? (some x) xs = x ∷ xs

  -- The `k` items from index `t` on, going round at `n`.
  abbrev pub window : List A → ℕ → ℕ → ℕ → List A
  window xs n t zero = []
  window xs n t (suc k) = cons? (get_elem? xs t) (window xs n (next n t) k)

  -- Oldest first.
  abbrev pub contents : Queue A → List A
  contents q = window q.slots q.len q.tail q.count

  pub record IsValid (q : Queue A) : Type ℓ where
    pub storage : q.len ≤ length q.slots
    pub small : q.len < 2 ^ 32
    pub tail_in : q.tail < q.len
    pub count_in : q.count ≤ q.len
    pub head_at : q.head ≡ place q.len q.tail q.count

  cons?-append :
      (o : Option A) (xs : List A) (x : A) → cons? o (xs ++ x ∷ []) ≡ cons? o xs ++ x ∷ []
  cons?-append none xs x = refl
  cons?-append (some a) xs x = refl

  window-set :
      (xs : List A) (n : ℕ) (x : A) (k t i : ℕ)
      → n ≤ length xs
      → n < 2 ^ 32
      → t < n
      → k < n
      → i ≡ place n t k
      → window (set xs i x) n t (suc k) ≡ window xs n t k ++ x ∷ []
  window-set xs n x zero t i hs small ht hk e = rw (at_t, get_elem?-set_self xs t x (omega arith))
    where
      at_t : i ≡ t
      at_t = ground arith
  window-set xs n x (suc k) t i hs small ht hk e =
      rw
        (
          get_elem?-set_ne xs i t x apart,
          window-set xs n x k (next n t) i hs small (next-lt n t small ht) (omega arith) onward,
        )
        (cons?-append (get_elem? xs t) (window xs n (next n t) k) x)
    where
      apart : i ≢ t
      apart = λ p. place-ne n t k ht hk (sym e ∙ p)

      onward : i ≡ place n (next n t) k
      onward = e ∙ sym (place-next n t k small ht (omega arith))

  length-window :
      (xs : List A) (n t k : ℕ) → n ≤ length xs → n < 2 ^ 32 → t < n → length (window xs n t k) ≡ k
  length-window xs n t zero hs small ht = refl
  length-window xs n t (suc k) hs small ht =
      let (a, found) = get_elem?-some xs t (omega arith) in
      rw found (ap suc (length-window xs n (next n t) k hs small (next-lt n t small ht)))

  pub length-contents : (q : Queue A) → IsValid q → length (contents q) ≡ q.count
  length-contents q v = length-window q.slots q.len q.tail q.count v.storage v.small v.tail_in

  -- A queue that is made is empty and valid, if its memory holds the items it is made for.
  pub create_static-IsValid :
      (len item_size : ℕ) (storage : List A) (q : Queue A)
      → len ≤ length storage
      → len < 2 ^ 32
      → create_static len item_size (some storage) true ≡ some q
      → IsValid q × (contents q ≡ []) × (q.len ≡ len)
  unfolding create_static
  create_static-IsValid len item_size storage q h small e = grind arith

  pub enqueue-IsValid : (q : Queue A) (x : A) → IsValid q → IsValid (enqueue q x).0
  unfolding enqueue
  enqueue-IsValid q x v = ground (arith, length-set q.slots q.head x, place-lt q.len q.tail q.count)

  pub dequeue-IsValid : (q : Queue A) → IsValid q → IsValid (dequeue q).0
  unfolding dequeue
  dequeue-IsValid q v = ground (arith, next-lt q.len q.tail)

  -- `window` matches on `suc`, the code tests `count > 0`.
  window_pos :
      (xs : List A) (n t k : ℕ)
      → 0 < k
      → window xs n t k ≡ cons? (get_elem? xs t) (window xs n (next n t) (k - 1))
  window_pos xs n t zero h = absurd (omega arith)
  window_pos xs n t (suc k) h =
      ap (λ j. window xs n t (suc j)) {x = k} {y = suc k - 1} (omega arith)

  -- Sending is `Fifo.put` on the contents, and receiving is `Fifo.pick`.
  pub enqueue_refines :
      (q : Queue A) (x : A)
      → IsValid q
      → let (q', done) = enqueue q x in (contents q', done) ≡ Fifo.put q.len (contents q) x
  unfolding enqueue Fifo.put
  enqueue_refines q x v = elim (Bool-cases (ltb q.count q.len)) [
    | inl room ↦ rw (length-contents q v, room) (ap (λ l. (l, true)) (longer room ∙ stored room))
    | inr full ↦ rw (length-contents q v, full)
  ]
    where
      longer :
          ltb q.count q.len ≡ true
          → window (set q.slots q.head x) q.len q.tail (u32 (q.count + 1))
            ≡ window (set q.slots q.head x) q.len q.tail (suc q.count)
      longer room =
          ap (window (set q.slots q.head x) q.len q.tail) {x = u32 (q.count + 1)} {y = suc q.count}
            (omega (arith, ltb→lt _ _ room, v.small))

      stored :
          ltb q.count q.len ≡ true
          → window (set q.slots q.head x) q.len q.tail (suc q.count) ≡ contents q ++ x ∷ []
      stored room =
          window-set q.slots q.len x q.count q.tail q.head v.storage v.small v.tail_in
            (ltb→lt _ _ room) v.head_at

  pub dequeue_refines :
      (q : Queue A)
      → IsValid q
      → let (q', item) = dequeue q in (contents q', item) ≡ Fifo.pick (contents q)
  unfolding dequeue Fifo.pick
  dequeue_refines q v = elim (Bool-cases (ltb 0 q.count)) [
    | inl some_left ↦
        let (a, found) = get_elem?-some q.slots q.tail (omega (arith, v.storage, v.tail_in)) in
        rw (some_left, window_pos q.slots q.len q.tail q.count (ltb→lt _ _ some_left), found)
    | inr empty ↦ rw (empty, none_left empty)
  ]
    where
      none_left : ltb 0 q.count ≡ false → q.count ≡ 0
      none_left h = ground arith

  pub len-enqueue : (q : Queue A) (x : A) → (enqueue q x).0.len ≡ q.len
  unfolding enqueue
  len-enqueue q x = elim (Bool-cases (ltb q.count q.len)) [ inl e ↦ rw e | inr e ↦ rw e ]

  pub len-dequeue : (q : Queue A) → (dequeue q).0.len ≡ q.len
  unfolding dequeue
  len-dequeue q = elim (Bool-cases (ltb 0 q.count)) [ inl e ↦ rw e | inr e ↦ rw e ]

  -- A client's calls on a queue, with what each returns.
  pub run : Queue A → List (Op A) → List (Reply A)
  run q [] = []
  run q (sends x ∷ ops) = let (q', done) = enqueue q x in sent done ∷ run q' ops
  run q (receives ∷ ops) = let (q', item) = dequeue q in received item ∷ run q' ops

  -- No sequence of calls tells a valid queue from the list of its items, bounded by its length.
  pub run_refines :
      (q : Queue A) (ops : List (Op A)) → IsValid q → run q ops ≡ Fifo.run q.len (contents q) ops
  unfolding run Fifo.run
  run_refines q [] v = refl
  run_refines q (sends x ∷ ops) v = rw (
    run_refines (enqueue q x).0 ops (enqueue-IsValid q x v),
    ← enqueue_refines q x v,
    len-enqueue q x,
  )
  run_refines q (receives ∷ ops) v =
      rw (run_refines (dequeue q).0 ops (dequeue-IsValid q v), ← dequeue_refines q v, len-dequeue q)

  -- With room, an item is put behind the others.
  pub enqueue_room :
      (q : Queue A) (x : A)
      → IsValid q
      → q.count < q.len
      → ((enqueue q x).1 ≡ true) × (contents (enqueue q x).0 ≡ contents q ++ x ∷ [])
  unfolding Fifo.put
  enqueue_room q x v room =
      let e : ◌≡◌ {A = List A × Bool} (contents (enqueue q x).0, (enqueue q x).1)
          (contents q ++ x ∷ [], true) =
        enqueue_refines q x v ∙ rw (length-contents q v, lt→ltb q.count q.len room) refl in
      (ap (λ o. o.1) e, ap (λ o. o.0) e)

  -- The first of the items comes out.
  pub dequeue_first :
      (q : Queue A) (x : A) (rest : List A)
      → IsValid q
      → contents q ≡ x ∷ rest
      → ((dequeue q).1 ≡ some x) × (contents (dequeue q).0 ≡ rest)
  unfolding Fifo.pick
  dequeue_first q x rest v waiting =
      let e : ◌≡◌ {A = List A × Option A} (contents (dequeue q).0, (dequeue q).1) (rest, some x) =
        dequeue_refines q v ∙ ap Fifo.pick waiting in
      (ap (λ o. o.1) e, ap (λ o. o.0) e)

  -- A reset empties a queue, and the places taken and free make up its length.
  pub reset_empties :
      (q : Queue A)
      → IsValid q
      → let (r, done) = reset (some q) in
        (q' : Queue A) × (r ≡ some q')
        × IsValid q'
        × (contents q' ≡ [])
        × (spaces_available (some q) + messages_waiting (some q) ≡ q.len)
        × (spaces_available r ≡ q.len)
  unfolding reset spaces_available messages_waiting
  reset_empties q v = (
    record q { head = 0; tail = 0; count = 0 },
    refl,
    grind arith,
    refl,
    omega (arith, v.count_in),
    omega arith,
  )
