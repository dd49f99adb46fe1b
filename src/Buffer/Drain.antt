-- ===== src/Buffer/Drain.antt =====
-- csp_port.c and csp_conn.c: a queue of packets is emptied, and its packets are freed.
use libcsp_dphi.Base.{
  ℕ, zero, suc, ◌≡◌, ◌∙◌, refl, sym, ap, arith, Option, none, some, List, [], ◌∷◌, length,
}
use libcsp_dphi.Queue.{Queue, dequeue}
use libcsp_dphi.Queue.Fifo.{pick}
use libcsp_dphi.Queue.Order.{IsValid, contents, length-contents, dequeue-IsValid, dequeue_refines}
use libcsp_dphi.Buffer.{Pool, free}

-- The loop `while (csp_queue_dequeue(...) == CSP_QUEUE_OK)`: as many rounds as the queue has items
-- are enough. `none` within an item is a NULL packet.
unfoldable pub drain : ℕ → Queue (Option ℕ) → Pool → Queue (Option ℕ) × Pool
drain zero q pool = (q, pool)
drain (suc rounds) q pool =
    let (q', item) = dequeue q in
    let rest = λ (packet : Option ℕ). drain rounds q' (free packet pool) in
    elim item [ none ↦ (q', pool) | some packet ↦ rest packet ]

-- The packets of a list, freed one after the other.
unfoldable pub free_all : List (Option ℕ) → Pool → Pool
free_all [] pool = pool
free_all (packet ∷ packets) pool = free_all packets (free packet pool)

drains :
    (rounds : ℕ) (q : Queue (Option ℕ)) (pool : Pool) (packets : List (Option ℕ))
    → IsValid q
    → contents q ≡ packets
    → rounds ≡ length packets
    → let (q', pool') = drain rounds q pool in
      IsValid q' × (contents q' ≡ []) × (pool' ≡ free_all packets pool)
unfolding drain free_all pick
drains zero q pool [] v e n = (v, e, refl)
drains zero q pool (packet ∷ packets) v e n = absurd (omega arith)
drains (suc rounds) q pool [] v e n = absurd (omega arith)
drains (suc rounds) q pool (packet ∷ packets) v e n =
    rw (drain, ap (λ o. o.1) picked)
      (drains rounds (dequeue q).0 (free packet pool) packets (dequeue-IsValid q v)
        (ap (λ o. o.0) picked) (omega arith))
  where
    picked :
        ◌≡◌ {A = List (Option ℕ) × Option (Option ℕ)}
          (contents (dequeue q).0, (dequeue q).1)
          (packets, some packet)
    picked = dequeue_refines q v ∙ ap pick e

-- As many rounds as a valid queue holds packets empty it, and each of its packets is freed once, in
-- the order in which they came.
pub drain-free_all :
    (q : Queue (Option ℕ)) (pool : Pool)
    → IsValid q
    → let (q', pool') = drain q.count q pool in
      IsValid q' × (contents q' ≡ []) × (pool' ≡ free_all (contents q) pool)
drain-free_all q pool v = drains q.count q pool (contents q) v refl (sym (length-contents q v))
