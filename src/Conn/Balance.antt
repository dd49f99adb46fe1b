-- ===== src/Conn/Balance.antt =====
-- csp_conn.c: opening and closing a connection keeps the pool of buffers balanced.
use libcsp_dphi.Base.{
  ℕ, zero, suc, refl, Bool-cases, Option-cases, inl, inr, Option, none, some, get_elem?,
}
use libcsp_dphi.Packet.{CspId}
use libcsp_dphi.Queue.{Queue, dequeue}
use libcsp_dphi.Buffer.{Pool, free}
use libcsp_dphi.Buffer.Drain.{drain}
use libcsp_dphi.Buffer.Invariant.{IsBalanced, free-IsBalanced, IsBalanced-record}
use libcsp_dphi.Conn.{
  Kind, Table, is_open, close, close_found, flush_rx_queue, allocate, new, set_up, set_up_allocated,
}

pub drain-IsBalanced :
    (rounds : ℕ) (q : Queue (Option ℕ)) (pool : Pool)
    → IsBalanced pool
    → IsBalanced (drain rounds q pool).1
unfolding drain
drain-IsBalanced zero q pool v = v
drain-IsBalanced (suc rounds) q pool v = elim (Option-cases (dequeue q).1) [
  | inl e ↦ rw (e, drain) v
  | inr (p, e) ↦
      rw (e, drain) (drain-IsBalanced rounds (dequeue q).0 (free p pool) (free-IsBalanced p pool v))
]

pub close-IsBalanced :
    (c : ℕ) (table : Table) (pool : Pool)
    → IsBalanced pool
    → IsBalanced (close (some c) table pool).1
unfolding close close_found flush_rx_queue
close-IsBalanced c table pool v = elim (Option-cases (get_elem? table.arr_conn c)) [
  | inl e ↦ rw e v
  | inr (conn, e) ↦ elim (Bool-cases (is_open conn.state)) [
    | inl opened ↦ rw (e, opened) (drain-IsBalanced conn.rx_queue.count conn.rx_queue pool v)
    | inr closed ↦ rw (e, closed) (IsBalanced-record pool _ refl v.valid refl refl v)
  ]
]

pub new-IsBalanced :
    (conn_max : ℕ) (idin idout : CspId) (kind : Kind) (now : ℕ) (table : Table) (pool : Pool)
    → IsBalanced pool
    → IsBalanced (new conn_max idin idout kind now table pool).1
unfolding new set_up_allocated set_up flush_rx_queue
new-IsBalanced conn_max idin idout kind now table pool v =
    allocated (allocate conn_max kind table).1 (allocate conn_max kind table).0
  where
    allocated : (o : Option ℕ) (t : Table) → IsBalanced (set_up_allocated idin idout now o t pool).1
    allocated none t = v
    allocated (some c) t = elim (Option-cases (get_elem? t.arr_conn c)) [
      | inl e ↦ rw e v
      | inr (conn, e) ↦ rw e (drain-IsBalanced conn.rx_queue.count conn.rx_queue pool v)
    ]
