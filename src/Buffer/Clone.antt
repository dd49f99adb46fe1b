-- ===== src/Buffer/Clone.antt =====
-- csp_buffer_clone, where there are buffers to spare.
use libcsp_dphi.Base.{
  none-some, ℕ, ◌≤◌, ◌<◌, ◌≡◌, ◌≢◌, ◌∙◌, refl, sym, ap, arith, none, some, some-eq, List, [], ◌∷◌,
  length, inl, inr, get_elem?, get_elem?-lt, get_elem?-set_self, get_elem?-set_ne,
}
use libcsp_dphi.Queue.{messages_waiting}
use libcsp_dphi.Queue.Order.{length-contents}
use libcsp_dphi.Buffer.{Buffer, Pool, get_actual, get, clone, copy, copy_to, packet_init, remaining}
use libcsp_dphi.Buffer.Count.{free_list, buffer_at, get_actual_takes}
use libcsp_dphi.Buffer.Occurrences.{occ, occ_head}
use libcsp_dphi.Buffer.Invariant.{IsBalanced}
use libcsp_dphi.Buffer.Balance.{queued_buffer, get_actual-IsBalanced}

-- With enough buffers free, one is handed out.
gives_one :
    (reserve : ℕ) (pool : Pool) (waiting : List ℕ)
    → IsBalanced pool
    → free_list pool ≡ waiting
    → 0 < length waiting
    → reserve ≤ remaining pool
    → (get_actual reserve pool).1 ≢ none
gives_one reserve pool [] v e more enough = absurd (omega arith)
gives_one reserve pool (i ∷ rest) v e more enough =
    let (b, found, unused) =
      queued_buffer pool i v (omega (arith, ap (occ i) e, occ_head i rest)) in
    λ p.
      none-some i (
        sym p ∙ (get_actual_takes reserve pool i rest b v.valid e found (v.own i b found) enough).0)

some_wait : (pool : Pool) → 2 ≤ remaining pool → 0 < pool.csp_buffers.count
unfolding remaining messages_waiting
some_wait pool enough = omega arith

-- A packet in use is copied to a buffer of its own, if two are free.
pub clone_lem :
    (pool : Pool) (i : ℕ) (b : Buffer)
    → IsBalanced pool
    → buffer_at pool i ≡ some b
    → 0 < b.refcount
    → 2 ≤ remaining pool
    → (k : ℕ) × (c : Buffer) × ((clone (some i) pool).1 ≡ some k)
      × (buffer_at (clone (some i) pool).0 k ≡ some c)
      × (c.packet ≡ b.packet)
unfolding clone get copy copy_to
clone_lem pool i b v found used enough = elim (get_actual-IsBalanced 2 pool v).1 [
  | inl (e, same) ↦ absurd (
      gives_one 2 pool (free_list pool) v refl
        (omega (arith, length-contents pool.csp_buffers v.valid, some_wait pool enough)) enough e)
  | inr (k, a, e, empty, unused, same) ↦
      let new : Buffer = record {
        refcount = 1;
        skbf_addr = a.skbf_addr;
        base = k;
        packet = packet_init a.packet;
      } in
      let inside = get_elem?-lt pool.buffers k a empty in
      let source =
        ap (λ l. get_elem? l i) same
        ∙ get_elem?-set_ne pool.buffers k i new (apart k a empty unused)
        ∙ found in
      let target = ap (λ l. get_elem? l k) same ∙ get_elem?-set_self pool.buffers k new inside in
      rw (e, source, target)
        (
          k,
          copy_to b new,
          refl,
          get_elem?-set_self (get_actual 2 pool).0.buffers k (copy_to b new)
              (get_elem?-lt (get_actual 2 pool).0.buffers k new target),
          refl,
        )
]
  where
    apart : (k : ℕ) (a : Buffer) → buffer_at pool k ≡ some a → a.refcount ≡ 0 → k ≢ i
    apart k a empty unused p = absurd (
        omega (
          arith,
          used,
          unused,
          ap (λ c. c.refcount) (some-eq (sym empty ∙ ap (buffer_at pool) p ∙ found)),
        ))
