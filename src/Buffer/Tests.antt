-- ===== src/Buffer/Tests.antt =====
-- Tests of the buffer pool, and concrete cases of the theorems on it.
use libcsp_dphi.Base.{ℕ, ◌-◌, ◌<◌, ◌≡◌, ◌⊎◌, refl, arith, Option, none, some, [], ◌∷◌}
use libcsp_dphi.Queue.{Queue, messages_waiting}
use libcsp_dphi.Queue.Order.{IsValid, contents}
use libcsp_dphi.Buffer.{already_free, free, remaining}
use libcsp_dphi.Buffer.Count.{free_list, buffer_at, free_lem}
use libcsp_dphi.Buffer.Drain.{drain, free_all, drain-free_all}
use libcsp_dphi.Samples

pool-IsValid : IsValid (Samples.pool.csp_buffers)
pool-IsValid = record {
  storage = omega arith;
  small = omega arith;
  tail_in = omega arith;
  count_in = omega arith;
  head_at = refl;
}

one_left : 1 ≡ remaining Samples.pool
unfolding remaining messages_waiting
one_left = refl

free_lem_example :
    let pool' = free (some 0) Samples.pool in
    (((Samples.buffer 0 1).refcount ≡ 0)
      × (pool' ≡ record (Samples.pool) { dbg_errno = some already_free }))
    ⊎ (((Samples.buffer 0 1).refcount ≡ 1)
        × (free_list pool' ≡ 2 ∷ 0 ∷ [])
        × IsValid pool'.csp_buffers
        × (buffer_at pool' 0 ≡ some (Samples.buffer 0 0)))
    ⊎ ((1 < (Samples.buffer 0 1).refcount)
        × (pool'.csp_buffers ≡ Samples.pool.csp_buffers)
        × (buffer_at pool' 0 ≡ some (Samples.buffer 0 (1 - 1))))
free_lem_example =
    free_lem Samples.pool 0 (Samples.buffer 0 1) pool-IsValid refl refl (omega (arith, one_left))

abbrev waiting : Queue (Option ℕ)
waiting = record { slots = some 0 ∷ none ∷ some 1 ∷ []; len = 3; head = 1; tail = 2; count = 2 }

waiting-IsValid : IsValid waiting
waiting-IsValid = record {
  storage = omega arith;
  small = omega arith;
  tail_in = omega arith;
  count_in = omega arith;
  head_at = refl;
}

drain-free_all_example :
    let (q', pool') = drain 2 waiting Samples.pool in
    IsValid q' × (contents q' ≡ []) × (pool' ≡ free_all (some 1 ∷ some 0 ∷ []) Samples.pool)
drain-free_all_example = drain-free_all waiting Samples.pool waiting-IsValid
