-- ===== src/Queue/Tests.antt =====
-- Tests of the ring, and concrete cases of the theorems on it.
use libcsp_dphi.Base.{ℕ, ◌≡◌, refl, arith, true, some, List, [], ◌∷◌}
use libcsp_dphi.Queue.{Queue, create_static}
use libcsp_dphi.Queue.Fifo.{Op, sends, receives}
use libcsp_dphi.Queue.Fifo
use libcsp_dphi.Queue.Order
use libcsp_dphi.Queue.Order.{IsValid, contents, create_static-IsValid, run_refines, reset_empties}
use libcsp_dphi.Samples

contents_test : contents Samples.queue ≡ 5 ∷ 6 ∷ []
contents_test = refl

queue-IsValid : IsValid Samples.queue
queue-IsValid = record {
  storage = omega arith;
  small = omega arith;
  tail_in = omega arith;
  count_in = omega arith;
  head_at = refl;
}

abbrev ops : List (Op ℕ)
ops = sends 7 ∷ receives ∷ sends 8 ∷ sends 9 ∷ receives ∷ []

run_refines_example : Order.run Samples.queue ops ≡ Fifo.run 3 (5 ∷ 6 ∷ []) ops
run_refines_example = run_refines Samples.queue ops queue-IsValid

abbrev made : Queue ℕ
made = record { slots = 0 ∷ 0 ∷ []; len = 2; head = 0; tail = 0; count = 0 }

made_test : create_static 2 4 (some (0 ∷ 0 ∷ [])) true ≡ some made
unfolding create_static
made_test = refl
