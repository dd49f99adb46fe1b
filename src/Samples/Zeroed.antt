-- ===== src/Samples/Zeroed.antt =====
-- Memory as the start-up code of the platform leaves it.
use libcsp_dphi.Base.{
  ℕ, zero, suc, ◌≡◌, refl, sym, ap, arith, Option, some, none, get_elem?, replicate,
}
use libcsp_dphi.Buffer.{Buffer}
use libcsp_dphi.Node.{Input}
use libcsp_dphi.Init.{Memory}
use libcsp_dphi.Init.Ready.{IsZeroed}
use libcsp_dphi.Samples

abbrev input : Input
input = record { iface = none; packet = none }

abbrev pub memory : Memory
memory = record {
  buffers = replicate 8 (Samples.buffer 0 0);
  free_buffers = replicate 8 0;
  rx_queue = replicate 4 none;
  inputs = replicate 16 input;
}

all_same : (n i : ℕ) (a b : Buffer) → get_elem? (replicate n a) i ≡ some b → b.refcount ≡ a.refcount
all_same zero i a b e = cc
all_same (suc n) zero a b e =
    ap (λ (o : Option Buffer). elim o [ none ↦ 0 | some c ↦ c.refcount ]) (sym e)
all_same (suc n) (suc i) a b e = all_same n i a b e

pub memory-IsZeroed : IsZeroed memory
memory-IsZeroed = record {
  buffers = refl;
  unused = λ i b e. all_same 8 i (Samples.buffer 0 0) b e;
  free_buffers = omega arith;
  rx_queue = omega arith;
  inputs = omega arith;
}
