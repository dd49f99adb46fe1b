-- ===== src/Samples/Balanced.antt =====
-- The wide pool of the samples is balanced.
use libcsp_dphi.Base.{ℕ, zero, suc, ◌≡◌, refl, sym, ap, arith, Option, none, some}
use libcsp_dphi.Buffer.{Buffer}
use libcsp_dphi.Buffer.Count.{free_list, buffer_at}
use libcsp_dphi.Buffer.Occurrences.{occ}
use libcsp_dphi.Buffer.Invariant.{IsBalanced, due}
use libcsp_dphi.Samples

addr_of : {a b : Buffer} → some a ≡ some b → b.skbf_addr ≡ a.skbf_addr
addr_of e = ap (λ (o : Option Buffer). elim o [ none ↦ 0 | some a ↦ a.skbf_addr ]) (sym e)

wide-counted : (i : ℕ) → occ i (free_list Samples.wide_pool) ≡ due (buffer_at Samples.wide_pool i)
unfolding occ
wide-counted zero = refl
wide-counted (suc zero) = refl
wide-counted (suc (suc zero)) = refl
wide-counted (suc (suc (suc zero))) = refl
wide-counted (suc (suc (suc (suc zero)))) = refl
wide-counted (suc (suc (suc (suc (suc zero))))) = refl
wide-counted (suc (suc (suc (suc (suc (suc i)))))) = ground arith

wide-own : (i : ℕ) (b : Buffer) → buffer_at Samples.wide_pool i ≡ some b → b.skbf_addr ≡ i
wide-own zero b e = addr_of e
wide-own (suc zero) b e = addr_of e
wide-own (suc (suc zero)) b e = addr_of e
wide-own (suc (suc (suc zero))) b e = addr_of e
wide-own (suc (suc (suc (suc zero)))) b e = addr_of e
wide-own (suc (suc (suc (suc (suc zero))))) b e = addr_of e
wide-own (suc (suc (suc (suc (suc (suc i)))))) b e = cc

pub wide-IsBalanced : IsBalanced Samples.wide_pool
wide-IsBalanced = record {
  valid = record {
    storage = omega arith;
    small = omega arith;
    tail_in = omega arith;
    count_in = omega arith;
    head_at = refl;
  };
  size = omega arith;
  own = wide-own;
  counted = wide-counted;
}
