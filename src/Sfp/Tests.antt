-- ===== src/Sfp/Tests.antt =====
-- Tests of the fragments, and a concrete case of the theorem on them.
use libcsp_dphi.Base.{◌≡◌, refl, arith, ℕ, List, Option, some, none, [], ◌∷◌, map, replicate}
use libcsp_dphi.Sfp.{send, recv, send_from, as_int, err_none, err_nomem, err_inval}
use libcsp_dphi.Sfp.Fragments.{arrive}
use libcsp_dphi.Sfp.RoundTrip.{recv-send}
use libcsp_dphi.Samples

-- Without a buffer nothing is sent.
send_test : send Samples.id (1 ∷ 2 ∷ []) 2 1 [] ≡ ([], err_nomem)
unfolding send send_from
send_test = refl

send_mtu_test : send Samples.id (1 ∷ 2 ∷ []) 2 249 [] ≡ ([], err_inval)
unfolding send
send_mtu_test = refl

abbrev zeros : ℕ → Option (List ℕ)
zeros n = some (replicate n 0)

-- Three bytes in two fragments.
recv-send_example :
    let (sent, status) =
      send Samples.id (1 ∷ 2 ∷ 3 ∷ []) 3 2 (Samples.packet ∷ Samples.packet ∷ []) in
    (status ≡ err_none)
    × (recv zeros none (map arrive sent) ≡ (some (1 ∷ 2 ∷ 3 ∷ [], as_int 3), err_none))
recv-send_example =
    recv-send zeros Samples.id (1 ∷ 2 ∷ 3 ∷ []) 3 2 (Samples.packet ∷ Samples.packet ∷ [])
      (0 ∷ 0 ∷ 0 ∷ []) refl (omega arith) (omega arith) (omega arith) (omega arith)
      (refl, (refl, tt)) (omega arith) refl refl
