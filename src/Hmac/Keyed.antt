-- ===== src/Hmac/Keyed.antt =====
-- csp_hmac_memory against RFC 2104.
use libcsp_dphi.Base.{
  ℕ, ◌-◌, ◌<◌, ◌≡◌, ◌∙◌, refl, ap, arith, bit_xor, false, ltb, if◌then◌else◌, some, List, [], ◌++◌,
  map, length, take, take_all, replicate,
}
use libcsp_dphi.Sha1
use libcsp_dphi.Sha1.{Sha1, process}
use libcsp_dphi.Sha1.Padding.{
  standard, length-standard, Hashed, init-Hashed, process-Hashed, done-Hashed, memory-eq-standard,
}
use libcsp_dphi.Hmac.{State, fit_key, init, update, finish, memory}

-- RFC 2104 with SHA-1: the key made as long as a block, and the two hashes.
abbrev block_key : List ℕ → List ℕ
block_key key =
    if ltb 64 (length key)
    then standard key ++ replicate 44 0
    else key ++ replicate (64 - length key) 0

unfoldable pub rfc2104 : List ℕ → List ℕ → List ℕ
rfc2104 key msg =
    let k = block_key key in
    standard (map (λ b. bit_xor b 0x5C) k ++ standard (map (λ b. bit_xor b 0x36) k ++ msg))

fit_key_lem : (old key : List ℕ) → length old ≡ 64 → fit_key old key ≡ block_key key
unfolding fit_key
fit_key_lem old key n = rw (memory-eq-standard old key n) refl

-- csp_hmac_memory computes the HMAC of RFC 2104 with SHA-1, for every key that is not empty, a key
-- longer than a block included; what lies on the stack is without effect.
pub memory-eq-rfc2104 :
    (old key msg : List ℕ)
    → length old ≡ 64
    → 0 < length key
    → memory old (some key) (some msg) ≡ some (rfc2104 key msg)
unfolding memory init update finish rfc2104
memory-eq-rfc2104 old key msg n h =
    rw (given, fit_key_lem old key n)
      (ap some (
        ap (take 20) (
          ap (λ h. Sha1.done (process (process (Sha1.init inner.md.buf) outer) h))
            (done-Hashed (key_in ++ msg) inner.md hashed)
          ∙ done-Hashed (outer ++ standard (key_in ++ msg)) _ (
              process-Hashed outer _ (standard (key_in ++ msg)) (
                process-Hashed [] (Sha1.init inner.md.buf) outer
                  (init-Hashed inner.md.buf hashed.1.1))))
        ∙ take_all 20 (rfc2104 key msg)
            (omega (arith, length-standard (outer ++ standard (key_in ++ msg))))))
  where
    key_in : List ℕ
    key_in = map (λ b. bit_xor b 0x36) (block_key key)

    outer : List ℕ
    outer = map (λ b. bit_xor b 0x5C) (block_key key)

    inner : State
    inner = record { md = process (process (Sha1.init old) key_in) msg; key = block_key key }

    hashed : Hashed (key_in ++ msg) inner.md
    hashed =
        process-Hashed key_in (process (Sha1.init old) key_in) msg
          (process-Hashed [] (Sha1.init old) key_in (init-Hashed old n))

    given : ltb (length key) 1 ≡ false
    given = ground arith

pub length-rfc2104 : (key msg : List ℕ) → length (rfc2104 key msg) ≡ 20
unfolding rfc2104
length-rfc2104 key msg = length-standard (
    map (λ b. bit_xor b 0x5C) (block_key key)
    ++ standard (map (λ b. bit_xor b 0x36) (block_key key) ++ msg))
