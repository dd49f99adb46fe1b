-- ===== src/Dedup/Search.antt =====
-- csp_dedup.c: exactly which packets the search of the ring finds.
use libcsp_dphi.Base.{
  ℕ, suc, ◌+◌, ◌-◌, ◌%◌, ◌^◌, ◌≤◌, ◌<◌, ◌≡◌, ◌∙◌, sym, arith, true, false, Bool-cases, inl, inr,
  ◌==◌, ==_from, ltb, ltb→lt, ltb_fails, get_or, u32,
}
use libcsp_dphi.Dedup.{Seen, dedup_count, dedup_window_ms}
use libcsp_dphi.Dedup.Window.{IsRing}

-- The place of the entry that is the `k`th latest, counted from 1.
abbrev pub place : Seen → ℕ → ℕ
place seen k = (seen.dedup_in + (dedup_count - k)) % dedup_count

-- The time of an entry is not more than the window before `time`, in 32 bits.
abbrev pub IsFresh : Seen → ℕ → ℕ → Type 0
IsFresh seen time j = time ≤ u32 (get_or seen.timestamp j 0 + dedup_window_ms)

-- The `m`th latest entry has the checksum, and none from the `k`th latest to it is too old.
abbrev pub IsHit : Seen → ℕ → ℕ → ℕ → ℕ → Type 0
IsHit seen crc time k m =
    (k ≤ m)
    × (m < dedup_count)
    × (get_or seen.array (place seen m) 0 ≡ crc)
    × ((j : ℕ) → k ≤ j → j ≤ m → IsFresh seen time (place seen j))

never : false ≡ true → ⊥
never h = cc

module _ (seen : Seen) (crc time : ℕ) (v : IsRing seen) where
  start : u32 (seen.dedup_in + (2 ^ 32 - 1)) % dedup_count ≡ place seen 1
  start = omega (arith, v.inside)

  inside :
      (fuel k : ℕ) → suc fuel + k ≡ 17 → (place seen k == seen.dedup_in) ≡ false → k < dedup_count
  inside fuel k n here = elim (Bool-cases (ltb k dedup_count)) [
    | inl less ↦ ltb→lt k dedup_count less
    | inr last ↦
        let round : place seen k ≡ seen.dedup_in =
          omega (arith, v.inside, n, ltb_fails k dedup_count last) in
        absurd (never (sym here ∙ ==_from (place seen k) seen.dedup_in round))
  ]
