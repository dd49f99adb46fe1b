-- ===== src/Dedup/Tests.antt =====
-- Tests of the duplicates, and concrete cases of the theorems on them.
use libcsp_dphi.Base.{ℕ, ◌+◌, ◌%◌, ◌≡◌, ◌≢◌, ◌⊎◌, refl, arith, true, false, get_or, replicate}
use libcsp_dphi.Dedup.{Seen, dedup_count, cleared, check, search}
use libcsp_dphi.Dedup.Window.{IsRing, IsRecent, check_lem, check_again}

abbrev seen : Seen
seen = record { array = replicate 16 0; timestamp = replicate 16 0; dedup_in = 15 }

-- A checksum of 0 in the first tenth of a second is taken for that of a packet that never came.
cleared_test : (check cleared 0 50).1 ≡ true
unfolding check search cleared
cleared_test = refl

seen-IsRing : IsRing seen
seen-IsRing = record { sums = refl; times = refl; inside = omega arith }

check_lem_example :
    let (seen', found) = check seen 9 50 in
    ((found ≡ true) × (seen' ≡ seen) × (j : ℕ) × IsRecent seen 9 50 j × (j ≢ 15))
    ⊎ ((found ≡ false)
        × IsRing seen'
        × (get_or seen'.array 15 0 ≡ 9)
        × (get_or seen'.timestamp 15 0 ≡ 50)
        × (seen'.dedup_in ≡ (15 + 1) % dedup_count))
check_lem_example = check_lem seen 9 50 seen-IsRing

first : (check seen 9 50).1 ≡ false
unfolding check search
first = refl

again : (check (check seen 9 50).0 9 150).1 ≡ true
again = check_again seen 9 50 150 seen-IsRing first (omega arith) (omega arith)
