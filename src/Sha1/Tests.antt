-- ===== src/Sha1/Tests.antt =====
-- Runs of csp_sha1.c.
use libcsp_dphi.Base.{ℕ, ◌+◌, ◌*◌, ◌≡◌, refl, arith, List, [], ◌∷◌, replicate, of_be, u64}
use libcsp_dphi.Sha1.Blocks.{view, absorb, IsValid, total, process_lem}
use libcsp_dphi.Sha1.Padding.{standard, memory-eq-standard}
use libcsp_dphi.Sha1.{
  memory, done, mark, finish, process, init, compress, rounds, ff, rol, load, expand, zero_fill,
  flush, process_from, process_round, fill_buf, take_block,
}

abbrev zeros : List ℕ
zeros = replicate 64 0

-- The hash of "abc" that FIPS 180 gives.
memory_abc :
    memory zeros (0x61 ∷ 0x62 ∷ 0x63 ∷ [])
    ≡ 0xA9 ∷ 0x99 ∷ 0x3E ∷ 0x36 ∷ 0x47 ∷ 0x06 ∷ 0x81 ∷ 0x6A ∷ 0xBA ∷ 0x3E ∷ 0x25 ∷ 0x71 ∷ 0x78
      ∷ 0x50 ∷ 0xC2 ∷ 0x6C ∷ 0x9C ∷ 0xD0 ∷ 0xD8 ∷ 0x9D ∷ []
unfolding memory done mark finish process compress rounds ff rol load expand zero_fill flush
    process_from process_round fill_buf take_block of_be
memory_abc = refl

abbrev abc : List ℕ
abc = 0x61 ∷ 0x62 ∷ 0x63 ∷ []

memory-eq-standard_example : memory zeros abc ≡ standard abc
memory-eq-standard_example = memory-eq-standard zeros abc refl

process_lem_example :
    (view (process (init zeros) abc) ≡ absorb (view (init zeros)) abc)
    × IsValid (process (init zeros) abc)
    × (u64 (total (process (init zeros) abc)) ≡ u64 (0 + 3 * 8))
process_lem_example = process_lem (init zeros) abc (omega arith, refl)
