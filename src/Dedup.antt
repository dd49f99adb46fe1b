-- ===== src/Dedup.antt =====
-- csp_dedup.c: packets that came a short time ago. The packet's checksum is that of its frame.
pub mod Search
pub mod Window
mod Tests
use libcsp_dphi.Base.{
  ℕ, zero, suc, ◌+◌, ◌-◌, ◌%◌, ◌^◌, Bool, true, false, ◌==◌, ltb, if◌then◌else◌, List, get_or, set,
  replicate, u32, bit_and, read_at,
}
use libcsp_dphi.Packet.{Packet}
use libcsp_dphi.Id.{prepend}
use libcsp_dphi.Crc32.{memory}

abbrev pub dedup_count : ℕ
dedup_count = 16

abbrev pub dedup_window_ms : ℕ
dedup_window_ms = 100

-- The static variables.
pub record Seen : Type 0 where
  pub array : List ℕ
  pub timestamp : List ℕ
  pub dedup_in : ℕ

unfoldable pub cleared : Seen
cleared = record {
  array = replicate dedup_count 0;
  timestamp = replicate dedup_count 0;
  dedup_in = 0;
}

-- The loop from index `i` down to `csp_dedup_in`, on fuel: each round is another index.
unfoldable pub search : ℕ → Seen → ℕ → ℕ → ℕ → Bool
search zero seen crc time i = false
search (suc fuel) seen crc time i =
    let rest = search fuel seen crc time (bit_and (u32 (i + (2 ^ 32 - 1))) (dedup_count - 1)) in
    if i == seen.dedup_in
    then false
    else if ltb (u32 (get_or seen.timestamp i 0 + dedup_window_ms)) time
    then false
    else if crc == get_or seen.array i 0
    then true
    else rest

unfoldable pub insert : Seen → ℕ → ℕ → Seen
insert seen crc time = record {
  array = set seen.array seen.dedup_in crc;
  timestamp = set seen.timestamp seen.dedup_in time;
  dedup_in = u32 (seen.dedup_in + 1) % dedup_count;
}

-- The function on a checksum. Sixteen rounds end at `csp_dedup_in` at the latest.
unfoldable pub check : Seen → ℕ → ℕ → Seen × Bool
check seen crc time =
    if search dedup_count seen crc time (u32 (seen.dedup_in + (2 ^ 32 - 1)) % dedup_count)
    then (seen, true)
    else (insert seen crc time, false)

-- csp_dedup_is_duplicate: the packet keeps the header that was packed in front of it. `time` is
-- what csp_get_ms() returns.
unfoldable pub is_duplicate : ℕ → ℕ → Packet → Seen → Packet × Seen × Bool
is_duplicate version time packet seen =
    let p = prepend version packet in
    let (seen', found) = check seen (memory (read_at p.mem p.frame_begin p.frame_length)) time in
    (p, seen', found)
