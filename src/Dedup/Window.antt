-- ===== src/Dedup/Window.antt =====
-- csp_dedup.c: a packet that comes again within the window is found, and what is found was
-- inserted.
use libcsp_dphi.Base.{
  ℕ, zero, suc, ◌+◌, ◌-◌, ◌%◌, ◌^◌, ◌≤◌, ◌<◌, ◌≡◌, ◌≢◌, ◌⊎◌, ◌∙◌, refl, sym, arith, true, false,
  Bool-cases, inl, inr, ◌==◌, ==_iff, ==_refl, ==_ne, subst, ltb, length, get_or, length-set,
  get_or-set_self, u32, bit_and,
}
use libcsp_dphi.Dedup.{Seen, dedup_count, dedup_window_ms, search, insert, check}

-- The ring has its sixteen places.
pub record IsRing (seen : Seen) : Type 0 where
  pub sums : length seen.array ≡ dedup_count
  pub times : length seen.timestamp ≡ dedup_count
  pub inside : seen.dedup_in < dedup_count

-- A place of the ring has the checksum, and its time is no more than the window ago.
abbrev pub IsRecent : Seen → ℕ → ℕ → ℕ → Type 0
IsRecent seen crc time j =
    (get_or seen.array j 0 ≡ crc) × (time ≤ u32 (get_or seen.timestamp j 0 + dedup_window_ms))

never : false ≡ true → ⊥
never h = cc

search_finds :
    (fuel : ℕ) (seen : Seen) (crc time i : ℕ)
    → search fuel seen crc time i ≡ true
    → (j : ℕ) × IsRecent seen crc time j × (j ≢ seen.dedup_in)
unfolding search
search_finds zero seen crc time i h = cc
search_finds (suc fuel) seen crc time i h = elim (Bool-cases (i == seen.dedup_in)) [
  | inl e ↦ absurd (never (rw e at h))
  | inr e ↦ elim (Bool-cases (ltb (u32 (get_or seen.timestamp i 0 + dedup_window_ms)) time)) [
    | inl old ↦ absurd (never (rw (e, old) at h))
    | inr new ↦ elim (Bool-cases (crc == get_or seen.array i 0)) [
      | inl same ↦
          (i, (sym ((==_iff crc (get_or seen.array i 0)).0 same), ground arith), ground arith)
      | inr other ↦
          search_finds fuel seen crc time (bit_and (u32 (i + (2 ^ 32 - 1))) (dedup_count - 1))
            (rw (e, new, other) at h)
    ]
  ]
]

-- A packet is called a duplicate only if a place of the ring other than the next to be written has
-- its checksum with a time that is no more than the window ago; then the ring stays as it is.
-- Otherwise it is a ring still, and its latest entry is the packet's checksum and the time.
pub check_lem :
    (seen : Seen) (crc time : ℕ)
    → IsRing seen
    → let (seen', found) = check seen crc time in
      ((found ≡ true) × (seen' ≡ seen) × (j : ℕ) × IsRecent seen crc time j × (j ≢ seen.dedup_in))
      ⊎ ((found ≡ false)
          × IsRing seen'
          × (get_or seen'.array seen.dedup_in 0 ≡ crc)
          × (get_or seen'.timestamp seen.dedup_in 0 ≡ time)
          × (seen'.dedup_in ≡ (seen.dedup_in + 1) % dedup_count))
unfolding check insert
check_lem seen crc time v =
    elim (Bool-cases
      (search dedup_count seen crc time (u32 (seen.dedup_in + (2 ^ 32 - 1)) % dedup_count))) [
        | inl e ↦
            let (j, r, n) = search_finds dedup_count seen crc time _ e in
            inl (rw e (refl, refl, j, r, n))
        | inr e ↦ inr (
            rw e (
              refl,
              record {
                sums = length-set seen.array seen.dedup_in crc ∙ v.sums;
                times = length-set seen.timestamp seen.dedup_in time ∙ v.times;
                inside = omega arith;
              },
              get_or-set_self seen.array seen.dedup_in crc 0 (omega (arith, v.sums, v.inside)),
              get_or-set_self seen.timestamp seen.dedup_in time 0
                  (omega (arith, v.times, v.inside)),
              omega (arith, v.inside),
            ))
      ]

found :
    (seen : Seen) (crc time : ℕ)
    → search dedup_count seen crc time (u32 (seen.dedup_in + (2 ^ 32 - 1)) % dedup_count) ≡ true
    → (check seen crc time).1 ≡ true
unfolding check
found seen crc time h = rw h

misses :
    (seen : Seen) (crc time : ℕ)
    → (check seen crc time).1 ≡ false
    → (check seen crc time).0 ≡ insert seen crc time
unfolding check
misses seen crc time h =
    elim (Bool-cases
      (search dedup_count seen crc time (u32 (seen.dedup_in + (2 ^ 32 - 1)) % dedup_count))) [
        | inl e ↦ absurd (never (sym (rw e at h)))
        | inr e ↦ rw e
      ]

finds :
    (fuel : ℕ) (seen : Seen) (crc time i : ℕ)
    → i ≢ seen.dedup_in
    → time ≤ u32 (get_or seen.timestamp i 0 + dedup_window_ms)
    → get_or seen.array i 0 ≡ crc
    → search (suc fuel) seen crc time i ≡ true
unfolding search
finds fuel seen crc time i ne recent same = rw (==_ne i seen.dedup_in ne, fresh, same, ==_refl crc)
  where
    fresh : ltb (u32 (get_or seen.timestamp i 0 + dedup_window_ms)) time ≡ false
    fresh = ground arith

module _ (seen : Seen) (crc time : ℕ) (v : IsRing seen) where
  back : u32 ((insert seen crc time).dedup_in + (2 ^ 32 - 1)) % dedup_count ≡ seen.dedup_in
  unfolding insert
  back = omega (arith, v.inside)

  moved : seen.dedup_in ≢ (insert seen crc time).dedup_in
  unfolding insert
  moved = λ e. omega (arith, v.inside, e)

  stamped :
      (later : ℕ)
      → time + dedup_window_ms < 2 ^ 32
      → later ≤ time + dedup_window_ms
      → later ≤ u32 (get_or (insert seen crc time).timestamp seen.dedup_in 0 + dedup_window_ms)
  unfolding insert
  stamped later small near =
      rw (get_or-set_self seen.timestamp seen.dedup_in time 0 (omega (arith, v.times, v.inside)))
        (omega arith)

  stored : get_or (insert seen crc time).array seen.dedup_in 0 ≡ crc
  unfolding insert
  stored = get_or-set_self seen.array seen.dedup_in crc 0 (omega (arith, v.sums, v.inside))

-- A packet that was not a duplicate is one when it comes again within the window, whatever else the
-- ring holds, as long as the time does not overflow.
pub check_again :
    (seen : Seen) (crc time later : ℕ)
    → IsRing seen
    → (check seen crc time).1 ≡ false
    → time + dedup_window_ms < 2 ^ 32
    → later ≤ time + dedup_window_ms
    → (check (check seen crc time).0 crc later).1 ≡ true
check_again seen crc time later v h small near =
    subst (λ s. (check s crc later).1 ≡ true) (sym (misses seen crc time h))
      (found (insert seen crc time) crc later (
        subst (λ i. search dedup_count (insert seen crc time) crc later i ≡ true)
          (sym (back seen crc time v))
          (finds 15 (insert seen crc time) crc later seen.dedup_in (moved seen crc time v)
            (stamped seen crc time v later small near) (stored seen crc time v))))
