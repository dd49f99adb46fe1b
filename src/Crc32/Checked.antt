-- ===== src/Crc32/Checked.antt =====
-- csp_crc32_append and csp_crc32_verify: which packets pass, and that an appended checksum does.
use libcsp_dphi.Base.{
  ℕ, ◌+◌, ◌-◌, ◌≤◌, ◌<◌, ◌≡◌, ◌∙◌, ap, ap₂, refl, sym, arith, none, some, Bool, true, false, ◌↔◌,
  ◌⊎◌, inl, inr, List, [], ◌∷◌, ◌++◌, ==_refl, ltb, ◌||◌, if◌then◌else◌, Bool-cases, read_at,
  write_at, read_at-write_at, read_at-write_at_before, length-write_at, be32, u16, lt→ltb, ltb→lt,
}
use libcsp_dphi.Packet.{Packet, data_start, buffer_size, payload, IsSized}
use libcsp_dphi.Id.{prepend, header_size}
use libcsp_dphi.Id.Layout.{header, prepend_lem, read_at-prepend, frame-prepend}
use libcsp_dphi.Crc32.{memory, append, verify, same_bytes}

pub same_bytes_refl : (xs : List ℕ) → same_bytes xs xs ≡ true
unfolding same_bytes
same_bytes_refl [] = refl
same_bytes_refl (x ∷ xs) = rw (==_refl x) (same_bytes_refl xs)

pub same_bytes→eq : (xs ys : List ℕ) → same_bytes xs ys ≡ true → xs ≡ ys
unfolding same_bytes
same_bytes→eq [] [] h = refl
same_bytes→eq [] (y ∷ ys) h = cc
same_bytes→eq (x ∷ xs) [] h = cc
same_bytes→eq (x ∷ xs) (y ∷ ys) h = ground (arith, same_bytes→eq xs ys)

or_true : (b : Bool) → (b || true) ≡ true
or_true true = refl
or_true false = refl

-- The checksum that a packet carries, and the data before it.
abbrev pub trailer : Packet → List ℕ
trailer p = read_at p.mem (data_start + p.len - 4) 4

abbrev pub body : Packet → List ℕ
body p = read_at p.mem data_start (p.len - 4)

-- The trailer is the checksum of the data, with the header in front or without.
abbrev pub Matches : ℕ → Packet → Type 0
Matches version p =
    (trailer p ≡ be32 (memory (header version p.id ++ body p)))
    ⊎ (trailer p ≡ be32 (memory (body p)))

matching : ℕ → Packet → Bool
matching version p =
    same_bytes (trailer p) (be32 (memory (header version p.id ++ body p)))
    || same_bytes (trailer p) (be32 (memory (body p)))

matching_iff : (version : ℕ) (p : Packet) → (matching version p ≡ true) ↔ Matches version p
unfolding matching
matching_iff version p = (there, back)
  where
    framed : List ℕ
    framed = be32 (memory (header version p.id ++ body p))

    plain : List ℕ
    plain = be32 (memory (body p))

    there : matching version p ≡ true → Matches version p
    there h = elim (Bool-cases (same_bytes (trailer p) framed)) [
      | inl e ↦ inl (same_bytes→eq (trailer p) framed e)
      | inr e ↦ inr (same_bytes→eq (trailer p) plain (rw e at h))
    ]

    back : Matches version p → matching version p ≡ true
    back (inl e) = rw (e, same_bytes_refl framed)
    back (inr e) = rw (e, same_bytes_refl plain) (or_true (same_bytes plain framed))

module _ (version : ℕ) (p : Packet) (sized : IsSized p) (short : p.len ≤ buffer_size)
    (long : 4 ≤ p.len) where
  prepared : Packet
  prepared = prepend version p

  few : ltb p.len 4 ≡ false
  few = ground arith

  len-prepared : prepared.len ≡ p.len
  unfolding prepared
  len-prepared = rw (prepend_lem version p)

  stored : read_at prepared.mem (data_start + p.len - 4) 4 ≡ trailer p
  unfolding prepared
  stored = read_at-prepend version p (data_start + p.len - 4) 4 (omega arith)

  plain : read_at prepared.mem data_start (p.len - 4) ≡ body p
  unfolding prepared
  plain = read_at-prepend version p data_start (p.len - 4) (omega arith)

  framed :
      read_at prepared.mem prepared.frame_begin (prepared.frame_length - 4)
      ≡ header version p.id ++ body p
  unfolding prepared
  framed =
      ap₂ (read_at (prepend version p).mem) {x = (prepend version p).frame_begin}
        {y = data_start - header_size version} {u = (prepend version p).frame_length - 4}
        {v = header_size version + (p.len - 4)} (ground (arith, prepend_lem version p))
        (ground (arith, prepend_lem version p))
      ∙ frame-prepend version p (p.len - 4) sized

  -- The check in terms of the packet that was handed in.
  verify_long : verify version p ≡ (
      if matching version p
      then (record (prepend version p) { len = p.len - 4 }, true)
      else (prepend version p, false))
  unfolding verify matching prepared
  verify_long = rw (few, framed, len-prepared, stored, plain)

pub verify_short : (version : ℕ) (p : Packet) → p.len < 4 → verify version p ≡ (p, false)
unfolding verify
verify_short version p h = rw (lt→ltb p.len 4 h)

-- A check passes exactly on a packet of at least four bytes whose last four are the checksum of the
-- bytes before them, with the header in front of those or without.
pub verify-Matches :
    (version : ℕ) (p : Packet)
    → IsSized p
    → p.len ≤ buffer_size
    → ((verify version p).1 ≡ true) ↔ ((4 ≤ p.len) × Matches version p)
verify-Matches version p sized short = (there, back)
  where
    there : (verify version p).1 ≡ true → (4 ≤ p.len) × Matches version p
    there h = elim (Bool-cases (ltb p.len 4)) [
      | inl few ↦ absurd (ground (arith, verify_short version p (ltb→lt _ _ few)))
      | inr many ↦
          let long : 4 ≤ p.len = ground arith in
          (
            long,
            (matching_iff version p).0 (ground (arith, verify_long version p sized short long)),
          )
    ]

    back : (4 ≤ p.len) × Matches version p → (verify version p).1 ≡ true
    back (long, m) = rw (verify_long version p sized short long, (matching_iff version p).1 m)

-- A packet that passes loses its checksum and nothing else of its data; its identifier stays.
pub verify_strips :
    (version : ℕ) (p : Packet)
    → IsSized p
    → p.len ≤ buffer_size
    → (verify version p).1 ≡ true
    → let q = (verify version p).0 in
      (q.len + 4 ≡ p.len) × (q.id ≡ p.id) × (payload q ≡ body p) × IsSized q
verify_strips version p sized short h =
    let (long, m) = (verify-Matches version p sized short).0 h in
    rw (verify_long version p sized short long, (matching_iff version p).1 m)
      (
        omega arith,
        rw (prepend_lem version p),
        read_at-prepend version p data_start (p.len - 4) (omega arith),
        rw (prepend_lem version p) (
            length-write_at p.mem (data_start - header_size version) (header version p.id) ∙ sized),
      )

-- The packet that `append` returns.
abbrev pub appended : Packet → Packet
appended p = record p {
  len = u16 (p.len + 4);
  mem = write_at p.mem (data_start + p.len) (be32 (memory (payload p)));
}

module _ (p : Packet) (sized : IsSized p) (room : p.len + 4 ≤ buffer_size) where
  pub body-appended : body (appended p) ≡ payload p
  body-appended =
      ap (read_at (appended p).mem data_start) {x = (appended p).len - 4} {y = p.len} (omega arith)
      ∙ read_at-write_at_before p.mem (data_start + p.len) (be32 (memory (payload p))) data_start
          p.len (omega arith)

  pub trailer-appended : trailer (appended p) ≡ be32 (memory (payload p))
  trailer-appended =
      ap (λ k. read_at (appended p).mem k 4) {x = data_start + (appended p).len - 4}
        {y = data_start + p.len} (omega arith)
      ∙ read_at-write_at p.mem (data_start + p.len) 4 (be32 (memory (payload p))) refl (omega arith)

fits : (p : Packet) → p.len + 4 ≤ buffer_size → (appended p).len ≤ buffer_size
fits p h = omega arith

four : (p : Packet) → p.len + 4 ≤ buffer_size → 4 ≤ (appended p).len
four p h = omega arith

whole : (p : Packet) → p.len + 4 ≤ buffer_size → (appended p).len ≡ p.len + 4
whole p h = omega arith

-- A packet with room for a checksum gets one that passes, whatever the version: checking it gives
-- the data and the identifier back. Without room nothing is appended.
pub verify-append :
    (version : ℕ) (p : Packet)
    → IsSized p
    → ((buffer_size < p.len + 4) × (append p ≡ none))
      ⊎ ((q : Packet) × (append p ≡ some q)
          × (q.len ≡ p.len + 4)
          × ((verify version q).1 ≡ true)
          × ((verify version q).0.id ≡ p.id)
          × (payload (verify version q).0 ≡ payload p))
unfolding append
verify-append version p sized = elim (Bool-cases (ltb buffer_size (p.len + 4))) [
  | inl full ↦ inl (ltb→lt _ _ full, rw full)
  | inr room ↦
      let room' : p.len + 4 ≤ buffer_size = ground arith in
      let sized' : IsSized (appended p) =
        length-write_at p.mem (data_start + p.len) (be32 (memory (payload p))) ∙ sized in
      let same = body-appended p sized room' in
      let matches : Matches version (appended p) =
        inr (trailer-appended p sized room' ∙ ap (λ l. be32 (memory l)) (sym same)) in
      let passes =
        (verify-Matches version (appended p) sized' (fits p room')).1 (four p room', matches) in
      let kept = verify_strips version (appended p) sized' (fits p room') passes in
      inr (appended p, rw room, whole p room', passes, kept.1, kept.2 ∙ same)
]
