-- ===== src/Hmac/Checked.antt =====
-- csp_hmac_append and csp_hmac_verify: which packets pass, and that an appended HMAC does.
use libcsp_dphi.Base.{
  ℕ, ◌+◌, ◌-◌, ◌≤◌, ◌<◌, ◌≡◌, ◌∙◌, ◌↔◌, ◌⊎◌, inl, inr, refl, sym, ap, arith, Bool, true, false,
  Bool-cases, none, some, ltb, ltb→lt, if◌then◌else◌, List, length, length-take, take, read_at,
  write_at, read_at-write_at, read_at-write_at_before, u16,
}
use libcsp_dphi.Packet.{Packet, data_start, buffer_size, payload, IsSized}
use libcsp_dphi.Crc32.{same_bytes}
use libcsp_dphi.Crc32.Checked.{same_bytes_refl, same_bytes→eq}
use libcsp_dphi.Hmac.{append, verify, mac_of, got}
use libcsp_dphi.Hmac.Keyed.{rfc2104, memory-eq-rfc2104, length-rfc2104}

-- The four bytes that a packet with these data has to end in.
abbrev pub tag : List ℕ → List ℕ → List ℕ
tag key msg = take 4 (rfc2104 key msg)

length-tag : (key msg : List ℕ) → length (tag key msg) ≡ 4
length-tag key msg = omega (arith, length-take 4 (rfc2104 key msg), length-rfc2104 key msg)

-- The HMAC that a packet carries, and the data before it.
abbrev pub carried : Packet → List ℕ
carried p = read_at p.mem (data_start + p.len - 4) 4

abbrev pub covered : Packet → List ℕ
covered p = read_at p.mem data_start (p.len - 4)

-- A result behind two tests.
gate :
    (few good : Bool) (x q : Packet)
    → ((if few then none else if good then some x else none) ≡ some q)
      ↔ ((few ≡ false) × (good ≡ true) × (q ≡ x))
gate true good x q = (λ e. cc, λ e. cc)
gate false false x q = (λ e. cc, λ e. cc)
gate false true x q = (λ e. (refl, refl, cc), λ e. cc)

module _ (old key : List ℕ) (n : length old ≡ 64) (h : 0 < length key) where
  mac : (msg : List ℕ) → take 4 (mac_of old key msg) ≡ tag key msg
  mac msg = ap (λ o. take 4 (got old o)) (memory-eq-rfc2104 old key msg n h)

  -- Without the header, a check of a packet's data passes exactly if the packet has four bytes at least and ends in the
  -- HMAC of the ones before; the packet then loses the HMAC and nothing else changes.
  pub verify_iff :
      (p q : Packet)
      → (verify old key p false ≡ some q)
        ↔ ((4 ≤ p.len) × (carried p ≡ tag key (covered p)) × (q ≡ record p { len = p.len - 4 }))
  unfolding verify
  verify_iff p q =
      let passes =
        gate (ltb p.len 4) (same_bytes (carried p) (tag key (covered p)))
          (record p { len = p.len - 4 }) q in
      rw (mac (covered p)) (
        λ e.
            let (few, good, same) = passes.0 e in
            (ground arith, same_bytes→eq (carried p) (tag key (covered p)) good, same),
        λ (long, ends, same). passes.1 (
          ground arith,
          ap (λ l. same_bytes l (tag key (covered p))) ends ∙ same_bytes_refl (tag key (covered p)),
          same,
        ),
      )

-- The packet that `append` returns.
abbrev appended : List ℕ → Packet → Packet
appended key p = record p {
  mem = write_at p.mem (data_start + p.len) (tag key (payload p));
  len = u16 (p.len + 4);
}

-- Without the header, as the stack uses it: a packet with room gets an HMAC that passes the check of every node with that key: checking it
-- gives the data and the identifier back. Without room nothing is appended.
pub verify-append_hmac :
    (old old' key : List ℕ) (p : Packet)
    → length old ≡ 64
    → length old' ≡ 64
    → 0 < length key
    → IsSized p
    → ((buffer_size < p.len + 4) × (append old key p false ≡ none))
      ⊎ ((q r : Packet) × (append old key p false ≡ some q)
          × (q.len ≡ p.len + 4)
          × (verify old' key q false ≡ some r)
          × (r.len ≡ p.len)
          × (r.id ≡ p.id)
          × (payload r ≡ payload p))
unfolding append
verify-append_hmac old old' key p n n' h sized = elim (Bool-cases (ltb buffer_size (p.len + 4))) [
  | inl full ↦ inl (ltb→lt _ _ full, rw full refl)
  | inr room ↦
      let room' : p.len + 4 ≤ buffer_size = ground arith in
      let q : Packet = appended key p in
      let longer : q.len ≡ p.len + 4 = omega arith in
      let same : covered q ≡ payload p =
        ap (read_at q.mem data_start) {x = q.len - 4} {y = p.len} (omega arith)
        ∙ read_at-write_at_before p.mem (data_start + p.len) (tag key (payload p)) data_start p.len
            (omega arith) in
      let ends : carried q ≡ tag key (covered q) =
        ap (λ k. read_at q.mem k 4) {x = data_start + q.len - 4} {y = data_start + p.len}
          (omega arith)
        ∙ read_at-write_at p.mem (data_start + p.len) 4 (tag key (payload p))
            (length-tag key (payload p)) (omega arith)
        ∙ ap (tag key) (sym same) in
      inr (
        q,
        record q { len = q.len - 4 },
        rw (room, mac old key n h (payload p)) refl,
        longer,
        (verify_iff old' key n' h q (record q { len = q.len - 4 })).1 (omega arith, ends, refl),
        omega arith,
        refl,
        same,
      )
]
