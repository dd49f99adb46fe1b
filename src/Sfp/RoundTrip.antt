-- ===== src/Sfp/RoundTrip.antt =====
-- csp_sfp.c: the receiver puts together again what the sender took apart.
use libcsp_dphi.Base.{
  ℕ, ◌+◌, ◌-◌, ◌*◌, ◌^◌, ◌≤◌, ◌<◌, ◌≡◌, ◌∙◌, refl, sym, ap, ap₂, arith, Bool-cases, inl, inr, ltb,
  ltb→lt, ltb_fails, Option, none, some, List, [], ◌∷◌, length, take, take_all, map, All, read_at,
  write_at, length-write_at,
}
use libcsp_dphi.Packet.{CspId, Packet, buffer_size, payload, IsSized}
use libcsp_dphi.Sfp.{
  SfpHeader, Status, err_none, err_timedout, as_int, cap, send_from, send, Partial, copy_in,
  take_in, recv,
}
use libcsp_dphi.Sfp.Fragments.{
  arrive, copy_last, copy_more, joined, cap_bounds, arrived, fragment_read, take_in_checked,
  take_in_first, recv_done, recv_more, recv_first, send_done, send_more,
}

-- The buffers hold that many bytes in fragments of `mtu`.
abbrev Enough : ℕ → ℕ → List Packet → Type 0
Enough left mtu buffers = left ≤ mtu * length buffers

-- One buffer fewer is enough for what a full fragment leaves.
left_over :
    (mtu totalsize count : ℕ) (packet : Packet) (buffers : List Packet)
    → Enough (totalsize - count) mtu (packet ∷ buffers)
    → count + cap mtu (totalsize - count) < totalsize
    → Enough (totalsize - (count + cap mtu (totalsize - count))) mtu buffers
left_over mtu totalsize count packet buffers enough more =
    elim (Bool-cases (ltb mtu (totalsize - count))) [
      | inl long ↦ rw long (grind arith)
      | inr short ↦ absurd (ground arith)
    ]

module _ (malloc : ℕ → Option (List ℕ)) (id : CspId) (bytes : List ℕ) (totalsize mtu : ℕ)
    (whole : length bytes ≡ totalsize) (small : totalsize < 2 ^ 32) (some_mtu : 0 < mtu)
    (room : mtu + 8 ≤ buffer_size) where
  abbrev part : List ℕ → ℕ → Partial
  part filled count = record { filled = filled; datasize = totalsize; data_offset = count }

  abbrev sent_from : ℕ → List Packet → List (CspId × Packet) × Status
  sent_from count buffers = send_from id bytes totalsize mtu count buffers

  -- What a round of the receiver does with a fragment of `size` bytes at `count`.
  module _ (filled : List ℕ) (count size : ℕ) (packet : Packet) (sized : IsSized packet)
      (some_size : 0 < size) (size_fits : size ≤ mtu) (below : count + size ≤ totalsize) where
    abbrev received : Packet × Option SfpHeader
    received = arrived bytes totalsize whole small id count size packet

    abbrev next_filled : List ℕ
    next_filled = write_at filled count (read_at bytes count size)

    seen :
        let r = received in
        (r.1 ≡ some (record { offset = count; totalsize = totalsize }))
        × (r.0.len ≡ size)
        × (payload r.0 ≡ read_at bytes count size)
    seen = fragment_read bytes totalsize whole small id count size packet sized (omega arith) below

    checked :
        take_in malloc received (some (part filled count))
        ≡ copy_in received.0 (record { offset = count; totalsize = totalsize }) (part filled count)
    checked =
        ap (λ o. take_in malloc (received.0, o) (some (part filled count))) seen.0
        ∙ take_in_checked malloc received.0 (record { offset = count; totalsize = totalsize })
            (part filled count) refl

    round_last :
        count + size ≡ totalsize
        → take_in malloc received (some (part filled count))
          ≡ (none, some (next_filled, as_int totalsize), err_none)
    round_last ends =
        checked
        ∙ copy_last received.0 (record { offset = count; totalsize = totalsize })
            (part filled count) (omega (arith, seen.1)) refl small
        ∙ ap (λ block. (none, some (write_at filled count block, as_int totalsize), err_none))
            (seen.2)

    round_more :
        count + size < totalsize
        → take_in malloc received (some (part filled count))
          ≡ (some (part next_filled (count + size)), none, err_timedout)
    round_more more =
        checked
        ∙ copy_more received.0 (record { offset = count; totalsize = totalsize })
            (part filled count) (omega (arith, seen.1)) (omega (arith, seen.1)) refl small
        ∙ ap₂
            (λ block n. (some (part (write_at filled count block) (count + n)), none, err_timedout))
            seen.2 seen.1

  -- From any point on: what is left is sent, and what was filled is completed.
  recv-send_from :
      (count : ℕ) (filled : List ℕ) (buffers : List Packet)
      → count < totalsize
      → length filled ≡ totalsize
      → take count filled ≡ take count bytes
      → All IsSized buffers
      → Enough (totalsize - count) mtu buffers
      → (recv malloc (some (part filled count)) (map arrive (sent_from count buffers).0)
          ≡ (some (bytes, as_int totalsize), err_none))
        × ((sent_from count buffers).1 ≡ err_none)
  recv-send_from count filled [] more sized begun buffers enough = absurd (omega arith)
  recv-send_from count filled (packet ∷ buffers) more sized begun (ok, oks) enough =
      let size = cap mtu (totalsize - count) in
      let b = cap_bounds mtu (totalsize - count) some_mtu (omega arith) in
      let filled' = write_at filled count (read_at bytes count size) in
      let grown = joined filled bytes count size (omega (arith, b)) (omega (arith, whole)) begun in
      let kept : length filled' ≡ totalsize =
        length-write_at filled count (read_at bytes count size) ∙ sized in
      rw (send_more id bytes totalsize mtu small count packet buffers more)
        (elim (Bool-cases (ltb (count + size) totalsize)) [
          | inl before ↦
              let ih =
                recv-send_from (count + size) filled' buffers
                  (ltb→lt (count + size) totalsize before) kept grown oks
                  (left_over mtu totalsize count packet buffers enough
                    (ltb→lt (count + size) totalsize before)) in
              (
                recv_more malloc _ _ _ _ _ _ (
                      round_more filled count size packet ok b.0 b.1 (omega (arith, b))
                        (ltb→lt (count + size) totalsize before))
                    ∙ ih.0,
                ih.1,
              )
          | inr ends ↦
              let e : count + size ≡ totalsize =
                omega (arith, b, ltb_fails (count + size) totalsize ends) in
              (
                recv_done malloc _ _ _ _ _
                      (round_last filled count size packet ok b.0 b.1 (omega (arith, b)) e)
                    ∙ ap (λ m. (some (m, as_int totalsize), err_none))
                        (sym (take_all (count + size) filled' (omega (arith, kept, e)))
                          ∙ grown
                          ∙ take_all (count + size) bytes (omega (arith, e))),
                ap (λ x. x.1)
                    (send_done id bytes totalsize mtu small (count + size) buffers (omega arith)),
              )
        ])

  first_read :
      (memory : List ℕ) (buffers : List Packet)
      → 0 < totalsize
      → malloc totalsize ≡ some memory
      → All IsSized buffers
      → Enough totalsize mtu buffers
      → recv malloc none (map arrive (sent_from 0 buffers).0)
        ≡ recv malloc (some (part memory 0)) (map arrive (sent_from 0 buffers).0)
  first_read memory [] some_bytes got sized enough = absurd (omega arith)
  first_read memory (packet ∷ buffers) some_bytes got (ok, oks) enough =
      let size = cap mtu (totalsize - 0) in
      let b = cap_bounds mtu (totalsize - 0) some_mtu (omega arith) in
      let header : SfpHeader = record { offset = 0; totalsize = totalsize } in
      let found = seen memory 0 size packet ok b.0 b.1 (omega (arith, b)) in
      let r = arrived bytes totalsize whole small id 0 size packet in
      rw (send_more id bytes totalsize mtu small 0 packet buffers some_bytes) (
        recv_first malloc _ _ (part memory 0) (
          ap (λ o. take_in malloc (r.0, o) none) found.0
          ∙ take_in_first malloc r.0 header memory refl got
          ∙ ap (λ o. take_in malloc (r.0, o) (some (part memory 0))) (sym found.0)))

  send_open : (buffers : List Packet) → send id bytes totalsize mtu buffers ≡ sent_from 0 buffers
  unfolding send
  send_open buffers = ground arith

-- Data of at least one byte and less than 2 ^ 32 that csp_sfp_send_own_memcpy sends in fragments of at
-- most `mtu` bytes, with buffers enough for them, are all sent, and csp_sfp_recv_fp on these fragments
-- returns exactly those data, if malloc gives it memory of their size; the size that it returns is
-- their number as an int, which is negative from 2 ^ 31 on.
pub recv-send :
    (malloc : ℕ → Option (List ℕ)) (id : CspId) (bytes : List ℕ) (totalsize mtu : ℕ)
    (buffers : List Packet) (memory : List ℕ)
    → length bytes ≡ totalsize
    → 0 < totalsize
    → totalsize < 2 ^ 32
    → 0 < mtu
    → mtu + 8 ≤ buffer_size
    → All IsSized buffers
    → totalsize ≤ mtu * length buffers
    → malloc totalsize ≡ some memory
    → length memory ≡ totalsize
    → let (sent, status) = send id bytes totalsize mtu buffers in
      (status ≡ err_none)
      × (recv malloc none (map arrive sent) ≡ (some (bytes, as_int totalsize), err_none))
recv-send malloc id bytes totalsize mtu buffers memory whole some_bytes small some_mtu room sized
      enough got memory_size =
    let rest =
      recv-send_from malloc id bytes totalsize mtu whole small some_mtu room 0 memory buffers
        some_bytes memory_size refl sized (omega arith) in
    rw (send_open malloc id bytes totalsize mtu whole small some_mtu room buffers) (
      rest.1,
      first_read malloc id bytes totalsize mtu whole small some_mtu room memory buffers some_bytes
            got sized enough
          ∙ rest.0,
    )
