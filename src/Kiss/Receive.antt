-- ===== src/Kiss/Receive.antt =====
-- What csp_kiss_tx sends, csp_kiss_rx receives: one frame from an idle receiver.
use libcsp_dphi.Base.{
  ℕ, ◌+◌, ◌-◌, ◌≤◌, ◌<◌, ◌≡◌, ◌∙◌, refl, sym, append-nil, ap, ap₂, arith, Bool, true, false, leb,
  ltb, ◌++◌, none, some, List, [], ◌∷◌, length, write_at, u16, length-read_at, be32,
}
use libcsp_dphi.Packet.{Packet, data_start, mem_size, buffer_size, payload, IsSized}
use libcsp_dphi.Id.V1
use libcsp_dphi.Id.V2
use libcsp_dphi.Id.{setup_rx, header_size}
use libcsp_dphi.Id.Frame.{Fits}
use libcsp_dphi.Id.Layout.{header, length-header}
use libcsp_dphi.Crc32.{memory, verify}
use libcsp_dphi.Kiss.{
  fend, tnc_data, escape, tx, not_started, started, Rx, Event, rx_error, input, begin_frame,
  checked, accept, end_frame, dispatch, too_long, rx_byte, rx,
}
use libcsp_dphi.Kiss.Wire.{feed, within, quiet, room, unescape}
use libcsp_dphi.Kiss.RoundTrip.{sent, tx_lem, received, strip-framed, verify-received}
use libcsp_dphi.Base.{length-append}

-- Between two frames: the receiver owns no packet.
pub record IsIdle (r : Rx) : Type 0 where
  pub waits : r.mode ≡ not_started
  pub empty : r.rx_packet ≡ none

setup_rx_lem :
    (version : ℕ) (b : Packet)
    → (setup_rx version b).0
      ≡ record b { frame_begin = data_start - header_size version; frame_length = 0 }
unfolding setup_rx V1.setup_rx V2.setup_rx
setup_rx_lem version b = ground arith

small : (version : ℕ) → header_size version ≤ data_start
small version = ground arith

checked-true :
    (r : Rx) (v : Packet × Bool)
    → v.1 ≡ true
    → checked r v ≡ (record r { mode = not_started; rx_packet = none }, input v.0 ∷ [])
unfolding checked
checked-true r (p, true) h = refl
checked-true r (p, false) h = cc

module _ (version : ℕ) (b p : Packet) where
  -- The receiver after the first FEND, and after the byte that it skips.
  first : Rx
  first = record {
    mode = started;
    rx_length = 0;
    rx_first = true;
    rx_packet = some (setup_rx version b).0;
  }

  opens : (r : Rx) → IsIdle r → rx_byte version (some b) fend r ≡ (first, [])
  unfolding rx_byte dispatch too_long begin_frame first
  opens r i = rw (i.empty, i.waits)

  lower : leb mem_size (data_start - header_size version + 0) ≡ false
  lower = ground arith

  skips :
      rx_byte version (some b) tnc_data first
      ≡ (within version b started (data_start - header_size version) b.mem 0, [])
  unfolding rx_byte dispatch too_long first
  skips = rw (setup_rx_lem version b, lower)

  -- The receiver when the closing FEND comes.
  full : Rx
  full =
      within version b started (data_start - header_size version)
        (write_at b.mem (data_start - header_size version) (sent version p))
        (header_size version + (p.len + 4))

  length-sent :
      IsSized p
      → p.len + 4 ≤ buffer_size
      → length (sent version p) ≡ header_size version + (p.len + 4)
  length-sent sized short =
      length-append (header version p.id) (payload p ++ be32 (memory (payload p)))
      ∙ ap₂ ◌+◌ (length-header version p.id) (
          length-append (payload p) (be32 (memory (payload p)))
          ∙ ap (λ n. n + 4) (length-read_at p.mem data_start p.len (omega arith)))

  -- A frame without its closing FEND.
  opening : List ℕ
  opening = fend ∷ tnc_data ∷ escape (sent version p)

  opened :
      (r : Rx) (rest : List ℕ)
      → IsIdle r
      → IsSized p
      → p.len + 4 ≤ buffer_size
      → rx version r (feed b (opening ++ rest)) ≡ rx version full (feed b rest)
  unfolding full opening
  opened r rest i sized short =
      quiet version b r first fend (tnc_data ∷ escape (sent version p) ++ rest) (opens r i)
      ∙ quiet version b first (within version b started (data_start - header_size version) b.mem 0)
          tnc_data (escape (sent version p) ++ rest) skips
      ∙ unescape version b (data_start - header_size version) (sent version p) rest b.mem 0
          (omega (arith, length-sent sized short, small version))
      ∙ ap₂
          (λ m k.
            rx version (within version b started (data_start - header_size version) m k)
              (feed b rest))
          {x = write_at b.mem (data_start - header_size version + 0) (sent version p)}
          {y = write_at b.mem (data_start - header_size version) (sent version p)}
          {u = 0 + length (sent version p)} {v = header_size version + (p.len + 4)}
          (ap (λ i. write_at b.mem i (sent version p)) {x = data_start - header_size version + 0}
            {y = data_start - header_size version} (omega arith))
          (omega (arith, length-sent sized short))

  fills :
      (r : Rx)
      → IsIdle r
      → IsSized p
      → p.len + 4 ≤ buffer_size
      → rx version r (feed b (tx version p)) ≡ rx version full (feed b (fend ∷ []))
  unfolding opening
  fills r i sized short = rw (tx_lem version p sized short) (opened r (fend ∷ []) i sized short)

  framed_u16 :
      p.len + 4 ≤ buffer_size
      → u16 (header_size version + (p.len + 4)) ≡ header_size version + (p.len + 4)
  framed_u16 short = omega (arith, small version)

  -- A frame that leaves a byte of the buffer free is accepted at the closing FEND.
  accepts :
      IsSized b
      → IsSized p
      → p.len + 4 < buffer_size
      → Fits version p.id
      → rx_byte version (some b) fend full ≡ (
        record full { mode = not_started; rx_packet = none },
        input (verify version (received version b p)).0 ∷ [],
      )
  unfolding full rx_byte dispatch end_frame accept
  accepts sized_b sized short f =
      rw
        (room version b (data_start - header_size version) started
          (write_at b.mem (data_start - header_size version) (sent version p))
          (header_size version + (p.len + 4)) (omega (arith, small version)))
        (rw
          (
            some_bytes,
            framed_u16 short',
            strip-framed version b p sized_b sized short' (small version) f,
          )
          (checked-true full (verify version (received version b p))
            (verify-received version b p sized_b sized short' (small version) f).0))
    where
      short' : p.len + 4 ≤ buffer_size
      short' = omega arith

      some_bytes : ltb 0 (header_size version + (p.len + 4)) ≡ true
      some_bytes = ground arith

  -- A frame that fills the buffer is dropped there.
  drops : p.len + 4 ≡ buffer_size → (rx_byte version (some b) fend full).1 ≡ rx_error ∷ []
  unfolding full rx_byte dispatch too_long begin_frame
  drops h = rw over refl
    where
      over :
          leb mem_size (data_start - header_size version + (header_size version + (p.len + 4)))
          ≡ true
      over = ground arith

-- The last byte of a chunk.
last_byte :
    (version : ℕ) (b : Packet) (r : Rx) (x : ℕ) (out : Rx × List Event)
    → rx_byte version (some b) x r ≡ out
    → rx version r (feed b (x ∷ [])) ≡ (out.0, out.1 ++ [])
unfolding rx
last_byte version b r x out h = rw h refl

-- What csp_kiss_tx sends of a packet whose data leaves more than four bytes of the buffer free, an
-- idle receiver with a buffer at hand takes for one packet, if each field of the identifier fits its
-- bits in the header: it has the same identifier, the same
-- length and the same data, whichever bytes those are, and the receiver is idle again.
pub rx-tx :
    (version : ℕ) (b p : Packet) (r : Rx)
    → IsSized b
    → IsSized p
    → p.len + 4 < buffer_size
    → Fits version p.id
    → IsIdle r
    → (r' : Rx) × (q : Packet) × (rx version r (feed b (tx version p)) ≡ (r', input q ∷ []))
      × IsIdle r'
      × (q.id ≡ p.id)
      × (q.len ≡ p.len)
      × (payload q ≡ payload p)
unfolding full
rx-tx version b p r sized_b sized short f i = (
  record full_r { mode = not_started; rx_packet = none },
  (verify version (received version b p)).0,
  fills version b p r i sized short'
      ∙ last_byte version b full_r fend _ (accepts version b p sized_b sized short f),
  record { waits = refl; empty = refl },
  verified.1,
  verified.2,
  verified.3,
)
  where
    full_r : Rx
    full_r = full version b p

    short' : p.len + 4 ≤ buffer_size
    short' = omega arith

    verified :
        let q = (verify version (received version b p)).0 in
        ((verify version (received version b p)).1 ≡ true)
        × (q.id ≡ p.id)
        × (q.len ≡ p.len)
        × (payload q ≡ payload p)
    verified = verify-received version b p sized_b sized short' (small version) f

rx_nothing : (version : ℕ) (r : Rx) → rx version r [] ≡ (r, [])
unfolding rx
rx_nothing version r = refl

-- A packet whose data and checksum fill the buffer is sent, but an idle receiver with a buffer at hand
-- counts an error at the closing FEND, and nothing happens before: no packet is passed on.
pub rx-tx_full :
    (version : ℕ) (b p : Packet) (r : Rx)
    → IsSized p
    → p.len + 4 ≡ buffer_size
    → IsIdle r
    → (front : List ℕ) × (tx version p ≡ front ++ fend ∷ [])
      × ((rx version r (feed b front)).1 ≡ [])
      × ((rx version r (feed b (tx version p))).1 ≡ rx_error ∷ [])
unfolding opening
rx-tx_full version b p r sized h i = (
  opening version b p,
  tx_lem version p sized (omega arith),
  ap (λ l. (rx version r (feed b l)).1) (sym (append-nil (opening version b p)))
      ∙ ap (λ o. o.1)
          (opened version b p r [] i sized (omega arith) ∙ rx_nothing version (full version b p)),
  ap (λ o. o.1)
        (fills version b p r i sized (omega arith)
          ∙ last_byte version b (full version b p) fend _ refl)
      ∙ ap (λ l. l ++ []) (drops version b p h),
)
