-- ===== src/Kiss/RoundTrip.antt =====
-- What csp_kiss_tx sends, csp_kiss_rx receives: the frame in the receiver's buffer.
use libcsp_dphi.Base.{
  ℕ, ◌+◌, ◌-◌, ◌≤◌, ◌≡◌, ◌∙◌, refl, sym, ap, ap₂, arith, true, inr, some, List, [], ◌∷◌, ◌++◌,
  length, write_at, read_at, be32, write_at_append, read_at_add, length-write_at, length-read_at,
  read_at-write_at, read_at-write_at_before,
}
use libcsp_dphi.Packet.{Packet, data_start, mem_size, buffer_size, payload, IsSized}
use libcsp_dphi.Id.{header_size, strip, prepend}
use libcsp_dphi.Id.Frame.{Fits}
use libcsp_dphi.Id.Layout.{header, length-header, prepend_lem, frame-prepend, strip_reads}
use libcsp_dphi.Crc32.{memory, append, verify}
use libcsp_dphi.Crc32.Checked.{body, trailer, appended, verify-Matches, verify_strips}
use libcsp_dphi.Kiss.{fend, tnc_data, escape, tx, with_crc}

-- The bytes between the two FEND, before they are escaped.
abbrev pub sent : ℕ → Packet → List ℕ
sent version p = header version p.id ++ (payload p ++ be32 (memory (payload p)))

module _ (version : ℕ) where
  abbrev start : ℕ
  start = data_start - header_size version

  module _ (p : Packet) (sized : IsSized p) (short : p.len + 4 ≤ buffer_size) where
    with_crc_lem : with_crc p ≡ appended p
    unfolding with_crc append
    with_crc_lem = ground arith

    frame-sent :
        let q = prepend version (with_crc p) in
        read_at q.mem q.frame_begin q.frame_length ≡ sent version p
    frame-sent = rw with_crc_lem (
        ap₂ (read_at (prepend version (appended p)).mem)
          {x = (prepend version (appended p)).frame_begin} {y = data_start - header_size version}
          {u = (prepend version (appended p)).frame_length} {v = header_size version + (p.len + 4)}
          (rw (prepend_lem version (appended p))) (ground (arith, prepend_lem version (appended p)))
        ∙ frame-prepend version (appended p) (p.len + 4)
            (length-write_at p.mem (data_start + p.len) (be32 (memory (payload p))) ∙ sized)
        ∙ ap (λ l. header version p.id ++ l)
            (read_at_add (appended p).mem data_start p.len 4
              ∙ ap₂ ◌++◌ {x = read_at (appended p).mem data_start p.len} {y = payload p}
                  {u = read_at (appended p).mem (data_start + p.len) 4}
                  {v = be32 (memory (payload p))}
                  (read_at-write_at_before p.mem (data_start + p.len) (be32 (memory (payload p)))
                    data_start p.len (omega arith))
                  (read_at-write_at p.mem (data_start + p.len) 4 (be32 (memory (payload p))) refl
                    (omega arith))))

    pub tx_lem : tx version p ≡ fend ∷ tnc_data ∷ escape (sent version p) ++ fend ∷ []
    unfolding tx
    tx_lem = ap (λ l. fend ∷ tnc_data ∷ escape l ++ fend ∷ []) frame-sent

  abbrev pub filled : List ℕ → List ℕ → List ℕ
  filled m l = write_at m start l

  -- The receiver's memory once the bytes of a frame are stored, from its three parts.
  module _ (m head load crc : List ℕ) (size : length m ≡ mem_size)
      (h : length head ≡ header_size version) (small : header_size version ≤ data_start)
      (fits : length load + 4 ≤ buffer_size) (c : length crc ≡ 4) where
    by_parts :
        filled m (head ++ (load ++ crc))
        ≡ write_at (write_at (write_at m start head) data_start load) (data_start + length load) crc
    by_parts =
        write_at_append m start head (load ++ crc)
        ∙ ap (λ i. write_at (write_at m start head) i (load ++ crc)) {x = start + length head}
            {y = data_start} (omega arith)
        ∙ write_at_append (write_at m start head) data_start load crc

    head_in : read_at (filled m (head ++ (load ++ crc))) start (header_size version) ≡ head
    head_in = rw by_parts (
        read_at-write_at_before (write_at (write_at m start head) data_start load)
          (data_start + length load) crc start (header_size version) (omega arith)
        ∙ read_at-write_at_before (write_at m start head) data_start load start
            (header_size version) (omega arith)
        ∙ read_at-write_at m start (header_size version) head h (omega arith))

    data_in : read_at (filled m (head ++ (load ++ crc))) data_start (length load) ≡ load
    data_in = rw by_parts (
        read_at-write_at_before (write_at (write_at m start head) data_start load)
          (data_start + length load) crc data_start (length load) (omega arith)
        ∙ read_at-write_at (write_at m start head) data_start (length load) load refl
            (omega (arith, length-write_at m start head)))

    crc_in : read_at (filled m (head ++ (load ++ crc))) (data_start + length load) 4 ≡ crc
    crc_in = rw by_parts (
        read_at-write_at (write_at (write_at m start head) data_start load)
          (data_start + length load) 4 crc c
          (omega (
            arith,
            length-write_at (write_at m start head) data_start load,
            length-write_at m start head,
          )))

  -- The receiver's packet when the closing FEND comes, and after its header is read.
  abbrev pub framed : Packet → Packet → Packet
  framed b p = record {
    frame_begin = start;
    frame_length = header_size version + (p.len + 4);
    len = b.len;
    id = b.id;
    mem = filled b.mem (sent version p);
  }

  abbrev pub received : Packet → Packet → Packet
  received b p = record (framed b p) { len = p.len + 4; id = p.id }

  module _ (b p : Packet) (sized_b : IsSized b) (sized : IsSized p)
      (short : p.len + 4 ≤ buffer_size) (small : header_size version ≤ data_start)
      (f : Fits version p.id) where
    length-payload : length (payload p) ≡ p.len
    length-payload = length-read_at p.mem data_start p.len (omega arith)

    fits : length (payload p) + 4 ≤ buffer_size
    fits = omega (arith, length-payload)

    pub strip-framed : strip version (framed b p) ≡ some (received b p)
    strip-framed =
        strip_reads version (framed b p) p.id f (omega arith) (omega arith) (
          head_in b.mem (header version p.id) (payload p) (be32 (memory (payload p))) sized_b
            (length-header version p.id) small fits refl)
        ∙ ap (λ n. some (record (framed b p) { len = n; id = p.id }))
            {x = header_size version + (p.len + 4) - header_size version} {y = p.len + 4}
            (omega arith)

    IsSized-received : IsSized (received b p)
    IsSized-received = length-write_at b.mem start (sent version p) ∙ sized_b

    body-received : body (received b p) ≡ payload p
    body-received =
        ap (read_at (received b p).mem data_start) {x = p.len + 4 - 4} {y = length (payload p)}
          (omega (arith, length-payload))
        ∙ data_in b.mem (header version p.id) (payload p) (be32 (memory (payload p))) sized_b
            (length-header version p.id) small fits refl

    trailer-received : trailer (received b p) ≡ be32 (memory (payload p))
    trailer-received =
        ap (λ i. read_at (received b p).mem i 4) {x = data_start + (p.len + 4) - 4}
          {y = data_start + length (payload p)} (omega (arith, length-payload))
        ∙ crc_in b.mem (header version p.id) (payload p) (be32 (memory (payload p))) sized_b
            (length-header version p.id) small fits refl

    pub verify-received :
        let q = (verify version (received b p)).0 in
        ((verify version (received b p)).1 ≡ true)
        × (q.id ≡ p.id)
        × (q.len ≡ p.len)
        × (payload q ≡ payload p)
    verify-received =
        let passes =
          (verify-Matches version (received b p) IsSized-received short).1
            (omega arith, inr (trailer-received ∙ ap (λ l. be32 (memory l)) (sym body-received))) in
        let (l, i, d, s) = verify_strips version (received b p) IsSized-received short passes in
        (passes, i, omega arith, d ∙ body-received)
