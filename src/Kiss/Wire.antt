-- ===== src/Kiss/Wire.antt =====
-- What csp_kiss_tx sends, csp_kiss_rx receives.
use libcsp_dphi.Base.{
  ℕ, suc, ◌+◌, ◌≤◌, ◌<◌, ◌≡◌, ◌∙◌, sym, ap, ap₂, arith, false, Bool-cases, inl, inr, ◌==◌, ==_iff,
  Option, some, List, [], ◌∷◌, ◌++◌, length, set, write_at, write_at-nil, write_at-set,
}
use libcsp_dphi.Packet.{Packet, mem_size}
use libcsp_dphi.Kiss.{
  fend, fesc, tfend, tfesc, escape, Mode, started, escaped, Rx, store, dispatch, too_long, rx_byte,
  rx,
}

-- Bytes as they arrive, while the pool has the packet `b` to give.
abbrev pub feed : Packet → List ℕ → List (Option Packet × ℕ)
feed b [] = []
feed b (x ∷ bytes) = (some b, x) ∷ feed b bytes

module _ (version : ℕ) (b : Packet) where
  -- A byte that causes no event.
  pub quiet :
      (r r' : Rx) (x : ℕ) (bytes : List ℕ)
      → rx_byte version (some b) x r ≡ (r', [])
      → rx version r (feed b (x ∷ bytes)) ≡ rx version r' (feed b bytes)
  unfolding rx
  quiet r r' x bytes e = rw e

  -- The receiver within a frame that starts at `at`: `m` is the memory, `k` the bytes so far.
  abbrev pub within : Mode → ℕ → List ℕ → ℕ → Rx
  within mode at m k = record {
    mode = mode;
    rx_length = k;
    rx_first = false;
    rx_packet = some (record b { frame_begin = at; frame_length = 0; mem = m });
  }

  module _ (at : ℕ) where
    pub room :
        (mode : Mode) (m : List ℕ) (k : ℕ)
        → at + k < mem_size
        → too_long (within mode at m k) ≡ false
    unfolding too_long
    room mode m k h = ground arith

    plain :
        (x : ℕ) (m : List ℕ) (k : ℕ)
        → at + k < mem_size
        → (x == fend) ≡ false
        → (x == fesc) ≡ false
        → rx_byte version (some b) x (within started at m k)
          ≡ (within started at (set m (at + k) x) (k + 1), [])
    unfolding rx_byte dispatch store
    plain x m k h nf ne = rw (room started m k h, ne, nf)

    escape_begins :
        (m : List ℕ) (k : ℕ)
        → at + k < mem_size
        → rx_byte version (some b) fesc (within started at m k) ≡ (within escaped at m k, [])
    unfolding rx_byte dispatch
    escape_begins m k h = rw (room started m k h)

    escape_ends :
        (m : List ℕ) (k : ℕ)
        → at + k < mem_size
        → (rx_byte version (some b) tfend (within escaped at m k)
            ≡ (within started at (set m (at + k) fend) (k + 1), []))
          × (rx_byte version (some b) tfesc (within escaped at m k)
              ≡ (within started at (set m (at + k) fesc) (k + 1), []))
    unfolding rx_byte dispatch store
    escape_ends m k h = (rw (room escaped m k h), rw (room escaped m k h))

    -- One byte more is stored.
    Stores : (x : ℕ) (bytes rest : List ℕ) (m : List ℕ) (k : ℕ) → Type 0
    Stores x bytes rest m k =
        rx version
          (within started at (write_at (set m (at + k) x) (at + (k + 1)) bytes)
            (k + 1 + length bytes))
          (feed b rest)
        ≡ rx version (within started at (write_at m (at + k) (x ∷ bytes)) (k + suc (length bytes)))
            (feed b rest)

    one_more : (x : ℕ) (bytes rest : List ℕ) (m : List ℕ) (k : ℕ) → Stores x bytes rest m k
    unfolding Stores
    one_more x bytes rest m k =
        ap₂ (λ l j. rx version (within started at l j) (feed b rest))
          {x = write_at (set m (at + k) x) (at + (k + 1)) bytes}
          {y = write_at m (at + k) (x ∷ bytes)} {u = k + 1 + length bytes}
          {v = k + suc (length bytes)}
          (ap (λ i. write_at (set m (at + k) x) i bytes) {x = at + (k + 1)} {y = suc (at + k)}
              (omega arith)
            ∙ write_at-set m (at + k) x bytes)
          (omega arith)

    -- The escaped bytes of a frame come out as they were, one after the other.
    pub unescape :
        (bytes rest : List ℕ) (m : List ℕ) (k : ℕ)
        → at + k + length bytes ≤ mem_size
        → rx version (within started at m k) (feed b (escape bytes ++ rest))
          ≡ rx version
              (within started at (write_at m (at + k) bytes) (k + length bytes))
              (feed b rest)
    unfolding escape Stores
    unescape [] rest m k h =
        ap₂ (λ l j. rx version (within started at l j) (feed b rest)) {x = m}
          {y = write_at m (at + k) []} {u = k} {v = k + 0} (sym (write_at-nil m (at + k)))
          (omega arith)
    unescape (x ∷ bytes) rest m k h =
        let room' : at + k < mem_size = omega arith in
        let later = λ (v : ℕ).
          unescape bytes rest (set m (at + k) v) (k + 1) (omega arith)
          ∙ one_more v bytes rest m k in
        elim (Bool-cases (x == fend)) [
          | inl e ↦ rw ((==_iff x fend).0 e) (
              quiet (within started at m k) (within escaped at m k) fesc
                (tfend ∷ escape bytes ++ rest) (escape_begins m k room')
              ∙ quiet (within escaped at m k) (within started at (set m (at + k) fend) (k + 1))
                  tfend (escape bytes ++ rest) (escape_ends m k room').0
              ∙ later fend)
          | inr nf ↦ elim (Bool-cases (x == fesc)) [
            | inl e ↦ rw ((==_iff x fesc).0 e) (
                quiet (within started at m k) (within escaped at m k) fesc
                  (tfesc ∷ escape bytes ++ rest) (escape_begins m k room')
                ∙ quiet (within escaped at m k) (within started at (set m (at + k) fesc) (k + 1))
                    tfesc (escape bytes ++ rest) (escape_ends m k room').1
                ∙ later fesc)
            | inr ne ↦
                rw (nf, ne)
                  (quiet (within started at m k) (within started at (set m (at + k) x) (k + 1)) x
                      (escape bytes ++ rest) (plain x m k room' nf ne)
                    ∙ later x)
          ]
        ]
