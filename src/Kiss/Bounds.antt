-- ===== src/Kiss/Bounds.antt =====
-- csp_kiss_rx never writes outside the packet that it fills, whatever bytes arrive.
use libcsp_dphi.Base.{
  ℕ, ◌+◌, ◌-◌, ◌≤◌, ◌<◌, ◌≡◌, ◌⊎◌, ◌∙◌, refl, arith, Bool, true, false, Bool-cases, inl, inr, ◌==◌,
  ltb, if◌then◌else◌, Option, none, some, List, [], ◌∷◌, All, length, length-set, u16,
}
use libcsp_dphi.Packet.{Packet, data_start, mem_size, IsSized}
use libcsp_dphi.Id.{setup_rx, header_size, strip, strip_fixup, prepend}
use libcsp_dphi.Id.V1
use libcsp_dphi.Id.V2
use libcsp_dphi.Id.Layout.{header, prepend_lem}
use libcsp_dphi.Base.{length-write_at}
use libcsp_dphi.Crc32.{verify}
use libcsp_dphi.Kiss.{
  fend, fesc, tfend, tfesc, Mode, not_started, started, escaped, skip_frame, Rx, Event, begin_frame,
  or_else, checked, accept, store, end_frame, dispatch, too_long, rx_byte, rx,
}

-- A packet of the pool, where there is one.
abbrev pub IsBuffer : Option Packet → Type 0
IsBuffer none = Unit
IsBuffer (some p) = IsSized p

-- Within a frame there is a packet, and what was stored in it lies in it.
abbrev pub InBounds : Mode → Option Packet → ℕ → Type 0
InBounds not_started p n = IsBuffer p
InBounds skip_frame p n = IsBuffer p
InBounds started none n = ⊥
InBounds started (some p) n = IsSized p × (p.frame_begin + n ≤ mem_size)
InBounds escaped none n = ⊥
InBounds escaped (some p) n = IsSized p × (p.frame_begin + n ≤ mem_size)

abbrev pub IsSafe : Rx → Type 0
IsSafe r = InBounds r.mode r.rx_packet r.rx_length

strip-IsBuffer : (version : ℕ) (p : Packet) → IsSized p → IsBuffer (strip version p)
unfolding strip strip_fixup V1.strip V2.strip
strip-IsBuffer version p h = elim (Bool-cases (version == 2)) [
  | inl e ↦ elim (Bool-cases (ltb p.frame_length 6)) [ inl s ↦ rw (e, s) tt | inr l ↦ rw (e, l) h ]
  | inr e ↦ elim (Bool-cases (ltb p.frame_length 4)) [ inl s ↦ rw (e, s) tt | inr l ↦ rw (e, l) h ]
]

prepend-IsSized : (version : ℕ) (p : Packet) → IsSized p → IsSized (prepend version p)
prepend-IsSized version p h =
    rw (prepend_lem version p)
      (length-write_at p.mem (data_start - header_size version) (header version p.id) ∙ h)

either :
    (b : Bool) (x y : Packet × Bool) → IsSized x.0 → IsSized y.0 → IsSized (if b then x else y).0
either true x y h k = h
either false x y h k = k

verify-IsSized : (version : ℕ) (p : Packet) → IsSized p → IsSized (verify version p).0
unfolding verify
verify-IsSized version p h =
    let k = prepend-IsSized version p h in either (ltb p.len 4) _ _ h (either _ _ _ k k)

setup_rx_lem :
    (version : ℕ) (p : Packet)
    → IsSized p
    → let q = (setup_rx version p).0 in IsSized q × (q.frame_begin + 0 ≤ mem_size)
unfolding setup_rx V1.setup_rx V2.setup_rx
setup_rx_lem version p h = elim (Bool-cases (version == 2)) [
  | inl e ↦ rw e (h, omega arith)
  | inr e ↦ rw e (h, omega arith)
]

begin_frame-IsSafe :
    (version : ℕ) (packet : Option Packet) (r : Rx)
    → IsBuffer packet
    → IsSafe (begin_frame version packet r).0
unfolding begin_frame
begin_frame-IsSafe version none r h = tt
begin_frame-IsSafe version (some p) r h = setup_rx_lem version p h

or_else-IsBuffer : (p q : Option Packet) → IsBuffer p → IsBuffer q → IsBuffer (or_else p q)
or_else-IsBuffer none q h k = k
or_else-IsBuffer (some p) q h k = h

checked-IsSafe : (r : Rx) (v : Packet × Bool) → IsSized v.0 → IsSafe (checked r v).0
unfolding checked
checked-IsSafe r (p, true) h = tt
checked-IsSafe r (p, false) h = h

accept-IsSafe :
    (version : ℕ) (p : Packet) (q : Option Packet) (r : Rx)
    → IsSized p
    → IsBuffer q
    → IsSafe (accept version p q r).0
unfolding accept
accept-IsSafe version p none r h k = h
accept-IsSafe version p (some q) r h k =
    checked-IsSafe r (verify version q) (verify-IsSized version q k)

choose :
    (b : Bool) (x y : Rx × List Event) → IsSafe x.0 → IsSafe y.0 → IsSafe (if b then x else y).0
choose true x y h k = h
choose false x y h k = k

-- The receiver within a frame, with the packet that it fills.
abbrev filling : Mode → Packet → ℕ → Bool → Rx
filling mode p n first = record { mode = mode; rx_length = n; rx_first = first; rx_packet = some p }

store-IsSafe :
    (x : ℕ) (mode : Mode) (p : Packet) (n : ℕ) (first : Bool)
    → IsSized p
    → p.frame_begin + n < mem_size
    → IsSafe (record (store x (filling mode p n first)) { mode = started })
unfolding store
store-IsSafe x mode p n first h k = (length-set p.mem (p.frame_begin + n) x ∙ h, omega arith)

choose_rx :
    (b : Bool) (x y : Rx)
    → IsSafe (record x { mode = started })
    → IsSafe (record y { mode = started })
    → IsSafe (record (if b then x else y) { mode = started })
choose_rx true x y h k = h
choose_rx false x y h k = k

choose_plain : (b : Bool) (x y : Rx) → IsSafe x → IsSafe y → IsSafe (if b then x else y)
choose_plain true x y h k = h
choose_plain false x y h k = k

waiting-IsSafe :
    (version : ℕ) (buffer : Option Packet) (x : ℕ) (r : Rx)
    → IsBuffer buffer
    → IsBuffer r.rx_packet
    → r.mode ≡ not_started
    → IsSafe (dispatch version buffer not_started x r).0
unfolding dispatch
waiting-IsSafe version buffer x r b h e =
    choose (x == fend) _ _
      (begin_frame-IsSafe version (or_else r.rx_packet buffer) r
        (or_else-IsBuffer r.rx_packet buffer h b))
      (rw e h)

dispatch-IsSafe :
    (version : ℕ) (buffer : Option Packet) (mode : Mode) (x : ℕ) (packet : Option Packet) (n : ℕ)
    (first : Bool)
    → IsBuffer buffer
    → InBounds mode packet n
    → too_long (record { mode = mode; rx_length = n; rx_first = first; rx_packet = packet }) ≡ false
    → IsSafe
        (dispatch version buffer mode x
          (record { mode = mode; rx_length = n; rx_first = first; rx_packet = packet })).0
unfolding dispatch too_long end_frame store
dispatch-IsSafe version buffer not_started x packet n first b h k =
    waiting-IsSafe version buffer x
      (record { mode = not_started; rx_length = n; rx_first = first; rx_packet = packet }) b h refl
dispatch-IsSafe version buffer started x none n first b h k = absurd h
dispatch-IsSafe version buffer started x (some p) n first b h k = choose (x == fesc) _ _ h (
    choose (x == fend) _ _
      (choose (ltb 0 n) _ _
        (accept-IsSafe version _ (strip version (record p { frame_length = u16 n })) _ h.0
          (strip-IsBuffer version (record p { frame_length = u16 n }) h.0))
        h)
      (choose first _ _ h (store-IsSafe x started p n first h.0 (ground arith))))
dispatch-IsSafe version buffer escaped x none n first b h k = absurd h
dispatch-IsSafe version buffer escaped x (some p) n first b h k =
    choose_rx (x == tfesc) _ _ (store-IsSafe fesc escaped p n first h.0 (ground arith))
      (choose_rx (x == tfend) _ _ (store-IsSafe fend escaped p n first h.0 (ground arith)) h)
dispatch-IsSafe version buffer skip_frame x packet n first b h k = choose_plain (x == fend) _ _ h h

IsSafe→IsBuffer : (mode : Mode) (p : Option Packet) (n : ℕ) → InBounds mode p n → IsBuffer p
IsSafe→IsBuffer not_started p n h = h
IsSafe→IsBuffer skip_frame p n h = h
IsSafe→IsBuffer started none n h = tt
IsSafe→IsBuffer started (some p) n h = h.0
IsSafe→IsBuffer escaped none n h = tt
IsSafe→IsBuffer escaped (some p) n h = h.0

rx_byte-IsSafe :
    (version : ℕ) (buffer : Option Packet) (x : ℕ) (r : Rx)
    → IsBuffer buffer
    → IsSafe r
    → IsSafe (rx_byte version buffer x r).0
unfolding rx_byte
rx_byte-IsSafe version buffer x r b h = elim (Bool-cases (too_long r)) [
  | inl e ↦ rw e (
      waiting-IsSafe version buffer x (record r { mode = not_started; rx_length = 0 }) b
        (IsSafe→IsBuffer r.mode r.rx_packet r.rx_length h) refl)
  | inr e ↦ rw e (dispatch-IsSafe version buffer r.mode x r.rx_packet r.rx_length r.rx_first b h e)
]

-- Whatever bytes arrive, in any state of the receiver that is safe the receiver is safe after them:
-- within a frame it owns a packet, and the bytes that it has stored lie in that packet.
pub rx-IsSafe :
    (version : ℕ) (r : Rx) (bytes : List (Option Packet × ℕ))
    → All (λ e. IsBuffer e.0) bytes
    → IsSafe r
    → IsSafe (rx version r bytes).0
unfolding rx
rx-IsSafe version r [] b h = h
rx-IsSafe version r ((buffer, x) ∷ bytes) (b, bs) h =
    rx-IsSafe version (rx_byte version buffer x r).0 bytes bs
      (rx_byte-IsSafe version buffer x r b h)

stores_inside :
    (mode : Mode) (packet : Option Packet) (n : ℕ) (first : Bool) (x : ℕ)
    → InBounds mode packet n
    → too_long (record { mode = mode; rx_length = n; rx_first = first; rx_packet = packet }) ≡ false
    → (mode ≡ started) ⊎ (mode ≡ escaped)
    → (p : Packet) × (packet ≡ some p) × (p.frame_begin + n < length p.mem)
unfolding too_long
stores_inside mode none n first x h k (inl e) = absurd (rw e at h)
stores_inside mode none n first x h k (inr e) = absurd (rw e at h)
stores_inside mode (some p) n first x h k e =
    (p, refl, ground (arith, IsSafe→IsBuffer mode (some p) n h))

-- When a byte of a frame comes to a safe receiver that does not give up the frame for its length,
-- the place for it lies in the packet's memory.
pub store_inside :
    (r : Rx)
    → IsSafe r
    → too_long r ≡ false
    → (r.mode ≡ started) ⊎ (r.mode ≡ escaped)
    → (p : Packet) × (r.rx_packet ≡ some p) × (p.frame_begin + r.rx_length < length p.mem)
store_inside r h k e = stores_inside r.mode r.rx_packet r.rx_length r.rx_first 0 h k e
