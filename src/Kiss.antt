-- ===== src/Kiss.antt =====
-- interfaces/csp_if_kiss.c: packets over a serial line, framed by a byte that is escaped inside a
-- frame. `version` is `csp_conf.version`.
--
-- The transmitter's calls of the driver are the bytes that it is handed, in order. The receiver is
-- a step on each byte: it owns a packet of the buffer pool or none, and what it does with the rest
-- of the stack (the counters of the interface, a packet passed to the router) is an event. Whether
-- the pool has a packet left when one is asked for is an input: `buffer` is what
-- csp_buffer_get_always() would return.
pub mod Bounds
pub mod Wire
pub mod RoundTrip
pub mod Receive
mod Tests
use libcsp_dphi.Base.{
  ℕ, ◌+◌, Bool, true, false, ◌==◌, ltb, leb, if◌then◌else◌, Option, none, some, List, [], ◌∷◌, ◌++◌,
  length, read_at, set, u16,
}
use libcsp_dphi.Packet.{Packet, mem_size}
use libcsp_dphi.Id.{prepend, strip, setup_rx}
use libcsp_dphi.Crc32.{append, verify}

abbrev pub fend : ℕ
fend = 0xC0

abbrev pub fesc : ℕ
fesc = 0xDB

abbrev pub tfend : ℕ
tfend = 0xDC

abbrev pub tfesc : ℕ
tfesc = 0xDD

abbrev pub tnc_data : ℕ
tnc_data = 0x00

-- The loop of csp_kiss_tx over the bytes of the frame.
unfoldable pub escape : List ℕ → List ℕ
escape [] = []
escape (b ∷ bytes) =
    (if b == fend then fesc ∷ tfend ∷ [] else if b == fesc then fesc ∷ tfesc ∷ [] else b ∷ [])
    ++ escape bytes

-- csp_kiss_tx. The return of csp_crc32_append is not looked at: without room for a checksum the
-- packet goes out without one.
unfoldable pub with_crc : Packet → Packet
with_crc p = elim (append p) [ none ↦ p | some q ↦ q ]

unfoldable pub tx : ℕ → Packet → List ℕ
tx version p =
    let q = prepend version (with_crc p) in
    fend ∷ tnc_data ∷ escape (read_at q.mem q.frame_begin q.frame_length) ++ fend ∷ []

-- csp_kiss_mode_t
pub data Mode : Type 0 where
  not_started started escaped skip_frame : Mode

-- csp_kiss_interface_data_t, less the driver's function.
pub record Rx : Type 0 where
  pub mode : Mode
  pub rx_length : ℕ
  pub rx_first : Bool
  pub rx_packet : Option Packet

pub data Event : Type 0 where
  rx_error : Event
  drop : Event
  frame_error : Event
  -- csp_qfifo_write
  input : Packet → Event

-- KISS_MODE_NOT_STARTED at FEND: a new buffer, unless one is left from before.
unfoldable pub begin_frame : ℕ → Option Packet → Rx → Rx × List Event
begin_frame version none r = (record r { mode = skip_frame; rx_packet = none }, drop ∷ [])
begin_frame version (some p) r = (
  record {
    mode = started;
    rx_length = 0;
    rx_first = true;
    rx_packet = some (setup_rx version p).0;
  },
  [],
)

abbrev or_else {ℓ} : {A : Type ℓ} → Option A → Option A → Option A
or_else none b = b
or_else (some a) b = some a

-- KISS_MODE_STARTED at FEND with bytes received: the checks, and the packet to the router.
unfoldable pub checked : Rx → Packet × Bool → Rx × List Event
checked r (p, true) = (record r { mode = not_started; rx_packet = none }, input p ∷ [])
checked r (p, false) = (record r { mode = not_started; rx_packet = some p }, frame_error ∷ [])

unfoldable pub accept : ℕ → Packet → Option Packet → Rx → Rx × List Event
accept version framed none r =
    (record r { mode = not_started; rx_packet = some framed }, frame_error ∷ [])
accept version framed (some p) r = checked r (verify version p)

-- `rx_packet->frame_begin[rx_length++] = byte`. With no packet the source faults; in these modes
-- there is one.
unfoldable pub store : ℕ → Rx → Rx
store byte r = elim r.rx_packet [
  | none ↦ r
  | some p ↦ record r {
    rx_length = r.rx_length + 1;
    rx_packet = some (record p { mem = set p.mem (p.frame_begin + r.rx_length) byte });
  }
]

unfoldable pub end_frame : ℕ → Option Packet → Rx → Rx × List Event
end_frame version none r = (r, [])
end_frame version (some p) r =
    if ltb 0 r.rx_length
    then (let framed : Packet = record p { frame_length = u16 r.rx_length } in
        accept version framed (strip version framed) r)
    else (r, [])

-- The `switch` on the mode.
unfoldable pub dispatch : ℕ → Option Packet → Mode → ℕ → Rx → Rx × List Event
dispatch version buffer not_started byte r =
    if byte == fend then begin_frame version (or_else r.rx_packet buffer) r else (r, [])
dispatch version buffer started byte r =
    if byte == fesc
    then (record r { mode = escaped }, [])
    else if byte == fend
    then end_frame version r.rx_packet r
    else if r.rx_first
    then (record r { rx_first = false }, [])
    else (store byte r, [])
dispatch version buffer escaped byte r =
    let stored =
      if byte == tfesc then store fesc r else if byte == tfend then store fend r else r in
    (record stored { mode = started }, [])
dispatch version buffer skip_frame byte r =
    (if byte == fend then record r { mode = not_started } else r, [])

-- The test before the `switch`: the packet is full.
unfoldable pub too_long : Rx → Bool
too_long r = elim r.rx_packet [ none ↦ false | some p ↦ leb mem_size (p.frame_begin + r.rx_length) ]

-- One byte through csp_kiss_rx.
unfoldable pub rx_byte : ℕ → Option Packet → ℕ → Rx → Rx × List Event
rx_byte version buffer byte r =
    if too_long r
    then (let (r', events) =
          dispatch version buffer not_started byte
            (record r { mode = not_started; rx_length = 0 }) in
        (r', rx_error ∷ events))
    else dispatch version buffer r.mode byte r

-- csp_kiss_rx on a chunk, with the buffer that the pool would hand out at each byte.
unfoldable pub rx : ℕ → Rx → List (Option Packet × ℕ) → Rx × List Event
rx version r [] = (r, [])
rx version r ((buffer, byte) ∷ bytes) =
    let (r', events) = rx_byte version buffer byte r in
    let (r'', later) = rx version r' bytes in (r'', events ++ later)

-- The receiver as csp_kiss_add_interface leaves it.
unfoldable pub add_interface : Rx
add_interface = record { mode = not_started; rx_length = 0; rx_first = false; rx_packet = none }
