-- ===== src/Kiss/Tests.antt =====
-- Tests of the serial framing, and concrete cases of the theorems on it.
use libcsp_dphi.Base.{ℕ, ◌≡◌, refl, arith, false, Option, none, some, List, [], ◌∷◌, ◌++◌}
use libcsp_dphi.Packet.{Packet, payload}
use libcsp_dphi.Id.Pack.{FitsV2}
use libcsp_dphi.Kiss.{
  fend, escape, tx, not_started, escaped, Rx, input, rx_error, rx, too_long, add_interface,
}
use libcsp_dphi.Kiss.Wire.{feed}
use libcsp_dphi.Kiss.Receive.{IsIdle, rx-tx, rx-tx_full}
use libcsp_dphi.Kiss.Bounds.{IsSafe, rx-IsSafe}
use libcsp_dphi.Samples

escape_test : escape (0xC0 ∷ 1 ∷ 0xDB ∷ []) ≡ 0xDB ∷ 0xDC ∷ 1 ∷ 0xDB ∷ 0xDD ∷ []
unfolding escape
escape_test = refl

abbrev idle : Rx
idle = record { mode = not_started; rx_length = 0; rx_first = false; rx_packet = none }

add_interface_test : add_interface ≡ idle
unfolding add_interface
add_interface_test = refl

-- Within a frame of which two bytes are stored.
abbrev busy : Rx
busy = record { mode = escaped; rx_length = 2; rx_first = false; rx_packet = some Samples.received }

idle-IsIdle : IsIdle idle
idle-IsIdle = record { waits = refl; empty = refl }

id-FitsV2 : FitsV2 Samples.id
id-FitsV2 = record {
  pri = omega arith;
  dst = omega arith;
  src = omega arith;
  dport = omega arith;
  sport = omega arith;
  flags = omega arith;
}

rx-tx_example :
    (r' : Rx) × (q : Packet) × (rx 2 idle (feed Samples.empty (tx 2 Samples.packet))
      ≡ (r', input q ∷ []))
    × IsIdle r'
    × (q.id ≡ Samples.id)
    × (q.len ≡ 3)
    × (payload q ≡ payload Samples.packet)
rx-tx_example =
    rx-tx 2 Samples.empty Samples.packet idle refl refl (omega arith) id-FitsV2 idle-IsIdle

rx-tx_full_example :
    (front : List ℕ) × (tx 2 Samples.full_packet ≡ front ++ fend ∷ [])
    × ((rx 2 idle (feed Samples.empty front)).1 ≡ [])
    × ((rx 2 idle (feed Samples.empty (tx 2 Samples.full_packet))).1 ≡ rx_error ∷ [])
rx-tx_full_example = rx-tx_full 2 Samples.empty Samples.full_packet idle refl refl idle-IsIdle

abbrev bytes : List (Option Packet × ℕ)
bytes = (none, 0xDC) ∷ (some Samples.empty, 0xC0) ∷ []

rx-IsSafe_example : IsSafe (rx 2 busy bytes).0
rx-IsSafe_example = rx-IsSafe 2 busy bytes (tt, (refl, tt)) (refl, omega arith)

busy_short : too_long busy ≡ false
unfolding too_long
busy_short = refl
