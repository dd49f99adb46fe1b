-- ===== src/Route/Tests.antt =====
-- Tests of the router, and concrete cases of the theorems on it.
use libcsp_dphi.Base.{ℕ, ap, arith, ◌≡◌, refl, true, false, some}
use libcsp_dphi.Packet.{Packet, flag_crc32}
use libcsp_dphi.Crc32.{verify}
use libcsp_dphi.Crc32.Checked.{verify_short}
use libcsp_dphi.Buffer.Invariant.{free-IsBalanced}
use libcsp_dphi.Node.{free_packet}
use libcsp_dphi.Io.{Driver}
use libcsp_dphi.Route.{Callbacks, take_in}
use libcsp_dphi.Route.Security.{Quiet, take_in-Quiet}
use libcsp_dphi.Route.Balance.{Steady}
use libcsp_dphi.Samples

abbrev ready : Driver
ready = λ iface via packet from_me. true

-- A callback that drops its packet, and one that keeps it.
abbrev drops : Callbacks
drops callback i node = free_packet (some i) node

abbrev keeps : Callbacks
keeps callback i node = node

drops-Steady : (callback i : ℕ) → Steady (drops callback i)
drops-Steady callback i node v = free-IsBalanced (some i) node.pool v

-- A packet that says it has a checksum, and is too short for one.
abbrev summed : Packet
summed = record (Samples.packet) { id = record (Samples.id) { flags = flag_crc32 } }

summed_fails : (verify 2 summed).1 ≡ false
summed_fails = ap (λ r. r.1) (verify_short 2 summed (omega arith))

take_in-Quiet_example :
    Quiet Samples.node (take_in 2 1000 (some 2) 0 summed keeps Samples.node)
    × (take_in 2 1000 (some 2) 0 summed drops Samples.node
        ≡ take_in 2 1000 (some 2) 0 summed keeps Samples.node)
take_in-Quiet_example =
    take_in-Quiet 2 1000 (some 2) 0 summed Samples.node refl summed_fails keeps drops
