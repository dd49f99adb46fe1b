-- ===== src/Bridge/Tests.antt =====
-- A concrete case of the theorem on the bridge.
use libcsp_dphi.Base.{true, some}
use libcsp_dphi.Io.{Driver}
use libcsp_dphi.Qfifo
use libcsp_dphi.Bridge.{work}
use libcsp_dphi.Bridge.Opposite.{Led, work-Led}
use libcsp_dphi.Samples

abbrev ready : Driver
ready = λ iface via packet from_me. true

work-Led_example :
    Led 1 2
      (Qfifo.read Samples.node).1
      Samples.node
      (work ready 1000 (record { bif_a = some 1; bif_b = some 2 }) Samples.node)
work-Led_example = work-Led ready 1000 1 2 Samples.node
