-- ===== src/Init/Tests.antt =====
-- A concrete case of the theorem on the start of a node, and tests of it.
use libcsp_dphi.Base.{◌≡◌, refl, some}
use libcsp_dphi.Node.{Node, dedup_off, dedup_all}
use libcsp_dphi.Init.{init, valid_version, valid_dedup}
use libcsp_dphi.Init.Ready.{IsReady, init-IsReady}
use libcsp_dphi.Samples
use libcsp_dphi.Samples.Zeroed.{memory, memory-IsZeroed}

valid_version_3 : valid_version 3 ≡ 2
unfolding valid_version
valid_version_3 = refl

valid_dedup_3 : valid_dedup 3 ≡ dedup_all
unfolding valid_dedup
valid_dedup_3 = refl

valid_dedup_4 : valid_dedup 4 ≡ dedup_off
unfolding valid_dedup
valid_dedup_4 = refl

init-IsReady_example :
    (node' : Node) × (init 3 (Samples.iface 0) memory Samples.node ≡ some node')
    × IsReady (Samples.iface 0) Samples.node node'
init-IsReady_example = init-IsReady 3 (Samples.iface 0) memory Samples.node memory-IsZeroed
