-- ===== src/Io/Tests.antt =====
-- Tests of sending, and concrete cases of the theorems on it.
use libcsp_dphi.Base.{ℕ, ◌+◌, ◌<◌, ◌≡◌, ◌≢◌, refl, arith, true, some, List, [], ◌∷◌, map}
use libcsp_dphi.Packet.{id_copy}
use libcsp_dphi.Buffer.{
  clone, get, get_actual, take_out, hand_out, packet_init, copy, copy_to, free, release,
}
use libcsp_dphi.Queue.{dequeue, enqueue, messages_waiting}
use libcsp_dphi.Buffer.Invariant.{IsBalanced}
use libcsp_dphi.Id.{is_broadcast, get_max_nodeid, get_host_bits}
use libcsp_dphi.Iflist.{get_by_subnet, is_within_subnet, first_that, start, after}
use libcsp_dphi.Node.{Sent, iface_at, count_at}
use libcsp_dphi.Io.{
  Driver, send_direct_iface, send_found, note_hmac, send_sealed, seal, transmit, next_hop,
  sent_bytes,
}
use libcsp_dphi.Io.Direct.{
  send_direct, send_locally, local_loop, local_round, local_id, is_behind, send_copy, send_cloned,
}
use libcsp_dphi.Io.References.{refs}
use libcsp_dphi.Io.Takes.{send_direct-refs}
use libcsp_dphi.Samples
use libcsp_dphi.Samples.Balanced.{wide-IsBalanced}

-- Drivers that take every packet.
abbrev ready : Driver
ready = λ iface via packet from_me. true

abbrev ifaces : List Sent → List ℕ
ifaces l = map (λ e. e.iface) l

-- The packet leaves on the interface of its subnet.
send_direct_test : ifaces (send_direct ready Samples.id 0 (some 2) Samples.node).1.sent ≡ 1 ∷ []
unfolding send_direct send_locally local_loop local_round local_id is_behind send_copy send_cloned
    send_direct_iface send_found note_hmac send_sealed seal transmit next_hop sent_bytes iface_at
    count_at get_by_subnet is_within_subnet first_that start after is_broadcast get_max_nodeid
    get_host_bits clone get get_actual take_out hand_out packet_init copy copy_to free release
    messages_waiting dequeue enqueue id_copy
send_direct_test = refl

send_direct-refs_example :
    let pool' = (send_direct ready Samples.id 0 (some 2) Samples.node).1.pool in
    IsBalanced pool'
    × (refs pool' 0 + 1 ≡ 1)
    × ((j : ℕ) → 0 ≢ j → 0 < refs Samples.wide_pool j → refs pool' j ≡ refs Samples.wide_pool j)
unfolding iface_at first_that
send_direct-refs_example =
    send_direct-refs ready Samples.id 0 (some 2) Samples.node wide-IsBalanced refl (omega arith)
