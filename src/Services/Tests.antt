-- ===== src/Services/Tests.antt =====
-- A concrete case of the theorem on the services, and tests of them.
use libcsp_dphi.Base.{inl, arith, none, ◌≡◌, refl, true, false, List, [], ◌∷◌, ◌++◌, map}
use libcsp_dphi.Node.{Node, Sent, if_lo, store_at}
use libcsp_dphi.Buffer.{Buffer}
use libcsp_dphi.Io.Reaches.{CanReach}
use libcsp_dphi.Route.Balance.{store-IsBalanced}
use libcsp_dphi.Services.Ping.{answer_id, handler-Hands}
use libcsp_dphi.Services.Quiet.{AreQuiet}
use libcsp_dphi.Io.{Driver}
use libcsp_dphi.Packet.{id_copy}
use libcsp_dphi.Queue.{messages_waiting, dequeue, enqueue}
use libcsp_dphi.Buffer.{
  clone, get, get_actual, take_out, hand_out, packet_init, copy, copy_to, free, release, remaining,
}
use libcsp_dphi.Id.{is_broadcast, get_max_nodeid, get_host_bits}
use libcsp_dphi.Iflist.{get_by_subnet, is_within_subnet, first_that, start, after}
use libcsp_dphi.Node.{iface_at, count_at}
use libcsp_dphi.Io.{
  send_direct_iface, send_found, note_hmac, send_sealed, seal, transmit, next_hop, sent_bytes,
}
use libcsp_dphi.Io.Direct.{
  is_loopback, send_direct, send_locally, local_loop, local_round, local_id, is_behind, send_copy,
  send_cloned,
}
use libcsp_dphi.Io.Api.{sendto_reply, reply_with, reply_id, sendto, sendto_packet, sendto_id}
use libcsp_dphi.Services.{serve, serve_found, reply_in, reply_number, numbered}
use libcsp_dphi.Services.{handler, service_of, service_buf_free, service_none}
use libcsp_dphi.Services.Cmp.{Conf, Hooks, put, cmp_handler, fixed, string_of}
use libcsp_dphi.Services.Steady.{AreSteady}
use libcsp_dphi.Services.Releases.{Releases, AreTidy, beside}
use libcsp_dphi.Services.Takes.{handler-Releases}
use libcsp_dphi.Services.Bounds.{Inside, cmp_handler-Inside}
use libcsp_dphi.Packet.{Packet}
use libcsp_dphi.Services.Client.{counts, counting}
use libcsp_dphi.Samples
use libcsp_dphi.Samples.Balanced.{wide-IsBalanced}

abbrev ready : Driver
ready = λ iface via packet from_me. true

abbrev conf : Conf
conf = record { hostname = 0x6E ∷ []; model = []; revision = 0x31 ∷ []; date = []; time = [] }

-- A platform that has no list of processes and refuses no time.
abbrev hooks : Hooks
hooks = record {
  ps = λ packet. (packet, 0);
  memfree = 4096;
  get_s = 17;
  reboot = λ node. node;
  shutdown = λ node. node;
  peek = λ addr n p node. [];
  poke = λ addr bytes p node. (p, node);
  set_time = λ sec nsec node. (node, true);
  get_time = λ node. (0, 0);
}

steady : AreSteady hooks
steady = record {
  reboot = λ node v. v;
  shutdown = λ node v. v;
  poke = λ addr bytes p node v. v;
  set_time = λ sec nsec node v. v;
}

quiet : AreQuiet hooks
quiet = record {
  reboot = λ node. ((refl, refl, refl), refl);
  shutdown = λ node. ((refl, refl, refl), refl);
  poke = λ addr bytes p node. (refl, ((refl, refl, refl), refl));
  set_time = λ sec nsec node. ((refl, refl, refl), refl);
  ps = λ p. refl;
}

-- The request of the samples, to the port of the free buffers.
abbrev to_buf_free : Packet
to_buf_free = record Samples.packet { id = record Samples.id { dport = 5 } }

abbrev asked : Node
asked = store_at 0 to_buf_free Samples.node

-- The reply that leaves: the ports are turned round, and so are the addresses.
handler_sends :
    map (λ e. e.packet.id) (handler ready conf hooks 0 asked).sent
    ≡ record { pri = 2; flags = 0; src = 5; dst = 3; dport = 33; sport = 5 } ∷ []
unfolding handler serve_found serve service_of reply_number numbered reply_in sendto_reply
    reply_with reply_id sendto sendto_packet sendto_id send_direct send_locally local_loop
    local_round local_id is_behind send_copy send_cloned send_direct_iface send_found note_hmac
    send_sealed seal transmit next_hop sent_bytes iface_at count_at get_by_subnet is_within_subnet
    first_that start after is_broadcast get_max_nodeid get_host_bits clone get get_actual take_out
    hand_out packet_init copy copy_to free release messages_waiting dequeue enqueue id_copy
    remaining
handler_sends = refl

-- A ping from address 3, which is in the subnet of the second interface.
abbrev ping : Buffer
ping = record {
  refcount = 1;
  skbf_addr = 0;
  base = 0;
  packet = record Samples.packet { id = record Samples.id { dport = 1 } };
}

abbrev pinged : Node
pinged = store_at 0 ping.packet Samples.node

abbrev pong : Packet
pong = record Samples.packet {
  id = record { pri = 2; flags = 0; src = 5; dst = 3; dport = 33; sport = 1 };
}

pinged-CanReach :
    CanReach ready
      (answer_id pinged.version ping.packet.id)
      none
      0
      ping
      (Samples.iface 1)
      pong
      pinged
unfolding remaining messages_waiting iface_at is_behind is_within_subnet get_by_subnet first_that
    start seal local_id is_broadcast get_max_nodeid get_host_bits sendto_id reply_id
pinged-CanReach = record {
  balanced = store-IsBalanced 0 ping.packet Samples.node wide-IsBalanced;
  found = refl;
  used = omega arith;
  spare = omega arith;
  away = refl;
  here = refl;
  free = refl;
  line = λ p. cc;
  sealed = (refl, inl (refl, refl));
  accepted = refl;
}

handler-Hands_example :
    (e : Sent) × (rest : List Sent) × ((handler ready conf hooks 0 pinged).sent ≡ [] ++ e ∷ rest)
    × (e.iface ≡ 1)
    × (e.packet ≡ pong)
handler-Hands_example =
    handler-Hands ready conf hooks 0 ping (Samples.iface 1) pong pinged refl pinged-CanReach

-- A request to read 255 bytes, which is more than the message has room for.
abbrev long_peek : Packet
long_peek = put 0 (0 ∷ 4 ∷ 0 ∷ 0 ∷ 0 ∷ 0 ∷ 255 ∷ []) Samples.packet

cmp_handler-Inside_example : Inside long_peek (cmp_handler conf hooks long_peek Samples.node).0
cmp_handler-Inside_example =
    cmp_handler-Inside conf hooks (λ addr bytes p node. refl) long_peek Samples.node

-- A platform that lists a byte of processes.
abbrev listing : Hooks
listing = record hooks { ps = λ packet. (packet, 1) }

tidy : AreTidy listing
unfolding iface_at
tidy = record {
  steady = record {
    reboot = λ node v. v;
    shutdown = λ node v. v;
    poke = λ addr bytes p node v. v;
    set_time = λ sec nsec node v. v;
  };
  quiet = record {
    reboot = λ node. ((refl, refl, refl), refl);
    shutdown = λ node. ((refl, refl, refl), refl);
    poke = λ addr bytes p node. (refl, ((refl, refl, refl), refl));
    set_time = λ sec nsec node. ((refl, refl, refl), refl);
    ps = λ p. refl;
  };
  reboot = beside;
  shutdown = beside;
  poke = λ addr bytes p. beside;
  set_time = λ sec nsec. beside;
  lists = λ p. refl;
}

asked_away : is_loopback (answer_id asked.version to_buf_free.id) (iface_at if_lo asked) ≡ false
unfolding iface_at is_broadcast get_max_nodeid get_host_bits sendto_id reply_id first_that
asked_away = refl

handler-Releases_example : Releases 0 asked.pool (handler ready conf listing 0 asked).pool
handler-Releases_example =
    handler-Releases ready conf listing 0 to_buf_free asked tidy
      (store-IsBalanced 0 to_buf_free Samples.node wide-IsBalanced) refl (omega arith) asked_away

-- A ping of three bytes, and an answer with a changed byte.
counts_same : counts 0 (counting 0 3) ≡ true
unfolding counts counting
counts_same = refl

counts_other : counts 0 (0 ∷ 2 ∷ []) ≡ false
unfolding counts
counts_other = refl

service_5 : service_of 5 ≡ service_buf_free
unfolding service_of
service_5 = refl

service_7 : service_of 7 ≡ service_none
unfolding service_of
service_7 = refl

-- A name that fills its field loses its last byte.
fixed_cut : fixed 3 (1 ∷ 2 ∷ 3 ∷ []) ≡ 1 ∷ 2 ∷ 0 ∷ []
unfolding fixed
fixed_cut = refl

fixed_padded : fixed 3 (1 ∷ []) ≡ 1 ∷ 0 ∷ 0 ∷ []
unfolding fixed
fixed_padded = refl

string_end : string_of (1 ∷ 2 ∷ 0 ∷ 3 ∷ []) ≡ 1 ∷ 2 ∷ []
unfolding string_of
string_end = refl
