-- ===== src/Lib.antt =====
-- libcsp, the CubeSat Space Protocol stack of this repository: the data path from an identifier in
-- a packet to the bytes on a serial line and back, and the tables that decide where a packet goes.
--
-- A packet (Packet, include/csp/csp_types.h) carries an identifier, which src/csp_id.c packs in
-- front of its data (Id), and a checksum, which src/csp_crc32.c appends (Crc32).
-- src/interfaces/csp_if_kiss.c sends such a frame over a serial line and receives it byte by byte
-- (Kiss). Packets lie in the buffers of the pool of src/csp_buffer.c (Buffer), and wait in the
-- queues of src/arch/baremetal/mpmp_queue.c (Queue) on a connection of src/csp_conn.c (Conn) or a
-- socket of src/csp_port.c (Port). An interface of src/csp_iflist.c (Iface, Iflist) or a route of
-- src/csp_rtable_cidr.c (Rtable) says where they leave, and src/csp_dedup.c (Dedup) drops those
-- that came already. src/csp_sfp.c (Sfp) sends what is longer than a packet in fragments.
--
-- src/csp_io.c (Io) sends a packet to the interfaces that it has to leave on, and src/csp_route.c
-- (Route) takes one from the queue of src/csp_qfifo.c (Qfifo) and forwards it, or gives it to a
-- callback, a socket or a connection; both work on the state of a node (Node), which has the state
-- of the other modules as its fields. src/csp_bridge.c (Bridge) passes packets between two
-- interfaces instead, and src/csp_promisc.c (Promisc) keeps copies of them.
-- src/csp_service_handler.c (Services, and Services.Cmp for the management protocol of
-- include/csp/csp_cmp.h) is the callback that answers on the first ports, and src/csp_services.c
-- (Services.Client) asks for it. src/crypto/csp_sha1.c (Sha1) and src/crypto/csp_hmac.c (Hmac)
-- authenticate packets. src/csp_init.c (Init) starts a node, and System has the calls of tasks,
-- drivers and interrupts that it may see from then on, as steps in any order.
--
-- Base has what the modules share: Boolean tests, lists with native indices, blocks of bytes,
-- machine words and the laws of the bit operations. Samples has values for the tests. Each
-- component is one module with its state and its operations, and child modules named for what they
-- prove:
--   Id.V1, Id.V2            the two header layouts; Id.Pack the word of a header and its fields;
--                           Id.Frame and Id.Strip the two round trips; Id.Layout the bytes of a frame
--   Crc32.Table             the table of the source; Crc32.Bitwise the division that it stands for;
--                           Crc32.Detect a changed byte; Crc32.Checked appended checksums
--   Kiss.Wire               escaping undone byte by byte; Kiss.RoundTrip the receiver's memory;
--                           Kiss.Receive a whole frame; Kiss.Bounds any bytes at all
--   Queue.Fifo              the list that a queue promises to be; Queue.Order that it is one
--   Iflist.Search           the loops over the searches; Iflist.Change adding and removing
--   Rtable.Prefix           what a route matches; Rtable.Best look-up; Rtable.Insert setting a route
--   Buffer.Count            getting and freeing; Buffer.Clone copying; Buffer.Drain emptying a queue of packets;
--                           Buffer.Occurrences counting in lists; Buffer.Invariant and
--                           Buffer.Balance the free buffers and those with references
--   Port.Lookup, Dedup.Search, Dedup.Window, Conn.Getters, Conn.Match, Conn.Allocate, Conn.Balance, Sfp.Header
--   Io                      sending on one interface; Io.Direct finding the interfaces; Io.Api what
--                           applications call; Io.Loops an invariant rule for the loops; Io.References
--                           and Io.Takes the references of packets; Io.Sends, Io.Horizon and
--                           Io.Addresses what drivers are handed, Io.Replies what csp_sendto_reply
--                           hands them, Io.Reaches a packet that leaves
--   Route.Security          packets that fail the check; Route.Balance and Route.Steady the buffers;
--                           Route.Delivery packets that arrive, Route.Listening and Route.Accept the
--                           first of a connection
--   Bridge.Opposite         where the bridge sends
--   Services.Steady         the buffers in the services; Services.Bounds where they write;
--                           Services.Numbers numbers in replies; Services.Quiet and Services.Replies
--                           what replies are addressed with; Services.Releases and Services.Takes
--                           the reference of a request; Services.Ping the answer to a ping;
--                           Services.Ps the client of the list of processes
--   Sfp.Fragments           one round of sender and receiver; Sfp.RoundTrip all of them
--   Init.Ready              the node after csp_init; Buffer.Init its pool; System.Balance the buffers of
--                           every node that calls lead to from there
--   Sha1.Blocks             data in pieces; Sha1.Padding the end of a message; Hmac.Keyed the standard;
--                           Hmac.Checked appended codes
--
-- The functions keep the names of the source without their prefix csp_, and take the state that
-- they change as an argument and return it. A pointer to an element of a static array is its index,
-- a pointer to an interface its field `ptr`, which leads to one of the list or to another that the
-- node knows; NULL is `none`. Words of 8, 16, 32 and 64 bits wrap at the places where the source
-- stores them. The header padding and the data of a packet are one array of 264 bytes, and
-- `frame_begin` is an offset in it. `csp_conf.version` and csp_get_ms() are arguments, and so are
-- the buffers that the pool would give to a receiver or to the sender of fragments. CSP_CONN_MAX is
-- an argument; the other sizes are those of include/csp/autoconfig.h.
--
-- The drivers behind `nexthop` are an argument of the functions that send: a driver says whether it
-- takes a packet over, and what it took is appended to the field `sent` of the node. A driver that
-- takes a packet owns its buffer. The callbacks bound to ports are an argument of the router, and
-- the hooks of the platform, the strings of csp_conf and the clock are arguments of the services.
--
-- Loops are recursion on the list that they go through, but for these. The loops of csp_send_direct
-- run on one round more than there are interfaces or places of the routing table, since each round
-- goes on behind the interface or below the place of the one before. csp_sha1_process has as many
-- rounds as bytes, each of which takes one at least. The search of the duplicates takes at most
-- sixteen rounds, the number of places; the search for a closed connection takes CSP_CONN_MAX
-- rounds, as in the source; emptying a queue takes as many rounds as it has items, which is enough.
-- The loop of csp_ps goes on as long as replies arrive, so that its fuel is an argument; one round
-- more than there are replies is enough.
--
-- Not modelled: RDP, which this build leaves out, the calls of HMAC and of the promiscuous queue by
-- the rest of the stack, which it leaves out too, the functions of src/csp_services.c that only
-- print a value, and what else prints or talks to the hardware. csp_dbg_errno is not followed in
-- Port. System leaves out a second csp_init and csp_buffer_refc_inc on a packet that is free.
-- Threads and interrupts are not modelled: each operation is one step; what other tasks do during a
-- transaction is an argument of it.
pub mod Base
pub mod Samples
pub mod Packet
pub mod Iface
pub mod Id
pub mod Crc32
pub mod Queue
pub mod Iflist
pub mod Rtable
pub mod Kiss
pub mod Buffer
pub mod Port
pub mod Dedup
pub mod Conn
pub mod Sfp
pub mod Sha1
pub mod Hmac
pub mod Node
pub mod Qfifo
pub mod Io
pub mod Route
pub mod Bridge
pub mod Promisc
pub mod Services
pub mod Init
pub mod System
