-- ===== src/Services/Cmp.antt =====
-- csp_service_handler.c: the requests of the management protocol, which are answered in the packet
-- that they came in. The fields of struct csp_cmp_message (include/csp/csp_cmp.h) are offsets in its
-- data; the host is little-endian.
use libcsp_dphi.Base.{
  ℕ, ◌+◌, ◌-◌, Bool, true, false, not, ◌==◌, ltb, if◌then◌else◌, Option, none, some, List, [], ◌∷◌,
  ◌++◌, get_or, take, replicate, read_at, write_at, be32, le32, of_be,
}
use libcsp_dphi.Packet.{Packet, data_start}
use libcsp_dphi.Iface.{Iface}
use libcsp_dphi.Id.{get_host_bits}
use libcsp_dphi.Iflist.{get_by_name}
use libcsp_dphi.Rtable
use libcsp_dphi.Buffer.{clock_set_fail}
use libcsp_dphi.Node.{Node, fail_with}

-- The strings of csp_conf, and the date and the time of the compilation.
pub record Conf : Type 0 where
  pub hostname : List ℕ
  pub model : List ℕ
  pub revision : List ℕ
  pub date : List ℕ
  pub time : List ℕ

-- What the platform supplies: csp_ps_hook, which writes to the packet and returns a length,
-- csp_memfree_hook, csp_get_s, the two hooks for restarts, the memory behind csp_cmp_memcpy_fnc,
-- which the packet at hand is a part of, and the clock.
pub record Hooks : Type 0 where
  pub ps : Packet → Packet × ℕ
  pub memfree : ℕ
  pub get_s : ℕ
  pub reboot : Node → Node
  pub shutdown : Node → Node
  pub peek : ℕ → ℕ → Packet → Node → List ℕ
  pub poke : ℕ → List ℕ → Packet → Node → Packet × Node
  pub set_time : ℕ → ℕ → Node → Node × Bool
  pub get_time : Node → ℕ × ℕ

-- The packet with its reply, the node, and whether CSP_ERR_NONE is returned.
abbrev pub Reply : Type 0
Reply = Packet × Node × Bool

abbrev pub put : ℕ → List ℕ → Packet → Packet
put offset bytes p = record p { mem = write_at p.mem (data_start + offset) bytes }

abbrev pub bytes_at : ℕ → ℕ → Packet → List ℕ
bytes_at offset n p = read_at p.mem (data_start + offset) n

abbrev pub byte_at : ℕ → Packet → ℕ
byte_at offset p = get_or p.mem (data_start + offset) 0

-- strncpy of `n` bytes, with a zero written to the last of them.
unfoldable pub fixed : ℕ → List ℕ → List ℕ
fixed n s = take (n - 1) (s ++ replicate n 0) ++ 0 ∷ []

-- The string that begins here.
unfoldable pub string_of : List ℕ → List ℕ
string_of [] = []
string_of (c ∷ cs) = let rest = string_of cs in if c == 0 then [] else c ∷ rest

-- The interface that a request names; ten characters are looked at.
unfoldable pub named : ℕ → Packet → Node → Option Iface
named offset p node = get_by_name (string_of (bytes_at offset 10 p)) node.interfaces

-- do_cmp_ident
unfoldable pub do_ident : Conf → Packet → Node → Reply
do_ident conf p node = (
  put 22 (fixed 30 conf.model) (
      put 2 (fixed 20 conf.hostname) (
        put 84 (fixed 9 conf.time)
          (put 72 (fixed 12 conf.date) (put 52 (fixed 20 conf.revision) p)))),
  node,
  true,
)

unfoldable pub routed : Packet → Node → Option (Rtable.Table × Bool) → Reply
routed p node none = (p, node, false)
routed p node (some (routes, inside)) = (p, record node { routes = routes }, true)

unfoldable pub set_route : ℕ → ℕ → ℕ → Option Iface → Packet → Node → Reply
set_route dest netmask via none p node = (p, node, false)
set_route dest netmask via (some i) p node =
    routed p node (Rtable.set_route node.version dest (some netmask) (some i.ptr) via node.routes)

-- do_cmp_route_set_v1
unfoldable pub do_route_set_v1 : Packet → Node → Reply
do_route_set_v1 p node =
    set_route (byte_at 2 p) (get_host_bits node.version) (byte_at 3 p) (named 4 p node) p node

-- do_cmp_route_set_v2
unfoldable pub do_route_set_v2 : Packet → Node → Reply
do_route_set_v2 p node =
    set_route (of_be (bytes_at 2 2 p)) (of_be (bytes_at 6 2 p)) (of_be (bytes_at 4 2 p))
      (named 8 p node) p node

unfoldable pub stats : Iface → List ℕ
stats i =
    be32 i.tx
    ++ (be32 i.rx
        ++ (be32 i.tx_error
            ++ (be32 i.rx_error
                ++ (be32 i.drop
                    ++ (be32 i.autherr
                        ++ (be32 i.frame ++ (be32 i.txbytes ++ (be32 i.rxbytes ++ be32 i.irq))))))))

unfoldable pub stats_of : Option Iface → Packet → Node → Reply
stats_of none p node = (p, node, false)
stats_of (some i) p node = (put 13 (stats i) p, node, true)

-- do_cmp_if_stats
unfoldable pub do_if_stats : Packet → Node → Reply
do_if_stats p node = stats_of (named 2 p node) p node

-- CSP_CMP_PEEK_MAX_LEN and CSP_CMP_POKE_MAX_LEN
abbrev pub max_len : ℕ
max_len = 200

-- do_cmp_peek: the address is left in the packet as the host has it.
unfoldable pub do_peek : Hooks → Packet → Node → Reply
do_peek hooks p node =
    let addr = of_be (bytes_at 2 4 p) in
    let len = byte_at 6 p in
    let q = put 2 (le32 addr) p in
    if ltb max_len len
    then (q, node, false)
    else (put 7 (take len (hooks.peek addr len q node)) q, node, true)

-- do_cmp_poke
unfoldable pub do_poke : Hooks → Packet → Node → Reply
do_poke hooks p node =
    let addr = of_be (bytes_at 2 4 p) in
    let len = byte_at 6 p in
    let q = put 2 (le32 addr) p in
    let (q', node') = hooks.poke addr (bytes_at 7 len p) q node in
    if ltb max_len len then (q, node, false) else (q', node', true)

unfoldable pub read_clock : Hooks → Packet → Node × Bool → Reply
read_clock hooks p (node, true) =
    let (sec, nsec) = hooks.get_time node in (put 2 (be32 sec ++ be32 nsec) p, node, true)
read_clock hooks p (node, false) =
    let (sec, nsec) = hooks.get_time node in
    (put 2 (be32 sec ++ be32 nsec) p, fail_with clock_set_fail node, false)

-- do_cmp_clock; a time of zero seconds is not set.
unfoldable pub do_clock : Hooks → Packet → Node → Reply
do_clock hooks p node =
    let sec = of_be (bytes_at 2 4 p) in
    let nsec = of_be (bytes_at 6 4 p) in
    if sec == 0
    then read_clock hooks p (node, true)
    else read_clock hooks p (hooks.set_time sec nsec node)

-- CMP_SIZE of the message that is answered
abbrev pub sized : ℕ → Reply → Reply
sized size (p, node, done) = (record p { len = size }, node, done)

-- CSP_CMP_IDENT and so on.
pub data Request : Type 0 where
  cmp_ident cmp_route_set_v1 cmp_if_stats cmp_peek cmp_poke cmp_clock cmp_route_set_v2 cmp_unknown :
      Request

unfoldable pub request_of : ℕ → Request
request_of code =
    if code == 1
    then cmp_ident
    else if code == 2
    then cmp_route_set_v1
    else if code == 3
    then cmp_if_stats
    else if code == 4
    then cmp_peek
    else if code == 5
    then cmp_poke
    else if code == 6
    then cmp_clock
    else if code == 7
    then cmp_route_set_v2
    else cmp_unknown

-- The switch of csp_cmp_handler.
unfoldable pub by_code : Conf → Hooks → Request → Packet → Node → Reply
by_code conf hooks cmp_ident p node = sized 93 (do_ident conf p node)
by_code conf hooks cmp_route_set_v1 p node = sized 15 (do_route_set_v1 p node)
by_code conf hooks cmp_route_set_v2 p node = sized 20 (do_route_set_v2 p node)
by_code conf hooks cmp_if_stats p node = sized 53 (do_if_stats p node)
by_code conf hooks cmp_peek p node = do_peek hooks p node
by_code conf hooks cmp_poke p node = do_poke hooks p node
by_code conf hooks cmp_clock p node = do_clock hooks p node
by_code conf hooks cmp_unknown p node = (p, node, false)

abbrev pub as_reply : Reply → Reply
as_reply (p, node, done) = (put 0 (0xFF ∷ []) p, node, done)

-- csp_cmp_handler
unfoldable pub cmp_handler : Conf → Hooks → Packet → Node → Reply
cmp_handler conf hooks p node =
    if not (byte_at 0 p == 0)
    then (p, node, false)
    else as_reply (by_code conf hooks (request_of (byte_at 1 p)) p node)
