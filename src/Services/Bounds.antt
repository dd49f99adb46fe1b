-- ===== src/Services/Bounds.antt =====
-- The writes of csp_cmp_handler stay in the first part of the data, which csp_cmp_message describes.
use libcsp_dphi.Base.{
  subst, sym, ℕ, ◌+◌, ◌-◌, ◌≤◌, ◌≡◌, ◌∙◌, refl, arith, Bool, true, false, Bool-cases, inl, inr,
  ◌==◌, ltb, ltb_fails, Option, none, some, List, [], ◌∷◌, ◌++◌, length, length-take, length-append,
  take, drop, replicate, read_at, read_at-write_at_before, drop-write_at_after, le32, of_be,
}
use libcsp_dphi.Packet.{Packet, data_start}
use libcsp_dphi.Iface.{Iface}
use libcsp_dphi.Rtable
use libcsp_dphi.Node.{Node}
use libcsp_dphi.Services.Cmp.{
  Conf, Hooks, Reply, Request, cmp_ident, cmp_route_set_v1, cmp_route_set_v2, cmp_if_stats,
  cmp_peek, cmp_poke, cmp_clock, cmp_unknown, request_of, routed, set_route, stats_of, stats, fixed,
  do_ident, do_route_set_v1, do_route_set_v2, do_if_stats, do_peek, do_poke, read_clock, do_clock,
  by_code, cmp_handler, byte_at, bytes_at, named, put, max_len,
}

-- The size of the longest message, which is a peek of `max_len` bytes.
abbrev pub message_size : ℕ
message_size = 7 + max_len

-- The padding in front of the data and the bytes behind the message are the same in both.
pub Inside : Packet → Packet → Type 0
Inside p q =
    (read_at q.mem 0 data_start ≡ read_at p.mem 0 data_start)
    × (drop (data_start + message_size) q.mem ≡ drop (data_start + message_size) p.mem)

put-Inside :
    (p q : Packet) (offset : ℕ) (bytes : List ℕ)
    → offset + length bytes ≤ message_size
    → Inside p q
    → Inside p (put offset bytes q)
unfolding Inside
put-Inside p q offset bytes h (before, behind) = (
  read_at-write_at_before q.mem (data_start + offset) bytes 0 data_start (omega arith) ∙ before,
  drop-write_at_after q.mem (data_start + offset) bytes (data_start + message_size)
        (omega (arith, h))
      ∙ behind,
)

same-Inside : (p : Packet) → Inside p p
unfolding Inside
same-Inside p = (refl, refl)

length-fixed : (n : ℕ) (s : List ℕ) → length (fixed n s) ≤ (n - 1) + 1
unfolding fixed
length-fixed n s =
    let front = take (n - 1) (s ++ replicate n 0) in
    omega (arith, length-append front (0 ∷ []), length-take (n - 1) (s ++ replicate n 0))

-- A string of the node, in its field.
field-Inside :
    (p q : Packet) (offset n : ℕ) (s : List ℕ)
    → offset + ((n - 1) + 1) ≤ message_size
    → Inside p q
    → Inside p (put offset (fixed n s) q)
field-Inside p q offset n s h =
    put-Inside p q offset (fixed n s) (omega (arith, h, length-fixed n s))

length-stats : (i : Iface) → length (stats i) ≡ 40
unfolding stats
length-stats i = refl

abbrev Tame : Packet → Reply → Type 0
Tame p r = Inside p r.0

routed-Tame :
    (p : Packet) (node : Node) (o : Option (Rtable.Table × Bool)) → Tame p (routed p node o)
unfolding routed
routed-Tame p node none = same-Inside p
routed-Tame p node (some (routes, inside)) = same-Inside p

set_route-Tame :
    (dest netmask via : ℕ) (o : Option Iface) (p : Packet) (node : Node)
    → Inside p (set_route dest netmask via o p node).0
unfolding set_route
set_route-Tame dest netmask via none p node = same-Inside p
set_route-Tame dest netmask via (some i) p node =
    routed-Tame p node
      (Rtable.set_route node.version dest (some netmask) (some i.ptr) via node.routes)

stats-Tame : (o : Option Iface) (p : Packet) (node : Node) → Tame p (stats_of o p node)
unfolding stats_of
stats-Tame none p node = same-Inside p
stats-Tame (some i) p node =
    put-Inside p p 13 (stats i) (omega (arith, length-stats i)) (same-Inside p)

clock-Tame : (hooks : Hooks) (p : Packet) (r : Node × Bool) → Tame p (read_clock hooks p r)
unfolding read_clock
clock-Tame hooks p (node, true) = put-Inside p p 2 _ (omega arith) (same-Inside p)
clock-Tame hooks p (node, false) = put-Inside p p 2 _ (omega arith) (same-Inside p)

ident-Tame : (conf : Conf) (p : Packet) (node : Node) → Tame p (do_ident conf p node)
unfolding do_ident
ident-Tame conf p node = field-Inside p _ 22 30 conf.model (omega arith) (
    field-Inside p _ 2 20 conf.hostname (omega arith) (
      field-Inside p _ 84 9 conf.time (omega arith) (
        field-Inside p _ 72 12 conf.date (omega arith)
          (field-Inside p p 52 20 conf.revision (omega arith) (same-Inside p)))))

-- A memory whose writes do not reach the packet that is answered.
abbrev pub IsElsewhere : Hooks → Type 0
IsElsewhere hooks =
    (addr : ℕ) (bytes : List ℕ) (p : Packet) (node : Node) → (hooks.poke addr bytes p node).0 ≡ p

module _ (conf : Conf) (hooks : Hooks) (elsewhere : IsElsewhere hooks) where
  -- The address that a peek or a poke leaves in the packet.
  addr-Inside : (p : Packet) (addr : ℕ) → Inside p (put 2 (le32 addr) p)
  addr-Inside p addr = put-Inside p p 2 (le32 addr) (omega arith) (same-Inside p)

  peek-Tame : (p : Packet) (node : Node) → Tame p (do_peek hooks p node)
  unfolding do_peek
  peek-Tame p node =
      let addr = of_be (bytes_at 2 4 p) in
      let len = byte_at 6 p in
      elim (Bool-cases (ltb max_len len)) [
        | inl long ↦ rw long (addr-Inside p addr)
        | inr fits ↦ rw fits (
            put-Inside p (put 2 (le32 addr) p) 7
              (take len (hooks.peek addr len (put 2 (le32 addr) p) node))
              (omega (
                arith,
                length-take len (hooks.peek addr len (put 2 (le32 addr) p) node),
                ltb_fails max_len len fits,
              ))
              (addr-Inside p addr))
      ]

  poke-Tame : (p : Packet) (node : Node) → Tame p (do_poke hooks p node)
  unfolding do_poke
  poke-Tame p node = elim (Bool-cases (ltb max_len (byte_at 6 p))) [
    | inl long ↦ rw long (addr-Inside p (of_be (bytes_at 2 4 p)))
    | inr fits ↦
        let q = put 2 (le32 (of_be (bytes_at 2 4 p))) p in
        rw fits (
          subst (Inside p)
            (sym (elsewhere (of_be (bytes_at 2 4 p)) (bytes_at 7 (byte_at 6 p) p) q node))
            (addr-Inside p (of_be (bytes_at 2 4 p))))
  ]

  code-Tame :
      (request : Request) (p : Packet) (node : Node) → Tame p (by_code conf hooks request p node)
  unfolding by_code do_ident do_route_set_v1 do_route_set_v2 do_if_stats do_clock Inside
  code-Tame cmp_ident p node = ident-Tame conf p node
  code-Tame cmp_route_set_v1 p node = set_route-Tame _ _ _ (named 4 p node) p node
  code-Tame cmp_route_set_v2 p node = set_route-Tame _ _ _ (named 8 p node) p node
  code-Tame cmp_if_stats p node = stats-Tame (named 2 p node) p node
  code-Tame cmp_peek p node = peek-Tame p node
  code-Tame cmp_poke p node = poke-Tame p node
  code-Tame cmp_clock p node = elim (Bool-cases (of_be (bytes_at 2 4 p) == 0)) [
    | inl unset ↦ rw unset (clock-Tame hooks p (node, true))
    | inr given ↦
        rw given (
          clock-Tame hooks p
            (hooks.set_time (of_be (bytes_at 2 4 p)) (of_be (bytes_at 6 4 p)) node))
  ]
  code-Tame cmp_unknown p node = same-Inside p

-- csp_cmp_handler writes nothing in front of the data of the packet and nothing behind its first 207
-- bytes, whatever the request says and whatever length it gives, if the writes of CSP_CMP_POKE do not
-- reach the packet itself.
pub cmp_handler-Inside :
    (conf : Conf) (hooks : Hooks)
    → IsElsewhere hooks
    → (p : Packet) (node : Node) → Inside p (cmp_handler conf hooks p node).0
unfolding cmp_handler
cmp_handler-Inside conf hooks elsewhere p node = elim (Bool-cases (byte_at 0 p == 0)) [
  | inl asked ↦ rw asked (
      put-Inside p _ 0 (0xFF ∷ []) (omega arith)
        (code-Tame conf hooks elsewhere (request_of (byte_at 1 p)) p node))
  | inr other ↦ rw other (same-Inside p)
]
