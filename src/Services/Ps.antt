-- ===== src/Services/Ps.antt =====
-- csp_services.c: csp_ps, which prints what another node replies. As in Services.Client, `meanwhile`
-- is what the other tasks do while a call waits. The loop runs on fuel, and `none` is its end.
use libcsp_dphi.Base.{
  none-some, ℕ, zero, suc, ◌-◌, ◌<◌, ◌≡◌, ◌∙◌, refl, ap, arith, Bool-cases, Option-cases, inl, inr,
  ltb, if◌then◌else◌, Option, none, some, List, [], ◌∷◌, ◌++◌, get_elem?, get_elem?-lt,
  get_elem?-set_self,
}
use libcsp_dphi.Packet.{Packet, buffer_size}
use libcsp_dphi.Queue.{dequeue}
use libcsp_dphi.Buffer
use libcsp_dphi.Conn.{Conn, is_open, opt_crc32}
use libcsp_dphi.Node.{Node, free_packet, packet_at, store_at}
use libcsp_dphi.Io.{Driver}
use libcsp_dphi.Io.Api.{send, read, read_from, conn_at}
use libcsp_dphi.Services.Cmp.{put, bytes_at, string_of}
use libcsp_dphi.Services.Client.{dial, fill, hang_up}

-- The reply with a zero behind its data, or at the end of them.
unfoldable pub ended : Packet → Packet
ended packet =
    put (if ltb packet.len buffer_size then packet.len else buffer_size - 1) (0 ∷ []) packet

unfoldable pub shown : ℕ → Option Packet → Node → Node × List ℕ
shown i none node = (node, [])
shown i (some packet) node = (
  free_packet (some i) (store_at i (ended packet) node),
  string_of (bytes_at 0 buffer_size (ended packet)),
)

abbrev behind : List ℕ → Option (Node × List ℕ) → Option (Node × List ℕ)
behind text none = none
behind text (some (node, more)) = some (node, text ++ more)

module _ (meanwhile : Node → Node) where
  -- The loop over the replies, and what it prints.
  unfoldable pub print_loop : ℕ → ℕ → Node → Option (Node × List ℕ)
  print_loop zero c node = none
  print_loop (suc fuel) c node =
      let r = read (some c) (meanwhile node) in
      let rest =
        λ (i : ℕ). let s = shown i (packet_at i r.0) r.0 in behind s.1 (print_loop fuel c s.0) in
      elim r.1 [ none ↦ some (r.0, []) | some i ↦ rest i ]

-- A connection that a node has.
abbrev Has : ℕ → Conn → Node → Type 0
Has c conn node = conn_at (some c) node ≡ some conn

shown-conns : (i : ℕ) (o : Option Packet) (node : Node) → (shown i o node).0.conns ≡ node.conns
unfolding shown
shown-conns i none node = refl
shown-conns i (some packet) node = refl

-- A packet that is read comes off the queue of the connection.
read_from-Has :
    (c i : ℕ) (conn : Conn) (node : Node)
    → Has c conn node
    → (read_from (some c) (some conn) node).1 ≡ some i
    → (conn' : Conn) × (conn'.rx_queue.count < conn.rx_queue.count)
      × Has c conn' (read_from (some c) (some conn) node).0
unfolding read_from dequeue
read_from-Has c i conn node has got = elim (Bool-cases (is_open conn.state)) [
  | inr shut ↦ absurd (none-some i (rw shut at got))
  | inl live ↦ elim (Bool-cases (ltb 0 conn.rx_queue.count)) [
    | inr empty ↦ absurd (none-some i (rw (live, empty) at got))
    | inl waiting ↦
        rw (live, waiting)
          (
            _,
            ground arith,
            get_elem?-set_self node.conns.arr_conn c _
                (get_elem?-lt node.conns.arr_conn c conn has),
          )
  ]
]

read-Has :
    (c i : ℕ) (conn : Conn) (node : Node)
    → Has c conn node
    → (read (some c) node).1 ≡ some i
    → (conn' : Conn) × (conn'.rx_queue.count < conn.rx_queue.count)
      × Has c conn' (read (some c) node).0
unfolding read
read-Has c i conn node has got = rw has (read_from-Has c i conn node has (rw has at got))

module _ (meanwhile : Node → Node)
    (aside : (node : Node) → (meanwhile node).conns ≡ node.conns) where
  -- The loop ends, on fuel for one round more than there are replies, where no more of them arrive.
  pub print_loop-ends :
      (fuel c : ℕ) (conn : Conn) (node : Node)
      → Has c conn node
      → conn.rx_queue.count < fuel
      → (r : Node × List ℕ) × (print_loop meanwhile fuel c node ≡ some r)
  unfolding print_loop
  print_loop-ends zero c conn node has enough = absurd (omega arith)
  print_loop-ends (suc fuel) c conn node has enough =
      let m : Node = meanwhile node in
      elim (Option-cases (read (some c) m).1) [
        | inl last ↦ (((read (some c) m).0, []), rw (last, print_loop) refl)
        | inr (i, got) ↦
            let (conn', fewer, has') =
              read-Has c i conn m (ap (λ t. get_elem? t.arr_conn c) (aside node) ∙ has) got in
            let s = shown i (packet_at i (read (some c) m).0) (read (some c) m).0 in
            let ((end, text), e) =
              print_loop-ends fuel c conn' s.0
                (ap (λ t. get_elem? t.arr_conn c)
                    (shown-conns i (packet_at i (read (some c) m).0) (read (some c) m).0)
                  ∙ has')
                (omega (arith, fewer, enough)) in
            ((end, s.1 ++ text), rw (got, print_loop, e) refl)
      ]

-- The end of csp_ps: the line is ended and the connection closed.
unfoldable pub hung_up : ℕ → Option (Node × List ℕ) → Option (Node × List ℕ)
hung_up c none = none
hung_up c (some (node, text)) = some (hang_up c node, text ++ 13 ∷ 10 ∷ [])

module _ (nexthop : Driver) (meanwhile : Node → Node) (conn_max conn_dfl_so now : ℕ) where
  unfoldable pub ask : ℕ → ℕ → Node × Option ℕ → Option (Node × List ℕ)
  ask fuel c (node, none) = some (hang_up c node, [])
  ask fuel c (node, some i) = hung_up c (
      print_loop meanwhile fuel c
        (send nexthop (some c) (some i) (fill 1 (0x55 ∷ []) i (packet_at i node) node)))

  unfoldable pub ps_on : ℕ → Node × Option ℕ → Option (Node × List ℕ)
  ps_on fuel (node, none) = some (node, [])
  ps_on fuel (node, some c) =
      let (pool, packet) = Buffer.get 0 node.pool in
      ask fuel c (record node { pool = pool }, packet)

  -- csp_ps
  unfoldable pub ps : ℕ → ℕ → Node → Option (Node × List ℕ)
  ps fuel dest node =
      ps_on fuel (dial nexthop meanwhile conn_max conn_dfl_so now dest 2 opt_crc32 node)
