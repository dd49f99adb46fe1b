-- ===== src/Init/Ready.antt =====
-- csp_init leaves a node that is ready: a balanced pool of free buffers, closed connections and nothing
-- to route.
use libcsp_dphi.Base.{
  ℕ, ◌+◌, ◌≤◌, ◌<◌, ◌^◌, ◌≡◌, refl, arith, Option, some, List, [], ◌∷◌, length, All, get_elem?,
}
use libcsp_dphi.Iface.{Iface}
use libcsp_dphi.Id.{get_host_bits}
use libcsp_dphi.Queue.{Queue, create_static}
use libcsp_dphi.Queue.Order.{IsValid, contents}
use libcsp_dphi.Buffer
use libcsp_dphi.Buffer.{Buffer, Pool, remaining}
use libcsp_dphi.Buffer.Invariant.{IsBalanced}
use libcsp_dphi.Buffer.Init as BufferInit
use libcsp_dphi.Iflist.{add}
use libcsp_dphi.Conn
use libcsp_dphi.Conn.{Conn, conn_closed}
use libcsp_dphi.Promisc.{rxqueue_len}
use libcsp_dphi.Qfifo
use libcsp_dphi.Qfifo.{qfifo_len}
use libcsp_dphi.Node.{Node}
use libcsp_dphi.Init.{
  buffer_count, Memory, valid_version, valid_dedup, init_buffers, init_conns, add_loopback, init,
}

-- The memory has the sizes that the source declares, and the buffers are zeroed.
pub record IsZeroed (memory : Memory) : Type 0 where
  pub buffers : length memory.buffers ≡ buffer_count
  pub unused : (i : ℕ) (b : Buffer) → get_elem? memory.buffers i ≡ some b → b.refcount ≡ 0
  pub free_buffers : buffer_count ≤ length memory.free_buffers
  pub rx_queue : rxqueue_len ≤ length memory.rx_queue
  pub inputs : qfifo_len ≤ length memory.inputs

-- A connection that is closed, with an empty queue.
abbrev pub IsIdle : Conn → Type 0
IsIdle conn = (conn.state ≡ conn_closed) × IsValid conn.rx_queue × (contents conn.rx_queue ≡ [])

init_from-IsIdle :
    (conns : List Conn) (i : ℕ) (q : Queue (Option ℕ))
    → IsValid q
    → contents q ≡ []
    → All IsIdle (Conn.init_from i q conns)
unfolding Conn.init_from
init_from-IsIdle [] i q v e = tt
init_from-IsIdle (conn ∷ conns) i q v e = ((refl, v, e), init_from-IsIdle conns (i + 1) q v e)

module _ {ℓ} {A : Type ℓ} where
  abbrev made : ℕ → List A → Queue A
  made len storage = record { slots = storage; len = len; head = 0; tail = 0; count = 0 }

  made-IsValid :
      (len : ℕ) (storage : List A)
      → 0 < len
      → len < 2 ^ 32
      → len ≤ length storage
      → IsValid (made len storage)
  made-IsValid len storage some_len small places = record {
    storage = places;
    small = small;
    tail_in = some_len;
    count_in = omega arith;
    head_at = ground arith;
  }

valid_version_bounds : (version : ℕ) → (1 ≤ valid_version version) × (valid_version version ≤ 2)
unfolding valid_version
valid_version_bounds version = ground arith

-- What csp_init promises of the node.
pub record IsReady (lo : Iface) (before node : Node) : Type 0 where
  pub balanced : IsBalanced node.pool
  pub all_free : remaining node.pool ≡ buffer_count
  pub idle : All IsIdle node.conns.arr_conn
  pub queue : IsValid node.qfifo
  pub nothing_in : contents node.qfifo ≡ []
  pub version_from : 1 ≤ node.version
  pub version_to : node.version ≤ 2
  pub loopback :
      node.interfaces ≡ add (record lo { netmask = get_host_bits node.version }) before.interfaces

buffered :
    (memory : Memory) (node : Node) (pool : Pool)
    → Buffer.init buffer_count memory.buffers memory.free_buffers ≡ some pool
    → init_buffers memory node ≡ some (record node { pool = pool })
unfolding init_buffers
buffered memory node pool e = rw (e, init_buffers) refl

-- On memory of the declared sizes with zeroed buffers, csp_init succeeds. All buffers are free and the
-- pool is balanced, every connection is closed with an empty queue, the router's queue is empty, the
-- version is 1 or 2, and the loopback interface was added with a mask of all host bits.
pub init-IsReady :
    (dedup : ℕ) (lo : Iface) (memory : Memory) (node : Node)
    → IsZeroed memory
    → (node' : Node) × (init dedup lo memory node ≡ some node') × IsReady lo node node'
unfolding init init_conns add_loopback Qfifo.init create_static
init-IsReady dedup lo memory node z =
    let (pool, e, balanced, all_free) =
      BufferInit.init-IsBalanced buffer_count memory.buffers memory.free_buffers (omega arith)
        (omega arith) z.buffers z.free_buffers z.unused in
    let version = valid_version node.version in
    (
      record node {
        version = version;
        dedup = valid_dedup dedup;
        pool = pool;
        conns = record (node.conns) {
          arr_conn = Conn.init_from 0 (made rxqueue_len memory.rx_queue) node.conns.arr_conn;
        };
        qfifo = made qfifo_len memory.inputs;
        interfaces = add (record lo { netmask = get_host_bits version }) node.interfaces;
      },
      rw (buffered memory _ pool e, init) refl,
      record {
        balanced = balanced;
        all_free = all_free;
        idle =
            init_from-IsIdle node.conns.arr_conn 0 (made rxqueue_len memory.rx_queue)
              (made-IsValid rxqueue_len memory.rx_queue (omega arith) (omega arith) z.rx_queue)
              refl;
        queue = made-IsValid qfifo_len memory.inputs (omega arith) (omega arith) z.inputs;
        nothing_in = refl;
        version_from = (valid_version_bounds node.version).0;
        version_to = (valid_version_bounds node.version).1;
        loopback = refl;
      },
    )
