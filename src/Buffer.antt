-- ===== src/Buffer.antt =====
-- csp_buffer.c: the pool of packet buffers. A packet is named by the index of its buffer in the
-- pool, and NULL is `none`. The versions for interrupts do the same on this port of the queue.
pub mod Clone
pub mod Count
pub mod Drain
pub mod Occurrences
pub mod Invariant
pub mod Balance
pub mod Init
mod Tests
use libcsp_dphi.Base.{
  ℕ, zero, suc, ◌+◌, ◌-◌, Bool, true, false, ◌==◌, not, ltb, if◌then◌else◌, Option, none, some,
  List, get_elem?, set, replicate, u8, u32,
}
use libcsp_dphi.Packet.{Packet, id_clear, data_start, mem_size}
use libcsp_dphi.Queue.{Queue, create_static, enqueue, dequeue, messages_waiting}

-- csp_skbf_t. `packet.frame_begin` is a pointer, so its buffer is kept beside the offset: `base` is
-- the buffer that it points into.
pub record Buffer : Type 0 where
  pub refcount : ℕ
  pub skbf_addr : ℕ
  pub base : ℕ
  pub packet : Packet

-- csp_debug.h: the values of csp_dbg_errno that the modules set.
pub data Errno : Type 0 where
  corrupt_buffer already_free still_referenced invalid_pointer already_closed unsupported
        clock_set_fail :
      Errno

pub record Pool : Type 0 where
  pub buffers : List Buffer
  pub csp_buffers : Queue ℕ
  pub dbg_buffer_out : ℕ
  pub dbg_errno : Option Errno

abbrev pub set_errno : Errno → Pool → Pool
set_errno e pool = record pool { dbg_errno = some e }

abbrev pub set_buffer : ℕ → Buffer → Pool → Pool
set_buffer i b pool = record pool { buffers = set pool.buffers i b }

abbrev address : ℕ → List Buffer → Option Buffer → List Buffer
address i buffers none = buffers
address i buffers (some b) = set buffers i (record b { skbf_addr = i })

-- The loop of csp_buffer_init, from buffer `i` on.
unfoldable pub init_from : ℕ → ℕ → Pool → Pool
init_from zero i pool = pool
init_from (suc n) i pool = init_from n (i + 1) (record pool {
  buffers = address i pool.buffers (get_elem? pool.buffers i);
  csp_buffers = (enqueue pool.csp_buffers i).0;
})

-- csp_buffer_init on memory that is not initialised: `buffers` and `storage` hold anything. `none`
-- is a queue that could not be made.
unfoldable pub init : ℕ → List Buffer → List ℕ → Option Pool
init count buffers storage = elim (create_static count 4 (some storage) true) [
  | none ↦ none
  | some q ↦ some (
      init_from count 0
        (record { buffers = buffers; csp_buffers = q; dbg_buffer_out = 0; dbg_errno = none }))
]

-- csp_packet_init, with CSP_BUFFER_ZERO_CLEAR
unfoldable pub packet_init : Packet → Packet
packet_init packet = record {
  frame_begin = data_start;
  frame_length = 0;
  len = 0;
  id = id_clear packet.id;
  mem = replicate mem_size 0;
}

-- What csp_buffer_get_actual does with the buffer that it took from the queue.
unfoldable pub hand_out : ℕ → Option Buffer → Pool → Pool × Option ℕ
hand_out i none pool = (pool, none)
hand_out i (some b) pool =
    if not (i == b.skbf_addr) then (set_errno corrupt_buffer pool, none) else (
      set_buffer i (record b { refcount = 1; base = i; packet = packet_init b.packet }) pool,
      some i,
    )

unfoldable pub take_out : Queue ℕ → Option ℕ → Pool → Pool × Option ℕ
take_out q none pool =
    (record pool { csp_buffers = q; dbg_buffer_out = u8 (pool.dbg_buffer_out + 1) }, none)
take_out q (some i) pool = hand_out i (get_elem? pool.buffers i) (record pool { csp_buffers = q })

-- csp_buffer_get_actual
unfoldable pub get_actual : ℕ → Pool → Pool × Option ℕ
get_actual reserve pool =
    if ltb (messages_waiting (some pool.csp_buffers)) reserve
    then (pool, none)
    else let (q, item) = dequeue pool.csp_buffers in take_out q item pool

-- csp_buffer_get: the size is not looked at.
unfoldable pub get : ℕ → Pool → Pool × Option ℕ
get unused pool = get_actual 2 pool

-- csp_buffer_get_always: `none` is the panic.
unfoldable pub get_always : Pool → Pool × Option ℕ
get_always pool = get_actual 0 pool

-- csp_buffer_free on a buffer of the pool
unfoldable pub release : ℕ → Buffer → Pool → Pool
release i b pool =
    if not (b.skbf_addr == i)
    then set_errno corrupt_buffer pool
    else if b.refcount == 0
    then set_errno already_free pool
    else let lower = set_buffer i (record b { refcount = b.refcount - 1 }) pool in
      if ltb 0 (b.refcount - 1)
      then set_errno still_referenced lower
      else record lower { csp_buffers = (enqueue lower.csp_buffers i).0 }

abbrev release_found : ℕ → Option Buffer → Pool → Pool
release_found i none pool = pool
release_found i (some b) pool = release i b pool

-- csp_buffer_free. A packet outside the pool is not a packet.
unfoldable pub free : Option ℕ → Pool → Pool
free none pool = pool
free (some i) pool = release_found i (get_elem? pool.buffers i) pool

-- csp_buffer_free_isr; csp_queue_enqueue_isr is csp_queue_enqueue here.
unfoldable pub free_isr : Option ℕ → Pool → Pool
free_isr none pool = pool
free_isr (some i) pool = release_found i (get_elem? pool.buffers i) pool

-- memcpy of the whole struct, so that `frame_begin` of the copy is the source's pointer.
unfoldable pub copy_to : Buffer → Buffer → Buffer
copy_to source target = record target { packet = source.packet; base = source.base }

abbrev copy_found : ℕ → Option Buffer → Option Buffer → Pool → Pool
copy_found target (some s) (some t) pool = set_buffer target (copy_to s t) pool
copy_found target (some s) none pool = pool
copy_found target none t pool = pool

-- csp_buffer_copy
unfoldable pub copy : Option ℕ → Option ℕ → Pool → Pool
copy (some source) (some target) pool =
    copy_found target (get_elem? pool.buffers source) (get_elem? pool.buffers target) pool
copy none target pool = pool
copy (some source) none pool = pool

-- csp_buffer_clone
unfoldable pub clone : Option ℕ → Pool → Pool × Option ℕ
clone none pool = (pool, none)
clone (some packet) pool = let (pool', twin) = get 0 pool in (copy (some packet) twin pool', twin)

unfoldable pub count_reference : ℕ → Buffer → Pool → Pool
count_reference i b pool =
    if not (b.skbf_addr == i)
    then set_errno corrupt_buffer pool
    else set_buffer i (record b { refcount = u32 (b.refcount + 1) }) pool

abbrev count_found : ℕ → Option Buffer → Pool → Pool
count_found i none pool = pool
count_found i (some b) pool = count_reference i b pool

-- csp_buffer_refc_inc
unfoldable pub refc_inc : Option ℕ → Pool → Pool
refc_inc none pool = set_errno invalid_pointer pool
refc_inc (some i) pool = count_found i (get_elem? pool.buffers i) pool

-- csp_buffer_remaining
unfoldable pub remaining : Pool → ℕ
remaining pool = messages_waiting (some pool.csp_buffers)
