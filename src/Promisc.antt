-- ===== src/Promisc.antt =====
-- csp_promisc.c: a queue of copies of the packets that pass. A build may leave it out.
use libcsp_dphi.Base.{ℕ, ◌+◌, true, ◌==◌, if◌then◌else◌, Option, none, some, List, u8}
use libcsp_dphi.Queue.{Queue, create_static, enqueue, dequeue}
use libcsp_dphi.Buffer
use libcsp_dphi.Buffer.{Pool, clone}

-- autoconfig.h: CSP_CONN_RXQUEUE_LEN
abbrev pub rxqueue_len : ℕ
rxqueue_len = 4

-- The static variables, and the counter csp_dbg_conn_ovf.
pub record Promisc : Type 0 where
  pub queue : Option (Queue (Option ℕ))
  pub enabled : ℕ
  pub dbg_conn_ovf : ℕ

pub data Status : Type 0 where
  err_none err_used err_inval : Status

unfoldable pub enable_new : Option (Queue (Option ℕ)) → Promisc → Promisc × Status
enable_new none promisc = (record promisc { queue = none }, err_inval)
enable_new (some q) promisc = (record promisc { queue = some q; enabled = 1 }, err_none)

unfoldable pub enable_at : Option (Queue (Option ℕ)) → List (Option ℕ) → Promisc → Promisc × Status
enable_at none storage promisc =
    enable_new (create_static rxqueue_len 8 (some storage) true) promisc
enable_at (some q) storage promisc = (record promisc { enabled = 1 }, err_used)

-- csp_promisc_enable: the size is not looked at.
unfoldable pub enable : ℕ → List (Option ℕ) → Promisc → Promisc × Status
unfolding enable_at
enable queue_size storage promisc = enable_at promisc.queue storage promisc

-- csp_promisc_disable
unfoldable pub disable : Promisc → Promisc
disable promisc = record promisc { enabled = 0 }

abbrev pub item : Option (Option ℕ) → Option ℕ
item none = none
item (some p) = p

unfoldable pub read_from : Option (Queue (Option ℕ)) → Promisc → Promisc × Option ℕ
read_from none promisc = (promisc, none)
read_from (some q) promisc = let (q', p) = dequeue q in (record promisc { queue = some q' }, item p)

-- csp_promisc_read
unfoldable pub read : Promisc → Promisc × Option ℕ
unfolding read_from
read promisc = read_from promisc.queue promisc

unfoldable pub add_copy : Queue (Option ℕ) → Option ℕ → Promisc → Pool → Promisc × Pool
add_copy q none promisc pool = (promisc, pool)
add_copy q (some copy) promisc pool =
    let (q', done) = enqueue q (some copy) in
    if done then (record promisc { queue = some q' }, pool) else (
      record promisc { dbg_conn_ovf = u8 (promisc.dbg_conn_ovf + 1) },
      Buffer.free (some copy) pool,
    )

unfoldable pub add_to : Option (Queue (Option ℕ)) → ℕ → Promisc → Pool → Promisc × Pool
add_to none packet promisc pool = (promisc, pool)
add_to (some q) packet promisc pool =
    let (pool', copy) = clone (some packet) pool in add_copy q copy promisc pool'

-- csp_promisc_add
unfoldable pub add : ℕ → Promisc → Pool → Promisc × Pool
unfolding add_to
add packet promisc pool =
    if promisc.enabled == 0 then (promisc, pool) else add_to promisc.queue packet promisc pool
