-- ===== src/Conn/Tests.antt =====
-- Tests of the connections, and concrete cases of the theorems on them.
use libcsp_dphi.Base.{ℕ, ◌+◌, ◌≡◌, ◌⊎◌, refl, arith, none, some, All, get_elem?, set, u8}
use libcsp_dphi.Packet.{CspId}
use libcsp_dphi.Conn.{
  Conn, conn_server, conn_open, conn_closed, find_existing, allocate, connect_opts,
}
use libcsp_dphi.Conn.Match.{Takes, IsFirst, find_existing_lem}
use libcsp_dphi.Conn.Allocate.{opened, allocate_lem}
use libcsp_dphi.Samples

-- CSP_O_NOCRC32 wins over a default that asks for the checksum.
connect_opts_test : connect_opts 0x40 0x80 ≡ 0x80
unfolding connect_opts
connect_opts_test = refl

abbrev reply : CspId
reply = record { pri = 2; flags = 0; src = 9; dst = 3; dport = 33; sport = 7 }

find_existing_lem_example :
    ((find_existing reply Samples.table ≡ none)
      × All (λ conn. ¬ Takes reply conn) Samples.table.arr_conn)
    ⊎ ((i : ℕ) × (conn : Conn) × (find_existing reply Samples.table ≡ some i)
        × IsFirst (Takes reply) Samples.table.arr_conn i conn)
find_existing_lem_example = find_existing_lem reply Samples.table

allocate_lem_example :
    ((allocate 2 conn_server Samples.table
        ≡ (record (Samples.table) { dbg_conn_out = u8 (0 + 1) }, none))
      × All (λ conn. conn.state ≡ conn_open) Samples.table.arr_conn)
    ⊎ ((i : ℕ) × (conn : Conn) × (get_elem? Samples.table.arr_conn i ≡ some conn)
        × (conn.state ≡ conn_closed)
        × (allocate 2 conn_server Samples.table ≡ (
          record (Samples.table) {
            arr_conn = set Samples.table.arr_conn i (opened conn_server conn);
            last_given = i;
          },
          some i,
        )))
allocate_lem_example = allocate_lem 2 conn_server Samples.table refl (omega arith) (omega arith)
