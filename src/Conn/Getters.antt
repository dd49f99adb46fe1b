-- ===== src/Conn/Getters.antt =====
-- csp_conn.c: what an application may ask of a connection.
use libcsp_dphi.Base.{ℕ, Bool, true, List, length}
use libcsp_dphi.Conn.{Conn, Table}

-- csp_conn_dport, csp_conn_sport, csp_conn_dst, csp_conn_src and csp_conn_flags
unfoldable pub conn_dport : Conn → ℕ
conn_dport conn = conn.idin.dport

unfoldable pub conn_sport : Conn → ℕ
conn_sport conn = conn.idin.sport

unfoldable pub conn_dst : Conn → ℕ
conn_dst conn = conn.idin.dst

unfoldable pub conn_src : Conn → ℕ
conn_src conn = conn.idin.src

unfoldable pub conn_flags : Conn → ℕ
conn_flags conn = conn.idin.flags

-- csp_conn_is_active, without RDP
unfoldable pub conn_is_active : Conn → Bool
conn_is_active conn = true

-- csp_conn_check_timeouts, without RDP
unfoldable pub check_timeouts : Table → Table
check_timeouts table = table

-- csp_conn_get_array: the connections and their number
unfoldable pub get_array : Table → List Conn × ℕ
get_array table = (table.arr_conn, length table.arr_conn)
