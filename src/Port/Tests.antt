-- ===== src/Port/Tests.antt =====
-- Tests of the ports.
use libcsp_dphi.Base.{◌≡◌, refl, some, List, set, replicate}
use libcsp_dphi.Port.{
  Port, port_closed, port_open, cleared, get_socket, bind, csp_any, bind_checked, bind_to,
}

abbrev ports : List Port
ports = set (replicate 34 port_closed) 5 (port_open 77)

cleared_test : cleared ≡ replicate 34 port_closed
unfolding cleared
cleared_test = refl

-- A socket that is bound to CSP_ANY serves the ports without a binding of their own.
any_test : get_socket (bind (some 88) csp_any ports).0 9 ≡ some 88
unfolding get_socket bind bind_checked bind_to
any_test = refl
