-- ===== src/System/Balance.antt =====
-- No sequence of calls unbalances the pool of buffers of a node.
use libcsp_dphi.Queue.{Queue}
use libcsp_dphi.Bridge
use libcsp_dphi.Buffer
use libcsp_dphi.Port
use libcsp_dphi.Packet.{Packet}
use libcsp_dphi.Conn
use libcsp_dphi.Conn.{Conn}
use libcsp_dphi.Iface.{Iface}
use libcsp_dphi.Qfifo
use libcsp_dphi.Node.{Node}
use libcsp_dphi.Route.Balance.{Steady}
