-- ===== src/Services/Replies.antt =====
-- csp_service_handler.c: what leaves a node for a request to one of its services.
use libcsp_dphi.Base.{ℕ, ◌≡◌, List, ◌++◌, All}
use libcsp_dphi.Packet.{Packet, CspId}
use libcsp_dphi.Buffer.{Buffer}
use libcsp_dphi.Node.{Node, Sent}
use libcsp_dphi.Io.{Driver}
use libcsp_dphi.Io.Api.{opt_same}
use libcsp_dphi.Io.Replies.{Answers}

-- Where the packet in the slot has the request's identifier, its reply answers the request.
module _ (nexthop : Driver) (i : ℕ) (id : CspId) (node : Node) where
  abbrev Answered : Node → Type 0
  Answered m =
      (new : List Sent) × (m.sent ≡ node.sent ++ new)
      × All (λ e. Answers node opt_same id e.packet.id) new
