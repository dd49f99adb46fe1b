-- ===== src/Services/Numbers.antt =====
-- The services that reply with a number, and the clients that ask for one.
use libcsp_dphi.Base.{
  ℕ, ◌<◌, ◌^◌, ◌≡◌, ◌∙◌, refl, ap, arith, some, read_at-write_at, be32, of_be, of_be-be32,
}
use libcsp_dphi.Packet.{Packet, data_start, payload, IsSized}
use libcsp_dphi.Node.{Node, free_packet}
use libcsp_dphi.Io.Api.{take_reply}
use libcsp_dphi.Services.{numbered}
use libcsp_dphi.Services.Client.{err_none, number_in}

data-numbered : (n : ℕ) (packet : Packet) → IsSized packet → payload (numbered n packet) ≡ be32 n
unfolding numbered
data-numbered n packet sized =
    read_at-write_at packet.mem data_start 4 (be32 n) refl (omega (arith, sized))

-- A number below 2 ^ 32 that a service of csp_service_handler puts into its reply, a packet whose
-- array has the full size, is the one that the transaction of the client takes out of that reply: the
-- client has no error, and the packet is freed.
pub number_in-numbered :
    (n : ℕ) (packet : Packet) (i : ℕ) (node : Node)
    → n < 2 ^ 32
    → IsSized packet
    → number_in (take_reply (some 4) i (some (numbered n packet)) node)
      ≡ (free_packet (some i) node, err_none, n)
unfolding number_in take_reply numbered
number_in-numbered n packet i node small sized =
    ap (λ x. (free_packet (some i) node, err_none, x))
      (ap of_be (data-numbered n packet sized) ∙ of_be-be32 n small)
