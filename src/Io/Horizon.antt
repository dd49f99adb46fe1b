-- ===== src/Io/Horizon.antt =====
-- csp_send_direct: a packet never leaves where it came from.
use libcsp_dphi.Base.{
  none-some, some-eq, ℕ, zero, suc, ◌≡◌, ◌≢◌, ◌∙◌, refl, sym, ap, false, Option-cases, inl, inr,
  Option, none, some, List, [], ◌∷◌, get_elem?,
}
use libcsp_dphi.Iface.{Iface}
use libcsp_dphi.Iflist.{is_within_subnet}
use libcsp_dphi.Node.{Node, known, Sent, iface_at?}
use libcsp_dphi.Io.Direct.{is_none}
use libcsp_dphi.Io.Loops.{Member}
use libcsp_dphi.Io.Sends.{bare, bares, Logged}

abbrev bare? : Option Iface → Option Iface
bare? none = none
bare? (some i) = some (bare i)

get_elem?-bares : (l : List Iface) (k : ℕ) → get_elem? (bares l) k ≡ bare? (get_elem? l k)
get_elem?-bares [] k = refl
get_elem?-bares (i ∷ l) zero = refl
get_elem?-bares (i ∷ l) (suc k) = get_elem?-bares l k

pub Member-Settled :
    (l l' : List Iface) (i : Iface)
    → bares l' ≡ bares l
    → Member i l'
    → (k : ℕ) × (j : Iface) × (get_elem? l k ≡ some j) × (bare j ≡ bare i)
Member-Settled l l' i b (k, e) = elim (Option-cases (get_elem? l k)) [
  | inl missing ↦ absurd (none-some (bare i) (sym (ap bare? missing) ∙ there))
  | inr (j, found) ↦ (k, j, found, some-eq (sym (ap bare? found) ∙ there))
]
  where
    there : bare? (get_elem? l k) ≡ some (bare i)
    there =
        sym (get_elem?-bares l k)
        ∙ ap (λ m. get_elem? m k) (sym b)
        ∙ get_elem?-bares l' k
        ∙ ap bare? e

-- A packet that a driver may be handed: one for an interface that the node knows, and that is not the one the
-- packet came from, and whose address is not in the subnet of that one.
abbrev pub Allowed : Node → Option ℕ → Sent → Type 0
Allowed node routed_from e =
    (k : ℕ) × (i : Iface) × (get_elem? (known node) k ≡ some i)
    × (i.ptr ≡ e.iface)
    × (routed_from ≢ some e.iface)
    × (is_within_subnet node.version i.addr (iface_at? routed_from node) ≡ false)
    × (e.from_me ≡ is_none routed_from)

abbrev Since : Node → Option ℕ → Node → Type 0
Since node routed_from = Logged (Allowed node routed_from) node
