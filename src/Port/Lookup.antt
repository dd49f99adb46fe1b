-- ===== src/Port/Lookup.antt =====
-- csp_port.c: what a port is bound to, and what closing a socket leaves.
use libcsp_dphi.Base.{
  ℕ, suc, zero, ◌+◌, ◌≤◌, ◌≡◌, ◌≢◌, ◌⊎◌, refl, ap, arith, true, false, Bool-cases, inl, inr, ◌==◌,
  ==_iff, ltb, ◌∙◌, none, some, List, [], ◌∷◌, length, get_or, set, length-set, get_or-set_self,
  get_or-set_ne,
}
use libcsp_dphi.Port.{
  Port, port_closed, port_open, port_open_cb, Status, err_none, err_used, err_already,
  port_max_bind, get_callback, get_socket, lookup, socket_of, callback_of, is_closed, bind,
  bind_callback, bind_to, bind_checked, unbind,
}

abbrev IsTable : List Port → Type 0
IsTable ports = length ports ≡ port_max_bind + 2

-- The binding of a port itself.
abbrev slot : List Port → ℕ → Port
slot ports port = get_or ports port port_closed

one_empty : (p any : Port) → (lookup socket_of p any ≡ none) ⊎ (lookup callback_of p any ≡ none)
one_empty (port_open s) any = inr refl
one_empty (port_open_cb c) any = inl refl
one_empty port_closed (port_open s) = inr refl
one_empty port_closed (port_open_cb c) = inl refl
one_empty port_closed port_closed = inl refl

-- A port has a socket or a callback, never both.
not_both :
    (ports : List Port) (port : ℕ)
    → (get_socket ports port ≡ none) ⊎ (get_callback ports port ≡ none)
unfolding get_socket get_callback
not_both ports port = elim (Bool-cases (ltb port_max_bind port)) [
  | inl e ↦ inl (rw e)
  | inr e ↦ rw e (one_empty (slot ports port) (slot ports (port_max_bind + 1)))
]

port_cases :
    (p : Port)
    → ((p ≡ port_closed) × (is_closed p ≡ true)) ⊎ ((p ≢ port_closed) × (is_closed p ≡ false))
port_cases port_closed = inl (refl, refl)
port_cases (port_open s) = inr (λ e. cc, refl)
port_cases (port_open_cb c) = inr (λ e. cc, refl)

module _ (b : Port) (taken : Status) (port : ℕ) (ports : List Port) where
  in_range : port ≤ port_max_bind → bind_checked b taken port ports ≡ bind_to b taken port ports
  unfolding bind_checked
  in_range h = ground arith

  binds :
      port ≤ port_max_bind
      → is_closed (slot ports port) ≡ true
      → bind_checked b taken port ports ≡ (set ports port b, err_none)
  unfolding bind_to
  binds h c = rw (in_range h, c)

  refuses :
      port ≤ port_max_bind
      → is_closed (slot ports port) ≡ false
      → bind_checked b taken port ports ≡ (ports, taken)
  unfolding bind_to
  refuses h c = rw (in_range h, c)

module _ (b : Port) (port : ℕ) (ports : List Port) (h : IsTable ports)
    (k : port ≤ port_max_bind) where
  own : slot (set ports port b) port ≡ b
  own = get_or-set_self ports port b port_closed (omega arith)

  near : ltb port_max_bind port ≡ false
  near = ground arith

-- Binding a socket to a port that is closed succeeds, and the port then has that socket and no
-- callback; every other port keeps its own binding. A port in use and a port out of range are
-- refused and nothing changes.
bind-get_socket :
    (socket port : ℕ) (ports : List Port)
    → IsTable ports
    → port ≤ port_max_bind
    → let (ports', status) = bind (some socket) port ports in
      ((slot ports port ≡ port_closed)
        × (status ≡ err_none)
        × IsTable ports'
        × (get_socket ports' port ≡ some socket)
        × (get_callback ports' port ≡ none)
        × ((other : ℕ) → port ≢ other → slot ports' other ≡ slot ports other))
      ⊎ ((slot ports port ≢ port_closed) × (status ≡ err_used) × (ports' ≡ ports))
unfolding bind bind_checked bind_to get_socket get_callback
bind-get_socket socket port ports h k = elim (port_cases (slot ports port)) [
  | inl (c, e) ↦ inl (
      rw (binds (port_open socket) err_used port ports k e) (
        c,
        refl,
        length-set ports port (port_open socket) ∙ h,
        rw (near (port_open socket) port ports h k, own (port_open socket) port ports h k),
        rw (near (port_open socket) port ports h k, own (port_open socket) port ports h k),
        λ other ne. get_or-set_ne ports port other (port_open socket) port_closed ne,
      ))
  | inr (c, e) ↦ inr (rw (refuses (port_open socket) err_used port ports k e) (c, refl, refl))
]

-- Binding a callback to a port that is closed succeeds, and the port then has that callback and no
-- socket; every other port keeps its own binding. A port in use is refused and nothing changes.
bind_callback-get_callback :
    (callback port : ℕ) (ports : List Port)
    → IsTable ports
    → port ≤ port_max_bind
    → let (ports', status) = bind_callback (some callback) port ports in
      ((slot ports port ≡ port_closed)
        × (status ≡ err_none)
        × IsTable ports'
        × (get_callback ports' port ≡ some callback)
        × (get_socket ports' port ≡ none)
        × ((other : ℕ) → port ≢ other → slot ports' other ≡ slot ports other))
      ⊎ ((slot ports port ≢ port_closed) × (status ≡ err_already) × (ports' ≡ ports))
unfolding bind_callback get_socket get_callback
bind_callback-get_callback callback port ports h k = elim (port_cases (slot ports port)) [
  | inl (c, e) ↦ inl (
      rw (binds (port_open_cb callback) err_already port ports k e) (
        c,
        refl,
        length-set ports port (port_open_cb callback) ∙ h,
        rw (
          near (port_open_cb callback) port ports h k,
          own (port_open_cb callback) port ports h k,
        ),
        rw (
          near (port_open_cb callback) port ports h k,
          own (port_open_cb callback) port ports h k,
        ),
        λ other ne. get_or-set_ne ports port other (port_open_cb callback) port_closed ne,
      ))
  | inr (c, e) ↦
      inr (rw (refuses (port_open_cb callback) err_already port ports k e) (c, refl, refl))
]

-- Closing a socket opens or rebinds no port: a port has its old binding, or it is closed and was
-- bound to that socket. A socket that is bound to no port leaves the table as it was.
unbind_lem :
    (sock : ℕ) (ports : List Port) (port : ℕ)
    → (slot (unbind sock ports) port ≡ slot ports port)
      ⊎ ((slot (unbind sock ports) port ≡ port_closed) × (slot ports port ≡ port_open sock))
unfolding unbind
unbind_lem sock [] port = inl refl
unbind_lem sock (port_closed ∷ ports) zero = inl refl
unbind_lem sock (port_closed ∷ ports) (suc port) = unbind_lem sock ports port
unbind_lem sock (port_open_cb c ∷ ports) zero = inl refl
unbind_lem sock (port_open_cb c ∷ ports) (suc port) = unbind_lem sock ports port
unbind_lem sock (port_open s ∷ ports) zero = elim (Bool-cases (s == sock)) [
  | inl e ↦ inr (rw e (refl, ap port_open ((==_iff s sock).0 e)))
  | inr e ↦ inl (rw e)
]
unbind_lem sock (port_open s ∷ ports) (suc port) = elim (Bool-cases (s == sock)) [
  | inl e ↦ inl (rw e)
  | inr e ↦ rw e (unbind_lem sock ports port)
]
