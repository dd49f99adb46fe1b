-- ===== src/Conn/Match.antt =====
-- csp_conn.c: which connection an incoming packet belongs to.
use libcsp_dphi.Base.{
  ℕ, suc, ◌+◌, ◌≡◌, ◌⊎◌, ◌↔◌, ◌∙◌, refl, sym, ap, arith, Bool, true, false, Bool-cases, inl, inr,
  none, some, List, [], ◌∷◌, get_elem?, take, All,
}
use libcsp_dphi.Packet.{CspId}
use libcsp_dphi.Conn.{
  Conn, State, Kind, conn_open, conn_closed, conn_client, conn_server, Table, first_that, matches,
  find_existing,
}

-- What libcsp promises: an open client connection takes what comes to its port, a server's what
-- comes from its peer's node and port too.
abbrev pub Takes : CspId → Conn → Type 0
Takes id conn =
    (conn.state ≡ conn_open)
    × (conn.idin.dport ≡ id.dport)
    × ((conn.kind ≡ conn_client)
        ⊎ ((conn.kind ≡ conn_server) × (conn.idin.sport ≡ id.sport) × (conn.idin.src ≡ id.src)))

-- The first element of a list with a property, and where it is.
abbrev pub IsFirst : (Conn → Type 0) → List Conn → ℕ → Conn → Type 0
IsFirst P conns i conn =
    (get_elem? conns i ≡ some conn) × P conn × All (λ other. ¬ P other) (take i conns)

not_true : ¬ (false ≡ true)
not_true h = cc

module _ (test : Conn → Bool) (P : Conn → Type 0)
    (same : (conn : Conn) → (test conn ≡ true) ↔ P conn) where
  fails : (conn : Conn) → test conn ≡ false → ¬ P conn
  fails conn e p = not_true (sym e ∙ (same conn).1 p)

  first_that_lem :
      (k : ℕ) (conns : List Conn)
      → ((first_that test k conns ≡ none) × All (λ conn. ¬ P conn) conns)
        ⊎ ((i : ℕ) × (conn : Conn) × (first_that test k conns ≡ some (k + i))
            × IsFirst P conns i conn)
  unfolding first_that
  first_that_lem k [] = inl (refl, tt)
  first_that_lem k (conn ∷ conns) = elim (Bool-cases (test conn)) [
    | inl e ↦ inr (0, conn, rw e (ap some (omega arith)), (refl, (same conn).0 e, tt))
    | inr e ↦ elim (first_that_lem (k + 1) conns) [
      | inl (n, a) ↦ inl (rw e n, (fails conn e, a))
      | inr (i, found, r, (here, holds, before)) ↦ inr (
        suc i,
        found,
        rw e (r ∙ ap some {x = k + 1 + i} {y = k + suc i} (omega arith)),
        (here, holds, (fails conn e, before)),
      )
    ]
  ]

differ : ¬ (conn_server ≡ conn_client)
differ h = cc

matches_at :
    (id : CspId) (s : State) (k : Kind) (conn : Conn)
    → let c : Conn = record conn { state = s; kind = k } in (matches id c ≡ true) ↔ Takes id c
unfolding matches
matches_at id conn_closed k conn = (λ h. cc, λ t. cc)
matches_at id conn_open conn_client conn = (λ h. (refl, ground arith, inl refl), λ t. ground arith)
matches_at id conn_open conn_server conn = (
  λ h. (refl, ground arith, inr (refl, ground arith, ground arith)),
  λ t. elim t.2 [ inl e ↦ absurd (differ e) | inr (k, p, s) ↦ ground arith ],
)

-- The connection that an incoming packet is given to is the first one that takes it. There is none
-- exactly if no connection takes it.
pub find_existing_lem :
    (id : CspId) (table : Table)
    → ((find_existing id table ≡ none) × All (λ conn. ¬ Takes id conn) table.arr_conn)
      ⊎ ((i : ℕ) × (conn : Conn) × (find_existing id table ≡ some i)
          × IsFirst (Takes id) table.arr_conn i conn)
unfolding find_existing
find_existing_lem id table =
    elim (first_that_lem (matches id) (Takes id) (λ conn. matches_at id conn.state conn.kind conn) 0
      table.arr_conn) [
        | inl n ↦ inl n
        | inr (i, conn, r, f) ↦ inr (i, conn, r ∙ ap some {x = 0 + i} {y = i} (omega arith), f)
      ]
