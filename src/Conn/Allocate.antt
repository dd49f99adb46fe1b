-- ===== src/Conn/Allocate.antt =====
-- csp_conn.c: csp_conn_allocate finds a closed connection if there is one.
use native.Mathlib.Nat.{mod-add-mod, mod-eq_of_lt, add-mod_right}
use libcsp_dphi.Base.{
  ℕ, zero, suc, ◌+◌, ◌-◌, ◌%◌, ◌≤◌, ◌<◌, ◌≡◌, ◌⊎◌, ◌∙◌, refl, ap, subst, arith, true, false, not,
  Option-cases, Bool-cases, inl, inr, ltb, Option, none, some, List, get_elem?, get_elem?-lt, set,
  All, All-get, length, u8,
}
use libcsp_dphi.Conn.{
  Conn, State, Kind, conn_open, conn_closed, is_open, is_free, Table, probe, claim, claim_probed,
  allocate,
}

not_true : ¬ (false ≡ true)
not_true h = cc

not_some : {A : Type 0} {a : A} → ¬ (none ≡ some a)
not_some h = cc

not_none : {A : Type 0} {a : A} → ¬ (some a ≡ none)
not_none h = cc

module _ (arr : List Conn) (conn_max : ℕ) where
  probe-some :
      (rounds i j : ℕ) → probe arr conn_max rounds i ≡ some j → is_free (get_elem? arr j) ≡ true
  unfolding probe
  probe-some zero i j h = absurd (not_some h)
  probe-some (suc rounds) i j h = elim (Bool-cases (is_free (get_elem? arr ((i + 1) % conn_max)))) [
    | inl e ↦ subst (λ k. is_free (get_elem? arr k) ≡ true) (same (rw e at h)) e
    | inr e ↦ probe-some rounds ((i + 1) % conn_max) j (rw e at h)
  ]
    where
      same : some ((i + 1) % conn_max) ≡ some j → (i + 1) % conn_max ≡ j
      same q = cc

  -- Every index that the loop reaches is in use.
  probe-none :
      (rounds i k : ℕ)
      → probe arr conn_max rounds i ≡ none
      → k < rounds
      → is_free (get_elem? arr ((i + suc k) % conn_max)) ≡ false
  unfolding probe
  probe-none zero i k h l = absurd (omega arith)
  probe-none (suc rounds) i zero h l =
      elim (Bool-cases (is_free (get_elem? arr ((i + 1) % conn_max)))) [
        | inl e ↦ absurd (not_none (rw e at h))
        | inr e ↦ e
      ]
  probe-none (suc rounds) i (suc k) h l =
      elim (Bool-cases (is_free (get_elem? arr ((i + 1) % conn_max)))) [
        | inl e ↦ absurd (not_none (rw e at h))
        | inr e ↦
            subst (λ j. is_free (get_elem? arr j) ≡ false)
              (mod-add-mod (i + 1) conn_max (suc k)
                ∙ ap (λ n. n % conn_max) {x = i + 1 + suc k} {y = i + suc (suc k)} (omega arith))
              (probe-none rounds ((i + 1) % conn_max) k (rw e at h) (omega arith))
      ]

  -- From an index of the table the loop reaches all of it.
  reached :
      (i j : ℕ)
      → i < conn_max
      → j < conn_max
      → (k : ℕ) × (k < conn_max) × ((i + suc k) % conn_max ≡ j)
  reached i j hi hj = elim (Bool-cases (ltb i j)) [
    | inl e ↦ (
      j - suc i,
      ground arith,
      ap (λ n. n % conn_max) {x = i + suc (j - suc i)} {y = j} (ground arith) ∙ mod-eq_of_lt hj,
    )
    | inr e ↦ (
      conn_max + j - suc i,
      ground arith,
      ap (λ n. n % conn_max) {x = i + suc (conn_max + j - suc i)} {y = j + conn_max} (ground arith)
          ∙ add-mod_right j conn_max
          ∙ mod-eq_of_lt hj,
    )
  ]

open_of : (s : State) → not (is_open s) ≡ false → s ≡ conn_open
open_of conn_open h = refl
open_of conn_closed h = cc

closed_state : (s : State) → not (is_open s) ≡ true → s ≡ conn_closed
closed_state conn_open h = cc
closed_state conn_closed h = refl

closed_of :
    (o : Option Conn)
    → is_free o ≡ true
    → (conn : Conn) × (o ≡ some conn) × (conn.state ≡ conn_closed)
closed_of none h = absurd (not_true h)
closed_of (some conn) h = (conn, refl, closed_state conn.state h)

-- The connection as csp_conn_allocate leaves it.
abbrev pub opened : Kind → Conn → Conn
opened kind conn = record conn {
  state = conn_open;
  timestamp = 0;
  kind = kind;
  idin = record (conn.idin) { flags = 0 };
  idout = record (conn.idout) { flags = 0 };
}

claims :
    (conn_max : ℕ) (kind : Kind) (table : Table) (i : ℕ) (conn : Conn)
    → i < 256
    → probe table.arr_conn conn_max conn_max table.last_given ≡ some i
    → get_elem? table.arr_conn i ≡ some conn
    → allocate conn_max kind table ≡ (
      record table { arr_conn = set table.arr_conn i (opened kind conn); last_given = i },
      some i,
    )
unfolding allocate claim_probed claim
claims conn_max kind table i conn small e found =
    rw (e, found)
      (ap
        (λ n. (
          record table { arr_conn = set table.arr_conn i (opened kind conn); last_given = n },
          some i,
        ))
        {x = u8 i} {y = i} (omega arith))

-- A connection is allocated if and only if one is closed: it was closed before, and it is open now
-- with the type that was asked for. If all are open, nothing changes but the counter.
pub allocate_lem :
    (conn_max : ℕ) (kind : Kind) (table : Table)
    → length table.arr_conn ≡ conn_max
    → table.last_given < conn_max
    → conn_max ≤ 256
    → ((allocate conn_max kind table
          ≡ (record table { dbg_conn_out = u8 (table.dbg_conn_out + 1) }, none))
        × All (λ conn. conn.state ≡ conn_open) table.arr_conn)
      ⊎ ((i : ℕ) × (conn : Conn) × (get_elem? table.arr_conn i ≡ some conn)
          × (conn.state ≡ conn_closed)
          × (allocate conn_max kind table ≡ (
            record table { arr_conn = set table.arr_conn i (opened kind conn); last_given = i },
            some i,
          )))
unfolding allocate claim_probed claim
allocate_lem conn_max kind table size given small =
    elim (Option-cases (probe table.arr_conn conn_max conn_max table.last_given)) [
      | inl e ↦ inl (rw e, All-get (λ conn. conn.state ≡ conn_open) table.arr_conn (used e))
      | inr (i, e) ↦
          let (conn, found, closed) =
            closed_of (get_elem? table.arr_conn i)
              (probe-some table.arr_conn conn_max conn_max table.last_given i e) in
          inr (
            i,
            conn,
            found,
            closed,
            claims conn_max kind table i conn
                (omega (arith, get_elem?-lt table.arr_conn i conn found)) e found,
          )
    ]
  where
    used :
        probe table.arr_conn conn_max conn_max table.last_given ≡ none
        → (j : ℕ) (conn : Conn) → get_elem? table.arr_conn j ≡ some conn
        → conn.state ≡ conn_open
    used e j conn found =
        let (k, l, r) =
          reached table.arr_conn conn_max table.last_given j given
            (omega (arith, get_elem?-lt table.arr_conn j conn found)) in
        let busy = probe-none table.arr_conn conn_max conn_max table.last_given k e l in
        open_of conn.state (rw (r, found) at busy)
