-- ===== src/Txn/Registry.antt =====
-- The process state of pg_client/txn.rs: each connection's transaction, and the handle that is
-- pinned to the connection. Pointers are numbers, and 0 is null. The mutex makes each function one
-- step; `run` holds it before and after the statements, which the connection's own mutex covers.
pub mod Consistent
pub mod Run
use plex_postgresql.Prelude.{
  ℕ, Bool, true, false, not, ◌&&◌, ◌||◌, List, [], ◌∷◌, Option, none, some, if◌then◌else◌, ◌==◌,
}
use plex_postgresql.Prelude.Bytes.{has_nul}
use plex_postgresql.Prelude.Map.{find, insert, remove, retain}
use plex_postgresql.Txn.Plan.{TxnCmd, TxnState, Statement, is_open, text, plan}
use plex_postgresql.Txn.Server.{Status, idle, lost, active, aborted, Backend}

pub record Registry : Type 0 where
  pub by_conn : List (ℕ × TxnState)
  pub pins : List (ℕ × ℕ)

-- `TxnState::default()`
abbrev pub default_state : TxnState
default_state = record { frames = []; db = 0 }

abbrev pub or_default : Option TxnState → TxnState
or_default none = default_state
or_default (some t) = t

abbrev pub holds_open : Option TxnState → ℕ → Bool
holds_open none db = false
holds_open (some t) db = is_open t && t.db == db

-- `conn != 0` and `(*conn).is_pg_active != 0` are the two tests on the pointer.
unfoldable pub pinned_conn : (ℕ → Bool) → Registry → ℕ → Registry × ℕ
pinned_conn is_pg_active reg db = if db == 0 then (reg, 0) else elim (find db reg.pins) [
  | none ↦ (reg, 0)
  | some conn ↦
      if holds_open (find conn reg.by_conn) db && not (conn == 0) && is_pg_active conn
      then (reg, conn)
      else (record reg { pins = remove db reg.pins }, 0)
]

abbrev pub opens : Option TxnState → Bool
opens none = false
opens (some t) = is_open t

unfoldable pub in_transaction : Registry → ℕ → Bool
in_transaction reg conn = if conn == 0 then false else opens (find conn reg.by_conn)

abbrev pub drop_conn : Registry → ℕ → Registry
drop_conn reg conn = record {
  by_conn = remove conn reg.by_conn;
  pins = retain (λ c. not (c == conn)) reg.pins;
}

unfoldable pub forget_connection : Registry → ℕ → Registry
forget_connection reg conn = if conn == 0 then reg else drop_conn reg conn

unfoldable pub forget_db : Registry → ℕ → Registry
forget_db reg db = record reg { pins = remove db reg.pins }

-- `PQtransactionStatus`, and the two values of it that keep the registry's entry.
abbrev pub transaction_status : Status → ℕ
transaction_status idle = 0
transaction_status lost = 4
transaction_status (active _) = 2
transaction_status (aborted _) = 3

pub data Outcome : Type 0 where
  done : Outcome
  no_connection connection_closed : Outcome
  refused : Statement → Outcome

module _ (p : Backend) where
  -- The loop over the statements. One whose text holds a NUL is skipped, and a refusal stops.
  unfoldable pub send : p.State → List Statement → p.State × Outcome
  send s [] = (s, done)
  send s (c ∷ cs) =
      let skipped = send s cs in
      let t = (p.exec s c).0 in
      let sent = send t cs in
      if has_nul (text c) then skipped else if (p.exec s c).1 then sent else (t, refused c)

  abbrev pub settle : Registry → p.State → ℕ → Registry
  settle reg s conn =
      let status = transaction_status (p.status s) in
      if status == 2 || status == 3 then reg else drop_conn reg conn

  abbrev pub with_db : TxnState → ℕ → TxnState
  with_db next db =
      if not (is_open next)
      then record next { db = 0 }
      else if next.db == 0
      then record next { db = db }
      else next

  abbrev pub record_next : Registry → ℕ → ℕ → TxnState → Registry
  record_next reg conn db next =
      if is_open next
      then record { by_conn = insert conn next reg.by_conn; pins = insert db conn reg.pins }
      else drop_conn reg conn

  abbrev pub finish : Registry → ℕ → ℕ → TxnState → p.State × Outcome → Registry × p.State × Outcome
  finish reg conn db next (s, done) = (record_next reg conn db next, s, done)
  finish reg conn db next (s, other) = (settle reg s conn, s, other)

  -- `closed` is `(*conn).conn.is_null()`, libpq's own pointer.
  unfoldable pub run : Registry → Bool → p.State → ℕ → ℕ → TxnCmd → Registry × p.State × Outcome
  run reg closed s conn db cmd =
      if conn == 0
      then (reg, s, no_connection)
      else if closed
      then (reg, s, connection_closed)
      else (let current = or_default (find conn reg.by_conn) in
          let (statements, next) = plan current cmd in
          finish reg conn db (with_db next db) (send s statements))
