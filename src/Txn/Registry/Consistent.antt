-- ===== src/Txn/Registry/Consistent.antt =====
-- The registry's invariant, and that each function of it keeps the invariant.
use plex_postgresql.Prelude.{
  ℕ, Bool, true, false, not, List, Option, none, some, ◌==◌, ◌≡◌, refl, arith, inl, inr, Bool-cases,
  ==_iff, sym, subst,
}
use plex_postgresql.Prelude.Map.{
  find, insert, remove, find-insert, find-remove, Entries, Entries-find, Entries-insert,
  Entries-remove, Entries-retain, Entries-mono,
}
use plex_postgresql.Txn.Plan.{Frame, TxnCmd, TxnState, is_open, plan}
use plex_postgresql.Txn.Server.{Backend}
use plex_postgresql.Txn.Stack.{IsStack}
use plex_postgresql.Txn.Commands.{IsUserCmd, plan_frames-IsStack}
use plex_postgresql.Txn.Registry.{
  Registry, pinned_conn, drop_conn, forget_connection, forget_db, or_default, Outcome, done,
  no_connection, connection_closed, refused, with_db, record_next, finish, run,
}

abbrev pub IsOpenState : ℕ → TxnState → Type 0
IsOpenState conn t = (is_open t ≡ true) × IsStack t.frames

abbrev pub HasOpenState : List (ℕ × TxnState) → ℕ → ℕ → Type 0
HasOpenState by_conn db conn = (t : TxnState) × (find conn by_conn ≡ some t) × (is_open t ≡ true)

-- Only open transactions are kept, as well-formed stacks, and a pin leads to one of them.
pub record IsConsistent (reg : Registry) : Type 0 where
  pub states : Entries IsOpenState reg.by_conn
  pub pinned : Entries (HasOpenState reg.by_conn) reg.pins

HasOpenState-insert :
    (m : List (ℕ × TxnState)) (conn : ℕ) (next : TxnState) (db c : ℕ)
    → is_open next ≡ true
    → HasOpenState m db c
    → HasOpenState (insert conn next m) db c
HasOpenState-insert m conn next db c opened (t, e, o) = elim (Bool-cases (conn == c)) [
  | inl same ↦ (next, rw (find-insert, same) refl, opened)
  | inr other ↦ (t, rw (find-insert, other) e, o)
]

HasOpenState-remove :
    (m : List (ℕ × TxnState)) (conn db c : ℕ)
    → not (c == conn) ≡ true
    → HasOpenState m db c
    → HasOpenState (remove conn m) db c
HasOpenState-remove m conn db c ne (t, e, o) =
    let miss : (conn == c) ≡ false = ground arith in (t, rw (find-remove, miss) e, o)

pub drop_conn-IsConsistent :
    (reg : Registry) (conn : ℕ) → IsConsistent reg → IsConsistent (drop_conn reg conn)
drop_conn-IsConsistent reg conn v = record {
  states = Entries-remove IsOpenState conn reg.by_conn v.states;
  pinned =
      Entries-retain (HasOpenState reg.by_conn) (HasOpenState (remove conn reg.by_conn)) _ reg.pins
        (λ db c ne h. HasOpenState-remove reg.by_conn conn db c ne h) v.pinned;
}

unpin-IsConsistent :
    (reg : Registry) (db : ℕ)
    → IsConsistent reg
    → IsConsistent (record reg { pins = remove db reg.pins })
unpin-IsConsistent reg db v = record {
  states = v.states;
  pinned = Entries-remove (HasOpenState reg.by_conn) db reg.pins v.pinned;
}

pub forget_connection-IsConsistent :
    (reg : Registry) (conn : ℕ) → IsConsistent reg → IsConsistent (forget_connection reg conn)
unfolding forget_connection
forget_connection-IsConsistent reg conn v = elim (Bool-cases (conn == 0)) [
  | inl null ↦ rw null v
  | inr here ↦ rw here (drop_conn-IsConsistent reg conn v)
]

pub forget_db-IsConsistent :
    (reg : Registry) (db : ℕ) → IsConsistent reg → IsConsistent (forget_db reg db)
unfolding forget_db
forget_db-IsConsistent reg db v = unpin-IsConsistent reg db v

pub pinned_conn-IsConsistent :
    (is_active : ℕ → Bool) (reg : Registry) (db : ℕ)
    → IsConsistent reg
    → IsConsistent (pinned_conn is_active reg db).0
unfolding pinned_conn
pinned_conn-IsConsistent is_active reg db v = ground (arith, v, unpin-IsConsistent reg db v)

-- The frames of a connection, none where the registry has no entry.
abbrev pub frames_of : Registry → ℕ → List Frame
frames_of reg conn = (or_default (find conn reg.by_conn)).frames

or_default-IsStack :
    (o : Option TxnState)
    → ((t : TxnState) → o ≡ some t → IsStack t.frames)
    → IsStack (or_default o).frames
or_default-IsStack none h = tt
or_default-IsStack (some t) h = h t refl

pub frames_of-IsStack :
    (reg : Registry) (conn : ℕ) → IsConsistent reg → IsStack (frames_of reg conn)
frames_of-IsStack reg conn v =
    or_default-IsStack (find conn reg.by_conn)
      (λ t e. (Entries-find IsOpenState conn t reg.by_conn v.states e).1)

record_next-IsConsistent :
    (p : Backend) (reg : Registry) (conn db : ℕ) (next : TxnState)
    → IsStack next.frames
    → IsConsistent reg
    → IsConsistent (record_next p reg conn db next)
record_next-IsConsistent p reg conn db next s v = elim (Bool-cases (is_open next)) [
  | inl opened ↦ rw opened (record {
    states = Entries-insert IsOpenState conn next reg.by_conn (opened, s) v.states;
    pinned =
        Entries-insert (HasOpenState (insert conn next reg.by_conn)) db conn reg.pins
          (next, rw (find-insert, (==_iff conn conn).1 refl) refl, opened)
          (Entries-mono (HasOpenState reg.by_conn) (HasOpenState (insert conn next reg.by_conn))
            reg.pins (λ d c h. HasOpenState-insert reg.by_conn conn next d c opened h) v.pinned);
  })
  | inr closed ↦ rw closed (drop_conn-IsConsistent reg conn v)
]

with_db-frames : (p : Backend) (next : TxnState) (db : ℕ) → (with_db p next db).frames ≡ next.frames
with_db-frames p next db = ground arith

finish-IsConsistent :
    (p : Backend) (reg : Registry) (conn db : ℕ) (next : TxnState) (s : p.State) (o : Outcome)
    → IsStack next.frames
    → IsConsistent reg
    → IsConsistent (finish p reg conn db next (s, o)).0
finish-IsConsistent p reg conn db next s done st v =
    record_next-IsConsistent p reg conn db next st v
finish-IsConsistent p reg conn db next s no_connection st v =
    ground (arith, v, drop_conn-IsConsistent reg conn v)
finish-IsConsistent p reg conn db next s connection_closed st v =
    ground (arith, v, drop_conn-IsConsistent reg conn v)
finish-IsConsistent p reg conn db next s (refused c) st v =
    ground (arith, v, drop_conn-IsConsistent reg conn v)

plan-IsStack :
    (t : TxnState) (cmd : TxnCmd) → IsStack t.frames → IsUserCmd cmd → IsStack (plan t cmd).1.frames
unfolding plan
plan-IsStack t cmd s u = plan_frames-IsStack t.frames cmd s u

-- Whatever PostgreSQL answers, a command leaves a consistent registry consistent, if its savepoint,
-- where it names one, is in small letters, holds no NUL and is none of the shim's own.
pub run-IsConsistent :
    (p : Backend) (reg : Registry) (closed : Bool) (s : p.State) (conn db : ℕ) (cmd : TxnCmd)
    → IsUserCmd cmd
    → IsConsistent reg
    → IsConsistent (run p reg closed s conn db cmd).0
unfolding run
run-IsConsistent p reg true s conn db cmd u v = ground arith
run-IsConsistent p reg false s conn db cmd u v = elim (Bool-cases (conn == 0)) [
  | inl null ↦ rw null v
  | inr here ↦ rw here (
      finish-IsConsistent p reg conn db _ _ _
        (subst IsStack (sym (with_db-frames p _ db))
          (plan-IsStack (or_default (find conn reg.by_conn)) cmd (frames_of-IsStack reg conn v) u))
        v)
]
