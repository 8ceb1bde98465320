-- ===== src/Txn/Registry/Run.antt =====
-- `run` against a server that agrees with the registry, and what a pin gives.
use plex_postgresql.Prelude.{
  ℕ, Bool, true, false, not, List, [], ◌∷◌, some, ◌==◌, ◌≡◌, ◌≢◌, ◌⊎◌, refl, arith, inl, inr,
  Bool-cases, ap, sym, subst, ◌∙◌, All,
}
use plex_postgresql.Prelude.Map.{find, find-insert, find-remove, find-retain-ne}
use plex_postgresql.Txn.Plan.{Frame, TxnCmd, TxnState, Statement, is_open, plan, plan_frames}
use plex_postgresql.Txn.Server.{Status, Backend, IsSession, IsOver, aborted, exec_all}
use plex_postgresql.Txn.Stack.{view, savepoints}
use plex_postgresql.Txn.Commands.{IsUserCmd, IsWritten, IsSent, plan_frames-IsSent}
use plex_postgresql.Txn.Refines.{Left, plan_frames-EndsIn}
use plex_postgresql.Txn.Registry.{
  Registry, pinned_conn, in_transaction, forget_connection, or_default, send, Outcome, done,
  no_connection, connection_closed, refused, with_db, record_next, finish, settle, run,
}
use plex_postgresql.Txn.Registry.Consistent.{IsConsistent, frames_of, frames_of-IsStack}

module _ (p : Backend) where
  send-exec_all :
      (s t : p.State) (cs : List Statement)
      → All IsSent cs
      → exec_all p s cs ≡ (t, true)
      → send p s cs ≡ (t, done)
  unfolding send exec_all
  send-exec_all s t [] h e = ap (λ r. (r.0, done)) e
  send-exec_all s t (c ∷ cs) h e = elim (Bool-cases (p.exec s c).1) [
    | inl ok ↦ rw (h.0, ok) (send-exec_all (p.exec s c).0 t cs h.1 (rw ok at e))
    | inr no_ok ↦ absurd (let e' = rw no_ok at e in cc)
  ]

  record_next-frames :
      (reg : Registry) (conn db : ℕ) (next : TxnState)
      → frames_of (record_next p reg conn db (with_db p next db)) conn ≡ next.frames
  unfolding is_open
  record_next-frames reg conn db next = ground (
    arith,
    find-insert conn conn (with_db p next db) reg.by_conn,
    find-remove conn conn reg.by_conn,
  )

  send-refused :
      (s t : p.State) (cs : List Statement)
      → All IsSent cs
      → exec_all p s cs ≡ (t, false)
      → (c : Statement) × (send p s cs ≡ (t, refused c))
  unfolding send exec_all
  send-refused s t [] h e = absurd (let q = ap (λ (r : p.State × Bool). r.1) e in cc)
  send-refused s t (c ∷ cs) h e = elim (Bool-cases (p.exec s c).1) [
    | inl ok ↦ let (d, q) = send-refused (p.exec s c).0 t cs h.1 (rw ok at e) in (d, rw (h.0, ok) q)
    | inr no_ok ↦
        (c, rw (h.0, no_ok) (ap (λ (r : p.State × Bool). (r.0, refused c)) (rw no_ok at e)))
  ]

  -- After a refusal: the server has no transaction and the registry has none, or the server has aborted
  -- the transaction of these frames and the registry still has them.
  abbrev pub Settled : List Frame → List Frame → Status → Type 0
  Settled before after st =
      ((after ≡ []) × IsOver st) ⊎ ((after ≡ before) × (st ≡ aborted (savepoints before)))

  settle-Settled :
      (reg : Registry) (t : p.State) (conn : ℕ)
      → Left (frames_of reg conn) (p.status t)
      → Settled (frames_of reg conn) (frames_of (settle p reg t conn) conn) (p.status t)
  settle-Settled reg t conn (inl (inl none_open)) =
      inl (rw none_open (ground (arith, find-remove conn conn reg.by_conn)), inl none_open)
  settle-Settled reg t conn (inl (inr gone)) =
      inl (rw gone (ground (arith, find-remove conn conn reg.by_conn)), inr gone)
  settle-Settled reg t conn (inr failed) = inr (rw failed refl, failed)

  -- On a live connection whose server stands where a consistent registry says, `run` succeeds, and
  -- registry and server agree again, on the frames that `plan` gives; or a statement is refused, and then
  -- neither has a transaction, or the server has aborted the transaction of the frames that the registry
  -- had and keeps. This if the command's savepoint, where it names one, is in small letters, holds no NUL
  -- and is none of the shim's own; a SAVEPOINT's name is a word, and a BEGIN is less than 10^9 levels deep.
  pub run-agrees :
      (l : IsSession p) (reg : Registry) (s : p.State) (conn db : ℕ) (cmd : TxnCmd)
      → (conn == 0) ≡ false
      → IsConsistent reg
      → IsUserCmd cmd
      → IsWritten (frames_of reg conn) cmd
      → p.status s ≡ view (frames_of reg conn)
      → let r = run p reg false s conn db cmd in
        ((r.2 ≡ done)
          × (frames_of r.0 conn ≡ (plan_frames (frames_of reg conn) cmd).1)
          × (p.status r.1 ≡ view (frames_of r.0 conn)))
        ⊎ ((c : Statement) × (r.2 ≡ refused c)
            × Settled (frames_of reg conn) (frames_of r.0 conn) (p.status r.1))
  unfolding run plan
  run-agrees l reg s conn db cmd live v u w a =
      let sent = plan_frames-IsSent (frames_of reg conn) cmd (frames_of-IsStack reg conn v) u in
      elim (plan_frames-EndsIn p l s (frames_of reg conn) cmd (frames_of-IsStack reg conn v) u w
        a) [
          | inl (t, run_all, end) ↦
              let ok = send-exec_all s t _ sent run_all in
              let same =
                record_next-frames reg conn db (plan (or_default (find conn reg.by_conn)) cmd).1 in
              inl (rw (live, ok) (refl, same, end ∙ ap view (sym same)))
          | inr (t, stopped, may, left) ↦
              let (c, bad) = send-refused s t _ sent stopped in
              inr (c, rw (live, bad) refl, rw (live, bad) (settle-Settled reg t conn left))
        ]

  abbrev next_of : Registry → ℕ → ℕ → TxnCmd → TxnState
  next_of reg conn db cmd = with_db p (plan (or_default (find conn reg.by_conn)) cmd).1 db

  abbrev sent_of : Registry → p.State → ℕ → TxnCmd → p.State × Outcome
  sent_of reg s conn cmd = send p s (plan (or_default (find conn reg.by_conn)) cmd).0

  run-live :
      (reg : Registry) (s : p.State) (conn db : ℕ) (cmd : TxnCmd)
      → (conn == 0) ≡ false
      → run p reg false s conn db cmd
        ≡ finish p reg conn db (next_of reg conn db cmd) (sent_of reg s conn cmd)
  unfolding run
  run-live reg s conn db cmd live = rw live

  with_db-owner :
      (next : TxnState) (db : ℕ)
      → (next.db ≡ 0) ⊎ (next.db ≡ db)
      → is_open (with_db p next db) ≡ true
      → (with_db p next db).db ≡ db
  unfolding is_open
  with_db-owner next db mine h = ground arith

  finish-pins :
      (is_active : ℕ → Bool) (reg : Registry) (conn db : ℕ) (next : TxnState)
      (sent : p.State × Outcome)
      → (conn == 0) ≡ false
      → (db == 0) ≡ false
      → is_active conn ≡ true
      → (is_open next ≡ true → next.db ≡ db)
      → (finish p reg conn db next sent).2 ≡ done
      → in_transaction (finish p reg conn db next sent).0 conn ≡ true
      → pinned_conn is_active (finish p reg conn db next sent).0 db
        ≡ ((finish p reg conn db next sent).0, conn)
  unfolding pinned_conn in_transaction
  finish-pins is_active reg conn db next (s, done) live handle act own ok within = ground (
    arith,
    own,
    find-insert conn conn next reg.by_conn,
    find-insert db db conn reg.pins,
    find-remove conn conn reg.by_conn,
  )
  finish-pins is_active reg conn db next (s, no_connection) live handle act own ok within = cc
  finish-pins is_active reg conn db next (s, connection_closed) live handle act own ok within = cc
  finish-pins is_active reg conn db next (s, refused c) live handle act own ok within = cc

  -- A handle whose command succeeded and left a transaction open is pinned to its connection, if
  -- neither is null, the connection is live, and the transaction was not another handle's.
  pub run-pins :
      (is_active : ℕ → Bool) (reg : Registry) (s : p.State) (conn db : ℕ) (cmd : TxnCmd)
      → let old = or_default (find conn reg.by_conn) in
        let r = run p reg false s conn db cmd in
        (conn == 0) ≡ false
        → (db == 0) ≡ false
        → is_active conn ≡ true
        → (old.db ≡ 0) ⊎ (old.db ≡ db)
        → r.2 ≡ done
        → in_transaction r.0 conn ≡ true
        → pinned_conn is_active r.0 db ≡ (r.0, conn)
  run-pins is_active reg s conn db cmd live handle act mine ok within =
      subst
        (λ (r : Registry × p.State × Outcome).
          r.2 ≡ done → in_transaction r.0 conn ≡ true → pinned_conn is_active r.0 db ≡ (r.0, conn))
        (sym (run-live reg s conn db cmd live))
        (finish-pins is_active reg conn db (next_of reg conn db cmd) (sent_of reg s conn cmd) live
          handle act
          (with_db-owner (plan (or_default (find conn reg.by_conn)) cmd).1 db
            (unfold plan in mine)))
        ok within

-- Once a connection that is not null is forgotten, no transaction is open on it and no handle gets it
-- from its pin.
pub forget_connection-forgets :
    (is_active : ℕ → Bool) (reg : Registry) (conn db : ℕ)
    → (conn == 0) ≡ false
    → let after = forget_connection reg conn in
      (in_transaction after conn ≡ false) × ((pinned_conn is_active after db).1 ≢ conn)
unfolding forget_connection in_transaction pinned_conn
forget_connection-forgets is_active reg conn db live = ground (
  arith,
  find-remove conn conn reg.by_conn,
  find-retain-ne (λ c. not (c == conn)) db conn reg.pins,
)

-- What a pin gives is null or the pinned connection, which is live and has an open transaction, and
-- asking for it changes no other handle's pin.
pub pinned_conn_sound :
    (is_active : ℕ → Bool) (reg : Registry) (db other : ℕ)
    → let (after, conn) = pinned_conn is_active reg db in
      ((conn ≡ 0)
        ⊎ ((find db reg.pins ≡ some conn)
            × (in_transaction reg conn ≡ true)
            × (is_active conn ≡ true)))
      × ((other ≡ db) ⊎ (find other after.pins ≡ find other reg.pins))
unfolding pinned_conn in_transaction
pinned_conn_sound is_active reg db other = ground (arith, find-remove db other reg.pins)
