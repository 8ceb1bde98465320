-- ===== src/Txn/Tests.antt =====
-- Runs of the transaction forwarding, on a small server.
use plex_postgresql.Prelude.{
  ℕ, Bool, true, false, List, [], ◌∷◌, Option, none, some, ◌==◌, ◌≡◌, ◌≢◌, ◌⊎◌, refl, arith, inl,
  inr, ap, sym, ◌∙◌,
}
use plex_postgresql.Prelude.Bytes.{Bytes, codes, beq, ascii_lower, starts_with}
use plex_postgresql.Prelude.Decimal.{decimal}
use plex_postgresql.Prelude.Map.{find, insert, remove}
use plex_postgresql.Txn.Plan.{
  TxnCmd, Frame, outer, Statement, is_open, plan, plan_frames, nested_name, up_to_savepoint, text,
}
use plex_postgresql.Txn.Server.{
  Status, idle, lost, active, aborted, fold, newest, Backend, IsSession,
}
use plex_postgresql.Txn.Stack.{IsUserName, view}
use plex_postgresql.Txn.Refines.{EndsIn, Runs, plan_frames-EndsIn, plan_frames-mends}
use plex_postgresql.Txn.Classify.{classify_sql}
use plex_postgresql.Txn.Classify.RoundTrip.{classify_sql-text}
use plex_postgresql.Txn.Classify.Leading.{classify_sql-append_text, blank, to_line_end, nothing}
use plex_postgresql.Txn.Brackets.{plan_frames-brackets}
use plex_postgresql.Txn.Registry.{
  Registry, Outcome, done, refused, run, send, pinned_conn, in_transaction, forget_connection,
}
use plex_postgresql.Txn.Registry.Consistent.{IsConsistent, frames_of, run-IsConsistent}
use plex_postgresql.Txn.Registry.Run.{
  Settled, run-agrees, run-pins, forget_connection-forgets, pinned_conn_sound,
}

abbrev on_found : Status → Option (List Bytes) → (List Bytes → Status) → Status × Bool
on_found s none f = (s, false)
on_found s (some []) f = (s, false)
on_found s (some (n ∷ older)) f = (f (n ∷ older), true)

abbrev without_head : List Bytes → Status
without_head [] = active []
without_head (n ∷ older) = active older

-- A server with one session.
abbrev exec : Status → Statement → Status × Bool
exec idle Statement.begin = (active [], true)
exec idle _ = (idle, false)
exec lost _ = (lost, false)
exec (active ns) Statement.begin = (active ns, true)
exec (active ns) Statement.commit = (idle, true)
exec (active ns) Statement.rollback = (idle, true)
exec (active ns) (Statement.savepoint name) = (active (fold name ∷ ns), true)
exec (active ns) (Statement.release name) =
    on_found (aborted ns) (newest (fold name) ns) without_head
exec (active ns) (Statement.rollback_to name) = on_found (aborted ns) (newest (fold name) ns) active
exec (aborted ns) Statement.commit = (idle, true)
exec (aborted ns) Statement.rollback = (idle, true)
exec (aborted ns) (Statement.rollback_to name) =
    on_found (aborted ns) (newest (fold name) ns) active
exec (aborted ns) _ = (aborted ns, false)

abbrev server : Backend
server = record { State = Status; status = λ s. s; exec = exec }

at_accept : (q : Status × Bool) (x t : Status) → q ≡ (x, true) → q ≡ (t, true) → t ≡ x
at_accept q x t e f = ap (λ (r : Status × Bool). r.0) (sym f ∙ e)

at_refuse : (q : Status × Bool) (x t : Status) → q ≡ (x, true) → q ≡ (t, false) → ⊥
at_refuse q x t e f = let z = ap (λ (r : Status × Bool). r.1) (sym e ∙ f) in cc

server-IsSession : IsSession server
server-IsSession = record {
  begins = λ s t e a. at_accept _ (active []) t (rw e refl) a;
  begin_refused = λ s t e a. absurd (at_refuse _ (active []) t (rw e refl) a);
  commits = λ s t ns e a. at_accept _ idle t (rw e refl) a;
  commit_refused = λ s t ns e a. absurd (at_refuse _ idle t (rw e refl) a);
  saves = λ s t name ns w e a. at_accept _ (active (fold name ∷ ns)) t (rw e refl) a;
  save_refused = λ s t name ns e a. absurd (at_refuse _ (active (fold name ∷ ns)) t (rw e refl) a);
  rolls_back = λ s ns e. (idle, rw e, refl);
  rolls_back_failed = λ s ns e. (idle, rw e, refl);
  releases = λ s name n ns older e f. (active older, rw (e, f), refl);
  returns = λ s name n ns older e f. (active (n ∷ older), rw (e, f), refl);
  returns_failed = λ s name n ns older e f. (active (n ∷ older), rw (e, f), refl);
}

abbrev name_a : Bytes
name_a = codes "a"

name_a-IsUserName : IsUserName name_a
unfolding fold ascii_lower starts_with
name_a-IsUserName = record { folded = refl; foreign = refl; printable = refl }

abbrev two_levels : List Frame
two_levels = Frame.savepoint name_a ∷ outer true ∷ []

abbrev two_levels_at : Registry
two_levels_at = record {
  by_conn = (7, record { frames = two_levels; db = 4 }) ∷ [];
  pins = (4, 7) ∷ [];
}

two_levels_at-IsConsistent : IsConsistent two_levels_at
unfolding find is_open
two_levels_at-IsConsistent = record {
  states = ((refl, (name_a-IsUserName, tt)), tt);
  pinned = ((record { frames = two_levels; db = 4 }, refl, refl), tt);
}

nested_text : text (Statement.savepoint (nested_name 2)) ≡ codes "SAVEPOINT plexpg_nested_2"
unfolding text nested_name decimal
nested_text = refl

implicit_release :
    (plan_frames [] (TxnCmd.savepoint name_a) ≡ (
      Statement.begin ∷ Statement.savepoint name_a ∷ [],
      Frame.savepoint name_a ∷ outer false ∷ [],
    ))
    × (plan_frames (Frame.savepoint name_a ∷ outer false ∷ []) (TxnCmd.release name_a)
        ≡ (Statement.release name_a ∷ Statement.commit ∷ [], []))
unfolding plan_frames up_to_savepoint beq
implicit_release = (refl, refl)

abbrev released : List Statement × List Frame
released = plan_frames two_levels (TxnCmd.release name_a)

plan_frames-EndsIn_example :
    Runs server server-IsSession (active (name_a ∷ [])) released.0 two_levels (view released.1)
plan_frames-EndsIn_example =
    plan_frames-EndsIn server server-IsSession (active (name_a ∷ [])) two_levels
      (TxnCmd.release name_a) (name_a-IsUserName, tt) name_a-IsUserName tt refl

abbrev rolled_back : List Statement × List Frame
rolled_back = plan_frames two_levels TxnCmd.rollback

plan_frames-mends_example :
    EndsIn server server-IsSession (aborted (name_a ∷ [])) rolled_back.0 (view rolled_back.1)
plan_frames-mends_example =
    plan_frames-mends server server-IsSession (aborted (name_a ∷ [])) (Frame.savepoint name_a)
      (outer true ∷ []) TxnCmd.rollback (name_a-IsUserName, tt) refl (inl refl)

plan_frames-brackets_example :
    ((plan_frames (plan_frames two_levels TxnCmd.begin).1 TxnCmd.commit).1 ≡ two_levels)
    × ((plan_frames (plan_frames two_levels TxnCmd.begin).1 TxnCmd.rollback).1 ≡ two_levels)
    × ((plan_frames (plan_frames two_levels (TxnCmd.savepoint name_a)).1 (TxnCmd.release name_a)).1
        ≡ two_levels)
plan_frames-brackets_example = plan_frames-brackets two_levels name_a (λ e. e)

run-IsConsistent_example :
    IsConsistent (run server two_levels_at false (active (name_a ∷ [])) 7 4 TxnCmd.commit).0
run-IsConsistent_example =
    run-IsConsistent server two_levels_at false (active (name_a ∷ [])) 7 4 TxnCmd.commit tt
      two_levels_at-IsConsistent

abbrev begun : Registry × Status × Outcome
begun = run server two_levels_at false (active (name_a ∷ [])) 7 4 TxnCmd.begin

run-agrees_example :
    ((begun.2 ≡ done)
      × (frames_of begun.0 7 ≡ (plan_frames (frames_of two_levels_at 7) TxnCmd.begin).1)
      × (server.status begun.1 ≡ view (frames_of begun.0 7)))
    ⊎ ((c : Statement) × (begun.2 ≡ refused c)
        × Settled server (frames_of two_levels_at 7) (frames_of begun.0 7) (server.status begun.1))
unfolding find
run-agrees_example =
    run-agrees server server-IsSession two_levels_at (active (name_a ∷ [])) 7 4 TxnCmd.begin refl
      two_levels_at-IsConsistent tt (omega arith) refl

-- A server that refuses a SAVEPOINT, as PostgreSQL does for a word that is reserved: the transaction
-- that the shim began for it stays, aborted, and the registry has none, so that no ROLLBACK is sent.
abbrev exec_refusing : Status → Statement → Status × Bool
exec_refusing (active ns) (Statement.savepoint name) = (aborted ns, false)
exec_refusing s c = exec s c

abbrev refusing : Backend
refusing = record { State = Status; status = λ s. s; exec = exec_refusing }

abbrev nothing_open : Registry
nothing_open = record { by_conn = []; pins = [] }

abbrev left_behind : Registry × Status × Outcome
left_behind = run refusing nothing_open false idle 7 4 (TxnCmd.savepoint (codes "order"))

left_behind_test :
    (left_behind.1 ≡ aborted [])
    × (left_behind.0 ≡ nothing_open)
    × ((run refusing left_behind.0 false left_behind.1 7 4 TxnCmd.rollback).1 ≡ aborted [])
unfolding run send plan plan_frames find insert remove is_open text
left_behind_test = (refl, refl, refl)

run-pins_example : pinned_conn (λ c. c == 7) begun.0 4 ≡ (begun.0, 7)
unfolding run send plan plan_frames find insert is_open in_transaction text nested_name decimal
run-pins_example =
    run-pins server (λ c. c == 7) two_levels_at (active (name_a ∷ [])) 7 4 TxnCmd.begin refl refl
      refl (inr refl) refl refl

forget_connection-forgets_example :
    (in_transaction (forget_connection two_levels_at 7) 7 ≡ false)
    × ((pinned_conn (λ c. true) (forget_connection two_levels_at 7) 4).1 ≢ 7)
forget_connection-forgets_example = forget_connection-forgets (λ c. true) two_levels_at 7 4 refl

pinned_conn_sound_example :
    let (after, conn) = pinned_conn (λ c. c == 7) two_levels_at 4 in
    ((conn ≡ 0)
      ⊎ ((find 4 two_levels_at.pins ≡ some conn)
          × (in_transaction two_levels_at conn ≡ true)
          × ((conn == 7) ≡ true)))
    × ((◌≡◌ {A = ℕ} 5 4) ⊎ (find 5 after.pins ≡ find 5 two_levels_at.pins))
pinned_conn_sound_example = pinned_conn_sound (λ c. c == 7) two_levels_at 4 5

classify_sql-text_example :
    classify_sql (codes "ROLLBACK TO SAVEPOINT fts_1") ≡ some (TxnCmd.rollback_to (codes "fts_1"))
unfolding text
classify_sql-text_example = classify_sql-text (Statement.rollback_to (codes "fts_1")) refl

classify_sql-append_text_example : classify_sql (codes " -- end it\nCOMMIT") ≡ some TxnCmd.commit
unfolding text
classify_sql-append_text_example =
    classify_sql-append_text (codes " -- end it\n") Statement.commit
      (blank 32 refl (to_line_end (codes " end it") refl nothing)) tt
