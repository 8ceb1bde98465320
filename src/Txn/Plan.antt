-- ===== src/Txn/Plan.antt =====
-- The types of pg_client/txn.rs and `plan`, the statements that a command is sent as.
-- A stack of frames has its top, the last entry of the source's `Vec`, at the head.
use plex_postgresql.Prelude.{
  ℕ, Bool, true, false, List, [], ◌∷◌, ◌++◌, Option, none, some, length, if◌then◌else◌,
}
use plex_postgresql.Prelude.Bytes.{Bytes, codes, beq}
use plex_postgresql.Prelude.Decimal.{decimal}

pub data TxnCmd : Type 0 where
  begin commit rollback : TxnCmd
  savepoint release rollback_to : Bytes → TxnCmd

pub data Frame : Type 0 where
  outer : Bool → Frame
  savepoint : Bytes → Frame
  nested_begin : Bytes → Frame

pub record TxnState : Type 0 where
  pub frames : List Frame
  pub db : ℕ

unfoldable pub is_open : TxnState → Bool
is_open t = elim t.frames [ [] ↦ false | _ ∷ _ ↦ true ]

-- The statements that `plan` writes, by what they are; `text` has their spelling.
pub data Statement : Type 0 where
  begin commit rollback : Statement
  savepoint release rollback_to : Bytes → Statement

unfoldable pub text : Statement → Bytes
text Statement.begin = codes "BEGIN"
text Statement.commit = codes "COMMIT"
text Statement.rollback = codes "ROLLBACK"
text (Statement.savepoint name) = codes "SAVEPOINT " ++ name
text (Statement.release name) = codes "RELEASE SAVEPOINT " ++ name
text (Statement.rollback_to name) = codes "ROLLBACK TO SAVEPOINT " ++ name

abbrev pub nested_prefix : Bytes
nested_prefix = codes "plexpg_nested_"

unfoldable pub nested_name : ℕ → Bytes
nested_name depth = nested_prefix ++ decimal depth

-- `rposition` of the savepoint of that name: the frames up to it, itself at the head.
unfoldable pub up_to_savepoint : Bytes → List Frame → Option (List Frame)
up_to_savepoint name [] = none
up_to_savepoint name (Frame.savepoint n ∷ below) =
    if beq n name then some (Frame.savepoint n ∷ below) else up_to_savepoint name below
up_to_savepoint name (outer e ∷ below) = up_to_savepoint name below
up_to_savepoint name (nested_begin n ∷ below) = up_to_savepoint name below

abbrev Planned : Type 0
Planned = List Statement × List Frame

abbrev pub plan_begin : List Frame → Planned
plan_begin [] = (Statement.begin ∷ [], outer true ∷ [])
plan_begin (f ∷ fs) =
    let name = nested_name (length (f ∷ fs)) in
    (Statement.savepoint name ∷ [], nested_begin name ∷ f ∷ fs)

abbrev pub plan_commit : List Frame → Planned
plan_commit [] = ([], [])
plan_commit (nested_begin name ∷ below) = (Statement.release name ∷ [], below)
plan_commit (outer e ∷ below) = (Statement.commit ∷ [], [])
plan_commit (Frame.savepoint n ∷ below) = (Statement.commit ∷ [], [])

abbrev pub plan_rollback : List Frame → Planned
plan_rollback [] = ([], [])
plan_rollback (nested_begin name ∷ below) =
    (Statement.rollback_to name ∷ Statement.release name ∷ [], below)
plan_rollback (outer e ∷ below) = (Statement.rollback ∷ [], [])
plan_rollback (Frame.savepoint n ∷ below) = (Statement.rollback ∷ [], [])

abbrev pub plan_savepoint : Bytes → List Frame → Planned
plan_savepoint name [] =
    (Statement.begin ∷ Statement.savepoint name ∷ [], Frame.savepoint name ∷ outer false ∷ [])
plan_savepoint name (f ∷ fs) = (Statement.savepoint name ∷ [], Frame.savepoint name ∷ f ∷ fs)

-- `next.frames == [Outer { explicit: false }]` after the release: the transaction ends.
abbrev pub after_release : Bytes → List Frame → Planned
after_release name (outer false ∷ []) = (Statement.release name ∷ Statement.commit ∷ [], [])
after_release name frames = (Statement.release name ∷ [], frames)

abbrev pub plan_release : Bytes → List Frame → Option (List Frame) → Planned
plan_release name frames none = ([], frames)
plan_release name frames (some []) = ([], frames)
plan_release name frames (some (_ ∷ below)) = after_release name below

abbrev pub plan_rollback_to : Bytes → List Frame → Option (List Frame) → Planned
plan_rollback_to name frames none = ([], frames)
plan_rollback_to name frames (some kept) = (Statement.rollback_to name ∷ [], kept)

unfoldable pub plan_frames : List Frame → TxnCmd → Planned
plan_frames frames TxnCmd.begin = plan_begin frames
plan_frames frames TxnCmd.commit = plan_commit frames
plan_frames frames TxnCmd.rollback = plan_rollback frames
plan_frames frames (TxnCmd.savepoint name) = plan_savepoint name frames
plan_frames frames (TxnCmd.release name) = plan_release name frames (up_to_savepoint name frames)
plan_frames frames (TxnCmd.rollback_to name) =
    plan_rollback_to name frames (up_to_savepoint name frames)

unfoldable pub plan : TxnState → TxnCmd → List Statement × TxnState
plan state cmd =
    let (sql, frames) = plan_frames state.frames cmd in (sql, record state { frames = frames })
