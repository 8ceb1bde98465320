-- ===== src/Txn/Brackets.antt =====
-- Opening and closing commands of `plan` undo one another.
use plex_postgresql.Prelude.{true, false, List, [], ◌∷◌, ◌≡◌, refl}
use plex_postgresql.Prelude.Bytes.{Bytes, beq_self}
use plex_postgresql.Txn.Plan.{TxnCmd, Frame, outer, nested_begin, up_to_savepoint, plan_frames}

-- A stack that the release of an implicit transaction's last savepoint would leave.
abbrev pub IsBare : List Frame → Type 0
IsBare (outer false ∷ []) = Unit
IsBare _ = ⊥

-- COMMIT and ROLLBACK undo a BEGIN, and RELEASE a SAVEPOINT of its name, at every depth: the frames
-- are those before the pair. (An implicit transaction without its savepoint does not occur.)
pub plan_frames-brackets :
    (fs : List Frame) (name : Bytes)
    → ¬ IsBare fs
    → ((plan_frames (plan_frames fs TxnCmd.begin).1 TxnCmd.commit).1 ≡ fs)
      × ((plan_frames (plan_frames fs TxnCmd.begin).1 TxnCmd.rollback).1 ≡ fs)
      × ((plan_frames (plan_frames fs (TxnCmd.savepoint name)).1 (TxnCmd.release name)).1 ≡ fs)
unfolding plan_frames up_to_savepoint
plan_frames-brackets [] name h = (refl, refl, rw (beq_self name))
plan_frames-brackets (outer false ∷ []) name h = absurd (h tt)
plan_frames-brackets (outer true ∷ []) name h = (refl, refl, rw (beq_self name))
plan_frames-brackets (outer true ∷ f ∷ fs) name h = (refl, refl, rw (beq_self name))
plan_frames-brackets (outer false ∷ f ∷ fs) name h = (refl, refl, rw (beq_self name))
plan_frames-brackets (Frame.savepoint n ∷ fs) name h = (refl, refl, rw (beq_self name))
plan_frames-brackets (nested_begin n ∷ fs) name h = (refl, refl, rw (beq_self name))
