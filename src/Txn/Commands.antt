-- ===== src/Txn/Commands.antt =====
-- What `plan` keeps: the stack stays well formed, the shim's savepoint names are foreign to Plex's,
-- and every statement is a C string.
use mathlib.Core.List.{map-append}
use plex_postgresql.Prelude.{
  ℕ, true, false, List, [], ◌∷◌, ◌++◌, ◌≡◌, refl, arith, inl, inr, Option-cases, ap, ◌∙◌, All, all,
  ◌<◌, length,
}
use plex_postgresql.Prelude.Bytes.{Bytes, ascii_lower, starts_with-append, has_nul}
use plex_postgresql.Prelude.Decimal.{IsDigit, decimal, decimal-IsDigit, decimal-length}
use plex_postgresql.Txn.Plan.{
  TxnCmd, Frame, outer, nested_begin, Statement, text, nested_prefix, nested_name, up_to_savepoint,
  plan_frames, after_release,
}
use plex_postgresql.Txn.Server.{fold, is_identifier, is_word_byte}
use plex_postgresql.Txn.Stack.{
  IsUserName, IsNestedName, IsOpenStack, IsStack, up_to_savepoint-Found,
}

fold_digits : (s : Bytes) → All IsDigit s → fold s ≡ s
unfolding fold ascii_lower
fold_digits [] h = refl
fold_digits (c ∷ s) h = ground (arith, fold_digits s h.1)

digits_printable : (s : Bytes) → All IsDigit s → has_nul s ≡ false
digits_printable [] h = refl
digits_printable (c ∷ s) h = ground (arith, digits_printable s h.1)

pub nested_name-IsNestedName : (depth : ℕ) → IsNestedName (nested_name depth)
unfolding nested_name
nested_name-IsNestedName depth = record {
  folded =
      unfold fold ascii_lower in
      map-append ascii_lower nested_prefix (decimal depth)
      ∙ ap (◌++◌ nested_prefix) (fold_digits (decimal depth) (decimal-IsDigit depth));
  own = starts_with-append nested_prefix (decimal depth);
  printable = digits_printable (decimal depth) (decimal-IsDigit depth);
}

digits_identify : (s : Bytes) → All IsDigit s → all is_word_byte s ≡ true
digits_identify [] h = refl
digits_identify (c ∷ s) h = ground (arith, digits_identify s h.1)

-- Less than 10^9 levels deep, a nested BEGIN has a name that fits.
pub nested_name-identifier :
    (depth : ℕ) → depth < 1000000000 → is_identifier (nested_name depth) ≡ true
unfolding nested_name
nested_name-identifier depth h =
    let digits = digits_identify (decimal depth) (decimal-IsDigit depth) in
    let fits = decimal-length 8 depth h in ground (arith, digits, fits)

-- The names that a command of Plex may give.
abbrev pub IsUserCmd : TxnCmd → Type 0
IsUserCmd (TxnCmd.savepoint name) = IsUserName name
IsUserCmd (TxnCmd.release name) = IsUserName name
IsUserCmd (TxnCmd.rollback_to name) = IsUserName name
IsUserCmd _ = Unit

-- What a SAVEPOINT takes to be accepted as it is written: a name that is a word, which the name of a nested
-- BEGIN is, less than 10^9 levels deep.
abbrev pub IsWritten : List Frame → TxnCmd → Type 0
IsWritten frames (TxnCmd.savepoint name) = is_identifier name ≡ true
IsWritten frames TxnCmd.begin = length frames < 1000000000
IsWritten _ _ = Unit

-- A statement is sent: its text is a C string.
abbrev pub IsSent : Statement → Type 0
IsSent c = has_nul (text c) ≡ false

after_release-IsSent :
    (name : Bytes) (frames : List Frame)
    → has_nul name ≡ false
    → All IsSent (after_release name frames).0
after_release-IsSent name [] h = (unfold text in h, tt)
after_release-IsSent name (outer true ∷ fs) h = (unfold text in h, tt)
after_release-IsSent name (outer false ∷ []) h = (unfold text in h, (unfold text in refl, tt))
after_release-IsSent name (outer false ∷ g ∷ fs) h = (unfold text in h, tt)
after_release-IsSent name (Frame.savepoint n ∷ fs) h = (unfold text in h, tt)
after_release-IsSent name (nested_begin n ∷ fs) h = (unfold text in h, tt)

-- Every statement of a plan is sent.
pub plan_frames-IsSent :
    (frames : List Frame) (cmd : TxnCmd)
    → IsStack frames
    → IsUserCmd cmd
    → All IsSent (plan_frames frames cmd).0
unfolding plan_frames text
plan_frames-IsSent [] TxnCmd.begin s u = (refl, tt)
plan_frames-IsSent (f ∷ fs) TxnCmd.begin s u = ((nested_name-IsNestedName _).printable, tt)
plan_frames-IsSent [] TxnCmd.commit s u = tt
plan_frames-IsSent (outer e ∷ fs) TxnCmd.commit s u = (refl, tt)
plan_frames-IsSent (Frame.savepoint n ∷ fs) TxnCmd.commit s u = (refl, tt)
plan_frames-IsSent (nested_begin n ∷ fs) TxnCmd.commit s u = (s.0.printable, tt)
plan_frames-IsSent [] TxnCmd.rollback s u = tt
plan_frames-IsSent (outer e ∷ fs) TxnCmd.rollback s u = (refl, tt)
plan_frames-IsSent (Frame.savepoint n ∷ fs) TxnCmd.rollback s u = (refl, tt)
plan_frames-IsSent (nested_begin n ∷ fs) TxnCmd.rollback s u = (s.0.printable, (s.0.printable, tt))
plan_frames-IsSent [] (TxnCmd.savepoint name) s u = (refl, (u.printable, tt))
plan_frames-IsSent (f ∷ fs) (TxnCmd.savepoint name) s u = (u.printable, tt)
plan_frames-IsSent frames (TxnCmd.release name) s u =
    elim (Option-cases (up_to_savepoint name frames)) [
      | inl none_found ↦ rw none_found tt
      | inr (found, e) ↦
          let f = up_to_savepoint-Found name frames found u s e in
          rw (e, f.head) (after_release-IsSent name f.below u.printable)
    ]
plan_frames-IsSent frames (TxnCmd.rollback_to name) s u =
    elim (Option-cases (up_to_savepoint name frames)) [
      | inl none_found ↦ rw none_found tt
      | inr (found, e) ↦ rw e (u.printable, tt)
    ]

after_release-IsStack :
    (name : Bytes) (frames : List Frame)
    → IsOpenStack frames
    → IsStack (after_release name frames).1
after_release-IsStack name [] s = elim s [ ]
after_release-IsStack name (outer true ∷ []) s = s
after_release-IsStack name (outer false ∷ []) s = tt
after_release-IsStack name (outer e ∷ g ∷ fs) s = absurd s
after_release-IsStack name (Frame.savepoint n ∷ fs) s = s
after_release-IsStack name (nested_begin n ∷ fs) s = s

IsStack-of_open : (frames : List Frame) → IsOpenStack frames → IsStack frames
IsStack-of_open [] s = elim s [ ]
IsStack-of_open (f ∷ fs) s = s

-- The commands keep the stack well formed.
pub plan_frames-IsStack :
    (frames : List Frame) (cmd : TxnCmd)
    → IsStack frames
    → IsUserCmd cmd
    → IsStack (plan_frames frames cmd).1
unfolding plan_frames
plan_frames-IsStack [] TxnCmd.begin s u = tt
plan_frames-IsStack (f ∷ fs) TxnCmd.begin s u = (nested_name-IsNestedName _, s)
plan_frames-IsStack [] TxnCmd.commit s u = tt
plan_frames-IsStack (outer e ∷ fs) TxnCmd.commit s u = tt
plan_frames-IsStack (Frame.savepoint n ∷ fs) TxnCmd.commit s u = tt
plan_frames-IsStack (nested_begin n ∷ fs) TxnCmd.commit s u = IsStack-of_open fs s.1
plan_frames-IsStack [] TxnCmd.rollback s u = tt
plan_frames-IsStack (outer e ∷ fs) TxnCmd.rollback s u = tt
plan_frames-IsStack (Frame.savepoint n ∷ fs) TxnCmd.rollback s u = tt
plan_frames-IsStack (nested_begin n ∷ fs) TxnCmd.rollback s u = IsStack-of_open fs s.1
plan_frames-IsStack [] (TxnCmd.savepoint name) s u = (u, tt)
plan_frames-IsStack (f ∷ fs) (TxnCmd.savepoint name) s u = (u, s)
plan_frames-IsStack frames (TxnCmd.release name) s u =
    elim (Option-cases (up_to_savepoint name frames)) [
      | inl none_found ↦ rw none_found s
      | inr (found, e) ↦
          let f = up_to_savepoint-Found name frames found u s e in
          rw (e, f.head) (after_release-IsStack name f.below f.stack)
    ]
plan_frames-IsStack frames (TxnCmd.rollback_to name) s u =
    elim (Option-cases (up_to_savepoint name frames)) [
      | inl none_found ↦ rw none_found s
      | inr (found, e) ↦
          let f = up_to_savepoint-Found name frames found u s e in rw (e, f.head) (u, f.stack)
    ]
