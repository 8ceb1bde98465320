-- ===== src/Txn/Classify/RoundTrip.antt =====
-- What `plan` prints is classified as the command that it was printed for, noise before it or not.
use plex_postgresql.Prelude.{
  ℕ, true, false, [], ◌∷◌, ◌++◌, some, all, map, ◌≡◌, refl, sym, ◌∙◌, subst,
}
use plex_postgresql.Prelude.Bytes.{Bytes, codes, beq, ascii_lower}
use plex_postgresql.Txn.Plan.{TxnCmd, Statement, text}
use plex_postgresql.Txn.Classify.{
  is_whitespace, is_semicolon, is_name_char, is_name, strip_noise, strip_leading_noise, trim,
  trim_start, trim_end, split_from, split_whitespace, savepoint_name, classify_words, classify_sql,
}
use plex_postgresql.Txn.Classify.Words.{trim-append_name, split_from-name, savepoint_name_lem}

-- The command that a statement is printed for.
abbrev pub command : Statement → TxnCmd
command Statement.begin = TxnCmd.begin
command Statement.commit = TxnCmd.commit
command Statement.rollback = TxnCmd.rollback
command (Statement.savepoint name) = TxnCmd.savepoint name
command (Statement.release name) = TxnCmd.release name
command (Statement.rollback_to name) = TxnCmd.rollback_to name

abbrev pub HasName : Statement → Type 0
HasName (Statement.savepoint name) = is_name name ≡ true
HasName (Statement.release name) = is_name name ≡ true
HasName (Statement.rollback_to name) = is_name name ≡ true
HasName _ = Unit

-- The words of a text are classified, once the noise and the trims leave it as it is.
words_of :
    (s : Bytes)
    → strip_leading_noise s ≡ s
    → trim (trim_end is_semicolon (trim s)) ≡ s
    → classify_sql s
      ≡ classify_words (split_whitespace s) (map (map ascii_lower) (split_whitespace s))
unfolding classify_sql
words_of s quiet trimmed = rw (quiet, trimmed) refl

named_text :
    (st : Statement) (c : ℕ) (n : Bytes) (x : ℕ) (xs : Bytes)
    → text st ≡ x ∷ xs ++ c ∷ n
    → strip_leading_noise (x ∷ xs ++ c ∷ n) ≡ x ∷ xs ++ c ∷ n
    → is_whitespace x ≡ false
    → all is_name_char (c ∷ n) ≡ true
    → classify_words
        (split_whitespace (x ∷ xs ++ c ∷ n))
        (map (map ascii_lower) (split_whitespace (x ∷ xs ++ c ∷ n)))
      ≡ some (command st)
    → classify_sql (text st) ≡ some (command st)
named_text st c n x xs e quiet start name words =
    subst (λ s. classify_sql s ≡ some (command st)) (sym e)
      (words_of _ quiet (trim-append_name x xs c n start name) ∙ words)

-- A statement that `plan` prints is classified as its command again, if its name, where it has one,
-- is one that a savepoint may have.
pub classify_sql-text : (st : Statement) → HasName st → classify_sql (text st) ≡ some (command st)
unfolding text classify_sql strip_leading_noise strip_noise trim trim_start trim_end is_whitespace
    split_whitespace split_from ascii_lower beq savepoint_name
classify_sql-text Statement.begin h = refl
classify_sql-text Statement.commit h = refl
classify_sql-text Statement.rollback h = refl
classify_sql-text (Statement.savepoint []) h = cc
classify_sql-text (Statement.savepoint (c ∷ n)) h =
    named_text (Statement.savepoint (c ∷ n)) c n b'S' (codes "AVEPOINT ") refl refl refl h
      (rw (split_from-name (c ∷ n) h, savepoint_name_lem c n h) refl)
classify_sql-text (Statement.release []) h = cc
classify_sql-text (Statement.release (c ∷ n)) h =
    named_text (Statement.release (c ∷ n)) c n b'R' (codes "ELEASE SAVEPOINT ") refl refl refl h
      (rw (split_from-name (c ∷ n) h, savepoint_name_lem c n h) refl)
classify_sql-text (Statement.rollback_to []) h = cc
classify_sql-text (Statement.rollback_to (c ∷ n)) h =
    named_text (Statement.rollback_to (c ∷ n)) c n b'R' (codes "OLLBACK TO SAVEPOINT ") refl refl
      refl h (rw (split_from-name (c ∷ n) h, savepoint_name_lem c n h) refl)
