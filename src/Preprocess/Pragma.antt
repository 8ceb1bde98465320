-- ===== src/Preprocess/Pragma.antt =====
-- keywords/preprocess.rs: PRAGMA statements, which are answered by a SELECT. `strict` is the answer of
-- `pragma_strict_mode_enabled`; the counters and the trace are left out.
-- The source takes the first six bytes of a statement to compare them, which panics where a character of
-- several bytes stands across the sixth; characters are counted here, and that panic is left out.
pub mod Answers
mod Tests
use Prim.Native.String.{String}
use plex_postgresql.Prelude.{
  ℕ, zero, suc, ◌+◌, ◌-◌, ◌*◌, ◌^◌, Bool, true, false, not, ◌&&◌, ◌||◌, List, [], ◌∷◌, ◌++◌, Option,
  none, some, if◌then◌else◌, ◌==◌, leb, ltb, length, drop, take, all,
}
use plex_postgresql.Prelude.Bytes.{Bytes, codes, beq, ends_with, starts_with, is_digit}
use plex_postgresql.Prelude.Decimal.{decimal}
use plex_postgresql.Preprocess.{to_ascii_lowercase, is_nil, join}
use plex_postgresql.Preprocess.Split.{split_sql_statements}
use plex_postgresql.Txn.Classify.{is_whitespace, trim, trim_start, trim_end}

-- `trim_matches`.
abbrev pub trim_matches : ℕ → Bytes → Bytes
trim_matches c s = trim_end (λ d. d == c) (trim_start (λ d. d == c) s)

-- What stands behind the last separator.
unfoldable pub after_last : ℕ → Bytes → Option Bytes
after_last sep [] = none
after_last sep (c ∷ s) =
    let later = after_last sep s in
    elim later [ some rest ↦ some rest | none ↦ if c == sep then some s else none ]

unfoldable pub split_at_first : ℕ → Bytes → Option (Bytes × Bytes)
split_at_first sep [] = none
split_at_first sep (c ∷ s) =
    let later = split_at_first sep s in
    if c == sep
    then some ([], s)
    else elim later [ none ↦ none | some (before, behind) ↦ some (c ∷ before, behind) ]

-- A name, and the value if the statement sets one.
abbrev pub Assignment : Type 0
Assignment = Bytes × Option Bytes

-- `name(value)`.
abbrev pub call_form : Bytes → Option (Bytes × Bytes) → Assignment
call_form body none = (trim body, none)
call_form body (some (before, behind)) =
    if ends_with (codes ")") body && not (is_nil behind)
    then (trim before, some (trim (take (length behind - 1) behind)))
    else (trim body, none)

abbrev pub assignment_of : Bytes → Option (Bytes × Bytes) → Assignment
assignment_of body (some (lhs, rhs)) = (trim lhs, some (trim rhs))
assignment_of body none = call_form body (split_at_first 40 body)

-- `parse::<i64>()`: the sign and the size, within the bounds.
unfoldable pub digits_from : ℕ → Bytes → Option ℕ
digits_from n [] = some n
digits_from n (c ∷ s) =
    let rest = digits_from (n * 10 + (c - 48)) s in if is_digit c then rest else none

abbrev pub in_range : Bool → Option ℕ → Option (Bool × ℕ)
in_range negative none = none
in_range negative (some n) =
    if leb n (if negative then 2 ^ 63 else 2 ^ 63 - 1) then some (negative, n) else none

abbrev pub digits_of : Bytes → Option ℕ
digits_of s = if is_nil s then none else digits_from 0 s

unfoldable pub parse_i64 : Bytes → Option (Bool × ℕ)
parse_i64 [] = none
parse_i64 (c ∷ s) =
    if c == 45
    then in_range true (digits_of s)
    else if c == 43
    then in_range false (digits_of s)
    else in_range false (digits_of (c ∷ s))

pub data Outcome : Type 0 where
  noop_set mapped_set mapped_read strict_fail stripped : Outcome

-- The text, the outcome, and the flag of `set_case_sensitive_like` when it is called.
pub record Mapped : Type 0 where
  pub text : Bytes
  pub outcome : Outcome
  pub case_sensitive_like : Option Bool

abbrev pub mapped_to : Outcome → Bytes → Mapped
mapped_to outcome text = record { text = text; outcome = outcome; case_sensitive_like = none }

-- Which values a setting takes: words, each with what it is called, or numbers.
pub data Values : Type 0 where
  words : List (Bytes × Bytes) → Values
  numbers : Values

pub record Setting : Type 0 where
  pub config : Bytes
  pub values : Values
  pub reads : Bytes

-- The name of a value, empty when the setting does not take it.
unfoldable pub pick : List (Bytes × Bytes) → Bytes → Bytes
pick [] v = []
pick ((word, name) ∷ rest) v = let later = pick rest v in if beq word v then name else later

abbrev pub if_number : Bytes → Option (Bool × ℕ) → Bytes
if_number v none = []
if_number v (some n) = v

unfoldable pub chosen_value : Values → Bytes → Bytes
chosen_value (words table) v = pick table v
chosen_value numbers v = if_number v (parse_i64 v)

abbrev pub setting : String → Values → String → Setting
setting config values reads = record { config = codes config; values = values; reads = codes reads }

abbrev pub itself : String → Bytes × Bytes
itself w = (codes w, codes w)

abbrev pub called : String → String → Bytes × Bytes
called w n = (codes w, codes n)

-- The settings with their names.
abbrev pub settings : List (Bytes × Setting)
settings =
    (
      codes "journal_mode",
      setting "plex.sqlite.journal_mode"
          (words (
            itself "delete"
            ∷ itself "truncate"
            ∷ itself "persist"
            ∷ itself "memory"
            ∷ itself "wal"
            ∷ itself "off"
            ∷ []))
          "SELECT COALESCE(current_setting('plex.sqlite.journal_mode', true), 'wal') AS journal_mode",
    )
    ∷ (
      codes "synchronous",
      setting "synchronous_commit"
          (words (
            called "0" "off"
            ∷ itself "off"
            ∷ called "1" "on"
            ∷ called "normal" "on"
            ∷ called "2" "on"
            ∷ called "full" "on"
            ∷ called "3" "on"
            ∷ called "extra" "on"
            ∷ itself "on"
            ∷ []))
          "SELECT current_setting('synchronous_commit') AS synchronous",
    )
    ∷ (
      codes "temp_store",
      setting "plex.sqlite.temp_store"
          (words (
            called "0" "default"
            ∷ itself "default"
            ∷ called "1" "file"
            ∷ itself "file"
            ∷ called "2" "memory"
            ∷ itself "memory"
            ∷ []))
          "SELECT COALESCE(current_setting('plex.sqlite.temp_store', true), 'memory') AS temp_store",
    )
    ∷ (
      codes "cache_size",
      setting "plex.sqlite.cache_size" numbers
          "SELECT COALESCE(current_setting('plex.sqlite.cache_size', true), '-2000') AS cache_size",
    )
    ∷ (
      codes "page_size",
      setting "plex.sqlite.page_size" numbers
          "SELECT COALESCE(current_setting('plex.sqlite.page_size', true), '4096') AS page_size",
    )
    ∷ (
      codes "auto_vacuum",
      setting "plex.sqlite.auto_vacuum"
          (words (
            called "0" "none"
            ∷ itself "none"
            ∷ called "1" "full"
            ∷ itself "full"
            ∷ called "2" "incremental"
            ∷ itself "incremental"
            ∷ []))
          "SELECT COALESCE(current_setting('plex.sqlite.auto_vacuum', true), 'none') AS auto_vacuum",
    )
    ∷ (
      codes "locking_mode",
      setting "plex.sqlite.locking_mode" (words (itself "normal" ∷ itself "exclusive" ∷ []))
          "SELECT COALESCE(current_setting('plex.sqlite.locking_mode', true), 'normal') AS locking_mode",
    )
    ∷ (
      codes "wal_autocheckpoint",
      setting "plex.sqlite.wal_autocheckpoint" numbers
          "SELECT COALESCE(current_setting('plex.sqlite.wal_autocheckpoint', true), '1000') AS wal_autocheckpoint",
    )
    ∷ (
      codes "mmap_size",
      setting "plex.sqlite.mmap_size" numbers
          "SELECT COALESCE(current_setting('plex.sqlite.mmap_size', true), '0') AS mmap_size",
    )
    ∷ []

unfoldable pub setting_named : List (Bytes × Setting) → Bytes → Option Setting
setting_named [] name = none
setting_named ((n, s) ∷ rest) name =
    let later = setting_named rest name in if beq n name then some s else later

unfoldable pub set_config : Bytes → Bytes → Bytes
set_config config value =
    codes "SELECT set_config('" ++ (config ++ (codes "', '" ++ (value ++ codes "', true)")))

abbrev pub nothing_set : Mapped
nothing_set = mapped_to noop_set (codes "SELECT 1")

abbrev pub configured : Bytes → Bytes → Mapped
configured config [] = nothing_set
configured config (c ∷ value) = mapped_to mapped_set (set_config config (c ∷ value))

-- What a quoted value says.
unfoldable pub normalized : Bytes → Bytes
normalized v = to_ascii_lowercase (trim (trim_matches 34 (trim_matches 39 v)))

abbrev pub unknown : Bool → Mapped
unknown strict =
    if strict
    then mapped_to strict_fail (codes "__STRICT_PRAGMA_ERROR__")
    else mapped_to stripped []

abbrev pub is_on : Bytes → Bool
is_on v = beq v (codes "1") || (beq v (codes "true") || (beq v (codes "yes") || beq v (codes "on")))

-- The milliseconds of a busy timeout, not below 0.
abbrev pub timeout : Option (Bool × ℕ) → Mapped
timeout none = nothing_set
timeout (some (negative, n)) =
    mapped_to mapped_set
      (set_config (codes "lock_timeout") (decimal (if negative then 0 else n) ++ codes "ms"))

abbrev pub set_setting : Bool → Bytes → Option Setting → Mapped
set_setting strict value (some s) = configured s.config (chosen_value s.values (normalized value))
set_setting strict value none = unknown strict

abbrev pub read_setting : Bool → Option Setting → Mapped
read_setting strict (some s) = mapped_to mapped_read s.reads
read_setting strict none = unknown strict

-- The names that are answered the same way with and without a value.
unfoldable pub answered : Bytes → Option Mapped
answered name =
    if beq name (codes "integrity_check")
    then some (mapped_to mapped_read (codes "SELECT 'ok' AS integrity_check"))
    else if beq name (codes "quick_check")
    then some (mapped_to mapped_read (codes "SELECT 'ok' AS quick_check"))
    else if beq name (codes "optimize")
    then some (mapped_to mapped_read (codes "SELECT 1 AS optimize"))
    else if beq name (codes "wal_checkpoint")
    then some (mapped_to mapped_read (codes "SELECT 0 AS busy, 0 AS log, 0 AS checkpointed"))
    else none

unfoldable pub map_set : Bool → Bytes → Bytes → Mapped
map_set strict name value =
    if beq name (codes "foreign_keys")
    then nothing_set
    else if beq name (codes "case_sensitive_like")
    then record nothing_set { case_sensitive_like = some (is_on (normalized value)) }
    else if beq name (codes "busy_timeout")
    then timeout (parse_i64 (trim (trim_matches 34 (trim_matches 39 value))))
    else set_setting strict value (setting_named settings name)

unfoldable pub map_read : Bool → Bytes → Mapped
map_read strict name =
    if beq name (codes "foreign_keys")
    then mapped_to mapped_read (codes "SELECT 1 AS foreign_keys")
    else if beq name (codes "case_sensitive_like")
    then mapped_to mapped_read (codes "SELECT 0 AS case_sensitive_like")
    else if beq name (codes "busy_timeout")
    then mapped_to mapped_read (codes "SELECT current_setting('lock_timeout') AS busy_timeout")
    else read_setting strict (setting_named settings name)

abbrev pub by_value : Bool → Bytes → Option Bytes → Mapped
by_value strict name (some value) = map_set strict name value
by_value strict name none = map_read strict name

abbrev pub or_answer : Mapped → Option Mapped → Mapped
or_answer m none = m
or_answer m (some answer) = answer

unfoldable pub map_pragma : Bool → Bytes → Option Bytes → Mapped
map_pragma strict name value = or_answer (by_value strict name value) (answered name)

abbrev pub pragma_name : Bytes → Bytes
pragma_name raw = to_ascii_lowercase (trim_matches 34 (trim_matches 96 raw))

abbrev pub map_assignment : Bool → Assignment → Option Mapped
map_assignment strict (raw, value) =
    if is_nil raw then none else some (map_pragma strict (pragma_name raw) value)

-- The body without the name of a schema.
abbrev pub unqualified_body : Bytes → Option Bytes → Bytes
unqualified_body body none = body
unqualified_body body (some rest) = trim rest

abbrev pub is_pragma : Bytes → Bool
is_pragma t = starts_with (codes "pragma") (to_ascii_lowercase t)

abbrev pub map_body : Bool → Bytes → Option Mapped
map_body strict body = map_assignment strict (assignment_of body (split_at_first 61 body))

unfoldable pub rewrite_single_pragma_stmt : Bool → Bytes → Option Mapped
rewrite_single_pragma_stmt strict stmt =
    let body = trim (drop 6 (trim stmt)) in
    if not (is_pragma (trim stmt)) || is_nil body
    then none
    else map_body strict (unqualified_body body (after_last 46 body))

-- The statement of an answer that is not blank, in front of the rest.
abbrev pub push_mapped : Option Mapped → List Bytes → List Bytes
push_mapped none out = out
push_mapped (some m) out = if is_nil (trim m.text) then out else m.text ∷ out

unfoldable pub each_pragma : Bool → List Bytes → List Bytes
each_pragma strict [] = []
each_pragma strict (stmt ∷ stmts) =
    let rest = each_pragma strict stmts in
    if is_pragma (trim stmt)
    then push_mapped (rewrite_single_pragma_stmt strict (trim stmt)) rest
    else if is_nil (trim stmt)
    then rest
    else trim stmt ∷ rest

unfoldable pub rewrite_pragma_statements : Bool → Bytes → Bytes
rewrite_pragma_statements strict sql =
    join (codes "; ") (each_pragma strict (split_sql_statements sql))
