-- ===== src/Preprocess/Statements.antt =====
-- keywords/preprocess.rs: the rewrites that look at one statement after the other.
use plex_postgresql.Prelude.{
  ℕ, ◌-◌, Bool, false, ◌&&◌, ◌||◌, List, [], ◌∷◌, ◌++◌, Option, none, some, if◌then◌else◌, ◌==◌,
  drop, length,
}
use plex_postgresql.Prelude.Bytes.{Bytes, codes, beq, contains, starts_with, strip_prefix}
use plex_postgresql.Preprocess.{to_ascii_lowercase, is_nil, join}
use plex_postgresql.Preprocess.Split.{split_sql_statements}
use plex_postgresql.Txn.Classify.{is_whitespace, trim, trim_start}

-- `for stmt in split_sql_statements(sql)`, without the statements that are empty.
unfoldable pub each : (Bytes → Bytes) → List Bytes → List Bytes
each f [] = []
each f (stmt ∷ stmts) =
    let rest = each f stmts in if is_nil (trim stmt) then rest else f (trim stmt) ∷ rest

unfoldable pub rewrite_each : (Bytes → Bytes) → Bytes → Bytes
rewrite_each f sql = join (codes "; ") (each f (split_sql_statements sql))

unfoldable pub utility_stmt : Bytes → Bytes
utility_stmt t =
    let lower = to_ascii_lowercase t in
    if starts_with (codes "explain query plan ") lower
    then codes "EXPLAIN " ++ trim (drop 19 t)
    else if beq lower (codes "vacuum") || starts_with (codes "vacuum ") lower
    then codes "SELECT 1"
    else if beq lower (codes "reindex") || starts_with (codes "reindex ") lower
    then codes "SELECT 1"
    else if starts_with (codes "attach database ") lower
        || starts_with (codes "detach database ") lower
    then codes "SELECT 1"
    else if starts_with (codes "analyze sqlite_") lower
        || (starts_with (codes "analyze main.sqlite_") lower
            || starts_with (codes "analyze temp.sqlite_") lower)
    then codes "SELECT 1"
    else t

unfoldable pub rewrite_sqlite_utility_statements : Bytes → Bytes
rewrite_sqlite_utility_statements sql = rewrite_each utility_stmt sql

-- `split_once`, of which only what follows the separator is used.
unfoldable pub after_first : Bytes → Bytes → Option Bytes
after_first sep [] = strip_prefix sep []
after_first sep (c ∷ s) =
    let later = after_first sep s in
    elim (strip_prefix sep (c ∷ s)) [ none ↦ later | some rest ↦ some rest ]

abbrev pub algos : List Bytes
algos = codes "ignore" ∷ codes "replace" ∷ codes "rollback" ∷ codes "abort" ∷ codes "fail" ∷ []

-- What stands behind the first of the words that the text starts with, in any case.
unfoldable pub after_word : List Bytes → Bytes → Option Bytes
after_word [] tail = none
after_word (w ∷ ws) tail =
    let later = after_word ws tail in
    if starts_with w (to_ascii_lowercase tail) then some (drop (length w) tail) else later

abbrev pub insert_into : Bytes → Option Bytes → Option Bytes → Bytes
insert_into t (some rest) lower = codes "INSERT INTO " ++ trim_start is_whitespace rest
insert_into t none (some rest) = codes "INSERT INTO " ++ trim_start is_whitespace rest
insert_into t none none = t

abbrev pub conflict_insert : Bytes → Bytes
conflict_insert t =
    let lower = to_ascii_lowercase t in
    if starts_with (codes "insert or abort into ") lower
      || (starts_with (codes "insert or fail into ") lower
          || starts_with (codes "insert or rollback into ") lower)
    then insert_into t (after_first (codes "INTO ") t) (after_first (codes "into ") t)
    else t

abbrev pub conflict_update : Bytes → Option Bytes → Bytes
conflict_update t (some rest) = codes "UPDATE " ++ trim_start is_whitespace rest
conflict_update t none = conflict_insert t

unfoldable pub or_conflict_stmt : Bytes → Bytes
or_conflict_stmt t =
    if starts_with (codes "update or ") (to_ascii_lowercase t)
    then conflict_update t (after_word algos (trim_start is_whitespace (drop 10 t)))
    else conflict_insert t

unfoldable pub rewrite_or_conflict_prefix_statements : Bytes → Bytes
rewrite_or_conflict_prefix_statements sql = rewrite_each or_conflict_stmt sql

-- The patterns of `rewrite_transaction_control_statements` that are looked for anywhere in a statement,
-- each with what replaces it.
abbrev pub control_patterns : List (Bytes × Bytes)
control_patterns =
    (codes "rollback transaction to savepoint ", codes "ROLLBACK TO SAVEPOINT ")
    ∷ (codes "rollback transaction to ", codes "ROLLBACK TO SAVEPOINT ")
    ∷ (codes "rollback to savepoint ", codes "ROLLBACK TO SAVEPOINT ")
    ∷ (codes "rollback to ", codes "ROLLBACK TO SAVEPOINT ")
    ∷ (codes "release savepoint ", codes "RELEASE SAVEPOINT ")
    ∷ (codes "release ", codes "RELEASE SAVEPOINT ")
    ∷ (codes "savepoint ", codes "SAVEPOINT ")
    ∷ []

abbrev pub control_found : Bytes → Bytes → Option Bytes → Bytes → Bytes
control_found t text none other = other
control_found t text (some rest) other = text ++ trim (drop (length t - length rest) t)

unfoldable pub control_pattern : List (Bytes × Bytes) → Bytes → Bytes
control_pattern [] t = t
control_pattern ((pat, text) ∷ ps) t =
    control_found t text (after_first pat (to_ascii_lowercase t)) (control_pattern ps t)

unfoldable pub transaction_control_stmt : Bytes → Bytes
transaction_control_stmt t =
    let lower = to_ascii_lowercase t in
    if starts_with (codes "begin immediate") lower
      || (starts_with (codes "begin deferred") lower
          || (starts_with (codes "begin exclusive") lower
              || (starts_with (codes "begin transaction") lower || beq lower (codes "begin"))))
    then codes "BEGIN"
    else if beq lower (codes "end")
        || (starts_with (codes "end transaction") lower
            || starts_with (codes "commit transaction") lower)
    then codes "COMMIT"
    else control_pattern control_patterns t

unfoldable pub rewrite_transaction_control_statements : Bytes → Bytes
rewrite_transaction_control_statements sql = rewrite_each transaction_control_stmt sql

-- The characters before a quoted or bracketed name: a double quote, a quote, a backtick, a bracket.
abbrev pub opens_name : ℕ → Bool
opens_name c = c == 34 || (c == 39 || (c == 96 || c == 91))

abbrev pub ends_token : ℕ → Bool
ends_token c = is_whitespace c || (c == 40 || (c == 59 || c == 44))

unfoldable pub token_before : (ℕ → Bool) → Bytes → Bytes
token_before stop [] = []
token_before stop (c ∷ s) = if stop c then [] else c ∷ token_before stop s

abbrev pub unqualified : Bytes → Option Bytes → Bytes
unqualified name none = name
unqualified name (some tail) = trim_start opens_name tail

unfoldable pub names_fts_object : Bytes → Bool
names_fts_object rest =
    let name = trim_start opens_name (token_before ends_token rest) in
    starts_with (codes "fts4_") (unqualified name (after_first (codes ".") name))

abbrev pub or_text : Bytes → Option Bytes → Bytes
or_text s none = s
or_text s (some rest) = rest

-- An object of the index is named behind the words, and behind an IF.
abbrev pub names_behind : Bytes → Option Bytes → Bool
names_behind opt none = false
names_behind opt (some rest) =
    let name = trim_start is_whitespace rest in
    names_fts_object (trim_start is_whitespace (or_text name (strip_prefix opt name)))

unfoldable pub is_fts_index_rebuild : Bytes → Bool
is_fts_index_rebuild stmt =
    let lower = to_ascii_lowercase stmt in
    (starts_with (codes "create virtual table ") lower && contains (codes " using fts4") lower)
    || (names_behind (codes "if exists ") (strip_prefix (codes "drop table ") lower)
        || (names_behind (codes "if exists ") (strip_prefix (codes "drop trigger ") lower)
            || names_behind (codes "if not exists ")
                (strip_prefix (codes "create trigger ") lower)))

unfoldable pub fts_stmt : Bytes → Bytes
fts_stmt t = if is_fts_index_rebuild t then codes "SELECT 1" else t

unfoldable pub rewrite_fts_index_rebuild : Bytes → Bytes
rewrite_fts_index_rebuild sql =
    if is_fts_index_rebuild (trim sql) then codes "SELECT 1" else rewrite_each fts_stmt sql
