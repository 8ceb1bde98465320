-- ===== src/Preprocess/Tests.antt =====
-- Runs of the rewrites, and instances of their theorems.
use plex_postgresql.Prelude.{
  ℕ, ◌+◌, ◌≤◌, ◌<◌, true, false, List, [], ◌∷◌, some, ◌≡◌, refl, arith, length, All,
}
use plex_postgresql.Prelude.Bytes.{
  Bytes, codes, ascii_lower, beq, contains, starts_with, strip_prefix, ends_with,
}
use plex_postgresql.Preprocess.{to_ascii_lowercase, is_ident_char, join, slice}
use plex_postgresql.Preprocess.Split.{
  split_sql_statements, split_csv_top_level, split_loop, act, outside,
}
use plex_postgresql.Preprocess.Split.Toggle.{toggle_loop, split_loop-toggle_loop}
use plex_postgresql.Preprocess.Split.RoundTrip.{IsItem, walk, split_sql_statements-join}
use plex_postgresql.Preprocess.Scan.{
  while_in, top_level_round, find_top_level_keyword_from, starts_with_ascii_icase_at, icase_prefix,
  skip_quoted, skip_line, skip_block, find_matching_paren, find_next_unquoted_char, find_token_end,
  skip_ascii_ws, consume_keyword_ci,
}
use plex_postgresql.Preprocess.Scan.Fuel.{Rounds}
use plex_postgresql.Preprocess.Scan.Keyword.{
  WordAt, find_top_level_keyword-ends, find_top_level_keyword_from-WordAt,
}
use plex_postgresql.Preprocess.Limit.{
  rewrite_update_delete_limit_statements, rewrite_all, rewrite_limit_stmt,
  rewrite_single_update_limit_stmt, rewrite_single_delete_limit_stmt, delete_at, finish, clause,
  limit_part, returning_tail, checked_slice, next_after, target_sel, delete_text,
}
use plex_postgresql.Preprocess.Limit.Safe.{rewrite_update_delete_limit-Returns}
use plex_postgresql.Preprocess.Statements.{
  transaction_control_stmt, control_pattern, after_first, after_word, is_fts_index_rebuild,
  names_fts_object, token_before,
}
use plex_postgresql.Preprocess.Operators.{
  rewrite_in, rewrite_regexp_operator, rewrite_raise_function_calls, raise_end,
  fix_placeholder_spacing, rewrite_trim_calls, rewrite_is_operator, word_end, create_table_stmt,
  strip_create_table_tail_options, strip_create_table_on_conflict_clauses, strip_tail,
}
use plex_postgresql.Preprocess.Operators.Same.{Lacks, rewrites-same}
use plex_postgresql.Preprocess.Quotes.{
  parse_quoted_token, quoted_loop, rewrite_single_index_ddl_identifier_quotes,
  skip_leading_ws_and_sql_comments_offset, leading_offset, is_create_index_stmt, is_drop_index_stmt,
  rewrite_create_index_identifier_quotes_core, rewrite_last_quoted_identifier_token,
  rewrite_identifier_quotes_in_segment, rewrite_index_column_list, rewrite_index_column_item,
  segment_loop, token_start, is_simple_identifier,
}
use plex_postgresql.Preprocess.Quotes.Doubled.{double_quotes, parse_quoted_token-double_quotes}
use plex_postgresql.Txn.Classify.{
  trim, trim_start, trim_end, is_whitespace, split_whitespace, split_from,
}

two_statements_test :
    split_sql_statements (codes "SELECT 'a;''b' ; UPDATE t SET x = \"y;\"")
    ≡ codes "SELECT 'a;''b'" ∷ codes "UPDATE t SET x = \"y;\"" ∷ []
unfolding split_sql_statements split_loop act contains starts_with to_ascii_lowercase ascii_lower
    trim trim_start trim_end is_whitespace
two_statements_test = refl

limit_test :
    rewrite_update_delete_limit_statements (codes "DELETE FROM t WHERE a = ')' ORDER BY b LIMIT 3")
    ≡ some (
        codes
          "WITH _plex_target AS (SELECT ctid FROM t WHERE a = ')' ORDER BY b LIMIT 3) DELETE FROM t WHERE ctid IN (SELECT ctid FROM _plex_target)")
unfolding rewrite_update_delete_limit_statements rewrite_all rewrite_limit_stmt
    rewrite_single_update_limit_stmt rewrite_single_delete_limit_stmt delete_at finish clause
    limit_part returning_tail checked_slice next_after target_sel delete_text slice join
    find_top_level_keyword_from while_in starts_with_ascii_icase_at icase_prefix skip_quoted
    skip_line skip_block is_ident_char split_sql_statements split_loop act contains starts_with
    to_ascii_lowercase ascii_lower trim trim_start trim_end is_whitespace
limit_test = refl

-- A word of a text literal is taken for a command.
literal_test :
    transaction_control_stmt (codes "UPDATE t SET x = 'press release today'")
    ≡ codes "RELEASE SAVEPOINT today'"
unfolding transaction_control_stmt control_pattern after_first strip_prefix starts_with beq
    to_ascii_lowercase ascii_lower trim trim_start trim_end is_whitespace
literal_test = refl

regexp_test :
    rewrite_regexp_operator (codes "a NOT REGEXP 'regexp' or regexp_x REGEXP b")
    ≡ codes "a !~ 'regexp' or regexp_x ~ b"
unfolding rewrite_regexp_operator rewrite_in starts_with_ascii_icase_at icase_prefix skip_quoted
    while_in slice is_ident_char ascii_lower
regexp_test = refl

raise_test :
    rewrite_raise_function_calls (codes "SELECT RAISE(ABORT, 'no)') x") ≡ codes "SELECT NULL x"
unfolding rewrite_raise_function_calls raise_end rewrite_in starts_with_ascii_icase_at icase_prefix
    skip_quoted while_in slice ascii_lower
raise_test = refl

spacing_test : fix_placeholder_spacing (codes "a = ?AND b = '?x'") ≡ codes "a = ? AND b = '?x'"
unfolding fix_placeholder_spacing rewrite_in skip_quoted while_in slice
spacing_test = refl

is_test :
    rewrite_is_operator (codes "a IS NULL and b is not ? and c IS 3")
    ≡ codes "a IS NULL and b IS DISTINCT FROM ? and c IS NOT DISTINCT FROM 3"
unfolding rewrite_is_operator rewrite_in word_end skip_ascii_ws skip_quoted skip_line while_in slice
    starts_with_ascii_icase_at icase_prefix is_ident_char to_ascii_lowercase ascii_lower beq
is_test = refl

table_test :
    create_table_stmt
      (codes "CREATE TABLE t (a INT UNIQUE ON CONFLICT IGNORE, b) WITHOUT ROWID, STRICT")
    ≡ codes "CREATE TABLE t (a INT UNIQUE , b)"
unfolding create_table_stmt strip_create_table_tail_options strip_create_table_on_conflict_clauses
    strip_tail rewrite_in after_word skip_ascii_ws skip_quoted while_in slice
    starts_with_ascii_icase_at icase_prefix starts_with ends_with is_ident_char to_ascii_lowercase
    ascii_lower beq trim trim_start trim_end is_whitespace
table_test = refl

index_test :
    rewrite_single_index_ddl_identifier_quotes
      (codes "CREATE UNIQUE INDEX IF NOT EXISTS 'i' ON `t` ('a' DESC, lower(b))")
    ≡ codes "CREATE UNIQUE INDEX IF NOT EXISTS \"i\" ON \"t\" (\"a\" DESC, lower(b))"
unfolding rewrite_single_index_ddl_identifier_quotes skip_leading_ws_and_sql_comments_offset
    leading_offset is_create_index_stmt is_drop_index_stmt
    rewrite_create_index_identifier_quotes_core rewrite_last_quoted_identifier_token
    rewrite_identifier_quotes_in_segment rewrite_index_column_list rewrite_index_column_item
    segment_loop token_start is_simple_identifier parse_quoted_token quoted_loop join
    split_csv_top_level split_loop act find_top_level_keyword_from find_next_unquoted_char
    find_matching_paren find_token_end consume_keyword_ci skip_ascii_ws skip_line skip_block
    skip_quoted while_in slice starts_with_ascii_icase_at icase_prefix starts_with is_ident_char
    to_ascii_lowercase ascii_lower beq trim trim_start trim_end is_whitespace split_whitespace
    split_from
index_test = refl

fts_test : is_fts_index_rebuild (codes "DROP TABLE IF EXISTS main.'fts4_tag_titles'") ≡ true
unfolding is_fts_index_rebuild names_fts_object token_before after_first contains starts_with
    strip_prefix to_ascii_lowercase ascii_lower trim_start is_whitespace
fts_test = refl

split_loop-toggle_loop_example :
    split_loop 59 false (codes "a'';b") [] outside ≡ toggle_loop 59 false (codes "a'';b") [] outside
split_loop-toggle_loop_example = split_loop-toggle_loop 59 false (codes "a'';b") [] outside

abbrev two_stmts : List Bytes
two_stmts = codes "vacuum" ∷ codes "UPDATE t SET x = ';'" ∷ []

two_stmts-IsItem : All (IsItem 59 false) two_stmts
unfolding walk act trim trim_start trim_end is_whitespace
two_stmts-IsItem = ((refl, refl, refl), ((refl, refl, refl), tt))

no_trigger :
    contains (codes "create trigger") (to_ascii_lowercase (join (codes "; ") two_stmts)) ≡ false
unfolding contains starts_with to_ascii_lowercase ascii_lower join
no_trigger = refl

split_sql_statements-join_example : split_sql_statements (join (codes "; ") two_stmts) ≡ two_stmts
split_sql_statements-join_example = split_sql_statements-join two_stmts two_stmts-IsItem no_trigger

find_top_level_keyword-ends_example :
    (n : ℕ) × (n ≤ 6)
    × Rounds
        (top_level_round (codes "a ON b") (codes "on"))
        (codes "a ON b")
        n
        1
        0
        (find_top_level_keyword_from (codes "a ON b") 1 (codes "on"))
find_top_level_keyword-ends_example =
    find_top_level_keyword-ends (codes "a ON b") (codes "on") 1 (omega arith)

find_top_level_keyword_from-WordAt_example : (0 ≤ 7) × WordAt (codes "('on') On b") (codes "on") 7
find_top_level_keyword_from-WordAt_example =
    find_top_level_keyword_from-WordAt (codes "('on') On b") (codes "on") 0 7 (
      unfold find_top_level_keyword_from while_in skip_quoted starts_with_ascii_icase_at
        icase_prefix is_ident_char ascii_lower in
      refl)

rewrite_update_delete_limit-Returns_example :
    (out : Bytes) × (rewrite_update_delete_limit_statements (codes "delete from t limit 3")
      ≡ some out)
rewrite_update_delete_limit-Returns_example =
    rewrite_update_delete_limit-Returns (codes "delete from t limit 3")

parse_quoted_token-double_quotes_example :
    parse_quoted_token (codes "x 'a''b' y") 2
    ≡ some (39, codes "a'b", 2 + 1 + (length (double_quotes 39 (codes "a'b")) + 1))
parse_quoted_token-double_quotes_example =
    parse_quoted_token-double_quotes (codes "x 'a''b' y") 2 39 (codes "a'b") (codes " y") refl refl
      (unfold double_quotes in refl)

short-Lacks : (needle : Bytes) → 3 < length needle → Lacks (codes "'b'") needle
unfolding starts_with_ascii_icase_at
short-Lacks needle long i = ground (arith, long)

rewrites-same_example :
    (rewrite_regexp_operator (codes "'b'") ≡ codes "'b'")
    × (rewrite_raise_function_calls (codes "'b'") ≡ codes "'b'")
    × (rewrite_trim_calls (codes "'b'") ≡ codes "'b'")
rewrites-same_example =
    rewrites-same (codes "'b'") (short-Lacks (codes "regexp") (omega arith))
      (short-Lacks (codes "not regexp") (omega arith)) (short-Lacks (codes "raise(") (omega arith))
      (short-Lacks (codes "trim") (omega arith))
