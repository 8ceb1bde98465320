-- ===== src/Preprocess/Pragma/Tests.antt =====
-- Runs of the PRAGMA rewrite, and an instance of its theorem.
use plex_postgresql.Prelude.{false, some, ◌≡◌, refl}
use plex_postgresql.Prelude.Bytes.{codes, beq, contains, starts_with, ends_with, ascii_lower}
use plex_postgresql.Prelude.Decimal.{decimal}
use plex_postgresql.Preprocess.{to_ascii_lowercase, join}
use plex_postgresql.Preprocess.Split.{split_sql_statements, split_loop, act}
use plex_postgresql.Preprocess.Pragma.{
  rewrite_single_pragma_stmt, rewrite_pragma_statements, each_pragma, after_last, split_at_first,
  map_pragma, answered, map_set, map_read, setting_named, set_config, normalized, chosen_value,
  pick, parse_i64, digits_from, mapped_to, mapped_set,
}
use plex_postgresql.Preprocess.Pragma.Answers.{IsAnswer, rewrite_single_pragma-IsAnswer}
use plex_postgresql.Txn.Classify.{trim, trim_start, trim_end, is_whitespace}

pragma_test :
    rewrite_pragma_statements false
      (codes "PRAGMA main.journal_mode = 'WAL'; pragma secret; PRAGMA cache_size(-1)")
    ≡ codes
        "SELECT set_config('plex.sqlite.journal_mode', 'wal', true); SELECT set_config('plex.sqlite.cache_size', '-1', true)"
unfolding rewrite_pragma_statements each_pragma split_sql_statements split_loop act contains
    starts_with ends_with to_ascii_lowercase ascii_lower rewrite_single_pragma_stmt after_last
    split_at_first map_pragma answered map_set map_read setting_named set_config normalized
    chosen_value pick parse_i64 digits_from join trim trim_start trim_end is_whitespace beq
pragma_test = refl

timeout_pragma :
    rewrite_single_pragma_stmt false (codes "PRAGMA busy_timeout = -5")
    ≡ some (mapped_to mapped_set (set_config (codes "lock_timeout") (codes "0ms")))
unfolding starts_with to_ascii_lowercase ascii_lower rewrite_single_pragma_stmt after_last
    split_at_first map_pragma answered map_set set_config parse_i64 digits_from trim trim_start
    trim_end is_whitespace beq decimal
timeout_pragma = refl

rewrite_single_pragma-IsAnswer_example : IsAnswer (set_config (codes "lock_timeout") (codes "0ms"))
rewrite_single_pragma-IsAnswer_example =
    rewrite_single_pragma-IsAnswer false (codes "PRAGMA busy_timeout = -5")
      (mapped_to mapped_set (set_config (codes "lock_timeout") (codes "0ms"))) timeout_pragma
