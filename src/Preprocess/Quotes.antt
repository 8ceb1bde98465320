-- ===== src/Preprocess/Quotes.antt =====
-- keywords/preprocess.rs: quoted names, and the statements on an index in which quotes and backticks
-- around a name become double quotes.
pub mod Doubled
use plex_postgresql.Prelude.{
  ℕ, zero, suc, ◌+◌, ◌-◌, Bool, true, false, not, ◌&&◌, ◌||◌, List, [], ◌∷◌, ◌++◌, map, Option,
  none, some, if◌then◌else◌, ◌==◌, ltb, get_elem?, take, drop, length, all, any,
}
use plex_postgresql.Prelude.Bytes.{Bytes, codes, beq, starts_with}
use plex_postgresql.Preprocess.{to_ascii_lowercase, byte_is, is_ident_char, is_nil, slice, join}
use plex_postgresql.Preprocess.Split.{split_csv_top_level}
use plex_postgresql.Preprocess.Scan.{
  or_end, is_quote, skip_ascii_ws, skip_line, skip_block, consume_keyword_ci, find_token_end,
  find_next_unquoted_char, find_matching_paren, find_top_level_keyword_from,
}
use plex_postgresql.Preprocess.Statements.{rewrite_each}
use plex_postgresql.Txn.Classify.{
  is_ascii_whitespace, is_whitespace, trim, trim_start, trim_end, split_whitespace,
}

-- The loop behind the quote, with `out`: the quote, the name and the position behind it.
unfoldable pub quoted_loop : ℕ → Bytes → ℕ → ℕ → Bytes → Option (ℕ × Bytes × ℕ)
quoted_loop zero s quote i out = none
quoted_loop (suc fuel) s quote i out = elim (get_elem? s i) [
  | none ↦ none
  | some ch ↦ elim (ch == quote) [
    | true ↦ elim (byte_is s (i + 1) (λ c. c == quote)) [
      | true ↦ quoted_loop fuel s quote (i + 2) (out ++ quote ∷ [])
      | false ↦ some (quote, out, i + 1)
    ]
    | false ↦ quoted_loop fuel s quote (i + 1) (out ++ ch ∷ [])
  ]
]

abbrev pub quoted_from : Bytes → ℕ → Option ℕ → Option (ℕ × Bytes × ℕ)
quoted_from s start none = none
quoted_from s start (some quote) =
    if is_quote quote then quoted_loop (length s) s quote (start + 1) [] else none

unfoldable pub parse_quoted_token : Bytes → ℕ → Option (ℕ × Bytes × ℕ)
parse_quoted_token s start = quoted_from s start (get_elem? s start)

unfoldable pub is_simple_identifier : Bytes → Bool
is_simple_identifier value = not (is_nil value) && all is_ident_char value

-- The name that a quote or a backtick opens, if it is simple.
abbrev pub simple_token : Option (ℕ × Bytes × ℕ) → Option (Bytes × ℕ)
simple_token none = none
simple_token (some (quote, content, next)) =
    if is_simple_identifier content then some (content, next) else none

abbrev pub name_token : Bytes → ℕ → ℕ → Option (Bytes × ℕ)
name_token s b i = if b == 39 || b == 96 then simple_token (parse_quoted_token s i) else none

unfoldable pub segment_loop : ℕ → Bytes → ℕ → Bytes
segment_loop zero s i = []
segment_loop (suc fuel) s i = elim (get_elem? s i) [
  | none ↦ []
  | some b ↦ elim (name_token s b i) [
    | none ↦ b ∷ segment_loop fuel s (i + 1)
    | some (content, next) ↦ 34 ∷ content ++ (34 ∷ segment_loop fuel s next)
  ]
]

unfoldable pub rewrite_identifier_quotes_in_segment : Bytes → Bytes
rewrite_identifier_quotes_in_segment s = segment_loop (length s) s 0

-- `rfind` of a blank, plus one.
unfoldable pub token_start : Bytes → ℕ → ℕ → ℕ
token_start [] i found = found
token_start (c ∷ s) i found = token_start s (i + 1) (if is_ascii_whitespace c then i + 1 else found)

unfoldable pub rewrite_last_quoted_identifier_token : Bytes → Bytes
rewrite_last_quoted_identifier_token segment =
    let trimmed = trim_end is_ascii_whitespace segment in
    let start = token_start trimmed 0 0 in
    if is_nil trimmed
    then segment
    else take start segment
      ++ (rewrite_identifier_quotes_in_segment (drop start trimmed)
          ++ drop (length trimmed) segment)

abbrev pub is_suffix_word : List Bytes → Bool
is_suffix_word [] = false
is_suffix_word (w ∷ ws) =
    any (beq (to_ascii_lowercase w))
      (codes "collate" ∷ codes "asc" ∷ codes "desc" ∷ codes "nulls" ∷ [])

abbrev pub item_of : Bytes → Bytes → Bytes → Option (Bytes × ℕ) → Bytes
item_of item leading trimmed none = item
item_of item leading trimmed (some (content, next)) =
    let rest = drop next trimmed in
    let blank = trim_start is_whitespace rest in
    if is_nil blank || is_suffix_word (split_whitespace blank)
    then leading ++ (34 ∷ content ++ (34 ∷ rest))
    else item

unfoldable pub rewrite_index_column_item : Bytes → Bytes
rewrite_index_column_item item =
    let trimmed = trim_start is_whitespace item in
    let leading = take (length item - length trimmed) item in
    if byte_is trimmed 0 (λ c. c == 39 || c == 96)
    then item_of item leading trimmed (simple_token (parse_quoted_token trimmed 0))
    else item

unfoldable pub rewrite_index_column_list : Bytes → Bytes
rewrite_index_column_list columns =
    join (codes ", ") (map rewrite_index_column_item (split_csv_top_level columns))

-- A keyword that may be there, and the position behind the keywords that have to be.
abbrev pub or_stay : ℕ → Option ℕ → ℕ
or_stay pos none = pos
or_stay pos (some next) = next

abbrev pub then_keyword : Bytes → Bytes → Option ℕ → Option ℕ
then_keyword s keyword none = none
then_keyword s keyword (some pos) = consume_keyword_ci s pos keyword

abbrev pub create_parts : Bytes → ℕ → ℕ → ℕ → Option ℕ → Option ℕ → Bytes
create_parts s name_start name_end table_start (some open_paren) (some close_paren) =
    take name_start s
    ++ (rewrite_last_quoted_identifier_token (slice s name_start name_end)
        ++ (slice s name_end table_start
            ++ (rewrite_identifier_quotes_in_segment (slice s table_start open_paren)
                ++ (40 ∷ rewrite_index_column_list (slice s (open_paren + 1) close_paren)
                    ++ drop close_paren s))))
create_parts s name_start name_end table_start none close = s
create_parts s name_start name_end table_start (some open_paren) none = s

abbrev pub matching : Bytes → Option ℕ → Option ℕ
matching s none = none
matching s (some open_paren) = find_matching_paren s open_paren

abbrev pub create_from : Bytes → ℕ → ℕ → Option ℕ → Bytes
create_from s name_start name_end none = s
create_from s name_start name_end (some on_pos) =
    let table_start = skip_ascii_ws s (on_pos + 2) in
    let open_paren = find_next_unquoted_char s table_start 40 in
    create_parts s name_start name_end table_start open_paren (matching s open_paren)

abbrev pub create_name : Bytes → Option ℕ → Bytes
create_name s none = s
create_name s (some index_end) =
    let exists =
      then_keyword s (codes "exists")
        (then_keyword s (codes "not") (consume_keyword_ci s index_end (codes "if"))) in
    let name_start = skip_ascii_ws s (or_stay index_end exists) in
    let name_end = find_token_end s name_start in
    if ltb name_start (length s)
    then create_from s name_start name_end (find_top_level_keyword_from s name_end (codes "on"))
    else s

abbrev pub after_create : Bytes → Option ℕ → Option ℕ
after_create s none = none
after_create s (some pos) =
    consume_keyword_ci s (or_stay pos (consume_keyword_ci s pos (codes "unique"))) (codes "index")

unfoldable pub rewrite_create_index_identifier_quotes_core : Bytes → Bytes
rewrite_create_index_identifier_quotes_core s =
    create_name s (after_create s (consume_keyword_ci s 0 (codes "create")))

abbrev pub drop_name : Bytes → Option ℕ → Bytes
drop_name s none = s
drop_name s (some index_end) =
    let exists = then_keyword s (codes "exists") (consume_keyword_ci s index_end (codes "if")) in
    let name_start = skip_ascii_ws s (or_stay index_end exists) in
    let name_end = find_token_end s name_start in
    if ltb name_start (length s)
    then take name_start s
      ++ (rewrite_last_quoted_identifier_token (slice s name_start name_end) ++ drop name_end s)
    else s

unfoldable pub rewrite_drop_index_identifier_quotes_core : Bytes → Bytes
rewrite_drop_index_identifier_quotes_core s =
    drop_name s (then_keyword s (codes "index") (consume_keyword_ci s 0 (codes "drop")))

unfoldable pub is_create_index_stmt : Bytes → Bool
is_create_index_stmt s =
    let lower = to_ascii_lowercase s in
    starts_with (codes "create index") lower || starts_with (codes "create unique index") lower

unfoldable pub is_drop_index_stmt : Bytes → Bool
is_drop_index_stmt s = starts_with (codes "drop index") (to_ascii_lowercase s)

-- Blanks and comments at the start: on fuel, a round for each comment.
unfoldable pub leading_offset : ℕ → Bytes → ℕ → ℕ
leading_offset zero s i = i
leading_offset (suc fuel) s i =
    let j = skip_ascii_ws s i in
    elim (byte_is s j (λ c. c == 45) && byte_is s (j + 1) (λ c. c == 45)) [
      | true ↦ leading_offset fuel s (skip_line s (j + 2))
      | false ↦ elim (byte_is s j (λ c. c == 47) && byte_is s (j + 1) (λ c. c == 42)) [
        | true ↦ leading_offset fuel s (skip_block s (j + 2))
        | false ↦ j
      ]
    ]

unfoldable pub skip_leading_ws_and_sql_comments_offset : Bytes → ℕ
skip_leading_ws_and_sql_comments_offset s = leading_offset (suc (length s)) s 0

-- The statement behind the comments; a rewrite that changes nothing gives the statement itself.
unfoldable pub rewrite_single_index_ddl_identifier_quotes : Bytes → Bytes
rewrite_single_index_ddl_identifier_quotes stmt =
    let start = skip_leading_ws_and_sql_comments_offset stmt in
    let core = drop start stmt in
    if is_nil core
    then stmt
    else if is_create_index_stmt core
    then take start stmt ++ rewrite_create_index_identifier_quotes_core core
    else if is_drop_index_stmt core
    then take start stmt ++ rewrite_drop_index_identifier_quotes_core core
    else stmt

unfoldable pub rewrite_index_ddl_identifier_quotes : Bytes → Bytes
rewrite_index_ddl_identifier_quotes sql =
    rewrite_each rewrite_single_index_ddl_identifier_quotes sql
