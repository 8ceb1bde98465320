-- ===== src/Preprocess/Virtual.antt =====
-- keywords/preprocess.rs: virtual tables of the modules fts5 and rtree, which become tables. The outer
-- none of a result is the panic of a slice whose bounds are not in order, as in Limit.
use plex_postgresql.Prelude.{
  and_then, ℕ, ◌+◌, Bool, true, false, ◌||◌, List, [], ◌∷◌, ◌++◌, Option, none, some, if◌then◌else◌,
  ◌==◌, ltb, ◌≡◌, refl,
}
use plex_postgresql.Prelude.Bytes.{Bytes, codes, starts_with, contains, ascii_lower}
use plex_postgresql.Preprocess.{to_ascii_lowercase, is_nil, slice, join}
use plex_postgresql.Preprocess.Split.{split_csv_top_level, split_loop, act, split_sql_statements}
use plex_postgresql.Preprocess.Limit.{checked_slice, or_same}
use plex_postgresql.Txn.Classify.{
  is_whitespace, trim, trim_start, trim_end, split_whitespace, split_from,
}

-- `find` of a text, from the position `i`.
unfoldable pub find_text : Bytes → Bytes → ℕ → Option ℕ
find_text pat [] i = if is_nil pat then some i else none
find_text pat (c ∷ s) i =
    let later = find_text pat s (i + 1) in if starts_with pat (c ∷ s) then some i else later

-- `rfind` of a character.
unfoldable pub rfind : ℕ → Bytes → ℕ → Option ℕ → Option ℕ
rfind ch [] i found = found
rfind ch (c ∷ s) i found = rfind ch s (i + 1) (if c == ch then some i else found)

abbrev first_word : List Bytes → Bytes
first_word [] = []
first_word (w ∷ ws) = w

abbrev is_comma : ℕ → Bool
is_comma c = c == 44

unfoldable pub extract_ident_token : Bytes → Bytes
extract_ident_token raw =
    trim_end is_comma (trim_start is_comma (first_word (split_whitespace (trim raw))))

-- The columns, with the type that each gets; an fts5 table has no column for its tokenizer.
unfoldable pub columns_of : (Bytes → Bool) → Bytes → List Bytes → List Bytes
columns_of skips type_name [] = []
columns_of skips type_name (c ∷ cols) =
    let col = extract_ident_token c in
    let rest = columns_of skips type_name cols in
    if is_nil col || skips col then rest else (col ++ type_name) ∷ rest

abbrev pub is_tokenize : Bytes → Bool
is_tokenize col = starts_with (codes "tokenize") (to_ascii_lowercase col)

abbrev pub fts5_defs : List Bytes → List Bytes
fts5_defs cols =
    codes "id BIGSERIAL PRIMARY KEY" ∷ columns_of is_tokenize (codes " TEXT") cols
    ++ codes "_fts TSVECTOR" ∷ []

abbrev pub rtree_defs : List Bytes → List Bytes
rtree_defs cols = columns_of (λ col. false) (codes " DOUBLE PRECISION") cols

abbrev no_defs : List Bytes → Bool
no_defs [] = true
no_defs (d ∷ ds) = false

abbrev pub create_table : Bytes → List Bytes → Option Bytes
create_table name defs =
    if no_defs defs
    then none
    else some
        (codes "CREATE TABLE " ++ (name ++ (codes " (" ++ (join (codes ", ") defs ++ codes ")"))))

abbrev pub virtual_text : Bytes → Bytes → ℕ → (List Bytes → List Bytes) → Option ℕ → Option Bytes
virtual_text name stmt cols_start defs none = none
virtual_text name stmt cols_start defs (some cols_end) =
    if is_nil name || ltb cols_end cols_start
    then none
    else create_table name (defs (split_csv_top_level (slice stmt cols_start cols_end)))

-- The module's name ends `len` characters behind `using_idx`.
abbrev pub virtual_from : Bytes → ℕ → ℕ → (List Bytes → List Bytes) → Option (Option Bytes)
virtual_from stmt using_idx len defs =
    and_then (checked_slice stmt 21 using_idx)
      (λ raw. some (virtual_text (trim raw) stmt (using_idx + len) defs (rfind 41 stmt 0 none)))

abbrev pub rtree_at : Bytes → Option ℕ → Option (Option Bytes)
rtree_at stmt none = some none
rtree_at stmt (some i) = virtual_from stmt i 13 rtree_defs

abbrev pub fts5_at : Bytes → Option ℕ → Option ℕ → Option (Option Bytes)
fts5_at stmt (some i) rtree = virtual_from stmt i 12 fts5_defs
fts5_at stmt none rtree = rtree_at stmt rtree

unfoldable pub rewrite_single_virtual_table_stmt : Bytes → Option (Option Bytes)
rewrite_single_virtual_table_stmt stmt =
    let lower = to_ascii_lowercase stmt in
    if starts_with (codes "create virtual table ") lower
    then fts5_at stmt (find_text (codes " using fts5(") lower 0)
        (find_text (codes " using rtree(") lower 0)
    else some none

unfoldable pub virtual_stmts : List Bytes → Option (List Bytes)
virtual_stmts [] = some []
virtual_stmts (stmt ∷ stmts) =
    let rest = virtual_stmts stmts in
    let t = trim stmt in
    if is_nil t
    then rest
    else and_then (and_then (rewrite_single_virtual_table_stmt t) (or_same t))
        (λ r. and_then rest (λ rs. some (r ∷ rs)))

unfoldable pub rewrite_virtual_tables : Bytes → Option Bytes
rewrite_virtual_tables sql =
    and_then (virtual_stmts (split_sql_statements sql)) (λ out. some (join (codes "; ") out))

fts5_test :
    rewrite_virtual_tables
      (codes "CREATE VIRTUAL TABLE s USING fts5(title, body UNINDEXED, tokenize='x,y')")
    ≡ some (codes "CREATE TABLE s (id BIGSERIAL PRIMARY KEY, title TEXT, body TEXT, _fts TSVECTOR)")
unfolding rewrite_virtual_tables virtual_stmts checked_slice rewrite_single_virtual_table_stmt
    find_text rfind columns_of extract_ident_token slice join split_csv_top_level
    split_sql_statements split_loop act starts_with contains to_ascii_lowercase ascii_lower trim
    trim_start trim_end is_whitespace split_whitespace split_from
fts5_test = refl

-- A table without a name: the blank in front of USING is the one behind TABLE.
no_name_test : rewrite_virtual_tables (codes "CREATE VIRTUAL TABLE USING fts5(a)") ≡ none
unfolding rewrite_virtual_tables virtual_stmts checked_slice rewrite_single_virtual_table_stmt
    find_text rfind columns_of extract_ident_token slice join split_csv_top_level
    split_sql_statements split_loop act starts_with contains to_ascii_lowercase ascii_lower trim
    trim_start trim_end is_whitespace split_whitespace split_from
no_name_test = refl
