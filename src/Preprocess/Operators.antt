-- ===== src/Preprocess/Operators.antt =====
-- keywords/preprocess.rs: the rewrites that go over a text character by character and copy what stands in
-- quotes. Pushing a quoted piece onto `out` is the slice that was passed.
pub mod Same
use plex_postgresql.Prelude.{
  ℕ, zero, suc, ◌+◌, ◌-◌, Bool, true, false, not, ◌&&◌, ◌||◌, List, [], ◌∷◌, ◌++◌, Option, none,
  some, if◌then◌else◌, ◌==◌, ltb, get_elem?, take, drop, length, any,
}
use plex_postgresql.Prelude.Bytes.{Bytes, codes, beq, starts_with, ends_with}
use plex_postgresql.Preprocess.{
  to_ascii_lowercase, byte_is, is_ident_char, is_ascii_alphabetic, is_nil, slice,
}
use plex_postgresql.Preprocess.Scan.{
  Round, returns, goes, while_in, or_end, starts_with_ascii_icase_at, skip_quoted, skip_line,
  skip_ascii_ws, is_quote,
}
use plex_postgresql.Preprocess.Statements.{rewrite_each, after_word}
use plex_postgresql.Txn.Classify.{is_ascii_whitespace, is_whitespace, trim, trim_end}

-- A round gives what it pushes onto `out` and the next position.
unfoldable pub rewrite_in : (ℕ → ℕ → Bytes × ℕ) → Bytes → ℕ → ℕ → Bytes
rewrite_in round s zero i = []
rewrite_in round s (suc fuel) i = elim (get_elem? s i) [
  | none ↦ []
  | some b ↦ (round b i).0 ++ rewrite_in round s fuel (round b i).1
]

abbrev pub copies_to : Bytes → ℕ → ℕ → Bytes × ℕ
copies_to s i j = (slice s i j, j)

-- `needle` stands there as a word.
abbrev pub word_at : Bytes → ℕ → Bytes → Bool
word_at s i needle =
    (i == 0 || not (byte_is s (i - 1) is_ident_char))
    && (starts_with_ascii_icase_at s i needle && not (byte_is s (i + length needle) is_ident_char))

abbrev pub regexp_round : Bytes → ℕ → ℕ → Bytes × ℕ
regexp_round s b i =
    if b == 39
    then copies_to s i (skip_quoted s 39 (i + 1))
    else if word_at s i (codes "not regexp")
    then (codes "!~", i + 10)
    else if word_at s i (codes "regexp")
    then (codes "~", i + 6)
    else copies_to s i (i + 1)

unfoldable pub rewrite_regexp_operator : Bytes → Bytes
rewrite_regexp_operator s = rewrite_in (regexp_round s) s (length s) 0

-- The end of the arguments of `raise(`.
abbrev pub raise_round : Bytes → ℕ → ℕ → ℕ → Round
raise_round s b j depth =
    if b == 39
    then goes (skip_quoted s 39 (j + 1)) depth
    else if b == 40
    then goes (j + 1) (depth + 1)
    else if b == 41
    then (if depth - 1 == 0 then returns (j + 1) else goes (j + 1) (depth - 1))
    else goes (j + 1) depth

unfoldable pub raise_end : Bytes → ℕ → ℕ
raise_end s j = or_end s j (while_in (raise_round s) s (length s) j 1)

abbrev pub call_round : Bytes → ℕ → ℕ → Bytes × ℕ
call_round s b i =
    if b == 39
    then copies_to s i (skip_quoted s 39 (i + 1))
    else if starts_with_ascii_icase_at s i (codes "raise(")
    then (codes "NULL", raise_end s (i + 6))
    else copies_to s i (i + 1)

unfoldable pub rewrite_raise_function_calls : Bytes → Bytes
rewrite_raise_function_calls s = rewrite_in (call_round s) s (length s) 0

abbrev pub placeholder_round : Bytes → ℕ → ℕ → Bytes × ℕ
placeholder_round s b i =
    if b == 39 || b == 34
    then copies_to s i (skip_quoted s b (i + 1))
    else if b == 63 && byte_is s (i + 1) (λ c. is_ascii_alphabetic c || c == 95)
    then (codes "? ", i + 1)
    else copies_to s i (i + 1)

unfoldable pub fix_placeholder_spacing : Bytes → Bytes
fix_placeholder_spacing s = rewrite_in (placeholder_round s) s (length s) 0

-- `trim` before a bracket, where no name and no dot stands before it.
abbrev pub trim_call : Bytes → ℕ → Bool
trim_call s i =
    (i == 0 || not (byte_is s (i - 1) (λ c. is_ident_char c || c == 46)))
    && (starts_with_ascii_icase_at s i (codes "trim")
        && byte_is s (skip_ascii_ws s (i + 4)) (λ c. c == 40))

abbrev pub trim_round : Bytes → ℕ → ℕ → Bytes × ℕ
trim_round s b i =
    if is_quote b
    then copies_to s i (skip_quoted s b (i + 1))
    else if trim_call s i
    then (codes "btrim", i + 4)
    else copies_to s i (i + 1)

unfoldable pub rewrite_trim_calls : Bytes → Bytes
rewrite_trim_calls s = rewrite_in (trim_round s) s (length s) 0

-- ON CONFLICT with an action, in the columns of a CREATE TABLE: the position behind it.
abbrev pub actions : List Bytes
actions = codes "rollback" ∷ codes "abort" ∷ codes "fail" ∷ codes "ignore" ∷ codes "replace" ∷ []

abbrev pub behind_action : Bytes → Option Bytes → Option ℕ
behind_action s none = none
behind_action s (some rest) = some (skip_ascii_ws s (length s - length rest))

abbrev pub on_conflict_end : Bytes → ℕ → Option ℕ
on_conflict_end s i =
    if starts_with_ascii_icase_at s i (codes "on conflict")
      && (i == 0 || not (byte_is s (i - 1) is_ident_char))
    then behind_action s (after_word actions (drop (skip_ascii_ws s (i + 11)) s))
    else none

abbrev pub skip_to : Bytes → ℕ → Option ℕ → Bytes × ℕ
skip_to s i none = copies_to s i (i + 1)
skip_to s i (some j) = ([], j)

abbrev pub conflict_round : Bytes → ℕ → ℕ → Bytes × ℕ
conflict_round s b i =
    if b == 39 then copies_to s i (skip_quoted s 39 (i + 1)) else skip_to s i (on_conflict_end s i)

unfoldable pub strip_create_table_on_conflict_clauses : Bytes → Bytes
strip_create_table_on_conflict_clauses s = rewrite_in (conflict_round s) s (length s) 0

-- `s.trim_end()` less `n` characters, trimmed.
abbrev pub cut_end : ℕ → Bytes → Bytes
cut_end n s = let t = trim_end is_whitespace s in trim_end is_whitespace (take (length t - n) t)

abbrev pub is_comma : ℕ → Bool
is_comma c = c == 44

abbrev pub cut_end_comma : ℕ → Bytes → Bytes
cut_end_comma n s = trim_end is_whitespace (trim_end is_comma (cut_end n s))

-- A round of the loop takes an option away, so that the length is enough fuel.
unfoldable pub strip_tail : ℕ → Bytes → Bytes
strip_tail zero s = s
strip_tail (suc fuel) s =
    let trimmed = trim_end is_whitespace (to_ascii_lowercase s) in
    elim (ends_with (codes ", strict") trimmed) [
      | true ↦ strip_tail fuel (cut_end 8 s)
      | false ↦ elim (ends_with (codes ", without rowid") trimmed) [
        | true ↦ strip_tail fuel (cut_end 15 s)
        | false ↦ elim (ends_with (codes "strict") trimmed) [
          | true ↦ strip_tail fuel (cut_end_comma 6 s)
          | false ↦ elim (ends_with (codes "without rowid") trimmed) [
            | true ↦ strip_tail fuel (cut_end_comma 13 s)
            | false ↦ s
          ]
        ]
      ]
    ]

unfoldable pub strip_create_table_tail_options : Bytes → Bytes
strip_create_table_tail_options stmt = strip_tail (length stmt) (trim stmt)

unfoldable pub create_table_stmt : Bytes → Bytes
create_table_stmt t =
    if starts_with (codes "create table ") (to_ascii_lowercase t)
    then strip_create_table_tail_options (strip_create_table_on_conflict_clauses t)
    else t

unfoldable pub rewrite_sqlite_create_table_options : Bytes → Bytes
rewrite_sqlite_create_table_options sql = rewrite_each create_table_stmt sql

-- The word after blanks: where it starts and where it ends.
unfoldable pub word_end : Bytes → ℕ → ℕ
word_end s i = or_end s i (
    while_in (λ b j depth. if is_ident_char b then goes (j + 1) depth else returns j) s (length s) i
      0)

abbrev pub word_from : Bytes → ℕ → Bytes
word_from s i =
    let start = skip_ascii_ws s i in to_ascii_lowercase (slice s start (word_end s start))

abbrev pub keyword_operands : List Bytes
keyword_operands =
    codes "null"
    ∷ codes "true"
    ∷ codes "false"
    ∷ codes "unknown"
    ∷ codes "distinct"
    ∷ codes "normalized"
    ∷ codes "nfc"
    ∷ codes "nfd"
    ∷ codes "nfkc"
    ∷ codes "nfkd"
    ∷ []

-- A word that is empty or no keyword is an operand to compare with.
abbrev pub is_operand : Bytes → Bool
is_operand w = is_nil w || not (any (beq w) keyword_operands)

-- The loop behind a quote; a backtick is not doubled.
abbrev pub skip_name : Bytes → ℕ → ℕ → ℕ
skip_name s quote i =
    if quote == 96
    then or_end s i (
        while_in (λ b j depth. if b == 96 then returns (j + 1) else goes (j + 1) depth) s (length s)
          i 0)
    else skip_quoted s quote i

abbrev pub is_word : Bytes → ℕ → Bytes × ℕ
is_word s i =
    if beq (word_from s (i + 2)) (codes "not")
    then (let behind = word_end s (skip_ascii_ws s (i + 2)) in
        if is_operand (word_from s behind)
        then (codes "IS DISTINCT FROM", behind)
        else copies_to s i (i + 1))
    else if is_operand (word_from s (i + 2))
    then (codes "IS NOT DISTINCT FROM", i + 2)
    else copies_to s i (i + 1)

abbrev pub is_round : Bytes → ℕ → ℕ → Bytes × ℕ
is_round s b i =
    if is_quote b
    then copies_to s i (skip_name s b (i + 1))
    else if b == 45 && byte_is s (i + 1) (λ c. c == 45)
    then copies_to s i (skip_line s i)
    else if word_at s i (codes "is")
    then is_word s i
    else copies_to s i (i + 1)

unfoldable pub rewrite_is_operator : Bytes → Bytes
rewrite_is_operator s = rewrite_in (is_round s) s (length s) 0
