-- ===== src/Preprocess/Scan.antt =====
-- keywords/preprocess.rs: the scans over a text that know of quotes, comments and brackets, each a loop
-- `while i < bytes.len()` over a position and a depth. A loop runs on fuel; a round advances, so
-- that the length is enough.
pub mod Fuel
pub mod Keyword
use plex_postgresql.Prelude.{
  ℕ, zero, suc, ◌+◌, ◌-◌, Bool, true, false, not, ◌&&◌, ◌||◌, List, [], ◌∷◌, Option, none, some,
  if◌then◌else◌, ◌==◌, ltb, leb, get_elem?, drop, length, max,
}
use plex_postgresql.Prelude.Bytes.{Bytes, ascii_lower}
use plex_postgresql.Preprocess.{byte_is, is_ident_char}
use plex_postgresql.Txn.Classify.{is_ascii_whitespace}

-- A round returns a position, or goes on at a position with a depth.
pub data Round : Type 0 where
  returns : ℕ → Round
  goes : ℕ → ℕ → Round

-- A round is given the character, its position and the depth. None is the end of the text.
unfoldable pub while_in : (ℕ → ℕ → ℕ → Round) → Bytes → ℕ → ℕ → ℕ → Option ℕ
while_in round s zero i depth = none
while_in round s (suc fuel) i depth = elim (get_elem? s i) [
  | none ↦ none
  | some b ↦ elim (round b i depth) [
    | returns j ↦ some j
    | goes j deeper ↦ while_in round s fuel j deeper
  ]
]

abbrev pub or_end : Bytes → ℕ → Option ℕ → ℕ
or_end s i none = max i (length s)
or_end s i (some j) = j

-- `eq_ignore_ascii_case` of what stands at the start.
unfoldable pub icase_prefix : Bytes → Bytes → Bool
icase_prefix [] s = true
icase_prefix (n ∷ needle) [] = false
icase_prefix (n ∷ needle) (c ∷ s) = ascii_lower c == ascii_lower n && icase_prefix needle s

unfoldable pub starts_with_ascii_icase_at : Bytes → ℕ → Bytes → Bool
starts_with_ascii_icase_at haystack from needle =
    if ltb (length haystack) (from + length needle)
    then false
    else icase_prefix needle (drop from haystack)

-- The loop behind an opening quote.
abbrev pub quoted_round : Bytes → ℕ → ℕ → ℕ → ℕ → Round
quoted_round s quote b i depth =
    if b == quote
    then (if byte_is s (i + 1) (λ c. c == quote) then goes (i + 2) depth else returns (i + 1))
    else goes (i + 1) depth

unfoldable pub skip_quoted : Bytes → ℕ → ℕ → ℕ
skip_quoted s quote i = or_end s i (while_in (quoted_round s quote) s (length s) i 0)

abbrev pub line_round : ℕ → ℕ → ℕ → Round
line_round b i depth = if b == 10 then returns i else goes (i + 1) depth

unfoldable pub skip_line : Bytes → ℕ → ℕ
skip_line s i = or_end s i (while_in line_round s (length s) i 0)

-- The loop of a block comment looks at two characters, and stops before the last one of a text in
-- which the comment is not closed.
abbrev pub block_round : Bytes → ℕ → ℕ → ℕ → Round
block_round s b i depth =
    if ltb (i + 1) (length s)
    then (if b == 42 && byte_is s (i + 1) (λ c. c == 47)
        then returns (i + 2)
        else goes (i + 1) depth)
    else returns i

unfoldable pub skip_block : Bytes → ℕ → ℕ
skip_block s i = or_end s i (while_in (block_round s) s (length s) i 0)

abbrev pub ws_round : ℕ → ℕ → ℕ → Round
ws_round b i depth = if is_ascii_whitespace b then goes (i + 1) depth else returns i

unfoldable pub skip_ascii_ws : Bytes → ℕ → ℕ
skip_ascii_ws s i = or_end s i (while_in ws_round s (length s) i 0)

abbrev pub is_quote : ℕ → Bool
is_quote b = b == 39 || (b == 34 || b == 96)

abbrev pub token_round : Bytes → ℕ → ℕ → ℕ → Round
token_round s b i depth =
    if is_quote b
    then goes (skip_quoted s b (i + 1)) depth
    else if is_ascii_whitespace b
    then returns i
    else goes (i + 1) depth

unfoldable pub find_token_end : Bytes → ℕ → ℕ
find_token_end s start = or_end s start (while_in (token_round s) s (length s) start 0)

abbrev pub unquoted_round : Bytes → ℕ → ℕ → ℕ → ℕ → Round
unquoted_round s target b i depth =
    if is_quote b
    then goes (skip_quoted s b (i + 1)) depth
    else if b == target
    then returns i
    else goes (i + 1) depth

unfoldable pub find_next_unquoted_char : Bytes → ℕ → ℕ → Option ℕ
find_next_unquoted_char s start target = while_in (unquoted_round s target) s (length s) start 0

abbrev pub paren_round : Bytes → ℕ → ℕ → ℕ → Round
paren_round s b i depth =
    if is_quote b
    then goes (skip_quoted s b (i + 1)) depth
    else if b == 40
    then goes (i + 1) (depth + 1)
    else if b == 41
    then (if depth - 1 == 0 then returns i else goes (i + 1) (depth - 1))
    else goes (i + 1) depth

unfoldable pub find_matching_paren : Bytes → ℕ → Option ℕ
find_matching_paren s open_pos =
    if byte_is s open_pos (λ c. c == 40)
    then while_in (paren_round s) s (length s) open_pos 0
    else none

-- The keyword stands there as a word.
abbrev pub keyword_at : Bytes → Bytes → ℕ → Bool
keyword_at s kw i =
    starts_with_ascii_icase_at s i kw
    && ((i == 0 || not (byte_is s (i - 1) is_ident_char))
        && (i + length kw == length s || not (byte_is s (i + length kw) is_ident_char)))

abbrev pub top_level_round : Bytes → Bytes → ℕ → ℕ → ℕ → Round
top_level_round s kw b i depth =
    if is_quote b
    then goes (skip_quoted s b (i + 1)) depth
    else if b == 45 && byte_is s (i + 1) (λ c. c == 45)
    then goes (skip_line s (i + 2)) depth
    else if b == 47 && byte_is s (i + 1) (λ c. c == 42)
    then goes (skip_block s (i + 2)) depth
    else if b == 40
    then goes (i + 1) (depth + 1)
    else if b == 41
    then goes (i + 1) (depth - 1)
    else if depth == 0 && keyword_at s kw i
    then returns i
    else goes (i + 1) depth

unfoldable pub find_top_level_keyword_from : Bytes → ℕ → Bytes → Option ℕ
find_top_level_keyword_from s start kw =
    if ltb start (length s) then while_in (top_level_round s kw) s (length s) start 0 else none

unfoldable pub consume_keyword_ci : Bytes → ℕ → Bytes → Option ℕ
consume_keyword_ci s i keyword =
    let start = skip_ascii_ws s i in
    if not (starts_with_ascii_icase_at s start keyword)
    then none
    else if not (start == 0) && byte_is s (start - 1) is_ident_char
    then none
    else if byte_is s (start + length keyword) is_ident_char
    then none
    else some (start + length keyword)
