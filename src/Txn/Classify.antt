-- ===== src/Txn/Classify.antt =====
-- `classify_sql` of pg_client/txn.rs: which transaction command a statement is. A text is the list of
-- its characters' code points.
pub mod Words
pub mod RoundTrip
pub mod Leading
use plex_postgresql.Prelude.{
  ℕ, zero, suc, ◌+◌, ◌-◌, Bool, true, false, ◌&&◌, ◌||◌, not, List, [], ◌∷◌, ◌++◌, map, Option,
  none, some, if◌then◌else◌, ◌==◌, leb, length, get_elem?, all, drop,
}
use plex_postgresql.Prelude.Bytes.{Bytes, codes, beq, ascii_lower, is_digit}
use plex_postgresql.Txn.Plan.{TxnCmd}

abbrev pub is_ascii_whitespace : ℕ → Bool
is_ascii_whitespace c = c == 9 || c == 10 || c == 12 || c == 13 || c == 32

-- `char::is_whitespace`, of which `trim` and `split_whitespace` make use.
unfoldable pub is_whitespace : ℕ → Bool
is_whitespace c =
    (leb 9 c && leb c 13)
    || c == 32
    || c == 133
    || c == 160
    || c == 5760
    || (leb 8192 c && leb c 8202)
    || c == 8232
    || c == 8233
    || c == 8239
    || c == 8287
    || c == 12288

-- Where the scan over blanks and comments stands: `opening` and `closing` are before the second
-- character of a comment's bracket.
pub data Noise : Type 0 where
  between line opening block closing : Noise

abbrev is_at : ℕ → Bytes → Bool
is_at c [] = false
is_at c (d ∷ s) = d == c

-- What the scan does with a character, by the characters after it; `none` is that the text begins.
abbrev pub noise_after : Noise → ℕ → Bytes → Option Noise
noise_after between c s =
    if is_ascii_whitespace c
    then some between
    else if c == 45 && is_at 45 s
    then some line
    else if c == 47 && is_at 42 s
    then some opening
    else none
noise_after line c s = some (if c == 10 then between else line)
noise_after opening c s = some block
noise_after block c s = some (if c == 42 && is_at 47 s then closing else block)
noise_after closing c s = some between

unfoldable pub strip_noise : Noise → Bytes → Bytes
strip_noise at [] = []
strip_noise at (c ∷ s) = elim (noise_after at c s) [ none ↦ c ∷ s | some next ↦ strip_noise next s ]

unfoldable pub strip_leading_noise : Bytes → Bytes
strip_leading_noise s = strip_noise between s

unfoldable pub trim_start : (ℕ → Bool) → Bytes → Bytes
trim_start p [] = []
trim_start p (c ∷ s) = let rest = trim_start p s in if p c then rest else c ∷ s

abbrev pub cons_unless : Bool → ℕ → Bytes → Bytes
cons_unless blank c [] = if blank then [] else c ∷ []
cons_unless blank c (d ∷ s) = c ∷ d ∷ s

unfoldable pub trim_end : (ℕ → Bool) → Bytes → Bytes
trim_end p [] = []
trim_end p (c ∷ s) = cons_unless (p c) c (trim_end p s)

abbrev pub is_semicolon : ℕ → Bool
is_semicolon c = c == 59

unfoldable pub trim : Bytes → Bytes
trim s = trim_end is_whitespace (trim_start is_whitespace s)

abbrev cons_word : Bytes → List Bytes → List Bytes
cons_word [] words = words
cons_word (c ∷ w) words = (c ∷ w) ∷ words

abbrev pub split_step : ℕ → Bytes × List Bytes → Bytes × List Bytes
split_step c (w, words) = if is_whitespace c then ([], cons_word w words) else (c ∷ w, words)

-- The word that is being read, and the words after it.
unfoldable pub split_from : Bytes → Bytes × List Bytes
split_from [] = ([], [])
split_from (c ∷ s) = split_step c (split_from s)

unfoldable pub split_whitespace : Bytes → List Bytes
split_whitespace s = let (w, words) = split_from s in cons_word w words

abbrev pub is_alphabetic : ℕ → Bool
is_alphabetic c = (leb 65 c && leb c 90) || (leb 97 c && leb c 122)

-- What a savepoint's name consists of.
abbrev pub is_name_char : ℕ → Bool
is_name_char c = is_alphabetic c || is_digit c || c == 95 || c == 36

-- The text before a closing quote, which must be there.
abbrev pub closed_by : ℕ → Bytes → Option Bytes
closed_by q [] = none
closed_by q (c ∷ []) = if c == q then some [] else none
closed_by q (c ∷ d ∷ s) = elim (closed_by q (d ∷ s)) [ none ↦ none | some inner ↦ some (c ∷ inner) ]

abbrev or_whole : Bytes → Option Bytes → Bytes
or_whole s none = s
or_whole s (some inner) = inner

abbrev pub unquoted : Bytes → Bytes
unquoted [] = []
unquoted (q ∷ s) = or_whole (q ∷ s) (
    if q == 34 || q == 39 || q == 96
    then closed_by q s
    else if q == 91
    then closed_by 93 s
    else none)

abbrev pub is_name : Bytes → Bool
is_name [] = false
is_name (c ∷ s) = all is_name_char (c ∷ s)

unfoldable pub savepoint_name : Bytes → Option Bytes
savepoint_name token =
    let name = unquoted (trim (trim_end is_semicolon (trim token))) in
    if is_name name then some name else none

abbrev savepoint_at : Option Bytes → Option Bytes
savepoint_at none = none
savepoint_at (some token) = savepoint_name token

abbrev pub begin_mode : Bytes → Bool
begin_mode w =
    beq w (codes "deferred")
    || beq w (codes "immediate")
    || beq w (codes "exclusive")
    || beq w (codes "transaction")

abbrev pub is_word : Bytes → Option Bytes → Bool
is_word w none = false
is_word w (some v) = beq v w

abbrev pub named : (Bytes → TxnCmd) → Option Bytes → Option TxnCmd
named command none = none
named command (some name) = some (command name)

-- The words after ROLLBACK [TRANSACTION], in small letters, beside all words.
abbrev pub rollback_rest : List Bytes → List Bytes → Option TxnCmd
rollback_rest words [] = some TxnCmd.rollback
rollback_rest words (w ∷ rest) =
    if not (beq w (codes "to"))
    then none
    else (let idx = if is_word (codes "savepoint") (get_elem? rest 0) then 3 else 2 in
        let name_idx = length words - length (w ∷ rest) + idx - 1 in
        if length words == name_idx + 1
        then named TxnCmd.rollback_to (savepoint_at (get_elem? words name_idx))
        else none)

abbrev pub after_transaction : List Bytes → List Bytes
after_transaction [] = []
after_transaction (w ∷ rest) = if beq w (codes "transaction") then rest else w ∷ rest

abbrev pub classify_words : List Bytes → List Bytes → Option TxnCmd
classify_words words [] = none
classify_words words (first ∷ others) =
    if beq first (codes "begin")
    then (if all begin_mode others then some TxnCmd.begin else none)
    else if beq first (codes "commit") || beq first (codes "end")
    then (if all (λ w. beq w (codes "transaction")) others then some TxnCmd.commit else none)
    else if beq first (codes "rollback")
    then rollback_rest words (after_transaction others)
    else if beq first (codes "savepoint")
    then (if length words == 2
        then named TxnCmd.savepoint (savepoint_at (get_elem? words 1))
        else none)
    else if beq first (codes "release")
    then (let name_idx = if is_word (codes "savepoint") (get_elem? others 0) then 2 else 1 in
        if length words == name_idx + 1
        then named TxnCmd.release (savepoint_at (get_elem? words name_idx))
        else none)
    else none

unfoldable pub classify_sql : Bytes → Option TxnCmd
classify_sql sql =
    let body = trim (trim_end is_semicolon (trim (strip_leading_noise sql))) in
    let words = split_whitespace body in classify_words words (map (map ascii_lower) words)
