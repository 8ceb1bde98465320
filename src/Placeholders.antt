-- ===== src/Placeholders.antt =====
-- placeholders.rs: the numbering of a statement's parameters. The tokens are those of the statement's
-- placeholders, in the order in which the syntax tree is walked.
pub mod Laws
pub mod Walk
mod Tests
use plex_postgresql.Prelude.{
  ℕ, ◌+◌, ◌-◌, ◌*◌, ◌^◌, Bool, true, false, ◌&&◌, ◌||◌, not, List, [], ◌∷◌, ◌++◌, Option, none,
  some, if◌then◌else◌, ◌==◌, leb, length, replicate, set, all,
}
use plex_postgresql.Prelude.Bytes.{Bytes, beq, is_digit}
use plex_postgresql.Prelude.Decimal.{decimal}

-- `names`, by the name, without its prefix
unfoldable pub find_name : Bytes → List (Bytes × ℕ) → Option ℕ
find_name name [] = none
find_name name ((k, n) ∷ rest) = if beq k name then some n else find_name name rest

-- An insertion replaces what was there: the newest entry is the one that is found.
abbrev pub insert_name : Bytes → ℕ → List (Bytes × ℕ) → List (Bytes × ℕ)
insert_name name n names = (name, n) ∷ names

pub record Numbering : Type 0 where
  pub param_names : List (Option Bytes)
  pub names : List (Bytes × ℕ)

unfoldable pub fresh : Numbering → Option Bytes → Numbering × ℕ
fresh st name = (record st { param_names = st.param_names ++ name ∷ [] }, length st.param_names + 1)

-- One push for each slot that is missing.
unfoldable pub explicit : Numbering → ℕ → Numbering
explicit st n = record st {
  param_names = st.param_names ++ replicate (n - length st.param_names) none;
}

unfoldable pub explicit_named : Numbering → ℕ → Bytes → Numbering
explicit_named st n name =
    let st' = explicit st n in
    record {
      param_names = set st'.param_names (n - 1) (some name);
      names = insert_name name n st'.names;
    }

abbrev pub named_new : Numbering → Bytes → Option ℕ → Numbering × ℕ
named_new st name (some n) = (st, n)
named_new st name none =
    let (st', n) = fresh st (some name) in (record st' { names = insert_name name n st'.names }, n)

unfoldable pub named : Numbering → Bytes → Numbering × ℕ
named st name = named_new st name (find_name name st.names)

abbrev pub usize_max : ℕ
usize_max = 2 ^ 64 - 1

abbrev plus_digit : ℕ → ℕ → ℕ
plus_digit n c = n * 10 + (c - b'0')

-- The value of digits after `n`, an error past `usize::MAX`.
unfoldable pub value_from : ℕ → Bytes → Option ℕ
value_from n [] = some n
value_from n (c ∷ s) =
    let rest = value_from (plus_digit n c) s in
    if is_digit c && leb (plus_digit n c) usize_max then rest else none

abbrev after_sign : Bytes → Option ℕ
after_sign [] = none
after_sign (c ∷ s) = value_from 0 (c ∷ s)

-- `str::parse::<usize>`: one `+` may stand before the digits.
unfoldable pub parse_usize : Bytes → Option ℕ
parse_usize [] = none
parse_usize (c ∷ s) = if c == b'+' then after_sign s else value_from 0 (c ∷ s)

abbrev pub first_before : ℕ → Option (Bytes × Bytes) → Option (Bytes × Bytes)
first_before c none = none
first_before c (some (s, t)) = some (c ∷ s, t)

-- `split_once(':')`
unfoldable pub split_colon : Bytes → Option (Bytes × Bytes)
split_colon [] = none
split_colon (c ∷ s) =
    let rest = split_colon s in if c == b':' then some ([], s) else first_before c rest

abbrev pub slot_at : Numbering → Option ℕ → (ℕ → Numbering) → Numbering × Option ℕ
slot_at st none place = (st, none)
slot_at st (some n) place = if n == 0 then (st, none) else (place n, some n)

-- `?NNN` and `?NNN:name`
abbrev pub numbered : Numbering → Bytes → Option (Bytes × Bytes) → Numbering × Option ℕ
numbered st rest (some (digits, c ∷ name)) =
    slot_at st (parse_usize digits) (λ n. explicit_named st n (c ∷ name))
numbered st rest _ = slot_at st (parse_usize rest) (explicit st)

abbrev given : Numbering × ℕ → Numbering × Option ℕ
given (st, n) = (st, some n)

abbrev pub with_prefix : Numbering → ℕ → Bytes → Numbering × Option ℕ
with_prefix st prefix [] = (st, none)
with_prefix st prefix (c ∷ name) =
    if prefix == b'$' && all is_digit (c ∷ name)
    then (st, none)
    else if prefix == b':' || prefix == b'@' || prefix == b'$'
    then given (named st (c ∷ name))
    else (st, none)

-- The slot of a token, or none when it is left as it is written.
unfoldable pub slot : Numbering → Bytes → Numbering × Option ℕ
slot st [] = (st, none)
slot st (c ∷ rest) =
    if c == b'?'
    then elim rest [
      | [] ↦ given (fresh st none)
      | d ∷ s ↦ numbered st (d ∷ s) (split_colon (d ∷ s))
    ]
    else with_prefix st c rest

abbrev pub rewritten : Bytes → Option ℕ → Bytes
rewritten token none = token
rewritten token (some n) = b'$' ∷ decimal n

-- The walk: the state after it, and the tokens as they are written back.
unfoldable pub transform : Numbering → List Bytes → Numbering × List Bytes
transform st [] = (st, [])
transform st (token ∷ tokens) =
    let (st', n) = slot st token in
    let (end, written) = transform st' tokens in (end, rewritten token n ∷ written)

abbrev pub empty : Numbering
empty = record { param_names = []; names = [] }
