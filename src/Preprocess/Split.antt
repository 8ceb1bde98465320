-- ===== src/Preprocess/Split.antt =====
-- keywords/preprocess.rs: the split of a text at the separators outside quotes, `split_sql_statements`
-- and `split_csv_top_level`. The two loops are one here, told apart by whether brackets are counted.
pub mod Toggle
pub mod RoundTrip
use plex_postgresql.Prelude.{
  ℕ, zero, suc, ◌+◌, ◌-◌, Bool, true, false, not, ◌&&◌, ◌||◌, List, [], ◌∷◌, ◌++◌, if◌then◌else◌,
  ◌==◌,
}
use plex_postgresql.Prelude.Bytes.{Bytes, codes, contains}
use plex_postgresql.Preprocess.{to_ascii_lowercase, is_nil}
use plex_postgresql.Txn.Classify.{trim}

-- The local variables of the loops.
pub record Place : Type 0 where
  pub in_single : Bool
  pub in_double : Bool
  pub depth : ℕ

abbrev pub outside : Place
outside = record { in_single = false; in_double = false; depth = 0 }

abbrev pub is_next : ℕ → Bytes → Bool
is_next c [] = false
is_next c (d ∷ s) = d == c

-- What the loop does with a character: it takes a quote and the next one, too, it takes a quote that
-- opens or closes, it ends an item, or it takes the character.
pub data Act : Type 0 where
  doubled : Act
  takes : Place → Act
  ends : Act

unfoldable pub act : ℕ → Bool → ℕ → Bytes → Place → Act
act sep brackets c rest p =
    if c == 39 && not p.in_double
    then (if p.in_single && is_next 39 rest
        then doubled
        else takes (record p { in_single = not p.in_single }))
    else if c == 34 && not p.in_single
    then (if p.in_double && is_next 34 rest
        then doubled
        else takes (record p { in_double = not p.in_double }))
    else if brackets && (c == 40 && (not p.in_single && not p.in_double))
    then takes (record p { depth = p.depth + 1 })
    else if brackets && (c == 41 && (not p.in_single && not p.in_double))
    then takes (record p { depth = p.depth - 1 })
    else if c == sep && (not p.in_single && (not p.in_double && p.depth == 0))
    then ends
    else takes p

-- `if !cur.trim().is_empty() { out.push(cur.trim().to_string()) }`.
abbrev pub last_item : Bytes → List Bytes
last_item cur = if is_nil (trim cur) then [] else trim cur ∷ []

-- The loop over what is left, with `cur`.
unfoldable pub split_loop : ℕ → Bool → Bytes → Bytes → Place → List Bytes
split_loop sep brackets [] cur p = last_item cur
split_loop sep brackets (c ∷ []) cur p = elim (act sep brackets c [] p) [
  | doubled ↦ last_item (cur ++ c ∷ [])
  | takes p' ↦ last_item (cur ++ c ∷ [])
  | ends ↦ trim cur ∷ last_item []
]
split_loop sep brackets (c ∷ d ∷ rest) cur p = elim (act sep brackets c (d ∷ rest) p) [
  | doubled ↦ split_loop sep brackets rest (cur ++ c ∷ d ∷ []) p
  | takes p' ↦ split_loop sep brackets (d ∷ rest) (cur ++ c ∷ []) p'
  | ends ↦ trim cur ∷ split_loop sep brackets (d ∷ rest) [] p
]

unfoldable pub split_sql_statements : Bytes → List Bytes
split_sql_statements sql =
    if contains (codes "create trigger") (to_ascii_lowercase sql)
    then last_item sql
    else split_loop 59 false sql [] outside

unfoldable pub split_csv_top_level : Bytes → List Bytes
split_csv_top_level s = split_loop 44 true s [] outside
