-- ===== src/Preprocess/Limit.antt =====
-- keywords/preprocess.rs: UPDATE and DELETE with a LIMIT, which are made to choose rows by their ctid.
-- A slice `&s[from..to]` panics when the bounds are not in order: the outer none of a result here is
-- that panic, the inner none says that the statement is not rewritten.
pub mod Slices
pub mod Clauses
pub mod Safe
use plex_postgresql.Prelude.{
  and_then, ℕ, zero, suc, ◌+◌, ◌-◌, Bool, true, false, not, ◌&&◌, ◌||◌, List, [], ◌∷◌, ◌++◌, Option,
  none, some, if◌then◌else◌, ◌==◌, ltb, leb, drop, length, min,
}
use plex_postgresql.Prelude.Bytes.{Bytes, codes, starts_with}
use plex_postgresql.Preprocess.{to_ascii_lowercase, is_nil, slice, join}
use plex_postgresql.Preprocess.Split.{split_sql_statements}
use plex_postgresql.Preprocess.Scan.{find_top_level_keyword_from}
use plex_postgresql.Txn.Classify.{trim}

-- A slice with its check.
unfoldable pub checked_slice : Bytes → ℕ → ℕ → Option Bytes
checked_slice s from to = if leb from to && leb to (length s) then some (slice s from to) else none

-- `.into_iter().flatten().filter(|p| *p > at).min()`.
abbrev pub min_opt : ℕ → Option ℕ → Option ℕ
min_opt p none = some p
min_opt p (some q) = some (min p q)

unfoldable pub next_after : ℕ → List (Option ℕ) → Option ℕ
next_after from [] = none
next_after from (none ∷ ps) = next_after from ps
next_after from (some p ∷ ps) =
    let rest = next_after from ps in if ltb from p then min_opt p rest else rest

abbrev pub unwrap_or : Option ℕ → ℕ → ℕ
unwrap_or none n = n
unwrap_or (some p) n = p

-- The end of a clause: the next of the positions, or the end of the statement.
abbrev pub clause_end : Bytes → ℕ → List (Option ℕ) → ℕ
clause_end s from ps = unwrap_or (next_after from ps) (length s)

-- A clause before the LIMIT, without its keyword of `len` characters: the inner none is that there is
-- none.
unfoldable pub clause : Bytes → ℕ → ℕ → Option ℕ → List (Option ℕ) → Option (Option Bytes)
clause s len limit_pos none ps = some none
clause s len limit_pos (some p) ps =
    if leb limit_pos p
    then some none
    else and_then (checked_slice s (p + len) (clause_end s p ps)) (λ part. some (some (trim part)))

-- `.as_deref().filter(|w| !w.is_empty())`, behind its keyword.
abbrev pub with_keyword : Bytes → Option Bytes → Bytes
with_keyword kw none = []
with_keyword kw (some part) = if is_nil part then [] else kw ++ part

unfoldable pub target_sel : Bytes → Option Bytes → Option Bytes → Bytes → Bytes
target_sel table where_part order_part limit_part =
    codes "SELECT ctid FROM "
    ++ (table
        ++ (with_keyword (codes " WHERE ") where_part
            ++ (with_keyword (codes " ORDER BY ") order_part ++ (codes " LIMIT " ++ limit_part))))

unfoldable pub returning_tail : Bytes → Option ℕ → Option Bytes
returning_tail s none = some []
returning_tail s (some p) = and_then (checked_slice s p (length s)) (λ tail. some (trim tail))

abbrev pub with_tail : Bytes → Bytes → Bytes
with_tail out tail = if is_nil tail then out else out ++ 32 ∷ tail

-- The part behind LIMIT: the inner none when nothing stands there.
unfoldable pub limit_part : Bytes → ℕ → Option ℕ → Option (Option Bytes)
limit_part s limit_pos returning_pos =
    let limit_end = unwrap_or returning_pos (length s) in
    if leb limit_end (limit_pos + 5)
    then some none
    else and_then (checked_slice s (limit_pos + 5) limit_end)
        (λ part. some (if is_nil (trim part) then none else some (trim part)))

unfoldable pub update_text : Bytes → Bytes → Bytes → Bytes → Bytes
update_text table set_part sel tail =
    with_tail
      (codes "UPDATE "
        ++ (table
            ++ (codes " SET " ++ (set_part ++ (codes " WHERE ctid IN (" ++ (sel ++ codes ")"))))))
      tail

unfoldable pub delete_text : Bytes → Bytes → Bytes → Bytes
delete_text table sel tail =
    with_tail
      (codes "WITH _plex_target AS ("
        ++ (sel
            ++ (codes ") DELETE FROM "
                ++ (table ++ codes " WHERE ctid IN (SELECT ctid FROM _plex_target)"))))
      tail

-- The text of the rewrite, if there is a limit.
abbrev pub with_limit :
    Bytes
    → Option ℕ
    → (Bytes → Bytes)
    → (Bytes → Bytes → Bytes)
    → Option Bytes
    → Option (Option Bytes)
with_limit s returning_pos sel text none = some none
with_limit s returning_pos sel text (some part) =
    and_then (returning_tail s returning_pos) (λ tail. some (some (text (sel part) tail)))

-- What both rewrites do from the WHERE on; `text` puts the parts together.
unfoldable pub finish :
    Bytes
    → Bytes
    → Option ℕ
    → Option ℕ
    → ℕ
    → Option ℕ
    → (Bytes → Bytes → Bytes)
    → Option (Option Bytes)
finish s table where_pos order_pos limit_pos returning_pos text =
    and_then (clause s 5 limit_pos where_pos (order_pos ∷ some limit_pos ∷ returning_pos ∷ []))
      (λ where_part.
        and_then (clause s 8 limit_pos order_pos (some limit_pos ∷ returning_pos ∷ []))
          (λ order_part.
            and_then (limit_part s limit_pos returning_pos)
              (with_limit s returning_pos (target_sel table where_part order_part) text)))

abbrev pub before : Option ℕ → ℕ → Bool
before none p = false
before (some q) p = ltb q p

abbrev pub behind : Option ℕ → ℕ → Bool
behind none p = false
behind (some q) p = ltb p q

unfoldable pub update_at :
    Bytes → ℕ → Option ℕ → Option ℕ → Option ℕ → Option ℕ → Option (Option Bytes)
update_at s set_pos where_pos order_pos none returning_pos =
    and_then (checked_slice s 7 set_pos) (λ table. some none)
update_at s set_pos where_pos order_pos (some limit_pos) returning_pos =
    and_then (checked_slice s 7 set_pos) (λ table.
      if is_nil (trim table)
        || (not (before order_pos limit_pos) && not (behind returning_pos limit_pos))
      then some none
      else and_then
          (checked_slice s (set_pos + 3) (
            clause_end s (set_pos + 3)
              (where_pos ∷ order_pos ∷ some limit_pos ∷ returning_pos ∷ [])))
          (λ set_part.
            if is_nil (trim set_part)
            then some none
            else finish s (trim table) where_pos order_pos limit_pos returning_pos
                (update_text (trim table) (trim set_part))))

abbrev pub update_set : Bytes → Option ℕ → Option (Option Bytes)
update_set s none = some none
update_set s (some set_pos) =
    update_at s set_pos (find_top_level_keyword_from s (set_pos + 3) (codes "where"))
      (find_top_level_keyword_from s (set_pos + 3) (codes "order by"))
      (find_top_level_keyword_from s (set_pos + 3) (codes "limit"))
      (find_top_level_keyword_from s (set_pos + 3) (codes "returning"))

unfoldable pub rewrite_single_update_limit_stmt : Bytes → Option (Option Bytes)
rewrite_single_update_limit_stmt s =
    if starts_with (codes "update ") (to_ascii_lowercase s)
    then update_set s (find_top_level_keyword_from s 7 (codes "set"))
    else some none

unfoldable pub delete_at : Bytes → Option ℕ → Option ℕ → Option ℕ → Option ℕ → Option (Option Bytes)
delete_at s where_pos order_pos none returning_pos = some none
delete_at s where_pos order_pos (some limit_pos) returning_pos =
    and_then
      (checked_slice s 12
        (clause_end s 12 (where_pos ∷ order_pos ∷ some limit_pos ∷ returning_pos ∷ [])))
      (λ table.
        if is_nil (trim table)
        then some none
        else finish s (trim table) where_pos order_pos limit_pos returning_pos
            (delete_text (trim table)))

unfoldable pub rewrite_single_delete_limit_stmt : Bytes → Option (Option Bytes)
rewrite_single_delete_limit_stmt s =
    if starts_with (codes "delete from ") (to_ascii_lowercase s)
    then delete_at s (find_top_level_keyword_from s 12 (codes "where"))
        (find_top_level_keyword_from s 12 (codes "order by"))
        (find_top_level_keyword_from s 12 (codes "limit"))
        (find_top_level_keyword_from s 12 (codes "returning"))
    else some none

abbrev pub or_same : Bytes → Option Bytes → Option Bytes
or_same t none = some t
or_same t (some r) = some r

-- One statement: as an UPDATE, as a DELETE, or as it is.
abbrev pub or_delete : Bytes → Option Bytes → Option Bytes
or_delete t (some r) = some r
or_delete t none = and_then (rewrite_single_delete_limit_stmt t) (or_same t)

unfoldable pub rewrite_limit_stmt : Bytes → Option Bytes
rewrite_limit_stmt t = and_then (rewrite_single_update_limit_stmt t) (or_delete t)

unfoldable pub rewrite_all : List Bytes → Option (List Bytes)
rewrite_all [] = some []
rewrite_all (stmt ∷ stmts) =
    let rest = rewrite_all stmts in
    if is_nil (trim stmt)
    then rest
    else and_then (rewrite_limit_stmt (trim stmt)) (λ r. and_then rest (λ rs. some (r ∷ rs)))

unfoldable pub rewrite_update_delete_limit_statements : Bytes → Option Bytes
rewrite_update_delete_limit_statements sql =
    and_then (rewrite_all (split_sql_statements sql)) (λ out. some (join (codes "; ") out))
