-- ===== src/Preprocess/Limit/Safe.antt =====
-- keywords/preprocess.rs: the rewrites of a LIMIT never panic.
use plex_postgresql.Prelude.{
  ℕ, ◌+◌, ◌≤◌, true, not, ◌&&◌, ◌||◌, List, [], ◌∷◌, Option, none, some, length, ◌≡◌, inl, inr,
  refl, ◌∙◌, arith, All, Bool-cases, Option-cases,
}
use plex_postgresql.Prelude.Bytes.{Bytes, codes, ascii_lower, starts_with}
use plex_postgresql.Preprocess.{
  length-to_ascii_lowercase, is_ident_char, is_nil, join, to_ascii_lowercase,
}
use plex_postgresql.Preprocess.Split.{split_sql_statements}
use plex_postgresql.Preprocess.Scan.{find_top_level_keyword_from}
use plex_postgresql.Preprocess.Scan.Keyword.{WordAt, find_top_level_keyword_from-WordAt}
use plex_postgresql.Preprocess.Limit.{
  checked_slice, clause_end, finish, target_sel, before, behind, update_at, delete_at,
  rewrite_single_update_limit_stmt, rewrite_single_delete_limit_stmt, or_delete, or_same,
  rewrite_limit_stmt, rewrite_all, rewrite_update_delete_limit_statements,
}
use plex_postgresql.Preprocess.Limit.Slices.{word_gap, order_gap}
use plex_postgresql.Txn.Classify.{trim}
use plex_postgresql.Preprocess.Limit.Clauses.{
  Returns, and_then-Returns, checked_slice-Returns, Gap, clause_end-Gap, clause-Returns, Found,
  Found-Gap, Found-Gap_next, limit_part-Returns, with_limit-Returns,
}

module _ (s : Bytes) where
  module _ (start : ℕ) (where_pos order_pos returning_pos : Option ℕ) (limit_pos : ℕ)
      (found_where : Found s (codes "where") start where_pos)
      (found_order : Found s (codes "order by") start order_pos)
      (found_limit : Found s (codes "limit") start (some limit_pos))
      (found_returning : Found s (codes "returning") start returning_pos) where
    limit_word : WordAt s (codes "limit") limit_pos
    limit_word = (found_limit limit_pos refl).1

    where-Gaps :
        (p : ℕ)
        → where_pos ≡ some p
        → (p + 5 ≤ length s)
          × All (Gap (length s) p 5) (order_pos ∷ some limit_pos ∷ returning_pos ∷ [])
    unfolding is_ident_char
    where-Gaps p h =
        let (_, w) = found_where p h in
        (
          w.inside,
          (
            Found-Gap s (codes "order by") start p 5 order_pos found_order
                (λ q v lt. word_gap s (codes "where") (codes "order by") p q refl w v lt),
            (
              Found-Gap s (codes "limit") start p 5 (some limit_pos) found_limit
                  (λ q v lt. word_gap s (codes "where") (codes "limit") p q refl w v lt),
              (
                Found-Gap s (codes "returning") start p 5 returning_pos found_returning
                    (λ q v lt. word_gap s (codes "where") (codes "returning") p q refl w v lt),
                tt,
              ),
            ),
          ),
        )

    order-Gaps :
        (p : ℕ)
        → order_pos ≡ some p
        → (p + 8 ≤ length s) × All (Gap (length s) p 8) (some limit_pos ∷ returning_pos ∷ [])
    unfolding ascii_lower
    order-Gaps p h =
        let (_, w) = found_order p h in
        (
          w.inside,
          (
            Found-Gap s (codes "limit") start p 8 (some limit_pos) found_limit
                (λ q v lt. order_gap s _ _ p q (λ e. omega arith) w v lt),
            (
              Found-Gap s (codes "returning") start p 8 returning_pos found_returning
                  (λ q v lt. order_gap s _ _ p q (λ e. omega arith) w v lt),
              tt,
            ),
          ),
        )

    finish-Returns :
        (table : Bytes) (text : Bytes → Bytes → Bytes)
        → Returns (finish s table where_pos order_pos limit_pos returning_pos text)
    unfolding finish
    finish-Returns table text =
        and_then-Returns _ _ (clause-Returns s 5 limit_pos where_pos _ where-Gaps) (λ where_part.
          and_then-Returns _ _ (clause-Returns s 8 limit_pos order_pos _ order-Gaps) (λ order_part.
            and_then-Returns _ _
              (limit_part-Returns s limit_pos start returning_pos limit_word found_returning)
              (with_limit-Returns s start returning_pos found_returning
                (target_sel table where_part order_part) text)))

    -- The slice in front of the first clause.
    first-Returns :
        (here : ℕ)
        → here ≤ length s
        → Returns (
            checked_slice s here
              (clause_end s here (where_pos ∷ order_pos ∷ some limit_pos ∷ returning_pos ∷ [])))
    first-Returns here le =
        let (a, b) =
          clause_end-Gap s here 0 (where_pos ∷ order_pos ∷ some limit_pos ∷ returning_pos ∷ [])
            (omega arith)
            (
              Found-Gap_next s (codes "where") start here where_pos found_where,
              (
                Found-Gap_next s (codes "order by") start here order_pos found_order,
                (
                  Found-Gap_next s (codes "limit") start here (some limit_pos) found_limit,
                  (
                    Found-Gap_next s (codes "returning") start here returning_pos found_returning,
                    tt,
                  ),
                ),
              ),
            ) in
        checked_slice-Returns s here _ (omega arith) b

  Found-keyword :
      (kw : Bytes) (start : ℕ) (o : Option ℕ)
      → find_top_level_keyword_from s start kw ≡ o
      → Found s kw start o
  Found-keyword kw start o h p q = find_top_level_keyword_from-WordAt s kw start p (h ∙ q)

  update_at-Returns :
      (start set_pos : ℕ) (where_pos order_pos limit_pos returning_pos : Option ℕ)
      → WordAt s (codes "set") set_pos
      → 7 ≤ set_pos
      → Found s (codes "where") start where_pos
      → Found s (codes "order by") start order_pos
      → Found s (codes "limit") start limit_pos
      → Found s (codes "returning") start returning_pos
      → Returns (update_at s set_pos where_pos order_pos limit_pos returning_pos)
  unfolding update_at
  update_at-Returns start set_pos w o none r word le fw fo fl fr =
      and_then-Returns _ _ (checked_slice-Returns s 7 set_pos le (omega (arith, word.inside)))
        (λ table. (none, refl))
  update_at-Returns start set_pos w o (some l) r word le fw fo fl fr =
      and_then-Returns _ _ (checked_slice-Returns s 7 set_pos le (omega (arith, word.inside)))
        (λ table.
          elim (Bool-cases (is_nil (trim table) || (not (before o l) && not (behind r l)))) [
            | inl leaves ↦ (none, rw leaves refl)
            | inr on ↦ rw on (
                and_then-Returns _ _
                  (first-Returns start w o r l fw fo fl fr (set_pos + 3) word.inside)
                  (λ set_part. elim (Bool-cases (is_nil (trim set_part))) [
                    | inl empty ↦ (none, rw empty refl)
                    | inr full ↦ rw full (finish-Returns start w o r l fw fo fl fr (trim table) _)
                  ]))
          ])

  rewrite_single_update-Returns : Returns (rewrite_single_update_limit_stmt s)
  unfolding rewrite_single_update_limit_stmt
  rewrite_single_update-Returns =
      elim (Bool-cases (starts_with (codes "update ") (to_ascii_lowercase s))) [
        | inr other ↦ (none, rw other refl)
        | inl update ↦
            rw update (elim (Option-cases (find_top_level_keyword_from s 7 (codes "set"))) [
              | inl no_set ↦ (none, rw no_set refl)
              | inr (p, h) ↦
                  let (le, word) = find_top_level_keyword_from-WordAt s (codes "set") 7 p h in
                  rw h (
                    update_at-Returns (p + 3) p _ _ _ _ word le
                      (Found-keyword (codes "where") (p + 3) _ refl)
                      (Found-keyword (codes "order by") (p + 3) _ refl)
                      (Found-keyword (codes "limit") (p + 3) _ refl)
                      (Found-keyword (codes "returning") (p + 3) _ refl))
            ])
      ]

  delete_at-Returns :
      (where_pos order_pos limit_pos returning_pos : Option ℕ)
      → 12 ≤ length s
      → Found s (codes "where") 12 where_pos
      → Found s (codes "order by") 12 order_pos
      → Found s (codes "limit") 12 limit_pos
      → Found s (codes "returning") 12 returning_pos
      → Returns (delete_at s where_pos order_pos limit_pos returning_pos)
  unfolding delete_at
  delete_at-Returns w o none r le fw fo fl fr = (none, refl)
  delete_at-Returns w o (some l) r le fw fo fl fr =
      and_then-Returns _ _ (first-Returns 12 w o r l fw fo fl fr 12 le) (λ table.
        elim (Bool-cases (is_nil (trim table))) [
          | inl empty ↦ (none, rw empty refl)
          | inr full ↦ rw full (finish-Returns 12 w o r l fw fo fl fr (trim table) _)
        ])

length-starts_with : (p s : Bytes) → starts_with p s ≡ true → length p ≤ length s
unfolding starts_with
length-starts_with [] s h = omega arith
length-starts_with (c ∷ p) [] h = cc
length-starts_with (c ∷ p) (d ∷ s) h =
    let rest : starts_with p s ≡ true = ground (arith, h) in
    omega (arith, length-starts_with p s rest)

rewrite_single_delete-Returns : (s : Bytes) → Returns (rewrite_single_delete_limit_stmt s)
unfolding rewrite_single_delete_limit_stmt
rewrite_single_delete-Returns s =
    elim (Bool-cases (starts_with (codes "delete from ") (to_ascii_lowercase s))) [
      | inr other ↦ (none, rw other refl)
      | inl delete ↦
          let long : 12 ≤ length s = omega (
            arith,
            length-starts_with (codes "delete from ") (to_ascii_lowercase s) delete,
            length-to_ascii_lowercase s,
          ) in
          rw delete (
            delete_at-Returns s _ _ _ _ long (Found-keyword s (codes "where") 12 _ refl)
              (Found-keyword s (codes "order by") 12 _ refl)
              (Found-keyword s (codes "limit") 12 _ refl)
              (Found-keyword s (codes "returning") 12 _ refl))
    ]

or_same-Returns : (t : Bytes) (r : Option Bytes) → Returns (or_same t r)
or_same-Returns t none = (t, refl)
or_same-Returns t (some r) = (r, refl)

or_delete-Returns : (t : Bytes) (r : Option Bytes) → Returns (or_delete t r)
or_delete-Returns t (some r) = (r, refl)
or_delete-Returns t none =
    and_then-Returns _ _ (rewrite_single_delete-Returns t) (or_same-Returns t)

rewrite_all-Returns : (stmts : List Bytes) → Returns (rewrite_all stmts)
unfolding rewrite_all rewrite_limit_stmt
rewrite_all-Returns [] = ([], refl)
rewrite_all-Returns (stmt ∷ stmts) = elim (Bool-cases (is_nil (trim stmt))) [
  | inl empty ↦ rw empty (rewrite_all-Returns stmts)
  | inr full ↦ rw full (
      and_then-Returns _ _
        (and_then-Returns _ _ (rewrite_single_update-Returns (trim stmt))
          (or_delete-Returns (trim stmt)))
        (λ r. and_then-Returns _ _ (rewrite_all-Returns stmts) (λ rs. (r ∷ rs, refl))))
]

-- The rewrite of UPDATE and DELETE with a LIMIT takes no slice out of order, of any text: it returns one.
pub rewrite_update_delete_limit-Returns :
    (sql : Bytes) → Returns (rewrite_update_delete_limit_statements sql)
unfolding rewrite_update_delete_limit_statements
rewrite_update_delete_limit-Returns sql =
    and_then-Returns _ _ (rewrite_all-Returns (split_sql_statements sql))
      (λ out. (join (codes "; ") out, refl))
