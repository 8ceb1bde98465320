-- ===== src/Preprocess/Split/RoundTrip.antt =====
-- keywords/preprocess.rs: what was joined is split again.
use plex_postgresql.Prelude.{
  ℕ, Bool, true, false, List, [], ◌∷◌, ◌++◌, Option, none, some, ◌≡◌, ◌⊎◌, inl, inr, refl, sym, ◌∙◌,
  ap, arith, append_assoc, append-nil, All,
}
use plex_postgresql.Prelude.Bytes.{Bytes, codes, contains}
use plex_postgresql.Preprocess.{to_ascii_lowercase, is_nil, join}
use plex_postgresql.Preprocess.Split.{
  Place, doubled, takes, ends, act, split_loop, outside, split_sql_statements, split_csv_top_level,
}
use plex_postgresql.Preprocess.Split.Toggle.{
  toggle_loop, toggle_takes, toggle_ends, split_loop-toggle_loop, Act-cases,
}
use plex_postgresql.Txn.Classify.{trim, trim_start, trim_end, is_whitespace}

module _ (sep : ℕ) (brackets : Bool) where
  -- The place after a text in which no item ends.
  unfoldable pub walk : Bytes → Place → Option Place
  walk [] p = some p
  walk (c ∷ s) p = elim (act sep brackets c [] p) [
    | doubled ↦ none
    | takes q ↦ walk s q
    | ends ↦ none
  ]

  -- A text that is trimmed and not empty, with its quotes and brackets closed and no separator outside
  -- them.
  abbrev pub IsItem : Bytes → Type 0
  IsItem s = (walk s outside ≡ some outside) × (trim s ≡ s) × (is_nil s ≡ false)

  walk_takes :
      (c : ℕ) (s : Bytes) (p q : Place)
      → act sep brackets c [] p ≡ takes q
      → walk (c ∷ s) p ≡ walk s q
  unfolding walk
  walk_takes c s p q h = rw (walk, h) refl

  walk_stops :
      (c : ℕ) (s : Bytes) (p : Place)
      → (act sep brackets c [] p ≡ doubled) ⊎ (act sep brackets c [] p ≡ ends)
      → walk (c ∷ s) p ≡ none
  unfolding walk
  walk_stops c s p (inl h) = rw (walk, h) refl
  walk_stops c s p (inr h) = rw (walk, h) refl

  none-some : {q : Place} → Path (Option Place) none (some q) → ⊥
  none-some h = cc

  toggle_walk :
      (s rest cur : Bytes) (p q : Place)
      → walk s p ≡ some q
      → toggle_loop sep brackets (s ++ rest) cur p ≡ toggle_loop sep brackets rest (cur ++ s) q
  toggle_walk [] rest cur p q h =
      let one : p ≡ q = (let z : some p ≡ some q = (unfold walk in h) in ground (arith, z)) in
      rw (one, append-nil cur) refl
  toggle_walk (c ∷ s) rest cur p q h = elim (Act-cases (act sep brackets c [] p)) [
    | inl d ↦ absurd (none-some (sym (walk_stops c s p (inl d)) ∙ h))
    | inr (inl (p', t)) ↦
        toggle_takes sep brackets c (s ++ rest) cur p p' t
        ∙ toggle_walk s rest (cur ++ c ∷ []) p' q (sym (walk_takes c s p p' t) ∙ h)
        ∙ ap (λ l. toggle_loop sep brackets rest l q) (append_assoc cur (c ∷ []) s)
    | inr (inr e) ↦ absurd (none-some (sym (walk_stops c s p (inr e)) ∙ h))
  ]

  module _ (at_sep : act sep brackets sep [] outside ≡ ends)
      (at_blank : act sep brackets 32 [] outside ≡ takes outside) where
    trim_blank : (s : Bytes) → trim (32 ∷ s) ≡ trim s
    unfolding trim trim_start is_whitespace
    trim_blank s = refl

    toggle_last :
        (s cur : Bytes)
        → trim (cur ++ s) ≡ s
        → walk s outside ≡ some outside
        → is_nil s ≡ false
        → toggle_loop sep brackets s cur outside ≡ s ∷ []
    toggle_last s cur t w full =
        ap (λ l. toggle_loop sep brackets l cur outside) (sym (append-nil s))
        ∙ toggle_walk s [] cur outside outside w
        ∙ (unfold toggle_loop in rw (t, full) refl)

    toggle_join :
        (s : Bytes) (items : List Bytes) (cur : Bytes)
        → trim (cur ++ s) ≡ s
        → All IsItem (s ∷ items)
        → toggle_loop sep brackets (join (sep ∷ 32 ∷ []) (s ∷ items)) cur outside ≡ s ∷ items
    unfolding join
    toggle_join s [] cur t ((w, _, full), _) = toggle_last s cur t w full
    toggle_join s (next ∷ items) cur t ((w, _, full), (one, all_items)) =
        toggle_walk s (sep ∷ 32 ∷ join (sep ∷ 32 ∷ []) (next ∷ items)) cur outside outside w
        ∙ toggle_ends sep brackets sep (32 ∷ join (sep ∷ 32 ∷ []) (next ∷ items)) (cur ++ s) outside
            at_sep
        ∙ ap
            (λ l.
              l ∷ toggle_loop sep brackets (32 ∷ join (sep ∷ 32 ∷ []) (next ∷ items)) [] outside)
            t
        ∙ ap (λ l. s ∷ l)
            (toggle_takes sep brackets 32 (join (sep ∷ 32 ∷ []) (next ∷ items)) [] outside outside
                at_blank
              ∙ toggle_join next items (32 ∷ []) (trim_blank next ∙ one.1) (one, all_items))

    split_loop-join :
        (items : List Bytes)
        → All IsItem items
        → split_loop sep brackets (join (sep ∷ 32 ∷ []) items) [] outside ≡ items
    split_loop-join [] h = unfold split_loop join trim trim_start trim_end in refl
    split_loop-join (s ∷ items) h =
        split_loop-toggle_loop sep brackets (join (sep ∷ 32 ∷ []) (s ∷ items)) [] outside
        ∙ toggle_join s items [] h.0.1 h

-- Statements that are trimmed, not empty, closed and free of semicolons outside quotes are what the
-- split of their join by "; " gives, unless "create trigger" stands in the join.
pub split_sql_statements-join :
    (stmts : List Bytes)
    → All (IsItem 59 false) stmts
    → contains (codes "create trigger") (to_ascii_lowercase (join (codes "; ") stmts)) ≡ false
    → split_sql_statements (join (codes "; ") stmts) ≡ stmts
unfolding split_sql_statements act
split_sql_statements-join stmts h no_trigger =
    rw no_trigger (split_loop-join 59 false refl refl stmts h)

-- Items of a list that are trimmed, not empty, closed and free of commas outside quotes and brackets are
-- what the split of their join by ", " gives.
pub split_csv_top_level-join :
    (items : List Bytes)
    → All (IsItem 44 true) items
    → split_csv_top_level (join (codes ", ") items) ≡ items
unfolding split_csv_top_level act
split_csv_top_level-join items h = split_loop-join 44 true refl refl items h
