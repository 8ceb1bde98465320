-- ===== src/Preprocess/Split/Toggle.antt =====
-- keywords/preprocess.rs: the look-ahead for a doubled quote comes to closing and opening a quote.
use plex_postgresql.Prelude.{
  ℕ, Bool, true, false, not, List, [], ◌∷◌, ◌++◌, ◌≡◌, ◌≢◌, ◌⊎◌, inl, inr, refl, sym, ◌∙◌, ap,
  arith, append_assoc,
}
use plex_postgresql.Prelude.Bytes.{Bytes}
use plex_postgresql.Preprocess.Split.{Place, Act, doubled, takes, ends, act, last_item, split_loop}
use plex_postgresql.Txn.Classify.{trim}

-- The split that looks at one character at a time.
unfoldable pub toggle_loop : ℕ → Bool → Bytes → Bytes → Place → List Bytes
toggle_loop sep brackets [] cur p = last_item cur
toggle_loop sep brackets (c ∷ rest) cur p = elim (act sep brackets c [] p) [
  | doubled ↦ toggle_loop sep brackets rest (cur ++ c ∷ []) p
  | takes p' ↦ toggle_loop sep brackets rest (cur ++ c ∷ []) p'
  | ends ↦ trim cur ∷ toggle_loop sep brackets rest [] p
]

pub Act-cases : (a : Act) → (a ≡ doubled) ⊎ ((p : Place) × (a ≡ takes p)) ⊎ (a ≡ ends)
Act-cases doubled = inl refl
Act-cases (takes p) = inr (inl (p, refl))
Act-cases ends = inr (inr refl)

module _ (sep : ℕ) (brackets : Bool) where
  act-cases :
      (c d : ℕ) (rest : Bytes) (p : Place)
      → ((act sep brackets c (d ∷ rest) p ≡ doubled)
          × ((c ≡ 39) × (d ≡ 39) × (p.in_single ≡ true) × (p.in_double ≡ false)
              ⊎ (c ≡ 34) × (d ≡ 34) × (p.in_double ≡ true) × (p.in_single ≡ false)))
        ⊎ (act sep brackets c (d ∷ rest) p ≡ act sep brackets c [] p)
  unfolding act
  act-cases c d rest p = ground arith

  pub toggle_takes :
      (c : ℕ) (rest cur : Bytes) (p q : Place)
      → act sep brackets c [] p ≡ takes q
      → toggle_loop sep brackets (c ∷ rest) cur p ≡ toggle_loop sep brackets rest (cur ++ c ∷ []) q
  unfolding toggle_loop
  toggle_takes c rest cur p q h = rw (toggle_loop, h) refl

  pub toggle_ends :
      (c : ℕ) (rest cur : Bytes) (p : Place)
      → act sep brackets c [] p ≡ ends
      → toggle_loop sep brackets (c ∷ rest) cur p ≡ trim cur ∷ toggle_loop sep brackets rest [] p
  unfolding toggle_loop
  toggle_ends c rest cur p h = rw (toggle_loop, h) refl

  loop_doubled :
      (c d : ℕ) (rest cur : Bytes) (p : Place)
      → act sep brackets c (d ∷ rest) p ≡ doubled
      → split_loop sep brackets (c ∷ d ∷ rest) cur p
        ≡ split_loop sep brackets rest (cur ++ c ∷ d ∷ []) p
  unfolding split_loop
  loop_doubled c d rest cur p h = rw (split_loop, h) refl

  loop_takes :
      (c d : ℕ) (rest cur : Bytes) (p q : Place)
      → act sep brackets c (d ∷ rest) p ≡ takes q
      → split_loop sep brackets (c ∷ d ∷ rest) cur p
        ≡ split_loop sep brackets (d ∷ rest) (cur ++ c ∷ []) q
  unfolding split_loop
  loop_takes c d rest cur p q h = rw (split_loop, h) refl

  loop_ends :
      (c d : ℕ) (rest cur : Bytes) (p : Place)
      → act sep brackets c (d ∷ rest) p ≡ ends
      → split_loop sep brackets (c ∷ d ∷ rest) cur p
        ≡ trim cur ∷ split_loop sep brackets (d ∷ rest) [] p
  unfolding split_loop
  loop_ends c d rest cur p h = rw (split_loop, h) refl

  last-split_loop :
      (c : ℕ) (cur : Bytes) (p : Place)
      → split_loop sep brackets (c ∷ []) cur p ≡ toggle_loop sep brackets (c ∷ []) cur p
  unfolding split_loop toggle_loop
  last-split_loop c cur p = elim (Act-cases (act sep brackets c [] p)) [
    | inl q ↦ rw (split_loop, toggle_loop, q) refl
    | inr (inl (p', q)) ↦ rw (split_loop, toggle_loop, q) refl
    | inr (inr q) ↦ rw (split_loop, toggle_loop, q) refl
  ]

  act-not_doubled : (c : ℕ) (p : Place) → act sep brackets c [] p ≢ doubled
  unfolding act
  act-not_doubled c p h = ground (arith, h)

  act-single :
      (p : Place)
      → p.in_double ≡ false
      → act sep brackets 39 [] p ≡ takes (record p { in_single = not p.in_single })
  unfolding act
  act-single p h = ground (arith, h)

  act-double :
      (p : Place)
      → p.in_single ≡ false
      → act sep brackets 34 [] p ≡ takes (record p { in_double = not p.in_double })
  unfolding act
  act-double p h = ground (arith, h)

  append_two : (cur : Bytes) (c d : ℕ) → (cur ++ c ∷ []) ++ d ∷ [] ≡ cur ++ c ∷ d ∷ []
  append_two cur c d = append_assoc cur (c ∷ []) (d ∷ [])

  not-not : (b : Bool) → not (not b) ≡ b
  not-not true = refl
  not-not false = refl

  toggle-pair_single :
      (rest cur : Bytes) (p : Place)
      → p.in_double ≡ false
      → toggle_loop sep brackets (39 ∷ 39 ∷ rest) cur p
        ≡ toggle_loop sep brackets rest (cur ++ 39 ∷ 39 ∷ []) p
  toggle-pair_single rest cur p h =
      toggle_takes 39 (39 ∷ rest) cur p _ (act-single p h)
      ∙ toggle_takes 39 rest (cur ++ 39 ∷ []) _ _
          (act-single (record p { in_single = not p.in_single }) h)
      ∙ ap
          (λ b.
            toggle_loop sep brackets rest ((cur ++ 39 ∷ []) ++ 39 ∷ [])
              (record p { in_single = b }))
          (not-not p.in_single)
      ∙ ap (λ s. toggle_loop sep brackets rest s p) (append_two cur 39 39)

  toggle-pair_double :
      (rest cur : Bytes) (p : Place)
      → p.in_single ≡ false
      → toggle_loop sep brackets (34 ∷ 34 ∷ rest) cur p
        ≡ toggle_loop sep brackets rest (cur ++ 34 ∷ 34 ∷ []) p
  toggle-pair_double rest cur p h =
      toggle_takes 34 (34 ∷ rest) cur p _ (act-double p h)
      ∙ toggle_takes 34 rest (cur ++ 34 ∷ []) _ _
          (act-double (record p { in_double = not p.in_double }) h)
      ∙ ap
          (λ b.
            toggle_loop sep brackets rest ((cur ++ 34 ∷ []) ++ 34 ∷ [])
              (record p { in_double = b }))
          (not-not p.in_double)
      ∙ ap (λ s. toggle_loop sep brackets rest s p) (append_two cur 34 34)

  -- The split of a text, whose loop takes two characters at a doubled quote, is the split that looks at
  -- one character at a time and closes and opens the quote again: for every separator, with and without
  -- brackets, from every place.
  pub split_loop-toggle_loop :
      (s cur : Bytes) (p : Place)
      → split_loop sep brackets s cur p ≡ toggle_loop sep brackets s cur p
  split_loop-toggle_loop [] cur p = unfold split_loop toggle_loop in refl
  split_loop-toggle_loop (c ∷ []) cur p = last-split_loop c cur p
  split_loop-toggle_loop (c ∷ d ∷ rest) cur p = elim (act-cases c d rest p) [
    | inl (both, inl (c39, d39, i, o)) ↦
        loop_doubled c d rest cur p both
        ∙ split_loop-toggle_loop rest (cur ++ c ∷ d ∷ []) p
        ∙ rw (c39, d39) (sym (toggle-pair_single rest cur p o))
    | inl (both, inr (c34, d34, i, o)) ↦
        loop_doubled c d rest cur p both
        ∙ split_loop-toggle_loop rest (cur ++ c ∷ d ∷ []) p
        ∙ rw (c34, d34) (sym (toggle-pair_double rest cur p o))
    | inr same ↦ elim (Act-cases (act sep brackets c [] p)) [
      | inl q ↦ absurd (act-not_doubled c p q)
      | inr (inl (p', q)) ↦
          loop_takes c d rest cur p p' (same ∙ q)
          ∙ split_loop-toggle_loop (d ∷ rest) (cur ++ c ∷ []) p'
          ∙ sym (toggle_takes c (d ∷ rest) cur p p' q)
      | inr (inr q) ↦
          loop_ends c d rest cur p (same ∙ q)
          ∙ ap (λ l. trim cur ∷ l) (split_loop-toggle_loop (d ∷ rest) [] p)
          ∙ sym (toggle_ends c (d ∷ rest) cur p q)
    ]
  ]
