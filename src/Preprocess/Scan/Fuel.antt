-- ===== src/Preprocess/Scan/Fuel.antt =====
-- keywords/preprocess.rs: the scans come to an end, and never go back.
use plex_postgresql.Prelude.{
  ℕ, zero, suc, ◌+◌, ◌≤◌, ◌<◌, Option, none, some, get_elem?, length, ◌≡◌, ◌⊎◌, inl, inr, refl, sym,
  subst, ◌∙◌, arith, Option-cases, lt_of_get_elem?,
}
use plex_postgresql.Prelude.Bytes.{Bytes}
use plex_postgresql.Preprocess.Scan.{
  Round, returns, goes, while_in, or_end, quoted_round, skip_quoted, skip_line, block_round,
  line_round, skip_block, top_level_round,
}

pub Round-cases : (r : Round) → ((j : ℕ) × (r ≡ returns j)) ⊎ ((j : ℕ) × (d : ℕ) × (r ≡ goes j d))
Round-cases (returns j) = inl (j, refl)
Round-cases (goes j d) = inr (j, d, refl)

-- The loop run without fuel from `i`: it leaves the text, returns in a round, or goes on and comes to an end
-- from there. The number is that of the rounds that went on, and the last index the result.
pub data Rounds (round : ℕ → ℕ → ℕ → Round) (s : Bytes) : ℕ → ℕ → ℕ → Option ℕ → Type 0 where
  left_text : {i d : ℕ} → get_elem? s i ≡ none → Rounds round s 0 i d none
  returned :
      {i d b j : ℕ}
      → get_elem? s i ≡ some b
      → round b i d ≡ returns j
      → Rounds round s 0 i d (some j)
  went_on :
      {n i d b j e : ℕ} {r : Option ℕ}
      → get_elem? s i ≡ some b
      → round b i d ≡ goes j e
      → Rounds round s n j e r
      → Rounds round s (suc n) i d r

module _ (round : ℕ → ℕ → ℕ → Round) (s : Bytes) where
  -- A round goes on further to the right.
  abbrev pub Advances : Type 0
  Advances = (b i d j e : ℕ) → round b i d ≡ goes j e → i < j

  while_end : (fuel i d : ℕ) → get_elem? s i ≡ none → while_in round s (suc fuel) i d ≡ none
  unfolding while_in
  while_end fuel i d h = rw (while_in, h) refl

  while_returns :
      (fuel i d b j : ℕ)
      → get_elem? s i ≡ some b
      → round b i d ≡ returns j
      → while_in round s (suc fuel) i d ≡ some j
  unfolding while_in
  while_returns fuel i d b j h r = rw (while_in, h, r) refl

  while_goes :
      (fuel i d b j e : ℕ)
      → get_elem? s i ≡ some b
      → round b i d ≡ goes j e
      → while_in round s (suc fuel) i d ≡ while_in round s fuel j e
  unfolding while_in
  while_goes fuel i d b j e h r = rw (while_in, h, r) refl

  -- With a round of fuel for each character that is left, the loop comes to an end, in no more rounds.
  pub while-Rounds :
      (fuel i d : ℕ)
      → Advances
      → length s ≤ i + fuel
      → (n : ℕ) × (n ≤ fuel) × Rounds round s n i d (while_in round s fuel i d)
  while-Rounds zero i d adv enough = elim (Option-cases (get_elem? s i)) [
    | inl out ↦ (0, omega arith, unfold while_in in left_text out)
    | inr (b, h) ↦ absurd (omega (arith, lt_of_get_elem? s i h))
  ]
  while-Rounds (suc fuel) i d adv enough = elim (Option-cases (get_elem? s i)) [
    | inl out ↦ (
      0,
      omega arith,
      subst (Rounds round s 0 i d) (sym (while_end fuel i d out)) (left_text out),
    )
    | inr (b, h) ↦ elim (Round-cases (round b i d)) [
      | inl (j, r) ↦ (
        0,
        omega arith,
        subst (Rounds round s 0 i d) (sym (while_returns fuel i d b j h r)) (returned h r),
      )
      | inr (j, e, r) ↦
          let (n, few, rest) = while-Rounds fuel j e adv (omega (arith, adv b i d j e r)) in
          (
            suc n,
            omega (arith, few),
            subst (Rounds round s (suc n) i d) (sym (while_goes fuel i d b j e h r))
                (went_on h r rest),
          )
    ]
  ]

  -- What holds of every position that a round returns holds of the loop's result.
  pub while_sound :
      (P : ℕ → Type 0) (fuel i d q start : ℕ)
      → Advances
      → ((b k e j : ℕ) → start ≤ k → get_elem? s k ≡ some b → round b k e ≡ returns j → P j)
      → start ≤ i
      → while_in round s fuel i d ≡ some q
      → P q
  while_sound P zero i d q start adv f le h = absurd (unfold while_in in let z = h in cc)
  while_sound P (suc fuel) i d q start adv f le h = elim (Option-cases (get_elem? s i)) [
    | inl out ↦
        absurd (let z : Path (Option ℕ) none (some q) = sym (while_end fuel i d out) ∙ h in cc)
    | inr (b, g) ↦ elim (Round-cases (round b i d)) [
      | inl (j, r) ↦
          let z : some j ≡ some q = sym (while_returns fuel i d b j g r) ∙ h in
          let one : j ≡ q = ground (arith, z) in subst P one (f b i d j le g r)
      | inr (j, e, r) ↦
          while_sound P fuel j e q start adv f (omega (arith, adv b i d j e r))
            (sym (while_goes fuel i d b j e g r) ∙ h)
    ]
  ]

-- A skip that starts at `i` ends no earlier.
or_end_le : (s : Bytes) (i : ℕ) (o : Option ℕ) → ((j : ℕ) → o ≡ some j → i ≤ j) → i ≤ or_end s i o
or_end_le s i none h = omega arith
or_end_le s i (some j) h = h j refl

module _ (s : Bytes) where
  pub skip_quoted_le : (quote i : ℕ) → i ≤ skip_quoted s quote i
  unfolding skip_quoted
  skip_quoted_le quote i = or_end_le s i _ (λ j h.
      while_sound (quoted_round s quote) s (λ k. i ≤ k) (length s) i 0 j i
        (λ b k d l e r. ground (arith, r)) (λ b k e l le g r. ground (arith, r, le)) (omega arith)
        h)

  pub skip_line_le : (i : ℕ) → i ≤ skip_line s i
  unfolding skip_line
  skip_line_le i = or_end_le s i _ (λ j h.
      while_sound line_round s (λ k. i ≤ k) (length s) i 0 j i (λ b k d l e r. ground (arith, r))
        (λ b k e l le g r. ground (arith, r, le)) (omega arith) h)

  pub skip_block_le : (i : ℕ) → i ≤ skip_block s i
  unfolding skip_block
  skip_block_le i = or_end_le s i _ (λ j h.
      while_sound (block_round s) s (λ k. i ≤ k) (length s) i 0 j i
        (λ b k d l e r. ground (arith, r)) (λ b k e l le g r. ground (arith, r, le)) (omega arith)
        h)

  pub top_level_round-Advances : (kw : Bytes) → Advances (top_level_round s kw) s
  top_level_round-Advances kw b i d j e r =
      ground (arith, r, skip_quoted_le b (i + 1), skip_line_le (i + 2), skip_block_le (i + 2))
