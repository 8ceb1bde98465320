-- ===== src/Preprocess/Operators/Same.antt =====
-- keywords/preprocess.rs: a text without the words that a rewrite looks for is copied whole.
use plex_postgresql.Prelude.{
  ℕ, zero, suc, ◌+◌, ◌-◌, ◌≤◌, ◌<◌, false, not, ◌||◌, [], ◌∷◌, ◌++◌, Option, none, some, ◌==◌,
  get_elem?, take, drop, length, ◌≡◌, refl, sym, ◌∙◌, ap, arith, inl, inr, Bool-cases, Option-cases,
  lt_of_get_elem?, take-append-drop,
}
use plex_postgresql.Prelude.Bytes.{Bytes, codes}
use plex_postgresql.Preprocess.{byte_is, is_ident_char, slice}
use plex_postgresql.Preprocess.Scan.{
  or_end, starts_with_ascii_icase_at, quoted_round, skip_quoted, is_quote,
}
use plex_postgresql.Preprocess.Scan.Fuel.{while_sound, skip_quoted_le}
use plex_postgresql.Preprocess.Operators.{
  rewrite_in, copies_to, regexp_round, rewrite_regexp_operator, call_round,
  rewrite_raise_function_calls, trim_call, trim_round, rewrite_trim_calls,
}

drop_nil : (n : ℕ) → drop {A = ℕ} n [] ≡ []
drop_nil zero = refl
drop_nil (suc n) = refl

drop-add : (a b : ℕ) (s : Bytes) → drop b (drop a s) ≡ drop (a + b) s
drop-add zero b s = let here : b ≡ 0 + b = omega arith in ap (λ n. drop n s) here
drop-add (suc a) b [] = drop_nil b ∙ sym (drop_nil (suc a + b))
drop-add (suc a) b (c ∷ s) =
    let here : suc (a + b) ≡ suc a + b = omega arith in
    drop-add a b s ∙ ap (λ n. drop n (c ∷ s)) here

slice-append-drop : (s : Bytes) (i j : ℕ) → i ≤ j → slice s i j ++ drop j s ≡ drop i s
unfolding slice
slice-append-drop s i j le =
    let here : j ≡ i + (j - i) = omega arith in
    ap (λ n. take (j - i) (drop i s) ++ drop n s) here
    ∙ ap (λ t. take (j - i) (drop i s) ++ t) (sym (drop-add i (j - i) s))
    ∙ take-append-drop (j - i) (drop i s)

drop-length : (s : Bytes) (i : ℕ) → length s ≤ i → drop i s ≡ []
drop-length [] zero h = refl
drop-length [] (suc i) h = refl
drop-length (c ∷ s) zero h = absurd (omega arith)
drop-length (c ∷ s) (suc i) h = drop-length s i (omega arith)

get_elem?-none : (s : Bytes) (i : ℕ) → get_elem? s i ≡ none → length s ≤ i
get_elem?-none [] i h = omega arith
get_elem?-none (c ∷ s) zero h = cc
get_elem?-none (c ∷ s) (suc i) h = omega (arith, get_elem?-none s i h)

module _ (s : Bytes) where
  or_end-le_length :
      (i : ℕ) (o : Option ℕ)
      → i ≤ length s
      → ((j : ℕ) → o ≡ some j → j ≤ length s)
      → or_end s i o ≤ length s
  or_end-le_length i none le h = omega arith
  or_end-le_length i (some j) le h = h j refl

  skip_quoted-le_length : (quote i : ℕ) → i ≤ length s → skip_quoted s quote i ≤ length s
  unfolding skip_quoted
  skip_quoted-le_length quote i le = or_end-le_length i _ le (λ j h.
      while_sound (quoted_round s quote) s (λ k. k ≤ length s) (length s) i 0 j i
        (λ b k d l e r. ground (arith, r))
        (λ b k e l lk g r. let lt = lt_of_get_elem? s k g in ground (arith, r, lt)) (omega arith) h)

  -- A round copies up to a position further on.
  abbrev Copies : (ℕ → ℕ → Bytes × ℕ) → Type 0
  Copies round =
      (b i : ℕ)
      → get_elem? s i ≡ some b
      → (j : ℕ) × (round b i ≡ copies_to s i j) × (i < j) × (j ≤ length s)

  rewrite_in-same :
      (round : ℕ → ℕ → Bytes × ℕ) (fuel i : ℕ)
      → Copies round
      → length s ≤ i + fuel
      → rewrite_in round s fuel i ≡ drop i s
  unfolding rewrite_in
  rewrite_in-same round zero i copies enough = sym (drop-length s i (omega arith))
  rewrite_in-same round (suc fuel) i copies enough = elim (Option-cases (get_elem? s i)) [
    | inl out ↦ rw (rewrite_in, out) (sym (drop-length s i (get_elem?-none s i out)))
    | inr (b, h) ↦
        let (j, r, lt, le) = copies b i h in
        rw (rewrite_in, h, r, rewrite_in-same round fuel j copies (omega arith))
          (slice-append-drop s i j (omega arith))
  ]

  copied :
      (i j : ℕ)
      → (i < j) × (j ≤ length s)
      → (k : ℕ) × (copies_to s i j ≡ copies_to s i k) × (i < k) × (k ≤ length s)
  copied i j (lt, le) = (j, refl, lt, le)

  one_copied : (b i : ℕ) → get_elem? s i ≡ some b → (i < i + 1) × (i + 1 ≤ length s)
  one_copied b i h = let lt = lt_of_get_elem? s i h in (omega arith, omega arith)

  quote_copied :
      (b i quote : ℕ)
      → get_elem? s i ≡ some b
      → (i < skip_quoted s quote (i + 1)) × (skip_quoted s quote (i + 1) ≤ length s)
  quote_copied b i quote h =
      let lt = lt_of_get_elem? s i h in
      (
        omega (arith, skip_quoted_le s quote (i + 1)),
        skip_quoted-le_length quote (i + 1) (omega arith),
      )

  -- A word that stands nowhere, in any case.
  abbrev pub Lacks : Bytes → Type 0
  Lacks needle = (i : ℕ) → starts_with_ascii_icase_at s i needle ≡ false

  module _ (no_regexp : Lacks (codes "regexp")) (no_not_regexp : Lacks (codes "not regexp"))
      (no_raise : Lacks (codes "raise(")) (no_trim : Lacks (codes "trim")) where
    regexp-Copies : Copies (regexp_round s)
    regexp-Copies b i h = elim (Bool-cases (b == 39)) [
      | inl quote ↦ rw quote (copied i _ (quote_copied b i 39 h))
      | inr plain ↦
          rw (plain, no_regexp i, no_not_regexp i)
            (elim (Bool-cases (i == 0 || not (byte_is s (i - 1) is_ident_char))) [
              | inl starts ↦ rw starts (copied i (i + 1) (one_copied b i h))
              | inr inner ↦ rw inner (copied i (i + 1) (one_copied b i h))
            ])
    ]

    call-Copies : Copies (call_round s)
    call-Copies b i h = elim (Bool-cases (b == 39)) [
      | inl quote ↦ rw quote (copied i _ (quote_copied b i 39 h))
      | inr plain ↦ rw (plain, no_raise i) (copied i (i + 1) (one_copied b i h))
    ]

    trim-Copies : Copies (trim_round s)
    trim-Copies b i h = elim (Bool-cases (is_quote b)) [
      | inl quote ↦ rw quote (copied i _ (quote_copied b i b h))
      | inr plain ↦
          let none_here : trim_call s i ≡ false =
            (let absent = no_trim i in ground (arith, absent)) in
          rw (plain, none_here) (copied i (i + 1) (one_copied b i h))
    ]

    -- A text in which none of the words "regexp", "not regexp", "raise(" and "trim" stands, in any case,
    -- goes unchanged through the rewrites of the REGEXP operator, of RAISE calls and of TRIM calls.
    pub rewrites-same :
        (rewrite_regexp_operator s ≡ s)
        × (rewrite_raise_function_calls s ≡ s)
        × (rewrite_trim_calls s ≡ s)
    unfolding rewrite_regexp_operator rewrite_raise_function_calls rewrite_trim_calls
    rewrites-same = (
      rewrite_in-same (regexp_round s) (length s) 0 regexp-Copies (omega arith),
      rewrite_in-same (call_round s) (length s) 0 call-Copies (omega arith),
      rewrite_in-same (trim_round s) (length s) 0 trim-Copies (omega arith),
    )
