-- ===== src/Preprocess/Scan/Keyword.antt =====
-- keywords/preprocess.rs: what `find_top_level_keyword_from` finds.
use plex_postgresql.Prelude.{
  ℕ, ◌+◌, ◌-◌, ◌≤◌, ◌<◌, true, not, ◌||◌, some, ◌==◌, ltb, drop, length, ◌≡◌, inl, inr, sym, subst,
  arith, Bool-cases,
}
use plex_postgresql.Prelude.Bytes.{Bytes}
use plex_postgresql.Preprocess.{byte_is, is_ident_char}
use plex_postgresql.Preprocess.Scan.{
  returns, top_level_round, find_top_level_keyword_from, keyword_at, starts_with_ascii_icase_at,
  icase_prefix,
}
use plex_postgresql.Preprocess.Scan.Fuel.{
  Rounds, while-Rounds, while_sound, top_level_round-Advances,
}

module _ (s kw : Bytes) where
  -- From a start inside the text, the search without fuel comes to an end with the result of the one with
  -- fuel, in at most as many rounds as the text has characters.
  pub find_top_level_keyword-ends :
      (start : ℕ)
      → start < length s
      → (n : ℕ) × (n ≤ length s)
        × Rounds (top_level_round s kw) s n start 0 (find_top_level_keyword_from s start kw)
  unfolding find_top_level_keyword_from
  find_top_level_keyword-ends start inside =
      let on : ltb start (length s) ≡ true = ground arith in
      rw on (
        while-Rounds (top_level_round s kw) s (length s) start 0 (top_level_round-Advances s kw)
          (omega arith))

  -- The keyword stands at `p` as a word of its own, in any case.
  pub record WordAt (p : ℕ) : Type 0 where
    pub inside : p + length kw ≤ length s
    pub same : icase_prefix kw (drop p s) ≡ true
    pub starts : (p == 0 || not (byte_is s (p - 1) is_ident_char)) ≡ true
    pub ends : (p + length kw == length s || not (byte_is s (p + length kw) is_ident_char)) ≡ true

  keyword_at-WordAt : (p : ℕ) → keyword_at s kw p ≡ true → WordAt p
  unfolding starts_with_ascii_icase_at
  keyword_at-WordAt p h = record {
    inside = ground (arith, h);
    same = ground (arith, h);
    starts = ground (arith, h);
    ends = ground (arith, h);
  }

  round-WordAt :
      (b i d j : ℕ) → top_level_round s kw b i d ≡ returns j → (j ≡ i) × (keyword_at s kw i ≡ true)
  round-WordAt b i d j h = ground (arith, h)

  -- A position that is found is not before the start, and the keyword stands there as a word.
  pub find_top_level_keyword_from-WordAt :
      (start p : ℕ) → find_top_level_keyword_from s start kw ≡ some p → (start ≤ p) × WordAt p
  unfolding find_top_level_keyword_from
  find_top_level_keyword_from-WordAt start p h = elim (Bool-cases (ltb start (length s))) [
    | inr out ↦ absurd (let z = rw out at h in cc)
    | inl on ↦
        while_sound (top_level_round s kw) s (λ q. (start ≤ q) × WordAt q) (length s) start 0 p
          start (top_level_round-Advances s kw)
          (λ b k e j le g r.
            let (one, word) = round-WordAt b k e j r in
            subst (λ q. (start ≤ q) × WordAt q) (sym one) (le, keyword_at-WordAt k word))
          (omega arith) (rw on at h)
  ]
