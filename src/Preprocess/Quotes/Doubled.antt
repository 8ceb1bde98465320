-- ===== src/Preprocess/Quotes/Doubled.antt =====
-- keywords/preprocess.rs: a name is read back from its quotes.
use plex_postgresql.Prelude.{
  ℕ, zero, suc, ◌+◌, ◌≤◌, ◌<◌, true, false, [], ◌∷◌, ◌++◌, Option, some, if◌then◌else◌, ◌==◌,
  ==_iff, get_elem?, drop, length, ◌≡◌, refl, sym, subst, ◌∙◌, ap, arith, inl, inr, Bool-cases,
  append_assoc, append-nil, length-append,
}
use plex_postgresql.Prelude.Bytes.{Bytes}
use plex_postgresql.Preprocess.{byte_is}
use plex_postgresql.Preprocess.Scan.{is_quote}
use plex_postgresql.Preprocess.Split.{is_next}
use plex_postgresql.Preprocess.Quotes.{quoted_loop, parse_quoted_token}

-- The name as SQL quotes it: each quote in it twice.
unfoldable pub double_quotes : ℕ → Bytes → Bytes
double_quotes quote [] = []
double_quotes quote (c ∷ s) =
    let rest = double_quotes quote s in if c == quote then c ∷ c ∷ rest else c ∷ rest

drop_head :
    (s : Bytes) (i c : ℕ) (t : Bytes)
    → drop i s ≡ c ∷ t
    → (get_elem? s i ≡ some c) × (drop (i + 1) s ≡ t)
drop_head [] zero c t h = cc
drop_head [] (suc i) c t h = cc
drop_head (d ∷ s) zero c t h = ground (arith, h)
drop_head (d ∷ s) (suc i) c t h =
    let here : i + 1 ≡ suc i + 0 = omega arith in
    let (a, b) = drop_head s i c t h in
    let more : suc (i + 1) ≡ suc i + 1 = omega arith in (a, subst (λ n. drop n (d ∷ s) ≡ t) more b)

byte_next :
    (s : Bytes) (i quote : ℕ) (t : Bytes)
    → drop i s ≡ t
    → byte_is s i (λ c. c == quote) ≡ is_next quote t
byte_next [] zero quote t h = let one = h in subst (λ r. false ≡ is_next quote r) one refl
byte_next [] (suc i) quote t h = let one = h in subst (λ r. false ≡ is_next quote r) one refl
byte_next (d ∷ s) zero quote t h = subst (λ r. (d == quote) ≡ is_next quote r) h refl
byte_next (d ∷ s) (suc i) quote t h = byte_next s i quote t h

module _ (s : Bytes) (quote : ℕ) where
  loop_other :
      (fuel i ch : ℕ) (out : Bytes)
      → get_elem? s i ≡ some ch
      → (ch == quote) ≡ false
      → quoted_loop (suc fuel) s quote i out ≡ quoted_loop fuel s quote (i + 1) (out ++ ch ∷ [])
  unfolding quoted_loop
  loop_other fuel i ch out h e = rw (quoted_loop, h, e) refl

  loop_pair :
      (fuel i ch : ℕ) (out : Bytes)
      → get_elem? s i ≡ some ch
      → (ch == quote) ≡ true
      → byte_is s (i + 1) (λ c. c == quote) ≡ true
      → quoted_loop (suc fuel) s quote i out ≡ quoted_loop fuel s quote (i + 2) (out ++ quote ∷ [])
  unfolding quoted_loop
  loop_pair fuel i ch out h e n = rw (quoted_loop, h, e, n) refl

  loop_end :
      (fuel i ch : ℕ) (out : Bytes)
      → get_elem? s i ≡ some ch
      → (ch == quote) ≡ true
      → byte_is s (i + 1) (λ c. c == quote) ≡ false
      → quoted_loop (suc fuel) s quote i out ≡ some (quote, out, i + 1)
  unfolding quoted_loop
  loop_end fuel i ch out h e n = rw (quoted_loop, h, e, n) refl

  self : (quote == quote) ≡ true
  self = (==_iff quote quote).1 refl

  result :
      {a b : Bytes} {i j : ℕ}
      → a ≡ b
      → i ≡ j
      → ◌≡◌ {A = Option (ℕ × Bytes × ℕ)} (some (quote, a, i)) (some (quote, b, j))
  result p q = rw (p, q) refl

  -- The loop reads the rest of a name.
  loop_reads :
      (content rest out : Bytes) (fuel i : ℕ)
      → drop i s ≡ double_quotes quote content ++ quote ∷ rest
      → is_next quote rest ≡ false
      → length content < fuel
      → quoted_loop fuel s quote i out
        ≡ some (quote, out ++ content, i + (length (double_quotes quote content) + 1))
  loop_reads content rest out zero i h n enough = absurd (omega arith)
  loop_reads [] rest out (suc fuel) i h n enough =
      let (at_i, later) = drop_head s i quote rest (unfold double_quotes in h) in
      loop_end fuel i quote out at_i self (byte_next s (i + 1) quote rest later ∙ n)
      ∙ (unfold double_quotes in rw (append-nil out) refl)
  loop_reads (c ∷ content) rest out (suc fuel) i h n enough = elim (Bool-cases (c == quote)) [
    | inr other ↦
        let q : drop i s ≡ c ∷ (double_quotes quote content ++ quote ∷ rest) =
          (unfold double_quotes in rw other at h) in
        let (at_i, later) = drop_head s i c _ q in
        loop_other fuel i c out at_i other
        ∙ loop_reads content rest (out ++ c ∷ []) fuel (i + 1) later n (omega arith)
        ∙ result (append_assoc out (c ∷ []) content)
            (unfold double_quotes in rw other (omega arith))
    | inl same ↦
        let q : drop i s ≡ c ∷ c ∷ (double_quotes quote content ++ quote ∷ rest) =
          (unfold double_quotes in rw same at h) in
        let (at_i, later) = drop_head s i c _ q in
        let (at_next, more) = drop_head s (i + 1) c _ later in
        let one : c ≡ quote = (==_iff c quote).0 same in
        let two : i + 1 + 1 ≡ i + 2 = omega arith in
        loop_pair fuel i c out at_i same (rw at_next same)
        ∙ loop_reads content rest (out ++ quote ∷ []) fuel (i + 2)
            (subst (λ k. drop k s ≡ double_quotes quote content ++ quote ∷ rest) two more) n
            (omega arith)
        ∙ result (append_assoc out (quote ∷ []) content ∙ ap (λ k. out ++ k ∷ content) (sym one))
            (unfold double_quotes in rw same (omega arith))
  ]

length-double_quotes :
    (quote : ℕ) (content : Bytes) → length content ≤ length (double_quotes quote content)
unfolding double_quotes
length-double_quotes quote [] = omega arith
length-double_quotes quote (c ∷ content) = ground (arith, length-double_quotes quote content)

length-drop_le : (s : Bytes) (i : ℕ) → length (drop i s) ≤ length s
length-drop_le s zero = omega arith
length-drop_le [] (suc i) = omega arith
length-drop_le (c ∷ s) (suc i) = omega (arith, length-drop_le s i)

-- Where a text goes on, from `start`, with a quote, a name in which each such quote stands twice, and the
-- quote, and not with one more quote, the name and the position behind are read.
pub parse_quoted_token-double_quotes :
    (s : Bytes) (start quote : ℕ) (content rest : Bytes)
    → is_quote quote ≡ true
    → is_next quote rest ≡ false
    → drop start s ≡ quote ∷ double_quotes quote content ++ quote ∷ rest
    → parse_quoted_token s start
      ≡ some (quote, content, start + 1 + (length (double_quotes quote content) + 1))
unfolding parse_quoted_token
parse_quoted_token-double_quotes s start quote content rest q n h =
    let (at_start, later) = drop_head s start quote _ h in
    let fits : length content < length s = omega (
      arith,
      length-double_quotes quote content,
      length-drop_le s start,
      ap length h,
      length-append (double_quotes quote content) (quote ∷ rest),
    ) in
    rw (at_start, q) (loop_reads s quote content rest [] (length s) (start + 1) later n fits)
