-- ===== src/Txn/Classify/Leading.antt =====
-- Blanks and comments before a statement do not change what it is classified as.
use plex_postgresql.Prelude.{
  ℕ, true, false, ◌&&◌, not, [], ◌∷◌, ◌++◌, some, ◌==◌, all, ◌≡◌, refl, ◌∙◌, arith, append_assoc,
}
use plex_postgresql.Prelude.Bytes.{Bytes, contains, starts_with}
use plex_postgresql.Txn.Plan.{Statement, text}
use plex_postgresql.Txn.Classify.{
  is_ascii_whitespace, between, line, block, strip_noise, strip_leading_noise, classify_sql,
}
use plex_postgresql.Txn.Classify.RoundTrip.{command, HasName, classify_sql-text}

-- A sequence of blanks, comments to the end of a line and bracketed comments.
pub data IsNoise : Bytes → Type 0 where
  nothing : IsNoise []
  blank : (c : ℕ) {s : Bytes} → is_ascii_whitespace c ≡ true → IsNoise s → IsNoise (c ∷ s)
  to_line_end :
      (body : Bytes) {s : Bytes}
      → all (λ c. not (c == 10)) body ≡ true
      → IsNoise s
      → IsNoise (45 ∷ 45 ∷ body ++ 10 ∷ s)
  bracketed :
      (body : Bytes) {s : Bytes}
      → contains (42 ∷ 47 ∷ []) body ≡ false
      → IsNoise s
      → IsNoise (47 ∷ 42 ∷ body ++ 42 ∷ 47 ∷ s)

strip_line :
    (body s : Bytes)
    → all (λ c. not (c == 10)) body ≡ true
    → strip_noise line (body ++ 10 ∷ s) ≡ strip_noise between s
unfolding strip_noise
strip_line [] s h = refl
strip_line (c ∷ body) s h =
    let q : (c == 10) ≡ false = ground arith in
    let r : all (λ c. not (c == 10)) body ≡ true = ground arith in rw q (strip_line body s r)

strip_block :
    (body s : Bytes)
    → contains (42 ∷ 47 ∷ []) body ≡ false
    → strip_noise block (body ++ 42 ∷ 47 ∷ s) ≡ strip_noise between s
unfolding strip_noise contains starts_with
strip_block [] s h = refl
strip_block (c ∷ []) s h =
    let q : (c == 42 && false) ≡ false = ground arith in rw (strip_noise, q) refl
strip_block (c ∷ d ∷ body) s h =
    let q : (c == 42 && d == 47) ≡ false = ground arith in
    let r : contains (42 ∷ 47 ∷ []) (d ∷ body) ≡ false = ground arith in
    rw (strip_noise, q) (strip_block (d ∷ body) s r)

strip_leading_noise-append :
    (noise s : Bytes) → IsNoise noise → strip_leading_noise (noise ++ s) ≡ strip_leading_noise s
unfolding strip_leading_noise strip_noise
strip_leading_noise-append _ s nothing = refl
strip_leading_noise-append _ s (blank c {s = t} h n) =
    rw (strip_noise, h) (strip_leading_noise-append t s n)
strip_leading_noise-append _ s (to_line_end body {s = t} h n) =
    rw (append_assoc body (10 ∷ t) s)
      (strip_line body (t ++ s) h ∙ strip_leading_noise-append t s n)
strip_leading_noise-append _ s (bracketed body {s = t} h n) =
    rw (append_assoc body (42 ∷ 47 ∷ t) s)
      (strip_block body (t ++ s) h ∙ strip_leading_noise-append t s n)

-- Blanks and comments before a statement that `plan` prints do not change that it is classified as
-- its command, if its name, where it has one, is one that a savepoint may have.
pub classify_sql-append_text :
    (noise : Bytes) (st : Statement)
    → IsNoise noise
    → HasName st
    → classify_sql (noise ++ text st) ≡ some (command st)
classify_sql-append_text noise st n h =
    classified (noise ++ text st) (text st) (strip_leading_noise-append noise (text st) n)
    ∙ classify_sql-text st h
  where
    classified :
        (s t : Bytes)
        → strip_leading_noise s ≡ strip_leading_noise t
        → classify_sql s ≡ classify_sql t
    classified s t e = unfold classify_sql in rw e refl
