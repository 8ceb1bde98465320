-- ===== src/Preprocess/Limit/Slices.antt =====
-- keywords/preprocess.rs: two keywords that stand as words do not overlap, so that the slices between
-- them are in order.
use plex_postgresql.Prelude.{
  ℕ, zero, suc, ◌+◌, ◌-◌, ◌≤◌, ◌<◌, true, [], ◌∷◌, some, ◌==◌, ltb, get_elem?, drop, length, all,
  ◌≡◌, ◌≢◌, inl, inr, refl, sym, subst, ◌∙◌, ap, arith, Bool-cases,
}
use plex_postgresql.Prelude.Bytes.{Bytes, codes, ascii_lower}
use plex_postgresql.Preprocess.{byte_is, is_ident_char}
use plex_postgresql.Preprocess.Scan.{icase_prefix}
use plex_postgresql.Preprocess.Scan.Keyword.{WordAt}

get_elem?-drop : (s : Bytes) (p k : ℕ) → get_elem? (drop p s) k ≡ get_elem? s (p + k)
get_elem?-drop s zero k = let here : k ≡ 0 + k = omega arith in ap (get_elem? s) here
get_elem?-drop [] (suc p) k = refl
get_elem?-drop (c ∷ s) (suc p) k =
    let here : suc (p + k) ≡ suc p + k = omega arith in
    get_elem?-drop s p k ∙ ap (get_elem? (c ∷ s)) here

icase_prefix-get_elem? :
    (kw s : Bytes) (k n : ℕ)
    → icase_prefix kw s ≡ true
    → get_elem? kw k ≡ some n
    → (c : ℕ) × (get_elem? s k ≡ some c) × (ascii_lower c ≡ ascii_lower n)
unfolding icase_prefix
icase_prefix-get_elem? [] s k n h g = cc
icase_prefix-get_elem? (m ∷ kw) [] k n h g = cc
icase_prefix-get_elem? (m ∷ kw) (c ∷ s) zero n h g =
    let one : m ≡ n = ground (arith, g) in
    let same : ascii_lower c ≡ ascii_lower m = ground (arith, h) in
    (c, refl, same ∙ ap ascii_lower one)
icase_prefix-get_elem? (m ∷ kw) (c ∷ s) (suc k) n h g =
    let rest : icase_prefix kw s ≡ true = ground (arith, h) in
    icase_prefix-get_elem? kw s k n rest g

ident_char_lower :
    (c n : ℕ) → ascii_lower c ≡ ascii_lower n → is_ident_char n ≡ true → is_ident_char c ≡ true
unfolding ascii_lower is_ident_char
ident_char_lower c n h e = ground (arith, h, e)

all-get_elem? :
    (kw : Bytes) (k : ℕ)
    → all is_ident_char kw ≡ true
    → k < length kw
    → (n : ℕ) × (get_elem? kw k ≡ some n) × (is_ident_char n ≡ true)
all-get_elem? [] k a h = elim h [ ]
all-get_elem? (c ∷ kw) zero a h = (c, refl, ground (arith, a))
all-get_elem? (c ∷ kw) (suc k) a h = all-get_elem? kw k (ground (arith, a)) (omega arith)

module _ (s : Bytes) where
  -- The character of a keyword that stands at `p`.
  char_at :
      (kw : Bytes) (p k n : ℕ)
      → WordAt s kw p
      → get_elem? kw k ≡ some n
      → (c : ℕ) × (get_elem? s (p + k) ≡ some c) × (ascii_lower c ≡ ascii_lower n)
  char_at kw p k n w g =
      let (c, h, e) = icase_prefix-get_elem? kw (drop p s) k n w.same g in
      (c, sym (get_elem?-drop s p k) ∙ h, e)

  -- No word starts behind a character of an identifier.
  no_start :
      (kw : Bytes) (q c : ℕ)
      → WordAt s kw (suc q)
      → get_elem? s q ≡ some c
      → is_ident_char c ≡ true
      → ⊥
  no_start kw q c w h e =
      let starts = w.starts in
      let before : suc q - 1 ≡ q = omega arith in
      let test : byte_is s (suc q - 1) is_ident_char ≡ true = rw (before, h, e) refl in
      ground (arith, test, starts)

  -- The next word stands behind a keyword of letters.
  pub word_gap :
      (kw other : Bytes) (p q : ℕ)
      → all is_ident_char kw ≡ true
      → WordAt s kw p
      → WordAt s other q
      → p < q
      → p + length kw ≤ q
  word_gap kw other p zero letters w v lt = absurd (omega arith)
  word_gap kw other p (suc q) letters w v lt = elim (Bool-cases (ltb q (p + length kw))) [
    | inr far ↦ ground (arith, far, lt)
    | inl near ↦
        let (n, g, ident) = all-get_elem? kw (q - p) letters (ground (arith, near, lt)) in
        let (c, h, e) = char_at kw p (q - p) n w g in
        let here : p + (q - p) ≡ q = omega arith in
        absurd (
          no_start other q c v (subst (λ k. get_elem? s k ≡ some c) here h)
            (ident_char_lower c n e ident))
  ]

  order_letter :
      (k : ℕ)
      → k < 7
      → k ≢ 5
      → (n : ℕ) × (get_elem? (codes "order by") k ≡ some n) × (is_ident_char n ≡ true)
  unfolding is_ident_char
  order_letter zero lt ne = (_, refl, refl)
  order_letter (suc zero) lt ne = (_, refl, refl)
  order_letter (suc (suc zero)) lt ne = (_, refl, refl)
  order_letter (suc (suc (suc zero))) lt ne = (_, refl, refl)
  order_letter (suc (suc (suc (suc zero)))) lt ne = (_, refl, refl)
  order_letter (suc (suc (suc (suc (suc zero))))) lt ne = absurd (ne refl)
  order_letter (suc (suc (suc (suc (suc (suc zero)))))) lt ne = (_, refl, refl)
  order_letter (suc (suc (suc (suc (suc (suc (suc k))))))) lt ne = absurd (omega arith)

  -- The next word, which does not begin with a b, stands behind "order by".
  pub order_gap :
      (o : ℕ) (other : Bytes) (p q : ℕ)
      → ascii_lower o ≢ 98
      → WordAt s (codes "order by") p
      → WordAt s (o ∷ other) q
      → p < q
      → p + 8 ≤ q
  unfolding ascii_lower
  order_gap o other p zero ne w v lt = absurd (omega arith)
  order_gap o other p (suc q) ne w v lt = elim (Bool-cases (ltb q (p + 7))) [
    | inr far ↦ ground (arith, far, lt)
    | inl near ↦ elim (Bool-cases (q - p == 5)) [
      | inr letter ↦
          let (n, g, ident) =
            order_letter (q - p) (ground (arith, near, lt)) (ground (arith, letter)) in
          let (c, h, e) = char_at (codes "order by") p (q - p) n w g in
          let here : p + (q - p) ≡ q = omega arith in
          absurd (
            no_start (o ∷ other) q c v (subst (λ k. get_elem? s k ≡ some c) here h)
              (ident_char_lower c n e ident))
      | inl blank ↦
          let (c, h, e) = char_at (codes "order by") p 6 98 w refl in
          let (d, h', e') = char_at (o ∷ other) (suc q) 0 o v refl in
          let here : p + 6 ≡ suc q + 0 =
            (let five : q - p ≡ 5 = ground (arith, blank) in omega arith) in
          let one : c ≡ d = ground (arith, h', subst (λ k. get_elem? s k ≡ some c) here h) in
          absurd (ne (sym e' ∙ sym (ap ascii_lower one) ∙ e))
    ]
  ]
