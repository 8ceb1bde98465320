-- ===== src/Txn/Classify/Words.antt =====
-- Names pass through the trims, the split and the unquoting.
use plex_postgresql.Prelude.{
  ℕ, Bool, true, false, ◌||◌, [], ◌∷◌, ◌++◌, some, ◌==◌, all, ◌≡◌, refl, arith,
}
use plex_postgresql.Prelude.Bytes.{Bytes}
use plex_postgresql.Txn.Classify.{
  is_whitespace, is_semicolon, is_name_char, trim_start, trim_end, trim, split_from, savepoint_name,
  unquoted,
}

pub name_char-is_whitespace : (c : ℕ) → is_name_char c ≡ true → is_whitespace c ≡ false
unfolding is_whitespace
name_char-is_whitespace c e = ground arith

name_char-is_semicolon : (c : ℕ) → is_name_char c ≡ true → is_semicolon c ≡ false
name_char-is_semicolon c e = ground arith

-- Nothing of a name is blank.
abbrev pub Passes : (ℕ → Bool) → Type 0
Passes p = (c : ℕ) → is_name_char c ≡ true → p c ≡ false

trim_end-name : (p : ℕ → Bool) (n : Bytes) → Passes p → all is_name_char n ≡ true → trim_end p n ≡ n
unfolding trim_end
trim_end-name p [] h e = refl
trim_end-name p (c ∷ []) h e = let q : p c ≡ false = h c (ground arith) in rw q refl
trim_end-name p (c ∷ d ∷ n) h e =
    let q : all is_name_char (d ∷ n) ≡ true = ground arith in rw (trim_end-name p (d ∷ n) h q) refl

-- A text that ends in a name has no blank at its end.
pub trim_end-append_name :
    (p : ℕ → Bool) (xs : Bytes) (c : ℕ) (n : Bytes)
    → Passes p
    → all is_name_char (c ∷ n) ≡ true
    → trim_end p (xs ++ c ∷ n) ≡ xs ++ c ∷ n
unfolding trim_end
trim_end-append_name p [] c n h e = trim_end-name p (c ∷ n) h e
trim_end-append_name p (x ∷ []) c n h e = rw (trim_end-name p (c ∷ n) h e) refl
trim_end-append_name p (x ∷ y ∷ xs) c n h e = rw (trim_end-append_name p (y ∷ xs) c n h e) refl

pub split_from-name : (n : Bytes) → all is_name_char n ≡ true → split_from n ≡ (n, [])
unfolding split_from
split_from-name [] e = refl
split_from-name (c ∷ n) e =
    let q : all is_name_char n ≡ true = ground arith in
    let r : is_whitespace c ≡ false = name_char-is_whitespace c (ground arith) in
    rw (split_from-name n q, r) refl

-- A text that starts with no blank, and ends in a name, is not changed by the trims.
pub trim-append_name :
    (x : ℕ) (xs : Bytes) (c : ℕ) (n : Bytes)
    → is_whitespace x ≡ false
    → all is_name_char (c ∷ n) ≡ true
    → trim (trim_end is_semicolon (trim (x ∷ xs ++ c ∷ n))) ≡ x ∷ xs ++ c ∷ n
unfolding trim trim_start
trim-append_name x xs c n h e =
    let ends = trim_end-append_name is_whitespace (x ∷ xs) c n name_char-is_whitespace e in
    let semis = trim_end-append_name is_semicolon (x ∷ xs) c n name_char-is_semicolon e in
    rw (h, ends, semis, h, ends) refl

unquoted-name : (c : ℕ) (n : Bytes) → all is_name_char (c ∷ n) ≡ true → unquoted (c ∷ n) ≡ c ∷ n
unquoted-name c n e =
    let quotes : (c == 34 || c == 39 || c == 96) ≡ false = ground arith in
    let bracket : (c == 91) ≡ false = ground arith in rw (quotes, bracket) refl

-- A bare name is the name of its savepoint.
pub savepoint_name_lem :
    (c : ℕ) (n : Bytes) → all is_name_char (c ∷ n) ≡ true → savepoint_name (c ∷ n) ≡ some (c ∷ n)
unfolding savepoint_name trim trim_start
savepoint_name_lem c n e =
    let start : is_whitespace c ≡ false = name_char-is_whitespace c (ground arith) in
    let ends = trim_end-name is_whitespace (c ∷ n) name_char-is_whitespace e in
    let semis = trim_end-name is_semicolon (c ∷ n) name_char-is_semicolon e in
    rw (start, ends, semis, start, ends, unquoted-name c n e, e) refl
