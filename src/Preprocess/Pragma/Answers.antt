-- ===== src/Preprocess/Pragma/Answers.antt =====
-- keywords/preprocess.rs: nothing of a PRAGMA's value gets into the SQL text but letters, digits and signs.
use plex_postgresql.Prelude.{
  ℕ, drop, ◌+◌, ◌-◌, ◌*◌, Bool, true, false, not, ◌&&◌, ◌||◌, List, [], ◌∷◌, ◌++◌, map, Option,
  none, some, if◌then◌else◌, ◌==◌, leb, all, any, All, ◌≡◌, refl, subst, arith, inl, inr,
  Bool-cases, Option-cases,
}
use plex_postgresql.Prelude.Bytes.{Bytes, codes, beq, is_digit}
use plex_postgresql.Prelude.Decimal.{decimal, IsDigit, decimal-IsDigit}
use plex_postgresql.Preprocess.{is_nil}
use plex_postgresql.Preprocess.Pragma.{
  digits_from, in_range, digits_of, parse_i64, Mapped, Values, words, numbers, Setting, pick,
  chosen_value, settings, setting_named, set_config, configured, normalized, unknown, timeout,
  set_setting, read_setting, answered, map_set, map_read, by_value, or_answer, map_pragma,
  pragma_name, map_assignment, Assignment, is_pragma, rewrite_single_pragma_stmt,
}
use plex_postgresql.Txn.Classify.{trim}

-- A small letter, a digit or a sign.
abbrev pub is_plain : ℕ → Bool
is_plain c = is_digit c || ((leb 97 c && leb c 122) || (c == 43 || c == 45))

-- The texts in which nothing of the statement stands.
abbrev pub constants : List Bytes
constants =
    []
    ∷ codes "SELECT 1"
    ∷ codes "SELECT 1 AS foreign_keys"
    ∷ codes "SELECT 0 AS case_sensitive_like"
    ∷ codes "SELECT 1 AS optimize"
    ∷ codes "SELECT 'ok' AS integrity_check"
    ∷ codes "SELECT 'ok' AS quick_check"
    ∷ codes "SELECT 0 AS busy, 0 AS log, 0 AS checkpointed"
    ∷ codes "SELECT current_setting('lock_timeout') AS busy_timeout"
    ∷ codes "__STRICT_PRAGMA_ERROR__"
    ∷ map (λ (p : Bytes × Setting). p.1.reads) settings

abbrev pub configs : List Bytes
configs = codes "lock_timeout" ∷ map (λ (p : Bytes × Setting). p.1.config) settings

-- One of the constants, or a call of set_config for one of the settings with a plain value.
pub data IsAnswer : Bytes → Type 0 where
  constant : (text : Bytes) → any (beq text) constants ≡ true → IsAnswer text
  configures :
      (config value : Bytes)
      → any (beq config) configs ≡ true
      → all is_plain value ≡ true
      → IsAnswer (set_config config value)

abbrev PlainValues : Values → Type 0
PlainValues (words table) = all (λ (p : Bytes × Bytes). all is_plain p.1) table ≡ true
PlainValues numbers = Unit

abbrev IsPlain : Setting → Type 0
IsPlain s =
    (any (beq s.reads) constants ≡ true)
    × (any (beq s.config) configs ≡ true)
    × PlainValues s.values

abbrev AllPlain : List (Bytes × Setting) → Type 0
AllPlain [] = Unit
AllPlain ((n, s) ∷ rest) = IsPlain s × AllPlain rest

settings-AllPlain : AllPlain settings
unfolding beq
settings-AllPlain = (
  (refl, refl, refl),
  (
    (refl, refl, refl),
    (
      (refl, refl, refl),
      (
        (refl, refl, tt),
        (
          (refl, refl, tt),
          ((refl, refl, refl), ((refl, refl, refl), ((refl, refl, tt), ((refl, refl, tt), tt)))),
        ),
      ),
    ),
  ),
)

setting_named-IsPlain :
    (table : List (Bytes × Setting)) (name : Bytes) (s : Setting)
    → AllPlain table
    → setting_named table name ≡ some s
    → IsPlain s
unfolding setting_named
setting_named-IsPlain [] name s plain h = cc
setting_named-IsPlain ((n, t) ∷ rest) name s (one, plain) h = elim (Bool-cases (beq n name)) [
  | inl hit ↦ let q = rw hit at h in let same : t ≡ s = ground (arith, q) in subst IsPlain same one
  | inr miss ↦ setting_named-IsPlain rest name s plain (rw miss at h)
]

pick-plain :
    (table : List (Bytes × Bytes)) (v : Bytes)
    → all (λ (p : Bytes × Bytes). all is_plain p.1) table ≡ true
    → all is_plain (pick table v) ≡ true
unfolding pick
pick-plain [] v h = refl
pick-plain ((word, name) ∷ rest) v h = elim (Bool-cases (beq word v)) [
  | inl hit ↦ rw hit (ground (arith, h))
  | inr miss ↦ rw miss (pick-plain rest v (ground (arith, h)))
]

digits_from-plain : (n m : ℕ) (s : Bytes) → digits_from n s ≡ some m → all is_plain s ≡ true
unfolding digits_from
digits_from-plain n m [] h = refl
digits_from-plain n m (c ∷ s) h = elim (Bool-cases (is_digit c)) [
  | inl digit ↦
      let rest = digits_from-plain (n * 10 + (c - 48)) m s (rw digit at h) in
      ground (arith, digit, rest)
  | inr other ↦ absurd (let q = rw other at h in cc)
]

digits_of-plain :
    (negative : Bool) (r : Bool × ℕ) (s : Bytes)
    → in_range negative (digits_of s) ≡ some r
    → all is_plain s ≡ true
digits_of-plain negative r [] h = refl
digits_of-plain negative r (c ∷ s) h = elim (Option-cases (digits_from 0 (c ∷ s))) [
  | inl bad ↦ absurd (let q = rw bad at h in cc)
  | inr (m, good) ↦ digits_from-plain 0 m (c ∷ s) good
]

parse_i64-plain : (v : Bytes) (r : Bool × ℕ) → parse_i64 v ≡ some r → all is_plain v ≡ true
unfolding parse_i64
parse_i64-plain [] r h = refl
parse_i64-plain (c ∷ s) r h = elim (Bool-cases (c == 45)) [
  | inl minus ↦ let rest = digits_of-plain true r s (rw minus at h) in ground (arith, minus, rest)
  | inr other ↦ elim (Bool-cases (c == 43)) [
    | inl plus ↦
        let rest = digits_of-plain false r s (rw (other, plus) at h) in ground (arith, plus, rest)
    | inr digit ↦ digits_of-plain false r (c ∷ s) (rw (other, digit) at h)
  ]
]

chosen_value-plain :
    (values : Values) (v : Bytes) → PlainValues values → all is_plain (chosen_value values v) ≡ true
unfolding chosen_value
chosen_value-plain (words table) v h = pick-plain table v h
chosen_value-plain numbers v h = elim (Option-cases (parse_i64 v)) [
  | inl bad ↦ rw bad refl
  | inr (r, good) ↦ rw good (parse_i64-plain v r good)
]

digits-plain : (s : Bytes) → All IsDigit s → all is_plain (s ++ codes "ms") ≡ true
digits-plain [] h = refl
digits-plain (c ∷ s) (d, h) = let rest = digits-plain s h in ground (arith, d, rest)

unknown-IsAnswer : (strict : Bool) → IsAnswer (unknown strict).text
unfolding beq
unknown-IsAnswer true = constant _ refl
unknown-IsAnswer false = constant _ refl

configured-IsAnswer :
    (config value : Bytes)
    → any (beq config) configs ≡ true
    → all is_plain value ≡ true
    → IsAnswer (configured config value).text
unfolding beq
configured-IsAnswer config [] c h = constant _ refl
configured-IsAnswer config (b ∷ value) c h = configures config (b ∷ value) c h

timeout-IsAnswer : (r : Option (Bool × ℕ)) → IsAnswer (timeout r).text
unfolding beq
timeout-IsAnswer none = constant _ refl
timeout-IsAnswer (some (negative, n)) =
    configures (codes "lock_timeout") _ refl
      (digits-plain (decimal (if negative then 0 else n)) (decimal-IsDigit _))

set_setting-IsAnswer :
    (strict : Bool) (value : Bytes) (o : Option Setting)
    → ((s : Setting) → o ≡ some s → IsPlain s)
    → IsAnswer (set_setting strict value o).text
set_setting-IsAnswer strict value none h = unknown-IsAnswer strict
set_setting-IsAnswer strict value (some s) h =
    let (_, c, v) = h s refl in
    configured-IsAnswer s.config _ c (chosen_value-plain s.values (normalized value) v)

read_setting-IsAnswer :
    (strict : Bool) (o : Option Setting)
    → ((s : Setting) → o ≡ some s → IsPlain s)
    → IsAnswer (read_setting strict o).text
read_setting-IsAnswer strict none h = unknown-IsAnswer strict
read_setting-IsAnswer strict (some s) h = let (r, _, _) = h s refl in constant s.reads r

named-IsPlain : (name : Bytes) (s : Setting) → setting_named settings name ≡ some s → IsPlain s
named-IsPlain name s h = setting_named-IsPlain settings name s settings-AllPlain h

if-IsAnswer :
    (b : Bool) (m n : Mapped)
    → IsAnswer m.text
    → IsAnswer n.text
    → IsAnswer (if b then m else n).text
if-IsAnswer true m n p q = p
if-IsAnswer false m n p q = q

map_set-IsAnswer : (strict : Bool) (name value : Bytes) → IsAnswer (map_set strict name value).text
unfolding map_set beq
map_set-IsAnswer strict name value =
    if-IsAnswer (beq name (codes "foreign_keys")) _ _ (constant _ refl) (
      if-IsAnswer (beq name (codes "case_sensitive_like")) _ _ (constant _ refl) (
        if-IsAnswer (beq name (codes "busy_timeout")) _ _ (timeout-IsAnswer _)
          (set_setting-IsAnswer strict value (setting_named settings name) (named-IsPlain name))))

map_read-IsAnswer : (strict : Bool) (name : Bytes) → IsAnswer (map_read strict name).text
unfolding map_read beq
map_read-IsAnswer strict name =
    if-IsAnswer (beq name (codes "foreign_keys")) _ _ (constant _ refl) (
      if-IsAnswer (beq name (codes "case_sensitive_like")) _ _ (constant _ refl) (
        if-IsAnswer (beq name (codes "busy_timeout")) _ _ (constant _ refl)
          (read_setting-IsAnswer strict (setting_named settings name) (named-IsPlain name))))

by_value-IsAnswer :
    (strict : Bool) (name : Bytes) (value : Option Bytes)
    → IsAnswer (by_value strict name value).text
by_value-IsAnswer strict name none = map_read-IsAnswer strict name
by_value-IsAnswer strict name (some value) = map_set-IsAnswer strict name value

-- An answer that may stand in for a mapping.
if_or-IsAnswer :
    (b : Bool) (m answer : Mapped) (o : Option Mapped)
    → IsAnswer answer.text
    → IsAnswer (or_answer m o).text
    → IsAnswer (or_answer m (if b then some answer else o)).text
if_or-IsAnswer true m answer o p q = p
if_or-IsAnswer false m answer o p q = q

map_pragma-IsAnswer :
    (strict : Bool) (name : Bytes) (value : Option Bytes)
    → IsAnswer (map_pragma strict name value).text
unfolding map_pragma answered beq
map_pragma-IsAnswer strict name value =
    let m = by_value strict name value in
    if_or-IsAnswer (beq name (codes "integrity_check")) m _ _ (constant _ refl) (
      if_or-IsAnswer (beq name (codes "quick_check")) m _ _ (constant _ refl) (
        if_or-IsAnswer (beq name (codes "optimize")) m _ _ (constant _ refl) (
          if_or-IsAnswer (beq name (codes "wal_checkpoint")) m _ none (constant _ refl)
            (by_value-IsAnswer strict name value))))

map_assignment-IsAnswer :
    (strict : Bool) (a : Assignment) (m : Mapped)
    → map_assignment strict a ≡ some m
    → IsAnswer m.text
map_assignment-IsAnswer strict (raw, value) m h = elim (Bool-cases (is_nil raw)) [
  | inl empty ↦ absurd (let q = rw empty at h in cc)
  | inr full ↦
      let q = rw full at h in
      let one : map_pragma strict (pragma_name raw) value ≡ m = ground (arith, q) in
      subst (λ n. IsAnswer n.text) one (map_pragma-IsAnswer strict (pragma_name raw) value)
]

-- What a PRAGMA is rewritten to, whatever its text, is a constant, or sets one of the known settings to
-- a value of small letters, digits and signs only.
pub rewrite_single_pragma-IsAnswer :
    (strict : Bool) (stmt : Bytes) (m : Mapped)
    → rewrite_single_pragma_stmt strict stmt ≡ some m
    → IsAnswer m.text
unfolding rewrite_single_pragma_stmt
rewrite_single_pragma-IsAnswer strict stmt m h =
    elim (Bool-cases (not (is_pragma (trim stmt)) || is_nil (trim (drop 6 (trim stmt))))) [
      | inl out ↦ absurd (let q = rw out at h in cc)
      | inr on ↦ map_assignment-IsAnswer strict _ m (rw on at h)
    ]
