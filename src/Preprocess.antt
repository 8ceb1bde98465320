-- ===== src/Preprocess.antt =====
-- rust/plex-pg-core/src/keywords/preprocess.rs: the rewrites of SQL text before it is parsed. A text is
-- the list of its characters' code points, and a position counts them: the source counts bytes,
-- and looks for ASCII only.
pub mod Split
pub mod Scan
pub mod Limit
pub mod Statements
pub mod Operators
pub mod Quotes
pub mod Pragma
pub mod Virtual
mod Tests
use plex_postgresql.Prelude.{
  ap, refl, ◌≡◌, ℕ, zero, suc, ◌+◌, ◌-◌, Bool, true, false, not, ◌&&◌, ◌||◌, List, [], ◌∷◌, ◌++◌,
  Option, none, some, if◌then◌else◌, ◌==◌, leb, get_elem?, take, drop, length,
}
use plex_postgresql.Prelude.Bytes.{Bytes, ascii_lower, is_digit, beq}

unfoldable pub to_ascii_lowercase : Bytes → Bytes
to_ascii_lowercase [] = []
to_ascii_lowercase (c ∷ s) = ascii_lower c ∷ to_ascii_lowercase s

-- `join`.
unfoldable pub join : Bytes → List Bytes → Bytes
join sep [] = []
join sep (s ∷ []) = s
join sep (s ∷ t ∷ ss) = s ++ (sep ++ join sep (t ∷ ss))

abbrev pub is_nil : Bytes → Bool
is_nil [] = true
is_nil (c ∷ s) = false

-- `i < bytes.len() && test(bytes[i])`.
abbrev test_opt : (ℕ → Bool) → Option ℕ → Bool
test_opt test none = false
test_opt test (some b) = test b

abbrev pub byte_is : Bytes → ℕ → (ℕ → Bool) → Bool
byte_is s i test = test_opt test (get_elem? s i)

abbrev pub is_ascii_alphabetic : ℕ → Bool
is_ascii_alphabetic b = (leb 65 b && leb b 90) || (leb 97 b && leb b 122)

unfoldable pub is_ident_char : ℕ → Bool
is_ident_char b = is_ascii_alphabetic b || (is_digit b || b == 95)

-- `&s[from..to]`.
unfoldable pub slice : Bytes → ℕ → ℕ → Bytes
slice s from to = take (to - from) (drop from s)

pub length-to_ascii_lowercase : (s : Bytes) → length (to_ascii_lowercase s) ≡ length s
unfolding to_ascii_lowercase
length-to_ascii_lowercase [] = refl
length-to_ascii_lowercase (c ∷ s) = ap suc (length-to_ascii_lowercase s)
