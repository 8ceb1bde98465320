-- ===== src/Helpers/Hex.antt =====
-- db_interpose_helpers/pure_helpers.rs: PostgreSQL's hexadecimal form of bytes is read back.
use plex_postgresql.Prelude.{
  ℕ, ◌+◌, ◌-◌, ◌*◌, ◌/◌, ◌%◌, ◌<◌, [], ◌∷◌, Option, none, some, if◌then◌else◌, ◌≡◌, refl, ap, arith,
  All, and_then,
}
use plex_postgresql.Prelude.Bytes.{Bytes, codes, strip_prefix, is_digit}
use plex_postgresql.Helpers.{hex_digit, hex_digits, bytes_to_pg_hex}

-- What PostgreSQL documents of the hexadecimal form of bytea: two digits for a byte, behind \x.
unfoldable pub digit_value : ℕ → ℕ
digit_value c = if is_digit c then c - 48 else c - 87

unfoldable pub read_pairs : Bytes → Option Bytes
read_pairs [] = some []
read_pairs (h ∷ []) = none
read_pairs (h ∷ l ∷ s) =
    and_then (read_pairs s) (λ rest. some ((digit_value h * 16 + digit_value l) ∷ rest))

unfoldable pub read_bytea : Bytes → Option Bytes
read_bytea s = and_then (strip_prefix (codes "\\x") s) read_pairs

digit_value-hex_digit : (n : ℕ) → n < 16 → digit_value (hex_digit n) ≡ n
unfolding digit_value
digit_value-hex_digit n h = ground (arith, h)

byte-halves :
    (b : ℕ) → b < 256 → digit_value (hex_digit (b / 16)) * 16 + digit_value (hex_digit (b % 16)) ≡ b
byte-halves b h =
    let high : b / 16 < 16 = omega arith in
    let low : b % 16 < 16 = omega arith in
    rw (digit_value-hex_digit (b / 16) high, digit_value-hex_digit (b % 16) low) (omega arith)

read_pairs-hex_digits :
    (bytes : Bytes) → All (λ b. b < 256) bytes → read_pairs (hex_digits bytes) ≡ some bytes
unfolding read_pairs hex_digits
read_pairs-hex_digits [] h = refl
read_pairs-hex_digits (b ∷ bytes) (one, h) =
    rw (read_pairs-hex_digits bytes h) (ap (λ c. some (c ∷ bytes)) (byte-halves b one))

-- The hexadecimal form of bytes that are not none is read back as those bytes.
pub read_bytea-bytes_to_pg_hex :
    (b : ℕ) (bytes : Bytes)
    → All (λ c. c < 256) (b ∷ bytes)
    → read_bytea (bytes_to_pg_hex (b ∷ bytes)) ≡ some (b ∷ bytes)
unfolding read_bytea bytes_to_pg_hex strip_prefix
read_bytea-bytes_to_pg_hex b bytes h = read_pairs-hex_digits (b ∷ bytes) h
