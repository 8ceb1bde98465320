-- ===== src/Helpers.antt =====
-- rust/plex-pg-core/src/db_interpose_helpers/pure_helpers.rs: the tests on paths, names and values that the
-- calls of SQLite's interface make, on bytes. `trim` is that of code points.
pub mod Guide
pub mod Hex
pub mod Library
mod Tests
use plex_postgresql.Prelude.{
  and_then, ℕ, zero, suc, ◌+◌, ◌-◌, ◌*◌, ◌/◌, ◌%◌, Bool, true, false, not, ◌&&◌, ◌||◌, List, [],
  ◌∷◌, ◌++◌, map, Option, none, some, if◌then◌else◌, ◌==◌, leb, ltb, length, drop, take, all, any,
}
use plex_postgresql.Prelude.Bytes.{
  Bytes, codes, beq, contains, starts_with, ends_with, strip_prefix, strip_suffix, is_digit,
  ascii_lower,
}
use plex_postgresql.Preprocess.{to_ascii_lowercase, is_nil, is_ident_char, is_ascii_alphabetic}
use plex_postgresql.Txn.Classify.{trim}

-- `contains_ascii_icase` of a small-letter text.
abbrev pub contains_ascii_icase : Bytes → Bytes → Bool
contains_ascii_icase s needle = contains needle (to_ascii_lowercase s)

unfoldable pub is_aggregate_alias : Bytes → Bool
is_aggregate_alias col =
    let lower = to_ascii_lowercase (trim col) in
    not (is_nil col)
    && (any (beq lower) (codes "count" ∷ codes "sum" ∷ codes "max" ∷ codes "min" ∷ codes "avg" ∷ [])
        || any (λ prefix. starts_with prefix lower)
            (codes "count(" ∷ codes "sum(" ∷ codes "max(" ∷ codes "min(" ∷ codes "avg(" ∷ []))

unfoldable pub pg_sql_has_timestamp_hint : Bytes → Bool
pg_sql_has_timestamp_hint sql =
    contains (codes "_at") sql
    || (contains (codes "changed_at") sql
        || (contains (codes "updated_at") sql || contains (codes "created_at") sql))

-- The text before the first of the suffixes that it has.
unfoldable pub strip_first : List Bytes → Bytes → Bytes
strip_first [] p = p
strip_first (suffix ∷ rest) p =
    let later = strip_first rest p in
    elim (strip_suffix suffix p) [ none ↦ later | some front ↦ front ]

-- `split` at a character: always one part at least.
abbrev pub cons_part : ℕ → List Bytes → List Bytes
cons_part c [] = (c ∷ []) ∷ []
cons_part c (g ∷ gs) = (c ∷ g) ∷ gs

unfoldable pub split_on : ℕ → Bytes → List Bytes
split_on sep [] = [] ∷ []
split_on sep (c ∷ s) = let rest = split_on sep s in if c == sep then [] ∷ rest else cons_part c rest

-- `rsplit(sep).next()`.
unfoldable pub last_part : ℕ → Bytes → Bytes → Bytes
last_part sep [] part = part
last_part sep (c ∷ s) part = last_part sep s (if c == sep then s else part)

-- `replace(sep, "")`.
unfoldable pub remove_all : ℕ → Bytes → Bytes
remove_all sep [] = []
remove_all sep (c ∷ s) = let rest = remove_all sep s in if c == sep then rest else c ∷ rest

abbrev pub is_ascii_hexdigit : ℕ → Bool
is_ascii_hexdigit b = is_digit b || ((leb 65 b && leb b 70) || (leb 97 b && leb b 102))

-- Eight, four, four, four and twelve hexadecimal digits.
abbrev pub is_uuid : Bytes → Bool
is_uuid uuid =
    beq (map length (split_on 45 uuid)) (8 ∷ 4 ∷ 4 ∷ 4 ∷ 12 ∷ [])
    && all (all is_ascii_hexdigit) (split_on 45 uuid)

abbrev pub is_provider : Option Bytes → Bool
is_provider none = false
is_provider (some provider) = not (is_nil provider) && all is_ident_char provider

-- The provider, a dash and the uuid of 36 bytes. The test for a cut inside a character is left out: the
-- byte behind such a cut is no hexadecimal digit, so that the uuid is refused just the same.
abbrev pub dvr_of : Bytes → Bool → Option (Bytes × Bool)
dvr_of stem load =
    let cut = length stem - 36 in
    if ltb (length stem) 38
    then none
    else if is_provider (strip_suffix (codes "-") (take cut stem)) && is_uuid (drop cut stem)
    then some (to_ascii_lowercase (remove_all 45 (drop cut stem)), load)
    else none

abbrev pub load_of : Bytes → Option Bytes → Option (Bytes × Bool)
load_of stem none = dvr_of stem false
load_of stem (some stripped) = dvr_of stripped true

unfoldable pub guide_dvr_for_path : Bytes → Option (Bytes × Bool)
guide_dvr_for_path path =
    let p = strip_first (codes "-wal" ∷ codes "-shm" ∷ codes "-journal" ∷ []) path in
    and_then (strip_prefix (codes "tv.plex.providers.epg.") (last_part 47 p p)) (λ rest.
      and_then (strip_suffix (codes ".db") rest)
        (λ stem. load_of stem (strip_suffix (codes "-loading") stem)))

abbrev pub schema_of : Option (Bytes × Bool) → Option Bytes
schema_of none = none
schema_of (some (dvr, load)) = some (codes "epg_" ++ (dvr ++ (if load then codes "_next" else [])))

unfoldable pub epg_schema_for_path : Bytes → Option Bytes
epg_schema_for_path path = schema_of (guide_dvr_for_path path)

abbrev is_load : Option (Bytes × Bool) → Bool
is_load none = false
is_load (some (dvr, load)) = load

unfoldable pub is_guide_load_path : Bytes → Bool
is_guide_load_path path = is_load (guide_dvr_for_path path)

abbrev is_some : Option Bytes → Bool
is_some none = false
is_some (some s) = true

unfoldable pub is_library_db_path : Bytes → Bool
is_library_db_path path =
    let bytes =
      if ltb 4 (length path) && (ends_with (codes "-wal") path || ends_with (codes "-shm") path)
      then take (length path - 4) path
      else path in
    contains_ascii_icase bytes (codes "com.plexapp.plugins.library.db")
    || (contains_ascii_icase bytes (codes "com.plexapp.plugins.library.blobs.db")
        || is_some (epg_schema_for_path path))

unfoldable pub is_library_or_blobs_db_path : Bytes → Bool
is_library_or_blobs_db_path path =
    contains_ascii_icase path (codes "com.plexapp.plugins.library.db")
    || (contains_ascii_icase path (codes "com.plexapp.plugins.library.blobs.db")
        || is_some (epg_schema_for_path path))

unfoldable pub is_blobs_db_path : Bytes → Bool
is_blobs_db_path path = contains_ascii_icase path (codes "com.plexapp.plugins.library.blobs.db")

-- `is_utf8` is the answer of `std::str::from_utf8`.
unfoldable pub contains_binary_bytes : (Bytes → Bool) → Bytes → Bool
contains_binary_bytes is_utf8 bytes =
    not (is_nil bytes)
    && (starts_with (0x1F ∷ 0x8B ∷ []) bytes || (any (λ b. b == 0) bytes || not (is_utf8 bytes)))

-- `{:02x}`.
abbrev pub hex_digit : ℕ → ℕ
hex_digit n = if ltb n 10 then 48 + n else 87 + n

unfoldable pub hex_digits : Bytes → Bytes
hex_digits [] = []
hex_digits (b ∷ bytes) = hex_digit (b / 16) ∷ hex_digit (b % 16) ∷ hex_digits bytes

unfoldable pub bytes_to_pg_hex : Bytes → Bytes
bytes_to_pg_hex bytes = if is_nil bytes then [] else 92 ∷ 120 ∷ hex_digits bytes
