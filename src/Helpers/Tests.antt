-- ===== src/Helpers/Tests.antt =====
-- Runs of the helpers, and instances of their theorems.
use plex_postgresql.Prelude.{Bool, true, [], ◌∷◌, ◌++◌, some, if◌then◌else◌, ◌≡◌, refl, arith}
use plex_postgresql.Prelude.Bytes.{
  Bytes, codes, beq, starts_with, strip_prefix, strip_suffix, ascii_lower,
}
use plex_postgresql.Preprocess.{to_ascii_lowercase, is_ident_char}
use plex_postgresql.Helpers.{
  is_library_db_path, is_library_or_blobs_db_path, strip_first, split_on, last_part, remove_all,
  guide_dvr_for_path, epg_schema_for_path, is_aggregate_alias, hex_digits, bytes_to_pg_hex,
}
use plex_postgresql.Helpers.Guide.{IsDvr, epg_schema_for_path-IsDvr}
use plex_postgresql.Helpers.Library.{is_library_db_path-same}
use plex_postgresql.Helpers.Hex.{read_bytea, read_bytea-bytes_to_pg_hex}
use plex_postgresql.Txn.Classify.{trim, trim_start, trim_end, is_whitespace}

abbrev guide : Bytes
guide = codes "/db/tv.plex.providers.epg.xmltv-ADFE4A6F-79d0-4135-93d5-edf0235ec02b-loading.db-wal"

guide_schema : epg_schema_for_path guide ≡ some (codes "epg_adfe4a6f79d0413593d5edf0235ec02b_next")
unfolding epg_schema_for_path guide_dvr_for_path strip_first split_on last_part remove_all
    strip_prefix strip_suffix beq to_ascii_lowercase ascii_lower is_ident_char
guide_schema = refl

alias_test : is_aggregate_alias (codes " MAX(x)") ≡ true
unfolding is_aggregate_alias starts_with beq to_ascii_lowercase ascii_lower trim trim_start trim_end
    is_whitespace
alias_test = refl

hex_test : bytes_to_pg_hex (0 ∷ 171 ∷ []) ≡ codes "\\x00ab"
unfolding bytes_to_pg_hex hex_digits
hex_test = refl

epg_schema_for_path-IsDvr_example :
    (dvr : Bytes) × (load : Bool) × IsDvr dvr
    × (guide_dvr_for_path guide ≡ some (dvr, load))
    × (codes "epg_adfe4a6f79d0413593d5edf0235ec02b_next"
        ≡ codes "epg_" ++ (dvr ++ (if load then codes "_next" else [])))
epg_schema_for_path-IsDvr_example =
    epg_schema_for_path-IsDvr guide (codes "epg_adfe4a6f79d0413593d5edf0235ec02b_next") guide_schema

read_bytea-bytes_to_pg_hex_example :
    read_bytea (bytes_to_pg_hex (0 ∷ 171 ∷ [])) ≡ some (0 ∷ 171 ∷ [])
read_bytea-bytes_to_pg_hex_example =
    read_bytea-bytes_to_pg_hex 0 (171 ∷ []) (omega arith, (omega arith, tt))

is_library_db_path-same_example : is_library_db_path guide ≡ is_library_or_blobs_db_path guide
is_library_db_path-same_example = is_library_db_path-same guide
