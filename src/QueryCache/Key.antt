-- ===== src/QueryCache/Key.antt =====
-- rust/plex-pg-core/src/pg_query_cache.rs: the key of a statement with its parameters. A result of 0
-- says that there is no key.
use Prim.Native.Nat.{bit_xor}
use plex_postgresql.Prelude.{
  ℕ, ◌*◌, ◌%◌, ◌^◌, Bool, not, ◌||◌, List, [], ◌∷◌, Option, none, some, if◌then◌else◌, take,
}
use plex_postgresql.Prelude.Bytes.{Bytes, beq}

abbrev pub fnv_offset_basis : ℕ
fnv_offset_basis = 0xcbf29ce484222325

abbrev pub fnv_prime : ℕ
fnv_prime = 0x100000001b3

abbrev pub max_params : ℕ
max_params = 128

-- `hash ^= value; hash = hash.wrapping_mul(FNV_PRIME)`.
abbrev pub mix : ℕ → ℕ → ℕ
mix hash value = bit_xor hash value * fnv_prime % 2 ^ 64

unfoldable pub fnv1a_from : Bytes → ℕ → ℕ
fnv1a_from [] hash = hash
fnv1a_from (byte ∷ bytes) hash = fnv1a_from bytes (mix hash byte)

unfoldable pub fnv1a_hash_slice : Bytes → ℕ
fnv1a_hash_slice bytes = fnv1a_from bytes fnv_offset_basis

-- A NULL parameter has a value of its own.
unfoldable pub mix_params : List (Option Bytes) → ℕ → ℕ
mix_params [] hash = hash
mix_params (some val ∷ params) hash = mix_params params (mix hash (fnv1a_hash_slice val))
mix_params (none ∷ params) hash = mix_params params (mix hash 0xDEADBEEF)

unfoldable pub compute_cache_key : Bytes → List (Option Bytes) → ℕ
compute_cache_key sql params = if beq sql [] then 0 else mix_params params (fnv1a_hash_slice sql)

-- No SQL is the null pointer. At most 128 parameters are read.
unfoldable pub query_cache_key : Bool → Option Bytes → List (Option Bytes) → ℕ
query_cache_key enabled none params = 0
query_cache_key enabled (some sql) params =
    if not enabled || beq sql [] then 0 else compute_cache_key sql (take max_params params)
