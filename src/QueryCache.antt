-- ===== src/QueryCache.antt =====
-- rust/plex-pg-core/src/pg_query_cache.rs: the query results that one thread keeps for a second, with
-- a count of the statements that read each of them. A place in the vector stands for the pointer
-- that `rust_query_cache_lookup` returns. Allocations succeed. An i32 is kept in two's complement.
pub mod Key
pub mod Store
pub mod Steps
pub mod Scan
pub mod Reclaimable
pub mod Oldest
pub mod Held
pub mod Overwrite
pub mod Stored
pub mod Unique
pub mod Kept
mod Tests
use plex_postgresql.Prelude.{
  ℕ, zero, suc, ◌+◌, ◌-◌, ◌%◌, ◌^◌, Bool, true, false, not, ◌&&◌, ◌||◌, List, [], ◌∷◌, Option, none,
  some, if◌then◌else◌, ◌==◌, ltb, get_elem?, set, replicate, length,
}
use plex_postgresql.Prelude.Bytes.{Bytes}

abbrev pub query_cache_size : ℕ
query_cache_size = 64

abbrev pub query_cache_ttl_ms : ℕ
query_cache_ttl_ms = 1000

abbrev pub query_cache_max_rows : ℕ
query_cache_max_rows = 5

abbrev pub query_cache_max_bytes : ℕ
query_cache_max_bytes = 1048576

-- The values of a row, none for a NULL.
abbrev pub CachedRow : Type 0
CachedRow = List (Option Bytes)

pub record CachedResult : Type 0 where
  pub cache_key : ℕ
  pub created_ms : ℕ
  pub ref_count : ℕ
  pub num_rows : ℕ
  pub num_cols : ℕ
  pub col_types : List ℕ
  pub col_names : List (Option Bytes)
  pub rows : List CachedRow
  pub hit_count : ℕ

unfoldable pub empty : CachedResult
empty = record {
  cache_key = 0;
  created_ms = 0;
  ref_count = 0;
  num_rows = 0;
  num_cols = 0;
  col_types = [];
  col_names = [];
  rows = [];
  hit_count = 0;
}

abbrev pub is_active : CachedResult → Bool
is_active e = not (e.cache_key == 0)

-- An i32 above 0.
abbrev pub is_referenced : CachedResult → Bool
is_referenced e = ltb 0 e.ref_count && ltb e.ref_count 2147483648

unfoldable pub mark_expired : CachedResult → CachedResult
mark_expired e = if is_active e then record e { created_ms = 0 } else e

abbrev pub freed : CachedResult → CachedResult
freed e = record e {
  cache_key = 0;
  num_rows = 0;
  num_cols = 0;
  col_types = [];
  col_names = [];
  rows = [];
}

-- The entry after the call, and whether it was freed.
unfoldable pub free_data : CachedResult → CachedResult × Bool
free_data e =
    if is_active e then (if is_referenced e then (e, false) else (freed e, true)) else (e, false)

pub record QueryCache : Type 0 where
  pub entries : List CachedResult
  pub count : ℕ
  pub total_hits : ℕ
  pub total_misses : ℕ

unfoldable pub new : QueryCache
unfolding empty
new = record {
  entries = replicate query_cache_size empty;
  count = 0;
  total_hits = 0;
  total_misses = 0;
}

abbrev pub write : QueryCache → ℕ → CachedResult → QueryCache
write cache i e = record cache { entries = set cache.entries i e }

-- `fetch_add(1)` and `fetch_sub(1)` of an AtomicI32, which wrap around, and `saturating_sub(1)`.
abbrev pub i32_inc : ℕ → ℕ
i32_inc n = (n + 1) % 4294967296

abbrev pub i32_dec : ℕ → ℕ
i32_dec n = (n + 4294967295) % 4294967296

abbrev pub i32_saturating_dec : ℕ → ℕ
i32_saturating_dec n = if n == 2147483648 then n else i32_dec n

abbrev pub u64_inc : ℕ → ℕ
u64_inc n = (n + 1) % 2 ^ 64

-- `now.wrapping_sub(created_ms)`.
abbrev pub age : ℕ → CachedResult → ℕ
age now e = (now + (2 ^ 64 - e.created_ms)) % 2 ^ 64

-- The first entry with the key, and its place.
unfoldable pub position : ℕ → List CachedResult → ℕ → Option (ℕ × CachedResult)
position key [] i = none
position key (e ∷ es) i =
    let rest = position key es (i + 1) in if e.cache_key == key then some (i, e) else rest

abbrev pub hit : CachedResult → CachedResult
hit e = record e { ref_count = i32_inc e.ref_count; hit_count = i32_inc e.hit_count }

abbrev pub missed : QueryCache → QueryCache
missed cache = record cache { total_misses = u64_inc cache.total_misses }

unfoldable pub lookup_at : QueryCache → ℕ → Option (ℕ × CachedResult) → QueryCache × Option ℕ
lookup_at cache now none = (missed cache, none)
lookup_at cache now (some (i, e)) =
    if ltb (age now e) query_cache_ttl_ms
    then (record (write cache i (hit e)) { total_hits = u64_inc cache.total_hits }, some i)
    else (missed (write cache i (free_data e).0), none)

-- `enabled` is the answer of `query_cache_enabled`, `now` that of the clock.
unfoldable pub lookup : Bool → QueryCache → ℕ → ℕ → QueryCache × Option ℕ
lookup enabled cache key now =
    if not enabled || key == 0
    then (cache, none)
    else lookup_at cache now (position key cache.entries 0)

unfoldable pub invalidate_at : QueryCache → Option (ℕ × CachedResult) → QueryCache
invalidate_at cache none = cache
invalidate_at cache (some (i, e)) =
    if (free_data e).1
    then record (write cache i (free_data e).0) { count = i32_saturating_dec cache.count }
    else write cache i (mark_expired e)

unfoldable pub invalidate : Bool → QueryCache → ℕ → QueryCache
invalidate enabled cache key =
    if not enabled || key == 0 then cache else invalidate_at cache (position key cache.entries 0)

unfoldable pub release_at : QueryCache → ℕ → Option CachedResult → QueryCache
release_at cache i none = cache
release_at cache i (some e) = write cache i (record e { ref_count = i32_dec e.ref_count })

-- None is the null pointer.
unfoldable pub release : Bool → QueryCache → Option ℕ → QueryCache
release enabled cache none = cache
release enabled cache (some i) =
    if enabled then release_at cache i (get_elem? cache.entries i) else cache

-- The hits and the misses.
unfoldable pub stats : Bool → QueryCache → ℕ × ℕ
stats enabled cache = if enabled then (cache.total_hits, cache.total_misses) else (0, 0)
