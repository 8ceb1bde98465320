-- ===== src/QueryCache/Store.antt =====
-- rust/plex-pg-core/src/pg_query_cache.rs: `rust_query_cache_store`, the choice of a slot and the copy of
-- a result into it.
use plex_postgresql.Prelude.{
  ℕ, ◌+◌, ◌-◌, ◌^◌, Bool, not, ◌&&◌, ◌||◌, List, [], ◌∷◌, Option, none, some, if◌then◌else◌, ◌==◌,
  ltb, get_elem?, length,
}
use plex_postgresql.Prelude.Bytes.{Bytes}
use plex_postgresql.QueryCache.{
  QueryCache, CachedResult, CachedRow, is_active, is_referenced, free_data, write, age, i32_inc,
  i32_saturating_dec, query_cache_ttl_ms, query_cache_max_rows, query_cache_max_bytes,
}

-- The local variables of the loop of `store`.
pub record Slots : Type 0 where
  pub exact_match : Option ℕ
  pub empty_slot : Option ℕ
  pub expired : Option ℕ
  pub oldest : Option ℕ
  pub oldest_time : ℕ

abbrev pub no_slots : Slots
no_slots = record {
  exact_match = none;
  empty_slot = none;
  expired = none;
  oldest = none;
  oldest_time = 2 ^ 64 - 1;
}

abbrev pub get_or_insert : Option ℕ → ℕ → Option ℕ
get_or_insert none i = some i
get_or_insert (some j) i = some j

-- One round for an entry under another key.
unfoldable pub visit : ℕ → ℕ → CachedResult → Slots → Slots
visit now i e s =
    if not (is_active e)
    then record s { empty_slot = get_or_insert s.empty_slot i }
    else if not (ltb (age now e) query_cache_ttl_ms) && not (is_referenced e)
    then record s { expired = get_or_insert s.expired i }
    else if not (is_referenced e) && ltb e.created_ms s.oldest_time
    then record s { oldest = some i; oldest_time = e.created_ms }
    else s

-- None for the return at an entry under the key that is still read.
unfoldable pub scan : ℕ → ℕ → List CachedResult → ℕ → Slots → Option Slots
scan key now [] i s = some s
scan key now (e ∷ es) i s =
    let rest = scan key now es (i + 1) (visit now i e s) in
    if e.cache_key == key
    then (if is_referenced e then none else some (record s { exact_match = some i }))
    else rest

abbrev pub or : Option ℕ → Option ℕ → Option ℕ
or none b = b
or (some i) b = some i

abbrev pub choose : Option Slots → Option ℕ
choose none = none
choose (some s) = or s.exact_match (or s.empty_slot (or s.expired s.oldest))

-- What `store` is given: an i32 below 0 for a number of rows or columns goes the way of 0.
pub record QueryResult : Type 0 where
  pub num_cols : ℕ
  pub col_types : List ℕ
  pub col_names : List (Option Bytes)
  pub rows : List CachedRow

-- The bytes of the names, with their ends.
unfoldable pub names_size : List (Option Bytes) → ℕ
names_size [] = 0
names_size (none ∷ names) = names_size names
names_size (some s ∷ names) = length s + 1 + names_size names

-- The size after the copy of a row and of the rows, none when it became too large.
unfoldable pub copy_row : CachedRow → ℕ → Option ℕ
copy_row [] total = some total
copy_row (none ∷ vs) total = copy_row vs total
copy_row (some v ∷ vs) total =
    let grown = total + (length v + 1) in
    let rest = copy_row vs grown in if ltb query_cache_max_bytes grown then none else rest

unfoldable pub copy_rows : List CachedRow → Option ℕ → Option ℕ
copy_rows rows none = none
copy_rows [] (some total) = some total
copy_rows (r ∷ rs) (some total) = copy_rows rs (copy_row r total)

unfoldable pub cleanup_partial : CachedResult → CachedResult
cleanup_partial e = (free_data (record e { ref_count = 0 })).0

abbrev pub stored : ℕ → QueryResult → ℕ → CachedResult
stored key r created = record {
  cache_key = key;
  created_ms = created;
  ref_count = 0;
  num_rows = length r.rows;
  num_cols = r.num_cols;
  col_types = r.col_types;
  col_names = r.col_names;
  rows = r.rows;
  hit_count = 0;
}

-- The slot's entry, freed if it was active: none when the slot is busy.
unfoldable pub reclaim : QueryCache → ℕ → CachedResult → Option QueryCache
reclaim cache i e =
    if is_active e
    then (if (free_data e).1
        then some
            (record (write cache i (free_data e).0) { count = i32_saturating_dec cache.count })
        else none)
    else some cache

unfoldable pub fill : QueryCache → ℕ → CachedResult → ℕ → QueryResult → ℕ → Option ℕ → QueryCache
fill cache i e key r created none = write cache i (cleanup_partial (record e { cache_key = 1 }))
fill cache i e key r created (some total) = record (write cache i (stored key r created)) {
  count = i32_inc cache.count;
}

unfoldable pub fill_in :
    QueryCache → Option QueryCache → ℕ → CachedResult → ℕ → QueryResult → ℕ → QueryCache
fill_in cache none i e key r created = cache
fill_in cache (some reclaimed) i e key r created =
    fill reclaimed i e key r created (copy_rows r.rows (some (names_size r.col_names)))

unfoldable pub store_in :
    QueryCache → Option ℕ → Option CachedResult → ℕ → QueryResult → ℕ → QueryCache
store_in cache (some i) (some e) key r created = fill_in cache (reclaim cache i e) i e key r created
store_in cache (some i) none key r created = cache
store_in cache none e key r created = cache

abbrev pub entry_at : List CachedResult → Option ℕ → Option CachedResult
entry_at entries none = none
entry_at entries (some i) = get_elem? entries i

abbrev pub refuses : Bool → ℕ → QueryResult → Bool
refuses enabled key r =
    not enabled
    || (key == 0
        || (r.num_cols == 0 || (ltb query_cache_max_rows (length r.rows) || length r.rows == 0)))

-- The clock is read for the scan, `now`, and for the new entry, `created`.
unfoldable pub store : Bool → QueryCache → ℕ → QueryResult → ℕ → ℕ → QueryCache
store enabled cache key r now created =
    if refuses enabled key r
    then cache
    else let place = choose (scan key now cache.entries 0 no_slots) in
      store_in cache place (entry_at cache.entries place) key r created
