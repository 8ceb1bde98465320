-- ===== src/StmtCache.antt =====
-- rust/plex-pg-core/src/pg_client_stmt_cache.rs: the prepared statements of one connection, a hash
-- table of fixed size with linear probing and eviction of the least recently used entry.
-- Hashes are u64, times are seconds since the epoch (an i64 that `now_secs` never makes negative).
pub mod Probe
pub mod FirstPass
pub mod Laws
pub mod Evict
pub mod Fits
pub mod Add
pub mod Lookup
mod Tests
use plex_postgresql.Prelude.{
  ℕ, zero, suc, ◌+◌, ◌-◌, ◌%◌, ◌^◌, Bool, true, false, ◌&&◌, List, [], ◌∷◌, Option, none, some,
  if◌then◌else◌, ◌==◌, ltb, get_elem?, set, replicate,
}
use plex_postgresql.Prelude.Bytes.{Bytes}
use plex_postgresql.Prelude.Map.{find, insert, remove}

abbrev pub stmt_cache_size : ℕ
stmt_cache_size = 512

abbrev pub i64_max : ℕ
i64_max = 2 ^ 63 - 1

pub record Entry : Type 0 where
  pub sql_hash : ℕ
  pub stmt_name : Bytes
  pub param_count : ℕ
  pub last_used : ℕ

pub record StmtCache : Type 0 where
  pub entries : List (Option Entry)
  pub count : ℕ

unfoldable pub empty : StmtCache
empty = record { entries = replicate stmt_cache_size none; count = 0 }

-- `entries[i]`; every index is below the size, which is the vector's length.
abbrev pub flat : Option (Option Entry) → Option Entry
flat none = none
flat (some o) = o

abbrev pub slot : List (Option Entry) → ℕ → Option Entry
slot entries i = flat (get_elem? entries i)

-- `hash & (SIZE - 1)` and `(start + i) & (SIZE - 1)`.
abbrev pub start_of : ℕ → ℕ
start_of hash = hash % 512

abbrev pub index : ℕ → ℕ → ℕ
index start i = (start + i) % 512

-- The loop of `lookup` and `lookup_mut`, over the rounds that are left: the place and the entry.
pub probe : List (Option Entry) → ℕ → ℕ → ℕ → ℕ → Option (ℕ × Entry)
probe entries hash start zero i = none
probe entries hash start (suc rounds) i =
    let rest = probe entries hash start rounds (i + 1) in
    elim (slot entries (index start i)) [
      | none ↦ none
      | some e ↦ if e.sql_hash == hash then some (index start i, e) else rest
    ]

unfoldable pub lookup_mut : StmtCache → ℕ → Option (ℕ × Entry)
lookup_mut cache hash =
    if hash == 0 then none else probe cache.entries hash (start_of hash) stmt_cache_size 0

abbrev pub entry_of : Option (ℕ × Entry) → Option Entry
entry_of none = none
entry_of (some (i, e)) = some e

unfoldable pub lookup : StmtCache → ℕ → Option Entry
lookup cache hash = entry_of (lookup_mut cache hash)

-- What the first pass of `add` comes to: the hash's own slot, an empty one, or neither, with the
-- slot that was used longest ago.
pub data Place : Type 0 where
  occupied vacant : ℕ → Place
  full : Option ℕ → Place

pub first_pass : List (Option Entry) → ℕ → ℕ → ℕ → ℕ → Option ℕ → ℕ → Place
first_pass entries hash start zero i oldest_idx oldest_time = full oldest_idx
first_pass entries hash start (suc rounds) i oldest_idx oldest_time =
    elim (slot entries (index start i)) [
      | none ↦ vacant (index start i)
      | some e ↦
          let older = ltb e.last_used oldest_time in
          let rest =
            first_pass entries hash start rounds (i + 1)
              (if older then some (index start i) else oldest_idx)
              (if older then e.last_used else oldest_time) in
          if e.sql_hash == hash then occupied (index start i) else rest
    ]

abbrev pub name_of : Option Entry → Option Bytes
name_of none = none
name_of (some e) = some e.stmt_name

-- The index, none for -1, and the name that was evicted.
abbrev pub Added : Type 0
Added = StmtCache × Option ℕ × Option Bytes

abbrev pub write : StmtCache → ℕ → Entry → StmtCache
write cache i e = record cache { entries = set cache.entries i (some e) }

unfoldable pub put : StmtCache → Entry → Place → Added
put cache e (occupied i) = (write cache i e, some i, none)
put cache e (vacant i) = (record (write cache i e) { count = cache.count + 1 }, some i, none)
put cache e (full none) = (cache, none, none)
put cache e (full (some i)) = (write cache i e, some i, name_of (slot cache.entries i))

unfoldable pub add : StmtCache → ℕ → Bytes → ℕ → ℕ → Added
add cache hash name params now =
    if hash == 0
    then (cache, none, none)
    else put cache
        (record { sql_hash = hash; stmt_name = name; param_count = params; last_used = now })
        (first_pass cache.entries hash (start_of hash) stmt_cache_size 0 none i64_max)

-- The names of all entries, in the order of the table, and the empty cache.
unfoldable pub names : List (Option Entry) → List Bytes
names [] = []
names (none ∷ es) = names es
names (some e ∷ es) = e.stmt_name ∷ names es

unfoldable pub clear : StmtCache → StmtCache × List Bytes
clear cache = (empty, names cache.entries)
