-- ===== src/Pool/TlsCache.antt =====
-- pg_client/tls_cache.rs: a thread's last slot, with the generation that it saw.
use plex_postgresql.Prelude.{ℕ, ◌-◌, ◌^◌, Bool, ◌&&◌, not, Option, none, some, if◌then◌else◌, ◌==◌}

pub record TlsPoolCache : Type 0 where
  pub db_handle : ℕ
  pub slot_index : ℕ
  pub generation : ℕ

abbrev pub u32_max : ℕ
u32_max = 2 ^ 32 - 1

unfoldable pub empty : TlsPoolCache
empty = record { db_handle = 0; slot_index = u32_max; generation = 0 }

unfoldable pub is_empty : TlsPoolCache → Bool
is_empty cache = cache.slot_index == u32_max

unfoldable pub set : ℕ → ℕ → ℕ → TlsPoolCache
set db_handle slot_index generation = record {
  db_handle = db_handle;
  slot_index = slot_index;
  generation = generation;
}

unfoldable pub get : TlsPoolCache → ℕ → Option (ℕ × ℕ)
unfolding is_empty
get cache db_handle =
    if cache.db_handle == db_handle && not (is_empty cache)
    then some (cache.slot_index, cache.generation)
    else none
