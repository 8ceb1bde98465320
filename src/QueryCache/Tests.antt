-- ===== src/QueryCache/Tests.antt =====
-- Runs of the query cache, and instances of its theorems.
use plex_postgresql.Prelude.{
  ℕ, ◌||◌, ◌*◌, ◌%◌, ◌^◌, ◌≤◌, ltb, subst, ap, ◌∙◌, zero, suc, true, false, List, [], ◌∷◌, none,
  some, ◌≡◌, ◌≢◌, refl, arith, get_elem?,
}
use mathlib.Core.Option.{some-injective}
use plex_postgresql.Prelude.Bytes.{codes}
use plex_postgresql.QueryCache.{is_referenced, age, QueryCache, CachedResult, new, lookup, hit}
use plex_postgresql.QueryCache.Store.{
  QueryResult, store, scan, visit, copy_rows, copy_row, names_size, choose, no_slots, stored,
}
use plex_postgresql.QueryCache.Key.{fnv1a_hash_slice, fnv1a_from, query_cache_key}
use plex_postgresql.QueryCache.Steps.{Call, looks_up, stores, invalidates, releases, calls}
use plex_postgresql.QueryCache.Held.{Held, SameData}
use plex_postgresql.QueryCache.Overwrite.{released, calls-Held}
use plex_postgresql.QueryCache.Scan.{idle}
use plex_postgresql.QueryCache.Oldest.{choose-Oldest}
use plex_postgresql.QueryCache.Stored.{lookup-store}
use plex_postgresql.QueryCache.Unique.{IsCache}
use plex_postgresql.QueryCache.Kept.{calls-IsCache, new-IsCache}

abbrev one_row : QueryResult
one_row = record {
  num_cols = 1;
  col_types = 25 ∷ [];
  col_names = some (codes "val") ∷ [];
  rows = (some (codes "x") ∷ []) ∷ [];
}

fnv1a_test : fnv1a_hash_slice (0 ∷ []) ≡ 0xcbf29ce484222325 * 0x100000001b3 % 2 ^ 64
unfolding fnv1a_hash_slice fnv1a_from
fnv1a_test = refl

no_sql_test : query_cache_key true none [] ≡ 0
unfolding query_cache_key
no_sql_test = refl

abbrev first : CachedResult
first = stored 7 one_row 5000

abbrev two : List CachedResult
two = stored 7 one_row 5000 ∷ stored 8 one_row 4900 ∷ []

abbrev read : CachedResult
read = hit first

abbrev reading : QueryCache
reading = record {
  entries = read ∷ stored 8 one_row 4900 ∷ [];
  count = 2;
  total_hits = 1;
  total_misses = 0;
}

read-Held : Held read
read-Held = record { active = λ q. cc; positive = omega arith; in_range = omega arith }

-- Two statements read the entry, and one of them is done.
abbrev shared_read : CachedResult
shared_read = hit read

shared_read-Held : Held shared_read
shared_read-Held = record { active = λ q. cc; positive = omega arith; in_range = omega arith }

abbrev meanwhile : List Call
meanwhile = invalidates 7 ∷ releases (some 0) ∷ stores 7 one_row 9000 9001 ∷ looks_up 7 9500 ∷ []

calls-Held_example :
    (e' : CachedResult) × (get_elem?
        (calls true (record reading { entries = shared_read ∷ [] }) meanwhile).entries
        0
      ≡ some e')
    × SameData shared_read e'
    × Held e'
unfolding released
calls-Held_example =
    calls-Held true (record reading { entries = shared_read ∷ [] }) 0 shared_read meanwhile refl
      shared_read-Held (omega arith) (omega arith)

calls-IsCache_example :
    IsCache (calls true new (stores 7 one_row 5000 5000 ∷ looks_up 7 5500 ∷ releases (some 0) ∷ []))
calls-IsCache_example =
    calls-IsCache true new (stores 7 one_row 5000 5000 ∷ looks_up 7 5500 ∷ releases (some 0) ∷ [])
      new-IsCache

choose-Oldest_example :
    (y : CachedResult) × (get_elem? two 1 ≡ some y)
    × (idle y ≡ true)
    × ((n : ℕ) (e : CachedResult)
        → get_elem? two n ≡ some e
        → is_referenced e ≡ false
        → y.created_ms ≤ e.created_ms)
choose-Oldest_example = choose-Oldest 9 5100 two 1 full chosen
  where
    full :
        (n : ℕ) (e : CachedResult)
        → get_elem? two n ≡ some e
        → (e.cache_key ≢ 9)
          × (e.cache_key ≢ 0)
          × ((is_referenced e || ltb (age 5100 e) 1000) ≡ true)
    full zero e h =
        subst
          (λ x.
            (x.cache_key ≢ 9)
            × (x.cache_key ≢ 0)
            × ((is_referenced x || ltb (age 5100 x) 1000) ≡ true))
          (some-injective _ _ h) (λ q. cc, λ q. cc, refl)
    full (suc zero) e h =
        subst
          (λ x.
            (x.cache_key ≢ 9)
            × (x.cache_key ≢ 0)
            × ((is_referenced x || ltb (age 5100 x) 1000) ≡ true))
          (some-injective _ _ h) (λ q. cc, λ q. cc, refl)
    full (suc (suc n)) e h = cc

    chosen : choose (scan 9 5100 two 0 no_slots) ≡ some 1
    chosen = unfold scan visit in refl

lookup-store_example :
    (j : ℕ) × ((lookup true (store true reading 9 one_row 5100 5101) 9 5200).1 ≡ some j)
    × (get_elem? (lookup true (store true reading 9 one_row 5100 5101) 9 5200).0.entries j
        ≡ some (hit (stored 9 one_row 5101)))
lookup-store_example =
    lookup-store reading 9 5100 5101 one_row refl quiet 6
      (unfold copy_rows copy_row names_size in refl) 1 (stored 8 one_row 4900) refl (omega arith)
      refl 5200 (omega arith) (omega arith) (omega arith)
  where
    quiet :
        (n : ℕ) (x : CachedResult)
        → get_elem? reading.entries n ≡ some x
        → x.cache_key ≡ 9
        → is_referenced x ≡ false
    quiet zero x h q = absurd (let z = ap (λ y. y.cache_key) (some-injective _ _ h) ∙ q in cc)
    quiet (suc zero) x h q = absurd (let z = ap (λ y. y.cache_key) (some-injective _ _ h) ∙ q in cc)
    quiet (suc (suc n)) x h q = cc
