-- ===== src/QueryCache/Held.antt =====
-- rust/plex-pg-core/src/pg_query_cache.rs: a result that a statement reads.
use plex_postgresql.Prelude.{
  ℕ, ◌+◌, ◌≤◌, ◌<◌, Bool, true, false, not, ◌&&◌, ◌||◌, none, some, ◌≡◌, ◌≢◌, refl, ◌∙◌, ap, arith,
  inl, inr, ◌==◌, Bool-cases, Option-cases, get_elem?, ltb,
}
use plex_postgresql.QueryCache.{
  QueryCache, CachedResult, lookup, lookup_at, invalidate, invalidate_at, position, write,
  free_data, mark_expired, is_active, is_referenced, age, query_cache_ttl_ms, hit,
}
use plex_postgresql.QueryCache.Store.{reclaim}
use plex_postgresql.QueryCache.Steps.{position_sound, write_cases}

-- The reference count is positive, and an entry is there.
pub record Held (e : CachedResult) : Type 0 where
  pub active : e.cache_key ≢ 0
  pub positive : 0 < e.ref_count
  pub in_range : e.ref_count < 2147483648

-- What a reader sees of `e` is what it sees of `e'`.
pub record SameData (e e' : CachedResult) : Type 0 where
  pub cache_key : e.cache_key ≡ e'.cache_key
  pub num_rows : e.num_rows ≡ e'.num_rows
  pub num_cols : e.num_cols ≡ e'.num_cols
  pub col_types : e.col_types ≡ e'.col_types
  pub col_names : e.col_names ≡ e'.col_names
  pub rows : e.rows ≡ e'.rows

pub same_data : (e : CachedResult) → SameData e e
same_data e = record {
  cache_key = refl;
  num_rows = refl;
  num_cols = refl;
  col_types = refl;
  col_names = refl;
  rows = refl;
}

pub SameData-trans : {a b c : CachedResult} → SameData a b → SameData b c → SameData a c
SameData-trans p q = record {
  cache_key = p.cache_key ∙ q.cache_key;
  num_rows = p.num_rows ∙ q.num_rows;
  num_cols = p.num_cols ∙ q.num_cols;
  col_types = p.col_types ∙ q.col_types;
  col_names = p.col_names ∙ q.col_names;
  rows = p.rows ∙ q.rows;
}

-- The data stay, and at most one reader is added.
abbrev pub Keeps : CachedResult → CachedResult → Type 0
Keeps e e' = SameData e e' × (e.ref_count ≤ e'.ref_count) × (e'.ref_count ≤ e.ref_count + 1)

pub Keeps-self : (e : CachedResult) → Keeps e e
Keeps-self e = (same_data e, omega arith, omega arith)

module _ (e : CachedResult) (h : Held e) where
  held_test : (is_active e && is_referenced e) ≡ true
  held_test = ground (arith, h.active, h.positive, h.in_range)

  pub free_data-Held : free_data e ≡ (e, false)
  unfolding free_data
  free_data-Held = ground (arith, h.active, h.positive, h.in_range)

  mark_expired-Keeps : Keeps e (mark_expired e)
  unfolding mark_expired
  mark_expired-Keeps = elim (Bool-cases (e.cache_key == 0)) [
    | inl null ↦ rw null (Keeps-self e)
    | inr live ↦ rw live (
      record {
        cache_key = refl;
        num_rows = refl;
        num_cols = refl;
        col_types = refl;
        col_names = refl;
        rows = refl;
      },
      omega arith,
      omega arith,
    )
  ]

  hit-Keeps : e.ref_count + 1 < 2147483648 → Keeps e (hit e)
  hit-Keeps small = (
    record {
      cache_key = refl;
      num_rows = refl;
      num_cols = refl;
      col_types = refl;
      col_names = refl;
      rows = refl;
    },
    omega arith,
    omega arith,
  )

  pub reclaim-Held : (cache : QueryCache) (i : ℕ) → reclaim cache i e ≡ none
  unfolding reclaim
  reclaim-Held cache i =
      let live : (e.cache_key == 0) ≡ false = ground (arith, h.active) in
      rw (live, ap (λ (q : CachedResult × Bool). q.1) free_data-Held)

module _ (enabled : Bool) (cache : QueryCache) (i : ℕ) (e : CachedResult)
    (here : get_elem? cache.entries i ≡ some e) (h : Held e)
    (small : e.ref_count + 1 < 2147483648) where
  -- The entry after a call.
  abbrev pub Stays : QueryCache → Type 0
  Stays after = (e' : CachedResult) × (get_elem? after.entries i ≡ some e') × Keeps e e'

  pub Stays-self : Stays cache
  Stays-self = (e, here, Keeps-self e)

  write-Stays :
      (j : ℕ) (x y : CachedResult)
      → get_elem? cache.entries j ≡ some y
      → (y ≡ e → Keeps e x)
      → Stays (write cache j x)
  write-Stays j x y hj f = write_cases (Keeps e) cache j i x e y here hj (Keeps-self e) f

  free-Keeps : (y : CachedResult) → y ≡ e → Keeps e (free_data y).0
  free-Keeps y one = rw (one, free_data-Held e h) (Keeps-self e)

  lookup_at-Stays :
      (now j : ℕ) (y : CachedResult)
      → get_elem? cache.entries j ≡ some y
      → Stays (lookup_at cache now (some (j, y))).0
  unfolding lookup_at
  lookup_at-Stays now j y hj = elim (Bool-cases (ltb (age now y) query_cache_ttl_ms)) [
    | inl fresh ↦ rw fresh (write-Stays j (hit y) y hj (λ one. rw one (hit-Keeps e h small)))
    | inr old ↦ rw old (write-Stays j (free_data y).0 y hj (free-Keeps y))
  ]

  pub lookup-Stays : (key now : ℕ) → Stays (lookup enabled cache key now).0
  unfolding lookup lookup_at
  lookup-Stays key now = elim (Bool-cases (not enabled || key == 0)) [
    | inl out ↦ rw out Stays-self
    | inr on ↦ elim (Option-cases (position key cache.entries 0)) [
      | inl no_entry ↦ rw (on, no_entry) Stays-self
      | inr ((j, y), found) ↦
          rw (on, found) (lookup_at-Stays now j y (position_sound key cache.entries j y found).0)
    ]
  ]

  invalidate_at-Stays :
      (j : ℕ) (y : CachedResult)
      → get_elem? cache.entries j ≡ some y
      → Stays (invalidate_at cache (some (j, y)))
  unfolding invalidate_at
  invalidate_at-Stays j y hj = elim (Bool-cases (free_data y).1) [
    | inl done ↦ rw done (write-Stays j (free_data y).0 y hj (free-Keeps y))
    | inr busy ↦
        rw busy (write-Stays j (mark_expired y) y hj (λ one. rw one (mark_expired-Keeps e h)))
  ]

  pub invalidate-Stays : (key : ℕ) → Stays (invalidate enabled cache key)
  unfolding invalidate invalidate_at
  invalidate-Stays key = elim (Bool-cases (not enabled || key == 0)) [
    | inl out ↦ rw out Stays-self
    | inr on ↦ elim (Option-cases (position key cache.entries 0)) [
      | inl no_entry ↦ rw (on, no_entry) Stays-self
      | inr ((j, y), found) ↦
          rw (on, found) (invalidate_at-Stays j y (position_sound key cache.entries j y found).0)
    ]
  ]
