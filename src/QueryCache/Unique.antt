-- ===== src/QueryCache/Unique.antt =====
-- rust/plex-pg-core/src/pg_query_cache.rs: the form of a thread's cache, and that its calls keep it.
use plex_postgresql.Prelude.{
  ℕ, List, some, ◌≡◌, ◌≢◌, ◌⊎◌, sym, ◌∙◌, subst, ap, arith, inl, inr, get_elem?, set, length,
  length-set, get_elem?-set_self, get_elem?-set_ne, lt_of_get_elem?, ℕ_discrete,
}
use plex_postgresql.QueryCache.{QueryCache, CachedResult, write, free_data, mark_expired}
use plex_postgresql.QueryCache.Store.{cleanup_partial}

-- At most one active entry has a key.
abbrev pub Unique : List CachedResult → Type 0
Unique es =
    (i j : ℕ) (e e' : CachedResult)
    → get_elem? es i ≡ some e
    → get_elem? es j ≡ some e'
    → e.cache_key ≢ 0
    → e.cache_key ≡ e'.cache_key
    → i ≡ j

-- A cache as the thread holds it.
pub record IsCache (cache : QueryCache) : Type 0 where
  pub sized : length cache.entries ≡ 64
  pub unique : Unique cache.entries

module _ (cache : QueryCache) (v : IsCache cache) (j : ℕ) (x : CachedResult) where
  -- A write of a key that no other place has.
  pub write-IsCache :
      ((i : ℕ) (e : CachedResult)
        → get_elem? cache.entries i ≡ some e
        → e.cache_key ≡ x.cache_key
        → x.cache_key ≢ 0
        → i ≡ j)
      → IsCache (write cache j x)
  write-IsCache own = record {
    sized = length-set cache.entries j x ∙ v.sized;
    unique = λ i k e e' hi hk live same.
        at_places i k e e' hi hk live same (ℕ_discrete j i) (ℕ_discrete j k);
  }
    where
      es : List CachedResult
      es = set cache.entries j x

      old :
          (i : ℕ) (e : CachedResult)
          → j ≢ i
          → get_elem? es i ≡ some e
          → get_elem? cache.entries i ≡ some e
      old i e ne h = sym (get_elem?-set_ne cache.entries j i x ne) ∙ h

      here : (i : ℕ) (e : CachedResult) → j ≡ i → get_elem? es i ≡ some e → x ≡ e
      here i e same h =
          let at_j = subst (λ k. get_elem? es k ≡ some e) (sym same) h in
          let lt = lt_of_get_elem? es j at_j in
          let one =
            get_elem?-set_self cache.entries j x
              (omega (arith, lt, length-set cache.entries j x)) in
          ground (arith, one, at_j)

      at_places :
          (i k : ℕ) (e e' : CachedResult)
          → get_elem? es i ≡ some e
          → get_elem? es k ≡ some e'
          → e.cache_key ≢ 0
          → e.cache_key ≡ e'.cache_key
          → Dec (j ≡ i)
          → Dec (j ≡ k)
          → i ≡ k
      at_places i k e e' hi hk live same (yes a) (yes b) = sym a ∙ b
      at_places i k e e' hi hk live same (no a) (no b) =
          v.unique i k e e' (old i e a hi) (old k e' b hk) live same
      at_places i k e e' hi hk live same (yes a) (no b) =
          let key : x.cache_key ≡ e.cache_key = ap (λ y. y.cache_key) (here i e a hi) in
          sym a ∙ sym (own k e' (old k e' b hk) (sym same ∙ sym key) (λ q. live (sym key ∙ q)))
      at_places i k e e' hi hk live same (no a) (yes b) =
          let key : x.cache_key ≡ e'.cache_key = ap (λ y. y.cache_key) (here k e' b hk) in
          own i e (old i e a hi) (same ∙ sym key) (λ q. live (same ∙ sym key ∙ q)) ∙ b

  -- A write that keeps the entry's key, or takes it away.
  pub rewrite-IsCache :
      (y : CachedResult)
      → get_elem? cache.entries j ≡ some y
      → (x.cache_key ≡ y.cache_key) ⊎ (x.cache_key ≡ 0)
      → IsCache (write cache j x)
  rewrite-IsCache y h c = write-IsCache (λ i e hi same live. elim c [
    | inl kept ↦ v.unique i j e y hi h (λ q. live (sym same ∙ q)) (same ∙ kept)
    | inr gone ↦ absurd (live gone)
  ])

pub free_data-key :
    (y : CachedResult) → ((free_data y).0.cache_key ≡ y.cache_key) ⊎ ((free_data y).0.cache_key ≡ 0)
unfolding free_data
free_data-key y = ground arith

pub mark_expired-key : (y : CachedResult) → (mark_expired y).cache_key ≡ y.cache_key
unfolding mark_expired
mark_expired-key y = ground arith

pub cleanup_partial-key : (y : CachedResult) → y.cache_key ≢ 0 → (cleanup_partial y).cache_key ≡ 0
unfolding cleanup_partial free_data
cleanup_partial-key y h = ground (arith, h)

-- The numbers beside the entries say nothing of the form.
pub counters-IsCache : (c d : QueryCache) → c.entries ≡ d.entries → IsCache c → IsCache d
counters-IsCache c d same v = record {
  sized = subst (λ es. length es ≡ 64) same v.sized;
  unique = subst Unique same v.unique;
}
