-- ===== src/QueryCache/Stored.antt =====
-- rust/plex-pg-core/src/pg_query_cache.rs: a result that was stored is found.
use plex_postgresql.Prelude.{
  ℕ, zero, suc, ◌+◌, ◌≤◌, ◌<◌, ◌-◌, ◌%◌, ◌^◌, true, false, List, [], ◌∷◌, Option, none, some, ◌≡◌,
  refl, ◌∙◌, subst, ap, arith, inl, inr, ◌==◌, ltb, ==_iff, Bool-cases, get_elem?, set, length,
  length-set, get_elem?-set_self, lt_of_get_elem?,
}
use plex_postgresql.QueryCache.{
  QueryCache, CachedResult, is_referenced, position, free_data, lookup, lookup_at, hit,
}
use plex_postgresql.QueryCache.Store.{
  QueryResult, scan, no_slots, or, choose, reclaim, fill, fill_in, store_in, store, stored, refuses,
  copy_rows, names_size,
}
use plex_postgresql.QueryCache.Scan.{idle, place_of, scan-exact_match}
use plex_postgresql.QueryCache.Reclaimable.{NotRead, choose_found}

set_twice :
    (es : List CachedResult) (j : ℕ) (a b : CachedResult) → set (set es j a) j b ≡ set es j b
set_twice [] j a b = refl
set_twice (x ∷ es) zero a b = refl
set_twice (x ∷ es) (suc j) a b = ap (λ l. x ∷ l) (set_twice es j a b)

-- The first entry with a key, after the key was written at its own place or at a new one.
position-set_from :
    (key : ℕ) (es : List CachedResult) (i j k : ℕ) (x : CachedResult)
    → x.cache_key ≡ key
    → j < length es
    → i + j ≡ k
    → or (place_of (position key es i)) (some k) ≡ some k
    → position key (set es j x) i ≡ some (k, x)
unfolding position
position-set_from key [] i j k x same lt at_k h = absurd (elim lt [ ])
position-set_from key (y ∷ es) i zero k x same lt at_k h =
    let test = (==_iff x.cache_key key).1 same in
    let here : i ≡ k = omega arith in rw (test, here) refl
position-set_from key (y ∷ es) i (suc j) k x same lt at_k h =
    elim (Bool-cases (y.cache_key == key)) [
      | inl first ↦
          let q : some i ≡ some k = rw first at h in
          let here : i ≡ k = ground (arith, q) in absurd (omega arith)
      | inr other ↦
          let q = rw other at h in
          rw other (position-set_from key es (i + 1) j k x same (omega arith) (omega arith) q)
    ]

module _ (cache : QueryCache) (j : ℕ) (y : CachedResult) where
  reclaim-idle :
      idle y ≡ true
      → (c : QueryCache) × (reclaim cache j y ≡ some c)
        × ((x : CachedResult) → set c.entries j x ≡ set cache.entries j x)
  unfolding reclaim free_data
  reclaim-idle free = elim (Bool-cases (y.cache_key == 0)) [
    | inl null ↦ rw null (cache, refl, λ x. refl)
    | inr live ↦
        let unread : is_referenced y ≡ false = ground (arith, free, live) in
        rw (live, unread) (_, refl, λ x. set_twice cache.entries j _ x)
  ]

or_first : (a b : Option ℕ) (j : ℕ) → or a b ≡ some j → or a (some j) ≡ some j
or_first none b j h = refl
or_first (some i) b j h = h

age_young :
    (at_ms created : ℕ)
    → created ≤ at_ms
    → at_ms < created + 1000
    → at_ms < 2 ^ 64
    → ltb ((at_ms + (2 ^ 64 - created)) % 2 ^ 64) 1000 ≡ true
age_young at_ms created le lt small =
    let young : (at_ms + (2 ^ 64 - created)) % 2 ^ 64 < 1000 = omega arith in ground (arith, young)

module _ (cache : QueryCache) (key now created : ℕ) (r : QueryResult)
    (caches : refuses true key r ≡ false) (quiet : NotRead key cache.entries) (size : ℕ)
    (fits : copy_rows r.rows (some (names_size r.col_names)) ≡ some size) (n : ℕ) (e : CachedResult)
    (at_n : get_elem? cache.entries n ≡ some e) (early : e.created_ms < 2 ^ 64 - 1)
    (free : idle e ≡ true) where
  abbrev after : QueryCache
  after = store true cache key r now created

  store_place :
      (j : ℕ) × (j < length cache.entries)
      × (after.entries ≡ set cache.entries j (stored key r created))
      × (position key after.entries 0 ≡ some (j, stored key r created))
  unfolding store store_in fill_in fill
  store_place =
      let (s, j, y, done, chosen, at_j, free_y) =
        choose_found key now cache.entries n e quiet at_n early free in
      let (c, got, writes) = reclaim-idle cache j y free_y in
      let lt = lt_of_get_elem? cache.entries j at_j in
      let place : choose (scan key now cache.entries 0 no_slots) ≡ some j =
        ap choose done ∙ chosen in
      let written : after.entries ≡ set cache.entries j (stored key r created) =
        rw (caches, place, at_j, got, fits) (writes (stored key r created)) in
      let first =
        subst (λ a. or a (some j) ≡ some j)
          (scan-exact_match key now cache.entries 0 no_slots s refl done)
          (or_first s.exact_match _ j chosen) in
      (
        j,
        lt,
        written,
        rw written (
            position-set_from key cache.entries 0 j j (stored key r created) refl lt (omega arith)
              first),
      )

  -- A result that the cache takes (a key that is not 0, 1 to 5 rows, some columns, the size not too
  -- large), where no statement reads the key's own entry and some entry may be written, is found under
  -- its key for less than a second: the lookup gives a place with the stored data, read once.
  pub lookup-store :
      (at_ms : ℕ)
      → created ≤ at_ms
      → at_ms < created + 1000
      → at_ms < 2 ^ 64
      → (j : ℕ) × ((lookup true (store true cache key r now created) key at_ms).1 ≡ some j)
        × (get_elem? (lookup true (store true cache key r now created) key at_ms).0.entries j
            ≡ some (hit (stored key r created)))
  unfolding lookup lookup_at
  lookup-store at_ms le lt small =
      let (j, bound, written, found) = store_place in
      let live : (key == 0) ≡ false = ground (arith, caches) in
      let young = age_young at_ms created le lt small in
      let inside : j < length after.entries =
        rw (written, length-set cache.entries j (stored key r created)) bound in
      (
        j,
        rw (live, found, young) refl,
        rw (live, found, young) (get_elem?-set_self after.entries j _ inside),
      )
