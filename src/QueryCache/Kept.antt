-- ===== src/QueryCache/Kept.antt =====
-- rust/plex-pg-core/src/pg_query_cache.rs: every call keeps the form of a thread's cache.
use plex_postgresql.Prelude.{
  ℕ, zero, suc, ◌+◌, Bool, not, ◌||◌, List, [], ◌∷◌, Option, none, some, ◌≡◌, ◌≢◌, refl, sym, ◌∙◌,
  subst, ap, arith, inl, inr, ◌==◌, ltb, ==_iff, Bool-cases, Option-cases, get_elem?,
  length-replicate, get_elem?-set_ne, lt_of_get_elem?, ℕ_discrete, get_elem?-replicate, replicate,
}
use plex_postgresql.QueryCache.{
  QueryCache, CachedResult, empty, new, write, age, query_cache_ttl_ms, position, free_data, lookup,
  lookup_at, invalidate, invalidate_at, release, release_at, hit,
}
use plex_postgresql.QueryCache.Store.{
  QueryResult, scan, no_slots, or, choose, entry_at, reclaim, fill, fill_in, store_in, store,
  stored, refuses,
}
use plex_postgresql.QueryCache.Steps.{
  Call, looks_up, stores, invalidates, releases, call, calls, position_sound,
}
use plex_postgresql.QueryCache.Scan.{place_of, scan-exact_match}
use plex_postgresql.QueryCache.Unique.{
  Unique, IsCache, write-IsCache, rewrite-IsCache, free_data-key, mark_expired-key,
  cleanup_partial-key, counters-IsCache,
}

position_exists :
    (key : ℕ) (es : List CachedResult) (i n : ℕ) (e : CachedResult)
    → get_elem? es n ≡ some e
    → e.cache_key ≡ key
    → position key es i ≢ none
unfolding position
position_exists key [] i n e h same q = cc
position_exists key (x ∷ es) i zero e h same q =
    let one : x ≡ e = ground (arith, h) in
    let test = (==_iff x.cache_key key).1 (ap (λ y. y.cache_key) one ∙ same) in
    absurd (let z = rw test at q in cc)
position_exists key (x ∷ es) i (suc n) e h same q = elim (Bool-cases (x.cache_key == key)) [
  | inl test ↦ absurd (let z = rw test at q in cc)
  | inr test ↦ position_exists key es (i + 1) n e h same (rw test at q)
]

exact_first : (i j : ℕ) (b : Option ℕ) → or (some i) b ≡ some j → i ≡ j
exact_first i j b h = ground (arith, h)

-- No other place has the key that is stored.
choose-own :
    (key now : ℕ) (es : List CachedResult) (j : ℕ)
    → Unique es
    → choose (scan key now es 0 no_slots) ≡ some j
    → (i : ℕ) (e : CachedResult) → get_elem? es i ≡ some e
    → e.cache_key ≡ key
    → key ≢ 0
    → i ≡ j
choose-own key now es j u h i e hi same live = elim (Option-cases (scan key now es 0 no_slots)) [
  | inl left ↦ absurd (let q = rw left at h in cc)
  | inr (s, done) ↦
      let exact = scan-exact_match key now es 0 no_slots s refl done in
      elim (Option-cases (position key es 0)) [
        | inl no_entry ↦ absurd (position_exists key es 0 i e hi same no_entry)
        | inr ((k, y), found) ↦
            let (at_k, key_k) = position_sound key es k y found in
            let first = exact ∙ ap place_of found in
            let q : or (some k) (or s.empty_slot (or s.expired s.oldest)) ≡ some j =
              subst (λ a. or a (or s.empty_slot (or s.expired s.oldest)) ≡ some j) first
                (ap choose (sym done) ∙ h) in
            u i k e y hi at_k (λ z. live (sym same ∙ z)) (same ∙ sym key_k)
            ∙ exact_first k j (or s.empty_slot (or s.expired s.oldest)) q
      ]
]

module _ (enabled : Bool) (cache : QueryCache) (v : IsCache cache) where
  lookup-IsCache : (key now : ℕ) → IsCache (lookup enabled cache key now).0
  unfolding lookup lookup_at
  lookup-IsCache key now = elim (Bool-cases (not enabled || key == 0)) [
    | inl out ↦ rw out v
    | inr on ↦ elim (Option-cases (position key cache.entries 0)) [
      | inl no_entry ↦ rw (on, no_entry) (counters-IsCache cache _ refl v)
      | inr ((j, y), found) ↦
          let at_j = (position_sound key cache.entries j y found).0 in
          elim (Bool-cases (ltb (age now y) query_cache_ttl_ms)) [
            | inl fresh ↦
                rw (on, found, fresh)
                  (counters-IsCache _ _ refl (rewrite-IsCache cache v j (hit y) y at_j (inl refl)))
            | inr old ↦
                rw (on, found, old)
                  (counters-IsCache _ _ refl (rewrite-IsCache cache v j _ y at_j (free_data-key y)))
          ]
    ]
  ]

  invalidate-IsCache : (key : ℕ) → IsCache (invalidate enabled cache key)
  unfolding invalidate invalidate_at
  invalidate-IsCache key = elim (Bool-cases (not enabled || key == 0)) [
    | inl out ↦ rw out v
    | inr on ↦ elim (Option-cases (position key cache.entries 0)) [
      | inl no_entry ↦ rw (on, no_entry) v
      | inr ((j, y), found) ↦
          let at_j = (position_sound key cache.entries j y found).0 in
          elim (Bool-cases (free_data y).1) [
            | inl done ↦
                rw (on, found, done)
                  (counters-IsCache _ _ refl (rewrite-IsCache cache v j _ y at_j (free_data-key y)))
            | inr busy ↦
                rw (on, found, busy) (rewrite-IsCache cache v j _ y at_j (inl (mark_expired-key y)))
          ]
    ]
  ]

  release-IsCache : (place : Option ℕ) → IsCache (release enabled cache place)
  unfolding release release_at
  release-IsCache none = v
  release-IsCache (some j) = elim (Bool-cases enabled) [
    | inl on ↦ elim (Option-cases (get_elem? cache.entries j)) [
      | inl outside ↦ rw (on, outside) v
      | inr (y, at_j) ↦ rw (on, at_j) (rewrite-IsCache cache v j _ y at_j (inl refl))
    ]
    | inr off ↦ rw off v
  ]

-- A reclaimed cache has the form, and its other entries are as before.
reclaim-IsCache :
    (cache c : QueryCache) (j : ℕ) (y : CachedResult)
    → IsCache cache
    → get_elem? cache.entries j ≡ some y
    → reclaim cache j y ≡ some c
    → IsCache c × ((i : ℕ) → i ≢ j → get_elem? c.entries i ≡ get_elem? cache.entries i)
unfolding reclaim
reclaim-IsCache cache c j y v at_j h = elim (Bool-cases (y.cache_key == 0)) [
  | inl null ↦
      let q = rw null at h in
      let one : cache ≡ c = ground (arith, q) in
      subst (λ d. IsCache d × ((i : ℕ) → i ≢ j → get_elem? d.entries i ≡ get_elem? cache.entries i))
        one (v, λ i ne. refl)
  | inr live ↦ elim (Bool-cases (free_data y).1) [
    | inl done ↦
        let q = rw (live, done) at h in
        let one = ap entries_of q in
        (
          counters-IsCache _ c one (rewrite-IsCache cache v j _ y at_j (free_data-key y)),
          λ i ne.
              ap (λ es. get_elem? es i) (sym one)
              ∙ get_elem?-set_ne cache.entries j i _ (λ z. ne (sym z)),
        )
    | inr busy ↦ absurd (let q = rw (live, busy) at h in cc)
  ]
]
  where
    entries_of : Option QueryCache → List CachedResult
    entries_of none = []
    entries_of (some d) = d.entries

module _ (cache c : QueryCache) (v : IsCache cache) (key now created : ℕ) (r : QueryResult)
    (live : key ≢ 0) (j : ℕ) (y : CachedResult) (at_j : get_elem? cache.entries j ≡ some y)
    (chosen : choose (scan key now cache.entries 0 no_slots) ≡ some j)
    (got : reclaim cache j y ≡ some c) where
  fill-IsCache : (size : Option ℕ) → IsCache (fill c j y key r created size)
  unfolding fill
  fill-IsCache none =
      write-IsCache c (reclaim-IsCache cache c j y v at_j got).0 j _
        (λ i e hi same alive. absurd (alive (cleanup_partial-key _ (λ q. cc))))
  fill-IsCache (some n) =
      let (w, others) = reclaim-IsCache cache c j y v at_j got in
      counters-IsCache (write c j (stored key r created)) _ refl
        (write-IsCache c w j (stored key r created) (own others))
    where
      own :
          ((i : ℕ) → i ≢ j → get_elem? c.entries i ≡ get_elem? cache.entries i)
          → (i : ℕ) (e : CachedResult) → get_elem? c.entries i ≡ some e
          → e.cache_key ≡ key
          → key ≢ 0
          → i ≡ j
      own others i e hi same alive = elim (ℕ_discrete i j) [
        | yes here ↦ here
        | no away ↦
            choose-own key now cache.entries j v.unique chosen i e (sym (others i away) ∙ hi) same
              alive
      ]

module _ (enabled : Bool) (cache : QueryCache) (v : IsCache cache) where
  store-IsCache :
      (key : ℕ) (r : QueryResult) (now created : ℕ)
      → IsCache (store enabled cache key r now created)
  unfolding store
  store-IsCache key r now created = elim (Bool-cases (refuses enabled key r)) [
    | inl out ↦ rw out v
    | inr on ↦
        rw on (placed (ground (arith, on)) (choose (scan key now cache.entries 0 no_slots)) refl)
  ]
    where
      placed :
          key ≢ 0
          → (place : Option ℕ) → choose (scan key now cache.entries 0 no_slots) ≡ place
          → IsCache (store_in cache place (entry_at cache.entries place) key r created)
      placed live none chosen = unfold store_in in v
      placed live (some j) chosen = elim (Option-cases (get_elem? cache.entries j)) [
        | inl outside ↦ unfold store_in in rw outside v
        | inr (y, at_j) ↦
            unfold store_in fill_in in
            rw at_j (elim (Option-cases (reclaim cache j y)) [
              | inl busy ↦ rw busy v
              | inr (c, got) ↦
                  rw got (fill-IsCache cache c v key now created r live j y at_j chosen got _)
            ])
      ]

call-IsCache :
    (enabled : Bool) (cache : QueryCache) (c : Call)
    → IsCache cache
    → IsCache (call enabled cache c)
unfolding call
call-IsCache enabled cache (looks_up key now) v = lookup-IsCache enabled cache v key now
call-IsCache enabled cache (stores key r now created) v =
    store-IsCache enabled cache v key r now created
call-IsCache enabled cache (invalidates key) v = invalidate-IsCache enabled cache v key
call-IsCache enabled cache (releases place) v = release-IsCache enabled cache v place

-- Every sequence of lookups, stores, invalidations and releases keeps the form of a cache: 64 entries,
-- and no two active ones under the same key.
pub calls-IsCache :
    (enabled : Bool) (cache : QueryCache) (cs : List Call)
    → IsCache cache
    → IsCache (calls enabled cache cs)
unfolding calls
calls-IsCache enabled cache [] v = v
calls-IsCache enabled cache (c ∷ cs) v =
    calls-IsCache enabled (call enabled cache c) cs (call-IsCache enabled cache c v)

-- The cache that a thread starts with has the form.
pub new-IsCache : IsCache new
unfolding new empty
new-IsCache = record {
  sized = length-replicate 64 empty;
  unique = λ i j e e' hi hj live same. absurd (live (free i e hi));
}
  where
    free : (i : ℕ) (e : CachedResult) → get_elem? (replicate 64 empty) i ≡ some e → e.cache_key ≡ 0
    free i e h =
        let lt = lt_of_get_elem? (replicate 64 empty) i h in
        let one : empty ≡ e = ground (
          arith,
          get_elem?-replicate 64 i empty (omega (arith, lt, length-replicate 64 empty)),
          h,
        ) in
        ap (λ x. x.cache_key) (sym one)
