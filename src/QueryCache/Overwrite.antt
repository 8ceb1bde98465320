-- ===== src/QueryCache/Overwrite.antt =====
-- rust/plex-pg-core/src/pg_query_cache.rs: a result that a statement reads is not overwritten by a store,
-- and stays through every sequence of calls.
use plex_postgresql.Prelude.{
  ℕ, ◌+◌, ◌<◌, Bool, List, [], ◌∷◌, Option, none, some, ◌≡◌, ◌≢◌, sym, ◌∙◌, subst, ap, arith, inl,
  inr, ◌==◌, Bool-cases, Option-cases, get_elem?, set, get_elem?-set_ne, get_elem?-set_self,
  lt_of_get_elem?, ℕ_discrete, if◌then◌else◌, ◌≤◌, refl, length,
}
use plex_postgresql.QueryCache.{QueryCache, CachedResult, release, release_at, free_data, i32_dec}
use plex_postgresql.QueryCache.Store.{
  QueryResult, store, store_in, fill_in, reclaim, fill, choose, entry_at, refuses, scan, no_slots,
}
use plex_postgresql.QueryCache.Steps.{Call, looks_up, stores, invalidates, releases, call, calls}
use plex_postgresql.QueryCache.Held.{
  Held, SameData, same_data, Keeps-self, SameData-trans, reclaim-Held, Stays, Stays-self,
  lookup-Stays, invalidate-Stays,
}

-- What one call may take from the references of the entry at `i`.
abbrev pub lets_go : ℕ → Call → ℕ
lets_go i (releases none) = 0
lets_go i (releases (some j)) = if j == i then 1 else 0
lets_go i (looks_up key now) = 0
lets_go i (stores key r now created) = 0
lets_go i (invalidates key) = 0

module _ (enabled : Bool) (cache : QueryCache) (i : ℕ) (e : CachedResult)
    (here : get_elem? cache.entries i ≡ some e) (h : Held e)
    (small : e.ref_count + 1 < 2147483648) where
  -- A slot that was reclaimed is another one, and what is written there later changes nothing here.
  away :
      (j : ℕ) (y : CachedResult) (cache' : QueryCache)
      → get_elem? cache.entries j ≡ some y
      → reclaim cache j y ≡ some cache'
      → j ≢ i
  away j y cache' hj r same =
      let q = subst (λ k. get_elem? cache.entries k ≡ some y) same hj in
      let one : y ≡ e = ground (arith, here, q) in
      let no_reclaim = subst (λ x. reclaim cache j x ≡ some cache') one r in
      let none_some : Path (Option QueryCache) none (some cache') =
        sym (reclaim-Held e h cache j) ∙ no_reclaim in
      cc

  fill-elsewhere :
      (cache' : QueryCache) (j : ℕ) (y : CachedResult) (key : ℕ) (r : QueryResult) (created : ℕ)
      (size : Option ℕ)
      → j ≢ i
      → get_elem? cache'.entries i ≡ some e
      → get_elem? (fill cache' j y key r created size).entries i ≡ some e
  unfolding fill
  fill-elsewhere cache' j y key r created none ne q = get_elem?-set_ne cache'.entries j i _ ne ∙ q
  fill-elsewhere cache' j y key r created (some n) ne q =
      get_elem?-set_ne cache'.entries j i _ ne ∙ q

  reclaim-elsewhere :
      (j : ℕ) (y : CachedResult) (cache' : QueryCache)
      → reclaim cache j y ≡ some cache'
      → j ≢ i
      → get_elem? cache'.entries i ≡ some e
  unfolding reclaim
  reclaim-elsewhere j y cache' r ne = elim (Bool-cases (y.cache_key == 0)) [
    | inl null ↦
        let q = rw null at r in let one : cache ≡ cache' = ground (arith, q) in rw (← one) here
    | inr live ↦ elim (Bool-cases (free_data y).1) [
      | inl done ↦
          let q = rw (live, done) at r in
          let one : set cache.entries j (free_data y).0 ≡ cache'.entries = ap entries_or (q) in
          rw (← one) (get_elem?-set_ne cache.entries j i _ ne ∙ here)
      | inr busy ↦ absurd (let q = rw (live, busy) at r in cc)
    ]
  ]
    where
      entries_or : Option QueryCache → List CachedResult
      entries_or none = []
      entries_or (some c) = c.entries

  store_in-Stays :
      (place : Option ℕ) (key : ℕ) (r : QueryResult) (created : ℕ)
      → Stays enabled cache i e here h small
          (store_in cache place (entry_at cache.entries place) key r created)
  unfolding store_in fill_in
  store_in-Stays none key r created = (Stays-self enabled cache i e here h small)
  store_in-Stays (some j) key r created = elim (Option-cases (get_elem? cache.entries j)) [
    | inl outside ↦ rw outside (Stays-self enabled cache i e here h small)
    | inr (y, hj) ↦ rw hj (filled j y hj)
  ]
    where
      filled :
          (j : ℕ) (y : CachedResult)
          → get_elem? cache.entries j ≡ some y
          → Stays enabled cache i e here h small
              (fill_in cache (reclaim cache j y) j y key r created)
      filled j y hj = elim (Option-cases (reclaim cache j y)) [
        | inl busy ↦ rw busy (Stays-self enabled cache i e here h small)
        | inr (cache', got) ↦
            let ne = away j y cache' hj got in
            rw got (
              e,
              fill-elsewhere cache' j y key r created _ ne (reclaim-elsewhere j y cache' got ne),
              Keeps-self e,
            )
      ]

  store-Stays :
      (key : ℕ) (r : QueryResult) (now created : ℕ)
      → Stays enabled cache i e here h small (store enabled cache key r now created)
  unfolding store
  store-Stays key r now created = elim (Bool-cases (refuses enabled key r)) [
    | inl out ↦ rw out (Stays-self enabled cache i e here h small)
    | inr on ↦ rw on (store_in-Stays (choose (scan key now cache.entries 0 no_slots)) key r created)
  ]

  -- A release of another place changes nothing here, and one of this place takes one reference.
  release-Goes :
      (place : Option ℕ)
      → (e' : CachedResult) × (get_elem? (release enabled cache place).entries i ≡ some e')
        × SameData e e'
        × (e.ref_count ≤ e'.ref_count + lets_go i (releases place))
        × (e'.ref_count ≤ e.ref_count)
  unfolding release release_at
  release-Goes none = (e, here, same_data e, omega arith, omega arith)
  release-Goes (some j) = elim (Bool-cases enabled) [
    | inr off ↦ rw off (e, here, same_data e, omega arith, omega arith)
    | inl on ↦ elim (ℕ_discrete j i) [
      | no away ↦ elim (Option-cases (get_elem? cache.entries j)) [
        | inl outside ↦ rw (on, outside) (e, here, same_data e, omega arith, omega arith)
        | inr (y, hj) ↦
            rw (on, hj)
              (
                e,
                get_elem?-set_ne cache.entries j i _ away ∙ here,
                same_data e,
                omega arith,
                omega arith,
              )
      ]
      | yes same ↦
          rw (on, same, here)
            (
              record e { ref_count = i32_dec e.ref_count },
              get_elem?-set_self cache.entries i _ (lt_of_get_elem? cache.entries i here),
              record {
                cache_key = refl;
                num_rows = refl;
                num_cols = refl;
                col_types = refl;
                col_names = refl;
                rows = refl;
              },
              ground (arith, h.positive, h.in_range),
              ground (arith, h.positive, h.in_range),
            )
    ]
  ]

-- How many calls of the list release the entry at `i`.
unfoldable pub released : ℕ → List Call → ℕ
released i [] = 0
released i (c ∷ cs) = lets_go i c + released i cs

-- The entry after a call: its data, and its count.
abbrev Goes : ℕ → Call → CachedResult → CachedResult → Type 0
Goes i c e e' =
    SameData e e' × (e.ref_count ≤ e'.ref_count + lets_go i c) × (e'.ref_count ≤ e.ref_count + 1)

call-Goes :
    (enabled : Bool) (cache : QueryCache) (i : ℕ) (e : CachedResult) (c : Call)
    → get_elem? cache.entries i ≡ some e
    → Held e
    → e.ref_count + 1 < 2147483648
    → (e' : CachedResult) × (get_elem? (call enabled cache c).entries i ≡ some e') × Goes i c e e'
unfolding call
call-Goes enabled cache i e (looks_up key now) here h small =
    let (e', at, (same, low, high)) = lookup-Stays enabled cache i e here h small key now in
    (e', at, (same, omega arith, high))
call-Goes enabled cache i e (stores key r now created) here h small =
    let (e', at, (same, low, high)) =
      store-Stays enabled cache i e here h small key r now created in
    (e', at, (same, omega arith, high))
call-Goes enabled cache i e (invalidates key) here h small =
    let (e', at, (same, low, high)) = invalidate-Stays enabled cache i e here h small key in
    (e', at, (same, omega arith, high))
call-Goes enabled cache i e (releases place) here h small =
    let (e', at, same, low, high) = release-Goes enabled cache i e here h small place in
    (e', at, (same, low, omega arith))

-- An active entry with more references than the calls release stays in its place with its data, and
-- stays referenced, through every sequence of lookups, stores, invalidations and releases, as long as the
-- count and the number of calls together stay below 2^31.
pub calls-Held :
    (enabled : Bool) (cache : QueryCache) (i : ℕ) (e : CachedResult) (cs : List Call)
    → get_elem? cache.entries i ≡ some e
    → Held e
    → e.ref_count + length cs < 2147483648
    → released i cs < e.ref_count
    → (e' : CachedResult) × (get_elem? (calls enabled cache cs).entries i ≡ some e')
      × SameData e e'
      × Held e'
unfolding calls released
calls-Held enabled cache i e [] here h small left = (e, here, same_data e, h)
calls-Held enabled cache i e (c ∷ cs) here h small left =
    let (e', here', (same, low, high)) = call-Goes enabled cache i e c here h (omega arith) in
    let more : released i cs < e'.ref_count = omega (arith, left, low) in
    let held : Held e' = record {
      active = λ q. h.active (same.cache_key ∙ q);
      positive = omega (arith, more);
      in_range = omega (arith, small, high);
    } in
    let (last, at_end, same', held') =
      calls-Held enabled (call enabled cache c) i e' cs here' held (omega (arith, small, high))
        more in
    (last, at_end, SameData-trans same same', held')
