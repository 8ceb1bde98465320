-- ===== src/QueryCache/Oldest.antt =====
-- rust/plex-pg-core/src/pg_query_cache.rs: the entry that a full cache gives up.
use plex_postgresql.Prelude.{
  ℕ, zero, suc, ◌+◌, ◌≤◌, true, false, ◌||◌, List, [], ◌∷◌, Option, none, some, ◌≡◌, ◌≢◌, ◌⊎◌, refl,
  sym, ◌∙◌, subst, ap, arith, inl, inr, ◌==◌, ltb, Bool-cases, get_elem?,
}
use plex_postgresql.QueryCache.{CachedResult, is_referenced, age, query_cache_ttl_ms}
use plex_postgresql.QueryCache.Store.{Slots, visit, scan, no_slots, choose, get_or_insert}
use plex_postgresql.QueryCache.Scan.{idle, choose-Idle, Part, Part-head, Part-tail}

-- No slot of a better kind was noted.
abbrev pub OnlyOldest : Slots → Type 0
OnlyOldest s = (s.exact_match ≡ none) × (s.empty_slot ≡ none) × (s.expired ≡ none)

get_or_insert-none : (o : Option ℕ) (i : ℕ) → get_or_insert o i ≢ none
get_or_insert-none none i h = cc
get_or_insert-none (some j) i h = cc

module _ (now i : ℕ) (e : CachedResult) (s : Slots) where
  visit-OnlyOldest : OnlyOldest (visit now i e s) → OnlyOldest s
  unfolding visit
  visit-OnlyOldest h =
      ground (arith, h, get_or_insert-none s.empty_slot i, get_or_insert-none s.expired i)

  visit-oldest_time : (visit now i e s).oldest_time ≤ s.oldest_time
  unfolding visit
  visit-oldest_time = ground arith

  visit-bound :
      OnlyOldest (visit now i e s)
      → is_referenced e ≡ false
      → (visit now i e s).oldest_time ≤ e.created_ms
  unfolding visit
  visit-bound h free =
      ground (arith, h, free, get_or_insert-none s.empty_slot i, get_or_insert-none s.expired i)

module _ (key now : ℕ) where
  -- Every entry is another statement's, and is read or not expired.
  abbrev pub Full : List CachedResult → Type 0
  Full es =
      (n : ℕ) (e : CachedResult)
      → get_elem? es n ≡ some e
      → (e.cache_key ≢ key)
        × (e.cache_key ≢ 0)
        × ((is_referenced e || ltb (age now e) query_cache_ttl_ms) ≡ true)

  visit_full :
      (i : ℕ) (e : CachedResult) (s : Slots)
      → e.cache_key ≢ 0
      → (is_referenced e || ltb (age now e) query_cache_ttl_ms) ≡ true
      → OnlyOldest s
      → OnlyOldest (visit now i e s)
  unfolding visit
  visit_full i e s live kept h = ground (arith, live, kept, h)

  scan-Full :
      (es : List CachedResult) (i : ℕ) (s : Slots)
      → Full es
      → OnlyOldest s
      → (s' : Slots) × (scan key now es i s ≡ some s') × OnlyOldest s'
  unfolding scan
  scan-Full [] i s full h = (s, refl, h)
  scan-Full (x ∷ es) i s full h =
      let (ne, live, kept) = full 0 x refl in
      let other : (x.cache_key == key) ≡ false = ground (arith, ne) in
      rw other (
        scan-Full es (i + 1) (visit now i x s) (λ n y q. full (suc n) y q)
          (visit_full i x s live kept h))

  module _ (s' : Slots) (only : OnlyOldest s') where
    scan_tail :
        (x : CachedResult) (es : List CachedResult) (i : ℕ) (s : Slots)
        → scan key now (x ∷ es) i s ≡ some s'
        → scan key now es (i + 1) (visit now i x s) ≡ some s'
    unfolding scan
    scan_tail x es i s h = elim (Bool-cases (x.cache_key == key)) [
      | inl same ↦ elim (Bool-cases (is_referenced x)) [
        | inl busy ↦ absurd (let q = rw (same, busy) at h in cc)
        | inr free ↦ absurd (let q = rw (same, free) at h in no_match (ground (arith, q)))
      ]
      | inr other ↦ rw other at h
    ]
      where
        no_match : s'.exact_match ≡ some i → ⊥
        no_match q = ground (arith, q, only)

    scan-OnlyOldest :
        (es : List CachedResult) (i : ℕ) (s : Slots)
        → scan key now es i s ≡ some s'
        → OnlyOldest s × (s'.oldest_time ≤ s.oldest_time)
    scan-OnlyOldest [] i s h =
        let one : s ≡ s' = (unfold scan in ground (arith, h)) in
        subst (λ t. OnlyOldest t × (s'.oldest_time ≤ t.oldest_time)) (sym one) (only, omega arith)
    scan-OnlyOldest (x ∷ es) i s h =
        let (later, le) = scan-OnlyOldest es (i + 1) (visit now i x s) (scan_tail x es i s h) in
        (visit-OnlyOldest now i x s later, omega (arith, le, visit-oldest_time now i x s))

    -- No entry that nobody reads is older than the time noted.
    scan-bound :
        (es : List CachedResult) (i : ℕ) (s : Slots) (n : ℕ) (e : CachedResult)
        → scan key now es i s ≡ some s'
        → get_elem? es n ≡ some e
        → is_referenced e ≡ false
        → s'.oldest_time ≤ e.created_ms
    scan-bound [] i s n e h q free = absurd (let z = q in cc)
    scan-bound (x ∷ es) i s zero e h q free =
        let one : x ≡ e = ground (arith, q) in
        let (later, le) = scan-OnlyOldest es (i + 1) (visit now i x s) (scan_tail x es i s h) in
        subst (λ y. s'.oldest_time ≤ y.created_ms) one
          (omega (
            arith,
            le,
            visit-bound now i x s later (subst (λ y. is_referenced y ≡ false) (sym one) free),
          ))
    scan-bound (x ∷ es) i s (suc n) e h q free =
        scan-bound es (i + 1) (visit now i x s) n e (scan_tail x es i s h) q free

  -- The time noted is that of the oldest entry.
  abbrev Noted : List CachedResult → Slots → Type 0
  Noted whole s =
      (j : ℕ)
      → s.oldest ≡ some j
      → (e : CachedResult) × (get_elem? whole j ≡ some e) × (e.created_ms ≡ s.oldest_time)

  visit_kept :
      (i : ℕ) (e : CachedResult) (s : Slots)
      → ((visit now i e s).oldest ≡ s.oldest) × ((visit now i e s).oldest_time ≡ s.oldest_time)
        ⊎ ((visit now i e s).oldest ≡ some i) × ((visit now i e s).oldest_time ≡ e.created_ms)
  unfolding visit
  visit_kept i e s = ground arith

  visit-Noted :
      (whole : List CachedResult) (i : ℕ) (e : CachedResult) (s : Slots)
      → get_elem? whole i ≡ some e
      → Noted whole s
      → Noted whole (visit now i e s)
  visit-Noted whole i e s h p j q = elim (visit_kept i e s) [
    | inl (same, time) ↦ let (y, at_j, t) = p j (sym same ∙ q) in (y, at_j, t ∙ sym time)
    | inr (here, time) ↦
        let one : i ≡ j = ground (arith, here, q) in
        (e, subst (λ k. get_elem? whole k ≡ some e) one h, sym time)
  ]

  scan-Noted :
      (whole es : List CachedResult) (i : ℕ) (s s' : Slots)
      → Part whole es i
      → OnlyOldest s'
      → Noted whole s
      → scan key now es i s ≡ some s'
      → Noted whole s'
  scan-Noted whole [] i s s' p only v h =
      let one : s ≡ s' = (unfold scan in ground (arith, h)) in subst (Noted whole) one v
  scan-Noted whole (x ∷ es) i s s' p only v h =
      scan-Noted whole es (i + 1) (visit now i x s) s' (Part-tail whole es x i p) only
        (visit-Noted whole i x s (Part-head whole es x i p) v) (scan_tail s' only x es i s h)

  or_oldest : (s : Slots) (j : ℕ) → OnlyOldest s → choose (some s) ≡ some j → s.oldest ≡ some j
  or_oldest s j (a, b, c) h = rw (a, b, c) at h

  -- In a full cache (every entry is another statement's, and is read or not expired), the slot that
  -- `store` takes holds an entry that nobody reads, and every other entry that nobody reads is at least
  -- as young.
  pub choose-Oldest :
      (es : List CachedResult) (j : ℕ)
      → Full es
      → choose (scan key now es 0 no_slots) ≡ some j
      → (y : CachedResult) × (get_elem? es j ≡ some y)
        × (idle y ≡ true)
        × ((n : ℕ) (e : CachedResult)
            → get_elem? es n ≡ some e
            → is_referenced e ≡ false
            → y.created_ms ≤ e.created_ms)
  choose-Oldest es j full h =
      let (s, done, only) = scan-Full es 0 no_slots full (refl, refl, refl) in
      let chosen = or_oldest s j only (ap choose (sym done) ∙ h) in
      let whole : Part es es 0 = λ n x q. subst (λ k. get_elem? es k ≡ some x) (omega arith) q in
      let (y, at_j, time) = scan-Noted es es 0 no_slots s whole only (λ k q. cc) done j chosen in
      let (z, at_z, free) = choose-Idle key now es j h in
      let one : z ≡ y = ground (arith, at_j, at_z) in
      (
        y,
        at_j,
        subst (λ w. idle w ≡ true) one free,
        λ n e q quiet. omega (arith, time, scan-bound s only es 0 no_slots n e done q quiet),
      )
