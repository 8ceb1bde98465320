-- ===== src/QueryCache/Reclaimable.antt =====
-- rust/plex-pg-core/src/pg_query_cache.rs: when `rust_query_cache_store` finds a slot.
use plex_postgresql.Prelude.{
  ℕ, zero, suc, ◌+◌, ◌<◌, ◌-◌, ◌^◌, Bool, true, false, ◌||◌, List, [], ◌∷◌, Option, none, some, ◌≡◌,
  refl, ◌∙◌, subst, ap, arith, inl, inr, ◌==◌, ==_iff, Bool-cases, get_elem?,
}
use plex_postgresql.QueryCache.{CachedResult, is_referenced}
use plex_postgresql.QueryCache.Store.{Slots, visit, scan, no_slots, or, choose, get_or_insert}
use plex_postgresql.QueryCache.Scan.{idle, choose-Idle}

abbrev has : Option ℕ → Bool
has none = false
has (some i) = true

abbrev some_slot : Slots → Bool
some_slot s = has s.exact_match || (has s.empty_slot || (has s.expired || has s.oldest))

has-get_or_insert : (o : Option ℕ) (i : ℕ) → has (get_or_insert o i) ≡ true
has-get_or_insert none i = refl
has-get_or_insert (some j) i = refl

-- Without an oldest entry its time is the largest one.
abbrev Timed : Slots → Type 0
Timed s = (has s.oldest || s.oldest_time == 2 ^ 64 - 1) ≡ true

module _ (now i : ℕ) (e : CachedResult) (s : Slots) where
  visit-Timed : Timed s → Timed (visit now i e s)
  unfolding visit
  visit-Timed h = ground (arith, h)

  visit-some_slot : some_slot s ≡ true → some_slot (visit now i e s) ≡ true
  unfolding visit
  visit-some_slot h =
      ground (arith, h, has-get_or_insert s.empty_slot i, has-get_or_insert s.expired i)

  visit-idle :
      Timed s → e.created_ms < 2 ^ 64 - 1 → idle e ≡ true → some_slot (visit now i e s) ≡ true
  unfolding visit
  visit-idle t early free =
      ground
        (arith, t, early, free, has-get_or_insert s.empty_slot i, has-get_or_insert s.expired i)

-- Nobody reads the entry of the key.
abbrev pub NotRead : ℕ → List CachedResult → Type 0
NotRead key es =
    (n : ℕ) (x : CachedResult)
    → get_elem? es n ≡ some x
    → x.cache_key ≡ key
    → is_referenced x ≡ false

module _ (key now : ℕ) where
  scan_match :
      (x : CachedResult) (es : List CachedResult) (i : ℕ) (s : Slots)
      → NotRead key (x ∷ es)
      → (x.cache_key == key) ≡ true
      → (s' : Slots) × (scan key now (x ∷ es) i s ≡ some s') × (some_slot s' ≡ true)
  unfolding scan
  scan_match x es i s quiet same =
      let free = quiet 0 x refl ((==_iff x.cache_key key).0 same) in
      (record s { exact_match = some i }, rw (same, free) refl, refl)

  scan_found :
      (es : List CachedResult) (i : ℕ) (s : Slots)
      → NotRead key es
      → some_slot s ≡ true
      → (s' : Slots) × (scan key now es i s ≡ some s') × (some_slot s' ≡ true)
  unfolding scan
  scan_found [] i s quiet h = (s, refl, h)
  scan_found (x ∷ es) i s quiet h = elim (Bool-cases (x.cache_key == key)) [
    | inl same ↦ scan_match x es i s quiet same
    | inr other ↦ rw other (
        scan_found es (i + 1) (visit now i x s) (λ n y q. quiet (suc n) y q)
          (visit-some_slot now i x s h))
  ]

  scan-idle :
      (es : List CachedResult) (i : ℕ) (s : Slots) (n : ℕ) (e : CachedResult)
      → NotRead key es
      → Timed s
      → get_elem? es n ≡ some e
      → e.created_ms < 2 ^ 64 - 1
      → idle e ≡ true
      → (s' : Slots) × (scan key now es i s ≡ some s') × (some_slot s' ≡ true)
  unfolding scan
  scan-idle [] i s n e quiet t q early free = absurd (let z = q in cc)
  scan-idle (x ∷ es) i s zero e quiet t q early free = elim (Bool-cases (x.cache_key == key)) [
    | inl same ↦ scan_match x es i s quiet same
    | inr other ↦
        let one : e ≡ x = ground (arith, q) in
        rw other (
          scan_found es (i + 1) (visit now i x s) (λ k y p. quiet (suc k) y p)
            (visit-idle now i x s t (subst (λ y. y.created_ms < 2 ^ 64 - 1) one early)
              (subst (λ y. idle y ≡ true) one free)))
  ]
  scan-idle (x ∷ es) i s (suc n) e quiet t q early free = elim (Bool-cases (x.cache_key == key)) [
    | inl same ↦ scan_match x es i s quiet same
    | inr other ↦ rw other (
        scan-idle es (i + 1) (visit now i x s) n e (λ k y p. quiet (suc k) y p)
          (visit-Timed now i x s t) q early free)
  ]

  or_found :
      (a b c d : Option ℕ)
      → (has a || (has b || (has c || has d))) ≡ true
      → (j : ℕ) × (or a (or b (or c d)) ≡ some j)
  or_found (some j) b c d h = (j, refl)
  or_found none (some j) c d h = (j, refl)
  or_found none none (some j) d h = (j, refl)
  or_found none none none (some j) h = (j, refl)
  or_found none none none none h = cc

  -- Where the key's own entry is not read and one entry may be written, a slot is chosen, and its entry
  -- may be written.
  pub choose_found :
      (es : List CachedResult) (n : ℕ) (e : CachedResult)
      → NotRead key es
      → get_elem? es n ≡ some e
      → e.created_ms < 2 ^ 64 - 1
      → idle e ≡ true
      → (s : Slots) × (j : ℕ) × (y : CachedResult) × (scan key now es 0 no_slots ≡ some s)
        × (choose (some s) ≡ some j)
        × (get_elem? es j ≡ some y)
        × (idle y ≡ true)
  choose_found es n e quiet q early free =
      let (s, done, there) = scan-idle es 0 no_slots n e quiet refl q early free in
      let (j, chosen) = or_found s.exact_match s.empty_slot s.expired s.oldest there in
      let (y, at_j, free_y) = choose-Idle key now es j (ap choose done ∙ chosen) in
      (s, j, y, done, chosen, at_j, free_y)
