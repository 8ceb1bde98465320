-- ===== src/QueryCache/Scan.antt =====
-- rust/plex-pg-core/src/pg_query_cache.rs: the slot that `rust_query_cache_store` chooses.
use plex_postgresql.Prelude.{
  ℕ, suc, ◌+◌, Bool, true, not, ◌&&◌, List, [], ◌∷◌, Option, none, some, ◌≡◌, refl, ◌∙◌, subst,
  arith, inl, inr, ◌==◌, ltb, Bool-cases, Option-cases, get_elem?,
}
use plex_postgresql.QueryCache.{
  CachedResult, is_active, is_referenced, position, age, query_cache_ttl_ms,
}
use plex_postgresql.QueryCache.Store.{Slots, visit, scan, no_slots, or, choose, get_or_insert}

-- The slot may be written: its entry is free, or nobody reads it.
abbrev pub idle : CachedResult → Bool
idle e = not (is_active e && is_referenced e)

abbrev pub place_of : Option (ℕ × CachedResult) → Option ℕ
place_of none = none
place_of (some (i, e)) = some i

module _ (key now : ℕ) where
  visit-exact_match :
      (i : ℕ) (e : CachedResult) (s : Slots) → (visit now i e s).exact_match ≡ s.exact_match
  unfolding visit
  visit-exact_match i e s = ground arith

  -- The exact match is the entry that `position` finds.
  pub scan-exact_match :
      (es : List CachedResult) (i : ℕ) (s s' : Slots)
      → s.exact_match ≡ none
      → scan key now es i s ≡ some s'
      → s'.exact_match ≡ place_of (position key es i)
  unfolding scan position
  scan-exact_match [] i s s' e h = ground (arith, e, h)
  scan-exact_match (x ∷ es) i s s' e h = elim (Bool-cases (x.cache_key == key)) [
    | inl same ↦ elim (Bool-cases (is_referenced x)) [
      | inl busy ↦ absurd (let q = rw (same, busy) at h in cc)
      | inr free ↦ let q = rw (same, free) at h in rw same (exact_of q)
    ]
    | inr other ↦ rw other (
        scan-exact_match es (i + 1) (visit now i x s) s' (visit-exact_match i x s ∙ e)
          (rw other at h))
  ]
    where
      exact_of : some (record s { exact_match = some i }) ≡ some s' → s'.exact_match ≡ some i
      exact_of q = ground (arith, q)

-- The rest of a list stands at its places in the whole one.
abbrev pub Part : List CachedResult → List CachedResult → ℕ → Type 0
Part whole es i =
    (n : ℕ) (x : CachedResult) → get_elem? es n ≡ some x → get_elem? whole (i + n) ≡ some x

pub Part-head :
    (whole es : List CachedResult) (x : CachedResult) (i : ℕ)
    → Part whole (x ∷ es) i
    → get_elem? whole i ≡ some x
Part-head whole es x i p = subst (λ k. get_elem? whole k ≡ some x) (omega arith) (p 0 x refl)

pub Part-tail :
    (whole es : List CachedResult) (x : CachedResult) (i : ℕ)
    → Part whole (x ∷ es) i
    → Part whole es (i + 1)
Part-tail whole es x i p n y h =
    subst (λ k. get_elem? whole k ≡ some y) (omega arith) (p (suc n) y h)

module _ (whole : List CachedResult) where
  abbrev pub Idle : Option ℕ → Type 0
  Idle o =
      (j : ℕ) → o ≡ some j → (e : CachedResult) × (get_elem? whole j ≡ some e) × (idle e ≡ true)

  -- Each slot that was noted may be written.
  record Sound (s : Slots) : Type 0 where
    exact_match : Idle s.exact_match
    empty_slot : Idle s.empty_slot
    expired : Idle s.expired
    oldest : Idle s.oldest

  Idle-some :
      (i : ℕ) (e : CachedResult) → get_elem? whole i ≡ some e → idle e ≡ true → Idle (some i)
  Idle-some i e h free j q =
      let one : i ≡ j = ground (arith, q) in
      (e, subst (λ k. get_elem? whole k ≡ some e) one h, free)

  Idle-get_or_insert :
      (o : Option ℕ) (i : ℕ) (e : CachedResult)
      → get_elem? whole i ≡ some e
      → idle e ≡ true
      → Idle o
      → Idle (get_or_insert o i)
  Idle-get_or_insert none i e h free p = Idle-some i e h free
  Idle-get_or_insert (some k) i e h free p = p

  Idle-or : (a b : Option ℕ) → Idle a → Idle b → Idle (or a b)
  Idle-or none b p q = q
  Idle-or (some i) b p q = p

  visit-Sound :
      (now i : ℕ) (e : CachedResult) (s : Slots)
      → get_elem? whole i ≡ some e
      → Sound s
      → Sound (visit now i e s)
  unfolding visit
  visit-Sound now i e s h v = elim (Bool-cases (e.cache_key == 0)) [
    | inl null ↦ rw null record {
      exact_match = v.exact_match;
      empty_slot = Idle-get_or_insert s.empty_slot i e h (ground arith) v.empty_slot;
      expired = v.expired;
      oldest = v.oldest;
    }
    | inr live ↦ elim (Bool-cases (is_referenced e)) [
      | inl busy ↦
          rw (live, busy)
            (elim (Bool-cases (ltb (age now e) query_cache_ttl_ms)) [
              | inl fresh ↦ rw fresh v
              | inr old ↦ rw old v
            ])
      | inr free ↦ elim (Bool-cases (ltb (age now e) query_cache_ttl_ms)) [
        | inr old ↦
            rw (live, free, old)
              record {
                exact_match = v.exact_match;
                empty_slot = v.empty_slot;
                expired = Idle-get_or_insert s.expired i e h (ground arith) v.expired;
                oldest = v.oldest;
              }
        | inl fresh ↦ elim (Bool-cases (ltb e.created_ms s.oldest_time)) [
          | inl older ↦
              rw (live, free, fresh, older)
                record {
                  exact_match = v.exact_match;
                  empty_slot = v.empty_slot;
                  expired = v.expired;
                  oldest = Idle-some i e h (ground arith);
                }
          | inr newer ↦ rw (live, free, fresh, newer) v
        ]
      ]
    ]
  ]

  scan-Sound :
      (key now : ℕ) (es : List CachedResult) (i : ℕ) (s s' : Slots)
      → Part whole es i
      → Sound s
      → scan key now es i s ≡ some s'
      → Sound s'
  unfolding scan
  scan-Sound key now [] i s s' p v h = let one : s ≡ s' = ground (arith, h) in subst Sound one v
  scan-Sound key now (x ∷ es) i s s' p v h = elim (Bool-cases (x.cache_key == key)) [
    | inl same ↦ elim (Bool-cases (is_referenced x)) [
      | inl busy ↦ absurd (let q = rw (same, busy) at h in cc)
      | inr free ↦
          let q = rw (same, free) at h in
          let one : record s { exact_match = some i } ≡ s' = ground (arith, q) in
          subst Sound one record {
            exact_match = Idle-some i x (Part-head whole es x i p) (ground arith);
            empty_slot = v.empty_slot;
            expired = v.expired;
            oldest = v.oldest;
          }
    ]
    | inr other ↦
        scan-Sound key now es (i + 1) (visit now i x s) s' (Part-tail whole es x i p)
          (visit-Sound now i x s (Part-head whole es x i p) v) (rw other at h)
  ]

no_slots-Sound : (whole : List CachedResult) → Sound whole no_slots
no_slots-Sound whole = record {
  exact_match = λ j q. cc;
  empty_slot = λ j q. cc;
  expired = λ j q. cc;
  oldest = λ j q. cc;
}

-- The slot that a scan of the entries comes to may be written.
pub choose-Idle :
    (key now : ℕ) (es : List CachedResult) → Idle es (choose (scan key now es 0 no_slots))
choose-Idle key now es = elim (Option-cases (scan key now es 0 no_slots)) [
  | inl left ↦ rw left (λ j q. cc)
  | inr (s, done) ↦
      let v =
        scan-Sound es key now es 0 no_slots s
          (λ n x h. subst (λ k. get_elem? es k ≡ some x) (omega arith) h) (no_slots-Sound es)
          done in
      rw done (
        Idle-or es _ _ v.exact_match
          (Idle-or es _ _ v.empty_slot (Idle-or es _ _ v.expired v.oldest)))
]
