-- ===== src/StmtCache/Probe.antt =====
-- What a probe finds, and how a write changes it.
use plex_postgresql.Prelude.{
  ℕ, zero, suc, ◌+◌, ◌<◌, false, List, Option, none, some, ◌==◌, ==_iff, ◌≡◌, ◌≢◌, refl, sym, ◌∙◌,
  subst, arith, inl, inr, Bool-cases, Option-cases, ℕ_discrete, set, length, get_elem?-set_self,
  get_elem?-set_ne,
}
use plex_postgresql.StmtCache.{Entry, slot, index, probe}

pub index_lt : (start i : ℕ) → index start i < 512
index_lt start i = omega arith

module _ (entries : List (Option Entry)) (len : length entries ≡ 512) where
  pub slot-set_self : (i : ℕ) (o : Option Entry) → i < 512 → slot (set entries i o) i ≡ o
  slot-set_self i o h = rw (get_elem?-set_self entries i o (omega arith))

  pub slot-set_ne : (i j : ℕ) (o : Option Entry) → i ≢ j → slot (set entries i o) j ≡ slot entries j
  slot-set_ne i j o h = rw (get_elem?-set_ne entries i j o h)

ne_some : {j : ℕ} {e : Entry} → Path (Option (ℕ × Entry)) none (some (j, e)) → ⊥
ne_some h = cc

module _ (entries : List (Option Entry)) (hash start : ℕ) where
  -- One round.
  pub probe_empty :
      (rounds i : ℕ)
      → slot entries (index start i) ≡ none
      → probe entries hash start (suc rounds) i ≡ none
  unfolding probe
  probe_empty rounds i e = rw (e, probe)

  pub probe_hit :
      (rounds i : ℕ) (e : Entry)
      → slot entries (index start i) ≡ some e
      → e.sql_hash ≡ hash
      → probe entries hash start (suc rounds) i ≡ some (index start i, e)
  unfolding probe
  probe_hit rounds i e s h = rw (s, probe, (==_iff e.sql_hash hash).1 h)

  pub probe_miss :
      (rounds i : ℕ) (e : Entry)
      → slot entries (index start i) ≡ some e
      → e.sql_hash ≢ hash
      → probe entries hash start (suc rounds) i ≡ probe entries hash start rounds (i + 1)
  unfolding probe
  probe_miss rounds i e s h =
      let other : (e.sql_hash == hash) ≡ false = ground arith in rw (s, probe, other)

  -- What is found stands there, under the hash that was asked for.
  pub probe_sound :
      (rounds i j : ℕ) (e : Entry)
      → probe entries hash start rounds i ≡ some (j, e)
      → (slot entries j ≡ some e) × (e.sql_hash ≡ hash) × (j < 512)
  probe_sound zero i j e h = unfold probe in cc
  probe_sound (suc rounds) i j e h = elim (Option-cases (slot entries (index start i))) [
    | inl empty ↦ absurd (ne_some (sym (probe_empty rounds i empty) ∙ h))
    | inr (x, s) ↦ elim (Bool-cases (x.sql_hash == hash)) [
      | inl hit ↦
          let here = sym (probe_hit rounds i x s ((==_iff x.sql_hash hash).0 hit)) ∙ h in
          ground (arith, here, index_lt start i)
      | inr miss ↦ probe_sound rounds (i + 1) j e (sym (probe_miss rounds i x s (ground arith)) ∙ h)
    ]
  ]

  -- No entry of that hash, no hit.
  pub probe_absent :
      (rounds i : ℕ)
      → ((j : ℕ) (e : Entry) → slot entries j ≡ some e → e.sql_hash ≢ hash)
      → probe entries hash start rounds i ≡ none
  probe_absent zero i h = unfold probe in refl
  probe_absent (suc rounds) i h = elim (Option-cases (slot entries (index start i))) [
    | inl empty ↦ probe_empty rounds i empty
    | inr (x, s) ↦ probe_miss rounds i x s (h _ x s) ∙ probe_absent rounds (i + 1) h
  ]

module _ (entries : List (Option Entry)) (len : length entries ≡ 512) (hash start : ℕ) (w : ℕ)
    (new : Entry) where
  abbrev after : List (Option Entry)
  after = set entries w (some new)

  set_hit :
      (rounds i j : ℕ) (e x : Entry)
      → w < 512
      → w ≢ j
      → slot entries (index start i) ≡ some x
      → x.sql_hash ≡ hash
      → probe entries hash start (suc rounds) i ≡ some (j, e)
      → probe after hash start (suc rounds) i ≡ some (j, e)
  set_hit rounds i j e x lt ne s same h =
      let here = sym (probe_hit entries hash start rounds i x s same) ∙ h in
      let away : w ≢ index start i = ground (arith, here) in
      probe_hit after hash start rounds i x (slot-set_ne entries len w _ (some new) away ∙ s) same
      ∙ here

  set_miss :
      (rounds i : ℕ) (x : Entry)
      → w < 512
      → new.sql_hash ≢ hash
      → slot entries (index start i) ≡ some x
      → x.sql_hash ≢ hash
      → probe after hash start (suc rounds) i ≡ probe after hash start rounds (i + 1)
  set_miss rounds i x lt other s miss = elim (ℕ_discrete w (index start i)) [
    | yes here ↦
        probe_miss after hash start rounds i new
          (subst (λ k. slot after k ≡ some new) here (slot-set_self entries len w (some new) lt))
          other
    | no away ↦
        probe_miss after hash start rounds i x (slot-set_ne entries len w _ (some new) away ∙ s)
          miss
  ]

  -- A write of another hash, at another place, keeps what a probe finds.
  pub probe-set_other :
      (rounds i j : ℕ) (e : Entry)
      → w < 512
      → w ≢ j
      → new.sql_hash ≢ hash
      → probe entries hash start rounds i ≡ some (j, e)
      → probe (set entries w (some new)) hash start rounds i ≡ some (j, e)
  probe-set_other zero i j e lt ne other h = absurd (unfold probe in ne_some h)
  probe-set_other (suc rounds) i j e lt ne other h =
      elim (Option-cases (slot entries (index start i))) [
        | inl empty ↦ absurd (ne_some (sym (probe_empty entries hash start rounds i empty) ∙ h))
        | inr (x, s) ↦ elim (Bool-cases (x.sql_hash == hash)) [
          | inl hit ↦ set_hit rounds i j e x lt ne s ((==_iff x.sql_hash hash).0 hit) h
          | inr miss ↦
              let step : x.sql_hash ≢ hash = ground arith in
              set_miss rounds i x lt other s step
              ∙ probe-set_other rounds (i + 1) j e lt ne other
                  (sym (probe_miss entries hash start rounds i x s step) ∙ h)
        ]
      ]
