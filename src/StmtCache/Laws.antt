-- ===== src/StmtCache/Laws.antt =====
-- The table's invariant, that every operation keeps it, and lookups after an `add`.
use plex_postgresql.Prelude.{
  ℕ, zero, suc, ◌+◌, ◌<◌, List, [], ◌∷◌, Option, none, some, ◌≡◌, ◌≢◌, refl, ap, sym, ◌∙◌, subst,
  arith, inl, inr, Option-cases, ℕ_discrete, set, length, replicate, length-replicate,
}
use plex_postgresql.StmtCache.{Entry, StmtCache, slot, start_of, probe, empty}
use plex_postgresql.StmtCache.Probe.{
  slot-set_self, slot-set_ne, probe_sound, probe_absent, probe-set_other,
}

abbrev pub used : List (Option Entry) → ℕ
used [] = 0
used (none ∷ es) = used es
used (some e ∷ es) = suc (used es)

-- Every entry is the one that a lookup of its hash finds, so no hash is there twice.
pub record IsTable (cache : StmtCache) : Type 0 where
  pub sized : length cache.entries ≡ 512
  pub counted : cache.count ≡ used cache.entries
  pub found :
      (i : ℕ) (e : Entry)
      → slot cache.entries i ≡ some e
      → (e.sql_hash ≢ 0)
        × (probe cache.entries e.sql_hash (start_of e.sql_hash) 512 0 ≡ some (i, e))

slot-replicate : (n i : ℕ) → slot (replicate n none) i ≡ none
slot-replicate zero i = refl
slot-replicate (suc n) zero = refl
slot-replicate (suc n) (suc i) = slot-replicate n i

used-replicate : (n : ℕ) → used (replicate n none) ≡ 0
used-replicate zero = refl
used-replicate (suc n) = used-replicate n

pub no_entry : (i : ℕ) (e : Entry) → slot empty.entries i ≡ some e → ⊥
unfolding empty
no_entry i e s = let h = sym (slot-replicate 512 i) ∙ s in cc

pub empty-IsTable : IsTable empty
unfolding empty
empty-IsTable = record {
  sized = length-replicate {A = Option Entry} 512 none;
  counted = sym (used-replicate 512);
  found = λ i e s. absurd (no_entry i e s);
}

pub used-set_vacant :
    (es : List (Option Entry)) (w : ℕ) (e : Entry)
    → w < length es
    → slot es w ≡ none
    → used (set es w (some e)) ≡ used es + 1
used-set_vacant [] w e lt s = absurd (omega arith)
used-set_vacant (none ∷ es) zero e lt s = omega arith
used-set_vacant (some x ∷ es) zero e lt s = cc
used-set_vacant (none ∷ es) (suc w) e lt s = used-set_vacant es w e (omega arith) s
used-set_vacant (some x ∷ es) (suc w) e lt s = omega (arith, used-set_vacant es w e (omega arith) s)

pub used-set_occupied :
    (es : List (Option Entry)) (w : ℕ) (e x : Entry)
    → slot es w ≡ some x
    → used (set es w (some e)) ≡ used es
used-set_occupied [] w e x s = cc
used-set_occupied (none ∷ es) zero e x s = cc
used-set_occupied (some y ∷ es) zero e x s = refl
used-set_occupied (none ∷ es) (suc w) e x s = used-set_occupied es w e x s
used-set_occupied (some y ∷ es) (suc w) e x s = ap suc (used-set_occupied es w e x s)

module _ (cache : StmtCache) (v : IsTable cache) where
  abbrev probed : ℕ → Option (ℕ × Entry)
  probed hash = probe cache.entries hash (start_of hash) 512 0

  -- A hash that a probe does not find stands nowhere.
  pub absent_of_probe :
      (hash : ℕ)
      → probed hash ≡ none
      → (j : ℕ) (e : Entry) → slot cache.entries j ≡ some e
      → e.sql_hash ≢ hash
  absent_of_probe hash miss j e s same =
      let h = subst (λ k. probed k ≡ some (j, e)) same (v.found j e s).1 in cc (miss, h)

  -- A hash that a probe finds stands there only.
  pub place_of_probe :
      (hash w : ℕ) (x : Entry)
      → probed hash ≡ some (w, x)
      → (j : ℕ) (e : Entry) → slot cache.entries j ≡ some e
      → e.sql_hash ≡ hash
      → j ≡ w
  place_of_probe hash w x hit j e s same =
      let h = subst (λ k. probed k ≡ some (j, e)) same (v.found j e s).1 in ground (arith, hit, h)

  module _ (w : ℕ) (new : Entry) (lt : w < 512) where
    abbrev wrote : List (Option Entry)
    wrote = set cache.entries w (some new)

    pub found-write :
        new.sql_hash ≢ 0
        → probe wrote new.sql_hash (start_of new.sql_hash) 512 0 ≡ some (w, new)
        → ((j : ℕ) (e : Entry) → slot cache.entries j ≡ some e → e.sql_hash ≡ new.sql_hash → j ≡ w)
        → (i : ℕ) (e : Entry) → slot wrote i ≡ some e
        → (e.sql_hash ≢ 0) × (probe wrote e.sql_hash (start_of e.sql_hash) 512 0 ≡ some (i, e))
    found-write nonzero hit alone i e s = elim (ℕ_discrete w i) [
      | yes here ↦
          let same : new ≡ e = ground (
            arith,
            sym (slot-set_self cache.entries v.sized w (some new) lt) ∙ ap (slot wrote) here ∙ s,
          ) in
          subst
            (λ x.
              (x.sql_hash ≢ 0) × (probe wrote x.sql_hash (start_of x.sql_hash) 512 0 ≡ some (i, x)))
            same (nonzero, hit ∙ ap (λ k. some (k, new)) here)
      | no away ↦
          let old = sym (slot-set_ne cache.entries v.sized w i (some new) away) ∙ s in
          (
            (v.found i e old).0,
            probe-set_other cache.entries v.sized e.sql_hash (start_of e.sql_hash) w new 512 0 i e
                lt away (λ clash. away (sym (alone i e old (sym clash)))) (v.found i e old).1,
          )
    ]

    wrote_absent :
        (hash : ℕ)
        → hash ≢ new.sql_hash
        → probed hash ≡ none
        → (j : ℕ) (e : Entry) → slot wrote j ≡ some e
        → e.sql_hash ≢ hash
    wrote_absent hash ne miss j e s same = elim (ℕ_discrete w j) [
      | yes here ↦
          let is_new : new ≡ e = ground (
            arith,
            sym (slot-set_self cache.entries v.sized w (some new) lt) ∙ ap (slot wrote) here ∙ s,
          ) in
          ne (sym (ap (λ x. x.sql_hash) is_new ∙ same))
      | no away ↦
          absent_of_probe hash miss j e
            (sym (slot-set_ne cache.entries v.sized w j (some new) away) ∙ s) same
    ]

    -- A write changes the lookups of two hashes: its own, and that of the entry it replaces.
    pub probe-write_other :
        (hash : ℕ)
        → hash ≢ new.sql_hash
        → ((x : Entry) → slot cache.entries w ≡ some x → x.sql_hash ≢ hash)
        → probe wrote hash (start_of hash) 512 0 ≡ probed hash
    probe-write_other hash ne replaced = elim (Option-cases (probed hash)) [
      | inl miss ↦
          probe_absent wrote hash (start_of hash) 512 0 (wrote_absent hash ne miss) ∙ sym miss
      | inr ((j, e), hit) ↦
          let (s, same, _) = probe_sound cache.entries hash (start_of hash) 512 0 j e hit in
          probe-set_other cache.entries v.sized hash (start_of hash) w new 512 0 j e lt
            (λ here. replaced e (ap (slot cache.entries) here ∙ s) same) (λ q. ne (sym q)) hit
          ∙ sym hit
    ]
