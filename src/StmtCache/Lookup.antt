-- ===== src/StmtCache/Lookup.antt =====
-- The cache as a map from hashes to entries: lookups after `add` and `clear`.
use plex_postgresql.Prelude.{
  ℕ, ◌≤◌, ◌<◌, false, List, [], ◌∷◌, Option, none, some, ◌==◌, ◌≡◌, ◌≢◌, ◌↔◌, ap, sym, ◌∙◌, subst,
  arith, inl, inr, Bool-cases, Option-cases, length,
}
use plex_postgresql.Prelude.Bytes.{Bytes}
use plex_postgresql.StmtCache.{
  Entry, StmtCache, slot, start_of, probe, full, lookup_mut, lookup, put, add, i64_max,
}
use plex_postgresql.StmtCache.Probe.{probe_sound}
use plex_postgresql.StmtCache.Laws.{IsTable, used}
use plex_postgresql.StmtCache.Fits.{pass, pass-Fits}
use plex_postgresql.StmtCache.Add.{
  put-IsTable, put_other, put_self, put_lookup, put-Evicts, put_names, Evicts,
}

abbrev pub entry : ℕ → Bytes → ℕ → ℕ → Entry
entry hash name params now = record {
  sql_hash = hash;
  stmt_name = name;
  param_count = params;
  last_used = now;
}

module _ (cache : StmtCache) (v : IsTable cache) where
  used-le-length : (es : List (Option Entry)) → used es ≤ length es
  used-le-length [] = omega arith
  used-le-length (none ∷ es) = omega (arith, used-le-length es)
  used-le-length (some e ∷ es) = omega (arith, used-le-length es)

  -- The count of a well-formed table is never above its size.
  pub count-le : cache.count ≤ 512
  count-le = omega (arith, v.counted, v.sized, used-le-length cache.entries)

  abbrev pub Holds : ℕ → Entry → Type 0
  Holds hash e = (i : ℕ) × (slot cache.entries i ≡ some e) × (e.sql_hash ≡ hash)

  held_of_lookup : (hash : ℕ) (e : Entry) → lookup cache hash ≡ some e → (hash ≢ 0) × Holds hash e
  unfolding lookup lookup_mut
  held_of_lookup hash e h = elim (Bool-cases (hash == 0)) [
    | inl null ↦ absurd (let q = rw null at h in cc)
    | inr live ↦ elim (Option-cases (probe cache.entries hash (start_of hash) 512 0)) [
      | inl miss ↦ absurd (let q = rw (live, miss) at h in cc)
      | inr ((i, x), hit) ↦
          let (s, same, _) = probe_sound cache.entries hash (start_of hash) 512 0 i x hit in
          let one : x ≡ e = (let q = rw (live, hit) at h in ground (arith, q)) in
          (ground arith, (i, rw (← one) s, rw (← one) same))
    ]
  ]

  lookup_of_held : (hash : ℕ) (e : Entry) → (hash ≢ 0) × Holds hash e → lookup cache hash ≡ some e
  unfolding lookup lookup_mut
  lookup_of_held hash e (ne, (i, s, same)) =
      let zero_test : (hash == 0) ≡ false = ground arith in
      let hit =
        subst (λ k. probe cache.entries k (start_of k) 512 0 ≡ some (i, e)) same
          (v.found i e s).1 in
      rw (zero_test, hit)

  -- In a well-formed table, a lookup gives an entry exactly when the table holds it under that hash,
  -- and the hash is not 0.
  pub lookup-eq-some_iff :
      (hash : ℕ) (e : Entry) → (lookup cache hash ≡ some e) ↔ ((hash ≢ 0) × Holds hash e)
  lookup-eq-some_iff hash e = (held_of_lookup hash e, lookup_of_held hash e)

  module _ (hash : ℕ) (name : Bytes) (params now : ℕ) (nonzero : hash ≢ 0) where
    abbrev new : Entry
    new = entry hash name params now

    add-put : add cache hash name params now ≡ put cache new (pass cache v new nonzero)
    unfolding add
    add-put = let zero_test : (hash == 0) ≡ false = ground arith in rw zero_test

    -- `add`, under a hash that is not 0, keeps a well-formed table well formed.
    pub add-IsTable : IsTable (add cache hash name params now).0
    add-IsTable = rw add-put (put-IsTable cache v new nonzero _ (pass-Fits cache v new nonzero))

    -- What was added to a well-formed table, under a hash that is not 0, is found, as long as no entry's
    -- time is the largest one.
    pub lookup-add_self :
        ((j : ℕ) (y : Entry) → slot cache.entries j ≡ some y → y.last_used < i64_max)
        → lookup (add cache hash name params now).0 hash ≡ some new
    unfolding lookup lookup_mut
    lookup-add_self early =
        let (w, hit) = put_self cache v new nonzero _ (pass-Fits cache v new nonzero) early in
        let zero_test : (hash == 0) ≡ false = ground arith in rw (add-put, zero_test, hit)

    -- In a well-formed table, and under a hash that is not 0, an addition without an eviction leaves what
    -- a lookup gives for every other hash.
    pub lookup-add_other :
        (other : ℕ)
        → other ≢ hash
        → (add cache hash name params now).2 ≡ none
        → lookup (add cache hash name params now).0 other ≡ lookup cache other
    lookup-add_other other ne e = rw add-put (
        put_lookup cache v new nonzero _ other (
          put_other cache v new nonzero _ other (pass-Fits cache v new nonzero) ne
            (λ w x p s. absurd (evicts w x p s))))
      where
        evicts :
            (w : ℕ) (x : Entry)
            → pass cache v new nonzero ≡ full (some w)
            → slot cache.entries w ≡ some x
            → ⊥
        evicts w x p s =
            let q : (put cache new (pass cache v new nonzero)).2 ≡ none =
              ap (λ a. a.2) (sym add-put) ∙ e in
            cc (q, ap (λ r. (put cache new r).2) p, put_names cache v new nonzero w x s)

    -- In a well-formed table, and under a hash that is not 0: the name that comes back is that of a
    -- least recently used entry; that entry is gone, and every other one is found as before.
    pub add-Evicts :
        {old : Bytes}
        → (add cache hash name params now).2 ≡ some old
        → Evicts cache v new nonzero (add cache hash name params now).0 old
    add-Evicts {old} e =
        subst (λ (a : StmtCache × Option ℕ × Option Bytes). Evicts cache v new nonzero a.0 old)
          (sym add-put)
          (put-Evicts cache v new nonzero _ (pass-Fits cache v new nonzero)
            (ap (λ a. a.2) (sym add-put) ∙ e))
