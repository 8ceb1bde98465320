-- ===== src/StmtCache/Add.antt =====
-- `add` and `clear`: the invariant, and what lookups give afterwards.
use plex_postgresql.Prelude.{
  ℕ, ◌+◌, ◌<◌, none, some, ◌≡◌, ◌≢◌, refl, ap, sym, ◌∙◌, arith, ℕ_discrete, set, length-set,
}
use plex_postgresql.Prelude.Bytes.{Bytes}
use plex_postgresql.StmtCache.{
  Entry, StmtCache, slot, start_of, probe, Place, occupied, vacant, full, lookup_mut, lookup, write,
  put, i64_max, name_of,
}
use plex_postgresql.StmtCache.Probe.{slot-set_self, slot-set_ne, probe_absent}
use plex_postgresql.StmtCache.Laws.{
  IsTable, used, used-set_vacant, used-set_occupied, place_of_probe, found-write, probe-write_other,
}
use plex_postgresql.StmtCache.Fits.{Target, Fits, Oldest}

module _ (cache : StmtCache) (v : IsTable cache) (new : Entry) (nonzero : new.sql_hash ≢ 0) where
  write-IsTable :
      (w count : ℕ)
      → Target cache v new nonzero w
      → count ≡ used (set cache.entries w (some new))
      → IsTable (record (write cache w new) { count = count })
  write-IsTable w count t c = record {
    sized = length-set cache.entries w (some new) ∙ v.sized;
    counted = c;
    found = found-write cache v w new t.within nonzero t.hit t.alone;
  }

  pub put-IsTable : (p : Place) → Fits cache v new nonzero p → IsTable (put cache new p).0
  unfolding put
  put-IsTable (occupied w) (t, (x, s, _)) =
      write-IsTable w cache.count t (v.counted ∙ sym (used-set_occupied cache.entries w new x s))
  put-IsTable (vacant w) (t, free) = write-IsTable w (cache.count + 1) t (
      omega (
        arith,
        v.counted,
        used-set_vacant cache.entries w new (omega (arith, t.within, v.sized)) free,
      ))
  put-IsTable (full none) f = v
  put-IsTable (full (some w)) (t, (x, s, _, _)) =
      write-IsTable w cache.count t (v.counted ∙ sym (used-set_occupied cache.entries w new x s))

  -- A lookup of another hash sees nothing of the write, unless its own entry was replaced.
  pub put_other :
      (p : Place) (hash : ℕ)
      → Fits cache v new nonzero p
      → hash ≢ new.sql_hash
      → ((w : ℕ) (x : Entry)
          → p ≡ full (some w)
          → slot cache.entries w ≡ some x
          → x.sql_hash ≢ hash)
      → probe (put cache new p).0.entries hash (start_of hash) 512 0
        ≡ probe cache.entries hash (start_of hash) 512 0
  unfolding put
  put_other (occupied w) hash (t, (x, s, same)) ne kept =
      probe-write_other cache v w new t.within hash ne (λ y sy e.
        let one : x ≡ y = (let q = sym s ∙ sy in ground (arith, q)) in
        ne (sym e ∙ sym (ap (λ z. z.sql_hash) one) ∙ same))
  put_other (vacant w) hash (t, free) ne kept =
      probe-write_other cache v w new t.within hash ne
        (λ y sy. absurd (let e = sym free ∙ sy in cc))
  put_other (full none) hash f ne kept = refl
  put_other (full (some w)) hash (t, (x, s, _, _)) ne kept =
      probe-write_other cache v w new t.within hash ne (λ y sy. kept w y refl sy)

  -- The written entry is what a probe of its hash gives.
  pub put_self :
      (p : Place)
      → Fits cache v new nonzero p
      → ((j : ℕ) (y : Entry) → slot cache.entries j ≡ some y → y.last_used < i64_max)
      → (w : ℕ) × (probe (put cache new p).0.entries new.sql_hash (start_of new.sql_hash) 512 0
          ≡ some (w, new))
  unfolding put
  put_self (occupied w) f early = (w, f.0.hit)
  put_self (vacant w) f early = (w, f.0.hit)
  put_self (full (some w)) f early = (w, f.0.hit)
  put_self (full none) f early =
      let (y, s, late) = f 0 (omega arith) in absurd (omega (arith, early 0 y s))

  -- The entry that is replaced in a full table is not found any more.
  put_gone :
      (w : ℕ) (x : Entry)
      → Target cache v new nonzero w
      → slot cache.entries w ≡ some x
      → x.sql_hash ≢ new.sql_hash
      → probe (set cache.entries w (some new)) x.sql_hash (start_of x.sql_hash) 512 0 ≡ none
  put_gone w x t s other =
      probe_absent (set cache.entries w (some new)) x.sql_hash (start_of x.sql_hash) 512 0
        λ j y sy same. elim (ℕ_discrete w j) [
          | yes here ↦
              let is_new : new ≡ y = ground (
                arith,
                sym (slot-set_self cache.entries v.sized w (some new) t.within)
                    ∙ ap (slot (set cache.entries w (some new))) here
                    ∙ sy,
              ) in
              other (sym same ∙ sym (ap (λ z. z.sql_hash) is_new))
          | no away ↦
              let old = sym (slot-set_ne cache.entries v.sized w j (some new) away) ∙ sy in
              away (sym (place_of_probe cache v x.sql_hash w x (v.found w x s).1 j y old same))
        ]

  -- An eviction takes the entry that was used longest ago out of a full table.
  pub record Evicts (after : StmtCache) (name : Bytes) : Type 0 where
    pub w : ℕ
    pub entry : Entry
    pub held : slot cache.entries w ≡ some entry
    pub named : entry.stmt_name ≡ name
    pub oldest : Oldest cache v new nonzero entry
    pub gone : lookup after entry.sql_hash ≡ none
    pub kept :
        (hash : ℕ)
        → hash ≢ new.sql_hash
        → hash ≢ entry.sql_hash
        → lookup after hash ≡ lookup cache hash

  pub put_lookup :
      (after : StmtCache) (hash : ℕ)
      → probe after.entries hash (start_of hash) 512 0
        ≡ probe cache.entries hash (start_of hash) 512 0
      → lookup after hash ≡ lookup cache hash
  unfolding lookup lookup_mut
  put_lookup after hash e = rw e

  lookup_gone :
      (after : StmtCache) (hash : ℕ)
      → probe after.entries hash (start_of hash) 512 0 ≡ none
      → lookup after hash ≡ none
  unfolding lookup lookup_mut
  lookup_gone after hash e = ground (arith, e)

  pub put-Evicts :
      (p : Place) {name : Bytes}
      → Fits cache v new nonzero p
      → (put cache new p).2 ≡ some name
      → Evicts (put cache new p).0 name
  unfolding put
  put-Evicts (occupied w) f e = absurd (let q = e in cc)
  put-Evicts (vacant w) f e = absurd (let q = e in cc)
  put-Evicts (full none) f e = absurd (let q = e in cc)
  put-Evicts (full (some w)) {name} (t, (x, s, other, oldest)) e = record {
    w = w;
    entry = x;
    held = s;
    named = (let q : name_of (some x) ≡ some name = ap name_of (sym s) ∙ e in ground (arith, q));
    oldest = oldest;
    gone = lookup_gone (write cache w new) x.sql_hash (put_gone w x t s other);
    kept = λ hash ne ne'. put_lookup (write cache w new) hash (
        probe-write_other cache v w new t.within hash ne (λ y sy same.
          let one : x ≡ y = (let q = sym s ∙ sy in ground (arith, q)) in
          ne' (sym same ∙ sym (ap (λ z. z.sql_hash) one))));
  }

  pub put_names :
      (w : ℕ) (x : Entry)
      → slot cache.entries w ≡ some x
      → (put cache new (full (some w))).2 ≡ some x.stmt_name
  unfolding put
  put_names w x s = ap name_of s
