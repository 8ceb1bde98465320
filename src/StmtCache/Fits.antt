-- ===== src/StmtCache/Fits.antt =====
-- Where `add` writes: the place that the first pass ends with fits the new entry.
use plex_postgresql.Prelude.{
  ℕ, ◌+◌, ◌-◌, ◌%◌, ◌≤◌, ◌<◌, List, Option, none, some, ◌≡◌, ◌≢◌, refl, ap, sym, ◌∙◌, subst, arith,
  inl, inr, Option-cases, set, length, get_elem?, lt_of_get_elem?,
}
use plex_postgresql.StmtCache.{
  Entry, StmtCache, slot, index, start_of, probe, Place, occupied, vacant, full, first_pass,
  i64_max,
}
use plex_postgresql.StmtCache.Probe.{index_lt, probe_sound}
use plex_postgresql.StmtCache.FirstPass.{
  first_pass-occupied, first_pass-vacant, first_pass-full, probe-written, probe-written_full,
}
use plex_postgresql.StmtCache.Evict.{Choice, first_pass-oldest}
use plex_postgresql.StmtCache.Laws.{IsTable, absent_of_probe, place_of_probe}

slot_lt :
    (es : List (Option Entry)) (j : ℕ) (e : Entry) → length es ≡ 512 → slot es j ≡ some e → j < 512
slot_lt es j e len s = elim (Option-cases (get_elem? es j)) [
  | inl out ↦ absurd (let h = rw out at s in cc)
  | inr (o, held) ↦ omega (arith, lt_of_get_elem? es j held)
]

-- The round that meets a slot.
round_of : ℕ → ℕ → ℕ
round_of start j = (j + 512 - start) % 512

index-round_of :
    (start j : ℕ)
    → start < 512
    → j < 512
    → (round_of start j < 512) × (index start (round_of start j) ≡ j)
unfolding round_of
index-round_of start j hs hj = (omega arith, omega arith)

module _ (cache : StmtCache) (v : IsTable cache) (new : Entry) (nonzero : new.sql_hash ≢ 0) where
  abbrev pub pass : Place
  pass = first_pass cache.entries new.sql_hash (start_of new.sql_hash) 512 0 none i64_max

  -- A slot where the entry may be written: it will be found, and its hash stands nowhere else.
  pub record Target (w : ℕ) : Type 0 where
    pub within : w < 512
    pub hit :
        probe (set cache.entries w (some new)) new.sql_hash (start_of new.sql_hash) 512 0
        ≡ some (w, new)
    pub alone :
        (j : ℕ) (e : Entry) → slot cache.entries j ≡ some e → e.sql_hash ≡ new.sql_hash → j ≡ w

  abbrev pub Oldest : Entry → Type 0
  Oldest x = (j : ℕ) (y : Entry) → slot cache.entries j ≡ some y → x.last_used ≤ y.last_used

  abbrev pub Fits : Place → Type 0
  Fits (occupied w) =
      Target w × ((x : Entry) × (slot cache.entries w ≡ some x) × (x.sql_hash ≡ new.sql_hash))
  Fits (vacant w) = Target w × (slot cache.entries w ≡ none)
  Fits (full (some w)) =
      Target w
      × ((x : Entry) × (slot cache.entries w ≡ some x) × (x.sql_hash ≢ new.sql_hash) × Oldest x)
  Fits (full none) =
      (j : ℕ) → j < 512 → (y : Entry) × (slot cache.entries j ≡ some y) × (i64_max ≤ y.last_used)

  Fits-occupied : (w : ℕ) → pass ≡ occupied w → Fits (occupied w)
  Fits-occupied w e =
      let start = start_of new.sql_hash in
      let (x, hit) = first_pass-occupied cache.entries new.sql_hash start 512 0 none i64_max w e in
      let (held, same, lt) = probe_sound cache.entries new.sql_hash start 512 0 w x hit in
      (
        record {
          within = lt;
          hit =
              probe-written cache.entries v.sized new.sql_hash start w new lt refl 512 0 none
                i64_max (inl e);
          alone = place_of_probe cache v new.sql_hash w x hit;
        },
        (x, held, same),
      )

  Fits-vacant : (w : ℕ) → pass ≡ vacant w → Fits (vacant w)
  Fits-vacant w e =
      let start = start_of new.sql_hash in
      let (free, lt, miss) =
        first_pass-vacant cache.entries new.sql_hash start 512 0 none i64_max w e in
      (
        record {
          within = lt;
          hit =
              probe-written cache.entries v.sized new.sql_hash start w new lt refl 512 0 none
                i64_max (inr e);
          alone = λ j x s same. absurd (absent_of_probe cache v new.sql_hash miss j x s same);
        },
        free,
      )

  -- In a full table no entry was used before the time that the pass ends with.
  not_older :
      (t : ℕ)
      → ((k : ℕ)
          → k < 512
          → (y : Entry) → slot cache.entries (index (start_of new.sql_hash) (0 + k)) ≡ some y
          → t ≤ y.last_used)
      → (j : ℕ) (y : Entry) → slot cache.entries j ≡ some y
      → t ≤ y.last_used
  not_older t h j y s =
      let start = start_of new.sql_hash in
      let (lt, at) = index-round_of start j (omega arith) (slot_lt cache.entries j y v.sized s) in
      h (round_of start j) lt y (
        ap (slot cache.entries) (ap (index start) {x = 0 + round_of start j} (omega arith) ∙ at)
        ∙ s)

  abbrev AllPassed : Type 0
  AllPassed =
      (k : ℕ)
      → k < 512
      → (x : Entry) × (slot cache.entries (index (start_of new.sql_hash) (0 + k)) ≡ some x)
        × (x.sql_hash ≢ new.sql_hash)

  abbrev NoneOlder : ℕ → Type 0
  NoneOlder t =
      (k : ℕ)
      → k < 512
      → (y : Entry) → slot cache.entries (index (start_of new.sql_hash) (0 + k)) ≡ some y
      → t ≤ y.last_used

  Fits-chosen :
      (r : Option ℕ) (t : ℕ)
      → probe cache.entries new.sql_hash (start_of new.sql_hash) 512 0 ≡ none
      → AllPassed
      → NoneOlder t
      → Choice cache.entries new.sql_hash (start_of new.sql_hash) r t 512
      → Fits (full r)
  Fits-chosen none t miss passed older (inl (_, late)) = λ j lt.
      let start = start_of new.sql_hash in
      let (inside, at) = index-round_of start j (omega arith) lt in
      let (y, s, _) = passed (round_of start j) inside in
      let there = ap (index start) {x = 0 + round_of start j} (omega arith) ∙ at in
      let held = sym (ap (slot cache.entries) there) ∙ s in
      (y, held, omega (arith, not_older t older j y held))
  Fits-chosen none t miss passed older (inr d) = absurd (let e = d.chosen in cc)
  Fits-chosen (some w) t miss passed older (inl (e, _)) = absurd (cc)
  Fits-chosen (some w) t miss passed older (inr d) =
      let start = start_of new.sql_hash in
      let same : w ≡ d.w = ground (arith, d.chosen) in
      let here = same ∙ d.here ∙ ap (index start) {x = d.k} {y = 0 + d.k} (omega arith) in
      let within : w < 512 = subst (λ k. k < 512) (sym here) (index_lt start (0 + d.k)) in
      let held = ap (slot cache.entries) same ∙ d.held in
      (
        record {
          within = within;
          hit =
              probe-written_full cache.entries v.sized new.sql_hash start w new within refl 512 0
                d.k passed d.early here;
          alone = λ j x s clash. absurd (absent_of_probe cache v new.sql_hash miss j x s clash);
        },
        (
          d.entry,
          held,
          absent_of_probe cache v new.sql_hash miss w d.entry held,
          λ j y s. omega (arith, d.time, not_older t older j y s),
        ),
      )

  Fits-full : (r : Option ℕ) → pass ≡ full r → Fits (full r)
  Fits-full r e =
      let start = start_of new.sql_hash in
      let (miss, passed) = first_pass-full cache.entries new.sql_hash start 512 0 none i64_max e in
      let (t, choice, _, older) =
        first_pass-oldest cache.entries new.sql_hash start 512 0 none i64_max (inl (refl, refl))
          e in
      Fits-chosen r t miss passed older
        (subst (Choice cache.entries new.sql_hash start r t) {x = 0 + 512} (omega arith) choice)

  Fits-place : (p : Place) → pass ≡ p → Fits p
  Fits-place (occupied w) e = Fits-occupied w e
  Fits-place (vacant w) e = Fits-vacant w e
  Fits-place (full r) e = Fits-full r e

  -- The slot that the first pass ends with is right for the entry.
  pub pass-Fits : Fits pass
  pass-Fits = Fits-place pass refl
