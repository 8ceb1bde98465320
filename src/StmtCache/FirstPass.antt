-- ===== src/StmtCache/FirstPass.antt =====
-- What the first pass of `add` has seen when it ends, and that a probe finds what is written there.
use plex_postgresql.Prelude.{
  ℕ, zero, suc, ◌+◌, ◌<◌, false, List, Option, none, some, if◌then◌else◌, ◌==◌, ==_iff, ltb, ◌≡◌,
  ◌≢◌, ◌⊎◌, refl, ap, sym, ◌∙◌, subst, arith, inl, inr, Option-cases, ℕ_discrete, set, length,
}
use plex_postgresql.StmtCache.{Entry, slot, index, probe, occupied, vacant, full, first_pass}
use plex_postgresql.StmtCache.Probe.{
  index_lt, slot-set_self, slot-set_ne, probe_empty, probe_hit, probe_miss,
}

abbrev pub oldest_slot : Entry → ℕ → Option ℕ → ℕ → Option ℕ
oldest_slot x at o t = if ltb x.last_used t then some at else o

abbrev pub oldest_used : Entry → ℕ → ℕ
oldest_used x t = if ltb x.last_used t then x.last_used else t

-- What holds at `i` and in the rounds after it holds from `i` on.
pub shift_rounds {κ} :
    (P : ℕ → Type κ) (rounds i : ℕ)
    → P i
    → ((k : ℕ) → k < rounds → P (i + 1 + k))
    → (k : ℕ) → k < suc rounds
    → P (i + k)
shift_rounds P rounds i p h zero lt = subst P {x = i} {y = i + 0} (omega arith) p
shift_rounds P rounds i p h (suc k) lt =
    subst P {x = i + 1 + k} {y = i + suc k} (omega arith) (h k (omega arith))

module _ (entries : List (Option Entry)) (hash start : ℕ) where
  -- One round.
  pub pass_empty :
      (rounds i : ℕ) (o : Option ℕ) (t : ℕ)
      → slot entries (index start i) ≡ none
      → first_pass entries hash start (suc rounds) i o t ≡ vacant (index start i)
  unfolding first_pass
  pass_empty rounds i o t e = rw (e, first_pass)

  pub pass_hit :
      (rounds i : ℕ) (o : Option ℕ) (t : ℕ) (x : Entry)
      → slot entries (index start i) ≡ some x
      → x.sql_hash ≡ hash
      → first_pass entries hash start (suc rounds) i o t ≡ occupied (index start i)
  unfolding first_pass
  pass_hit rounds i o t x s h = rw (s, first_pass, (==_iff x.sql_hash hash).1 h)

  pub pass_miss :
      (rounds i : ℕ) (o : Option ℕ) (t : ℕ) (x : Entry)
      → slot entries (index start i) ≡ some x
      → x.sql_hash ≢ hash
      → first_pass entries hash start (suc rounds) i o t
        ≡ first_pass entries hash start rounds
            (i + 1)
            (oldest_slot x (index start i) o t)
            (oldest_used x t)
  unfolding first_pass
  pass_miss rounds i o t x s h =
      let other : (x.sql_hash == hash) ≡ false = ground arith in rw (s, first_pass, other)

  -- A round is one of the three.
  abbrev Round : ℕ → Type 0
  Round i =
      (slot entries (index start i) ≡ none)
      ⊎ ((x : Entry) × (slot entries (index start i) ≡ some x)
          × ((x.sql_hash ≡ hash) ⊎ (x.sql_hash ≢ hash)))

  pub round : (i : ℕ) → Round i
  round i = elim (Option-cases (slot entries (index start i))) [
    | inl empty ↦ inl empty
    | inr (x, s) ↦ elim (ℕ_discrete x.sql_hash hash) [
      | yes same ↦ inr (x, s, inl same)
      | no other ↦ inr (x, s, inr other)
    ]
  ]

  pub first_pass-occupied :
      (rounds i : ℕ) (o : Option ℕ) (t w : ℕ)
      → first_pass entries hash start rounds i o t ≡ occupied w
      → (e : Entry) × (probe entries hash start rounds i ≡ some (w, e))
  first_pass-occupied zero i o t w h = absurd (unfold first_pass in (let e = h in cc))
  first_pass-occupied (suc rounds) i o t w h = elim (round i) [
    | inl empty ↦ absurd (let e = sym (pass_empty rounds i o t empty) ∙ h in cc)
    | inr (x, s, inl same) ↦
        let here = sym (pass_hit rounds i o t x s same) ∙ h in
        (
          x,
          probe_hit entries hash start rounds i x s same
              ∙ ap (λ k. some (k, x)) (ground (arith, here)),
        )
    | inr (x, s, inr other) ↦
        let (e, found) =
          first_pass-occupied rounds (i + 1) _ _ w (sym (pass_miss rounds i o t x s other) ∙ h) in
        (e, probe_miss entries hash start rounds i x s other ∙ found)
  ]

  pub first_pass-vacant :
      (rounds i : ℕ) (o : Option ℕ) (t w : ℕ)
      → first_pass entries hash start rounds i o t ≡ vacant w
      → (slot entries w ≡ none) × (w < 512) × (probe entries hash start rounds i ≡ none)
  first_pass-vacant zero i o t w h = absurd (unfold first_pass in (let e = h in cc))
  first_pass-vacant (suc rounds) i o t w h = elim (round i) [
    | inl empty ↦
        let here = sym (pass_empty rounds i o t empty) ∙ h in
        let at : index start i ≡ w = ground (arith, here) in
        (
          subst (λ k. slot entries k ≡ none) at empty,
          subst (λ k. k < 512) at (index_lt start i),
          probe_empty entries hash start rounds i empty,
        )
    | inr (x, s, inl same) ↦ absurd (let e = sym (pass_hit rounds i o t x s same) ∙ h in cc)
    | inr (x, s, inr other) ↦
        let (free, lt, missed) =
          first_pass-vacant rounds (i + 1) _ _ w (sym (pass_miss rounds i o t x s other) ∙ h) in
        (free, lt, probe_miss entries hash start rounds i x s other ∙ missed)
  ]

  abbrev pub Passed : ℕ → Type 0
  Passed k = (x : Entry) × (slot entries (index start k) ≡ some x) × (x.sql_hash ≢ hash)

  -- A full table: every round passed another hash's entry.
  pub first_pass-full :
      (rounds i : ℕ) (o : Option ℕ) (t : ℕ) {r : Option ℕ}
      → first_pass entries hash start rounds i o t ≡ full r
      → (probe entries hash start rounds i ≡ none) × ((k : ℕ) → k < rounds → Passed (i + k))
  first_pass-full zero i o t h = (unfold probe in refl, λ k lt. absurd (omega arith))
  first_pass-full (suc rounds) i o t h = elim (round i) [
    | inl empty ↦ absurd (let e = sym (pass_empty rounds i o t empty) ∙ h in cc)
    | inr (x, s, inl same) ↦ absurd (let e = sym (pass_hit rounds i o t x s same) ∙ h in cc)
    | inr (x, s, inr other) ↦
        let (missed, rest) =
          first_pass-full rounds (i + 1) _ _ (sym (pass_miss rounds i o t x s other) ∙ h) in
        (
          probe_miss entries hash start rounds i x s other ∙ missed,
          shift_rounds Passed rounds i (x, s, other) rest,
        )
  ]

module _ (entries : List (Option Entry)) (len : length entries ≡ 512) (hash start : ℕ) (w : ℕ)
    (new : Entry) (lt : w < 512) (same : new.sql_hash ≡ hash) where
  abbrev written : List (Option Entry)
  written = set entries w (some new)

  at_place :
      (rounds i : ℕ) → w ≡ index start i → probe written hash start (suc rounds) i ≡ some (w, new)
  at_place rounds i here =
      probe_hit written hash start rounds i new
        (subst (λ k. slot written k ≡ some new) here (slot-set_self entries len w (some new) lt))
        same
      ∙ ap (λ k. some (k, new)) (sym here)

  -- A round over another hash's entry leaves the finding to the later rounds.
  past :
      (rounds i : ℕ)
      → Passed entries hash start i
      → probe written hash start rounds (i + 1) ≡ some (w, new)
      → probe written hash start (suc rounds) i ≡ some (w, new)
  past rounds i (x, s, other) later = elim (ℕ_discrete w (index start i)) [
    | yes here ↦ at_place rounds i here
    | no away ↦
        probe_miss written hash start rounds i x (slot-set_ne entries len w _ (some new) away ∙ s)
          other
        ∙ later
  ]

  -- What is written at the place that the first pass chose is found by a probe.
  pub probe-written :
      (rounds i : ℕ) (o : Option ℕ) (t : ℕ)
      → (first_pass entries hash start rounds i o t ≡ occupied w)
        ⊎ (first_pass entries hash start rounds i o t ≡ vacant w)
      → probe written hash start rounds i ≡ some (w, new)
  probe-written zero i o t h = absurd (unfold first_pass in (ground arith))
  probe-written (suc rounds) i o t h = elim (round entries hash start i) [
    | inl empty ↦
        at_place rounds i (ground (arith, pass_empty entries hash start rounds i o t empty))
    | inr (x, s, inl hit) ↦
        at_place rounds i (ground (arith, pass_hit entries hash start rounds i o t x s hit))
    | inr (x, s, inr other) ↦
        past rounds i (x, s, other)
          (probe-written rounds (i + 1) _ _
            (rw (pass_miss entries hash start rounds i o t x s other) at h))
  ]

  -- In a full table every place is met in some round.
  pub probe-written_full :
      (rounds i k : ℕ)
      → ((k : ℕ) → k < rounds → Passed entries hash start (i + k))
      → k < rounds
      → w ≡ index start (i + k)
      → probe written hash start rounds i ≡ some (w, new)
  probe-written_full zero i k h lt here = absurd (omega arith)
  probe-written_full (suc rounds) i zero h lt here =
      at_place rounds i (here ∙ ap (index start) {x = i + 0} {y = i} (omega arith))
  probe-written_full (suc rounds) i (suc k) h lt here =
      past rounds i
        (subst (Passed entries hash start) {x = i + 0} {y = i} (omega arith) (h 0 (omega arith)))
        (probe-written_full rounds (i + 1) k
          (λ m ltm.
            subst (Passed entries hash start) {x = i + suc m} {y = i + 1 + m} (omega arith)
              (h (suc m) (omega arith)))
          (omega arith) (here ∙ ap (index start) {x = i + suc k} {y = i + 1 + k} (omega arith)))
