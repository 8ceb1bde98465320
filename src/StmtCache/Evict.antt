-- ===== src/StmtCache/Evict.antt =====
-- The slot that a full table gives up: no entry was used longer ago.
use plex_postgresql.Prelude.{
  ℕ, zero, suc, ◌+◌, ◌≤◌, ◌<◌, List, Option, none, some, ltb, ◌≡◌, ◌⊎◌, refl, sym, ◌∙◌, subst,
  arith, inl, inr, Bool-cases,
}
use plex_postgresql.StmtCache.{Entry, slot, index, full, first_pass, i64_max}
use plex_postgresql.StmtCache.FirstPass.{
  oldest_slot, oldest_used, pass_empty, pass_hit, pass_miss, round, shift_rounds,
}

module _ (entries : List (Option Entry)) (hash start : ℕ) where
  -- The slot chosen so far is one of the first `n` rounds, and was last used at `t`.
  pub record Chosen (o : Option ℕ) (t n : ℕ) : Type 0 where
    pub w : ℕ
    pub k : ℕ
    pub entry : Entry
    pub chosen : o ≡ some w
    pub here : w ≡ index start k
    pub early : k < n
    pub held : slot entries w ≡ some entry
    pub time : entry.last_used ≡ t

  abbrev pub Choice : Option ℕ → ℕ → ℕ → Type 0
  Choice o t n = ((o ≡ none) × (t ≡ i64_max)) ⊎ Chosen o t n

  Choice-step :
      (o : Option ℕ) (t i : ℕ) (x : Entry)
      → slot entries (index start i) ≡ some x
      → Choice o t i
      → Choice (oldest_slot x (index start i) o t) (oldest_used x t) (i + 1)
  Choice-step o t i x s c = elim (Bool-cases (ltb x.last_used t)) [
    | inl older ↦ rw older (
        inr (record {
          w = index start i;
          k = i;
          entry = x;
          chosen = refl;
          here = refl;
          early = omega arith;
          held = s;
          time = refl;
        }))
    | inr newer ↦ rw newer (keep c)
  ]
    where
      keep : Choice o t i → Choice o t (i + 1)
      keep (inl start_over) = inl start_over
      keep (inr d) = inr (record {
        w = d.w;
        k = d.k;
        entry = d.entry;
        chosen = d.chosen;
        here = d.here;
        early = omega (arith, d.early);
        held = d.held;
        time = d.time;
      })

  abbrev NotOlder : ℕ → ℕ → Type 0
  NotOlder t k = (x : Entry) → slot entries (index start k) ≡ some x → t ≤ x.last_used

  pub first_pass-oldest :
      (rounds i : ℕ) (o : Option ℕ) (t : ℕ) {r : Option ℕ}
      → Choice o t i
      → first_pass entries hash start rounds i o t ≡ full r
      → (t' : ℕ) × Choice r t' (i + rounds)
        × (t' ≤ t)
        × ((k : ℕ) → k < rounds → NotOlder t' (i + k))
  first_pass-oldest zero i o t {r} c h =
      let same : o ≡ r = unfold first_pass in (let e = h in ground (arith, e)) in
      (
        t,
        subst (λ q. Choice q t (i + 0)) same
            (subst (Choice o t) {x = i} {y = i + 0} (omega arith) c),
        omega arith,
        λ k lt. absurd (omega arith),
      )
  first_pass-oldest (suc rounds) i o t c h = elim (round entries hash start i) [
    | inl empty ↦ absurd (let e = sym (pass_empty entries hash start rounds i o t empty) ∙ h in cc)
    | inr (x, s, inl same) ↦
        absurd (let e = sym (pass_hit entries hash start rounds i o t x s same) ∙ h in cc)
    | inr (x, s, inr other) ↦
        let (t', end, le, rest) =
          first_pass-oldest rounds (i + 1) (oldest_slot x (index start i) o t) (oldest_used x t)
            (Choice-step o t i x s c)
            (sym (pass_miss entries hash start rounds i o t x s other) ∙ h) in
        (
          t',
          subst (Choice _ t') {x = i + 1 + rounds} {y = i + suc rounds} (omega arith) end,
          ground arith,
          shift_rounds (NotOlder t') rounds i
              (λ y sy. let same = sym s ∙ sy in ground (arith, same)) rest,
        )
  ]
