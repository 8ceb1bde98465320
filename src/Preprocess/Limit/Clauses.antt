-- ===== src/Preprocess/Limit/Clauses.antt =====
-- keywords/preprocess.rs: each clause of a rewrite with a LIMIT is a slice in order.
use plex_postgresql.Prelude.{
  and_then, ℕ, ◌+◌, ◌≤◌, ◌<◌, true, ◌&&◌, List, [], ◌∷◌, Option, none, some, ltb, leb, length, min,
  ◌≡◌, inl, inr, refl, subst, arith, All, Bool-cases, Option-cases,
}
use plex_postgresql.Prelude.Bytes.{Bytes, codes}
use plex_postgresql.Preprocess.{slice}
use plex_postgresql.Preprocess.Scan.Keyword.{WordAt}
use plex_postgresql.Preprocess.Limit.{
  checked_slice, next_after, unwrap_or, clause_end, clause, returning_tail, limit_part, with_limit,
}

-- There is a result.
abbrev pub Returns {ℓ} : {A : Type ℓ} → Option A → Type ℓ
Returns {A = A} o = (a : A) × (o ≡ some a)

pub and_then-Returns {ℓ} :
    {A B : Type ℓ} (o : Option A) (f : A → Option B)
    → Returns o
    → ((a : A) → Returns (f a))
    → Returns (and_then o f)
and_then-Returns none f (a, h) g = absurd (cc)
and_then-Returns (some a) f r g = g a

pub checked_slice-Returns :
    (s : Bytes) (from to : ℕ) → from ≤ to → to ≤ length s → Returns (checked_slice s from to)
unfolding checked_slice
checked_slice-Returns s from to le fits =
    let test : (leb from to && leb to (length s)) ≡ true = ground (arith, le, fits) in
    (slice s from to, rw test refl)

-- A position, if there is one, is `from` or later and inside the text.
abbrev pub Within : ℕ → ℕ → Option ℕ → Type 0
Within n from o = (p : ℕ) → o ≡ some p → (from ≤ p) × (p ≤ n)

-- One that stands behind `at` stands behind the keyword there.
abbrev pub Gap : ℕ → ℕ → ℕ → Option ℕ → Type 0
Gap n here len o = (p : ℕ) → o ≡ some p → here < p → (here + len ≤ p) × (p ≤ n)

pub next_after-Gap :
    (n here len : ℕ) (ps : List (Option ℕ))
    → All (Gap n here len) ps
    → (p : ℕ) → next_after here ps ≡ some p
    → (here + len ≤ p) × (p ≤ n)
unfolding next_after
next_after-Gap n here len [] gaps p h = cc
next_after-Gap n here len (none ∷ ps) (g, gaps) p h = next_after-Gap n here len ps gaps p h
next_after-Gap n here len (some q ∷ ps) (g, gaps) p h = elim (Bool-cases (ltb here q)) [
  | inr early ↦ next_after-Gap n here len ps gaps p (rw early at h)
  | inl later ↦ elim (Option-cases (next_after here ps)) [
    | inl no_more ↦
        let z = rw (later, no_more) at h in
        let one : q ≡ p = ground (arith, z) in
        subst (λ k. (here + len ≤ k) × (k ≤ n)) one (g q refl (ground (arith, later)))
    | inr (r, more) ↦
        let z = rw (later, more) at h in
        let one : min q r ≡ p = ground (arith, z) in
        let (a, b) = next_after-Gap n here len ps gaps r more in
        let (c, d) = g q refl (ground (arith, later)) in
        subst (λ k. (here + len ≤ k) × (k ≤ n)) one (omega arith, omega arith)
  ]
]

module _ (s : Bytes) where
  pub clause_end-Gap :
      (here len : ℕ) (ps : List (Option ℕ))
      → here + len ≤ length s
      → All (Gap (length s) here len) ps
      → (here + len ≤ clause_end s here ps) × (clause_end s here ps ≤ length s)
  clause_end-Gap here len ps inside gaps = elim (Option-cases (next_after here ps)) [
    | inl at_end ↦ rw at_end (inside, omega arith)
    | inr (p, h) ↦ rw h (next_after-Gap (length s) here len ps gaps p h)
  ]

  pub clause-Returns :
      (len limit_pos : ℕ) (o : Option ℕ) (ps : List (Option ℕ))
      → ((p : ℕ) → o ≡ some p → (p + len ≤ length s) × All (Gap (length s) p len) ps)
      → Returns (clause s len limit_pos o ps)
  unfolding clause
  clause-Returns len limit_pos none ps h = (none, refl)
  clause-Returns len limit_pos (some p) ps h = elim (Bool-cases (leb limit_pos p)) [
    | inl late ↦ (none, rw late refl)
    | inr early ↦
        let (inside, gaps) = h p refl in
        let (le, fits) = clause_end-Gap p len ps inside gaps in
        rw early (
          and_then-Returns _ _ (checked_slice-Returns s (p + len) (clause_end s p ps) le fits)
            (λ part. (_, refl)))
  ]

  -- A position that a search for the keyword gives.
  abbrev pub Found : Bytes → ℕ → Option ℕ → Type 0
  Found kw start o = (p : ℕ) → o ≡ some p → (start ≤ p) × WordAt s kw p

  pub Found-Gap :
      (kw : Bytes) (start here len : ℕ) (o : Option ℕ)
      → Found kw start o
      → ((p : ℕ) → WordAt s kw p → here < p → here + len ≤ p)
      → Gap (length s) here len o
  Found-Gap kw start here len o found far p h lt =
      let (_, w) = found p h in (far p w lt, omega (arith, w.inside))

  -- The next character suffices where no keyword is left out.
  pub Found-Gap_next :
      (kw : Bytes) (start here : ℕ) (o : Option ℕ) → Found kw start o → Gap (length s) here 0 o
  Found-Gap_next kw start here o found p h lt =
      let (_, w) = found p h in (omega arith, omega (arith, w.inside))

  pub limit_part-Returns :
      (limit_pos start : ℕ) (o : Option ℕ)
      → WordAt s (codes "limit") limit_pos
      → Found (codes "returning") start o
      → Returns (limit_part s limit_pos o)
  unfolding limit_part
  limit_part-Returns limit_pos start o w found =
      elim (Bool-cases (leb (unwrap_or o (length s)) (limit_pos + 5))) [
        | inl short ↦ (none, rw short refl)
        | inr long ↦ rw long (
            and_then-Returns _ _
              (checked_slice-Returns s (limit_pos + 5) (unwrap_or o (length s))
                (ground (arith, long)) (ends o found))
              (λ part. (_, refl)))
      ]
    where
      ends : (p : Option ℕ) → Found (codes "returning") start p → unwrap_or p (length s) ≤ length s
      ends none f = omega arith
      ends (some p) f = let (_, w) = f p refl in omega (arith, w.inside)

  pub returning_tail-Returns :
      (start : ℕ) (o : Option ℕ) → Found (codes "returning") start o → Returns (returning_tail s o)
  unfolding returning_tail
  returning_tail-Returns start none found = ([], refl)
  returning_tail-Returns start (some p) found =
      let (_, w) = found p refl in
      and_then-Returns _ _
        (checked_slice-Returns s p (length s) (omega (arith, w.inside)) (omega arith))
        (λ tail. (_, refl))

  pub with_limit-Returns :
      (start : ℕ) (o : Option ℕ)
      → Found (codes "returning") start o
      → (sel : Bytes → Bytes) (text : Bytes → Bytes → Bytes) (limited : Option Bytes)
      → Returns (with_limit s o sel text limited)
  with_limit-Returns start o found sel text none = (none, refl)
  with_limit-Returns start o found sel text (some part) =
      and_then-Returns _ _ (returning_tail-Returns start o found) (λ tail. (_, refl))
