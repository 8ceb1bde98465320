-- ===== src/Placeholders/Laws.antt =====
-- Slots are within the parameters, and a name keeps its slot.
use plex_postgresql.Prelude.{
  ℕ, zero, suc, ◌+◌, ◌-◌, ◌≤◌, false, ◌&&◌, ◌||◌, List, [], ◌∷◌, ◌++◌, Option, none, some, ◌==◌,
  length, replicate, all, ◌≡◌, refl, subst, arith, Bool-cases, Option-cases, inl, inr,
  length-append, length-replicate, length-set,
}
use plex_postgresql.Prelude.Bytes.{Bytes, beq, is_digit}
use plex_postgresql.Placeholders.{
  Numbering, find_name, fresh, explicit, explicit_named, named, parse_usize, split_colon, slot_at,
  numbered, with_prefix, slot,
}

-- Every name's slot is one of the parameters.
abbrev pub Within : ℕ → List (Bytes × ℕ) → Type 0
Within count [] = Unit
Within count ((k, n) ∷ rest) = ((1 ≤ n) × (n ≤ count)) × Within count rest

abbrev pub IsNumbering : Numbering → Type 0
IsNumbering st = Within (length st.param_names) st.names

Within-mono : (a b : ℕ) (names : List (Bytes × ℕ)) → a ≤ b → Within a names → Within b names
Within-mono a b [] le w = tt
Within-mono a b ((k, n) ∷ rest) le ((lo, hi), w) =
    ((lo, omega (arith, le, hi)), Within-mono a b rest le w)

find_name-Within :
    (count : ℕ) (name : Bytes) (names : List (Bytes × ℕ)) {n : ℕ}
    → Within count names
    → find_name name names ≡ some n
    → (1 ≤ n) × (n ≤ count)
unfolding find_name
find_name-Within count name [] w e = cc
find_name-Within count name ((k, m) ∷ rest) {n} (b, w) e = elim (Bool-cases (beq k name)) [
  | inl same ↦
      let q : m ≡ n = (let r = rw same at e in ground (arith, r)) in
      subst (λ x. (1 ≤ x) × (x ≤ count)) q b
  | inr other ↦ find_name-Within count name rest w (rw other at e)
]

-- What a step owes: the numbering stays one, no parameter is lost, and the slot is one of them.
pub record Placed (st : Numbering) (r : Numbering × Option ℕ) : Type 0 where
  pub numbering : IsNumbering r.0
  pub grows : length st.param_names ≤ length r.0.param_names
  pub within : (n : ℕ) → r.1 ≡ some n → (1 ≤ n) × (n ≤ length r.0.param_names)

unplaced : (st : Numbering) → IsNumbering st → Placed st (st, none)
unplaced st v = record { numbering = v; grows = omega arith; within = λ n e. cc }

fresh-Placed :
    (st : Numbering) (name : Option Bytes)
    → IsNumbering st
    → Placed st ((fresh st name).0, some (fresh st name).1)
unfolding fresh
fresh-Placed st name v =
    let sized : length (st.param_names ++ name ∷ []) ≡ length st.param_names + 1 =
      length-append st.param_names (name ∷ []) in
    record {
      numbering = Within-mono _ _ st.names (omega (arith, sized)) v;
      grows = omega (arith, sized);
      within = λ n e.
          let q : length st.param_names + 1 ≡ n = ground (arith, e) in
          (omega (arith, q), omega (arith, q, sized));
    }

explicit-length :
    (st : Numbering) (n : ℕ)
    → (length st.param_names ≤ length (explicit st n).param_names)
      × (n ≤ length (explicit st n).param_names)
unfolding explicit
explicit-length st n =
    let gap : Option Bytes = none in
    let sized = length-append st.param_names (replicate (n - length st.param_names) gap) in
    let more = length-replicate (n - length st.param_names) gap in
    (omega (arith, sized, more), omega (arith, sized, more))

explicit-Placed :
    (st : Numbering) (n : ℕ) → IsNumbering st → 1 ≤ n → Placed st (explicit st n, some n)
explicit-Placed st n v lo =
    let (grows, hi) = explicit-length st n in
    record {
      numbering = unfold explicit in Within-mono _ _ st.names grows v;
      grows = grows;
      within = λ m e. let q : n ≡ m = ground (arith, e) in (omega (arith, q), omega (arith, q, hi));
    }

explicit_named-Placed :
    (st : Numbering) (n : ℕ) (name : Bytes)
    → IsNumbering st
    → 1 ≤ n
    → Placed st (explicit_named st n name, some n)
unfolding explicit_named
explicit_named-Placed st n name v lo =
    let p = explicit-Placed st n v lo in
    let hi : n ≤ length (explicit st n).param_names = (p.within n refl).1 in
    let sized = length-set (explicit st n).param_names (n - 1) (some name) in
    record {
      numbering = (
        (lo, omega (arith, hi, sized)),
        Within-mono _ _ (explicit st n).names (omega (arith, sized)) p.numbering,
      );
      grows = omega (arith, p.grows, sized);
      within = λ m e.
          let q : n ≡ m = ground (arith, e) in (omega (arith, q), omega (arith, q, hi, sized));
    }

named-Placed :
    (st : Numbering) (name : Bytes)
    → IsNumbering st
    → Placed st ((named st name).0, some (named st name).1)
unfolding named
named-Placed st name v = elim (Option-cases (find_name name st.names)) [
  | inr (n, found) ↦
      let (lo, hi) = find_name-Within _ name st.names v found in
      rw found (record {
        numbering = v;
        grows = omega arith;
        within = λ m e. let q : n ≡ m = ground (arith, e) in (omega (arith, q), omega (arith, q));
      })
  | inl new ↦
      let p = fresh-Placed st (some name) v in
      rw new
        (record { numbering = (p.within _ refl, p.numbering); grows = p.grows; within = p.within })
]

slot_at-Placed :
    (st : Numbering) (at : Option ℕ) (place : ℕ → Numbering)
    → IsNumbering st
    → ((n : ℕ) → 1 ≤ n → Placed st (place n, some n))
    → Placed st (slot_at st at place)
slot_at-Placed st none place v p = unplaced st v
slot_at-Placed st (some zero) place v p = unplaced st v
slot_at-Placed st (some (suc n)) place v p =
    let nonzero : (suc n == 0) ≡ false = ground arith in rw nonzero (p (suc n) (omega arith))

numbered-Placed :
    (st : Numbering) (rest : Bytes) (parts : Option (Bytes × Bytes))
    → IsNumbering st
    → Placed st (numbered st rest parts)
numbered-Placed st rest none v =
    slot_at-Placed st (parse_usize rest) (explicit st) v (λ n. explicit-Placed st n v)
numbered-Placed st rest (some (digits, [])) v =
    slot_at-Placed st (parse_usize rest) (explicit st) v (λ n. explicit-Placed st n v)
numbered-Placed st rest (some (digits, c ∷ name)) v =
    slot_at-Placed st (parse_usize digits) (λ n. explicit_named st n (c ∷ name)) v
      (λ n. explicit_named-Placed st n (c ∷ name) v)

with_prefix-Placed :
    (st : Numbering) (prefix : ℕ) (name : Bytes)
    → IsNumbering st
    → Placed st (with_prefix st prefix name)
with_prefix-Placed st prefix [] v = unplaced st v
with_prefix-Placed st prefix (c ∷ name) v =
    elim (Bool-cases (prefix == b'$' && all is_digit (c ∷ name))) [
      | inl done ↦ rw done (unplaced st v)
      | inr open_name ↦ elim (Bool-cases (prefix == b':' || prefix == b'@' || prefix == b'$')) [
        | inl known ↦ rw (open_name, known) (named-Placed st (c ∷ name) v)
        | inr other ↦ rw (open_name, other) (unplaced st v)
      ]
    ]

pub slot-Placed : (st : Numbering) (token : Bytes) → IsNumbering st → Placed st (slot st token)
unfolding slot
slot-Placed st [] v = unplaced st v
slot-Placed st (c ∷ []) v = elim (Bool-cases (c == b'?')) [
  | inl question ↦ rw question (fresh-Placed st none v)
  | inr other ↦ rw other (with_prefix-Placed st c [] v)
]
slot-Placed st (c ∷ d ∷ s) v = elim (Bool-cases (c == b'?')) [
  | inl question ↦ rw question (numbered-Placed st (d ∷ s) (split_colon (d ∷ s)) v)
  | inr other ↦ rw other (with_prefix-Placed st c (d ∷ s) v)
]
