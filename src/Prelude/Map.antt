-- ===== src/Prelude/Map.antt =====
-- `HashMap` with numbers for keys (pointers, handles), as an association list. Its order stands
-- for the order of an iteration, which the source leaves open.
use Prim.Native.Nat.{ℕ, suc, ◌<◌}
use mathlib.Core.Path.{◌≡◌, refl}
use mathlib.Core.Bool.{Bool, true, false}
use mathlib.Core.Logic.{◌≢◌, inl, inr}
use mathlib.Core.Option.{Option, none, some}
use mathlib.Core.List.{List, [], ◌∷◌}
use native.Mathlib.Omega.{arith}
use plex_postgresql.Prelude.Tests.{◌==◌, ==_iff, Bool-cases, if◌then◌else◌}

module _ {ℓ} {V : Type ℓ} where
  unfoldable pub find : ℕ → List (ℕ × V) → Option V
  find k [] = none
  find k ((j, v) ∷ m) = if j == k then some v else find k m

  unfoldable pub insert : ℕ → V → List (ℕ × V) → List (ℕ × V)
  insert k v [] = (k, v) ∷ []
  insert k v ((j, w) ∷ m) = if j == k then (k, v) ∷ m else (j, w) ∷ insert k v m

  unfoldable pub remove : ℕ → List (ℕ × V) → List (ℕ × V)
  remove k [] = []
  remove k ((j, w) ∷ m) = if j == k then remove k m else (j, w) ∷ remove k m

  -- `retain(|_, v| keep(v))`.
  unfoldable pub retain : (V → Bool) → List (ℕ × V) → List (ℕ × V)
  retain keep [] = []
  retain keep ((j, w) ∷ m) = if keep w then (j, w) ∷ retain keep m else retain keep m

  -- `values().filter(test).count()`.
  unfoldable pub count_values : (V → Bool) → List (ℕ × V) → ℕ
  count_values test [] = 0
  count_values test ((j, w) ∷ m) = if test w then suc (count_values test m) else count_values test m

  pub find-insert :
      (k j : ℕ) (v : V) (m : List (ℕ × V))
      → find j (insert k v m) ≡ (if k == j then some v else find j m)
  unfolding find insert
  find-insert k j v [] = refl
  find-insert k j v ((i, w) ∷ m) = ground (arith, find-insert k j v m)

  pub find-remove :
      (k j : ℕ) (m : List (ℕ × V)) → find j (remove k m) ≡ (if k == j then none else find j m)
  unfolding find remove
  find-remove k j [] = ground arith
  find-remove k j ((i, w) ∷ m) = ground (arith, find-remove k j m)

  -- No value that is kept out is found.
  pub find-retain-ne :
      (keep : V → Bool) (k : ℕ) (v : V) (m : List (ℕ × V))
      → keep v ≡ false
      → find k (retain keep m) ≢ some v
  unfolding find retain
  find-retain-ne keep k v [] h = cc
  find-retain-ne keep k v ((i, w) ∷ m) h = ground (arith, find-retain-ne keep k v m)

  -- A key whose value is counted makes the count positive.
  pub count_values_pos :
      (test : V → Bool) (k : ℕ) (v : V) (m : List (ℕ × V))
      → find k m ≡ some v
      → test v ≡ true
      → 0 < count_values test m
  unfolding find count_values
  count_values_pos test k v [] h t = cc
  count_values_pos test k v ((i, w) ∷ m) h t = ground (arith, count_values_pos test k v m)

  -- A property of all entries, and what the operations keep of it.
  abbrev pub Entries {κ} : (ℕ → V → Type κ) → List (ℕ × V) → Type κ
  Entries P [] = Unit
  Entries P ((j, w) ∷ m) = P j w × Entries P m

  pub Entries-find {κ} :
      (P : ℕ → V → Type κ) (k : ℕ) (v : V) (m : List (ℕ × V))
      → Entries P m
      → find k m ≡ some v
      → P k v
  unfolding find
  Entries-find P k v [] h e = cc
  Entries-find P k v ((j, w) ∷ m) h e = elim (Bool-cases (j == k)) [
    | inl hit ↦
        let same_key : j ≡ k = (==_iff j k).0 hit in
        let same : w ≡ v = cc (rw hit at e) in rw (← same_key, ← same) h.0
    | inr miss ↦ Entries-find P k v m h.1 (rw miss at e)
  ]

  pub Entries-insert {κ} :
      (P : ℕ → V → Type κ) (k : ℕ) (v : V) (m : List (ℕ × V))
      → P k v
      → Entries P m
      → Entries P (insert k v m)
  unfolding insert
  Entries-insert P k v [] p h = (p, tt)
  Entries-insert P k v ((j, w) ∷ m) p h = elim (Bool-cases (j == k)) [
    | inl hit ↦ rw hit (p, h.1)
    | inr miss ↦ rw miss (h.0, Entries-insert P k v m p h.1)
  ]

  pub Entries-remove {κ} :
      (P : ℕ → V → Type κ) (k : ℕ) (m : List (ℕ × V)) → Entries P m → Entries P (remove k m)
  unfolding remove
  Entries-remove P k [] h = tt
  Entries-remove P k ((j, w) ∷ m) h = elim (Bool-cases (j == k)) [
    | inl hit ↦ rw hit (Entries-remove P k m h.1)
    | inr miss ↦ rw miss (h.0, Entries-remove P k m h.1)
  ]

  pub Entries-retain {κ ν} :
      (P : ℕ → V → Type κ) (Q : ℕ → V → Type ν) (keep : V → Bool) (m : List (ℕ × V))
      → ((j : ℕ) (w : V) → keep w ≡ true → P j w → Q j w)
      → Entries P m
      → Entries Q (retain keep m)
  unfolding retain
  Entries-retain P Q keep [] f h = tt
  Entries-retain P Q keep ((j, w) ∷ m) f h = elim (Bool-cases (keep w)) [
    | inl kept ↦ rw kept (f j w kept h.0, Entries-retain P Q keep m f h.1)
    | inr out ↦ rw out (Entries-retain P Q keep m f h.1)
  ]

  pub Entries-mono {κ ν} :
      (P : ℕ → V → Type κ) (Q : ℕ → V → Type ν) (m : List (ℕ × V))
      → ((j : ℕ) (w : V) → P j w → Q j w)
      → Entries P m
      → Entries Q m
  Entries-mono P Q [] f h = tt
  Entries-mono P Q ((j, w) ∷ m) f h = (f j w h.0, Entries-mono P Q m f h.1)
