-- ===== src/Prelude/Bytes.antt =====
-- Texts as lists of byte values, and the tests that the source makes on them.
use Prim.Native.Char.{code}
use Prim.Native.Nat.{ℕ, ◌+◌}
use Prim.Native.String.{String}
use mathlib.Core.Path.{◌≡◌, refl}
use mathlib.Core.Bool.{Bool, true, false, ◌&&◌, ◌||◌}
use mathlib.Core.Logic.{◌↔◌, inl, inr}
use mathlib.Core.Option.{Option, none, some}
use mathlib.Core.List.{List, [], ◌∷◌, ◌++◌}
use native.Mathlib.Omega.{arith}
use plex_postgresql.Prelude.Tests.{leb, ◌==◌, if◌then◌else◌, Bool-cases, Option-cases}

abbrev pub Bytes : Type 0
Bytes = List ℕ

-- The bytes of an ASCII literal.
abbrev pub codes : String → Bytes
codes String.[] = []
codes (String.◌∷◌ c s) = code c ∷ codes s

unfoldable pub beq : Bytes → Bytes → Bool
beq [] [] = true
beq [] (y ∷ ys) = false
beq (x ∷ xs) [] = false
beq (x ∷ xs) (y ∷ ys) = x == y && beq xs ys

pub beq_iff : (xs ys : Bytes) → (beq xs ys ≡ true) ↔ (xs ≡ ys)
unfolding beq
beq_iff [] [] = ground arith
beq_iff [] (y ∷ ys) = ground arith
beq_iff (x ∷ xs) [] = ground arith
beq_iff (x ∷ xs) (y ∷ ys) = ground (arith, beq_iff xs ys)

pub beq_self : (xs : Bytes) → beq xs xs ≡ true
beq_self xs = (beq_iff xs xs).1 refl

-- `strip_prefix`: what follows the prefix.
unfoldable pub strip_prefix : Bytes → Bytes → Option Bytes
strip_prefix [] s = some s
strip_prefix (p ∷ ps) [] = none
strip_prefix (p ∷ ps) (c ∷ s) = if p == c then strip_prefix ps s else none

unfoldable pub starts_with : Bytes → Bytes → Bool
starts_with [] s = true
starts_with (p ∷ ps) [] = false
starts_with (p ∷ ps) (c ∷ s) = p == c && starts_with ps s

pub starts_with-append : (p s : Bytes) → starts_with p (p ++ s) ≡ true
unfolding starts_with
starts_with-append [] s = refl
starts_with-append (c ∷ p) s = ground (arith, starts_with-append p s)

-- `contains` of a text that is not empty.
unfoldable pub contains : Bytes → Bytes → Bool
contains pat [] = starts_with pat []
contains pat (c ∷ s) = starts_with pat (c ∷ s) || contains pat s

abbrev pub is_digit : ℕ → Bool
is_digit b = leb b'0' b && leb b b'9'

unfoldable pub ascii_lower : ℕ → ℕ
ascii_lower b = if leb b'A' b && leb b b'Z' then b + 32 else b

-- `CString::new` refuses a text with a NUL in it.
abbrev pub has_nul : Bytes → Bool
has_nul [] = false
has_nul (c ∷ s) = c == 0 || has_nul s

unfoldable pub ends_with : Bytes → Bytes → Bool
unfolding beq
ends_with suffix [] = beq [] suffix
ends_with suffix (c ∷ s) = beq (c ∷ s) suffix || ends_with suffix s

abbrev prepend : ℕ → Option Bytes → Option Bytes
prepend c none = none
prepend c (some s) = some (c ∷ s)

-- `strip_suffix`: what stands before the suffix.
unfoldable pub strip_suffix : Bytes → Bytes → Option Bytes
unfolding beq
strip_suffix suffix [] = if beq [] suffix then some [] else none
strip_suffix suffix (c ∷ s) =
    if beq (c ∷ s) suffix then some [] else prepend c (strip_suffix suffix s)

-- A suffix that can be stripped is one, and what is left stands before it.
pub strip_suffix_sound :
    (suffix s : Bytes) {front : Bytes} → strip_suffix suffix s ≡ some front → s ≡ front ++ suffix
unfolding strip_suffix
strip_suffix_sound suffix [] h = ground (arith, beq_iff [] suffix)
strip_suffix_sound suffix (c ∷ s) {front} h = elim (Bool-cases (beq (c ∷ s) suffix)) [
  | inl hit ↦ ground (arith, (beq_iff (c ∷ s) suffix).0 hit)
  | inr miss ↦ elim (Option-cases (strip_suffix suffix s)) [
    | inl no_front ↦ absurd (let q = rw (miss, no_front) at h in cc)
    | inr (r, found) ↦
        let ih = strip_suffix_sound suffix s found in
        let one : c ∷ r ≡ front = (let q = rw (miss, found) at h in ground (arith, q)) in
        rw (← one, ih) refl
  ]
]

pub ends_with-append : (front suffix : Bytes) → ends_with suffix (front ++ suffix) ≡ true
unfolding ends_with
ends_with-append [] [] = refl
ends_with-append [] (c ∷ s) = rw (beq_self (c ∷ s))
ends_with-append (c ∷ front) suffix =
    rw (ends_with-append front suffix) (or_true (beq (c ∷ (front ++ suffix)) suffix))
  where
    or_true : (b : Bool) → (b || true) ≡ true
    or_true true = refl
    or_true false = refl
