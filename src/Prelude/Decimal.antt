-- ===== src/Prelude/Decimal.antt =====
-- `format!("{}", n)`: the decimal print of a number.
use Prim.Native.Nat.{ℕ, zero, suc, ◌+◌, ◌/◌, ◌%◌, ◌≤◌, ◌<◌, ◌*◌}
use mathlib.Core.Path.{◌≡◌, refl}
use mathlib.Core.Bool.{true}
use mathlib.Core.List.{[], ◌∷◌}
use native.Mathlib.Omega.{arith}
use plex_postgresql.Prelude.Tests.{ltb, if◌then◌else◌}
use plex_postgresql.Prelude.Bytes.{Bytes, codes}
use plex_postgresql.Prelude.Lists.{All, length}

-- The digits, the last one first, for at most `rounds` of them.
units : ℕ → ℕ → Bytes
units zero n = []
units (suc rounds) n =
    let higher = units rounds (n / 10) in (48 + n % 10) ∷ (if ltb n 10 then [] else higher)

abbrev backwards : Bytes → Bytes → Bytes
backwards [] back = back
backwards (c ∷ s) back = backwards s (c ∷ back)

-- A number has at most one digit more than its value.
unfoldable pub decimal : ℕ → Bytes
unfolding units
decimal n = backwards (units (suc n) n) []

decimal_test : decimal 4096 ≡ codes "4096"
unfolding decimal
decimal_test = refl

abbrev pub IsDigit : ℕ → Type 0
IsDigit c = (48 ≤ c) × (c ≤ 57)

units-IsDigit : (rounds n : ℕ) → All IsDigit (units rounds n)
unfolding units
units-IsDigit zero n = tt
units-IsDigit (suc rounds) n =
    ((omega arith, omega arith), ground (arith, units-IsDigit rounds (n / 10)))

backwards-IsDigit :
    (s back : Bytes) → All IsDigit s → All IsDigit back → All IsDigit (backwards s back)
backwards-IsDigit [] back d b = b
backwards-IsDigit (c ∷ s) back (one, d) b = backwards-IsDigit s (c ∷ back) d (one, b)

-- A decimal print holds digits only.
pub decimal-IsDigit : (n : ℕ) → All IsDigit (decimal n)
unfolding decimal
decimal-IsDigit n = backwards-IsDigit (units (suc n) n) [] (units-IsDigit (suc n) n) tt

-- Ten to the power of `k`.
abbrev pub tens : ℕ → ℕ
tens zero = 1
tens (suc k) = 10 * tens k

units-length : (rounds k n : ℕ) → n < tens (suc k) → length (units rounds n) ≤ suc k
unfolding units
units-length zero k n h = omega arith
units-length (suc rounds) zero n h =
    let one : ltb n 10 ≡ true = ground (arith, h) in rw one (omega arith)
units-length (suc rounds) (suc k) n h =
    let small : n / 10 < tens (suc k) = omega (arith, h) in
    let ih = units-length rounds k (n / 10) small in ground (arith, ih)

backwards-length : (s back : Bytes) → length (backwards s back) ≡ length s + length back
backwards-length [] back = omega arith
backwards-length (c ∷ s) back = omega (arith, backwards-length s (c ∷ back))

-- A number below a power of ten has no more digits than that.
pub decimal-length : (k n : ℕ) → n < tens (suc k) → length (decimal n) ≤ suc k
unfolding decimal
decimal-length k n h =
    omega (arith, backwards-length (units (suc n) n) [], units-length (suc n) k n h)
