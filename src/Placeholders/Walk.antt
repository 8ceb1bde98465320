-- ===== src/Placeholders/Walk.antt =====
-- The walk over a whole statement.
use plex_postgresql.Prelude.{ℕ, ◌≤◌, List, [], ◌∷◌, Option, none, some, length, ◌≡◌, refl, arith}
use plex_postgresql.Prelude.Bytes.{Bytes}
use plex_postgresql.Prelude.Decimal.{decimal}
use plex_postgresql.Placeholders.{Numbering, slot, transform, rewritten}
use plex_postgresql.Placeholders.Laws.{IsNumbering, slot-Placed}

-- Each token is as it was, or `$` and a slot up to the count.
pub data Written (count : ℕ) : List Bytes → List Bytes → Type 0 where
  nil : Written count [] []
  kept :
      (token : Bytes) {ts ws : List Bytes}
      → Written count ts ws
      → Written count (token ∷ ts) (token ∷ ws)
  placed :
      (token : Bytes) (n : ℕ) {ts ws : List Bytes}
      → 1 ≤ n
      → n ≤ count
      → Written count ts ws
      → Written count (token ∷ ts) ((b'$' ∷ decimal n) ∷ ws)

transform-grows :
    (st : Numbering) (tokens : List Bytes)
    → IsNumbering st
    → IsNumbering (transform st tokens).0
      × (length st.param_names ≤ length (transform st tokens).0.param_names)
unfolding transform
transform-grows st [] v = (v, omega arith)
transform-grows st (token ∷ tokens) v =
    let p = slot-Placed st token v in
    let (w, le) = transform-grows (slot st token).0 tokens p.numbering in
    (w, omega (arith, le, p.grows))

Written-next :
    (count : ℕ) (token : Bytes) (at : Option ℕ) (ts ws : List Bytes)
    → ((n : ℕ) → at ≡ some n → (1 ≤ n) × (n ≤ count))
    → Written count ts ws
    → Written count (token ∷ ts) (rewritten token at ∷ ws)
Written-next count token none ts ws within rest = kept token rest
Written-next count token (some n) ts ws within rest =
    let (lo, hi) = within n refl in placed token n lo hi rest

-- The walk over a statement writes each placeholder as it was or as `$n`, where n is at least 1 and
-- at most the number of parameters at the end, if the names' slots are parameters at the start.
pub transform-Written :
    (st : Numbering) (tokens : List Bytes)
    → IsNumbering st
    → Written (length (transform st tokens).0.param_names) tokens (transform st tokens).1
unfolding transform
transform-Written st [] v = nil
transform-Written st (token ∷ tokens) v =
    let p = slot-Placed st token v in
    let (w, le) = transform-grows (slot st token).0 tokens p.numbering in
    Written-next _ token (slot st token).1 tokens _
      (λ n e. let (lo, hi) = p.within n e in (lo, omega (arith, hi, le)))
      (transform-Written (slot st token).0 tokens p.numbering)
