-- ===== src/Txn/Server.antt =====
-- The transaction state of a PostgreSQL session, as libpq reports it, and what PostgreSQL documents
-- of BEGIN, COMMIT, ROLLBACK, SAVEPOINT, RELEASE SAVEPOINT and ROLLBACK TO SAVEPOINT.
use plex_postgresql.Prelude.{
  ℕ, Bool, true, false, List, [], ◌∷◌, map, Option, none, some, if◌then◌else◌, ◌≡◌, refl, ◌⊎◌, ◌&&◌,
  ◌||◌, ◌==◌, leb, all, length, inl, inr, ap, Bool-cases,
}
use plex_postgresql.Prelude.Bytes.{Bytes, ascii_lower, beq, is_digit}
use plex_postgresql.Txn.Plan.{Statement}

-- Idle, without its connection, in a transaction, or in one that an error has aborted; the savepoints, newest first.
pub data Status : Type 0 where
  idle lost : Status
  active aborted : List Bytes → Status

-- An identifier that is not quoted is folded to lower case.
unfoldable pub fold : Bytes → Bytes
fold = map ascii_lower

-- The savepoints up to the newest one of that name, itself at the head.
unfoldable pub newest : Bytes → List Bytes → Option (List Bytes)
newest name [] = none
newest name (n ∷ older) = if beq n name then some (n ∷ older) else newest name older

-- A session: what it stands in, and what a statement makes of it; `false` is a refusal.
pub record Backend : Type 1 where
  pub State : Type 0
  pub status : State → Status
  pub exec : State → Statement → State × Bool

-- A word that is read as it is written: a letter or _, then letters, digits, _ and $, and 63 bytes at most.
abbrev is_letter : ℕ → Bool
is_letter c = (leb 97 c && leb c 122) || ((leb 65 c && leb c 90) || c == 95)

abbrev pub is_word_byte : ℕ → Bool
is_word_byte b = is_letter b || (is_digit b || b == 36)

abbrev pub is_identifier : Bytes → Bool
is_identifier [] = false
is_identifier (c ∷ s) = is_letter c && (all is_word_byte s && leb (length (c ∷ s)) 63)

-- No transaction is open, or the connection is gone.
abbrev pub IsOver : Status → Type 0
IsOver st = (st ≡ idle) ⊎ (st ≡ lost)

-- What PostgreSQL documents of the statements. BEGIN, COMMIT and SAVEPOINT may be refused: a COMMIT by a
-- deferred constraint, a SAVEPOINT by a word that is reserved, any of them by a connection that is lost.
-- A refused COMMIT ends the transaction, and a refused SAVEPOINT aborts it.
pub record IsSession (p : Backend) : Type 0 where
  pub begins :
      (s t : p.State)
      → p.status s ≡ idle
      → p.exec s Statement.begin ≡ (t, true)
      → p.status t ≡ active []
  pub begin_refused :
      (s t : p.State)
      → p.status s ≡ idle
      → p.exec s Statement.begin ≡ (t, false)
      → IsOver (p.status t)
  pub commits :
      (s t : p.State) (ns : List Bytes)
      → p.status s ≡ active ns
      → p.exec s Statement.commit ≡ (t, true)
      → p.status t ≡ idle
  pub commit_refused :
      (s t : p.State) (ns : List Bytes)
      → p.status s ≡ active ns
      → p.exec s Statement.commit ≡ (t, false)
      → IsOver (p.status t)
  pub saves :
      (s t : p.State) (name : Bytes) (ns : List Bytes)
      → is_identifier name ≡ true
      → p.status s ≡ active ns
      → p.exec s (Statement.savepoint name) ≡ (t, true)
      → p.status t ≡ active (fold name ∷ ns)
  pub save_refused :
      (s t : p.State) (name : Bytes) (ns : List Bytes)
      → p.status s ≡ active ns
      → p.exec s (Statement.savepoint name) ≡ (t, false)
      → (p.status t ≡ aborted ns) ⊎ (p.status t ≡ lost)
  pub rolls_back :
      (s : p.State) (ns : List Bytes)
      → p.status s ≡ active ns
      → (t : p.State) × (p.exec s Statement.rollback ≡ (t, true)) × (p.status t ≡ idle)
  pub rolls_back_failed :
      (s : p.State) (ns : List Bytes)
      → p.status s ≡ aborted ns
      → (t : p.State) × (p.exec s Statement.rollback ≡ (t, true)) × (p.status t ≡ idle)
  pub releases :
      (s : p.State) (name n : Bytes) (ns older : List Bytes)
      → p.status s ≡ active ns
      → newest (fold name) ns ≡ some (n ∷ older)
      → (t : p.State) × (p.exec s (Statement.release name) ≡ (t, true))
        × (p.status t ≡ active older)
  pub returns :
      (s : p.State) (name n : Bytes) (ns older : List Bytes)
      → p.status s ≡ active ns
      → newest (fold name) ns ≡ some (n ∷ older)
      → (t : p.State) × (p.exec s (Statement.rollback_to name) ≡ (t, true))
        × (p.status t ≡ active (n ∷ older))
  pub returns_failed :
      (s : p.State) (name n : Bytes) (ns older : List Bytes)
      → p.status s ≡ aborted ns
      → newest (fold name) ns ≡ some (n ∷ older)
      → (t : p.State) × (p.exec s (Statement.rollback_to name) ≡ (t, true))
        × (p.status t ≡ active (n ∷ older))

-- The statements that may be refused where `plan` sends them.
abbrev pub may_refuse : Statement → Bool
may_refuse Statement.begin = true
may_refuse Statement.commit = true
may_refuse (Statement.savepoint name) = true
may_refuse _ = false

-- The statements in order; a refusal stops them.
unfoldable pub exec_all : (p : Backend) → p.State → List Statement → p.State × Bool
exec_all p s [] = (s, true)
exec_all p s (c ∷ cs) =
    let t = (p.exec s c).0 in
    let rest = exec_all p t cs in if (p.exec s c).1 then rest else (t, false)

module _ (p : Backend) where
  pub exec_all_step :
      (s t : p.State) (c : Statement) (cs : List Statement)
      → p.exec s c ≡ (t, true)
      → exec_all p s (c ∷ cs) ≡ exec_all p t cs
  unfolding exec_all
  exec_all_step s t c cs e = rw e

  pub exec_all_nil : (s : p.State) → exec_all p s [] ≡ (s, true)
  unfolding exec_all
  exec_all_nil s = refl

  pub exec_all_stop :
      (s t : p.State) (c : Statement) (cs : List Statement)
      → p.exec s c ≡ (t, false)
      → exec_all p s (c ∷ cs) ≡ (t, false)
  unfolding exec_all
  exec_all_stop s t c cs e = rw e

  -- A statement is accepted or refused.
  pub exec-cases :
      (s : p.State) (c : Statement)
      → ((t : p.State) × (p.exec s c ≡ (t, true))) ⊎ ((t : p.State) × (p.exec s c ≡ (t, false)))
  exec-cases s c = elim (Bool-cases (p.exec s c).1) [
    | inl yes_to ↦ inl ((p.exec s c).0, ap (λ b. ((p.exec s c).0, b)) yes_to)
    | inr no_to ↦ inr ((p.exec s c).0, ap (λ b. ((p.exec s c).0, b)) no_to)
  ]
