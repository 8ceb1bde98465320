-- ===== src/Txn/Stack.antt =====
-- The frame stacks that `plan` builds, and the savepoints that they stand for.
use plex_postgresql.Prelude.{true, false, List, [], ◌∷◌, some, ◌≡◌, arith, inl, inr, Bool-cases}
use plex_postgresql.Prelude.Bytes.{Bytes, beq, beq_iff, starts_with, has_nul}
use plex_postgresql.Txn.Plan.{Frame, outer, nested_begin, nested_prefix, up_to_savepoint}
use plex_postgresql.Txn.Server.{Status, idle, active, fold, newest}

-- A name that Plex gives: written as PostgreSQL folds it, and not one of the shim's own.
pub record IsUserName (n : Bytes) : Type 0 where
  pub folded : fold n ≡ n
  pub foreign : starts_with nested_prefix n ≡ false
  pub printable : has_nul n ≡ false

pub record IsNestedName (n : Bytes) : Type 0 where
  pub folded : fold n ≡ n
  pub own : starts_with nested_prefix n ≡ true
  pub printable : has_nul n ≡ false

-- The transaction's own frame is at the bottom and nowhere else.
abbrev pub IsOpenStack : List Frame → Type 0
IsOpenStack [] = ⊥
IsOpenStack (outer e ∷ []) = Unit
IsOpenStack (outer e ∷ _ ∷ _) = ⊥
IsOpenStack (Frame.savepoint n ∷ below) = IsUserName n × IsOpenStack below
IsOpenStack (nested_begin n ∷ below) = IsNestedName n × IsOpenStack below

abbrev pub IsStack : List Frame → Type 0
IsStack [] = Unit
IsStack (f ∷ fs) = IsOpenStack (f ∷ fs)

abbrev pub savepoints : List Frame → List Bytes
savepoints [] = []
savepoints (outer e ∷ below) = savepoints below
savepoints (Frame.savepoint n ∷ below) = n ∷ savepoints below
savepoints (nested_begin n ∷ below) = n ∷ savepoints below

abbrev pub view : List Frame → Status
view [] = idle
view (f ∷ fs) = active (savepoints (f ∷ fs))

-- A named savepoint's name is told from a nested BEGIN's.
ne_of_names : (m n : Bytes) → IsNestedName m → IsUserName n → beq m n ≡ false
ne_of_names m n own user = elim (Bool-cases (beq m n)) [
  | inl same ↦ cc ((beq_iff m n).0 same, own.own, user.foreign)
  | inr other ↦ other
]

-- What `up_to_savepoint` finds is a stack, with the savepoint that PostgreSQL finds at its head.
pub record Found (name : Bytes) (frames found : List Frame) : Type 0 where
  pub below : List Frame
  pub head : found ≡ Frame.savepoint name ∷ below
  pub stack : IsOpenStack below
  pub same : newest name (savepoints frames) ≡ some (name ∷ savepoints below)

pub up_to_savepoint-Found :
    (name : Bytes) (frames found : List Frame)
    → IsUserName name
    → IsStack frames
    → up_to_savepoint name frames ≡ some found
    → Found name frames found
unfolding up_to_savepoint newest
up_to_savepoint-Found name [] found u s e = cc
up_to_savepoint-Found name (outer x ∷ []) found u s e = cc
up_to_savepoint-Found name (outer x ∷ _ ∷ _) found u s e = absurd s
up_to_savepoint-Found name (Frame.savepoint n ∷ []) found u s e = absurd s.1
up_to_savepoint-Found name (nested_begin n ∷ []) found u s e = absurd s.1
up_to_savepoint-Found name (nested_begin n ∷ g ∷ fs) found u s e =
    let f = up_to_savepoint-Found name (g ∷ fs) found u s.1 e in
    record {
      below = f.below;
      head = f.head;
      stack = f.stack;
      same = rw (ne_of_names n name s.0 u) f.same;
    }
up_to_savepoint-Found name (Frame.savepoint n ∷ g ∷ fs) found u s e =
    elim (Bool-cases (beq n name)) [
      | inl hit ↦ record {
        below = g ∷ fs;
        head = ground (arith, (beq_iff n name).0 hit);
        stack = s.1;
        same = ground (arith, (beq_iff n name).0 hit);
      }
      | inr miss ↦
          let f = up_to_savepoint-Found name (g ∷ fs) found u s.1 (ground arith) in
          record { below = f.below; head = f.head; stack = f.stack; same = rw miss f.same }
    ]
