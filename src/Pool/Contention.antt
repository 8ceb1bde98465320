-- ===== src/Pool/Contention.antt =====
-- Threads that contend for one slot, by the atomic steps of `PoolSlot` (pg_client/pool_state.rs) in
-- any order, with the two steps in which the close of a handle (pg_client/pool_runtime.rs) gives a slot
-- back: it reads the state as ready, and later stores free without an exchange.
use plex_postgresql.Prelude.{
  ℕ, ◌≤◌, Bool, true, false, not, ◌||◌, List, [], ◌∷◌, ◌++◌, ◌≡◌, inl, inr, refl, sym, ap, ◌∙◌,
  arith, length, Bool-cases, length-append,
}
use plex_postgresql.Pool.Slot.{
  Slot, SlotState, free, reserved, ready, reconnecting, error, is_free, is_ready, is_error,
  try_claim_free, try_begin_reconnect, try_reclaim_error, try_reclaim_zombie, mark_ready,
  mark_error, release, exchange,
}

-- The slot, the threads that are between a claim that succeeded and the end of it, those between the read
-- and the store of a close, and whether such a store came when the slot was no longer ready.
pub record Shared : Type 0 where
  pub slot : Slot
  pub holders : List ℕ
  pub closing : List ℕ
  pub late : Bool

-- The exchanges that give a slot to a thread.
pub data IsClaim : (Slot → Slot × Bool) → Type 0 where
  free_claim : IsClaim try_claim_free
  reconnect_claim : IsClaim try_begin_reconnect
  error_claim : IsClaim try_reclaim_error

-- What a holder ends its claim with. `given_back` is the end of a claim whose check failed, and of
-- the reaper's.
abbrev pub given_back : Slot → Slot
given_back s = record s { state = free }

pub data IsEnd : (Slot → Slot) → Type 0 where
  made_ready : IsEnd mark_ready
  made_error : IsEnd mark_error
  was_released : IsEnd release
  was_given_back : IsEnd given_back

pub data Reached : Shared → Type 0 where
  begun :
      (s : Slot)
      → s.state ≡ free
      → Reached (record { slot = s; holders = []; closing = []; late = false })
  claimed :
      {x : Shared}
      → Reached x
      → (thread : ℕ) (claim : Slot → Slot × Bool) → IsClaim claim
      → (claim x.slot).1 ≡ true
      → Reached (record x { slot = (claim x.slot).0; holders = thread ∷ x.holders })
  refused :
      {x : Shared}
      → Reached x
      → (claim : Slot → Slot × Bool) → IsClaim claim
      → (claim x.slot).1 ≡ false
      → Reached (record x { slot = (claim x.slot).0 })
  ended :
      {x : Shared}
      → Reached x
      → (thread : ℕ) (older newer : List ℕ) → x.holders ≡ newer ++ thread ∷ older
      → (finish : Slot → Slot) → IsEnd finish
      → Reached (record x { slot = finish x.slot; holders = newer ++ older })
  reclaimed : {x : Shared} → Reached x → Reached (record x { slot = (try_reclaim_zombie x.slot).0 })
  read_ready :
      {x : Shared}
      → Reached x
      → (thread : ℕ) → is_ready x.slot.state ≡ true
      → Reached (record x { closing = thread ∷ x.closing })
  stored_free :
      {x : Shared}
      → Reached x
      → (thread : ℕ) (older newer : List ℕ) → x.closing ≡ newer ++ thread ∷ older
      → Reached (record x {
        slot = release x.slot;
        closing = newer ++ older;
        late = x.late || not (is_ready x.slot.state);
      })
  -- A store to a field other than the state, by any thread.
  stored :
      {x : Shared}
      → Reached x
      → (s : Slot) → s.state ≡ x.slot.state
      → Reached (record x { slot = s })

-- How many threads hold a slot, by its state.
abbrev pub holding : SlotState → ℕ
holding reserved = 1
holding reconnecting = 1
holding _ = 0

settled_by : (s : Slot) (finish : Slot → Slot) → IsEnd finish → holding (finish s).state ≡ 0
unfolding mark_ready mark_error release
settled_by s _ made_ready = refl
settled_by s _ made_error = refl
settled_by s _ was_released = refl
settled_by s _ was_given_back = refl

holding-le : (st : SlotState) → holding st ≤ 1
holding-le free = omega arith
holding-le reserved = omega arith
holding-le ready = omega arith
holding-le reconnecting = omega arith
holding-le error = omega arith

-- An exchange out of a state that nobody holds.
module _ (expected : SlotState → Bool) (next : SlotState) (s : Slot)
    (from_settled : (st : SlotState) → expected st ≡ true → holding st ≡ 0) where
  exchanged :
      (exchange expected next s).1 ≡ true
      → (holding s.state ≡ 0) × ((exchange expected next s).0.state ≡ next)
  exchanged e = elim (Bool-cases (expected s.state)) [
    | inl hit ↦ (from_settled s.state hit, rw hit refl)
    | inr miss ↦ absurd (let q = rw miss at e in cc)
  ]

  unchanged : (exchange expected next s).1 ≡ false → (exchange expected next s).0 ≡ s
  unchanged e = elim (Bool-cases (expected s.state)) [
    | inl hit ↦ absurd (let q = rw hit at e in cc)
    | inr miss ↦ rw miss refl
  ]

free-holding : (st : SlotState) → is_free st ≡ true → holding st ≡ 0
free-holding free e = refl
free-holding reserved e = cc
free-holding ready e = refl
free-holding reconnecting e = cc
free-holding error e = refl

ready-holding : (st : SlotState) → is_ready st ≡ true → holding st ≡ 0
ready-holding free e = refl
ready-holding reserved e = cc
ready-holding ready e = refl
ready-holding reconnecting e = cc
ready-holding error e = refl

error-holding : (st : SlotState) → is_error st ≡ true → holding st ≡ 0
error-holding free e = refl
error-holding reserved e = cc
error-holding ready e = refl
error-holding reconnecting e = cc
error-holding error e = refl

claims :
    (s : Slot) (claim : Slot → Slot × Bool)
    → IsClaim claim
    → (claim s).1 ≡ true
    → (holding s.state ≡ 0) × (holding (claim s).0.state ≡ 1)
unfolding try_claim_free try_begin_reconnect try_reclaim_error
claims s _ free_claim e =
    let (before, after) = exchanged is_free reserved s free-holding e in (before, ap holding after)
claims s _ reconnect_claim e =
    let (before, after) = exchanged is_ready reconnecting s ready-holding e in
    (before, ap holding after)
claims s _ error_claim e =
    let (before, after) = exchanged is_error reserved s error-holding e in
    (before, ap holding after)

refuses :
    (s : Slot) (claim : Slot → Slot × Bool) → IsClaim claim → (claim s).1 ≡ false → (claim s).0 ≡ s
unfolding try_claim_free try_begin_reconnect try_reclaim_error
refuses s _ free_claim e = unchanged is_free reserved s free-holding e
refuses s _ reconnect_claim e = unchanged is_ready reconnecting s ready-holding e
refuses s _ error_claim e = unchanged is_error reserved s error-holding e

zombie_settled : (s : Slot) → holding (try_reclaim_zombie s).0.state ≡ holding s.state
unfolding try_reclaim_zombie
zombie_settled s = elim (Bool-cases (is_ready s.state)) [
  | inl hit ↦ rw hit (sym (ready-holding s.state hit))
  | inr miss ↦ rw miss refl
]

-- In any order of the threads' steps, the slot has exactly as many holders as its state says: one
-- while it is reserved or reconnecting, and none otherwise. So no two threads hold it at once. This as long
-- as no close has stored free, without an exchange, into a slot that was no longer ready.
pub Reached-exclusive :
    (x : Shared) → Reached x → x.late ≡ false → length x.holders ≡ holding x.slot.state
unfolding release
Reached-exclusive _ (begun s e) l = rw e refl
Reached-exclusive _ (claimed {x} r thread claim c e) l =
    omega (arith, Reached-exclusive x r l, (claims x.slot claim c e).0, (claims x.slot claim c e).1)
Reached-exclusive _ (refused {x} r claim c e) l =
    Reached-exclusive x r l ∙ ap (λ s. holding s.state) (sym (refuses x.slot claim c e))
Reached-exclusive _ (ended {x} r thread older newer e finish f) l = omega (
  arith,
  Reached-exclusive x r l,
  ap length e,
  length-append newer (thread ∷ older),
  length-append newer older,
  settled_by x.slot finish f,
  holding-le x.slot.state,
)
Reached-exclusive _ (reclaimed {x} r) l =
    omega (arith, Reached-exclusive x r l, zombie_settled x.slot)
Reached-exclusive _ (read_ready {x} r thread e) l = Reached-exclusive x r l
Reached-exclusive _ (stored_free {x} r thread older newer e) l =
    let timely : x.late ≡ false = ground (arith, l) in
    let rdy : is_ready x.slot.state ≡ true = ground (arith, l) in
    omega (arith, Reached-exclusive x r timely, ready-holding x.slot.state rdy)
Reached-exclusive _ (stored {x} r s e) l = rw e (Reached-exclusive x r l)
