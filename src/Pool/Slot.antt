-- ===== src/Pool/Slot.antt =====
-- `PoolSlot` of pg_client/pool_state.rs. Each method is one atomic step of the source, or two where
-- it says so; pointers and thread ids are numbers, and 0 is null and no owner.
use plex_postgresql.Prelude.{ℕ, ◌+◌, ◌%◌, ◌^◌, Bool, true, false, ◌&&◌, not, if◌then◌else◌, ◌==◌}

pub data SlotState : Type 0 where
  free reserved ready reconnecting error : SlotState

-- SLOT_FREE to SLOT_ERROR
unfoldable pub code : SlotState → ℕ
code free = 0
code reserved = 1
code ready = 2
code reconnecting = 3
code error = 4

abbrev pub is_free : SlotState → Bool
is_free free = true
is_free _ = false

abbrev pub is_ready : SlotState → Bool
is_ready ready = true
is_ready _ = false

abbrev pub is_error : SlotState → Bool
is_error error = true
is_error _ = false

pub record Slot : Type 0 where
  pub conn : ℕ
  pub owner_thread : ℕ
  pub last_used : ℕ
  pub state : SlotState
  pub generation : ℕ

unfoldable pub new_slot : Slot
new_slot = record { conn = 0; owner_thread = 0; last_used = 0; state = free; generation = 0 }

-- `compare_exchange` of the state, by the test of the expected one.
abbrev pub exchange : (SlotState → Bool) → SlotState → Slot → Slot × Bool
exchange expected next s =
    if expected s.state then (record s { state = next }, true) else (s, false)

unfoldable pub try_claim_free : Slot → Slot × Bool
try_claim_free s = exchange is_free reserved s

unfoldable pub try_begin_reconnect : Slot → Slot × Bool
try_begin_reconnect s = exchange is_ready reconnecting s

unfoldable pub try_reclaim_error : Slot → Slot × Bool
try_reclaim_error s = exchange is_error reserved s

unfoldable pub try_reclaim_zombie : Slot → Slot × Bool
try_reclaim_zombie s = exchange is_ready free s

-- The claim, then the check of the pointer under the claim.
unfoldable pub try_claim_free_with_conn : Slot → ℕ → Slot × Bool
unfolding try_claim_free
try_claim_free_with_conn s expected =
    let (claimed, ok) = try_claim_free s in
    if not ok
    then (claimed, false)
    else if claimed.conn == expected
    then (claimed, true)
    else (record claimed { state = free }, false)

unfoldable pub mark_ready : Slot → Slot
mark_ready s = record s { state = ready }

unfoldable pub mark_error : Slot → Slot
mark_error s = record s { state = error }

unfoldable pub release : Slot → Slot
release s = record s { owner_thread = 0; state = free }

-- `generation.fetch_add(1)`, a u32
abbrev pub next_generation : ℕ → ℕ
next_generation g = (g + 1) % 2 ^ 32

-- `threads_equal`: an id of 0 is nobody's.
unfoldable pub threads_equal : ℕ → ℕ → Bool
threads_equal a b = not (a == 0) && not (b == 0) && a == b
