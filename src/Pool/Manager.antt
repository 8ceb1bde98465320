-- ===== src/Pool/Manager.antt =====
-- `PoolManager` of pg_client/pool_state.rs. Times are seconds since the epoch; a difference of two is
-- signed in the source, and is compared here by moving the subtracted time to the other side.
use plex_postgresql.Prelude.{
  ℕ, zero, suc, ◌+◌, Bool, false, ◌&&◌, ◌||◌, not, List, [], ◌∷◌, ◌++◌, Option, none, some,
  if◌then◌else◌, ◌==◌, ltb, min, max, get_elem?, set, replicate,
}
use plex_postgresql.Prelude.Bytes.{Bytes}
use plex_postgresql.Pool.Slot.{
  Slot, SlotState, free, is_free, is_ready, new_slot, try_claim_free, next_generation,
}
use plex_postgresql.Pool.Registry.{Handles, references, contains_conn}

pub record PoolManager : Type 0 where
  pub slots : List Slot
  pub configured_size : ℕ
  pub configured_max_size : ℕ
  pub idle_timeout_secs : ℕ
  pub library_db_path : Option Bytes
  pub last_reap_time : ℕ
  pub registry : Handles
  pub db_to_pool : Handles
  pub live_pool_conns : List ℕ

-- `clamp(1, most)`
abbrev clamp : ℕ → ℕ → ℕ
clamp size most = if ltb size 1 then 1 else if ltb most size then most else size

unfoldable pub new : ℕ → ℕ → PoolManager
new pool_size pool_max =
    let effective_max = max pool_max 1 in
    record {
      slots = replicate effective_max new_slot;
      configured_size = clamp pool_size effective_max;
      configured_max_size = effective_max;
      idle_timeout_secs = 300;
      library_db_path = none;
      last_reap_time = 0;
      registry = [];
      db_to_pool = [];
      live_pool_conns = [];
    }

-- `!referenced && now - last_used > idle_timeout`
unfoldable pub zombie_reclaimable : Bool → ℕ → ℕ → ℕ → Bool
zombie_reclaimable referenced now last_used idle_timeout =
    not referenced && ltb (idle_timeout + last_used) now

unfoldable pub slot_is_referenced : PoolManager → ℕ → Bool
slot_is_referenced pm i = ltb 0 (references pm.db_to_pool i)

unfoldable pub pool_max : PoolManager → ℕ
pool_max pm = pm.configured_max_size

unfoldable pub pool_size : PoolManager → ℕ
unfolding pool_max
pool_size pm = min pm.configured_size (pool_max pm)

-- `slots[i]`: an index is below the pool size, and so below the length.
abbrev or_new : Option Slot → Slot
or_new none = new_slot
or_new (some s) = s

abbrev pub slot_at : List Slot → ℕ → Slot
slot_at slots i = or_new (get_elem? slots i)

find_slot_from : ℕ → List Slot → ℕ → Option (ℕ × SlotState)
find_slot_from i [] conn = none
find_slot_from i (s ∷ ss) conn =
    if s.conn == conn then some (i, s.state) else find_slot_from (i + 1) ss conn

unfoldable pub find_connection_slot : PoolManager → ℕ → Option (ℕ × SlotState)
unfolding find_slot_from
find_connection_slot pm conn = if conn == 0 then none else find_slot_from 0 pm.slots conn

abbrev found_ready : Option (ℕ × SlotState) → Bool
found_ready none = false
found_ready (some (i, state)) = is_ready state

unfoldable pub validate_connection : PoolManager → ℕ → Bool
validate_connection pm conn = found_ready (find_connection_slot pm conn)

abbrev settles : Option (ℕ × SlotState) → Bool → Bool
settles none registered = registered
settles (some (i, state)) registered = is_ready state

unfoldable pub stream_settles_on : PoolManager → ℕ → Bool
stream_settles_on pm conn =
    if conn == 0
    then false
    else settles (find_connection_slot pm conn) (contains_conn pm.registry conn)

-- One slot of `reap_idle`: the slot after it, and the connection to destroy, if there is one.
unfoldable pub reap_slot : ℕ → ℕ → Bool → Slot → Slot × Option ℕ
reap_slot now timeout referenced s =
    if not (is_free s.state) || s.conn == 0 || ltb now (timeout + s.last_used) || referenced
    then (s, none)
    else (let (claimed, ok) = try_claim_free s in
        if not ok then (claimed, none) else (
          record claimed {
            generation = next_generation claimed.generation;
            conn = 0;
            owner_thread = 0;
            state = free;
          },
          if claimed.conn == 0 then none else some claimed.conn,
        ))

abbrev pub push : Option ℕ → List ℕ → List ℕ
push none acc = acc
push (some c) acc = acc ++ c ∷ []

unfoldable pub reap_from : ℕ → ℕ → Handles → ℕ → ℕ → List Slot → List ℕ → List Slot × List ℕ
reap_from now timeout handles zero i slots acc = (slots, acc)
reap_from now timeout handles (suc rounds) i slots acc =
    let (s, taken) = reap_slot now timeout (ltb 0 (references handles i)) (slot_at slots i) in
    reap_from now timeout handles rounds (i + 1) (set slots i s) (push taken acc)

unfoldable pub reap_idle : PoolManager → ℕ → PoolManager × List ℕ
unfolding reap_from
reap_idle pm now =
    let (slots, taken) =
      reap_from now pm.idle_timeout_secs pm.db_to_pool (pool_size pm) 0 pm.slots [] in
    (record pm { slots = slots }, taken)
