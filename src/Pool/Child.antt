-- ===== src/Pool/Child.antt =====
-- The rest of `PoolManager` (pg_client/pool_state.rs): the live connections, the time of use, and the
-- reset in a forked child.
use plex_postgresql.Prelude.{
  ℕ, zero, suc, ◌+◌, ◌≤◌, Bool, false, ◌||◌, List, [], ◌∷◌, some, if◌then◌else◌, ◌==◌, ◌≡◌, inl,
  inr, refl, sym, ap, ◌∙◌, arith, Bool-cases, length, set, get_elem?, get_elem?-some, length-set,
  min,
}
use plex_postgresql.Pool.Slot.{Slot, free, next_generation}
use plex_postgresql.Pool.TlsCache
use plex_postgresql.Pool.Registry.{contains_conn}
use plex_postgresql.Pool.Manager.{PoolManager, slot_at, pool_size, pool_max}
use plex_postgresql.Pool.Host.{Host}
use plex_postgresql.Pool.Acquire.{State, Visit}
use plex_postgresql.Pool.Acquire.Phases.{next}
use plex_postgresql.Pool.Acquire.Spec.{kept-Fine, dropped-Fine}
use plex_postgresql.Pool.Acquire.Sound.{Good, Sound, write-Good, slot_at-some}

abbrev member : ℕ → List ℕ → Bool
member c [] = false
member c (d ∷ ds) = d == c || member c ds

abbrev without : ℕ → List ℕ → List ℕ
without c [] = []
without c (d ∷ ds) = if d == c then without c ds else d ∷ without c ds

-- A set: an insertion of what is there changes nothing.
unfoldable pub note_live_pool_connection : PoolManager → ℕ → PoolManager
note_live_pool_connection pm conn =
    if conn == 0 || member conn pm.live_pool_conns
    then pm
    else record pm { live_pool_conns = conn ∷ pm.live_pool_conns }

unfoldable pub forget_live_pool_connection : PoolManager → ℕ → PoolManager
forget_live_pool_connection pm conn =
    if conn == 0 then pm else record pm { live_pool_conns = without conn pm.live_pool_conns }

unfoldable pub is_live_pool_connection : PoolManager → ℕ → Bool
is_live_pool_connection pm conn = if conn == 0 then false else member conn pm.live_pool_conns

unfoldable pub is_tracked_connection : PoolManager → ℕ → Bool
unfolding is_live_pool_connection
is_tracked_connection pm conn =
    if conn == 0 then false else is_live_pool_connection pm conn || contains_conn pm.registry conn

-- The first slot below the bound that holds the connection.
unfoldable pub touch_from : ℕ → ℕ → ℕ → ℕ → List Slot → List Slot
touch_from conn now zero i slots = slots
touch_from conn now (suc rounds) i slots =
    let rest = touch_from conn now rounds (i + 1) slots in
    let s = slot_at slots i in
    if s.conn == conn then set slots i (record s { last_used = now }) else rest

unfoldable pub touch_connection : PoolManager → ℕ → ℕ → PoolManager
touch_connection pm conn now = record pm { slots = touch_from conn now (pool_size pm) 0 pm.slots }

unfoldable pub reset_slot : Slot → Slot
reset_slot s = record {
  conn = 0;
  owner_thread = 0;
  last_used = 0;
  state = free;
  generation = next_generation s.generation;
}

unfoldable pub reset_from : ℕ → ℕ → List Slot → List Slot
reset_from zero i slots = slots
reset_from (suc rounds) i slots =
    reset_from rounds (i + 1) (set slots i (reset_slot (slot_at slots i)))

module _ (h : Host) where
  -- The process id that is noted for the child is left out.
  unfoldable pub reset_for_child : State h → State h
  reset_for_child st = record st {
    pm = record (st.pm) {
      slots = reset_from (pool_size st.pm) 0 st.pm.slots;
      registry = [];
      db_to_pool = [];
    };
    tls = TlsCache.empty;
  }

  -- A list of slots that is good, and as long as it was.
  abbrev Kept : h.World → List Slot → List Slot → Type 0
  Kept w slots slots' = Good h slots' w × (length slots' ≡ length slots)

  touch_from-Good :
      (w : h.World) (conn now rounds i : ℕ) (slots : List Slot)
      → rounds + i ≤ length slots
      → Good h slots w
      → Kept w slots (touch_from conn now rounds i slots)
  unfolding touch_from
  touch_from-Good w conn now zero i slots le g = (g, refl)
  touch_from-Good w conn now (suc rounds) i slots le g =
      let (s, here) = get_elem?-some slots i (omega arith) in
      let at : slot_at slots i ≡ s = slot_at-some slots i here in
      let o = g.ok i here in
      let x : Visit h = next h (record s { last_used = now }) TlsCache.empty w in
      elim (Bool-cases (s.conn == conn)) [
        | inr other ↦
            rw (at, other) (touch_from-Good w conn now rounds (i + 1) slots (omega arith) g)
        | inl hit ↦
            rw (at, hit)
              (
                write-Good h 0 i w slots x g here (omega (arith, le))
                    (kept-Fine h 0 i w s o x refl o.settled o.backed (λ d l. l) tt),
                length-set slots i (record s { last_used = now }),
              )
      ]

  reset_from-Good :
      (w : h.World) (rounds i : ℕ) (slots : List Slot)
      → rounds + i ≤ length slots
      → Good h slots w
      → Kept w slots (reset_from rounds i slots)
  unfolding reset_from reset_slot
  reset_from-Good w zero i slots le g = (g, refl)
  reset_from-Good w (suc rounds) i slots le g =
      let (s, here) = get_elem?-some slots i (omega arith) in
      let here' : get_elem? slots i ≡ some (slot_at slots i) =
        here ∙ ap some (sym (slot_at-some slots i here)) in
      let sized = length-set slots i (reset_slot (slot_at slots i)) in
      let g' =
        write-Good h 0 i w slots (next h (reset_slot (slot_at slots i)) TlsCache.empty w) g here'
          (omega arith)
          (dropped-Fine h 0 i w (slot_at slots i) (g.ok i here') _ refl refl refl (λ d ne l. l)) in
      let (g'', e) = reset_from-Good w rounds (i + 1) _ (omega (arith, sized)) g' in
      (g'', e ∙ sized)

  pub touch_connection-Sound :
      (conn now : ℕ) (st : State h)
      → Sound h 0 st
      → Sound h 0 (record st { pm = touch_connection st.pm conn now })
  unfolding touch_connection pool_size pool_max
  touch_connection-Sound conn now st s =
      let (g, e) =
        touch_from-Good st.world conn now (min st.pm.configured_size st.pm.configured_max_size) 0
          st.pm.slots (omega (arith, s.room)) s.good in
      record { good = g; within = omega arith; room = omega (arith, e, s.room) }

  pub reset_for_child-Sound : (st : State h) → Sound h 0 st → Sound h 0 (reset_for_child st)
  unfolding reset_for_child pool_size pool_max
  reset_for_child-Sound st s =
      let (g, e) =
        reset_from-Good st.world (min st.pm.configured_size st.pm.configured_max_size) 0 st.pm.slots
          (omega (arith, s.room)) s.good in
      record { good = g; within = omega arith; room = omega (arith, e, s.room) }
