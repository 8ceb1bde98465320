-- ===== src/Pool/Acquire/Maintain.antt =====
-- pool_acquire/maintenance.rs: slots taken back from threads that moved on, and idle connections
-- destroyed.
use plex_postgresql.Prelude.{ℕ, ◌+◌, Bool, ◌&&◌, not, List, [], ◌∷◌, if◌then◌else◌, ◌==◌, ltb, leb}
use plex_postgresql.Pool.Slot.{is_ready, try_reclaim_zombie}
use plex_postgresql.Pool.Registry.{Handles, references}
use plex_postgresql.Pool.Manager.{PoolManager, zombie_reclaimable, reap_idle}
use plex_postgresql.Pool.Host.{Host}
use plex_postgresql.Pool.Acquire.{AcquireCtx, State, Visitor, for_slots}
use plex_postgresql.Pool.Acquire.Phases.{next}

abbrev pub reap_interval_secs : ℕ
reap_interval_secs = 60

-- `now - last_reap_time >= REAP_INTERVAL_SECS`
unfoldable pub maintenance_due : PoolManager → ℕ → Bool
maintenance_due pm now = leb (reap_interval_secs + pm.last_reap_time) now

module _ (h : Host) where
  unfoldable pub zombie_slot : AcquireCtx → ℕ → Handles → Visitor h
  zombie_slot ctx idle_timeout handles i s tls w =
      if not (is_ready s.state)
      then next h s tls w
      else if not
          (zombie_reclaimable (ltb 0 (references handles i)) ctx.now s.last_used idle_timeout)
      then next h s tls w
      else if not (s.conn == 0) && h.is_streaming_active w s.conn
      then next h s tls w
      else next h (try_reclaim_zombie s).0 tls w

  abbrev pub destroy_all : h.World → List ℕ → h.World
  destroy_all w [] = w
  destroy_all w (c ∷ cs) = destroy_all (h.destroy_pool_connection w c) cs

  -- The reap proper, with the time noted first.
  unfoldable pub reap : AcquireCtx → State h → State h
  reap ctx st =
      let (pm, taken) = reap_idle (record (st.pm) { last_reap_time = ctx.now }) ctx.now in
      record st { pm = pm; world = destroy_all st.world taken }

  unfoldable pub reclaim_zombies_and_reap : AcquireCtx → State h → State h
  reclaim_zombies_and_reap ctx st =
      let st' =
        (for_slots h (zombie_slot ctx st.pm.idle_timeout_secs st.pm.db_to_pool) ctx.pool_size 0
          st).0 in
      if not (maintenance_due st'.pm ctx.now) then st' else reap ctx st'
