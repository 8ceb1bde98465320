-- ===== src/Pool/Release.antt =====
-- pg_client/pool_runtime.rs: a slot given back when its handle closes, and the health check.
pub mod Laws
pub mod Frees
use plex_postgresql.Prelude.{
  ℕ, zero, suc, ◌+◌, Bool, true, false, ◌&&◌, ◌||◌, not, Option, none, some, if◌then◌else◌, ◌==◌,
  ltb,
}
use plex_postgresql.Pool.Slot.{
  Slot, is_ready, try_begin_reconnect, mark_ready, mark_error, release, threads_equal,
}
use plex_postgresql.Pool.TlsCache
use plex_postgresql.Pool.Registry.{unregister}
use plex_postgresql.Pool.Manager.{PoolManager, pool_size, slot_at}
use plex_postgresql.Pool.Host.{Host}
use plex_postgresql.Pool.Acquire.{State, Visitor, visit}
use plex_postgresql.Pool.Acquire.Phases.{next, roll_back_abandoned}

module _ (h : Host) where
  abbrev pub drained : ℕ → h.World → h.World
  drained conn w = if h.is_streaming_active w conn then h.cancel_and_drain w conn else w

  -- No stream in flight, no transaction open. (The drain resets the flag of the stream.)
  unfoldable pub settle_connection_before_release : ℕ → h.World → h.World
  settle_connection_before_release conn w =
      if conn == 0
      then w
      else h.forget_transaction (roll_back_abandoned h conn (drained conn w)) conn

  unfoldable pub release_slot : ℕ → Visitor h
  release_slot thread i s tls w =
      if threads_equal s.owner_thread thread && is_ready s.state
      then next h (release s) tls (settle_connection_before_release s.conn w)
      else next h s tls w

  abbrev pub release_slot_of : ℕ → Option ℕ → State h → State h
  release_slot_of thread none st = st
  release_slot_of thread (some i) st =
      if ltb i (pool_size st.pm) then (visit h (release_slot thread) i st).0 else st

  unfoldable pub pool_release_for_db : ℕ → ℕ → State h → State h
  pool_release_for_db thread db_handle st =
      let (handles, slot) = unregister st.pm.db_to_pool db_handle in
      let st' = record st {
        pm = record (st.pm) { db_to_pool = handles };
        world = h.forget_handle st.world db_handle;
      } in
      record (release_slot_of thread slot st') { tls = TlsCache.empty }

  -- The slot that holds the broken connection, if it can be taken into repair.
  unfoldable pub health_slot : ℕ → Visitor h
  health_slot now i s tls w =
      let (s', began) = try_begin_reconnect s in
      if not began
      then next h s' tls w
      else (let (w1, reset_ok) = h.reset_conn (h.stmt_cache_clear w s.conn) s.conn in
          if reset_ok
          then next h (mark_ready (record s' { last_used = now })) tls w1
          else (let (w2, reconn_ok) = h.reconnect_conn w1 s.conn in
              if reconn_ok
              then next h (mark_ready (record s' { last_used = now })) tls w2
              else next h (mark_error s') tls w2))

  abbrev pub held_by : ℕ → ℕ → Slot → Bool
  held_by thread conn s = s.conn == conn && threads_equal s.owner_thread thread

  unfoldable pub health_from : ℕ → ℕ → ℕ → ℕ → ℕ → State h → State h × ℕ
  health_from thread now conn zero i st = (st, 0)
  health_from thread now conn (suc rounds) i st =
      let rest = health_from thread now conn rounds (i + 1) st in
      let s = slot_at st.pm.slots i in
      if not (held_by thread conn s)
      then rest
      else ((visit h (health_slot now) i st).0, if (try_begin_reconnect s).1 then 1 else 0)

  -- 1 if the connection was reset, 0 if nothing was done.
  unfoldable pub pool_check_health : ℕ → ℕ → ℕ → State h → State h × ℕ
  pool_check_health thread now conn st =
      if conn == 0
      then (st, 0)
      else if h.check_conn_ok st.world conn
      then (st, 0)
      else health_from thread now conn (pool_size st.pm) 0 st
