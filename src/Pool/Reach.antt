-- ===== src/Pool/Reach.antt =====
-- The pool under any order of the operations of its threads, an attempt of an acquire at a time.
use plex_postgresql.Prelude.{ℕ, ◌≤◌, ◌≡◌, arith}
use plex_postgresql.Prelude.Bytes.{Bytes}
use plex_postgresql.Pool.TlsCache.{TlsPoolCache}
use plex_postgresql.Pool.Registry.{register}
use plex_postgresql.Pool.Manager.{new, pool_size, pool_max}
use plex_postgresql.Pool.Host.{Host, IsHost}
use plex_postgresql.Pool.Acquire.{AcquireCtx, State}
use plex_postgresql.Pool.Acquire.Whole.{run_phases, remember}
use plex_postgresql.Pool.Acquire.Sound.{Sound}
use plex_postgresql.Pool.Acquire.Sequence.{run_phases-Passed}
use plex_postgresql.Pool.Acquire.Total.{new-Sound}
use plex_postgresql.Pool.Child.{
  touch_connection, reset_for_child, touch_connection-Sound, reset_for_child-Sound,
}
use plex_postgresql.Pool.Release.{pool_release_for_db, pool_check_health}
use plex_postgresql.Pool.Release.Laws.{pool_release_for_db-Sound, pool_check_health-Sound}

module _ (h : Host) (size most : ℕ) (w : h.World) where
  -- The states of a pool that began with no connection. A turn of another thread brings that
  -- thread's cache.
  pub data Reachable : State h → Type 0 where
    opened : (tls : TlsPoolCache) → Reachable (record { pm = new size most; tls = tls; world = w })
    attempted :
        {st : State h}
        → Reachable st
        → (ctx : AcquireCtx) (path : Bytes) → ctx.pool_size ≡ pool_size st.pm
        → Reachable (run_phases h ctx (remember h st path)).0
    released :
        {st : State h}
        → Reachable st
        → (thread db_handle : ℕ) → Reachable (pool_release_for_db h thread db_handle st)
    checked :
        {st : State h}
        → Reachable st
        → (thread now conn : ℕ) → Reachable (pool_check_health h thread now conn st).0
    registered :
        {st : State h}
        → Reachable st
        → (db_handle slot : ℕ)
        → Reachable (record st {
          pm = record (st.pm) { db_to_pool = register st.pm.db_to_pool db_handle slot };
        })
    touched :
        {st : State h}
        → Reachable st
        → (conn now : ℕ) → Reachable (record st { pm = touch_connection st.pm conn now })
    forked : {st : State h} → Reachable st → Reachable (reset_for_child h st)
    turned :
        {st : State h} → Reachable st → (tls : TlsPoolCache) → Reachable (record st { tls = tls })

  -- In whatever order the operations come, no slot is left in the middle of one, every ready slot
  -- has a connection, every connection in a slot is live, and no two slots share one.
  pub Reachable-Sound : IsHost h → (st : State h) → Reachable st → Sound h 0 st
  Reachable-Sound v _ (opened tls) = new-Sound h size most tls w
  Reachable-Sound v _ (attempted {st} r ctx path e) =
      let s = Reachable-Sound v st r in
      let a =
        (run_phases-Passed h v ctx (pool_size st.pm) (omega (arith, e)) (remember h st path)
          (record { good = s.good; within = within_room st s.room; room = s.room })).0 in
      record { good = a.good; within = omega arith; room = a.room }
    where
      within_room : (st : State h) {n : ℕ} → st.pm.configured_max_size ≤ n → pool_size st.pm ≤ n
      within_room st le = unfold pool_size pool_max in omega (arith, le)
  Reachable-Sound v _ (released {st} r thread db_handle) =
      pool_release_for_db-Sound h v thread db_handle st (Reachable-Sound v st r)
  Reachable-Sound v _ (checked {st} r thread now conn) =
      pool_check_health-Sound h v thread now conn st (Reachable-Sound v st r)
  Reachable-Sound v _ (registered {st} r db_handle slot) =
      let s = Reachable-Sound v st r in record { good = s.good; within = s.within; room = s.room }
  Reachable-Sound v _ (touched {st} r conn now) =
      touch_connection-Sound h conn now st (Reachable-Sound v st r)
  Reachable-Sound v _ (forked {st} r) = reset_for_child-Sound h st (Reachable-Sound v st r)
  Reachable-Sound v _ (turned {st} r tls) =
      let s = Reachable-Sound v st r in record { good = s.good; within = s.within; room = s.room }
