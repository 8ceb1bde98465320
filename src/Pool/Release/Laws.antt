-- ===== src/Pool/Release/Laws.antt =====
-- Giving back and checking keep the pool sound.
use plex_postgresql.Prelude.{
  ℕ, zero, suc, ◌+◌, ◌≤◌, ◌<◌, ◌&&◌, Option, none, some, ◌==◌, ltb, inl, inr, refl, arith,
  Bool-cases, length, min,
}
use plex_postgresql.Prelude.Map.{find, remove}
use plex_postgresql.Pool.Slot.{
  Slot, is_ready, try_begin_reconnect, mark_ready, mark_error, release, threads_equal,
}
use plex_postgresql.Pool.TlsCache.{TlsPoolCache}
use plex_postgresql.Pool.Registry.{unregister}
use plex_postgresql.Pool.Manager.{pool_size, pool_max, slot_at}
use plex_postgresql.Pool.Host.{Host, IsHost}
use plex_postgresql.Pool.Acquire.{State}
use plex_postgresql.Pool.Acquire.Spec.{SlotOk, KeepsAll, Fine, kept-Fine}
use plex_postgresql.Pool.Acquire.Ready.{rolled_back-KeepsAll}
use plex_postgresql.Pool.Acquire.Sound.{Good, Sound, visit-Passed}
use plex_postgresql.Pool.Release.{
  drained, settle_connection_before_release, release_slot, release_slot_of, pool_release_for_db,
  health_slot, held_by, health_from, pool_check_health,
}

module _ (h : Host) (v : IsHost h) where
  drained-KeepsAll : (w : h.World) (c : ℕ) → KeepsAll h w (drained h c w)
  drained-KeepsAll w c d l = elim (Bool-cases (h.is_streaming_active w c)) [
    | inl busy ↦ rw busy (v.keeps_drain w c d l)
    | inr quiet ↦ rw quiet l
  ]

  pub settled-KeepsAll :
      (w : h.World) (c : ℕ) → KeepsAll h w (settle_connection_before_release h c w)
  unfolding settle_connection_before_release
  settled-KeepsAll w c d l = elim (Bool-cases (c == 0)) [
    | inl null ↦ rw null l
    | inr real ↦
        rw real (v.keeps_forget _ c d (rolled_back-KeepsAll h v _ c d (drained-KeepsAll w c d l)))
  ]

  release_slot-Fine :
      (thread i : ℕ) (s : Slot) (tls : TlsPoolCache) (w : h.World)
      → SlotOk h w s
      → Fine h thread i w s (release_slot h thread i s tls w)
  unfolding release_slot release
  release_slot-Fine thread i s tls w o =
      elim (Bool-cases (threads_equal s.owner_thread thread && is_ready s.state)) [
        | inl mine ↦ rw mine (
            kept-Fine h thread i w s o _ refl tt (λ r. absurd (let q = r in cc))
              (settled-KeepsAll w s.conn) tt)
        | inr other ↦ rw other (kept-Fine h thread i w s o _ refl o.settled o.backed (λ d l. l) tt)
      ]

  health_slot-Fine :
      (thread now i : ℕ) (s : Slot) (tls : TlsPoolCache) (w : h.World)
      → SlotOk h w s
      → Fine h thread i w s (health_slot h now i s tls w)
  unfolding health_slot try_begin_reconnect mark_ready mark_error
  health_slot-Fine thread now i s tls w o = elim (Bool-cases (is_ready s.state)) [
    | inr other ↦ rw other (kept-Fine h thread i w s o _ refl o.settled o.backed (λ d l. l) tt)
    | inl rdy ↦ elim (Bool-cases (h.reset_conn (h.stmt_cache_clear w s.conn) s.conn).1) [
      | inl ok ↦ rw (rdy, ok) (kept-Fine h thread i w s o _ refl tt (λ r. o.backed rdy) reset tt)
      | inr failed ↦
          elim (Bool-cases
            (h.reconnect_conn (h.reset_conn (h.stmt_cache_clear w s.conn) s.conn).0 s.conn).1) [
              | inl again ↦
                  rw (rdy, failed, again)
                    (kept-Fine h thread i w s o _ refl tt (λ r. o.backed rdy) reconnected tt)
              | inr lost ↦
                  rw (rdy, failed, lost)
                    (kept-Fine h thread i w s o _ refl tt (λ r. absurd (let q = r in cc))
                      reconnected tt)
            ]
    ]
  ]
    where
      reset : KeepsAll h w (h.reset_conn (h.stmt_cache_clear w s.conn) s.conn).0
      reset d l = v.keeps_reset _ s.conn d (v.keeps_clear w s.conn d l)

      reconnected :
          KeepsAll h w
            (h.reconnect_conn (h.reset_conn (h.stmt_cache_clear w s.conn) s.conn).0 s.conn).0
      reconnected d l = v.keeps_reconnect _ s.conn d (reset d l)

  within_size : (st : State h) (i : ℕ) → Sound h 0 st → i < pool_size st.pm → i < length st.pm.slots
  unfolding pool_size pool_max
  within_size st i s lt = omega (arith, lt, s.room)

  released-Sound :
      (thread : ℕ) (slot : Option ℕ) (st : State h)
      → Sound h 0 st
      → Sound h 0 (release_slot_of h thread slot st)
  released-Sound thread none st s = s
  released-Sound thread (some i) st s = elim (Bool-cases (ltb i (pool_size st.pm))) [
    | inl inside ↦ rw inside (
        (visit-Passed h 0 thread (release_slot h thread)
          (λ j t tls w o. release_slot-Fine thread j t tls w o) i st
          (within_size st i s (ground arith)) s).0)
    | inr outside ↦ rw outside s
  ]

  handle_forgotten-Good :
      (st : State h) (db : ℕ)
      → Good h st.pm.slots st.world
      → Good h st.pm.slots (h.forget_handle st.world db)
  handle_forgotten-Good st db g = record {
    ok = λ i {s = t} e. record {
      settled = (g.ok i e).settled;
      held = λ n. v.keeps_handle st.world db t.conn ((g.ok i e).held n);
      backed = (g.ok i e).backed;
    };
    apart = g.apart;
  }

  pub pool_release_for_db-Sound :
      (thread db_handle : ℕ) (st : State h)
      → Sound h 0 st
      → Sound h 0 (pool_release_for_db h thread db_handle st)
  unfolding pool_release_for_db unregister
  pool_release_for_db-Sound thread db_handle st s =
      let r =
        released-Sound thread (find db_handle st.pm.db_to_pool)
          (record st {
            pm = record (st.pm) { db_to_pool = remove db_handle st.pm.db_to_pool };
            world = h.forget_handle st.world db_handle;
          })
          (record {
            good = handle_forgotten-Good st db_handle s.good;
            within = s.within;
            room = s.room;
          }) in
      record { good = r.good; within = r.within; room = r.room }

  health_from-Sound :
      (thread now conn rounds i : ℕ) (st : State h)
      → rounds + i ≤ length st.pm.slots
      → Sound h 0 st
      → Sound h 0 (health_from h thread now conn rounds i st).0
  unfolding health_from
  health_from-Sound thread now conn zero i st le s = s
  health_from-Sound thread now conn (suc rounds) i st le s =
      elim (Bool-cases (held_by h thread conn (slot_at st.pm.slots i))) [
        | inr other ↦ rw other (health_from-Sound thread now conn rounds (i + 1) st (omega arith) s)
        | inl mine ↦ rw mine (
            (visit-Passed h 0 thread (health_slot h now)
              (λ j t tls w o. health_slot-Fine thread now j t tls w o) i st (omega (arith, le))
              s).0)
      ]

  pub pool_check_health-Sound :
      (thread now conn : ℕ) (st : State h)
      → Sound h 0 st
      → Sound h 0 (pool_check_health h thread now conn st).0
  unfolding pool_check_health pool_size pool_max
  pool_check_health-Sound thread now conn st s = elim (Bool-cases (conn == 0)) [
    | inl null ↦ rw null s
    | inr real ↦ elim (Bool-cases (h.check_conn_ok st.world conn)) [
      | inl fine ↦ rw (real, fine) s
      | inr broken ↦
          rw (real, broken)
            (health_from-Sound thread now conn (min st.pm.configured_size st.pm.configured_max_size)
              0 st (omega (arith, s.room)) s)
    ]
  ]
