-- ===== src/Pool/Acquire/Fill.antt =====
-- The visits that open a connection: phases 3 to 5.
use plex_postgresql.Prelude.{
  ℕ, not, ◌&&◌, ◌==◌, if◌then◌else◌, ◌≡◌, ◌≢◌, inl, inr, refl, sym, subst, arith, Bool-cases,
}
use plex_postgresql.Pool.Slot.{
  Slot, reserved, is_free, is_error, try_claim_free_with_conn, try_claim_free, try_reclaim_error,
  mark_ready, release, next_generation,
}
use plex_postgresql.Pool.TlsCache.{TlsPoolCache}
use plex_postgresql.Pool.Host.{Host, IsHost}
use plex_postgresql.Pool.Acquire.{AcquireCtx}
use plex_postgresql.Pool.Acquire.Phases.{
  mark_ready_and_cache_slot, release_failed_new_connection, claim_slot_for_thread, fill_slot,
  phase3_slot, phase4_slot, phase5_slot,
}
use plex_postgresql.Pool.Acquire.Spec.{SlotOk, Keeps, dropped-Fine, filled-Fine}
use plex_postgresql.Pool.Acquire.Ready.{Visited, stay-Fine, freed-Fine}

module _ (h : Host) (v : IsHost h) (ctx : AcquireCtx) (i : ℕ) (w : h.World) (s : Slot)
    (o : SlotOk h w s) where
  -- The slot under a claim, with a connection in it.
  abbrev claimed : ℕ → Slot
  claimed conn = record s {
    conn = conn;
    owner_thread = ctx.current_thread;
    last_used = ctx.now;
    state = reserved;
    generation = next_generation s.generation;
  }

  module _ (between : h.World) (before : Keeps h w between s.conn) where
    abbrev made : h.World
    made = (h.create_pool_connection between ctx.db_path).0

    abbrev new_conn : ℕ
    new_conn = (h.create_pool_connection between ctx.db_path).1

    failed-Keeps :
        Keeps h w (if new_conn == 0 then made else h.destroy_pool_connection made new_conn) s.conn
    failed-Keeps d ne l =
        let still = v.keeps_create between ctx.db_path d (before d ne l) in
        elim (Bool-cases (new_conn == 0)) [
          | inl null ↦ rw null still
          | inr real ↦ rw real (
              v.keeps_destroy made new_conn d
                (λ e.
                  v.fresh between ctx.db_path (ground arith)
                    (subst (h.Live between) e (before d ne l)))
                still)
        ]

    fill_slot-Fine :
        (tls : TlsPoolCache) → Visited h v ctx i w s o (fill_slot h ctx i (claimed 0) tls between)
    unfolding fill_slot mark_ready_and_cache_slot mark_ready release_failed_new_connection release
    fill_slot-Fine tls = elim (Bool-cases (not (new_conn == 0) && h.is_pg_active made new_conn)) [
      | inl active ↦
          let n : new_conn ≢ 0 = ground arith in
          rw active (
            filled-Fine h _ _ w s o _ between refl n before (v.fresh between ctx.db_path n)
              (λ d l. v.keeps_create between ctx.db_path d l) (v.created between ctx.db_path n)
              (λ m. (refl, refl, refl, refl)))
      | inr failed ↦ rw failed (dropped-Fine h _ _ w s o _ refl refl refl failed-Keeps)
    ]

  -- A claim of a free slot that has no connection, and what follows.
  pub phase5_slot-Fine :
      (tls : TlsPoolCache) → Visited h v ctx i w s o (phase5_slot h ctx i s tls w)
  unfolding phase5_slot try_claim_free_with_conn try_claim_free claim_slot_for_thread
  phase5_slot-Fine tls = elim (Bool-cases (is_free s.state)) [
    | inr taken ↦ rw taken (stay-Fine h v ctx i w s o tls)
    | inl idle ↦ elim (Bool-cases (s.conn == 0)) [
      | inr full ↦ rw (idle, full) (freed-Fine h v ctx i w s o tls)
      | inl vacant ↦
          let none_held : s.conn ≡ 0 = ground arith in
          rw (idle, vacant)
            (subst (λ c. Visited h v ctx i w s o (fill_slot h ctx i (claimed c) tls w))
              (sym none_held) (fill_slot-Fine w (λ d ne l. l) tls))
    ]
  ]

  pub phase3_slot-Fine :
      (tls : TlsPoolCache) → Visited h v ctx i w s o (phase3_slot h ctx i s tls w)
  unfolding phase3_slot phase5_slot
  phase3_slot-Fine tls = elim (Bool-cases (s.conn == 0)) [
    | inr full ↦ rw full (stay-Fine h v ctx i w s o tls)
    | inl vacant ↦ rw vacant (phase5_slot-Fine tls)
  ]

  pub phase4_slot-Fine :
      (tls : TlsPoolCache) → Visited h v ctx i w s o (phase4_slot h ctx i s tls w)
  unfolding phase4_slot try_reclaim_error claim_slot_for_thread
  phase4_slot-Fine tls = elim (Bool-cases (is_error s.state)) [
    | inr other ↦ rw other (stay-Fine h v ctx i w s o tls)
    | inl broken ↦ rw broken (fill_slot-Fine old_gone old_gone-Keeps tls)
  ]
    where
      old_gone : h.World
      old_gone = if s.conn == 0 then w else h.destroy_pool_connection w s.conn

      old_gone-Keeps : Keeps h w old_gone s.conn
      old_gone-Keeps d ne l = elim (Bool-cases (s.conn == 0)) [
        | inl null ↦ rw null l
        | inr real ↦ rw real (v.keeps_destroy w s.conn d ne l)
      ]
