-- ===== src/Pool/Acquire/Phases.antt =====
-- pg_client/pool_acquire/phases: what each phase does at one slot, and the five phases.
use plex_postgresql.Prelude.{
  ℕ, ◌+◌, Bool, ◌&&◌, ◌||◌, not, Option, none, some, if◌then◌else◌, ◌==◌, ltb, leb, length,
}
use plex_postgresql.Pool.Slot.{
  Slot, is_ready, try_claim_free_with_conn, try_begin_reconnect, try_reclaim_error, mark_ready,
  mark_error, release, next_generation, threads_equal,
}
use plex_postgresql.Pool.TlsCache.{TlsPoolCache}
use plex_postgresql.Pool.TlsCache
use plex_postgresql.Pool.Manager.{pool_max}
use plex_postgresql.Pool.Host.{Host}
use plex_postgresql.Pool.Acquire.{
  AcquireCtx, AcquireDecision, proceed, give, State, Visit, Visitor, visit, for_slots,
}

unfoldable pub claim_slot_for_thread : AcquireCtx → Slot → Slot
claim_slot_for_thread ctx s = record s {
  owner_thread = ctx.current_thread;
  last_used = ctx.now;
  generation = next_generation s.generation;
}

module _ (h : Host) where
  -- `continue`, with the slot as it is now.
  abbrev pub next : Slot → TlsPoolCache → h.World → Visit h
  next s tls w = record { slot = s; tls = tls; world = w; decision = proceed }

  unfoldable pub cache_existing_ready_slot :
      AcquireCtx → ℕ → Slot → ℕ → TlsPoolCache → h.World → Visit h
  cache_existing_ready_slot ctx idx s conn tls w = record {
    slot = record s { last_used = ctx.now };
    tls = TlsCache.set 0 idx s.generation;
    world = w;
    decision = give conn;
  }

  unfoldable pub mark_ready_and_cache_slot : ℕ → Slot → ℕ → TlsPoolCache → h.World → Visit h
  mark_ready_and_cache_slot idx s conn tls w = record {
    slot = mark_ready s;
    tls = TlsCache.set 0 idx s.generation;
    world = w;
    decision = give conn;
  }

  unfoldable pub release_failed_new_connection : Slot → ℕ → TlsPoolCache → h.World → Visit h
  release_failed_new_connection s new_conn tls w =
      let w' = if new_conn == 0 then w else h.destroy_pool_connection w new_conn in
      next (release (record s { conn = 0; owner_thread = 0 })) tls w'

  -- The three tests on a slot's connection that both halves of phase 1 make.
  abbrev pub serves : AcquireCtx → ℕ → h.World → Bool
  serves ctx conn w =
      not (conn == ctx.exclude_conn)
      && not (conn == 0)
      && h.check_conn_ok w conn
      && not (h.is_streaming_active w conn)

  abbrev pub owned_ready : AcquireCtx → Slot → Bool
  owned_ready ctx s = is_ready s.state && threads_equal s.owner_thread ctx.current_thread

  -- A connection of this thread that no longer answers.
  unfoldable pub phase1_reconnect : AcquireCtx → Visitor h
  phase1_reconnect ctx i s tls w =
      let (s', began) = try_begin_reconnect s in
      if not began
      then next s' tls w
      else (let (w', ok) = h.reconnect_conn (h.stmt_cache_clear w s.conn) s.conn in
          if ok
          then mark_ready_and_cache_slot i s' s.conn tls w'
          else record { slot = mark_error s'; tls = tls; world = w'; decision = give 0 })

  unfoldable pub phase1_slot : AcquireCtx → Visitor h
  phase1_slot ctx i s tls w =
      if not (owned_ready ctx s)
      then next s tls w
      else if s.conn == ctx.exclude_conn
      then next s tls w
      else if not (s.conn == 0) && h.check_conn_ok w s.conn
      then (if h.is_streaming_active w s.conn
          then next s tls w
          else cache_existing_ready_slot ctx i s s.conn tls w)
      else phase1_reconnect ctx i s tls w

  -- The slot that the thread's cache names, if it may be used as it is.
  abbrev pub fast_usable : AcquireCtx → Slot → ℕ → h.World → Bool
  fast_usable ctx s generation w =
      is_ready s.state
      && s.generation == generation
      && threads_equal s.owner_thread ctx.current_thread
      && serves ctx s.conn w

  unfoldable pub fast_slot : AcquireCtx → ℕ → Visitor h
  fast_slot ctx generation i s tls w =
      if fast_usable ctx s generation w
      then cache_existing_ready_slot ctx i s s.conn tls w
      else next s TlsCache.empty w

  abbrev pub fast_path : AcquireCtx → Option (ℕ × ℕ) → State h → State h × AcquireDecision
  fast_path ctx none st = (st, proceed)
  fast_path ctx (some (idx, generation)) st =
      if ltb idx ctx.pool_size
      then visit h (fast_slot ctx generation) idx st
      else (record st { tls = TlsCache.empty }, proceed)

  -- A later phase runs where the earlier one has not decided.
  abbrev pub or_else :
      State h × AcquireDecision → (State h → State h × AcquireDecision) → State h × AcquireDecision
  or_else (st, proceed) later = later st
  or_else (st, give c) later = (st, give c)

  unfoldable pub phase1_existing_ready : AcquireCtx → State h → State h × AcquireDecision
  phase1_existing_ready ctx st =
      or_else (fast_path ctx (TlsCache.get st.tls 0) st)
        (λ st'. for_slots h (phase1_slot ctx) ctx.pool_size 0 st')

  -- A transaction that is still open on a free slot is rolled back.
  abbrev pub roll_back_abandoned : ℕ → h.World → h.World
  roll_back_abandoned conn w =
      let txn = h.get_txn_status w conn in if txn == 2 || txn == 3 then h.roll_back w conn else w

  unfoldable pub phase2_restore : Visitor h
  phase2_restore i s tls w =
      let (w1, was_reset) =
        h.reset_conn (h.stmt_cache_clear (roll_back_abandoned s.conn w) s.conn) s.conn in
      if was_reset
      then mark_ready_and_cache_slot i s s.conn tls w1
      else (let (w2, again) = h.reconnect_conn (h.stmt_cache_clear w1 s.conn) s.conn in
          if again && h.is_pg_active w2 s.conn
          then mark_ready_and_cache_slot i s s.conn tls w2
          else next (mark_error s) tls w2)

  unfoldable pub phase2_slot : AcquireCtx → Visitor h
  phase2_slot ctx i s tls w =
      if s.conn == 0 || s.conn == ctx.exclude_conn || h.is_streaming_active w s.conn
      then next s tls w
      else (let (s', claimed) = try_claim_free_with_conn s s.conn in
          if claimed then phase2_restore i (claim_slot_for_thread ctx s') tls w else next s' tls w)

  -- A claimed slot without a connection gets a new one, or goes back.
  unfoldable pub fill_slot : AcquireCtx → Visitor h
  fill_slot ctx i s tls w =
      let (w', new_conn) = h.create_pool_connection w ctx.db_path in
      if not (new_conn == 0) && h.is_pg_active w' new_conn
      then mark_ready_and_cache_slot i (record s { conn = new_conn }) new_conn tls w'
      else release_failed_new_connection s new_conn tls w'

  unfoldable pub phase3_slot : AcquireCtx → Visitor h
  phase3_slot ctx i s tls w =
      if not (s.conn == 0)
      then next s tls w
      else (let (s', claimed) = try_claim_free_with_conn s 0 in
          if claimed then fill_slot ctx i (claim_slot_for_thread ctx s') tls w else next s' tls w)

  unfoldable pub phase4_slot : AcquireCtx → Visitor h
  phase4_slot ctx i s tls w =
      let (s', claimed) = try_reclaim_error s in
      if not claimed
      then next s' tls w
      else (let mine = claim_slot_for_thread ctx s' in
          let w' = if mine.conn == 0 then w else h.destroy_pool_connection w mine.conn in
          fill_slot ctx i (record mine { conn = 0 }) tls w')

  unfoldable pub phase5_slot : AcquireCtx → Visitor h
  phase5_slot ctx i s tls w =
      let (s', claimed) = try_claim_free_with_conn s 0 in
      if claimed then fill_slot ctx i (claim_slot_for_thread ctx s') tls w else next s' tls w

  -- One slot more, if the maximum allows it. The exchange of the size succeeds: no other thread runs.
  unfoldable pub phase5_autogrow : AcquireCtx → State h → State h × AcquireDecision
  phase5_autogrow ctx st =
      let current_size = st.pm.configured_size in
      if leb (pool_max st.pm) current_size
      then (st, proceed)
      else (let st' = record st { pm = record (st.pm) { configured_size = current_size + 1 } } in
          if leb (length st.pm.slots) current_size
          then (st', proceed)
          else visit h (phase5_slot ctx) current_size st')
