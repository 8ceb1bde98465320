-- ===== src/Pool/Acquire/Whole.antt =====
-- pool_acquire/mod.rs and retry.rs: the acquire, from the path to the last retry.
use plex_postgresql.Prelude.{
  ℕ, zero, suc, ◌+◌, List, Option, none, some, if◌then◌else◌, ◌==◌, ltb, length,
}
use plex_postgresql.Prelude.Bytes.{Bytes}
use plex_postgresql.Pool.Manager.{pool_size}
use plex_postgresql.Pool.Path.{resolve_selected_pool_path, remember_library_path}
use plex_postgresql.Pool.Host.{Host}
use plex_postgresql.Pool.Acquire.{AcquireCtx, AcquireDecision, proceed, give, State, for_slots}
use plex_postgresql.Pool.Acquire.Phases.{
  or_else, phase1_existing_ready, phase2_slot, phase3_slot, phase4_slot, phase5_autogrow,
}
use plex_postgresql.Pool.Acquire.Maintain.{maintenance_due, reclaim_zombies_and_reap}

module _ (h : Host) where
  -- The pass over the slots that runs on the reaper's cadence.
  unfoldable pub periodic : AcquireCtx → State h → State h
  periodic ctx st = if maintenance_due st.pm ctx.now then reclaim_zombies_and_reap h ctx st else st

  -- Phases 1 to 5.
  unfoldable pub run_phases : AcquireCtx → State h → State h × AcquireDecision
  run_phases ctx st =
      or_else h
        (or_else h
          (or_else h
            (or_else h (phase1_existing_ready h ctx (periodic ctx st)) (λ st1.
              for_slots h (phase2_slot h ctx) ctx.pool_size 0 (reclaim_zombies_and_reap h ctx st1)))
            (λ st2. for_slots h (phase3_slot h ctx) ctx.pool_size 0 st2))
          (λ st3. for_slots h (phase4_slot h ctx) ctx.pool_size 0 st3))
        (λ st4. phase5_autogrow h ctx st4)

  abbrev pub remember : State h → Bytes → State h
  remember st path = record st {
    pm = record (st.pm) { library_db_path = remember_library_path st.pm.library_db_path path };
  }

  -- The state, the thread's retry count, and the connection, 0 for none.
  abbrev pub Acquired : Type 0
  Acquired = State h × ℕ × ℕ

  -- What a retry takes from outside: the delays that are configured, the time at each attempt, and
  -- what other threads do while this one sleeps.
  pub record Waiting : Type 0 where
    pub delays : List ℕ
    pub clock : ℕ → ℕ
    pub sleep : ℕ → State h → State h

  -- A retry's connection resets the count.
  abbrev pub after_retry : Option Acquired → Option Acquired
  after_retry none = none
  after_retry (some (st, count, conn)) = some (st, (if conn == 0 then count else 0), conn)

  module _ (env : Waiting) (thread : ℕ) where
    abbrev pub context : State h → ℕ → Bytes → ℕ → AcquireCtx
    context st retry_count path exclude = record {
      current_thread = thread;
      now = env.clock retry_count;
      pool_size = pool_size st.pm;
      db_path = path;
      exclude_conn = exclude;
    }

    -- What the phases decided, or what a retry brings as long as delays are left.
    abbrev pub concluded : State h × AcquireDecision → ℕ → Option Acquired → Option Acquired
    concluded (st, give conn) retry_count again = some (st, retry_count, conn)
    concluded (st, proceed) retry_count again =
        if ltb retry_count (length env.delays) then again else some (st, 0, 0)

    -- Phase 6 calls the acquire again, so the two are one recursion, on fuel; `none` is that the
    -- fuel ran out. The retry passes no connection to exclude.
    unfoldable pub acquire_on : ℕ → State h → ℕ → Bytes → ℕ → Option Acquired
    acquire_on zero st retry_count db_path exclude = none
    acquire_on (suc fuel) st retry_count db_path exclude =
        elim (resolve_selected_pool_path st.pm.library_db_path db_path) [
          | none ↦ some (st, retry_count, 0)
          | some path ↦
              let r = run_phases (context st retry_count path exclude) (remember st path) in
              concluded r retry_count
                (after_retry (acquire_on fuel (env.sleep retry_count r.0) (retry_count + 1) path 0))
        ]
