-- ===== src/Pool/Acquire/Sequence.antt =====
-- The phases in sequence, with the maintenance passes before them.
use plex_postgresql.Prelude.{
  ℕ, ◌≤◌, ◌<◌, ltb, leb, Option, none, some, inl, inr, arith, Bool-cases, length,
}
use plex_postgresql.Pool.TlsCache
use plex_postgresql.Pool.Manager.{pool_max}
use plex_postgresql.Pool.Host.{Host, IsHost}
use plex_postgresql.Pool.Acquire.{AcquireCtx, AcquireDecision, proceed, give, State, for_slots}
use plex_postgresql.Pool.Acquire.Phases.{
  or_else, phase1_existing_ready, fast_path, fast_slot, phase1_slot, phase2_slot, phase3_slot,
  phase4_slot, phase5_slot, phase5_autogrow,
}
use plex_postgresql.Pool.Acquire.Maintain.{maintenance_due, zombie_slot, reclaim_zombies_and_reap}
use plex_postgresql.Pool.Acquire.Whole.{periodic, run_phases}
use plex_postgresql.Pool.Acquire.Ready.{
  phase1_slot-Fine, fast_slot-Fine, phase2_slot-Fine, zombie_slot-Fine,
}
use plex_postgresql.Pool.Acquire.Fill.{phase3_slot-Fine, phase4_slot-Fine, phase5_slot-Fine}
use plex_postgresql.Pool.Acquire.Sound.{Sound, Passed, visit-Passed, for_slots-Passed}
use plex_postgresql.Pool.Acquire.Reap.{reap-Sound}

module _ (h : Host) (v : IsHost h) (ctx : AcquireCtx) (b : ℕ) (below : ctx.pool_size ≤ b) where
  reclaim-Sound : (st : State h) → Sound h b st → Sound h b (reclaim_zombies_and_reap h ctx st)
  unfolding reclaim_zombies_and_reap
  reclaim-Sound st s =
      let (swept, _) =
        for_slots-Passed h b ctx.current_thread
          (zombie_slot h ctx st.pm.idle_timeout_secs st.pm.db_to_pool)
          (λ i t tls w o.
            zombie_slot-Fine h v ctx i w t o st.pm.idle_timeout_secs st.pm.db_to_pool tls)
          ctx.pool_size 0 st (omega arith) s in
      elim (Bool-cases (
        maintenance_due
          (for_slots h (zombie_slot h ctx st.pm.idle_timeout_secs st.pm.db_to_pool) ctx.pool_size 0
            st).0.pm
          ctx.now)) [ inr early ↦ rw early swept | inl due ↦ rw due (reap-Sound h v ctx b _ swept) ]

  periodic-Sound : (st : State h) → Sound h b st → Sound h b (periodic h ctx st)
  unfolding periodic
  periodic-Sound st s = elim (Bool-cases (maintenance_due st.pm ctx.now)) [
    | inl due ↦ rw due (reclaim-Sound st s)
    | inr early ↦ rw early s
  ]

  Done : State h × AcquireDecision → Type 0
  Done r = Passed h b ctx.current_thread r

  or_else-Done :
      (r : State h × AcquireDecision) (later : State h → State h × AcquireDecision)
      → Done r
      → ((st : State h) → Sound h b st → Done (later st))
      → Done (or_else h r later)
  unfolding Done
  or_else-Done (st, proceed) later a f = f st a.0
  or_else-Done (st, give c) later a f = a

  fast_path-Done :
      (hint : Option (ℕ × ℕ)) (st : State h) → Sound h b st → Done (fast_path h ctx hint st)
  unfolding Done
  fast_path-Done none st s = (s, tt)
  fast_path-Done (some (i, generation)) st s = elim (Bool-cases (ltb i ctx.pool_size)) [
    | inl inside ↦ rw inside (
        visit-Passed h b ctx.current_thread (fast_slot h ctx generation)
          (λ j t tls w o. fast_slot-Fine h v ctx j w t o generation tls) i st
          (let lt : i < ctx.pool_size = ground arith in omega (arith, lt, s.within)) s)
    | inr outside ↦ rw outside (record { good = s.good; within = s.within; room = s.room }, tt)
  ]

  phase1-Done : (st : State h) → Sound h b st → Done (phase1_existing_ready h ctx st)
  unfolding phase1_existing_ready Done
  phase1-Done st s = or_else-Done _ _ (fast_path-Done (TlsCache.get st.tls 0) st s) (λ st' s'.
      for_slots-Passed h b ctx.current_thread (phase1_slot h ctx)
        (λ i t tls w o. phase1_slot-Fine h v ctx i w t o tls) ctx.pool_size 0 st' (omega arith) s')

  phase2-Done :
      (st : State h) → Sound h b st → Done (for_slots h (phase2_slot h ctx) ctx.pool_size 0 st)
  unfolding Done
  phase2-Done st s =
      for_slots-Passed h b ctx.current_thread (phase2_slot h ctx)
        (λ i t tls w o. phase2_slot-Fine h v ctx i w t o tls) ctx.pool_size 0 st (omega arith) s

  phase3-Done :
      (st : State h) → Sound h b st → Done (for_slots h (phase3_slot h ctx) ctx.pool_size 0 st)
  unfolding Done
  phase3-Done st s =
      for_slots-Passed h b ctx.current_thread (phase3_slot h ctx)
        (λ i t tls w o. phase3_slot-Fine h v ctx i w t o tls) ctx.pool_size 0 st (omega arith) s

  phase4-Done :
      (st : State h) → Sound h b st → Done (for_slots h (phase4_slot h ctx) ctx.pool_size 0 st)
  unfolding Done
  phase4-Done st s =
      for_slots-Passed h b ctx.current_thread (phase4_slot h ctx)
        (λ i t tls w o. phase4_slot-Fine h v ctx i w t o tls) ctx.pool_size 0 st (omega arith) s

  phase5-Done : (st : State h) → Sound h b st → Done (phase5_autogrow h ctx st)
  unfolding Done phase5_autogrow pool_max
  phase5-Done st s = elim (Bool-cases (leb st.pm.configured_max_size st.pm.configured_size)) [
    | inl full ↦ rw full (s, tt)
    | inr grows ↦ elim (Bool-cases (leb (length st.pm.slots) st.pm.configured_size)) [
      | inl past ↦ rw (grows, past) (record { good = s.good; within = s.within; room = s.room }, tt)
      | inr inside ↦
          rw (grows, inside)
            (visit-Passed h b ctx.current_thread (phase5_slot h ctx)
              (λ i t tls w o. phase5_slot-Fine h v ctx i w t o tls) st.pm.configured_size _
              (ground arith) (record { good = s.good; within = s.within; room = s.room }))
    ]
  ]

  -- The phases keep the pool sound, and what they give is held by a slot.
  pub run_phases-Passed :
      (st : State h) → Sound h b st → Passed h b ctx.current_thread (run_phases h ctx st)
  unfolding run_phases Done
  run_phases-Passed st s =
      or_else-Done _ _
        (or_else-Done _ _
          (or_else-Done _ _
            (or_else-Done _ _ (phase1-Done _ (periodic-Sound st s))
              (λ st1 s1. phase2-Done _ (reclaim-Sound st1 s1)))
            phase3-Done)
          phase4-Done)
        phase5-Done
