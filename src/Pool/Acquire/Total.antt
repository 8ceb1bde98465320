-- ===== src/Pool/Acquire/Total.antt =====
-- The acquire as a whole: it ends, keeps the pool sound, and gives what a slot holds.
use plex_postgresql.Prelude.{
  ℕ, zero, suc, ◌+◌, ◌≤◌, ◌<◌, ◌==◌, ltb, some, if◌then◌else◌, ◌≡◌, ◌⊎◌, inl, inr, refl, sym, ◌∙◌,
  subst, arith, Bool-cases, Option-cases, length, replicate, get_elem?, length-replicate,
  lt_of_get_elem?, get_elem?-replicate, max,
}
use plex_postgresql.Prelude.Bytes.{Bytes}
use plex_postgresql.Pool.Slot.{Slot, new_slot}
use plex_postgresql.Pool.TlsCache.{TlsPoolCache}
use plex_postgresql.Pool.Manager.{pool_size, pool_max, new}
use plex_postgresql.Pool.Path.{resolve_selected_pool_path}
use plex_postgresql.Pool.Host.{Host, IsHost}
use plex_postgresql.Pool.Acquire.{AcquireDecision, proceed, give, State}
use plex_postgresql.Pool.Acquire.Whole.{
  run_phases, Acquired, Waiting, context, acquire_on, remember,
}
use plex_postgresql.Pool.Acquire.Spec.{SlotOk}
use plex_postgresql.Pool.Acquire.Sound.{Sound, Answered, Passed}
use plex_postgresql.Pool.Acquire.Sequence.{run_phases-Passed}

decision-cases : (d : AcquireDecision) → (d ≡ proceed) ⊎ ((c : ℕ) × (d ≡ give c))
decision-cases proceed = inl refl
decision-cases (give c) = inr (c, refl)

-- The pool that starts is sound: it holds no connection.
pub new-Sound :
    (h : Host) (size most : ℕ) (tls : TlsPoolCache) (w : h.World)
    → Sound h 0 (record { pm = new size most; tls = tls; world = w })
unfolding new new_slot
new-Sound h size most tls w = record {
  good = record {
    ok = λ i {s} e.
        let q : new_slot ≡ s = fresh_slot i e in
        subst (SlotOk h w) q (record {
          settled = tt;
          held = λ n. absurd (n refl);
          backed = λ r. absurd (let p = r in cc);
        });
    apart = λ i j {s} {t} e e' ne n. absurd (n (subst (λ x. x.conn ≡ 0) (fresh_slot i e) refl));
  };
  within = omega arith;
  room = omega (arith, length-replicate (max most 1) new_slot);
}
  where
    fresh_slot :
        (i : ℕ) {s : Slot} → get_elem? (replicate (max most 1) new_slot) i ≡ some s → new_slot ≡ s
    fresh_slot i {s} e =
        let inside = lt_of_get_elem? (replicate (max most 1) new_slot) i e in
        let hit =
          get_elem?-replicate (max most 1) i new_slot
            (omega (arith, length-replicate (max most 1) new_slot, inside)) in
        let r : some new_slot ≡ some s = sym hit ∙ e in ground (arith, r)

module _ (h : Host) (v : IsHost h) (env : Waiting h) (thread : ℕ)
    (quiet : (n : ℕ) (st : State h) → Sound h 0 st → Sound h 0 (env.sleep n st)) where
  sized-Sound : (st : State h) → Sound h 0 st → Sound h (pool_size st.pm) st
  unfolding pool_size pool_max
  sized-Sound st s = record { good = s.good; within = omega (arith, s.room); room = s.room }

  unsized-Sound : (b : ℕ) (st : State h) → Sound h b st → Sound h 0 st
  unsized-Sound b st s = record { good = s.good; within = omega arith; room = s.room }

  abbrev pub Served : Acquired h → Type 0
  Served r = Sound h 0 r.0 × Answered h thread r.0 (give r.2)

  phases-Passed :
      (st : State h) (retry_count : ℕ) (path : Bytes) (exclude : ℕ)
      → Sound h 0 st
      → Passed h
          (pool_size st.pm)
          thread
          (run_phases h (context h env thread st retry_count path exclude) (remember h st path))
  phases-Passed st retry_count path exclude s =
      run_phases-Passed h v (context h env thread st retry_count path exclude) (pool_size st.pm)
        (omega arith) (remember h st path)
        (let t = sized-Sound st s in record { good = t.good; within = t.within; room = t.room })

  -- With one round of fuel for each delay that is left and one more, the acquire ends; the pool is
  -- sound after it, and a connection that it gives is held by a ready slot of this thread, which the
  -- thread's cache names, as long as the pool was sound before and is sound after each sleep if it
  -- was before.
  pub acquire_on-Served :
      (fuel : ℕ) (st : State h) (retry_count : ℕ) (db_path : Bytes) (exclude : ℕ)
      → 0 < fuel
      → length env.delays + 1 ≤ fuel + retry_count
      → Sound h 0 st
      → (r : Acquired h) × (acquire_on h env thread fuel st retry_count db_path exclude ≡ some r)
        × Served r
  unfolding acquire_on
  acquire_on-Served zero st retry_count db_path exclude some_fuel enough s = absurd (omega arith)
  acquire_on-Served (suc fuel) st retry_count db_path exclude some_fuel enough s =
      elim (Option-cases (resolve_selected_pool_path st.pm.library_db_path db_path)) [
        | inl no_path ↦ ((st, retry_count, 0), rw (no_path, acquire_on) refl, (s, inl refl))
        | inr (path, found) ↦
            let phases =
              run_phases h (context h env thread st retry_count path exclude)
                (remember h st path) in
            let (after, answer) = phases-Passed st retry_count path exclude s in
            let sound = unsized-Sound _ phases.0 after in
            elim (decision-cases phases.1) [
              | inr (c, given) ↦ (
                (phases.0, retry_count, c),
                rw (found, acquire_on, given) refl,
                (sound, subst (Answered h thread phases.0) given answer),
              )
              | inl goes_on ↦ elim (Bool-cases (ltb retry_count (length env.delays))) [
                | inr exhausted ↦ (
                  (phases.0, 0, 0),
                  rw (found, acquire_on, goes_on, exhausted) refl,
                  (sound, inl refl),
                )
                | inl waits ↦
                    let lt : retry_count < length env.delays = ground arith in
                    let ((st', count, conn), e, (sound', answer')) =
                      acquire_on-Served fuel (env.sleep retry_count phases.0) (retry_count + 1) path
                        0 (omega (arith, lt, enough)) (omega (arith, enough))
                        (quiet retry_count phases.0 sound) in
                    (
                      (st', (if conn == 0 then count else 0), conn),
                      rw (found, acquire_on, goes_on, waits, e) refl,
                      (sound', answer'),
                    )
              ]
            ]
      ]
