-- ===== src/Pool/Acquire/Ready.antt =====
-- The visits that keep a slot's connection: phases 1 and 2, and the zombie pass.
use plex_postgresql.Prelude.{
  ℕ, true, not, ◌&&◌, ◌||◌, ◌==◌, ltb, ◌≡◌, ◌≢◌, ◌⊎◌, inl, inr, refl, sym, ap, ◌∙◌, subst, arith,
  Bool-cases,
}
use plex_postgresql.Pool.Slot.{
  Slot, SlotState, free, reserved, ready, reconnecting, error, is_ready, is_free, threads_equal,
  try_begin_reconnect, try_claim_free_with_conn, try_claim_free, try_reclaim_zombie, mark_ready,
  mark_error, next_generation,
}
use plex_postgresql.Pool.TlsCache.{TlsPoolCache}
use plex_postgresql.Pool.TlsCache
use plex_postgresql.Pool.Registry.{Handles, references}
use plex_postgresql.Pool.Manager.{zombie_reclaimable}
use plex_postgresql.Pool.Host.{Host, IsHost}
use plex_postgresql.Pool.Acquire.{AcquireCtx, proceed, give, Visit}
use plex_postgresql.Pool.Acquire.Phases.{
  next, owned_ready, fast_usable, cache_existing_ready_slot, mark_ready_and_cache_slot,
  claim_slot_for_thread, phase1_reconnect, phase1_slot, fast_slot, roll_back_abandoned,
  phase2_restore, phase2_slot,
}
use plex_postgresql.Pool.Acquire.Maintain.{zombie_slot}
use plex_postgresql.Pool.Acquire.Spec.{Settled, SlotOk, KeepsAll, Fine, kept-Fine}

same_thread : (a b : ℕ) → threads_equal a b ≡ true → a ≡ b
unfolding threads_equal
same_thread a b e = ground arith

ready_of : (st : SlotState) → is_ready st ≡ true → st ≡ ready
ready_of free e = cc
ready_of reserved e = cc
ready_of ready e = refl
ready_of reconnecting e = cc
ready_of error e = cc

module _ (h : Host) (v : IsHost h) where
  pub rolled_back-KeepsAll : (w : h.World) (c : ℕ) → KeepsAll h w (roll_back_abandoned h c w)
  rolled_back-KeepsAll w c d l =
      elim (Bool-cases (h.get_txn_status w c == 2 || h.get_txn_status w c == 3)) [
        | inl open_txn ↦ rw open_txn (v.keeps_roll_back w c d l)
        | inr none_open ↦ rw none_open l
      ]

module _ (h : Host) (v : IsHost h) (ctx : AcquireCtx) (i : ℕ) (w : h.World) (s : Slot)
    (o : SlotOk h w s) where
  abbrev pub Visited : Visit h → Type 0
  Visited x = Fine h ctx.current_thread i w s x

  pub next-Fine : (tls : TlsPoolCache) {w' : h.World} → KeepsAll h w w' → Visited (next h s tls w')
  next-Fine tls k = kept-Fine h _ _ w s o _ refl o.settled o.backed k tt

  pub stay-Fine : (tls : TlsPoolCache) → Visited (next h s tls w)
  stay-Fine tls = next-Fine tls (λ d l. l)

  -- Freed again, with what it holds.
  pub freed-Fine : (tls : TlsPoolCache) → Visited (next h (record s { state = free }) tls w)
  freed-Fine tls = kept-Fine h _ _ w s o _ refl tt (λ r. absurd (let q = r in cc)) (λ d l. l) tt

  cache_existing-Fine :
      (tls : TlsPoolCache)
      → is_ready s.state ≡ true
      → threads_equal s.owner_thread ctx.current_thread ≡ true
      → Visited (cache_existing_ready_slot h ctx i s s.conn tls w)
  unfolding cache_existing_ready_slot
  cache_existing-Fine tls rdy own =
      kept-Fine h _ _ w s o _ refl o.settled o.backed (λ d l. l)
        (λ n. (ready_of s.state rdy, refl, same_thread _ _ own, refl))

  -- The slot is made ready again, for this thread.
  made_ready-Fine :
      (s' : Slot) (tls : TlsPoolCache) {w' : h.World}
      → s'.conn ≡ s.conn
      → s'.owner_thread ≡ ctx.current_thread
      → s.conn ≢ 0
      → KeepsAll h w w'
      → Visited (mark_ready_and_cache_slot h i s' s.conn tls w')
  unfolding mark_ready_and_cache_slot mark_ready
  made_ready-Fine s' tls same mine n k =
      kept-Fine h _ _ w s o _ same tt (λ r z. n (sym same ∙ z)) k (λ m. (refl, same, mine, refl))

  -- The slot is given up for phase 4.
  failed-Fine :
      (s' : Slot) (x : Visit h)
      → x.slot ≡ mark_error s'
      → s'.conn ≡ s.conn
      → KeepsAll h w x.world
      → (x.decision ≡ proceed) ⊎ (x.decision ≡ give 0)
      → Visited x
  unfolding mark_error
  failed-Fine s' x e same k d =
      kept-Fine h _ _ w s o x (ap (λ t. t.conn) e ∙ same) (subst (λ t. Settled t.state) (sym e) tt)
        (λ r. absurd (let q = ap (λ t. is_ready t.state) (sym e) ∙ r in cc)) k
        (elim d [ inl p ↦ rw p tt | inr p ↦ rw p (λ n. absurd (n refl)) ])

  phase1_reconnect-Fine :
      (tls : TlsPoolCache)
      → is_ready s.state ≡ true
      → threads_equal s.owner_thread ctx.current_thread ≡ true
      → Visited (phase1_reconnect h ctx i s tls w)
  unfolding phase1_reconnect try_begin_reconnect
  phase1_reconnect-Fine tls rdy own =
      elim (Bool-cases (h.reconnect_conn (h.stmt_cache_clear w s.conn) s.conn).1) [
        | inl ok ↦
            rw (rdy, ok)
              (made_ready-Fine (record s { state = reconnecting }) tls refl (same_thread _ _ own)
                (o.backed rdy) again)
        | inr failed ↦
            rw (rdy, failed)
              (failed-Fine (record s { state = reconnecting }) _ refl refl again (inr refl))
      ]
    where
      again : KeepsAll h w (h.reconnect_conn (h.stmt_cache_clear w s.conn) s.conn).0
      again d l = v.keeps_reconnect _ s.conn d (v.keeps_clear w s.conn d l)

  pub phase1_slot-Fine : (tls : TlsPoolCache) → Visited (phase1_slot h ctx i s tls w)
  unfolding phase1_slot
  phase1_slot-Fine tls = elim (Bool-cases (owned_ready h ctx s)) [
    | inr other ↦ rw other (stay-Fine tls)
    | inl owned ↦
        let rdy : is_ready s.state ≡ true = ground arith in
        let own : threads_equal s.owner_thread ctx.current_thread ≡ true = ground arith in
        elim (Bool-cases (s.conn == ctx.exclude_conn)) [
          | inl excluded ↦ rw (owned, excluded) (stay-Fine tls)
          | inr wanted ↦ elim (Bool-cases (not (s.conn == 0) && h.check_conn_ok w s.conn)) [
            | inr broken ↦ rw (owned, wanted, broken) (phase1_reconnect-Fine tls rdy own)
            | inl sound ↦ elim (Bool-cases (h.is_streaming_active w s.conn)) [
              | inl busy ↦ rw (owned, wanted, sound, busy) (stay-Fine tls)
              | inr quiet ↦ rw (owned, wanted, sound, quiet) (cache_existing-Fine tls rdy own)
            ]
          ]
        ]
  ]

  pub fast_slot-Fine :
      (generation : ℕ) (tls : TlsPoolCache) → Visited (fast_slot h ctx generation i s tls w)
  unfolding fast_slot
  fast_slot-Fine generation tls = elim (Bool-cases (fast_usable h ctx s generation w)) [
    | inl usable ↦ rw usable (cache_existing-Fine tls (ground arith) (ground arith))
    | inr other ↦ rw other (stay-Fine TlsCache.empty)
  ]

  abbrev claimed : Slot
  claimed = record s {
    owner_thread = ctx.current_thread;
    last_used = ctx.now;
    state = reserved;
    generation = next_generation s.generation;
  }

  abbrev cleared : h.World
  cleared = h.stmt_cache_clear (roll_back_abandoned h s.conn w) s.conn

  abbrev w1 : h.World
  w1 = (h.reset_conn cleared s.conn).0

  phase2_restore-Fine :
      (tls : TlsPoolCache) → s.conn ≢ 0 → Visited (phase2_restore h i claimed tls w)
  unfolding phase2_restore
  phase2_restore-Fine tls n = elim (Bool-cases (h.reset_conn cleared s.conn).1) [
    | inl ok ↦ rw ok (made_ready-Fine claimed tls refl refl n reset)
    | inr failed ↦
        elim (Bool-cases (
          (h.reconnect_conn (h.stmt_cache_clear w1 s.conn) s.conn).1
          && h.is_pg_active (h.reconnect_conn (h.stmt_cache_clear w1 s.conn) s.conn).0 s.conn)) [
            | inl again ↦ rw (failed, again) (made_ready-Fine claimed tls refl refl n reconnected)
            | inr lost ↦ rw (failed, lost) (failed-Fine claimed _ refl refl reconnected (inl refl))
          ]
  ]
    where
      reset : KeepsAll h w w1
      reset d l =
          v.keeps_reset _ s.conn d
            (v.keeps_clear _ s.conn d (rolled_back-KeepsAll h v w s.conn d l))

      reconnected : KeepsAll h w (h.reconnect_conn (h.stmt_cache_clear w1 s.conn) s.conn).0
      reconnected d l = v.keeps_reconnect _ s.conn d (v.keeps_clear _ s.conn d (reset d l))

  pub phase2_slot-Fine : (tls : TlsPoolCache) → Visited (phase2_slot h ctx i s tls w)
  unfolding phase2_slot try_claim_free_with_conn try_claim_free claim_slot_for_thread
  phase2_slot-Fine tls =
      elim (Bool-cases
        (s.conn == 0 || s.conn == ctx.exclude_conn || h.is_streaming_active w s.conn)) [
          | inl no_use ↦ rw no_use (stay-Fine tls)
          | inr usable ↦ elim (Bool-cases (is_free s.state)) [
            | inr taken ↦ rw (usable, taken) (stay-Fine tls)
            | inl idle ↦
                let same : (s.conn == s.conn) ≡ true = ground arith in
                rw (usable, idle, same) (phase2_restore-Fine tls (ground arith))
          ]
        ]

  pub zombie_slot-Fine :
      (idle_timeout : ℕ) (handles : Handles) (tls : TlsPoolCache)
      → Visited (zombie_slot h ctx idle_timeout handles i s tls w)
  unfolding zombie_slot try_reclaim_zombie
  zombie_slot-Fine idle_timeout handles tls = elim (Bool-cases (is_ready s.state)) [
    | inr other ↦ rw other (stay-Fine tls)
    | inl rdy ↦
        elim (Bool-cases
          (zombie_reclaimable (ltb 0 (references handles i)) ctx.now s.last_used idle_timeout)) [
            | inr wanted ↦ rw (rdy, wanted) (stay-Fine tls)
            | inl unused ↦ elim (Bool-cases (not (s.conn == 0) && h.is_streaming_active w s.conn)) [
              | inl busy ↦ rw (rdy, unused, busy) (stay-Fine tls)
              | inr quiet ↦ rw (rdy, unused, quiet) (freed-Fine tls)
            ]
          ]
  ]
