-- ===== src/Pool/Acquire/Spares.antt =====
-- What the reaper leaves alone.
use plex_postgresql.Prelude.{
  ℕ, zero, suc, ◌+◌, ◌<◌, true, false, ◌==◌, ltb, List, [], some, ◌≡◌, ◌⊎◌, inl, inr, ◌∙◌, arith,
  Bool-cases, get_elem?, set, get_elem?-set_self, get_elem?-set_ne, lt_of_get_elem?,
}
use plex_postgresql.Pool.Slot.{Slot, is_free, try_claim_free}
use plex_postgresql.Pool.Registry.{Handles, references}
use plex_postgresql.Pool.Manager.{
  PoolManager, slot_at, reap_slot, reap_from, reap_idle, pool_size, slot_is_referenced,
}
use plex_postgresql.Pool.Acquire.Sound.{slot_at-some}

reap_from-spares :
    (now timeout : ℕ) (handles : Handles) (rounds i : ℕ) (slots : List Slot) (taken : List ℕ)
    (j : ℕ) {s : Slot}
    → get_elem? slots j ≡ some s
    → (reap_slot now timeout (ltb 0 (references handles j)) s).0 ≡ s
    → get_elem? (reap_from now timeout handles rounds i slots taken).0 j ≡ some s
unfolding reap_from
reap_from-spares now timeout handles zero i slots taken j here same = here
reap_from-spares now timeout handles (suc rounds) i slots taken j {s} here same =
    reap_from-spares now timeout handles rounds (i + 1) _ _ j kept same
  where
    kept :
        get_elem?
          (set slots i (reap_slot now timeout (ltb 0 (references handles i)) (slot_at slots i)).0)
          j
        ≡ some s
    kept = elim (Bool-cases (i == j)) [
      | inr other ↦ get_elem?-set_ne slots i j _ (ground arith) ∙ here
      | inl hit ↦
          let q : i ≡ j = ground arith in
          rw (q, slot_at-some slots j here, same)
            (get_elem?-set_self slots j s (lt_of_get_elem? slots j here))
    ]

-- The reaper leaves a slot as it is that is not free, that a handle references, or that has been
-- used within the timeout.
pub reap_idle-spares :
    (pm : PoolManager) (now i : ℕ) {s : Slot}
    → get_elem? pm.slots i ≡ some s
    → (is_free s.state ≡ false)
      ⊎ (slot_is_referenced pm i ≡ true)
      ⊎ (now < pm.idle_timeout_secs + s.last_used)
    → get_elem? (reap_idle pm now).0.slots i ≡ some s
unfolding reap_idle slot_is_referenced reap_slot try_claim_free
reap_idle-spares pm now i here why =
    reap_from-spares now pm.idle_timeout_secs pm.db_to_pool (pool_size pm) 0 pm.slots [] i here
      (elim why [
        | inl busy ↦ ground arith
        | inr (inl referenced) ↦ ground arith
        | inr (inr recent) ↦ ground arith
      ])
