-- ===== src/Pool/Acquire.antt =====
-- pg_client/pool_acquire/: the phases of an acquire, run by one thread without interference.
pub mod Phases
pub mod Whole
pub mod Maintain
pub mod Spec
pub mod Ready
pub mod Fill
pub mod Sound
pub mod Reap
pub mod Spares
pub mod Sequence
pub mod Total
pub mod Exclusion
use plex_postgresql.Prelude.{
  ℕ, zero, suc, ◌+◌, Bool, true, false, ◌&&◌, ◌||◌, not, List, [], ◌∷◌, Option, none, some,
  if◌then◌else◌, ◌==◌, ltb, leb, set, length,
}
use plex_postgresql.Prelude.Bytes.{Bytes}
use plex_postgresql.Pool.Slot.{Slot}
use plex_postgresql.Pool.TlsCache.{TlsPoolCache}
use plex_postgresql.Pool.Manager.{PoolManager, slot_at}
use plex_postgresql.Pool.Host.{Host}

-- `AcquireCtx`, less the manager. `pool_size` is the size when the acquire began.
pub record AcquireCtx : Type 0 where
  pub current_thread : ℕ
  pub now : ℕ
  pub pool_size : ℕ
  pub db_path : Bytes
  pub exclude_conn : ℕ

pub data AcquireDecision : Type 0 where
  proceed : AcquireDecision
  give : ℕ → AcquireDecision

module _ (h : Host) where
  -- The pool, the calling thread's cache, and the connections.
  pub record State : Type 0 where
    pub pm : PoolManager
    pub tls : TlsPoolCache
    pub world : h.World

  -- What a phase does at one slot.
  pub record Visit : Type 0 where
    pub slot : Slot
    pub tls : TlsPoolCache
    pub world : h.World
    pub decision : AcquireDecision

  abbrev pub Visitor : Type 0
  Visitor = ℕ → Slot → TlsPoolCache → h.World → Visit

  -- The visit of slot `i`, written back.
  unfoldable pub visit : Visitor → ℕ → State → State × AcquireDecision
  visit body i st =
      let v = body i (slot_at st.pm.slots i) st.tls st.world in
      (
        record {
          pm = record (st.pm) { slots = set st.pm.slots i v.slot };
          tls = v.tls;
          world = v.world;
        },
        v.decision,
      )

  -- `for i in 0..pool_size`: the slots in order, until a visit decides.
  pub for_slots : Visitor → ℕ → ℕ → State → State × AcquireDecision
  for_slots body zero i st = (st, proceed)
  for_slots body (suc rounds) i st =
      let (st', decision) = visit body i st in
      let rest = for_slots body rounds (i + 1) st' in
      elim decision [ proceed ↦ rest | give c ↦ (st', give c) ]
