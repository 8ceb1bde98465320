-- ===== src/Pool/Acquire/Exclusion.antt =====
-- The connection that an attempt excludes is not the one it gives.
use plex_postgresql.Prelude.{ℕ, ◌≡◌, ◌≢◌, ◌⊎◌}
use plex_postgresql.Prelude.Bytes.{Bytes}
use plex_postgresql.Pool.Slot.{Slot}
use plex_postgresql.Pool.Host.{Host, IsHost}
use plex_postgresql.Pool.Acquire.{AcquireCtx, AcquireDecision, proceed, give}

module _ (h : Host) (law : IsHost h) (ctx : AcquireCtx) where
  -- The answer of a creation in a world where the excluded connection does not live any more.
  abbrev pub IsNew : ℕ → Type 0
  IsNew c =
      (w : h.World) × (path : Bytes) × ((h.create_pool_connection w path).1 ≡ c)
      × (¬ h.Live w ctx.exclude_conn)

  abbrev pub Shuns : AcquireDecision → Type 0
  Shuns proceed = Unit
  Shuns (give c) = (c ≡ 0) ⊎ ((c ≢ ctx.exclude_conn) ⊎ IsNew c)
