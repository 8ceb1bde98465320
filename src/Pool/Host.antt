-- ===== src/Pool/Host.antt =====
-- What the pool does with a connection (pg_client/connection_lifecycle.rs, connection_helpers.rs and
-- the statement cache, over libpq), as operations on an abstract state of the connections.
use plex_postgresql.Prelude.{ℕ, Bool, ◌≢◌}
use plex_postgresql.Prelude.Bytes.{Bytes}

pub record Host : Type 1 where
  pub World : Type 0
  -- The struct behind a pointer has been made and not yet destroyed.
  pub Live : World → ℕ → Type 0
  pub check_conn_ok : World → ℕ → Bool
  pub is_streaming_active : World → ℕ → Bool
  pub is_pg_active : World → ℕ → Bool
  pub get_txn_status : World → ℕ → ℕ
  pub stmt_cache_clear : World → ℕ → World
  pub roll_back : World → ℕ → World
  pub cancel_and_drain : World → ℕ → World
  pub forget_transaction : World → ℕ → World
  pub forget_handle : World → ℕ → World
  pub reset_conn : World → ℕ → World × Bool
  pub reconnect_conn : World → ℕ → World × Bool
  pub create_pool_connection : World → Bytes → World × ℕ
  pub destroy_pool_connection : World → ℕ → World

-- What the pool relies on: a connection lives from its creation to its destruction, whatever else is
-- done with it, and a new one is not one that still lives.
pub record IsHost (h : Host) : Type 0 where
  pub keeps_clear : (w : h.World) (c d : ℕ) → h.Live w d → h.Live (h.stmt_cache_clear w c) d
  pub keeps_roll_back : (w : h.World) (c d : ℕ) → h.Live w d → h.Live (h.roll_back w c) d
  pub keeps_drain : (w : h.World) (c d : ℕ) → h.Live w d → h.Live (h.cancel_and_drain w c) d
  pub keeps_forget : (w : h.World) (c d : ℕ) → h.Live w d → h.Live (h.forget_transaction w c) d
  pub keeps_handle : (w : h.World) (db d : ℕ) → h.Live w d → h.Live (h.forget_handle w db) d
  pub keeps_reset : (w : h.World) (c d : ℕ) → h.Live w d → h.Live (h.reset_conn w c).0 d
  pub keeps_reconnect : (w : h.World) (c d : ℕ) → h.Live w d → h.Live (h.reconnect_conn w c).0 d
  pub keeps_create :
      (w : h.World) (path : Bytes) (d : ℕ)
      → h.Live w d
      → h.Live (h.create_pool_connection w path).0 d
  pub keeps_destroy :
      (w : h.World) (c d : ℕ) → d ≢ c → h.Live w d → h.Live (h.destroy_pool_connection w c) d
  pub created :
      (w : h.World) (path : Bytes)
      → (h.create_pool_connection w path).1 ≢ 0
      → h.Live (h.create_pool_connection w path).0 (h.create_pool_connection w path).1
  pub fresh :
      (w : h.World) (path : Bytes)
      → (h.create_pool_connection w path).1 ≢ 0
      → ¬ h.Live w (h.create_pool_connection w path).1
