-- ===== src/ErrorClass.antt =====
-- pg_client/error_class.rs and the SQLSTATE tests of pg_client/hash_sqlstate.rs: what is done with an
-- error of PostgreSQL.
pub mod Laws
mod Tests
use plex_postgresql.Prelude.{Bool, true, false, ◌&&◌, ◌||◌, not, [], if◌then◌else◌}
use plex_postgresql.Prelude.Bytes.{Bytes, codes, beq, starts_with, contains}

pub data PgErrorClass : Type 0 where
  retry stale_plan fail : PgErrorClass

abbrev pub changed_result : Bytes
changed_result = codes "cached plan must not change result type"

unfoldable pub is_stale_plan : Bytes → Bytes → Bool
is_stale_plan sqlstate message =
    beq sqlstate (codes "26000")
    || (beq sqlstate (codes "0A000") && contains changed_result message)

abbrev pub is_transient : Bytes → Bool
is_transient sqlstate =
    starts_with (codes "08") sqlstate
    || beq sqlstate (codes "57P01")
    || beq sqlstate (codes "57P02")
    || beq sqlstate (codes "57P03")
    || beq sqlstate (codes "40001")
    || beq sqlstate (codes "40P01")

unfoldable pub classify : Bool → Bytes → Bytes → PgErrorClass
classify conn_ok sqlstate message =
    if not conn_ok
    then retry
    else if is_stale_plan sqlstate message
    then stale_plan
    else if is_transient sqlstate
    then retry
    else fail

unfoldable pub is_stale_sqlstate : Bytes → Bool
is_stale_sqlstate sqlstate = is_stale_plan sqlstate []

unfoldable pub is_duplicate_sqlstate : Bytes → Bool
is_duplicate_sqlstate sqlstate = beq sqlstate (codes "42P05")
