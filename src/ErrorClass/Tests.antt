-- ===== src/ErrorClass/Tests.antt =====
-- Errors as the server reports them.
use plex_postgresql.Prelude.{true, false, ◌≡◌, ◌↔◌}
use plex_postgresql.Prelude.Bytes.{codes}
use plex_postgresql.ErrorClass.{retry, stale_plan, classify}
use plex_postgresql.ErrorClass.Laws.{IsTransient, IsStale, classify_iff}

classify_iff_example :
    ((classify true (codes "40P01") (codes "deadlock detected") ≡ retry)
      ↔ IsTransient (codes "40P01"))
    × ((classify true (codes "40P01") (codes "deadlock detected") ≡ stale_plan)
        ↔ IsStale (codes "40P01") (codes "deadlock detected"))
    × (classify false (codes "40P01") (codes "deadlock detected") ≡ retry)
classify_iff_example = classify_iff (codes "40P01") (codes "deadlock detected")
