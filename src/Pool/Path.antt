-- ===== src/Pool/Path.antt =====
-- pg_client/pool_lookup.rs and pool_acquire/pathing.rs: which database path the pool serves.
pub mod Laws
use plex_postgresql.Prelude.{
  Bool, true, false, List, [], ◌∷◌, ◌++◌, Option, none, some, if◌then◌else◌, not,
}
use plex_postgresql.Prelude.Bytes.{Bytes, codes, ends_with, strip_suffix}

abbrev pub library_name : Bytes
library_name = codes "com.plexapp.plugins.library.db"

abbrev pub blobs_name : Bytes
blobs_name = codes "com.plexapp.plugins.library.blobs.db"

unfoldable pub is_library_db : Bytes → Bool
is_library_db path = ends_with library_name path

unfoldable pub is_blobs_db : Bytes → Bool
is_blobs_db path = ends_with blobs_name path

-- `filter(is_library_db)`
abbrev library_only : Option Bytes → Option Bytes
library_only none = none
library_only (some path) = if is_library_db path then some path else none

abbrev sibling : Option Bytes → Option Bytes
sibling none = none
sibling (some prefix) = some (prefix ++ library_name)

abbrev or_sibling : Option Bytes → Option Bytes → Option Bytes
or_sibling none other = other
or_sibling (some path) other = some path

abbrev pub is_nil : Bytes → Bool
is_nil [] = true
is_nil _ = false

unfoldable pub select_library_pool_path : Bytes → Option Bytes → Option Bytes
select_library_pool_path raw_path cached_library_path =
    if is_library_db raw_path
    then some raw_path
    else if is_blobs_db raw_path
    then or_sibling (library_only cached_library_path) (sibling (strip_suffix blobs_name raw_path))
    else if not (is_nil raw_path)
    then none
    else library_only cached_library_path

-- A path is looked up in the cache only if none was given, and what is selected is tested once more.
unfoldable pub resolve_selected_pool_path : Option Bytes → Bytes → Option Bytes
resolve_selected_pool_path library_db_path raw_path =
    library_only
      (select_library_pool_path raw_path (if is_nil raw_path then library_db_path else none))

unfoldable pub remember_library_path : Option Bytes → Bytes → Option Bytes
remember_library_path none selected = if is_nil selected then none else some selected
remember_library_path (some path) selected = some path
