-- ===== src/Placeholders/Tests.antt =====
-- A numbering of a small statement.
use plex_postgresql.Prelude.{[], List, [], ◌∷◌, length}
use plex_postgresql.Prelude.Bytes.{Bytes, codes}
use plex_postgresql.Placeholders.{transform, empty}
use plex_postgresql.Placeholders.Walk.{Written, transform-Written}

abbrev tokens : List Bytes
tokens = codes "?" ∷ codes ":x" ∷ codes "?5" ∷ codes "@x" ∷ codes "$1" ∷ []

transform-Written_example :
    Written (length (transform empty tokens).0.param_names) tokens (transform empty tokens).1
transform-Written_example = transform-Written empty tokens tt
