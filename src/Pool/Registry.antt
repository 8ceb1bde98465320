-- ===== src/Pool/Registry.antt =====
-- pg_client_registry.rs: the connection of each database handle, and its slot in the pool.
use plex_postgresql.Prelude.{
  ℕ, Bool, false, ◌||◌, List, [], ◌∷◌, Option, none, some, if◌then◌else◌, ◌==◌,
}
use plex_postgresql.Prelude.Map.{find, insert, remove, count_values}

-- Both maps have the same operations.
abbrev pub Handles : Type 0
Handles = List (ℕ × ℕ)

-- `register` and `assign`
unfoldable pub register : Handles → ℕ → ℕ → Handles
register m db_handle value = insert db_handle value m

-- `unregister` and `release`
unfoldable pub unregister : Handles → ℕ → Handles × Option ℕ
unregister m db_handle = (remove db_handle m, find db_handle m)

unfoldable pub contains_conn : Handles → ℕ → Bool
contains_conn [] conn_ptr = false
contains_conn ((j, conn) ∷ m) conn_ptr = conn == conn_ptr || contains_conn m conn_ptr

unfoldable pub find_any : (ℕ → Bool) → Handles → Option ℕ
find_any predicate [] = none
find_any predicate ((j, conn) ∷ m) = if predicate conn then some conn else find_any predicate m

abbrev values : Handles → List ℕ
values [] = []
values ((j, conn) ∷ m) = conn ∷ values m

unfoldable pub drain_all : Handles → Handles × List ℕ
drain_all m = ([], values m)

-- `DbToPool::references`: the handles that hold a slot.
unfoldable pub references : Handles → ℕ → ℕ
references m slot_index = count_values (λ slot. slot == slot_index) m
