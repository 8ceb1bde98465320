-- ===== src/StmtCache/Tests.antt =====
-- Runs of the prepared statement cache.
use plex_postgresql.Prelude.{ℕ, zero, suc, none, some, ◌≡◌, refl, arith, ℕ, none}
use plex_postgresql.Prelude.Bytes.{Bytes, codes}
use plex_postgresql.StmtCache.{StmtCache, probe, first_pass, put, empty, lookup_mut, lookup, add}
use plex_postgresql.StmtCache.Laws.{IsTable, empty-IsTable, no_entry}
use plex_postgresql.StmtCache.Add.{Evicts}
use plex_postgresql.StmtCache.Lookup.{
  entry, add-IsTable, lookup-add_self, lookup-add_other, add-Evicts,
}

abbrev name_a : Bytes
name_a = codes "s_a"

-- 512 and 1024 start at the same slot.
abbrev one : StmtCache
one = (add empty 512 name_a 1 10).0

abbrev two : StmtCache
two = (add one 1024 (codes "s_b") 2 11).0

one-IsTable : IsTable one
one-IsTable = add-IsTable empty empty-IsTable 512 name_a 1 10 (λ e. absurd (omega arith))

two-IsTable : IsTable two
two-IsTable = add-IsTable one one-IsTable 1024 (codes "s_b") 2 11 (λ e. absurd (omega arith))

runs : Unit {0}
unfolding empty lookup lookup_mut probe add first_pass put
runs = tt

collision : (lookup two 512 ≡ some (entry 512 name_a 1 10)) × (lookup two 1536 ≡ none)
unfolding runs
collision = (refl, refl)

-- A table of 512 statements, used at the times 1 to `n`.
filled : ℕ → StmtCache
filled zero = empty
filled (suc n) = (add (filled n) (suc n) name_a 0 (suc n)).0

filled-IsTable : (n : ℕ) → IsTable (filled n)
unfolding filled
filled-IsTable zero = empty-IsTable
filled-IsTable (suc n) =
    add-IsTable (filled n) (filled-IsTable n) (suc n) name_a 0 (suc n) (λ e. absurd (omega arith))

add-IsTable_example : IsTable (add two 7 name_a 0 12).0
add-IsTable_example = add-IsTable two two-IsTable 7 name_a 0 12 (λ e. absurd (omega arith))

lookup-add_self_example : lookup one 512 ≡ some (entry 512 name_a 1 10)
lookup-add_self_example =
    lookup-add_self empty empty-IsTable 512 name_a 1 10 (λ e. absurd (omega arith))
      (λ j y s. absurd (no_entry j y s))

lookup-add_other_example : lookup two 512 ≡ lookup one 512
unfolding runs
lookup-add_other_example =
    lookup-add_other one one-IsTable 1024 (codes "s_b") 2 11 (λ e. absurd (omega arith)) 512
      (λ e. absurd (omega arith)) refl

full_evicts : (add (filled 512) 513 (codes "s_c") 0 600).2 ≡ some name_a
unfolding runs filled
full_evicts = refl

add-Evicts_example :
    Evicts
      (filled 512)
      (filled-IsTable 512)
      (entry 513 (codes "s_c") 0 600)
      (λ e. absurd (omega arith))
      (add (filled 512) 513 (codes "s_c") 0 600).0
      name_a
add-Evicts_example =
    add-Evicts (filled 512) (filled-IsTable 512) 513 (codes "s_c") 0 600 (λ e. absurd (omega arith))
      full_evicts
