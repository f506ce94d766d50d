-- ===== src/Fd/Tests.antt =====
-- The theorems on linux/fd.c at a new table.
use native.Mathlib.Omega.{arith}
use lfi_runtime.Prelude.{◌≡◌, refl, true, false, none, some, pos, Returns}
use lfi_runtime.Fd.{FdTable, Answers, fdinit, fdalloc, fddup2, fdclose}
use lfi_runtime.Fd.Table.{IsTable, IsFresh}
use lfi_runtime.Fd.Dup.{Dups, fddup2-Dups}
use lfi_runtime.Fd.Session.{
  Streams, here, next, close, Allocated, Closed, fdalloc-Allocated, fdclose-Closed, Reach-IsTable,
  init_at,
}

abbrev fresh_table : FdTable
fresh_table = fdinit false (some 50) (some 51) (some 52)

streams : Streams 50 51 52
streams = (λ e. absurd (omega arith), λ e. absurd (omega arith), λ e. absurd (omega arith))

fresh_table-IsTable : IsTable fresh_table
fresh_table-IsTable = Reach-IsTable false 50 51 52 streams here

unused : IsFresh fresh_table 60
unused i e = absurd (grind (arith, init_at false 50 51 52 i 60 e))

Reach-IsTable_example : IsTable (fdclose fresh_table (pos 1)).1
Reach-IsTable_example = Reach-IsTable false 50 51 52 streams (next here (close 1))

abbrev answers : Answers
answers = record { malloc_ok = true; dup = some 60; dup2_ok = true }

fddup2-Dups_example :
    Returns (Dups answers fresh_table 1 (pos 7)) (fddup2 answers fresh_table (pos 1) (pos 7))
fddup2-Dups_example = fddup2-Dups answers 1 (pos 7) fresh_table-IsTable unused

passes_none : fresh_table.passthrough ≡ false
unfolding fdinit
passes_none = refl

fdalloc-Allocated_example :
    IsTable (fdalloc fresh_table 60 none 2).1
    × Allocated fresh_table 60 none 2 (fdalloc fresh_table 60 none 2)
fdalloc-Allocated_example = fdalloc-Allocated 60 none 2 fresh_table-IsTable passes_none unused

fdclose-Closed_example :
    IsTable (fdclose fresh_table (pos 1)).1 × Closed fresh_table 1 (fdclose fresh_table (pos 1))
fdclose-Closed_example = fdclose-Closed 1 fresh_table-IsTable passes_none
