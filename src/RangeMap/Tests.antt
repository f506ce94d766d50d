-- ===== src/RangeMap/Tests.antt =====
-- The theorems on core/mmap/range_map.h at a map of two entries.
use native.Mathlib.Omega.{arith}
use lfi_runtime.Prelude.{
  ℕ, ◌≡◌, none, some, List, [], ◌∷◌, true, ◌==◌, if◌then◌else◌, leb, ltb, ◌&&◌,
}
use lfi_runtime.RangeMap.{Entry, entry, remove, insert, find, get_gaps}
use lfi_runtime.RangeMap.View.{value_at, Ordered}
use lfi_runtime.RangeMap.Carve.{value_at-remove}
use lfi_runtime.RangeMap.Change.{value_at-insert}
use lfi_runtime.RangeMap.Find.{entry_at, find-entry_at}
use lfi_runtime.RangeMap.Ranges.{in_gaps, is_free, in_gaps-get_gaps}

abbrev two_entries : List (Entry ℕ)
two_entries = entry 1 5 7 ∷ entry 8 12 9 ∷ []

two_entries-Ordered : Ordered 0 two_entries
two_entries-Ordered = (omega arith, omega arith, (omega arith, omega arith, tt))

same_number : (a b : ℕ) → (a == b) ≡ true → a ≡ b
same_number a b e = ground arith

value_at-remove_example :
    Ordered 0 (remove 3 9 two_entries)
    × (value_at 4 (remove 3 9 two_entries)
        ≡ (if leb 3 4 && ltb 4 9 then none else value_at 4 two_entries))
value_at-remove_example = value_at-remove two_entries 3 9 4 two_entries-Ordered

value_at-insert_example :
    Ordered 0 (insert ◌==◌ 5 8 7 two_entries)
    × (value_at 6 (insert ◌==◌ 5 8 7 two_entries)
        ≡ (if leb 5 6 && ltb 6 8 then some 7 else value_at 6 two_entries))
value_at-insert_example = value_at-insert ◌==◌ same_number two_entries 5 8 6 7 two_entries-Ordered

find-entry_at_example : find 4 two_entries ≡ entry_at 4 two_entries
find-entry_at_example = find-entry_at two_entries 4 two_entries-Ordered

in_gaps-get_gaps_example :
    in_gaps 6 (get_gaps 2 20 two_entries)
    ≡ (leb 2 6 && ltb 6 20 && is_free (value_at 6 two_entries))
in_gaps-get_gaps_example = in_gaps-get_gaps two_entries 2 20 6 two_entries-Ordered
