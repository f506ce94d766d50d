-- ===== src/AddrSpace/Tests.antt =====
-- The theorems on core/mmap/mmap.cpp at a space of 16 pages, two of them mapped.
use native.Mathlib.Omega.{arith}
use lfi_runtime.Prelude.{◌≡◌, ◌/◌, [], ◌∷◌, false, pos, negsuc, Returns}
use lfi_runtime.RangeMap.{entry}
use lfi_runtime.AddrSpace.{
  AddrSpace, MapInfo, page_size, query_page, map_at, map_any, protect, unmap,
}
use lfi_runtime.AddrSpace.View.{IsSpace, page_info, query_page-page_info}
use lfi_runtime.AddrSpace.Change.{Unmapped, unmap-Unmapped, MappedAt, map_at-MappedAt}
use lfi_runtime.AddrSpace.Protect.{Protected, protect-Protected}
use lfi_runtime.AddrSpace.Any.{MappedAny, map_any-MappedAny}

abbrev data_info : MapInfo
data_info = record { prot = 3; flags = 34; fd = negsuc 0; offset = pos 0 }

abbrev small_space : AddrSpace
small_space = record {
  base = 16;
  len = 16;
  p2pagesize = 12;
  aslr = false;
  rand_state = 0;
  regions = entry 17 19 data_info ∷ [];
}

small_space-IsSpace : IsSpace small_space
small_space-IsSpace = record {
  ordered = (omega arith, omega arith, tt);
  inside = λ page info e. (ground arith, ground arith);
  fits = omega arith;
}

query_page-page_info_example :
    query_page small_space 70_000 ≡ page_info small_space (70_000 / page_size small_space)
query_page-page_info_example = query_page-page_info small_space 70_000 small_space-IsSpace

map_at-MappedAt_example :
    Returns (MappedAt small_space 73_728 8192 data_info) (map_at small_space 73_728 8192 data_info)
map_at-MappedAt_example = map_at-MappedAt small_space 73_728 8192 data_info small_space-IsSpace

map_any-MappedAny_example :
    Returns (MappedAny small_space 8192 data_info) (map_any small_space 0 8192 data_info)
map_any-MappedAny_example = map_any-MappedAny small_space 8192 data_info small_space-IsSpace

protect-Protected_example : Protected small_space 69_632 4096 1 (protect small_space 69_632 4096 1)
protect-Protected_example = protect-Protected small_space 69_632 4096 1 small_space-IsSpace

unmap-Unmapped_example : Unmapped small_space 73_728 8192 (unmap small_space 73_728 8192)
unmap-Unmapped_example = unmap-Unmapped small_space 73_728 8192 small_space-IsSpace
