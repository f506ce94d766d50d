-- ===== src/ExtAlloc/Tests.antt =====
-- The theorems on core/extalloc.c at a concrete allocator.
use native.Mathlib.Omega.{arith}
use lfi_runtime.Prelude.{
  ℕ, ◌+◌, ◌*◌, ◌≤◌, ◌<◌, ◌≡◌, refl, true, ◌&&◌, some, List, [], ◌∷◌, if◌then◌else◌, ltb, leb, map,
  done, Returns,
}
use lfi_runtime.Prelude.Ranges.{Apart, covered}
use lfi_runtime.ExtAlloc.{
  ExtAlloc, extalloc_new, extalloc_alloc, extalloc_free, take_run, chunks_ceil, bit, bitvec_set,
  find_zeroes_from, bitvec_find_zeroes, write_bit, bitvec_set_from,
}
use lfi_runtime.ExtAlloc.Bits.{AreBytes, bit-bitvec_set}
use lfi_runtime.ExtAlloc.Find.{IsFirstRun, bitvec_find_zeroes-IsFirstRun}
use lfi_runtime.ExtAlloc.Alloc.{
  IsValid, Allocated, Freed, chunks_ceil_bounds, extalloc_alloc-Allocated, extalloc_free-Freed,
}
use lfi_runtime.ExtAlloc.Extents.{Ledger, Reach, here, next, take, give_back}
use lfi_runtime.ExtAlloc.Apart.{byte_range, Reach-Apart_extents}

-- 14 chunks of 16 bytes from address 4112 on
abbrev allocator : List ℕ → ExtAlloc
allocator bits = record { base = 257; size = 14; chunksize = 16; bitvec = bits }

makes : extalloc_new true true 4112 224 16 ≡ done (some (allocator (0 ∷ 0 ∷ [])))
unfolding extalloc_new
makes = refl

takes_one : extalloc_alloc (allocator (0 ∷ 0 ∷ [])) 16 ≡ done (4112, allocator (128 ∷ 0 ∷ []))
unfolding extalloc_alloc take_run chunks_ceil bit find_zeroes_from bitvec_find_zeroes write_bit
    bitvec_set_from bitvec_set
takes_one = refl

takes_two : extalloc_alloc (allocator (128 ∷ 0 ∷ [])) 32 ≡ done (4128, allocator (224 ∷ 0 ∷ []))
unfolding extalloc_alloc take_run chunks_ceil bit find_zeroes_from bitvec_find_zeroes write_bit
    bitvec_set_from bitvec_set
takes_two = refl

gives_back : extalloc_free (allocator (224 ∷ 0 ∷ [])) 4112 16 ≡ done (allocator (96 ∷ 0 ∷ []))
unfolding extalloc_free chunks_ceil write_bit bitvec_set_from bitvec_set
gives_back = refl

abbrev used : Ledger
used = record { alloc = allocator (96 ∷ 0 ∷ []); live = (1, 2) ∷ [] }

used_ledger : Reach (record { alloc = allocator (0 ∷ 0 ∷ []); live = [] }) used
used_ledger =
    next
      (next (next here (take 0 1 (omega arith) (omega arith) takes_one))
        (take 1 2 (omega arith) (omega arith) takes_two))
      (give_back ((1, 2) ∷ []) [] 0 1 refl gives_back)

Reach-Apart_extents_example :
    Apart (map (byte_range used.alloc) used.live)
    × ((j : ℕ) → bit used.alloc.bitvec j ≡ covered used.live j)
Reach-Apart_extents_example =
    Reach-Apart_extents true true 4112 224 16 (omega arith) (omega arith) (omega arith) makes
      used_ledger

abbrev some_bytes : List ℕ
some_bytes = 128 ∷ 0 ∷ []

some_bytes-AreBytes : AreBytes some_bytes
some_bytes-AreBytes = (omega arith, (omega arith, tt))

allocator-IsValid : IsValid (allocator some_bytes)
allocator-IsValid = record {
  bytes = some_bytes-AreBytes;
  len = refl;
  chunk = omega arith;
  base_pos = omega arith;
  fits = omega arith;
}

extalloc_alloc-Allocated_example :
    Returns (Allocated (allocator some_bytes) 2) (extalloc_alloc (allocator some_bytes) 32)
extalloc_alloc-Allocated_example =
    extalloc_alloc-Allocated allocator-IsValid 2 (omega arith) (omega arith)

extalloc_free-Freed_example :
    Returns (Freed (allocator some_bytes) 0 1) (extalloc_free (allocator some_bytes) 4112 16)
extalloc_free-Freed_example = extalloc_free-Freed allocator-IsValid 0 1 (omega arith) (omega arith)

bitvec_find_zeroes-IsFirstRun_example :
    IsFirstRun some_bytes 14 2 (bitvec_find_zeroes some_bytes 14 2)
bitvec_find_zeroes-IsFirstRun_example =
    bitvec_find_zeroes-IsFirstRun some_bytes 14 2 (omega arith) (omega arith)

bit-bitvec_set_example :
    bit (bitvec_set some_bytes 3 9 true) 5
    ≡ (if leb 3 5 && ltb 5 12 then (if true then 1 else 0) else bit some_bytes 5)
bit-bitvec_set_example =
    bit-bitvec_set some_bytes 3 9 true 5 some_bytes-AreBytes (omega arith) (omega arith)

chunks_ceil_bounds_example : (100 ≤ chunks_ceil 100 16 * 16) × (chunks_ceil 100 16 * 16 < 100 + 16)
chunks_ceil_bounds_example = chunks_ceil_bounds 100 16 (omega arith) (omega arith)
