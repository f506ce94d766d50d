-- ===== src/BoxMap/Tests.antt =====
-- The theorems on core/boxmap.c at concrete pools.
use native.Mathlib.Omega.{arith}
use lfi_runtime.Prelude.{
  ℕ, ◌≡◌, refl, some, List, [], ◌∷◌, true, false, done, All, Returns, pos, negsuc,
}
use lfi_runtime.Prelude.Ranges.{Apart}
use lfi_runtime.Host.{mmap, Trace, Oracle, malloc}
use lfi_runtime.ExtAlloc.{
  ExtAlloc, extalloc_new, extalloc_alloc, extalloc_free, take_run, chunks_ceil, bit,
  find_zeroes_from, bitvec_find_zeroes, write_bit, bitvec_set_from, bitvec_set,
}
use lfi_runtime.ExtAlloc.Alloc.{IsValid}
use lfi_runtime.BoxMap.{
  AddrRegion, BoxMap, BoxMapOptions, boxmap_new, boxmap_addspace, boxmap_rmspace, allocslot,
  deletein, deleteslot, truncp, ceilp,
}
use lfi_runtime.BoxMap.Reserve.{addregion, mapregion, alignbase, alignsize}
use lfi_runtime.BoxMap.Reserve.{boxmap_reserve}
use lfi_runtime.BoxMap.Chunks.{ChunkOk}
use lfi_runtime.BoxMap.Reserved.{Reserves, needed, boxmap_reserve-Reserves}
use lfi_runtime.BoxMap.Guards.{Roomy, Guarded, alignbase-Guarded}
use lfi_runtime.BoxMap.Region.{RegionOk, Space}
use lfi_runtime.BoxMap.Spaces.{Slot, allocslot-Slot}
use lfi_runtime.BoxMap.Change.{in_head}
use lfi_runtime.BoxMap.Ledger.{Reach, here, next, grow, take, give_back, InRegions, count}
use lfi_runtime.BoxMap.Safety.{ChangedOf, boxmap_rmspace-Changed, Reach-Apart_spaces}

abbrev opts : BoxMapOptions
opts = record { chunksize = 16; guardsize = 16 }

-- A host that maps where it is asked to.
abbrev obliging : Oracle
obliging t (mmap addr len prot flags fd off) = some addr
obliging t call = some 1

-- One region of 14 chunks in the reservation [4096, 4352), with these bits and this count.
abbrev allocator : List ℕ → ExtAlloc
allocator bits = record { base = 257; size = 14; chunksize = 16; bitvec = bits }

abbrev region : List ℕ → ℕ → AddrRegion
region bits active = record {
  base = 4112;
  size = 224;
  active = active;
  alloc = allocator bits;
  mapbase = 4096;
  mapsize = 256;
}

abbrev pool : List ℕ → ℕ → BoxMap
pool bits active = record { regions = region bits active ∷ []; opts = opts }

abbrev grown_trace : Trace
grown_trace =
    mmap 4112 224 (record { read = false; write = false; exec = false })
      (record { shared = false; private = true; fixed = true; anonymous = true }) (negsuc 0) (pos 0)
    ∷ malloc
    ∷ malloc
    ∷ []

reservation-Roomy : Roomy opts 4096 256 1
reservation-Roomy = record { chunk = omega arith; enough = omega arith; no_wrap = omega arith }

adds :
    addregion obliging (boxmap_new opts) 4096 256 [] ≡ done (true, pool (0 ∷ 0 ∷ []) 0, grown_trace)
unfolding addregion mapregion boxmap_new alignbase alignsize extalloc_new truncp ceilp
adds = refl

takes_one : boxmap_addspace (pool (0 ∷ 0 ∷ []) 0) 16 ≡ done (4112, pool (128 ∷ 0 ∷ []) 1)
unfolding boxmap_addspace allocslot extalloc_alloc take_run chunks_ceil bit find_zeroes_from
    bitvec_find_zeroes write_bit bitvec_set_from bitvec_set
takes_one = refl

takes_two : boxmap_addspace (pool (128 ∷ 0 ∷ []) 1) 32 ≡ done (4128, pool (224 ∷ 0 ∷ []) 2)
unfolding boxmap_addspace allocslot extalloc_alloc take_run chunks_ceil bit find_zeroes_from
    bitvec_find_zeroes write_bit bitvec_set_from bitvec_set
takes_two = refl

gives_back : boxmap_rmspace (pool (224 ∷ 0 ∷ []) 2) 4112 16 ≡ done (pool (96 ∷ 0 ∷ []) 1)
unfolding boxmap_rmspace deleteslot deletein extalloc_free chunks_ceil write_bit bitvec_set_from
    bitvec_set
gives_back = refl

-- One region from the host, two spaces taken, and the first given back.
used_pool :
    Reach
      (record { bm = boxmap_new opts; live = [] })
      (record { bm = pool (96 ∷ 0 ∷ []) 1; live = (4128, 32) ∷ [] })
unfolding boxmap_new
used_pool =
    next
      (next
        (next (next here (grow obliging 4096 256 [] (omega arith) reservation-Roomy tt adds)) (
          take 4112 16 1 (omega arith) refl (omega arith) (omega arith) (λ e. absurd (omega arith))
            takes_one))
        (take 4128 32 2 (omega arith) refl (omega arith) (omega arith) (λ e. absurd (omega arith))
          takes_two))
      (give_back ((4128, 32) ∷ []) [] 4112 16 refl gives_back)

Reach-Apart_spaces_example :
    Apart ((4128, 32) ∷ [])
    × All (InRegions (region (96 ∷ 0 ∷ []) 1 ∷ [])) ((4128, 32) ∷ [])
    × All (λ r. r.active ≡ count r ((4128, 32) ∷ [])) (region (96 ∷ 0 ∷ []) 1 ∷ [])
Reach-Apart_spaces_example = Reach-Apart_spaces opts used_pool

alignbase-Guarded_example : Guarded opts 4096 256 1
alignbase-Guarded_example = alignbase-Guarded opts 4096 256 1 reservation-Roomy

region-Ok : (v : IsValid (allocator (128 ∷ 0 ∷ []))) → RegionOk (region (128 ∷ 0 ∷ []) 1)
region-Ok v = record { valid = v; starts = refl; spans = refl }

allocator-IsValid : IsValid (allocator (128 ∷ 0 ∷ []))
allocator-IsValid = record {
  bytes = (omega arith, (omega arith, tt));
  len = refl;
  chunk = omega arith;
  base_pos = omega arith;
  fits = omega arith;
}

one-Space : Space (region (128 ∷ 0 ∷ []) 1) 4112 16
one-Space = record {
  first = 0;
  chunks = 1;
  at = refl;
  bytes = refl;
  some_chunks = omega arith;
  room = omega arith;
  small = omega arith;
}

allocslot-Slot_example :
    Returns (Slot 2 32 (region (128 ∷ 0 ∷ []) 1 ∷ [])) (allocslot (region (128 ∷ 0 ∷ []) 1 ∷ []) 32)
allocslot-Slot_example =
    allocslot-Slot 16 2 32 (region (128 ∷ 0 ∷ []) 1 ∷ []) ((region-Ok allocator-IsValid, refl), tt)
      (omega arith) refl (omega arith)

boxmap_rmspace-Changed_example :
    Returns
      (ChangedOf 4112 16 (pool (128 ∷ 0 ∷ []) 1))
      (boxmap_rmspace (pool (128 ∷ 0 ∷ []) 1) 4112 16)
boxmap_rmspace-Changed_example =
    boxmap_rmspace-Changed 4112 16 ((region-Ok allocator-IsValid, refl), tt) (tt, tt)
      (in_head one-Space)

opts-ChunkOk : ChunkOk opts
opts-ChunkOk = record { some_chunk = omega arith; divides = refl }

boxmap_reserve-Reserves_example :
    Returns
      (Reserves (needed 256) 0 (boxmap_new opts))
      (boxmap_reserve obliging (boxmap_new opts) 256 [])
unfolding boxmap_new
boxmap_reserve-Reserves_example =
    boxmap_reserve-Reserves obliging (boxmap_new opts) 256 [] opts-ChunkOk (omega arith)
