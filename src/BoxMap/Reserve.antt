-- ===== src/BoxMap/Reserve.antt =====
-- The part of core/boxmap.c that gets regions from the host: `reserve`, `addregion` and
-- `boxmap_reserve`.
use lfi_runtime.Prelude.{
  ℕ, zero, suc, ◌/◌, Bool, true, false, not, Option, none, some, [], ◌∷◌, ◌++◌, if◌then◌else◌, ◌==◌,
  ltb, leb, length, Run, done, ◌>>=◌, add64, sub64, negsuc, pos,
}
use lfi_runtime.Host.{
  Call, mmap, munmap, malloc, Trace, Oracle, prot_none, anon_private, anon_fixed,
}
use lfi_runtime.ExtAlloc.{ExtAlloc, extalloc_new}
use lfi_runtime.BoxMap.{BoxMapOptions, AddrRegion, BoxMap, addr_region_max, truncp, ceilp, gb, tb}

-- What `reserve` gives: the base and the size, or nothing. `out_of_fuel` is the model's own.
pub data Reserved : Type 0 where
  got : ℕ → ℕ → Reserved
  failed : Reserved
  out_of_fuel : Reserved

abbrev pub reserve_call : ℕ → Call
reserve_call size = mmap 0 size prot_none anon_private (negsuc 0) (pos 0)

-- The `do` loop: each failure halves the size.
unfoldable pub reserve : Oracle → ℕ → ℕ → ℕ → Trace → Reserved × Trace
reserve o zero size threshold t = (out_of_fuel, t)
reserve o (suc fuel) size threshold t = elim (o t (reserve_call size)) [
  | some p ↦ (if ltb size threshold then failed else got p size, reserve_call size ∷ t)
  | none ↦ elim (ltb (size / 2) threshold) [
    | true ↦ (failed, reserve_call size ∷ t)
    | false ↦ reserve o fuel (size / 2) threshold (reserve_call size ∷ t)
  ]
]

-- the part of a reservation that can be handed out, without its guards
unfoldable pub alignbase : BoxMapOptions → ℕ → ℕ
alignbase opts base = ceilp (add64 base opts.guardsize) opts.chunksize

unfoldable pub alignsize : BoxMapOptions → ℕ → ℕ → ℕ
alignsize opts base size =
    sub64 (truncp (sub64 (add64 base size) opts.guardsize) opts.chunksize) (alignbase opts base)

abbrev pub region_of : ExtAlloc → BoxMapOptions → ℕ → ℕ → AddrRegion
region_of alloc opts base size = record {
  base = alignbase opts base;
  size = alignsize opts base size;
  active = 0;
  alloc = alloc;
  mapbase = base;
  mapsize = size;
}

-- `malloc` and `calloc` of `extalloc_new`, the second only after the first
abbrev pub two_mallocs : Oracle → Trace → Bool × Bool × Trace
two_mallocs o t = elim (o t malloc) [
  | none ↦ (false, false, malloc ∷ t)
  | some p ↦ elim (o (malloc ∷ t) malloc) [
    | none ↦ (true, false, malloc ∷ malloc ∷ t)
    | some q ↦ (true, true, malloc ∷ malloc ∷ t)
  ]
]

-- the second half of `addregion`: the allocator is there, and the host maps the region
unfoldable pub mapregion : Oracle → BoxMap → ℕ → ℕ → Option ExtAlloc → Trace → Bool × BoxMap × Trace
mapregion o map base size none t = (false, map, t)
mapregion o map base size (some alloc) t =
    let start = alignbase map.opts base in
    let call = mmap start (alignsize map.opts base size) prot_none anon_fixed (negsuc 0) (pos 0) in
    elim (o t call) [
      | none ↦ (false, map, call ∷ t)
      | some region ↦ if not (region == start) then (false, map, call ∷ t) else (
        true,
        record map { regions = map.regions ++ (region_of alloc map.opts base size ∷ []) },
        call ∷ t,
      )
    ]

unfoldable pub addregion : Oracle → BoxMap → ℕ → ℕ → Trace → Run (Bool × BoxMap × Trace)
addregion o map base size t =
    if leb addr_region_max (length map.regions)
    then done (false, map, t)
    else (let (m, c, t') = two_mallocs o t in
        extalloc_new m c (alignbase map.opts base) (alignsize map.opts base size) map.opts.chunksize
        >>= λ alloc. done (mapregion o map base size alloc t'))

-- the amounts that the loop of `boxmap_reserve` holds fixed
pub record Goal : Type 0 where
  pub min : ℕ
  pub want : ℕ
  pub need : ℕ

-- `answered b` is the source's `return b`.
pub data Answer : Type 0 where
  answered : Bool → Answer
  starved : Answer

-- Halving a word 64 times leaves 0.
abbrev pub reserve_fuel : ℕ
reserve_fuel = 64

-- the `for` loop of `boxmap_reserve`, by the rounds that are left
unfoldable pub reserve_loop :
    Oracle → Goal → ℕ → BoxMap → ℕ → ℕ → ℕ → Trace → Run (Answer × BoxMap × Trace)
reserve_loop o g zero map size total totalgot t = done (answered (leb g.need totalgot), map, t)
reserve_loop o g (suc rounds) map size total totalgot t =
    elim (reserve o reserve_fuel size g.min t).0 [
      | out_of_fuel ↦ done (starved, map, (reserve o reserve_fuel size g.min t).1)
      | failed ↦ done (answered (leb g.need totalgot), map, (reserve o reserve_fuel size g.min t).1)
      | got base n ↦
          addregion o map base n (reserve o reserve_fuel size g.min t).1 >>= λ (added, map', t').
          elim added [
            | false ↦ done (answered false, map', munmap base n ∷ t')
            | true ↦ elim (leb g.want (add64 totalgot n)) [
              | true ↦ done (answered (leb g.need (add64 totalgot n)), map', t')
              | false ↦
                  reserve_loop o g rounds map' (sub64 total n) (sub64 total n) (add64 totalgot n) t'
            ]
          ]
    ]

-- With size 0 as much as the host gives, from 255 TiB down to 32 GiB.
unfoldable pub boxmap_reserve : Oracle → BoxMap → ℕ → Trace → Run (Answer × BoxMap × Trace)
boxmap_reserve o map size t =
    if size == 0
    then reserve_loop o (record { min = gb 32; want = tb 255; need = gb 32 }) addr_region_max map
        (tb 255) (tb 256) 0 t
    else reserve_loop o (record { min = size; want = size; need = size }) addr_region_max map size
        size 0 t
