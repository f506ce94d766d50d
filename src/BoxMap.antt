-- ===== src/BoxMap.antt =====
-- core/boxmap.c: the pool of address space for sandboxes. Regions are reserved from the host and
-- each is handed out by an extent allocator.
pub mod Reserve
pub mod Region
pub mod Spaces
pub mod Change
pub mod Ledger
pub mod Apart
pub mod Chunks
pub mod Reserved
pub mod Safety
pub mod Guards
pub mod Grow
pub mod Tests
use lfi_runtime.Prelude.{
  ℕ, zero, suc, ◌+◌, ◌-◌, ◌*◌, ◌/◌, ◌%◌, Bool, true, false, not, ◌&&◌, ◌||◌, Option, none, some,
  List, [], ◌∷◌, ◌++◌, if◌then◌else◌, ◌==◌, ltb, leb, length, Run, done, aborted, ◌>>=◌, ◌>>◌,
  add64, sub64, mul64, negsuc, pos,
}
use lfi_runtime.Host.{
  Call, mmap, munmap, malloc, Trace, Oracle, ask, prot_none, anon_private, anon_fixed,
}
use lfi_runtime.ExtAlloc.{ExtAlloc, extalloc_new, extalloc_alloc, extalloc_free}

pub record BoxMapOptions : Type 0 where
  pub chunksize : ℕ
  pub guardsize : ℕ

pub record AddrRegion : Type 0 where
  pub base : ℕ
  pub size : ℕ
  pub active : ℕ
  pub alloc : ExtAlloc
  pub mapbase : ℕ
  pub mapsize : ℕ

-- `regions` is the first `nregions` entries of the array.
pub record BoxMap : Type 0 where
  pub regions : List AddrRegion
  pub opts : BoxMapOptions

abbrev pub addr_region_max : ℕ
addr_region_max = 16

unfoldable pub truncp : ℕ → ℕ → ℕ
truncp addr align = sub64 addr (addr % align)

unfoldable pub ceilp : ℕ → ℕ → ℕ
ceilp addr align = let rem = addr % align in if rem == 0 then addr else add64 addr (sub64 align rem)

abbrev pub gb : ℕ → ℕ
gb x = mul64 x 1_073_741_824

abbrev pub tb : ℕ → ℕ
tb x = mul64 x 1_099_511_627_776

unfoldable pub boxmap_new : BoxMapOptions → BoxMap
boxmap_new opts = record { regions = []; opts = opts }

unfoldable pub boxmap_size : List AddrRegion → ℕ
boxmap_size [] = 0
boxmap_size (r ∷ rs) = add64 r.size (boxmap_size rs)

unfoldable pub boxmap_active : List AddrRegion → ℕ
boxmap_active [] = 0
boxmap_active (r ∷ rs) = add64 r.active (boxmap_active rs)

-- the loop of `boxmap_delete`, which frees the allocators too
unfoldable pub boxmap_delete : List AddrRegion → Trace → Trace
boxmap_delete [] t = t
boxmap_delete (r ∷ rs) t = boxmap_delete rs (munmap r.mapbase r.mapsize ∷ t)

-- `for` over the regions of `allocslot`
unfoldable pub allocslot : List AddrRegion → ℕ → Run (ℕ × List AddrRegion)
allocslot [] size = done (0, [])
allocslot (r ∷ rs) size =
    let rest = allocslot rs size in
    extalloc_alloc r.alloc size >>= λ (p, alloc).
    if not (p == 0)
    then done (p, record r { alloc = alloc; active = add64 r.active 1 } ∷ rs)
    else (rest >>= λ (q, rs'). done (q, record r { alloc = alloc } ∷ rs'))

-- the body of the loop of `deleteslot`
unfoldable pub deletein : AddrRegion → ℕ → ℕ → Run AddrRegion
deletein r base size =
    if leb r.base base && ltb base (add64 r.base r.size)
    then (extalloc_free r.alloc base size >>= λ alloc.
        done (record r { alloc = alloc; active = sub64 r.active 1 }))
    else done r

unfoldable pub deleteslot : List AddrRegion → ℕ → ℕ → Run (List AddrRegion)
deleteslot [] base size = done []
deleteslot (r ∷ rs) base size =
    let rest = deleteslot rs base size in
    deletein r base size >>= λ r'. rest >>= λ rs'. done (r' ∷ rs')

unfoldable pub boxmap_addspace : BoxMap → ℕ → Run (ℕ × BoxMap)
boxmap_addspace map size =
    allocslot map.regions size >>= λ (p, rs). done (p, record map { regions = rs })

unfoldable pub boxmap_rmspace : BoxMap → ℕ → ℕ → Run BoxMap
boxmap_rmspace map space size =
    deleteslot map.regions space size >>= λ rs. done (record map { regions = rs })
