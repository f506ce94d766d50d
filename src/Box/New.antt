-- ===== src/Box/New.antt =====
-- Making and freeing a sandbox: `lfi_box_new`, `lfi_box_free` and the runtime call page of
-- core/box.c, with the guard sizes of core/core.h.
use lfi_runtime.Prelude.{
  ℕ, ◌+◌, ◌-◌, Bool, true, false, not, Option, none, some, List, ◌∷◌, if◌then◌else◌, ◌==◌, ltb,
  replicate, set, Run, done, aborted, ◌>>=◌, ◌>>◌, assert, add64, sub64, mul64, negsuc, pos,
}
use lfi_runtime.Host.{
  HostProt, mmap, munmap, malloc, mutex_init, Trace, Oracle, prot_none, prot_read, anon_fixed,
}
use lfi_runtime.AddrSpace
use lfi_runtime.AddrSpace.{AddrSpace}
use lfi_runtime.BoxMap.{BoxMap, boxmap_addspace, boxmap_rmspace}
use lfi_runtime.Box.{Box, LfiOptions, protectmem, is_some}

-- The architectures that the guard sizes depend on.
pub data Arch : Type 0 where
  arm64 x64 x64_pku riscv64 : Arch

-- BOX_INTERNAL_GUARD, BOX_EXTERNAL_GUARD and REGION_GUARD
pub internal_guard : Arch → ℕ
internal_guard arm64 = mul64 192 1024
internal_guard _ = 0

pub external_guard : Arch → ℕ
external_guard x64 = mul64 4 1_073_741_824
external_guard _ = 0

pub region_guard : Arch → ℕ
region_guard arm64 = mul64 512 1_048_576
region_guard x64 = mul64 4 1_073_741_824
region_guard _ = 0

unfoldable pub box_footprint : Arch → ℕ → ℕ
unfolding external_guard
box_footprint arch boxsize = add64 boxsize (external_guard arch)

-- What a slot of `struct Sys` points to.
pub data RtCall : Type 0 where
  rtcall_bad syscall_entry ret_entry : RtCall

unfoldable pub sys_init : List RtCall
sys_init =
    let n : ℕ = 32 in set (set (replicate n rtcall_bad) (n - 1) syscall_entry) (n - 4) ret_entry

-- The page is filled by `sys_init` and made read-only.
pub sys_page_init : Oracle → ℕ → ℕ → Trace → Bool × Trace
sys_page_init o page pagesize t = protectmem o page pagesize prot_read t

abbrev pub prot_rw : HostProt
prot_rw = record { read = true; write = true; exec = false }

pub ctx_block_init : Oracle → ℕ → ℕ → Trace → Bool × Trace
ctx_block_init o block pagesize t =
    let (ok, t') = sys_page_init o block pagesize t in
    if not ok then (false, t') else protectmem o (block + pagesize) pagesize prot_rw t'

pub syssetup : Oracle → ℕ → ℕ → Trace → Bool × Trace
syssetup o base pagesize t =
    let page = sub64 base pagesize in
    let call = mmap page pagesize prot_rw anon_fixed (negsuc 0) (pos 0) in
    let (ok, t') = sys_page_init o page pagesize (call ∷ t) in
    elim (o t call) [
      | none ↦ (false, call ∷ t)
      | some p ↦
          if not (p == page)
          then (false, munmap p pagesize ∷ call ∷ t)
          else if not ok
          then (false, munmap page pagesize ∷ t')
          else (true, t')
    ]

-- The box before its address map is made.
pub blank_box : Arch → LfiOptions → ℕ → Box
blank_box arch opts base =
    let size = opts.boxsize in
    let guard = internal_guard arch in
    record {
      base = base;
      size = size;
      min = add64 base (if ltb opts.pagesize guard then guard else opts.pagesize);
      max = sub64 (add64 base size) guard;
      max_exec = sub64 (add64 base size) guard;
      mm = AddrSpace.blank 0;
      retaddr = 0;
      opts = opts;
    }

-- `mmap_create`: `none` where there is no memory, or the page size is no power of two
pub mmap_create : Oracle → ℕ → ℕ → ℕ → Trace → Option AddrSpace × Trace
mmap_create o start len pagesize t = elim (o t malloc) [
  | none ↦ (none, malloc ∷ t)
  | some p ↦ (AddrSpace.init start len pagesize, malloc ∷ t)
]

abbrev pub BoxResult : Type 0
BoxResult = Option Box × BoxMap × Trace

-- the labels `err3`, `err2`, `err1`: the space goes back to the pool
pub give_up : Arch → LfiOptions → BoxMap → ℕ → Trace → Run BoxResult
give_up arch opts bm base t =
    boxmap_rmspace bm base (box_footprint arch opts.boxsize) >>= λ bm'. done (none, bm', t)

-- the last steps: the lock, the address map and its randomization
pub finish_box : Oracle → Arch → LfiOptions → ℕ → Box → BoxMap → Trace → Run BoxResult
finish_box o arch opts seed box bm t =
    let len = sub64 box.max box.min in
    let (mm, t') = mmap_create o box.min len opts.pagesize (mutex_init ∷ t) in
    if not (is_some (o t mutex_init))
    then give_up arch opts bm box.base (mutex_init ∷ t)
    else elim mm [
      | none ↦ give_up arch opts bm box.base t'
      | some mm' ↦
          let mm'' = if opts.no_aslr then mm' else AddrSpace.enable_aslr mm' seed in
          done (some (record box { mm = mm'' }), bm, t')
    ]

-- `seed` is what `aslr_seed` reads from the host.
unfoldable pub lfi_box_new : Oracle → Arch → LfiOptions → ℕ → BoxMap → Trace → Run BoxResult
lfi_box_new o arch opts seed bm t =
    if not (is_some (o t malloc))
    then done (none, bm, malloc ∷ t)
    else (boxmap_addspace bm (box_footprint arch opts.boxsize) >>= λ (base, bm').
        let (ok, t') = syssetup o base opts.pagesize (malloc ∷ t) in
        let failed = give_up arch opts bm' base t' in
        let ready = finish_box o arch opts seed (blank_box arch opts base) bm' t' in
        if base == 0 then done (none, bm', malloc ∷ t) else if not ok then failed else ready)

-- The box's memory becomes inaccessible, and its space goes back to the pool. The callback table
-- goes with `lfi_box_cb_free`.
unfoldable pub lfi_box_free : Oracle → Arch → Box → BoxMap → Trace → Run (BoxMap × Trace)
lfi_box_free o arch box bm t =
    let page = sub64 box.base box.opts.pagesize in
    let call =
      mmap page (add64 box.size box.opts.pagesize) prot_none anon_fixed (negsuc 0) (pos 0) in
    elim (o t call) [
      | none ↦ aborted
      | some p ↦
          assert (p == page)
          >> (boxmap_rmspace bm box.base (box_footprint arch box.size) >>= λ bm'.
              done (bm', call ∷ t))
    ]
