-- ===== src/Box/Maps.antt =====
-- The operations of core/box.c that map, protect and unmap memory of a sandbox. `none` is
-- `(lfiptr) -1`; an operation returns its answer, the box and the trace of host calls.
use lfi_runtime.Prelude.{
  ℕ, ◌-◌, ◌%◌, Bool, true, false, not, ◌&&◌, ◌||◌, Option, none, some, ◌∷◌, if◌then◌else◌, ◌==◌,
  ltb, leb, Run, done, ◌>>=◌, add64, sub64, ℤ, pos, negsuc, neg,
}
use lfi_runtime.Host.{mmap, Trace, Oracle, prot_none, anon_fixed}
use lfi_runtime.AddrSpace
use lfi_runtime.AddrSpace.{AddrSpace, MapInfo, Error, k_ok, k_inval, k_no_mem, Update}
use lfi_runtime.Box.{Box, mapverify, protectverify, verify, cbunmap_all}

unfoldable pub lfi_box_ptrvalid : Box → ℕ → Bool
lfi_box_ptrvalid box addr = leb box.min addr && ltb addr box.max

unfoldable pub lfi_box_bufvalid : Box → ℕ → ℕ → Bool
lfi_box_bufvalid box addr size =
    leb box.min addr && leb addr box.max && leb size (sub64 box.max addr)

abbrev pub info_of : ℕ → ℕ → ℤ → ℤ → MapInfo
info_of prot flags fd off = record { prot = prot; flags = flags; fd = fd; offset = off }

abbrev pub with_mm : Box → AddrSpace → Box
with_mm box mm = record box { mm = mm }

-- The mapping is in the address map: verify it, or take it out again.
unfoldable pub map_or_undo :
    Oracle → Box → ℕ → ℕ → ℕ → ℕ → ℤ → ℤ → Bool → Trace → Option ℕ × Box × Trace
map_or_undo o box addr size prot flags fd off no_verify t =
    let (ok, t') = mapverify o box addr size prot flags fd off no_verify t in
    let (e, calls, mm) = AddrSpace.unmap box.mm addr size in
    if not ok then (none, with_mm box mm, cbunmap_all o calls t') else (some addr, box, t')

unfoldable pub box_mapany_locked :
    Oracle → Box → ℕ → ℕ → ℕ → ℤ → ℤ → Bool → Trace → Run (Option ℕ × Box × Trace)
box_mapany_locked o box size prot flags fd off no_verify t =
    AddrSpace.map_any box.mm 0 size (info_of prot flags fd off) >>= λ (a, mm). elim a [
      | none ↦ done (none, with_mm box mm, t)
      | some addr ↦ done (map_or_undo o (with_mm box mm) addr size prot flags fd off no_verify t)
    ]

unfoldable pub lfi_box_mapany :
    Oracle → Box → ℕ → ℕ → ℕ → ℤ → ℤ → Trace → Run (Option ℕ × Box × Trace)
lfi_box_mapany o box size prot flags fd off t =
    box_mapany_locked o box size prot flags fd off false t

unfoldable pub lfi_box_mapany_noverify :
    Oracle → Box → ℕ → ℕ → ℕ → ℤ → ℤ → Trace → Run (Option ℕ × Box × Trace)
lfi_box_mapany_noverify o box size prot flags fd off t =
    box_mapany_locked o box size prot flags fd off true t

unfoldable pub box_mapat_locked :
    Oracle → Box → ℕ → ℕ → ℕ → ℕ → ℤ → ℤ → Trace → Run (Option ℕ × Box × Trace)
box_mapat_locked o box addr size prot flags fd off t =
    if not (lfi_box_bufvalid box addr size)
    then done (none, box, t)
    else (AddrSpace.map_at box.mm addr size (info_of prot flags fd off) >>= λ (a, calls, mm).
        elim a [
          | none ↦ done (none, with_mm box mm, cbunmap_all o calls t)
          | some at ↦ done (
              map_or_undo o (with_mm box mm) at size prot flags fd off false
                (cbunmap_all o calls t))
        ])

unfoldable pub lfi_box_mapat :
    Oracle → Box → ℕ → ℕ → ℕ → ℕ → ℤ → ℤ → Trace → Run (Option ℕ × Box × Trace)
lfi_box_mapat o box addr size prot flags fd off t =
    box_mapat_locked o box addr size prot flags fd off t

-- The pages are there already: the mapping is only verified and recorded.
unfoldable pub lfi_box_mapat_register :
    Oracle → Box → ℕ → ℕ → ℕ → ℕ → ℤ → ℤ → Trace → Run (Option ℕ × Box × Trace)
lfi_box_mapat_register o box addr size prot flags fd off t =
    if not (lfi_box_bufvalid box addr size)
    then done (none, box, t)
    else (AddrSpace.map_at box.mm addr size (info_of prot flags fd off) >>= λ (a, calls, mm).
        elim a [
          | none ↦ done (none, with_mm box mm, cbunmap_all o calls t)
          | some at ↦
              let (ok, t') = verify o box at size prot (cbunmap_all o calls t) in
              let (e, ignored, mm') = AddrSpace.unmap mm at size in
              done (if not ok then (none, with_mm box mm', t') else (some at, with_mm box mm, t'))
        ])

-- `enum MMapError`, as the `int` that `lfi_box_mprotect` returns
abbrev pub error_code : Error → ℤ
error_code k_ok = pos 0
error_code k_inval = pos 1
error_code k_no_mem = pos 2

unfoldable pub box_mprotect_locked : Oracle → Box → ℕ → ℕ → ℕ → Bool → Trace → ℤ × Box × Trace
box_mprotect_locked o box addr size prot no_verify t =
    let pagesize = box.opts.pagesize in
    let (ok, t') = protectverify o box addr size prot no_verify t in
    let (e, mm) = AddrSpace.protect box.mm addr size prot in
    if size == 0 || not (addr % pagesize == 0) || not (size % pagesize == 0)
    then (negsuc 0, box, t)
    else if not (lfi_box_bufvalid box addr size)
    then (negsuc 0, box, t)
    else if not ok
    then (negsuc 0, box, t')
    else (error_code e, with_mm box mm, t')

unfoldable pub lfi_box_mprotect : Oracle → Box → ℕ → ℕ → ℕ → Trace → ℤ × Box × Trace
lfi_box_mprotect o box addr size prot t = box_mprotect_locked o box addr size prot false t

unfoldable pub lfi_box_mprotect_noverify : Oracle → Box → ℕ → ℕ → ℕ → Trace → ℤ × Box × Trace
lfi_box_mprotect_noverify o box addr size prot t = box_mprotect_locked o box addr size prot true t

unfoldable pub lfi_box_mquery : Box → ℕ → Option MapInfo
lfi_box_mquery box addr = AddrSpace.query_page box.mm addr

abbrev pub einval : ℕ
einval = 22

abbrev pub enomem : ℕ
enomem = 12

-- `(size + pagesize - 1) & ~(pagesize - 1)`, where the page size is a power of two
unfoldable pub page_ceil : ℕ → ℕ → ℕ
page_ceil size pagesize = let sum = sub64 (add64 size pagesize) 1 in sum - sum % pagesize

unfoldable pub box_munmap_locked : Oracle → Box → ℕ → ℕ → Trace → ℤ × Box × Trace
unfolding page_ceil
box_munmap_locked o box addr size t =
    let pagesize = box.opts.pagesize in
    let call = mmap addr (page_ceil size pagesize) prot_none anon_fixed (negsuc 0) (pos 0) in
    let (e, ignored, mm) = AddrSpace.unmap box.mm addr size in
    if not (lfi_box_bufvalid box addr size) || size == 0 || not (addr % pagesize == 0)
    then (neg einval, box, t)
    else elim (o t call) [
      | none ↦ (neg enomem, box, call ∷ t)
      | some m ↦ if not (m == addr) then (neg enomem, box, call ∷ t) else elim e [
        | k_ok ↦ (pos 0, with_mm box mm, call ∷ t)
        | _ ↦ (neg einval, with_mm box mm, call ∷ t)
      ]
    ]

unfoldable pub lfi_box_munmap : Oracle → Box → ℕ → ℕ → Trace → ℤ × Box × Trace
lfi_box_munmap o box addr size t = box_munmap_locked o box addr size t
