-- ===== src/Memory.antt =====
-- The memory calls of a process: `proc_mapany`, `proc_mapat` and `proc_unmap` of linux/proc.c, and
-- sys_mmap.c, sys_munmap.c and sys_mprotect.c of linux/sys. A file's descriptor is duplicated for the
-- time of the call; `dup` is the host's answer.
pub mod Safety
pub mod Tests
use lfi_runtime.Prelude.{
  ℕ, zero, suc, ◌+◌, ◌-◌, ◌*◌, ◌%◌, Bool, true, false, not, ◌&&◌, ◌||◌, Option, none, some, List,
  [], ◌∷◌, if◌then◌else◌, ◌==◌, ltb, leb, Run, done, aborted, ◌>>=◌, ℤ, pos, negsuc, neg, bit_and,
}
use lfi_runtime.Host.{close, Trace, Oracle}
use lfi_runtime.Box.{Box, has, prot_bit_exec, map_anonymous, map_fixed}
use lfi_runtime.Box.Maps.{
  lfi_box_ptrvalid, lfi_box_mapany, lfi_box_mapat, lfi_box_munmap, lfi_box_mprotect, einval,
}
use lfi_runtime.Box.Access.{size_max}
use lfi_runtime.BoxMap.{truncp}
use lfi_runtime.Brk.{align_up}
use lfi_runtime.Fd.{FdTable, fdacquire, fdrelease, linux_ebadf}

abbrev pub linux_eacces : ℕ
linux_eacces = 13

-- What is not LINUX_MAP_ANONYMOUS, PRIVATE, NORESERVE, DENYWRITE or FIXED, as bits of an `int`.
abbrev pub illegal_mask : ℕ
illegal_mask = 4_294_948_813

abbrev pub closes : List ℕ → Trace → Trace
closes [] t = t
closes (k ∷ ks) t = closes ks (close k ∷ t)

-- `fd >= 0 && f.kfd == -1`
abbrev pub bad_file : ℤ → ℤ → Bool
bad_file (negsuc n) kfd = false
bad_file (pos n) (negsuc zero) = true
bad_file (pos n) _ = false

-- a call's code, with the address where it gives one, and what it changes
abbrev pub MapResult : Type 0
MapResult = ℤ × Option ℕ × Box × Trace

-- The answer of the sandbox's mapping, and the release of the descriptor.
abbrev pub finish_map : FdTable → ℤ → Option ℕ × Box × Trace → MapResult
finish_map fds kfd (none, box, t) = (neg einval, none, box, closes (fdrelease fds kfd) t)
finish_map fds kfd (some a, box, t) = (pos 0, some a, box, closes (fdrelease fds kfd) t)

unfoldable pub proc_mapany :
    Oracle → Option ℕ → FdTable → Box → ℕ → ℕ → ℕ → ℤ → ℤ → Trace → Run MapResult
proc_mapany o dup fds box size prot flags fd offset t =
    let kfd = (fdacquire dup fds fd).0 in
    if bad_file fd kfd
    then done (neg linux_ebadf, none, box, closes (fdrelease fds kfd) t)
    else (lfi_box_mapany o box size prot flags kfd offset t >>= λ r. done (finish_map fds kfd r))

unfoldable pub proc_mapat :
    Oracle → Option ℕ → FdTable → Box → ℕ → ℕ → ℕ → ℕ → ℤ → ℤ → Trace → Run MapResult
proc_mapat o dup fds box start size prot flags fd offset t =
    let kfd = (fdacquire dup fds fd).0 in
    if bad_file fd kfd
    then done (neg linux_ebadf, none, box, closes (fdrelease fds kfd) t)
    else (lfi_box_mapat o box start size prot flags kfd offset t >>= λ r.
        done (finish_map fds kfd r))

unfoldable pub proc_unmap : Oracle → Box → ℕ → ℕ → Trace → ℤ × Box × Trace
proc_unmap o box start size t = lfi_box_munmap o box start size t

-- `& ~(pagesize - 1)`, where the page size is a power of two
unfoldable pub align_down : ℕ → ℕ → ℕ
align_down addr align = addr - addr % align

-- the address that `sys_mmap` answers where the mapping is fixed
abbrev pub at_address : ℕ → MapResult → MapResult
at_address addr (code, a, box, t) = (code, some addr, box, t)

-- the checks before the mapping; `none` is no error
unfoldable pub mmap_error : ℕ → ℕ → ℕ → ℕ → Option ℕ
mmap_error pagesize length prot flags =
    if length == 0
    then some einval
    else if ltb (size_max - (pagesize - 1)) length
    then some einval
    else if not (bit_and flags illegal_mask == 0)
    then some einval
    else if has prot prot_bit_exec && not (has flags map_anonymous)
    then some linux_eacces
    else none

unfoldable pub sys_mmap :
    Oracle → Option ℕ → FdTable → Box → ℕ → ℕ → ℕ → ℕ → ℤ → ℤ → Trace → Run MapResult
sys_mmap o dup fds box addrp length prot flags fd off t =
    let pagesize = box.opts.pagesize in
    let size = align_up length pagesize in
    let at = align_down addrp pagesize in
    elim (mmap_error pagesize length prot flags) [
      | some e ↦ done (neg e, none, box, t)
      | none ↦
          if has flags map_fixed
          then (if not (lfi_box_ptrvalid box at)
              then done (negsuc 0, none, box, t)
              else (proc_mapat o dup fds box at size prot flags fd off t >>= λ r.
                  done (at_address at r)))
          else proc_mapany o dup fds box size prot flags fd off t
    ]

unfoldable pub sys_munmap : Oracle → Box → ℕ → ℕ → Trace → ℤ × Box × Trace
sys_munmap o box addrp length t =
    if not (lfi_box_ptrvalid box addrp) then (negsuc 0, box, t) else proc_unmap o box addrp length t

unfoldable pub sys_mprotect : Oracle → Box → ℕ → ℕ → ℕ → Trace → ℤ × Box × Trace
sys_mprotect o box addrp length prot t =
    if length == 0
    then (neg einval, box, t)
    else if not (lfi_box_ptrvalid box addrp)
    then (negsuc 0, box, t)
    else lfi_box_mprotect o box addrp (align_up length box.opts.pagesize) prot t
