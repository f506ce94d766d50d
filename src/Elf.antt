-- ===== src/Elf.antt =====
-- linux/elfload.c, linux/buf.h and linux/align.h: how an ELF image gets into a sandbox. The build for
-- x64, where `bti` is false. The image is in memory, and may be a file too. The layout of the ELF
-- structures is that of <elf.h>, which is not in the repository: a parameter.
pub mod Load
pub mod Inside
pub mod Place
pub mod Contained
pub mod Pages
pub mod Segments
pub mod Image
pub mod Interp
pub mod Tests
use lfi_runtime.Prelude.{
  ℕ, zero, suc, ◌+◌, ◌-◌, ◌*◌, ◌%◌, ◌^◌, Bool, true, false, not, ◌&&◌, ◌||◌, Option, none, some,
  ◌∷◌, if◌then◌else◌, ◌==◌, ltb, leb, Run, done, ◌>>=◌, ◌>>◌, assert, add64, sub64, ℤ, pos, negsuc,
}
use lfi_runtime.Host.{mmap, mremap, copy_in, copy_out, memset, Trace, Oracle, HostProt, anon_fixed}
use lfi_runtime.Box.{
  Box, has, prot_bit_read, prot_bit_write, prot_bit_exec, map_private, map_anonymous,
}
use lfi_runtime.Box.Maps.{lfi_box_mapat, lfi_box_mapat_register, lfi_box_mprotect}
use lfi_runtime.Brk.{align_up}
use lfi_runtime.Memory.{align_down}

-- `struct Buf`: `fd` is -1 for an image that is only in memory. `bytes` are what is at `data`, here `start`.
pub record Buf : Type 0 where
  pub fd : ℤ
  pub start : ℕ
  pub size : ℕ
  pub bytes : ℕ → ℕ

-- the number of bytes that `buf_read` copies
unfoldable pub buf_read : Buf → ℕ → ℕ → ℕ
buf_read buf count offset =
    let avail = buf.size - offset in
    if leb buf.size offset then 0 else if ltb avail count then avail else count

pub data MapOp : Type 0 where
  elf_no_map elf_map elf_remap : MapOp

-- PF_X, PF_W, PF_R
pub pflags : ℕ → ℕ
pflags p =
    (if has p 4 then prot_bit_read else 0)
    + (if has p 2 then prot_bit_write else 0)
    + (if has p 1 then prot_bit_exec else 0)

-- the arguments of `buf_read_elfseg` that describe a segment: `end` is `stop` here
pub record Segment : Type 0 where
  pub start : ℕ
  pub offset : ℕ
  pub stop : ℕ
  pub p_offset : ℕ
  pub filesz : ℕ
  pub memsz : ℕ
  pub prot : ℕ
  pub p_align : ℕ

abbrev pub seg_size : Segment → ℕ
seg_size seg = sub64 seg.stop seg.start

unfoldable pub sanitize : ℕ → ℕ → ℕ → Trace → Trace
sanitize p sz prot t = if not (has prot prot_bit_exec) then t else memset p 0xcc sz ∷ t

-- what a way to map a segment gives: the address, or nothing where the code returns false or -1
abbrev pub Placed : Type 0
Placed = Option ℕ × Box × Trace

abbrev pub anonymous : ℕ
anonymous = map_private + map_anonymous

-- the zeroes behind the bytes of the file
unfoldable pub map_bss : Oracle → Box → Segment → ℕ → ℕ → Trace → Run Placed
map_bss o box seg pagesize p t =
    let bss_start = add64 (add64 seg.start seg.offset) seg.filesz in
    let bss_rest = align_up bss_start pagesize in
    let t' = memset bss_start 0 (sub64 bss_rest bss_start) ∷ t in
    let rest =
      lfi_box_mapat o box bss_rest (sub64 seg.stop bss_rest) seg.prot anonymous (negsuc 0) (pos 0)
        t' in
    if leb seg.memsz seg.filesz
    then done (some p, box, t)
    else if not (has seg.prot prot_bit_write)
    then done (none, box, t)
    else if ltb bss_rest seg.stop
    then rest
    else done (some p, box, t')

unfoldable pub map_file : Oracle → Box → Buf → Segment → ℕ → Trace → Run Placed
map_file o box buf seg pagesize t =
    lfi_box_mapat o box seg.start (seg_size seg) seg.prot map_private buf.fd
      (pos (align_down seg.p_offset seg.p_align)) t
    >>= λ (p, box', t'). elim p [
      | none ↦ done (none, box', t')
      | some at ↦ map_bss o box' seg pagesize at t'
    ]

abbrev pub read_write : HostProt
read_write = record { read = true; write = true; exec = false }

-- the memory behind a segment that was moved away: mapped anew, and filled again
unfoldable pub put_back : Oracle → ℕ → ℕ → ℕ → Placed → Placed
put_back o old n rm (p, box, t) =
    let call = mmap old n read_write anon_fixed (negsuc 0) (pos 0) in
    elim (o t call) [
      | none ↦ (none, box, call ∷ t)
      | some back ↦ (p, box, copy_out rm n ∷ call ∷ t)
    ]

-- `host_page` is what `getpagesize` gives.
unfoldable pub remap : Oracle → ℕ → Box → Buf → Segment → Trace → Run Placed
remap o host_page box buf seg t =
    let foff = align_down seg.p_offset seg.p_align in
    let mapped = align_up buf.size host_page in
    let n = seg_size seg in
    let old = add64 buf.start foff in
    let call = mremap old n seg.start in
    let register =
      lfi_box_mapat_register o box seg.start n seg.prot anonymous (negsuc 0) (pos 0) (call ∷ t) in
    assert (buf.start % host_page == 0)
    >> (if ltb mapped buf.size || ltb mapped foff || ltb (mapped - foff) n
        then done (none, box, t)
        else elim (o t call) [
          | none ↦ done (none, box, call ∷ t)
          | some rm ↦ register >>= λ r. done (put_back o old n rm r)
        ])

-- `fd != -1`
abbrev pub from_file : ℤ → Bool
from_file (negsuc zero) = false
from_file _ = true

-- The chain of ways to map a segment.
unfoldable pub place : Oracle → ℕ → MapOp → Box → Buf → Segment → ℕ → Trace → Run Placed
place o host_page elf_map box buf seg pagesize t =
    let memory =
      lfi_box_mapat o box seg.start (seg_size seg) (prot_bit_read + prot_bit_write) anonymous
        (negsuc 0) (pos 0) t in
    let file = map_file o box buf seg pagesize t in if from_file buf.fd then file else memory
place o host_page elf_remap box buf seg pagesize t = remap o host_page box buf seg t
place o host_page elf_no_map box buf seg pagesize t =
    lfi_box_mapat_register o box seg.start (seg_size seg) seg.prot anonymous (negsuc 0) (pos 0) t

-- `lfi_box_mprotect(...) < 0`
abbrev pub denied : ℤ → Bool
denied (pos n) = false
denied (negsuc n) = true

unfoldable pub protect_segment : Oracle → Box → Segment → Trace → Bool × Box × Trace
protect_segment o box seg t =
    let (code, box', t') = lfi_box_mprotect o box seg.start (seg_size seg) seg.prot t in
    (not (denied code), box', t')

-- the bytes into a mapping that has none yet, and its protection
unfoldable pub fill : Oracle → Box → Buf → Segment → ℕ → ℕ → Trace → Bool × Box × Trace
fill o box buf seg pagesize p t =
    let n = buf_read buf seg.filesz seg.p_offset in
    let t' =
      sanitize (sub64 seg.stop pagesize) pagesize seg.prot (sanitize p pagesize seg.prot t) in
    let t'' = copy_in (add64 seg.start seg.offset) n ∷ t' in
    if not (n == seg.filesz) then (false, box, t'') else protect_segment o box seg t''

-- what is left to do for a mapping that is there
unfoldable pub finish_segment :
    Oracle → MapOp → Box → Buf → Segment → ℕ → ℕ → Trace → Bool × Box × Trace
finish_segment o elf_remap box buf seg pagesize p t = protect_segment o box seg t
finish_segment o elf_no_map box buf seg pagesize p t = (true, box, t)
finish_segment o elf_map box buf seg pagesize p t =
    if from_file buf.fd then (true, box, t) else fill o box buf seg pagesize p t

-- Only an executable segment is remapped.
abbrev pub segment_op : MapOp → ℕ → MapOp
segment_op elf_remap prot = if has prot prot_bit_exec then elf_remap else elf_map
segment_op op prot = op

unfoldable pub buf_read_elfseg :
    Oracle → ℕ → Box → Segment → Buf → ℕ → MapOp → Trace → Run (Bool × Box × Trace)
buf_read_elfseg o host_page box seg buf pagesize map_op t =
    let op = segment_op map_op seg.prot in
    place o host_page op box buf seg pagesize t >>= λ (p, box', t'). elim p [
      | none ↦ done (false, box', t')
      | some at ↦ done (finish_segment o op box' buf seg pagesize at t')
    ]
