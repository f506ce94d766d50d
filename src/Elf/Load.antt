-- ===== src/Elf/Load.antt =====
-- `elf_interp`, `elf_load_one` and `elf_load` of linux/elfload.c. Log lines, the perf map and the
-- registration with debuggers are output.
use lfi_runtime.Prelude.{
  ℕ, zero, suc, ◌+◌, ◌-◌, ◌*◌, ◌%◌, ◌^◌, Bool, true, false, not, ◌&&◌, ◌||◌, Option, none, some,
  List, [], ◌∷◌, if◌then◌else◌, ◌==◌, ltb, leb, Run, done, ◌>>=◌, add64, bit_and,
}
use lfi_runtime.Host.{malloc, Trace, Oracle}
use lfi_runtime.Box.{Box}
use lfi_runtime.Brk.{align_up}
use lfi_runtime.Memory.{align_down}
use lfi_runtime.Elf.{Buf, buf_read, MapOp, Segment, pflags, buf_read_elfseg}

-- The fields of `Elf64_Ehdr` and `Elf64_Phdr` that are read.
pub record Ehdr : Type 0 where
  pub e_ident : ℕ → ℕ
  pub e_type : ℕ
  pub e_version : ℕ
  pub e_entry : ℕ
  pub e_phoff : ℕ
  pub e_phentsize : ℕ
  pub e_phnum : ℕ

pub record Phdr : Type 0 where
  pub p_type : ℕ
  pub p_flags : ℕ
  pub p_offset : ℕ
  pub p_vaddr : ℕ
  pub p_filesz : ℕ
  pub p_memsz : ℕ
  pub p_align : ℕ

-- How <elf.h> lays the structures out: the header at the start of the bytes, a program header at an
-- offset.
pub record Layout : Type 0 where
  pub ehdr : (ℕ → ℕ) → Ehdr
  pub phdr : (ℕ → ℕ) → ℕ → Phdr

-- the sizes of the two structures
abbrev pub ehdr_size : ℕ
ehdr_size = 64

abbrev pub phdr_size : ℕ
phdr_size = 56

abbrev pub phnum_max : ℕ
phnum_max = 64

abbrev pub interp_max : ℕ
interp_max = 1024

abbrev pub code_max : ℕ
code_max = 1_073_741_824

-- ET_DYN, PT_LOAD, PT_INTERP
abbrev pub et_dyn : ℕ
et_dyn = 3

abbrev pub pt_load : ℕ
pt_load = 1

abbrev pub pt_interp : ℕ
pt_interp = 3

unfoldable pub elf_check : Ehdr → Bool
elf_check e =
    e.e_ident 0 == 0x7f
    && e.e_ident 1 == 69
    && e.e_ident 2 == 76
    && e.e_ident 3 == 70
    && e.e_ident 4 == 2
    && e.e_version == 1

-- the program headers, by the number that is left
unfoldable pub phdrs_from : Layout → (ℕ → ℕ) → ℕ → ℕ → List Phdr
phdrs_from layout bytes zero offset = []
phdrs_from layout bytes (suc n) offset =
    layout.phdr bytes offset ∷ phdrs_from layout bytes n (offset + phdr_size)

-- whether the whole array of program headers is in the image
pub has_phdrs : Buf → Ehdr → Bool
has_phdrs buf e =
    let size = phdr_size * e.e_phnum in
    not (leb buf.size e.e_phoff) && buf_read buf size e.e_phoff == size

-- The path of the interpreter, as the offset and the length of its bytes. `malloc_ok` is whether the
-- host has memory for it.
unfoldable pub find_interp : Bool → Buf → List Phdr → Option (ℕ × ℕ)
find_interp malloc_ok buf [] = none
find_interp malloc_ok buf (p ∷ ps) =
    let rest = find_interp malloc_ok buf ps in
    if not (p.p_type == pt_interp)
    then rest
    else if leb interp_max p.p_filesz || not malloc_ok
    then none
    else if buf_read buf p.p_filesz p.p_offset == p.p_filesz
    then some (p.p_offset, p.p_filesz)
    else none

unfoldable pub elf_interp : Layout → Bool → Buf → Option (ℕ × ℕ)
unfolding find_interp has_phdrs phdrs_from
elf_interp layout malloc_ok buf =
    let e = layout.ehdr buf.bytes in
    if not (buf_read buf ehdr_size 0 == ehdr_size)
    then none
    else if e.e_phnum == 0 || ltb phnum_max e.e_phnum || not (has_phdrs buf e)
    then none
    else find_interp malloc_ok buf (phdrs_from layout buf.bytes e.e_phnum e.e_phoff)

abbrev pub uintptr_max : ℕ
uintptr_max = 2 ^ 64 - 1

abbrev pub seg_first : Phdr → ℕ
seg_first p = align_down p.p_vaddr p.p_align

abbrev pub seg_last : Phdr → ℕ
seg_last p = align_up (add64 p.p_vaddr p.p_memsz) p.p_align

-- the checks of a program header that end in an error
unfoldable pub bad_segment : ℕ → Phdr → Bool
bad_segment pagesize p =
    p.p_align == 0
    || not (bit_and p.p_align (p.p_align - 1) == 0)
    || not (p.p_align % pagesize == 0)
    || ltb (uintptr_max - p.p_vaddr) p.p_memsz
    || ltb p.p_memsz p.p_filesz
    || leb (seg_last p) (seg_first p)
    || leb code_max (seg_first p)
    || leb code_max (seg_last p)

-- what `elf_load_one` keeps from one segment to the next
pub record Progress : Type 0 where
  pub base : ℕ
  pub first : ℕ
  pub last : ℕ

abbrev pub segment_at : ℕ → Phdr → Segment
segment_at base p = record {
  start = add64 base (seg_first p);
  offset = p.p_vaddr - seg_first p;
  stop = add64 base (seg_last p);
  p_offset = p.p_offset;
  filesz = p.p_filesz;
  memsz = p.p_memsz;
  prot = pflags p.p_flags;
  p_align = p.p_align;
}

unfoldable pub advance : ℕ → Phdr → Progress → Progress
advance elfbase p g =
    let base' = if g.base == 0 then add64 g.base (seg_first p) else g.base in
    record {
      base = base';
      first =
          if g.first == 0 || ltb (add64 elfbase (seg_first p)) g.first
          then add64 elfbase (seg_first p)
          else g.first;
      last = if ltb g.last (add64 base' (seg_last p)) then add64 base' (seg_last p) else g.last;
    }

-- the `for` loop over the program headers
unfoldable pub load_segments :
    Oracle
    → ℕ
    → Buf
    → ℕ
    → MapOp
    → ℕ
    → List Phdr
    → Progress
    → Box
    → Trace
    → Run (Option Progress × Box × Trace)
load_segments o host_page buf pagesize op elfbase [] g box t = done (some g, box, t)
load_segments o host_page buf pagesize op elfbase (p ∷ ps) g box t =
    let skip = load_segments o host_page buf pagesize op elfbase ps g box t in
    let load =
      buf_read_elfseg o host_page box (segment_at g.base p) buf pagesize op t >>= λ (ok, box', t').
      elim ok [
        | false ↦ done (none, box', t')
        | true ↦ load_segments o host_page buf pagesize op elfbase ps (advance elfbase p g) box' t'
      ] in
    if not (p.p_type == pt_load) || p.p_memsz == 0
    then skip
    else if bad_segment pagesize p
    then done (none, box, t)
    else load

-- The first and last address of the image and its entry point; `none` is false.
pub record Loaded : Type 0 where
  pub first : ℕ
  pub last : ℕ
  pub entry : ℕ

abbrev pub loaded : Ehdr → Option Progress × Box × Trace → Option Loaded × Box × Trace
loaded e (none, box, t) = (none, box, t)
loaded e (some g, box, t) =
    (some (record { first = g.first; last = g.last; entry = add64 g.base e.e_entry }), box, t)

unfoldable pub elf_load_one :
    Oracle → ℕ → Layout → Box → Buf → ℕ → ℕ → MapOp → Trace → Run (Option Loaded × Box × Trace)
unfolding has_phdrs phdrs_from
elf_load_one o host_page layout box buf base pagesize op t =
    let e = layout.ehdr buf.bytes in
    let phdrs = phdrs_from layout buf.bytes e.e_phnum e.e_phoff in
    let begin : Progress = record { base = base; first = 0; last = 0 } in
    let segments = load_segments o host_page buf pagesize op base phdrs begin box (malloc ∷ t) in
    if not (buf_read buf ehdr_size 0 == ehdr_size)
    then done (none, box, t)
    else if not (elf_check e) || not (e.e_type == et_dyn) || ltb phnum_max e.e_phnum
    then done (none, box, t)
    else elim (o t malloc) [
      | none ↦ done (none, box, malloc ∷ t)
      | some m ↦
          if not (has_phdrs buf e) || leb code_max e.e_entry
          then done (none, box, malloc ∷ t)
          else (segments >>= λ r. done (loaded e r))
    ]

-- `struct ELFLoadInfo`, of the fields that depend on where the images lie
pub record LoadInfo : Type 0 where
  pub lastva : ℕ
  pub elfentry : ℕ
  pub ldentry : ℕ
  pub elfbase : ℕ
  pub ldbase : ℕ

-- The program, and then its interpreter behind it where there is one. `box_info.min` is the box's
-- lower bound.
unfoldable pub elf_load :
    Oracle
    → ℕ
    → Layout
    → Box
    → Buf
    → Option Buf
    → MapOp
    → Trace
    → Run (Option LoadInfo × Box × Trace)
elf_load o host_page layout box prog interp op t =
    let pagesize = box.opts.pagesize in
    elf_load_one o host_page layout box prog box.min pagesize op t >>= λ (p, box', t'). elim p [
      | none ↦ done (none, box', t')
      | some pl ↦ elim interp [
        | none ↦ done (
          some (record {
            lastva = pl.last;
            elfentry = pl.entry;
            ldentry = 0;
            elfbase = pl.first;
            ldbase = pl.first;
          }),
          box',
          t',
        )
        | some ibuf ↦
            elf_load_one o host_page layout box' ibuf pl.last pagesize op t' >>= λ (i, box'', t'').
            elim i [
              | none ↦ done (none, box'', t'')
              | some il ↦ done (
                some (record {
                  lastva = il.last;
                  elfentry = pl.entry;
                  ldentry = il.entry;
                  elfbase = pl.first;
                  ldbase = il.first;
                }),
                box'',
                t'',
              )
            ]
      ]
    ]
