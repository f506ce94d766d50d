-- ===== src/Elf/Tests.antt =====
-- The theorems on linux/elfload.c at an image of one segment and its interpreter.
use native.Mathlib.Omega.{arith}
use lfi_runtime.Prelude.{refl, true, false, some, [], negsuc, Returns, if◌then◌else◌, ◌==◌}
use lfi_runtime.Host.{mmap, Oracle}
use lfi_runtime.Box.{Box}
use lfi_runtime.Elf.{Buf, elf_map}
use lfi_runtime.Elf.Load.{Ehdr, Phdr, Layout, elf_load, elf_interp}
use lfi_runtime.Elf.Contained.{LoadStays}
use lfi_runtime.Elf.Image.{IsLayout, IsLoadable, elf_load-LoadStays}
use lfi_runtime.Elf.Interp.{InImage, elf_interp-InImage}

-- A host that maps where it is asked to, and accepts all code.
abbrev obliging : Oracle
obliging t (mmap addr len prot flags fd off) = some addr
obliging t call = some 1

abbrev box : Box
box = record {
  base = 65_536;
  size = 65_536;
  min = 69_632;
  max = 131_072;
  max_exec = 131_072;
  mm = record { base = 17; len = 15; p2pagesize = 12; aslr = false; rand_state = 0; regions = [] };
  retaddr = 0;
  opts = record {
    pagesize = 4096;
    boxsize = 65_536;
    no_verify = false;
    allow_wx = false;
    no_aslr = true;
  };
}

box-IsLoadable : IsLoadable box
box-IsLoadable = record {
  is_box = record {
    space = record {
      ordered = tt;
      inside = λ page info e. absurd (ground arith);
      fits = omega arith;
    };
    low = omega arith;
    high = omega arith;
    some_page = omega arith;
    aligned = refl;
    no_wrap = omega arith;
  };
  whole_min = refl;
  room = omega arith;
}

-- one program header, of code in two pages
abbrev header : Ehdr
header = record {
  e_ident = λ i.
      if i == 0
      then 127
      else if i == 1
      then 69
      else if i == 2
      then 76
      else if i == 3
      then 70
      else 2;
  e_type = 3;
  e_version = 1;
  e_entry = 64;
  e_phoff = 64;
  e_phentsize = 56;
  e_phnum = 1;
}

abbrev code : Phdr
code = record {
  p_type = 1;
  p_flags = 5;
  p_offset = 0;
  p_vaddr = 0;
  p_filesz = 5000;
  p_memsz = 5000;
  p_align = 4096;
}

abbrev one_segment : Layout
one_segment = record { ehdr = λ bytes. header; phdr = λ bytes offset. code }

one_segment-IsLayout : IsLayout one_segment
one_segment-IsLayout bytes offset = omega arith

abbrev image : Buf
image = record { fd = negsuc 0; start = 8192; size = 5000; bytes = λ i. 0 }

elf_load-LoadStays_example :
    Returns (LoadStays box) (elf_load obliging 4096 one_segment box image (some image) elf_map [])
elf_load-LoadStays_example =
    elf_load-LoadStays obliging 4096 one_segment box image (some image) elf_map []
      one_segment-IsLayout tt box-IsLoadable tt

-- one program header, of the interpreter's path of 20 bytes at 300
abbrev with_path : Layout
with_path = record {
  ehdr = λ bytes. header;
  phdr = λ bytes offset. record code { p_type = 3; p_offset = 300; p_filesz = 20 };
}

elf_interp-InImage_example : InImage image (elf_interp with_path true image)
elf_interp-InImage_example = elf_interp-InImage with_path true image
