-- ===== src/Elf/Interp.antt =====
-- The interpreter's path that `elf_interp` of linux/elfload.c copies.
use native.Mathlib.Omega.{arith}
use lfi_runtime.Prelude.{
  ℕ, ◌+◌, ◌≤◌, ◌<◌, ◌≡◌, Bool, true, not, ◌||◌, Option, none, some, List, [], ◌∷◌, ◌==◌, leb, ltb,
  Bool-cases, inl, inr,
}
use lfi_runtime.Elf.{Buf, buf_read}
use lfi_runtime.Elf.Load.{
  Layout, Phdr, ehdr_size, phnum_max, interp_max, pt_interp, has_phdrs, phdrs_from, find_interp,
  elf_interp,
}

-- A path of fewer than 1024 bytes, all of them in the image.
abbrev pub InImage : Buf → Option (ℕ × ℕ) → Type 0
InImage buf none = Unit
InImage buf (some (offset, len)) = (len < interp_max) × (0 < len → offset + len ≤ buf.size)

read_all :
    (buf : Buf) (len offset : ℕ)
    → (buf_read buf len offset == len) ≡ true
    → 0 < len
    → offset + len ≤ buf.size
unfolding buf_read
read_all buf len offset e more = ground arith

find_interp-InImage :
    (malloc_ok : Bool) (buf : Buf) (ps : List Phdr) → InImage buf (find_interp malloc_ok buf ps)
unfolding find_interp
find_interp-InImage malloc_ok buf [] = tt
find_interp-InImage malloc_ok buf (p ∷ ps) = elim (Bool-cases (not (p.p_type == pt_interp))) [
  | inl other ↦ rw other (find_interp-InImage malloc_ok buf ps)
  | inr this ↦ rw this (elim (Bool-cases (leb interp_max p.p_filesz || not malloc_ok)) [
    | inl bad ↦ rw bad tt
    | inr fine ↦ rw fine (elim (Bool-cases (buf_read buf p.p_filesz p.p_offset == p.p_filesz)) [
      | inr short ↦ rw short tt
      | inl all ↦ rw all (ground arith, read_all buf p.p_filesz p.p_offset all)
    ])
  ])
]

-- The interpreter's path that `elf_interp` finds has fewer than 1024 bytes, and all of them are in the
-- image, whatever its headers say.
pub elf_interp-InImage :
    (layout : Layout) (malloc_ok : Bool) (buf : Buf) → InImage buf (elf_interp layout malloc_ok buf)
unfolding elf_interp
elf_interp-InImage layout malloc_ok buf =
    let e = layout.ehdr buf.bytes in
    elim (Bool-cases (buf_read buf ehdr_size 0 == ehdr_size)) [
      | inr short ↦ rw short tt
      | inl header ↦
          rw header
            (elim (Bool-cases
              (e.e_phnum == 0 || ltb phnum_max e.e_phnum || not (has_phdrs buf e))) [
                | inl bad ↦ rw bad tt
                | inr fine ↦ rw fine (
                    find_interp-InImage malloc_ok buf
                      (phdrs_from layout buf.bytes e.e_phnum e.e_phoff))
              ])
    ]
