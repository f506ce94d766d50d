-- ===== src/Elf/Contained.antt =====
-- Loading a segment of an ELF image (linux/elfload.c) stays inside the sandbox, but for remapping.
use native.Mathlib.Omega.{arith}
use lfi_runtime.Prelude.{
  ℕ, ◌+◌, ◌≤◌, ◌≡◌, Bool, false, none, some, ◌∷◌, ◌==◌, leb, add64, sub64, Bool-cases, inl, inr,
  Run, done, Returns, returns, Returns-bind,
}
use lfi_runtime.Host.{Trace, Oracle, copy_in}
use lfi_runtime.Box.{Box, has, prot_bit_exec}
use lfi_runtime.Box.Bounds.{InBox}
use lfi_runtime.Box.Inside.{IsBox, CallsIn}
use lfi_runtime.Box.Stays.{Stays, unchanged, Stays-trans}
use lfi_runtime.Box.StaysCall.{multiple_le}
use lfi_runtime.Elf.{
  Buf, buf_read, MapOp, elf_no_map, elf_map, elf_remap, Segment, seg_size, sanitize, Placed,
  from_file, protect_segment, fill, finish_segment, segment_op, buf_read_elfseg,
}
use lfi_runtime.Elf.Inside.{lfi_box_mprotect-Stays}
use lfi_runtime.Elf.Place.{IsSegment, PlaceOk, Plain, place-PlaceOk, InBox-back, CallsIn-back}

-- The end of a part of the loader.
abbrev pub LoadStays {ℓ} : {A : Type ℓ} → Box → A × Box × Trace → Type 0
LoadStays box (a, box', t) = Stays box (box', t)

protect_segment-Stays :
    (o : Oracle) (box : Box) (seg : Segment) (t : Trace)
    → IsBox box
    → CallsIn box.min box.max t
    → LoadStays box (protect_segment o box seg t)
unfolding protect_segment
protect_segment-Stays o box seg t h c =
    lfi_box_mprotect-Stays o box h seg.start (seg_size seg) seg.prot t c

-- A segment has room for a page.
one_page : {pagesize : ℕ} {seg : Segment} → IsSegment pagesize seg → seg.start + pagesize ≤ seg.stop
one_page {pagesize} {seg} w = elim (Bool-cases (leb (seg.start + pagesize) seg.stop)) [
  | inl le ↦ ground arith
  | inr gt ↦
      let more = w.some_bytes in
      let le =
        multiple_le seg.stop seg.start pagesize w.some_page w.whole_stop w.whole_start
          (ground arith) in
      absurd (omega arith)
]

sanitize-CallsIn :
    (lo hi p n prot : ℕ) (t : Trace)
    → lo ≤ p
    → p + n ≤ hi
    → CallsIn lo hi t
    → CallsIn lo hi (sanitize p n prot t)
unfolding sanitize
sanitize-CallsIn lo hi p n prot t a b c = elim (Bool-cases (has prot prot_bit_exec)) [
  | inl x ↦ rw x ((a, b), c)
  | inr no_x ↦ rw no_x c
]

buf_read-le : (buf : Buf) (count offset : ℕ) → buf_read buf count offset ≤ count
unfolding buf_read
buf_read-le buf count offset = ground arith

fill-Stays :
    (o : Oracle) (box : Box) (buf : Buf) (seg : Segment) (pagesize : ℕ) (t : Trace)
    → IsBox box
    → IsSegment pagesize seg
    → InBox box seg.start (seg_size seg)
    → CallsIn box.min box.max t
    → LoadStays box (fill o box buf seg pagesize seg.start t)
unfolding fill
fill-Stays o box buf seg pagesize t h w inside c =
    let page = one_page w in
    let span = w.span in
    let part = w.file_part in
    let small = w.no_wrap in
    let n = buf_read buf seg.filesz seg.p_offset in
    let short : n ≤ seg.filesz = buf_read-le buf seg.filesz seg.p_offset in
    let low =
      sanitize-CallsIn box.min box.max seg.start pagesize seg.prot t (omega arith) (omega arith)
        c in
    let t' =
      sanitize (sub64 seg.stop pagesize) pagesize seg.prot
        (sanitize seg.start pagesize seg.prot t) in
    let high : CallsIn box.min box.max t' =
      sanitize-CallsIn box.min box.max (sub64 seg.stop pagesize) pagesize seg.prot _ (omega arith)
        (omega arith) low in
    let calls : CallsIn box.min box.max (copy_in (add64 seg.start seg.offset) n ∷ t') =
      ((omega arith, omega arith), high) in
    elim (Bool-cases (n == seg.filesz)) [
      | inr partly ↦ rw partly (unchanged box h, calls)
      | inl all ↦ rw all (protect_segment-Stays o box seg _ h calls)
    ]

finish_segment-Stays :
    (o : Oracle) (op : MapOp) (box : Box) (buf : Buf) (seg : Segment) (pagesize p : ℕ) (t : Trace)
    → IsBox box
    → IsSegment pagesize seg
    → InBox box seg.start (seg_size seg)
    → (from_file buf.fd ≡ false → p ≡ seg.start)
    → CallsIn box.min box.max t
    → LoadStays box (finish_segment o op box buf seg pagesize p t)
unfolding finish_segment
finish_segment-Stays o elf_remap box buf seg pagesize p t h w inside at c =
    protect_segment-Stays o box seg t h c
finish_segment-Stays o elf_no_map box buf seg pagesize p t h w inside at c = (unchanged box h, c)
finish_segment-Stays o elf_map box buf seg pagesize p t h w inside at c =
    elim (Bool-cases (from_file buf.fd)) [
      | inl file ↦ rw file (unchanged box h, c)
      | inr memory ↦ rw (memory, at memory) (fill-Stays o box buf seg pagesize t h w inside c)
    ]

segment_op-Plain : (op : MapOp) (prot : ℕ) → Plain op → Plain (segment_op op prot)
segment_op-Plain elf_remap prot plain = elim plain [ ]
segment_op-Plain elf_map prot plain = tt
segment_op-Plain elf_no_map prot plain = tt

pub buf_read_elfseg-Stays :
    (o : Oracle) (host_page : ℕ) (box : Box) (seg : Segment) (buf : Buf) (pagesize : ℕ) (op : MapOp)
    (t : Trace)
    → Plain op
    → IsSegment pagesize seg
    → IsBox box
    → CallsIn box.min box.max t
    → Returns (LoadStays box) (buf_read_elfseg o host_page box seg buf pagesize op t)
unfolding buf_read_elfseg
buf_read_elfseg-Stays o host_page box seg buf pagesize op t plain w h c =
    Returns-bind
      (place-PlaceOk o host_page (segment_op op seg.prot) box buf seg pagesize t
        (segment_op-Plain op seg.prot plain) w h c)
      go
  where
    go :
        (r : Placed)
        → PlaceOk box seg buf.fd r
        → Returns (LoadStays box) (elim r.0 as (λ x. Run (Bool × Box × Trace)) [
          | none ↦ done (false, r.1, r.2)
          | some at ↦ done (finish_segment o (segment_op op seg.prot) r.1 buf seg pagesize at r.2)
        ])
    go (none, b, t') k = returns k
    go (some at, b, t') k = returns (
        Stays-trans _ k.0.0 (
          finish_segment-Stays o (segment_op op seg.prot) b buf seg pagesize at t' k.0.0.is_box w
            (InBox-back box b seg.start (seg_size seg) k.0.0 k.1) k.2
            (CallsIn-back box b t' k.0.0 k.0.1)))
