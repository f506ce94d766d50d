-- ===== src/Elf/Place.antt =====
-- The ways to map a segment (linux/elfload.c) stay inside the sandbox, but for remapping.
use native.Mathlib.Omega.{arith}
use native.Mathlib.Nat.{div-add-mod', mul-mod_left, mod-lt}
use lfi_runtime.Prelude.{
  ℕ, ◌+◌, ◌-◌, ◌*◌, ◌/◌, ◌%◌, ◌≤◌, ◌<◌, ◌≡◌, sym, true, false, none, some, ◌∷◌, leb, ltb, ℤ, pos,
  negsuc, word, add64, sub64, Bool-cases, inl, inr, Run, done, Returns, returns, Returns-bind,
  Returns-map,
}
use lfi_runtime.Host.{Trace, Oracle, memset}
use lfi_runtime.Box.{Box, has, prot_bit_read, prot_bit_write, map_private}
use lfi_runtime.Box.Bounds.{InBox}
use lfi_runtime.Box.Inside.{IsBox, CallsIn}
use lfi_runtime.Box.Stays.{SameBox, Stays, unchanged, Stays-trans}
use lfi_runtime.Box.StaysCall.{multiple_le}
use lfi_runtime.Brk.{align_up}
use lfi_runtime.Memory.{align_down}
use lfi_runtime.Elf.{
  Buf, MapOp, elf_no_map, elf_map, elf_remap, Segment, seg_size, anonymous, Placed, map_bss,
  map_file, from_file, place,
}
use lfi_runtime.Elf.Inside.{PlacedIn, lfi_box_mapat-PlacedIn, lfi_box_mapat_register-PlacedIn}

-- What `elf_load_one` has checked of a segment when it loads it: whole pages, with the bytes of the
-- file and the zeroes behind them in it.
pub record IsSegment (pagesize : ℕ) (seg : Segment) : Type 0 where
  pub some_page : 0 < pagesize
  pub some_bytes : seg.start < seg.stop
  pub span : seg.start + seg.offset + seg.memsz ≤ seg.stop
  pub file_part : seg.filesz ≤ seg.memsz
  pub whole_start : seg.start % pagesize ≡ 0
  pub whole_stop : seg.stop % pagesize ≡ 0
  pub no_wrap : seg.stop + pagesize < word

-- A number of whole pages rounded up to whole pages is not past the next multiple.
pub align_up-le :
    (x stop ps : ℕ)
    → 0 < ps
    → stop % ps ≡ 0
    → x ≤ stop
    → stop + ps < word
    → (x ≤ align_up x ps) × (align_up x ps ≤ stop)
unfolding align_up
align_up-le x stop ps some_ps whole le small =
    let sum = x + ps - 1 in
    let e : add64 x (sub64 ps 1) ≡ sum = omega arith in
    let div = div-add-mod' sum ps in
    let lt = mod-lt sum some_ps in
    let m : (sum - sum % ps) % ps ≡ 0 =
      let q : sum - sum % ps ≡ sum / ps * ps = omega arith in rw q (mul-mod_left (sum / ps) ps) in
    let top = multiple_le (sum - sum % ps) stop ps some_ps m whole (omega arith) in
    rw e (omega arith, top)

-- The bounds of a box and of the box after an operation are the same.
pub InBox-same :
    (box box' : Box) (addr size : ℕ) → SameBox box box' → InBox box' addr size → InBox box addr size
InBox-same box box' addr size same h = rw (sym same.same_min, sym same.same_max) h

pub InBox-back :
    (box box' : Box) (addr size : ℕ) → SameBox box box' → InBox box addr size → InBox box' addr size
InBox-back box box' addr size same h = rw (same.same_min, same.same_max) h

pub CallsIn-back :
    (box box' : Box) (t : Trace)
    → SameBox box box'
    → CallsIn box.min box.max t
    → CallsIn box'.min box'.max t
CallsIn-back box box' t same h = rw (same.same_min, same.same_max) h

-- The end of a way to map a segment: inside, and an answer means that the segment is in bounds. An
-- image that is only in memory is answered at its start.
abbrev pub PlaceOk : Box → Segment → ℤ → Placed → Type 0
PlaceOk box seg fd (none, box', t) = Stays box (box', t)
PlaceOk box seg fd (some p, box', t) =
    Stays box (box', t)
    × InBox box seg.start (seg_size seg)
    × (from_file fd ≡ false → p ≡ seg.start)

module _ (o : Oracle) {pagesize : ℕ} {seg : Segment} (w : IsSegment pagesize seg) where
  placed_ok :
      (box : Box) (fd : ℤ) (r : Placed)
      → PlacedIn box seg.start (seg_size seg) r
      → PlaceOk box seg fd r
  placed_ok box fd (none, box', t) h = h.0
  placed_ok box fd (some p, box', t) h = (h.0, h.1.1, λ e. h.1.0)

  bss_answer :
      (box : Box) (fd : ℤ) (at n : ℕ) (r : Placed)
      → InBox box seg.start (seg_size seg)
      → from_file fd ≡ true
      → PlacedIn box at n r
      → PlaceOk box seg fd r
  bss_answer box fd at n (none, box', t) inside file h = h.0
  bss_answer box fd at n (some p, box', t) inside file h = (h.0, inside, λ e. absurd (ground arith))

  map_bss-PlaceOk :
      (box : Box) (fd : ℤ) (t : Trace)
      → IsBox box
      → InBox box seg.start (seg_size seg)
      → from_file fd ≡ true
      → CallsIn box.min box.max t
      → Returns (PlaceOk box seg fd) (map_bss o box seg pagesize seg.start t)
  unfolding map_bss
  map_bss-PlaceOk box fd t h inside file c =
      let span = w.span in
      let part = w.file_part in
      let more = w.some_bytes in
      let small = w.no_wrap in
      let file_end = seg.start + seg.offset + seg.filesz in
      let e : add64 (add64 seg.start seg.offset) seg.filesz ≡ file_end = omega arith in
      let rest =
        align_up-le file_end seg.stop pagesize w.some_page w.whole_stop (omega arith) small in
      let top : seg.stop ≤ box.max = omega arith in
      let clear : CallsIn box.min box.max
          (memset file_end 0 (sub64 (align_up file_end pagesize) file_end) ∷ t) =
        ((omega arith, omega arith), c) in
      let here : Stays box (box, t) = (unchanged box h, c) in
      let cleared : Stays box
          (box, memset file_end 0 (sub64 (align_up file_end pagesize) file_end) ∷ t) =
        (unchanged box h, clear) in
      rw e (elim (Bool-cases (leb seg.memsz seg.filesz)) [
        | inl no_bss ↦ rw no_bss (returns (here, inside, λ f. absurd (ground arith)))
        | inr bss ↦ rw bss (elim (Bool-cases (has seg.prot prot_bit_write)) [
          | inr ro ↦ rw ro (returns here)
          | inl writable ↦
              rw writable (elim (Bool-cases (ltb (align_up file_end pagesize) seg.stop)) [
                | inr all ↦ rw all (returns (cleared, inside, λ f. absurd (ground arith)))
                | inl pages ↦ rw pages (
                    Returns-map
                      (lfi_box_mapat-PlacedIn o box h (align_up file_end pagesize) _ seg.prot
                        anonymous (negsuc 0) (pos 0) _ clear)
                      (λ r p. bss_answer box fd _ _ r inside file p))
              ])
        ])
      ])

  PlaceOk-trans :
      (box box' : Box) (fd : ℤ) (r : Placed)
      → SameBox box box'
      → PlaceOk box' seg fd r
      → PlaceOk box seg fd r
  PlaceOk-trans box box' fd (none, b, t) same h = Stays-trans (b, t) same h
  PlaceOk-trans box box' fd (some p, b, t) same h =
      (Stays-trans (b, t) same h.0, InBox-same box box' seg.start (seg_size seg) same h.1, h.2)

  map_file-PlaceOk :
      (box : Box) (buf : Buf) (t : Trace)
      → IsBox box
      → from_file buf.fd ≡ true
      → CallsIn box.min box.max t
      → Returns (PlaceOk box seg buf.fd) (map_file o box buf seg pagesize t)
  unfolding map_file
  map_file-PlaceOk box buf t h file c =
      Returns-bind
        (lfi_box_mapat-PlacedIn o box h seg.start (seg_size seg) seg.prot map_private buf.fd
          (pos (align_down seg.p_offset seg.p_align)) t c)
        go
    where
      go :
          (r : Placed)
          → PlacedIn box seg.start (seg_size seg) r
          → Returns (PlaceOk box seg buf.fd) (elim r.0 as (λ x. Run Placed) [
            | none ↦ done (none, r.1, r.2)
            | some at ↦ map_bss o r.1 seg pagesize at r.2
          ])
      go (none, b, t') p = returns p.0
      go (some at, b, t') p = rw p.1.0 (
          Returns-map
            (map_bss-PlaceOk b buf.fd t' p.0.0.is_box (InBox-back box b seg.start _ p.0.0 p.1.1)
              file (CallsIn-back box b t' p.0.0 p.0.1))
            (λ r k. PlaceOk-trans box b buf.fd r p.0.0 k))

-- Every way but remapping.
abbrev pub Plain : MapOp → Type 0
Plain elf_remap = ⊥
Plain _ = Unit

pub place-PlaceOk :
    (o : Oracle) (host_page : ℕ) (op : MapOp) (box : Box) (buf : Buf) (seg : Segment) (pagesize : ℕ)
    (t : Trace)
    → Plain op
    → IsSegment pagesize seg
    → IsBox box
    → CallsIn box.min box.max t
    → Returns (PlaceOk box seg buf.fd) (place o host_page op box buf seg pagesize t)
unfolding place
place-PlaceOk o host_page elf_map box buf seg pagesize t plain w h c =
    elim (Bool-cases (from_file buf.fd)) [
      | inl file ↦ rw file (map_file-PlaceOk o w box buf t h file c)
      | inr memory ↦ rw memory (
          Returns-map
            (lfi_box_mapat-PlacedIn o box h seg.start (seg_size seg)
              (prot_bit_read + prot_bit_write) anonymous (negsuc 0) (pos 0) t c)
            (λ r k. placed_ok o w box buf.fd r k))
    ]
place-PlaceOk o host_page elf_no_map box buf seg pagesize t plain w h c =
    Returns-map
      (lfi_box_mapat_register-PlacedIn o box h seg.start (seg_size seg) seg.prot anonymous
        (negsuc 0) (pos 0) t c)
      (λ r k. placed_ok o w box buf.fd r k)
place-PlaceOk o host_page elf_remap box buf seg pagesize t plain w h c = elim plain [ ]
