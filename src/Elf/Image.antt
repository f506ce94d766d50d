-- ===== src/Elf/Image.antt =====
-- Loading a whole ELF image, and an interpreter behind it (linux/elfload.c), stays inside the sandbox,
-- but for remapping.
use native.Mathlib.Omega.{arith}
use native.Mathlib.Nat.{mul-le-mul_right, zero-mod}
use lfi_runtime.Prelude.{
  ℕ, zero, suc, ◌+◌, ◌*◌, ◌%◌, ◌≤◌, ◌<◌, ◌≡◌, not, ◌||◌, Option, none, some, ◌∷◌, if◌then◌else◌,
  ◌==◌, leb, ltb, word, Bool-cases, inl, inr, All, Run, done, ◌>>=◌, Returns, returns, Returns-bind,
}
use lfi_runtime.Host.{malloc, Trace, Oracle}
use lfi_runtime.AddrSpace.{page_size}
use lfi_runtime.Box.{Box}
use lfi_runtime.Box.Inside.{IsBox, CallsIn}
use lfi_runtime.Box.Stays.{SameBox, Stays, unchanged, Stays-trans}
use lfi_runtime.Elf.{Buf, buf_read, MapOp}
use lfi_runtime.Elf.Load.{
  Ehdr, Layout, ehdr_size, phnum_max, code_max, et_dyn, elf_check, phdrs_from, has_phdrs, Progress,
  load_segments, Loaded, loaded, elf_load_one, LoadInfo, elf_load,
}
use lfi_runtime.Elf.Place.{Plain, CallsIn-back}
use lfi_runtime.Elf.Contained.{LoadStays}
use lfi_runtime.Elf.Segments.{AlignWord, SegmentsOk, load_segments-SegmentsOk}

-- The layout of <elf.h> reads 64-bit numbers.
abbrev pub IsLayout : Layout → Type 0
IsLayout layout = (bytes : ℕ → ℕ) (offset : ℕ) → AlignWord (layout.phdr bytes offset)

phdrs_from-AlignWord :
    (layout : Layout) (bytes : ℕ → ℕ) (n offset : ℕ)
    → IsLayout layout
    → All AlignWord (phdrs_from layout bytes n offset)
unfolding phdrs_from
phdrs_from-AlignWord layout bytes zero offset h = tt
phdrs_from-AlignWord layout bytes (suc n) offset h =
    (h bytes offset, phdrs_from-AlignWord layout bytes n _ h)

-- The end of `elf_load_one`: an image ends at a page, at most 2 GiB behind its base.
abbrev LoadedOk : Box → ℕ → ℕ → Option Loaded × Box × Trace → Type 0
LoadedOk box pagesize base (none, box', t) = Stays box (box', t)
LoadedOk box pagesize base (some l, box', t) =
    Stays box (box', t) × (l.last % pagesize ≡ 0) × (l.last ≤ base + 2 * code_max)

loaded-LoadedOk :
    (box : Box) (pagesize base : ℕ) (e : Ehdr) (r : Option Progress × Box × Trace)
    → SegmentsOk box pagesize (base + code_max) r
    → LoadedOk box pagesize base (loaded e r)
loaded-LoadedOk box pagesize base e (none, b, t) k = k
loaded-LoadedOk box pagesize base e (some g, b, t) k =
    let below = k.1.last_below in (k.0, k.1.whole_last, omega arith)

module _ (o : Oracle) (host_page : ℕ) (layout : Layout) (shape : IsLayout layout) where
  elf_load_one-LoadedOk :
      (box : Box) (buf : Buf) (base pagesize : ℕ) (op : MapOp) (t : Trace)
      → Plain op
      → 0 < pagesize
      → base % pagesize ≡ 0
      → base + 2 * code_max + pagesize < word
      → IsBox box
      → CallsIn box.min box.max t
      → Returns
          (LoadedOk box pagesize base)
          (elf_load_one o host_page layout box buf base pagesize op t)
  unfolding elf_load_one
  elf_load_one-LoadedOk box buf base pagesize op t plain some_page whole small h c =
      let e = layout.ehdr buf.bytes in
      let phdrs = phdrs_from layout buf.bytes e.e_phnum e.e_phoff in
      let begin : Progress = record { base = base; first = 0; last = 0 } in
      let keep : Stays box (box, t) = (unchanged box h, c) in
      let segments =
        load_segments-SegmentsOk o host_page buf pagesize op (base + code_max) base phdrs begin box
          (malloc ∷ t) plain some_page (omega arith) (omega arith)
          (phdrs_from-AlignWord layout buf.bytes e.e_phnum e.e_phoff shape)
          (record {
            whole_base = whole;
            whole_last = zero_mod pagesize some_page;
            base_below = omega arith;
            last_below = omega arith;
          })
          h (tt, c) in
      elim (Bool-cases (buf_read buf ehdr_size 0 == ehdr_size)) [
        | inr short ↦ rw short (returns keep)
        | inl header ↦
            rw header
              (elim (Bool-cases
                (not (elf_check e) || not (e.e_type == et_dyn) || ltb phnum_max e.e_phnum)) [
                  | inl bad ↦ rw bad (returns keep)
                  | inr fine ↦ rw fine (go (o t malloc) segments)
                ])
      ]
    where
      zero_mod : (n : ℕ) → 0 < n → 0 % n ≡ 0
      zero_mod n some_n = zero-mod n

      go :
          let e = layout.ehdr buf.bytes in
          let phdrs = phdrs_from layout buf.bytes e.e_phnum e.e_phoff in
          let begin : Progress = record { base = base; first = 0; last = 0 } in
          let segments =
            load_segments o host_page buf pagesize op base phdrs begin box (malloc ∷ t) in
          (r : Option ℕ)
          → Returns (SegmentsOk box pagesize (base + code_max)) segments
          → Returns
              (LoadedOk box pagesize base)
              (elim r as (λ x. Run (Option Loaded × Box × Trace)) [
                | none ↦ done (none, box, malloc ∷ t)
                | some m ↦
                    if not (has_phdrs buf e) || leb code_max e.e_entry
                    then done (none, box, malloc ∷ t)
                    else (segments >>= λ r. done (loaded e r))
              ])
      go none k = returns (unchanged box h, (tt, c))
      go (some m) k =
          let e = layout.ehdr buf.bytes in
          elim (Bool-cases (not (has_phdrs buf e) || leb code_max e.e_entry)) [
            | inl bad ↦ rw bad (returns (unchanged box h, (tt, c)))
            | inr fine ↦
                rw fine
                  (Returns-bind k (λ r ok. returns (loaded-LoadedOk box pagesize base e r ok)))
          ]

-- A sandbox that an image can be loaded into: its lower bound is a page boundary, and the 4 GiB and a
-- page behind its upper bound do not wrap.
pub record IsLoadable (box : Box) : Type 0 where
  pub is_box : IsBox box
  pub whole_min : box.min % box.opts.pagesize ≡ 0
  pub room : box.max + 4 * code_max + box.opts.pagesize < word

min-le_max : (box : Box) → IsBox box → box.min ≤ box.max
min-le_max box h =
    let le : box.mm.base * page_size box.mm ≤ (box.mm.base + box.mm.len) * page_size box.mm =
      mul-le-mul_right (page_size box.mm) (omega arith) in
    let low = h.low in let high = h.high in omega arith

-- Load a program, and its interpreter where there is one, in any way but remapping, into a sandbox that
-- is in order, whose lower bound is a page boundary, where 4 GiB and a page behind the upper bound do
-- not wrap, and where the host calls so far touch no memory outside the bounds. The alignments in the
-- program headers are 64-bit numbers. Whatever else the bytes of the two images are, and whatever the
-- host answers, `elf_load` ends with no abort, no host call touches memory outside the bounds, and the
-- sandbox is in order again.
pub elf_load-LoadStays :
    (o : Oracle) (host_page : ℕ) (layout : Layout) (box : Box) (prog : Buf) (interp : Option Buf)
    (op : MapOp) (t : Trace)
    → IsLayout layout
    → Plain op
    → IsLoadable box
    → CallsIn box.min box.max t
    → Returns (LoadStays box) (elf_load o host_page layout box prog interp op t)
unfolding elf_load
elf_load-LoadStays o host_page layout box prog interp op t shape plain h c =
    let room = h.room in
    let le = min-le_max box h.is_box in
    Returns-bind
      (elf_load_one-LoadedOk o host_page layout shape box prog box.min box.opts.pagesize op t plain
        h.is_box.some_page h.whole_min (omega arith) h.is_box c)
      (program interp)
  where
    interpreter :
        (pl : Loaded) (b : Box) (r : Option Loaded × Box × Trace) (n : ℕ)
        → SameBox box b
        → LoadedOk b box.opts.pagesize n r
        → Returns (LoadStays box) (elim r.0 as (λ x. Run (Option LoadInfo × Box × Trace)) [
          | none ↦ done (none, r.1, r.2)
          | some il ↦ done (
            some (record {
              lastva = il.last;
              elfentry = pl.entry;
              ldentry = il.entry;
              elfbase = pl.first;
              ldbase = il.first;
            }),
            r.1,
            r.2,
          )
        ])
    interpreter pl b (none, b', t') n same k = returns (Stays-trans (b', t') same k)
    interpreter pl b (some il, b', t') n same k = returns (Stays-trans (b', t') same k.0)

    program :
        (interp : Option Buf)
        → (r : Option Loaded × Box × Trace) → LoadedOk box box.opts.pagesize box.min r
        → Returns (LoadStays box) (elim r.0 as (λ x. Run (Option LoadInfo × Box × Trace)) [
          | none ↦ done (none, r.1, r.2)
          | some pl ↦ elim interp [
            | none ↦ done (
              some (record {
                lastva = pl.last;
                elfentry = pl.entry;
                ldentry = 0;
                elfbase = pl.first;
                ldbase = pl.first;
              }),
              r.1,
              r.2,
            )
            | some ibuf ↦
                elf_load_one o host_page layout r.1 ibuf pl.last box.opts.pagesize op r.2
                >>= λ (i, box'', t''). elim i [
                  | none ↦ done (none, box'', t'')
                  | some il ↦ done (
                    some (record {
                      lastva = il.last;
                      elfentry = pl.entry;
                      ldentry = il.entry;
                      elfbase = pl.first;
                      ldbase = il.first;
                    }),
                    box'',
                    t'',
                  )
                ]
          ]
        ])
    program interp (none, b, t') k = returns k
    program none (some pl, b, t') k = returns k.0
    program (some ibuf) (some pl, b, t') k =
        let room = h.room in
        let le = min-le_max box h.is_box in
        let last = k.2 in
        Returns-bind
          (elf_load_one-LoadedOk o host_page layout shape b ibuf pl.last box.opts.pagesize op t'
            plain h.is_box.some_page k.1 (omega arith) k.0.0.is_box
            (CallsIn-back box b t' k.0.0 k.0.1))
          (λ r ok. interpreter pl b r pl.last k.0.0 ok)
