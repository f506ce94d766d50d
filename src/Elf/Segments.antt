-- ===== src/Elf/Segments.antt =====
-- The loop over the program headers (linux/elfload.c) stays inside the sandbox, but for remapping.
use native.Mathlib.Omega.{arith}
use lfi_runtime.Prelude.{
  ℕ, ◌+◌, ◌%◌, ◌≤◌, ◌<◌, ◌≡◌, Bool, true, false, not, ◌||◌, Option, none, some, List, [], ◌∷◌,
  if◌then◌else◌, ◌==◌, ltb, word, add64, Bool-cases, inl, inr, All, Run, done, Returns, returns,
  Returns-bind, Returns-map,
}
use lfi_runtime.Host.{Trace, Oracle}
use lfi_runtime.Box.{Box}
use lfi_runtime.Box.Inside.{IsBox, CallsIn}
use lfi_runtime.Box.Stays.{SameBox, Stays, unchanged, Stays-trans}
use lfi_runtime.Elf.{Buf, MapOp}
use lfi_runtime.Elf.Load.{
  Phdr, code_max, pt_load, seg_first, seg_last, bad_segment, Progress, segment_at, advance,
  load_segments,
}
use lfi_runtime.Elf.Place.{Plain, CallsIn-back}
use lfi_runtime.Elf.Contained.{LoadStays, buf_read_elfseg-Stays}
use lfi_runtime.Elf.Pages.{GoodPages, bad_segment-GoodPages, segment_at-IsSegment, mod-of_sum}

-- The alignment of a program header is a 64-bit number.
abbrev pub AlignWord : Phdr → Type 0
AlignWord p = p.p_align < word

-- The place of the next segments and the end of those loaded are whole pages up to a limit.
pub record IsProgress (pagesize limit : ℕ) (g : Progress) : Type 0 where
  pub whole_base : g.base % pagesize ≡ 0
  pub whole_last : g.last % pagesize ≡ 0
  pub base_below : g.base ≤ limit
  pub last_below : g.last ≤ limit + code_max

-- The end of `load_segments`.
abbrev pub SegmentsOk : Box → ℕ → ℕ → Option Progress × Box × Trace → Type 0
SegmentsOk box pagesize limit (none, box', t) = Stays box (box', t)
SegmentsOk box pagesize limit (some g, box', t) = Stays box (box', t) × IsProgress pagesize limit g

SegmentsOk-trans :
    (box box' : Box) (pagesize limit : ℕ) (r : Option Progress × Box × Trace)
    → SameBox box box'
    → SegmentsOk box' pagesize limit r
    → SegmentsOk box pagesize limit r
SegmentsOk-trans box box' pagesize limit (none, b, t) same k = Stays-trans (b, t) same k
SegmentsOk-trans box box' pagesize limit (some g, b, t) same k = (Stays-trans (b, t) same k.0, k.1)

advance-IsProgress :
    (pagesize limit elfbase : ℕ) (p : Phdr) (g : Progress)
    → code_max ≤ limit
    → limit + code_max + pagesize < word
    → IsProgress pagesize limit g
    → GoodPages pagesize p
    → IsProgress pagesize limit (advance elfbase p g)
unfolding advance
advance-IsProgress pagesize limit elfbase p g room small k good =
    let first = seg_first p in
    let ordered = good.ordered in
    let low = good.low in
    let base_low = k.base_below in
    let last_low = k.last_below in
    elim (Bool-cases (g.base == 0)) [
      | inl at_zero ↦
          let z : g.base ≡ 0 = ground arith in
          let e : add64 g.base first ≡ first = omega arith in
          let f : add64 first (seg_last p) ≡ first + seg_last p = omega arith in
          let whole = mod-of_sum first (seg_last p) pagesize good.whole_first good.whole_last in
          rw (at_zero, e, f) (last_of first good.whole_first (omega arith) whole)
      | inr placed ↦
          let f : add64 g.base (seg_last p) ≡ g.base + seg_last p = omega arith in
          let whole = mod-of_sum g.base (seg_last p) pagesize k.whole_base good.whole_last in
          rw (placed, f) (last_of g.base k.whole_base base_low whole)
    ]
  where
    last_of :
        (base : ℕ)
        → base % pagesize ≡ 0
        → base ≤ limit
        → (base + seg_last p) % pagesize ≡ 0
        → IsProgress pagesize limit (record {
          base = base;
          first =
              if g.first == 0 || ltb (add64 elfbase (seg_first p)) g.first
              then add64 elfbase (seg_first p)
              else g.first;
          last = if ltb g.last (base + seg_last p) then base + seg_last p else g.last;
        })
    last_of base wb below whole =
        let low = good.low in
        let last_low = k.last_below in
        elim (Bool-cases (ltb g.last (base + seg_last p))) [
          | inl up ↦ rw up (record {
            whole_base = wb;
            whole_last = whole;
            base_below = below;
            last_below = omega arith;
          })
          | inr same ↦ rw same (record {
            whole_base = wb;
            whole_last = k.whole_last;
            base_below = below;
            last_below = last_low;
          })
        ]

module _ (o : Oracle) (host_page : ℕ) (buf : Buf) (pagesize : ℕ) (op : MapOp)
    (limit elfbase : ℕ) where
  pub load_segments-SegmentsOk :
      (ps : List Phdr) (g : Progress) (box : Box) (t : Trace)
      → Plain op
      → 0 < pagesize
      → code_max ≤ limit
      → limit + code_max + pagesize < word
      → All AlignWord ps
      → IsProgress pagesize limit g
      → IsBox box
      → CallsIn box.min box.max t
      → Returns
          (SegmentsOk box pagesize limit)
          (load_segments o host_page buf pagesize op elfbase ps g box t)
  unfolding load_segments
  load_segments-SegmentsOk [] g box t plain some_page room small aligns k h c =
      returns ((unchanged box h, c), k)
  load_segments-SegmentsOk (p ∷ ps) g box t plain some_page room small aligns k h c =
      elim (Bool-cases (not (p.p_type == pt_load) || p.p_memsz == 0)) [
        | inl skip ↦
            rw skip (load_segments-SegmentsOk ps g box t plain some_page room small aligns.1 k h c)
        | inr load ↦ rw load (elim (Bool-cases (bad_segment pagesize p)) [
          | inl bad ↦ rw bad (returns (unchanged box h, c))
          | inr ok ↦
              let good = bad_segment-GoodPages pagesize p (ground arith) aligns.0 ok in
              let below = k.base_below in
              let w =
                segment_at-IsSegment pagesize g.base p some_page k.whole_base (omega arith) good in
              let g' = advance elfbase p g in
              rw ok (
                Returns-bind
                  (buf_read_elfseg-Stays o host_page box (segment_at g.base p) buf pagesize op t
                    plain w h c)
                  (go (λ b t' same c'.
                    load_segments-SegmentsOk ps g' b t' plain some_page room small aligns.1
                      (advance-IsProgress pagesize limit elfbase p g room small k good) same c')))
        ])
      ]
    where
      go :
          ((b : Box) (t' : Trace)
            → IsBox b
            → CallsIn b.min b.max t'
            → Returns
                (SegmentsOk b pagesize limit)
                (load_segments o host_page buf pagesize op elfbase ps (advance elfbase p g) b t'))
          → (r : Bool × Box × Trace) → LoadStays box r
          → Returns
              (SegmentsOk box pagesize limit)
              (elim r.0 as (λ x. Run (Option Progress × Box × Trace)) [
                | false ↦ done (none, r.1, r.2)
                | true ↦
                    load_segments o host_page buf pagesize op elfbase ps
                      (advance elfbase p g)
                      r.1
                      r.2
              ])
      go rest (false, b, t') stay = returns stay
      go rest (true, b, t') stay =
          Returns-map (rest b t' stay.0.is_box (CallsIn-back box b t' stay.0 stay.1))
            (λ r ok. SegmentsOk-trans box b pagesize limit r stay.0 ok)
