-- ===== src/Elf/Pages.antt =====
-- What the checks of a program header (linux/elfload.c) say of its segment: whole pages that hold the
-- bytes, with nothing wrapping.
use native.Mathlib.Omega.{arith}
use native.Mathlib.Nat.{
  div-add-mod', mul-mod_left, mod-lt, mod-eq_of_lt, mod-eq-zero_of_dvd, dvd_of_mod-eq-zero,
  dvd_trans, dvd-add,
}
use lfi_runtime.Prelude.{
  ℕ, ◌+◌, ◌-◌, ◌*◌, ◌/◌, ◌%◌, ◌≤◌, ◌<◌, ◌≡◌, false, ltb, word, add64, sub64, Bool-cases, inl, inr,
}
use lfi_runtime.Brk.{align_up}
use lfi_runtime.Memory.{align_down}
use lfi_runtime.Elf.Load.{Phdr, code_max, seg_first, seg_last, bad_segment, segment_at}
use lfi_runtime.Elf.Place.{IsSegment}

align_down-mod : (x a : ℕ) → align_down x a % a ≡ 0
unfolding align_down
align_down-mod x a =
    let div = div-add-mod' x a in
    let q : x - x % a ≡ x / a * a = omega arith in rw q (mul-mod_left (x / a) a)

align_up-mod : (x a : ℕ) → align_up x a % a ≡ 0
unfolding align_up
align_up-mod x a =
    let sum = add64 x (sub64 a 1) in
    let div = div-add-mod' sum a in
    let q : sum - sum % a ≡ sum / a * a = omega arith in rw q (mul-mod_left (sum / a) a)

-- Rounding up wraps to 0 or not at all.
align_up-above : (x a : ℕ) → x < word → 0 < a → a < word → 0 < align_up x a → x ≤ align_up x a
unfolding align_up
align_up-above x a small some_a small_a more = elim (Bool-cases (ltb (x + a - 1) word)) [
  | inl fits ↦
      let e : add64 x (sub64 a 1) ≡ x + a - 1 = ground arith in
      let lt = mod-lt (x + a - 1) some_a in rw e (omega arith)
  | inr wraps ↦
      let e : add64 x (sub64 a 1) ≡ x + a - 1 - word = ground arith in
      let m : (x + a - 1 - word) % a ≡ x + a - 1 - word = mod-eq_of_lt (ground arith) in
      let zero_end : add64 x (sub64 a 1) - add64 x (sub64 a 1) % a ≡ 0 =
        rw e (rw m (omega arith)) in
      absurd (omega arith)
]

mod-of_multiple : (x a ps : ℕ) → a % ps ≡ 0 → x % a ≡ 0 → x % ps ≡ 0
mod-of_multiple x a ps ha hx =
    mod-eq-zero_of_dvd ps
      (dvd_trans ps (dvd_of_mod-eq-zero ps {n = a} ha) (dvd_of_mod-eq-zero a {n = x} hx))

pub mod-of_sum : (x y ps : ℕ) → x % ps ≡ 0 → y % ps ≡ 0 → (x + y) % ps ≡ 0
mod-of_sum x y ps hx hy =
    mod-eq-zero_of_dvd ps
      (dvd-add ps (dvd_of_mod-eq-zero ps {n = x} hx) (dvd_of_mod-eq-zero ps {n = y} hy))

down : (x a : ℕ) → align_down x a ≤ x
unfolding align_down
down x a = omega arith

-- The pages of a program header that the checks let pass.
pub record GoodPages (pagesize : ℕ) (p : Phdr) : Type 0 where
  pub ordered : seg_first p < seg_last p
  pub low : seg_last p < code_max
  pub holds : p.p_vaddr + p.p_memsz ≤ seg_last p
  pub starts : seg_first p ≤ p.p_vaddr
  pub file_part : p.p_filesz ≤ p.p_memsz
  pub whole_first : seg_first p % pagesize ≡ 0
  pub whole_last : seg_last p % pagesize ≡ 0

pub bad_segment-GoodPages :
    (pagesize : ℕ) (p : Phdr)
    → 0 < p.p_memsz
    → p.p_align < word
    → bad_segment pagesize p ≡ false
    → GoodPages pagesize p
unfolding bad_segment
bad_segment-GoodPages pagesize p some_bytes small_align ok =
    let fits : p.p_vaddr + p.p_memsz < word = ground arith in
    let aligned : p.p_align % pagesize ≡ 0 = ground arith in
    let some_align : 0 < p.p_align = ground arith in
    let more : seg_first p < seg_last p = ground arith in
    let e : add64 p.p_vaddr p.p_memsz ≡ p.p_vaddr + p.p_memsz = omega arith in
    let above =
      align_up-above (add64 p.p_vaddr p.p_memsz) p.p_align (omega arith) some_align small_align
        (omega arith) in
    record {
      ordered = more;
      low = ground arith;
      holds = omega arith;
      starts = down p.p_vaddr p.p_align;
      file_part = ground arith;
      whole_first =
          mod-of_multiple _ p.p_align pagesize aligned (align_down-mod p.p_vaddr p.p_align);
      whole_last = mod-of_multiple _ p.p_align pagesize aligned (align_up-mod _ p.p_align);
    }

-- The segment at a base of whole pages is one.
pub segment_at-IsSegment :
    (pagesize base : ℕ) (p : Phdr)
    → 0 < pagesize
    → base % pagesize ≡ 0
    → base + code_max + pagesize < word
    → GoodPages pagesize p
    → IsSegment pagesize (segment_at base p)
segment_at-IsSegment pagesize base p some_page whole small g =
    let ordered = g.ordered in
    let low = g.low in
    let holds = g.holds in
    let starts = g.starts in
    let first_at : add64 base (seg_first p) ≡ base + seg_first p = omega arith in
    let last_at : add64 base (seg_last p) ≡ base + seg_last p = omega arith in
    record {
      some_page = some_page;
      some_bytes = omega arith;
      span = omega arith;
      file_part = g.file_part;
      whole_start = rw first_at (mod-of_sum base (seg_first p) pagesize whole g.whole_first);
      whole_stop = rw last_at (mod-of_sum base (seg_last p) pagesize whole g.whole_last);
      no_wrap = omega arith;
    }
