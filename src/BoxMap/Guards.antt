-- ===== src/BoxMap/Guards.antt =====
-- Where `addregion` (core/boxmap.c) puts the region in a reservation: chunk-aligned, and with the
-- guard free on both sides.
use native.Mathlib.Omega.{arith}
use native.Mathlib.Nat.{
  div-add-mod', mod-lt, add-mul, le-div_iff_mul-le, mul-mod_left, mul-le-mul_right, mod-le,
}
use lfi_runtime.Prelude.{
  ℕ, ◌+◌, ◌-◌, ◌*◌, ◌/◌, ◌%◌, ◌≤◌, ◌<◌, ◌≡◌, refl, ap, ◌∙◌, inl, inr, ◌==◌, Bool-cases, word, add64,
  sub64,
}
use lfi_runtime.BoxMap.{BoxMapOptions, truncp, ceilp}
use lfi_runtime.BoxMap.Reserve.{alignbase, alignsize}

-- `truncp` is the greatest multiple below, `ceilp` the least above.
pub truncp_lem : (a c : ℕ) → a < word → truncp a c ≡ a / c * c
unfolding truncp
truncp_lem a c small = omega (arith, div-add-mod' a c, mod-le a c)

pub ceilp_lem :
    (a c : ℕ) → 0 < c → a + c < word → (q : ℕ) × (ceilp a c ≡ q * c) × (a ≤ q * c) × (q * c < a + c)
unfolding ceilp
ceilp_lem a c pos small =
    let whole = div-add-mod' a c in
    let part = mod-lt a pos in
    let step = add-mul (a / c) 1 c in
    elim (Bool-cases (a % c == 0)) [
      | inl exact ↦ (a / c, rw exact (ground arith), ground arith, ground arith)
      | inr more ↦ (a / c + 1, rw more (omega arith), omega arith, ground arith)
    ]

-- The reservation `[base, base + size)` does not wrap, and beside the guards it has room for `room`
-- chunks and one more, for alignment.
pub record Roomy (opts : BoxMapOptions) (base size room : ℕ) : Type 0 where
  pub chunk : 0 < opts.chunksize
  pub enough : room * opts.chunksize + opts.chunksize + 2 * opts.guardsize ≤ size
  pub no_wrap : base + size + opts.chunksize < word

-- The region is aligned, has its room, and keeps a whole guard on each side.
pub record Guarded (opts : BoxMapOptions) (base size room : ℕ) : Type 0 where
  pub aligned : alignbase opts base % opts.chunksize ≡ 0
  pub whole : alignsize opts base size % opts.chunksize ≡ 0
  pub below : base + opts.guardsize ≤ alignbase opts base
  pub above : alignbase opts base + alignsize opts base size + opts.guardsize ≤ base + size
  pub roomy : room * opts.chunksize ≤ alignsize opts base size

-- The two ends as multiples of the chunk size: `q` chunks, and `q + d` chunks.
record Ends (opts : BoxMapOptions) (base size room : ℕ) : Type 0 where
  q : ℕ
  d : ℕ
  starts : alignbase opts base ≡ q * opts.chunksize
  spans : alignsize opts base size ≡ d * opts.chunksize
  low : base + opts.guardsize ≤ q * opts.chunksize
  high : q * opts.chunksize + d * opts.chunksize + opts.guardsize ≤ base + size
  wide : room ≤ d

module _ (opts : BoxMapOptions) (base size room : ℕ) (r : Roomy opts base size room) where
  open opts use {chunksize as c, guardsize as g}

  start_lem : add64 base g ≡ base + g
  start_lem = let small = r.no_wrap in let enough = r.enough in omega arith

  end_lem : sub64 (add64 base size) g ≡ base + size - g
  end_lem = let small = r.no_wrap in let enough = r.enough in omega arith

  Ends-at :
      (q t : ℕ)
      → t ≡ (base + size - g) / c
      → ceilp (base + g) c ≡ q * c
      → base + g ≤ q * c
      → q * c < base + g + c
      → Ends opts base size room
  unfolding alignbase alignsize
  Ends-at q t last e lo hi =
      let enough = r.enough in
      let small = r.no_wrap in
      let fits : (q + room) * c ≤ base + size - g = omega (arith, add-mul q room c) in
      let le : q + room ≤ t = rw last ((le-div_iff_mul-le r.chunk).1 fits) in
      let split : t ≡ q + (t - q) = omega arith in
      let whole : t * c ≡ q * c + (t - q) * c = ap (λ k. k * c) split ∙ add-mul q (t - q) c in
      let under : t * c ≤ base + size - g =
        rw last (omega (arith, div-add-mod' (base + size - g) c)) in
      let top : truncp (base + size - g) c ≡ t * c =
        rw last (truncp_lem (base + size - g) c (omega arith)) in
      record {
        q = q;
        d = t - q;
        starts = rw start_lem e;
        spans = rw start_lem (rw end_lem (rw (top, e) (omega arith)));
        low = lo;
        high = omega arith;
        wide = omega arith;
      }

  ends : Ends opts base size room
  ends =
      let small = r.no_wrap in
      let enough = r.enough in
      let (q, e, lo, hi) = ceilp_lem (base + g) c r.chunk (omega arith) in
      Ends-at q ((base + size - g) / c) refl e lo hi

-- In a reservation that does not wrap and has room for `room` chunks, one more for alignment and two
-- guards, the region that `addregion` makes is chunk-aligned at both ends, holds at least `room`
-- chunks, and leaves a whole guard free on each side.
pub alignbase-Guarded :
    (opts : BoxMapOptions) (base size room : ℕ)
    → Roomy opts base size room
    → Guarded opts base size room
alignbase-Guarded opts base size room r =
    let n = ends opts base size room r in
    let starts = n.starts in
    let spans = n.spans in
    let low = n.low in
    let high = n.high in
    record {
      aligned = rw n.starts (mul-mod_left n.q opts.chunksize);
      whole = rw n.spans (mul-mod_left n.d opts.chunksize);
      below = omega arith;
      above = omega arith;
      roomy = rw n.spans (mul-le-mul_right opts.chunksize n.wide);
    }
