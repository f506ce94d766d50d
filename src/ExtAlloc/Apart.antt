-- ===== src/ExtAlloc/Apart.antt =====
-- The extents that a client of core/extalloc.c holds lie apart, from `extalloc_new` on.
use native.Mathlib.Omega.{arith}
use native.Mathlib.Nat.{div-add-mod', div-le_self, le-div_iff_mul-le, add-mul, mul-le-mul_right}
use lfi_runtime.Prelude.{
  ℕ, ◌+◌, ◌-◌, ◌/◌, ◌%◌, ◌≤◌, ◌<◌, ◌≡◌, ◌∙◌, inl, inr, Bool, List, [], ◌∷◌, All, map, done, word,
  some, replicate, add64, length-replicate, get_or-replicate,
}
use lfi_runtime.Prelude.Ranges.{Range, Disjoint, Apart, IsFull, covered, Apart-of_covered}
use lfi_runtime.Prelude.Bytes.{zero_bit}
use lfi_runtime.ExtAlloc.{ExtAlloc, extalloc_new, bit}
use lfi_runtime.ExtAlloc.Bits.{replicate-AreBytes}
use lfi_runtime.ExtAlloc.Extents.{
  Extent, Ledger, address, bytes_of, Reach, Fits, Tracks, bit-lt, Reach-Tracks,
}

-- The bytes of an extent.
abbrev pub byte_range : ExtAlloc → Extent → Range
byte_range a (s, k) = (address a s, bytes_of a k)

scale-Disjoint :
    (a : ExtAlloc) (s k s' k' : ℕ)
    → Disjoint (s, k) (s', k')
    → Disjoint (byte_range a (s, k)) (byte_range a (s', k'))
scale-Disjoint a s k s' k' (inl before) = inl (omega (arith, mul-le-mul_right a.chunksize before))
scale-Disjoint a s k s' k' (inr after) = inr (omega (arith, mul-le-mul_right a.chunksize after))

scale-All :
    (a : ExtAlloc) (s k : ℕ) (es : List Extent)
    → All (Disjoint (s, k)) es
    → All (Disjoint (byte_range a (s, k))) (map (byte_range a) es)
scale-All a s k [] h = tt
scale-All a s k ((s', k') ∷ es) h = (scale-Disjoint a s k s' k' h.0, scale-All a s k es h.1)

scale-Apart : (a : ExtAlloc) (es : List Extent) → Apart es → Apart (map (byte_range a) es)
scale-Apart a [] h = tt
scale-Apart a ((s, k) ∷ es) h = (scale-All a s k es h.0, scale-Apart a es h.1)

Fits-IsFull : (a : ExtAlloc) (es : List Extent) → All (Fits a) es → All IsFull es
Fits-IsFull a [] h = tt
Fits-IsFull a ((s, k) ∷ es) h = (h.0.0, Fits-IsFull a es h.1)

Tracks-Apart : {l : Ledger} → Tracks l → Apart (map (byte_range l.alloc) l.live)
Tracks-Apart {l} t = scale-Apart l.alloc l.live (
    Apart-of_covered l.live (Fits-IsFull l.alloc l.live t.inside)
      λ j. omega (arith, t.exact j, bit-lt l.alloc j t.valid))

abbrev pub fresh : ℕ → ℕ → ℕ → ExtAlloc
fresh base size chunksize = record {
  base = base / chunksize;
  size = size / chunksize;
  chunksize = chunksize;
  bitvec = replicate (add64 (size / chunksize / 8) 1) 0;
}

pub extalloc_new_cases :
    (m : Bool) (c : Bool) (base size chunksize : ℕ) {a : ExtAlloc}
    → extalloc_new m c base size chunksize ≡ done (some a)
    → (base % chunksize ≡ 0) × (size % chunksize ≡ 0) × (a ≡ fresh base size chunksize)
unfolding extalloc_new
extalloc_new_cases m c base size chunksize e = ground arith

fresh-Tracks :
    (base size chunksize : ℕ)
    → 0 < chunksize
    → chunksize ≤ base
    → base + size < word
    → base % chunksize ≡ 0
    → size % chunksize ≡ 0
    → Tracks (record { alloc = fresh base size chunksize; live = [] })
unfolding bit
fresh-Tracks base size chunksize pos low high e f =
    let whole_base = div-add-mod' base chunksize in
    let whole_size = div-add-mod' size chunksize in
    let few : size / chunksize ≤ size = div-le_self size chunksize in
    let bytes : add64 (size / chunksize / 8) 1 ≡ size / chunksize / 8 + 1 = omega arith in
    record {
      valid = record {
        bytes = replicate-AreBytes _;
        len = length-replicate _ 0 ∙ bytes;
        chunk = pos;
        base_pos = (le-div_iff_mul-le pos).1 (omega arith);
        fits = omega (
          arith,
          whole_base,
          whole_size,
          add-mul (base / chunksize) (size / chunksize) chunksize,
        );
      };
      exact = λ j.
          rw (get_or-replicate {A = ℕ} (add64 (size / chunksize / 8) 1) (j / 8) 0)
            (zero_bit (7 - j % 8));
      inside = tt;
    }

-- What `extalloc_new` gives is well formed, and its client holds nothing.
pub extalloc_new-Tracks :
    (m : Bool) (c : Bool) (base size chunksize : ℕ) {a : ExtAlloc}
    → 0 < chunksize
    → chunksize ≤ base
    → base + size < word
    → extalloc_new m c base size chunksize ≡ done (some a)
    → Tracks (record { alloc = a; live = [] })
extalloc_new-Tracks m c base size chunksize pos low high e =
    let (whole_base, whole_size, same) = extalloc_new_cases m c base size chunksize e in
    rw same (fresh-Tracks base size chunksize pos low high whole_base whole_size)

-- From `extalloc_new` on, for a range of whole chunks that does not wrap and starts at a chunk or
-- more, after any calls of `extalloc_alloc` and `extalloc_free` for whole chunks, the extents that the
-- client holds do not meet, and the bit of a chunk is set exactly where one of them covers it.
pub Reach-Apart_extents :
    (m : Bool) (c : Bool) (base size chunksize : ℕ) {a : ExtAlloc} {l : Ledger}
    → 0 < chunksize
    → chunksize ≤ base
    → base + size < word
    → extalloc_new m c base size chunksize ≡ done (some a)
    → Reach (record { alloc = a; live = [] }) l
    → Apart (map (byte_range l.alloc) l.live) × ((j : ℕ) → bit l.alloc.bitvec j ≡ covered l.live j)
Reach-Apart_extents m c base size chunksize pos low high e r =
    let t = Reach-Tracks (extalloc_new-Tracks m c base size chunksize pos low high e) r in
    (Tracks-Apart t, t.exact)
