-- ===== src/ExtAlloc/Alloc.antt =====
-- The well-formed allocators of core/extalloc.c, and what `extalloc_alloc` and `extalloc_free` do
-- to the bits of one.
use native.Mathlib.Omega.{arith}
use native.Mathlib.Nat.{
  mul-add-div_right, div-eq_of_lt, mul-div_cancel, mul-mod_left, lt-div-mul-add, div-mul-le_self,
}
use lfi_runtime.Prelude.{
  ℕ, ◌+◌, ◌-◌, ◌*◌, ◌/◌, ◌≤◌, ◌<◌, ◌≡◌, refl, ◌∙◌, ap, Bool, true, false, ◌&&◌, Option, none, some,
  List, if◌then◌else◌, ltb, leb, length, Returns, returns, word, add64, sub64, mul64,
}
use lfi_runtime.ExtAlloc.{
  ExtAlloc, bit, take_run, chunks_ceil, bitvec_set, bitvec_find_zeroes, extalloc_alloc,
  extalloc_free,
}
use lfi_runtime.ExtAlloc.Bits.{AreBytes, length-bitvec_set, bitvec_set-AreBytes, bit-bitvec_set}
use lfi_runtime.ExtAlloc.Find.{ZeroRun, NoRun, IsFirstRun, bitvec_find_zeroes-IsFirstRun}

-- The vector has a byte for every eight chunks and one more, and no address of the range is 0 or
-- wraps.
pub record IsValid (a : ExtAlloc) : Type 0 where
  pub bytes : AreBytes a.bitvec
  pub len : length a.bitvec ≡ a.size / 8 + 1
  pub chunk : 0 < a.chunksize
  pub base_pos : 0 < a.base
  pub fits : (a.base + a.size) * a.chunksize < word

-- A whole number of chunks is that number.
pub chunks_ceil-mul : (k c : ℕ) → 0 < c → k * c + c < word → chunks_ceil (k * c) c ≡ k
unfolding chunks_ceil
chunks_ceil-mul k c pos small =
    ap (λ x. x / c) (let e : sub64 (add64 (k * c) c) 1 ≡ k * c + (c - 1) = omega arith in e)
    ∙ mul-add-div_right pos k (c - 1)
    ∙ omega (arith, div-eq_of_lt {n = c - 1} {m = c} (omega arith))

-- Where `n` and a chunk together do not wrap, `chunks_ceil` is the least number of chunks that hold
-- `n` bytes.
pub chunks_ceil_bounds :
    (n c : ℕ) → 0 < c → n + c < word → (n ≤ chunks_ceil n c * c) × (chunks_ceil n c * c < n + c)
unfolding chunks_ceil
chunks_ceil_bounds n c pos small =
    let e : sub64 (add64 n c) 1 ≡ n + c - 1 = omega arith in
    rw e (
      omega (arith, lt-div-mul-add {a = n + c - 1} {b = c} pos),
      omega (arith, div-mul-le_self (n + c - 1) c),
    )

module _ {a : ExtAlloc} (v : IsValid a) where
  open v use {bytes, len, chunk, base_pos, fits}

  pub range_small : a.base + a.size < word
  range_small = grind arith

  -- A range of chunks inside the allocator is inside the vector.
  in_vector : (s k : ℕ) → s + k ≤ a.size → (s + k ≤ 8 * length a.bitvec) × (s + k ≤ word)
  in_vector s k h = (omega arith, omega (arith, range_small))

  write_range-IsValid :
      (s k : ℕ) (val : Bool) → IsValid (record a { bitvec = bitvec_set a.bitvec s k val })
  write_range-IsValid s k val = record {
    bytes = bitvec_set-AreBytes a.bitvec s k val bytes;
    len = length-bitvec_set a.bitvec s k val ∙ len;
    chunk = chunk;
    base_pos = base_pos;
    fits = fits;
  }

  -- No address of a chunk wraps, and none is 0.
  pub address_lem :
      (s : ℕ)
      → s < a.size
      → (mul64 (add64 a.base s) a.chunksize ≡ (a.base + s) * a.chunksize)
        × (0 < (a.base + s) * a.chunksize)
  address_lem s lt =
      let small : (a.base + s) * a.chunksize < word = grind arith in
      let no_wrap : add64 a.base s ≡ a.base + s = omega (arith, range_small) in
      (rw no_wrap (omega arith), grind arith)

-- What a call for `k` chunks may give: 0 where no run of `k` chunks is free, else the address of
-- the first free run, whose chunks are then taken while every other chunk is as before.
pub data Outcome (a : ExtAlloc) (k : ℕ) : ℕ × ExtAlloc → Type 0 where
  full : ((t : ℕ) → t + k ≤ a.size → NoRun a.bitvec k t) → Outcome a k (0, a)
  placed :
      (s : ℕ) (w : List ℕ)
      → s + k ≤ a.size
      → ZeroRun a.bitvec s k
      → ((t : ℕ) → t < s → NoRun a.bitvec k t)
      → ((j : ℕ) → bit w j ≡ (if leb s j && ltb j (s + k) then 1 else bit a.bitvec j))
      → Outcome a k ((a.base + s) * a.chunksize, record a { bitvec = w })

abbrev pub Allocated : ExtAlloc → ℕ → ℕ × ExtAlloc → Type 0
Allocated a k r = IsValid r.1 × Outcome a k r

module _ {a : ExtAlloc} (v : IsValid a) (k : ℕ) (pos : 0 < k) where
  place : (o : Option ℕ) → IsFirstRun a.bitvec a.size k o → Allocated a k (take_run a k o)
  unfolding take_run
  place none first = (v, full first)
  place (some s) (room, clear, lowest) =
      let (inside, small) = in_vector v s k room in
      rw (address_lem v s (omega arith)).0 (
        write_range-IsValid v s k true,
        placed s (bitvec_set a.bitvec s k true) room clear lowest
            (λ j. bit-bitvec_set a.bitvec s k true j v.bytes inside small),
      )

  -- On a well-formed allocator, a request of whole chunks that does not wrap never aborts: it takes
  -- the first free run, or no run is free, the answer is 0 and nothing changes. The allocator stays
  -- well formed.
  pub extalloc_alloc-Allocated :
      k * a.chunksize + a.chunksize < word
      → Returns (Allocated a k) (extalloc_alloc a (k * a.chunksize))
  unfolding extalloc_alloc
  extalloc_alloc-Allocated small = rw (mul-mod_left k a.chunksize) (
      rw (chunks_ceil-mul k a.chunksize v.chunk small) (
        returns (
          place (bitvec_find_zeroes a.bitvec a.size k)
            (bitvec_find_zeroes-IsFirstRun a.bitvec a.size k pos (omega (arith, range_small v))))))

-- What giving back `k` chunks from chunk `s` on gives.
pub record Freed (a : ExtAlloc) (s k : ℕ) (a' : ExtAlloc) : Type 0 where
  pub bits : List ℕ
  pub same : a' ≡ record a { bitvec = bits }
  pub valid : IsValid (record a { bitvec = bits })
  pub cleared : (j : ℕ) → bit bits j ≡ (if leb s j && ltb j (s + k) then 0 else bit a.bitvec j)

-- Giving back whole chunks inside the range never aborts: their bits are clear afterwards, and every
-- other bit is as before.
pub extalloc_free-Freed :
    {a : ExtAlloc} (v : IsValid a) (s k : ℕ)
    → s + k ≤ a.size
    → k * a.chunksize + a.chunksize < word
    → Returns (Freed a s k) (extalloc_free a ((a.base + s) * a.chunksize) (k * a.chunksize))
unfolding extalloc_free
extalloc_free-Freed {a} v s k room small =
    let (inside, narrow) = in_vector v s k room in
    let at : sub64 (a.base + s) a.base ≡ s = omega (arith, range_small v) in
    rw (mul-mod_left (a.base + s) a.chunksize) (
      rw (mul-mod_left k a.chunksize) (
        rw (chunks_ceil-mul k a.chunksize v.chunk small) (
          rw (mul-div_cancel (a.base + s) v.chunk) (
            rw at (
              returns (record {
                bits = bitvec_set a.bitvec s k false;
                same = refl;
                valid = write_range-IsValid v s k false;
                cleared = λ j. bit-bitvec_set a.bitvec s k false j v.bytes inside narrow;
              }))))))
