-- ===== src/BoxMap/Region.antt =====
-- One region of core/boxmap.c: which of its addresses are handed out, and what taking and giving
-- back a space does to them.
use native.Mathlib.Omega.{arith}
use native.Mathlib.Nat.{le-div_iff_mul-le, div-lt_iff_lt-mul, add-mul, mul-le-mul_right}
use lfi_runtime.Prelude.{
  ℕ, ◌+◌, ◌-◌, ◌*◌, ◌/◌, ◌≤◌, ◌<◌, ◌≡◌, Bool, ◌&&◌, List, if◌then◌else◌, ltb, leb, word,
}
use lfi_runtime.ExtAlloc.{bit}
use lfi_runtime.ExtAlloc.Alloc.{IsValid}
use lfi_runtime.BoxMap.{AddrRegion}

-- The region is the range of its allocator.
pub record RegionOk (r : AddrRegion) : Type 0 where
  pub valid : IsValid r.alloc
  pub starts : r.base ≡ r.alloc.base * r.alloc.chunksize
  pub spans : r.size ≡ r.alloc.size * r.alloc.chunksize

abbrev pub in_span : AddrRegion → ℕ → Bool
in_span r x = leb r.base x && ltb x (r.base + r.size)

-- 1 at an address that is handed out, 0 at any other
abbrev pub used_in : AddrRegion → ℕ → ℕ
used_in r x = if in_span r x then bit r.alloc.bitvec ((x - r.base) / r.alloc.chunksize) else 0

-- The chunk of an address lies in a range of chunks when the address lies in their bytes.
in_chunks :
    (b c s k x : ℕ)
    → 0 < c
    → b * c ≤ x
    → (leb s ((x - b * c) / c) && ltb ((x - b * c) / c) (s + k))
      ≡ (leb ((b + s) * c) x && ltb x ((b + s) * c + k * c))
in_chunks b c s k x pos le = ground (
  arith,
  le-div_iff_mul-le {k = c} {x = s} {y = x - b * c} pos,
  div-lt_iff_lt-mul {k = c} {x = x - b * c} {y = s + k} pos,
  add-mul b s c,
  add-mul s k c,
)

-- A space of the region: whole chunks inside it.
pub record Space (r : AddrRegion) (p n : ℕ) : Type 0 where
  pub first : ℕ
  pub chunks : ℕ
  pub at : p ≡ (r.alloc.base + first) * r.alloc.chunksize
  pub bytes : n ≡ chunks * r.alloc.chunksize
  pub some_chunks : 0 < chunks
  pub room : first + chunks ≤ r.alloc.size
  pub small : chunks * r.alloc.chunksize + r.alloc.chunksize < word

-- A space lies in the region's span and has at least one byte.
pub Space-inside :
    {r : AddrRegion} {p n : ℕ}
    → RegionOk r
    → Space r p n
    → (r.base ≤ p) × (p + n ≤ r.base + r.size) × (0 < n) × (0 < p)
Space-inside {r} ok sp =
    let a = r.alloc in
    let pos = ok.valid.chunk in
    let one : 1 * a.chunksize ≤ sp.chunks * a.chunksize =
      mul-le-mul_right a.chunksize sp.some_chunks in
    let whole = mul-le-mul_right a.chunksize sp.room in
    let split = add-mul a.base sp.first a.chunksize in
    let split' = add-mul sp.first sp.chunks a.chunksize in
    let base = mul-le-mul_right a.chunksize ok.valid.base_pos in
    let e = sp.at in
    let e' = sp.bytes in
    let st = ok.starts in let en = ok.spans in (omega arith, omega arith, omega arith, omega arith)

-- The region with another bit vector and another count.
abbrev pub update : AddrRegion → List ℕ → ℕ → AddrRegion
update r bits active = record r { alloc = record r.alloc { bitvec = bits }; active = active }

pub update-Space :
    {r : AddrRegion} {p n : ℕ} (bits : List ℕ) (active : ℕ)
    → Space r p n
    → Space (update r bits active) p n
update-Space bits active sp = record {
  first = sp.first;
  chunks = sp.chunks;
  at = sp.at;
  bytes = sp.bytes;
  some_chunks = sp.some_chunks;
  room = sp.room;
  small = sp.small;
}

pub update-RegionOk :
    {r : AddrRegion} (bits : List ℕ) (active : ℕ)
    → RegionOk r
    → IsValid (record r.alloc { bitvec = bits })
    → RegionOk (update r bits active)
update-RegionOk bits active ok v = record { valid = v; starts = ok.starts; spans = ok.spans }

-- The chunk of an address in the span, and the two ways to say that it is in a space.
Space-chunks :
    {r : AddrRegion} {p n : ℕ} (x : ℕ)
    → RegionOk r
    → (sp : Space r p n) → r.base ≤ x
    → (leb sp.first ((x - r.base) / r.alloc.chunksize)
        && ltb ((x - r.base) / r.alloc.chunksize) (sp.first + sp.chunks))
      ≡ (leb p x && ltb x (p + n))
Space-chunks {r} x ok sp le =
    rw (sp.at, sp.bytes, ok.starts)
      (in_chunks r.alloc.base r.alloc.chunksize sp.first sp.chunks x ok.valid.chunk
        (omega (arith, ok.starts)))

-- Bits that change in a range of chunks change the addresses of the space.
pub used_in-update :
    {r : AddrRegion} {p n : ℕ} (bits : List ℕ) (active v x : ℕ)
    → RegionOk r
    → (sp : Space r p n)
    → ((j : ℕ)
        → bit bits j
          ≡ (if leb sp.first j && ltb j (sp.first + sp.chunks) then v else bit r.alloc.bitvec j))
    → used_in (update r bits active) x ≡ (if leb p x && ltb x (p + n) then v else used_in r x)
used_in-update {r} bits active v x ok sp change =
    let inside = Space-inside ok sp in
    ground (arith, Space-chunks x ok sp, change ((x - r.base) / r.alloc.chunksize), inside)

-- The addresses of a free run of chunks are not handed out.
pub used_in-clear :
    {r : AddrRegion} {p n : ℕ} (x : ℕ)
    → RegionOk r
    → (sp : Space r p n)
    → ((j : ℕ) → sp.first ≤ j → j < sp.first + sp.chunks → bit r.alloc.bitvec j ≡ 0)
    → p ≤ x
    → x < p + n
    → used_in r x ≡ 0
used_in-clear {r} x ok sp clear lo hi =
    let inside = Space-inside ok sp in
    ground (arith, Space-chunks x ok sp, clear ((x - r.base) / r.alloc.chunksize), inside)
