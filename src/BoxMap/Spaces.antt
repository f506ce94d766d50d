-- ===== src/BoxMap/Spaces.antt =====
-- `allocslot` and `deleteslot` (core/boxmap.c) as operations on the set of addresses that the
-- regions hand out.
use native.Mathlib.Omega.{arith}
use lfi_runtime.Prelude.{
  ℕ, ◌+◌, ◌*◌, ◌≤◌, ◌<◌, ◌≡◌, refl, ◌≢◌, false, ◌&&◌, not, ◌==◌, List, [], ◌∷◌, if◌then◌else◌, ltb,
  leb, All, done, Run, Returns, returns, Returns-bind, word, add64, ◌>>=◌,
}
use lfi_runtime.ExtAlloc.{ExtAlloc, bit, extalloc_alloc}
use lfi_runtime.ExtAlloc.Find.{NoRun}
use lfi_runtime.ExtAlloc.Alloc.{IsValid, Outcome, full, placed, extalloc_alloc-Allocated, Allocated}
use lfi_runtime.BoxMap.{AddrRegion, allocslot}
use lfi_runtime.BoxMap.Region.{RegionOk, Space, Space-inside, update}

-- One region gives the space `[p, p + n)`.
pub record Took (r : AddrRegion) (n p : ℕ) (r' : AddrRegion) : Type 0 where
  pub bits : List ℕ
  pub space : Space r p n
  pub same : r' ≡ update r bits (add64 r.active 1)
  pub valid : IsValid (record r.alloc { bitvec = bits })
  pub clear : (j : ℕ) → space.first ≤ j → j < space.first + space.chunks → bit r.alloc.bitvec j ≡ 0
  pub marked :
      (j : ℕ)
      → bit bits j ≡ (
          if leb space.first j && ltb j (space.first + space.chunks)
          then 1
          else bit r.alloc.bitvec j)

-- A region has no room for `k` chunks.
abbrev pub NoRoom : ℕ → AddrRegion → Type 0
NoRoom k r = (t : ℕ) → t + k ≤ r.alloc.size → NoRun r.alloc.bitvec k t

-- Exactly one region gives the space, and the others stay as they are.
pub data TookIn (n p : ℕ) : List AddrRegion → List AddrRegion → Type 0 where
  this : {r r' : AddrRegion} {rs : List AddrRegion} → Took r n p r' → TookIn n p (r ∷ rs) (r' ∷ rs)
  later :
      {r : AddrRegion} {rs rs' : List AddrRegion}
      → TookIn n p rs rs'
      → TookIn n p (r ∷ rs) (r ∷ rs')

pub data Slot (k n : ℕ) (rs : List AddrRegion) : ℕ × List AddrRegion → Type 0 where
  none_fits : All (NoRoom k) rs → Slot k n rs (0, rs)
  taken : {p : ℕ} {rs' : List AddrRegion} → p ≢ 0 → TookIn n p rs rs' → Slot k n rs (p, rs')

abbrev pub HasChunk : ℕ → AddrRegion → Type 0
HasChunk c r = RegionOk r × (r.alloc.chunksize ≡ c)

-- What the answer of the region's allocator means for the region.
data Answered (k n : ℕ) (r : AddrRegion) : ℕ × ExtAlloc → Type 0 where
  refused : NoRoom k r → Answered k n r (0, r.alloc)
  given :
      {p : ℕ} {a' : ExtAlloc}
      → p ≢ 0
      → Took r n p (record r { alloc = a'; active = add64 r.active 1 })
      → Answered k n r (p, a')

region_answer :
    (k n : ℕ) {r : AddrRegion} {pa : ℕ × ExtAlloc}
    → RegionOk r
    → 0 < k
    → n ≡ k * r.alloc.chunksize
    → k * r.alloc.chunksize + r.alloc.chunksize < word
    → IsValid pa.1
    → Outcome r.alloc k pa
    → Answered k n r pa
region_answer k n ok pos e small v (full none_free) = refused none_free
region_answer k n {r} ok pos e small v (placed s w room clear lowest bits) =
    let sp : Space r ((r.alloc.base + s) * r.alloc.chunksize) n = record {
      first = s;
      chunks = k;
      at = refl;
      bytes = e;
      some_chunks = pos;
      room = room;
      small = small;
    } in
    given (omega (arith, (Space-inside ok sp).3))
      (record { bits = w; space = sp; same = refl; valid = v; clear = clear; marked = bits })

-- One round of the loop of `allocslot`.
slot_round :
    (k n : ℕ) {r : AddrRegion} {rs : List AddrRegion} {rest : Run (ℕ × List AddrRegion)}
    (pa : ℕ × ExtAlloc)
    → Answered k n r pa
    → Returns (Slot k n rs) rest
    → Returns (Slot k n (r ∷ rs)) (
        if not (pa.0 == 0)
        then done (pa.0, record r { alloc = pa.1; active = add64 r.active 1 } ∷ rs)
        else (rest >>= λ (q, rs'). done (q, record r { alloc = pa.1 } ∷ rs')))
slot_round k n pa (refused crowded) ih = Returns-bind ih (λ s is. returns (after crowded s is))
  where
    after :
        {r : AddrRegion} {rs : List AddrRegion}
        → NoRoom k r
        → (s : ℕ × List AddrRegion) → Slot k n rs s
        → Slot k n (r ∷ rs) (s.0, r ∷ s.1)
    after crowded s (none_fits all) = none_fits (crowded, all)
    after crowded s (taken ne t) = taken ne (later t)
slot_round k n pa (given {p} ne t) ih =
    let test : (p == 0) ≡ false = ground arith in rw test (returns (taken ne (this t)))

-- In regions that are in order, for a request of `k` chunks that does not wrap, `allocslot` does not
-- abort: either no region has `k` free chunks in a row and nothing changes, or exactly one region
-- gives a space, whose chunks were free and are then taken, and the others stay as they are.
pub allocslot-Slot :
    (c k n : ℕ) (rs : List AddrRegion)
    → All (HasChunk c) rs
    → 0 < k
    → n ≡ k * c
    → k * c + c < word
    → Returns (Slot k n rs) (allocslot rs n)
unfolding allocslot
allocslot-Slot c k n [] h pos e small = returns (none_fits tt)
allocslot-Slot c k n (r ∷ rs) h pos e small =
    let chunk = h.0.1 in
    let e' : n ≡ k * r.alloc.chunksize = rw chunk e in
    let small' : k * r.alloc.chunksize + r.alloc.chunksize < word = rw chunk small in
    let answer : Returns (Allocated r.alloc k) (extalloc_alloc r.alloc n) =
      rw e' (extalloc_alloc-Allocated h.0.0.valid k pos small') in
    Returns-bind answer λ pa (v, out).
      slot_round k n pa (region_answer k n h.0.0 pos e' small' v out)
        (allocslot-Slot c k n rs h.1 pos e small)
