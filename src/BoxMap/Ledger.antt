-- ===== src/BoxMap/Ledger.antt =====
-- The pool of core/boxmap.c as its client sees it: a set of spaces, which never meet.
use native.Mathlib.Omega.{arith}
use lfi_runtime.Prelude.{
  ℕ, ◌+◌, ◌*◌, ◌≤◌, ◌<◌, ◌≡◌, ◌≢◌, ◌⊎◌, true, List, [], ◌∷◌, ◌++◌, if◌then◌else◌, length, All, done,
  word,
}
use lfi_runtime.Prelude.Ranges.{Range, covered}
use lfi_runtime.Host.{Oracle, Trace}
use lfi_runtime.BoxMap.Reserve.{addregion}
use lfi_runtime.BoxMap.Guards.{Roomy}
use lfi_runtime.BoxMap.{AddrRegion, BoxMap, boxmap_addspace, boxmap_rmspace}
use lfi_runtime.BoxMap.Region.{in_span, update-Space, update-RegionOk}
use lfi_runtime.BoxMap.Spaces.{HasChunk}
use lfi_runtime.BoxMap.Change.{
  Changed, at_head, in_tail, Within, in_head, further, SpanApart, SpansApart, used,
}

-- The pool, and the spaces that the client holds: an address and a number of bytes each.
pub record Pool : Type 0 where
  pub bm : BoxMap
  pub live : List Range

-- The host's reservation `[base, base + size)` meets no reservation that the pool has.
abbrev pub IsFresh : List AddrRegion → ℕ → ℕ → Type 0
IsFresh rs base size = All (λ r. (base + size ≤ r.mapbase) ⊎ (r.mapbase + r.mapsize ≤ base)) rs

-- One call. `grow` is a round of `boxmap_reserve`: the host gave a reservation that has room for at
-- least a chunk beside its guards. The others are the client's. `take` and `refuse` are the two ends of `boxmap_addspace`, for a request
-- of `k` chunks.
pub data Step : Pool → Pool → Type 0 where
  grow :
      {l : Pool} {m' : BoxMap} {t' : Trace} (o : Oracle) (base size : ℕ) (t : Trace)
      → 0 < base
      → Roomy l.bm.opts base size 1
      → IsFresh l.bm.regions base size
      → addregion o l.bm base size t ≡ done (true, m', t')
      → Step l (record { bm = m'; live = l.live })
  take :
      {l : Pool} {m' : BoxMap} (p n k : ℕ)
      → 0 < k
      → n ≡ k * l.bm.opts.chunksize
      → k * l.bm.opts.chunksize + l.bm.opts.chunksize < word
      → length l.live + 1 < word
      → p ≢ 0
      → boxmap_addspace l.bm n ≡ done (p, m')
      → Step l (record { bm = m'; live = (p, n) ∷ l.live })
  refuse :
      {l : Pool} {m' : BoxMap} (n k : ℕ)
      → 0 < k
      → n ≡ k * l.bm.opts.chunksize
      → k * l.bm.opts.chunksize + l.bm.opts.chunksize < word
      → boxmap_addspace l.bm n ≡ done (0, m')
      → Step l (record { bm = m'; live = l.live })
  give_back :
      {l : Pool} {m' : BoxMap} (xs ys : List Range) (p n : ℕ)
      → l.live ≡ xs ++ (p, n) ∷ ys
      → boxmap_rmspace l.bm p n ≡ done m'
      → Step l (record { bm = m'; live = xs ++ ys })

pub data Reach (l : Pool) : Pool → Type 0 where
  here : Reach l l
  next : {m n : Pool} → Reach l m → Step m n → Reach l n

-- how many spaces begin in a region
abbrev pub count : AddrRegion → List Range → ℕ
count r [] = 0
count r ((p, n) ∷ es) = (if in_span r p then 1 else 0) + count r es

pub count-append :
    (r : AddrRegion) (xs ys : List Range) → count r (xs ++ ys) ≡ count r xs + count r ys
count-append r [] ys = omega arith
count-append r ((p, n) ∷ xs) ys = omega (arith, count-append r xs ys)

pub count-le-length : (r : AddrRegion) (xs : List Range) → count r xs ≤ length xs
count-le-length r [] = omega arith
count-le-length r ((p, n) ∷ xs) = ground (arith, count-le-length r xs)

abbrev pub InRegions : List AddrRegion → Range → Type 0
InRegions rs (p, n) = Within p n rs

abbrev pub InReservation : AddrRegion → Type 0
InReservation r = (r.mapbase ≤ r.base) × (r.base + r.size ≤ r.mapbase + r.mapsize)

-- What ties the pool to the client's spaces: an address is handed out exactly where a space holds
-- it, and each region counts the spaces that begin in it.
pub record Tracks (l : Pool) : Type 0 where
  pub chunked : All (HasChunk l.bm.opts.chunksize) l.bm.regions
  pub spans : SpansApart l.bm.regions
  pub exact : (x : ℕ) → used l.bm.regions x ≡ covered l.live x
  pub inside : All (InRegions l.bm.regions) l.live
  pub counted : All (λ r. r.active ≡ count r l.live) l.bm.regions
  pub reserved : All InReservation l.bm.regions
  pub few : length l.live < word

module _ {p n v : ℕ} {f : ℕ → ℕ} where
  pub Changed-HasChunk :
      (c : ℕ) {rs rs' : List AddrRegion}
      → Changed p n v f rs rs'
      → All (HasChunk c) rs
      → All (HasChunk c) rs'
  Changed-HasChunk c (at_head {r} ch) h =
      rw ch.same ((update-RegionOk ch.bits (f r.active) h.0.0 ch.valid, h.0.1), h.1)
  Changed-HasChunk c (in_tail ch) h = (h.0, Changed-HasChunk c ch h.1)

  pub Changed-InReservation :
      {rs rs' : List AddrRegion}
      → Changed p n v f rs rs'
      → All InReservation rs
      → All InReservation rs'
  Changed-InReservation (at_head ch) h = rw ch.same h
  Changed-InReservation (in_tail ch) h = (h.0, Changed-InReservation ch h.1)

  pub Changed-SpanApart :
      (q : AddrRegion) {rs rs' : List AddrRegion}
      → Changed p n v f rs rs'
      → All (SpanApart q) rs
      → All (SpanApart q) rs'
  Changed-SpanApart q (at_head ch) h = rw ch.same h
  Changed-SpanApart q (in_tail ch) h = (h.0, Changed-SpanApart q ch h.1)

  pub Changed-SpansApart :
      {rs rs' : List AddrRegion} → Changed p n v f rs rs' → SpansApart rs → SpansApart rs'
  Changed-SpansApart (at_head ch) h = rw ch.same h
  Changed-SpansApart (in_tail {r} ch) h = (Changed-SpanApart r ch h.0, Changed-SpansApart ch h.1)

  pub Changed-InRegions :
      (q m : ℕ) {rs rs' : List AddrRegion} → Changed p n v f rs rs' → Within q m rs → Within q m rs'
  Changed-InRegions q m (at_head {r} ch) (in_head sp) =
      rw ch.same (in_head (update-Space ch.bits (f r.active) sp))
  Changed-InRegions q m (at_head ch) (further w) = further w
  Changed-InRegions q m (in_tail ch) (in_head sp) = in_head sp
  Changed-InRegions q m (in_tail ch) (further w) = further (Changed-InRegions q m ch w)

  pub Changed-inside :
      {rs rs' : List AddrRegion} (es : List Range)
      → Changed p n v f rs rs'
      → All (InRegions rs) es
      → All (InRegions rs') es
  Changed-inside [] ch h = tt
  Changed-inside ((q, m) ∷ es) ch h = (Changed-InRegions q m ch h.0, Changed-inside es ch h.1)
