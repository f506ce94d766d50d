-- ===== src/BoxMap/Safety.antt =====
-- The main theorem on core/boxmap.c: after any calls the client's spaces lie apart, each inside a
-- region, and the pool hands out exactly their addresses.
use native.Mathlib.Omega.{arith}
use lfi_runtime.Prelude.{
  ℕ, ◌+◌, ◌*◌, ◌<◌, ◌≡◌, refl, ap, ◌≢◌, List, [], ◌∷◌, ◌++◌, length, length-append, All, of_Returns,
  Returns, returns, Returns-bind, word,
}
use lfi_runtime.Prelude.Ranges.{
  Range, covered, covered-append, All-middle, Apart, IsFull, Apart-of_covered,
}
use lfi_runtime.BoxMap.{
  AddrRegion, BoxMap, BoxMapOptions, boxmap_addspace, boxmap_rmspace, boxmap_new,
}
use lfi_runtime.BoxMap.Spaces.{HasChunk, Slot, none_fits, taken, TookIn, allocslot-Slot}
use lfi_runtime.BoxMap.Change.{
  Changed, Within, Within-positive, SpansApart, Changed-used, Changed-Within, TookIn-Changed,
  deleteslot-Changed, plus_one, minus_one,
}
use lfi_runtime.BoxMap.Ledger.{
  Pool, Step, grow, take, refuse, give_back, Reach, here, next, count, count-append,
  count-le-length, InRegions, Tracks, Changed-HasChunk, Changed-SpansApart, Changed-inside,
  Changed-InRegions, Changed-InReservation,
}
use lfi_runtime.BoxMap.Grow.{grow-Tracks}
use lfi_runtime.BoxMap.Apart.{Changed-Counted, used-lt, TookIn-clear}

-- A pool of regions, and the list of spaces.
abbrev TracksAll : BoxMapOptions → List AddrRegion → List Range → Type 0
TracksAll opts rs live = Tracks (record { bm = record { regions = rs; opts = opts }; live = live })

shorter :
    {live : List Range} (xs ys : List Range) (e : Range)
    → length live < word
    → live ≡ xs ++ e ∷ ys
    → length (xs ++ ys) < word
shorter xs ys e few at = omega (arith, ap length at, length-append xs (e ∷ ys), length-append xs ys)

module _ {opts : BoxMapOptions} {rs rs' : List AddrRegion} {live : List Range} where
  take-Tracks :
      (p n : ℕ)
      → length live + 1 < word
      → TracksAll opts rs live
      → TookIn n p rs rs'
      → TracksAll opts rs' ((p, n) ∷ live)
  take-Tracks p n few t took =
      let c = opts.chunksize in
      let ch = TookIn-Changed took in
      record {
        chunked = Changed-HasChunk c ch t.chunked;
        spans = Changed-SpansApart ch t.spans;
        exact = λ x. ground (
          arith,
          Changed-used c x ch t.chunked t.spans,
          TookIn-clear c x took t.chunked t.spans,
          t.exact x,
        );
        inside = (Changed-InRegions p n ch (Changed-Within ch), Changed-inside live ch t.inside);
        counted =
            Changed-Counted p n 1 plus_one live ((p, n) ∷ live)
              (λ r at e. ground (arith, count-le-length r live)) (λ r out. ground arith) c ch
              t.chunked t.spans t.counted;
        reserved = Changed-InReservation ch t.reserved;
        few = omega arith;
      }

  give_back-Tracks :
      (xs ys : List Range) (p n : ℕ)
      → TracksAll opts rs live
      → live ≡ xs ++ (p, n) ∷ ys
      → Changed p n 0 minus_one rs rs'
      → TracksAll opts rs' (xs ++ ys)
  give_back-Tracks xs ys p n t e ch =
      let c = opts.chunksize in
      let few = t.few in
      let split = λ (r : AddrRegion). count-append r xs ((p, n) ∷ ys) in
      record {
        chunked = Changed-HasChunk c ch t.chunked;
        spans = Changed-SpansApart ch t.spans;
        exact = λ x. ground (
          arith,
          Changed-used c x ch t.chunked t.spans,
          used-lt c rs x t.chunked t.spans,
          t.exact x,
          ap (λ l. covered l x) e,
          covered-append xs ((p, n) ∷ ys) x,
          covered-append xs ys x,
        );
        inside =
            Changed-inside (xs ++ ys) ch
              (All-middle (InRegions rs) xs ys (p, n) (rw e at t.inside)).1;
        counted =
            Changed-Counted p n 0 minus_one live (xs ++ ys)
              (λ r at h.
                ground
                  (arith, ap (count r) e, split r, count-append r xs ys, count-le-length r live))
              (λ r out. ground (arith, ap (count r) e, split r, count-append r xs ys)) c ch
              t.chunked t.spans t.counted;
        reserved = Changed-InReservation ch t.reserved;
        few = shorter xs ys (p, n) t.few e;
      }

-- The two ends of `boxmap_addspace` by those of `allocslot`.
abbrev SlotOf : ℕ → ℕ → BoxMap → ℕ × BoxMap → Type 0
SlotOf k n bm r = Slot k n bm.regions (r.0, r.1.regions) × (r.1.opts ≡ bm.opts)

boxmap_addspace-Slot :
    {bm : BoxMap} (n k : ℕ)
    → All (HasChunk bm.opts.chunksize) bm.regions
    → 0 < k
    → n ≡ k * bm.opts.chunksize
    → k * bm.opts.chunksize + bm.opts.chunksize < word
    → Returns (SlotOf k n bm) (boxmap_addspace bm n)
unfolding boxmap_addspace
boxmap_addspace-Slot {bm} n k h pos e small =
    Returns-bind (allocslot-Slot bm.opts.chunksize k n bm.regions h pos e small)
      λ r slot. returns (slot, refl)

abbrev pub ChangedOf : ℕ → ℕ → BoxMap → BoxMap → Type 0
ChangedOf p n bm m' = Changed p n 0 minus_one bm.regions m'.regions × (m'.opts ≡ bm.opts)

-- In regions that are in order and do not overlap, giving back a space that lies in one of them does
-- not abort: its chunks become free, the region counts one space less, and nothing else changes.
pub boxmap_rmspace-Changed :
    {bm : BoxMap} (p n : ℕ)
    → All (HasChunk bm.opts.chunksize) bm.regions
    → SpansApart bm.regions
    → Within p n bm.regions
    → Returns (ChangedOf p n bm) (boxmap_rmspace bm p n)
unfolding boxmap_rmspace
boxmap_rmspace-Changed {bm} p n h apart w =
    Returns-bind (deleteslot-Changed bm.opts.chunksize w h apart) λ rs ch. returns (ch, refl)

-- A pool with the same options.
same_opts :
    {opts : BoxMapOptions} {m' : BoxMap} {live : List Range}
    → m'.opts ≡ opts
    → TracksAll opts m'.regions live
    → Tracks (record { bm = m'; live = live })
same_opts {m'} {live} e t = let h : TracksAll m'.opts m'.regions live = rw e t in h

slot_take :
    {opts : BoxMapOptions} {rs rs' : List AddrRegion} {live : List Range} (p n k : ℕ)
    → TracksAll opts rs live
    → length live + 1 < word
    → p ≢ 0
    → Slot k n rs (p, rs')
    → TracksAll opts rs' ((p, n) ∷ live)
slot_take p n k t few ne (none_fits no_room) = absurd (ne refl)
slot_take p n k t few ne (taken ne' took) = take-Tracks p n few t took

slot_refuse :
    {opts : BoxMapOptions} {rs rs' : List AddrRegion} {live : List Range} {p : ℕ} (n k : ℕ)
    → TracksAll opts rs live
    → p ≡ 0
    → Slot k n rs (p, rs')
    → TracksAll opts rs' live
slot_refuse n k t z (none_fits no_room) = t
slot_refuse n k t z (taken ne took) = absurd (ne z)

-- Every call keeps the pool and the client's spaces in step.
Step-Tracks : {l m : Pool} → Tracks l → Step l m → Tracks m
Step-Tracks t (grow o base size tr pos roomy new e) = grow-Tracks o base size tr t pos roomy new e
Step-Tracks t (take p n k pos e small few ne at) =
    let (slot, same) = of_Returns (boxmap_addspace-Slot n k t.chunked pos e small) at in
    same_opts same (slot_take p n k t few ne slot)
Step-Tracks t (refuse n k pos e small at) =
    let (slot, same) = of_Returns (boxmap_addspace-Slot n k t.chunked pos e small) at in
    same_opts same (slot_refuse n k t refl slot)
Step-Tracks {l} t (give_back xs ys p n at e) =
    let w = (All-middle (InRegions l.bm.regions) xs ys (p, n) (rw at at t.inside)).0 in
    let (ch, same) = of_Returns (boxmap_rmspace-Changed p n t.chunked t.spans w) e in
    same_opts same (give_back-Tracks xs ys p n t at ch)

Reach-Tracks : {l m : Pool} → Tracks l → Reach l m → Tracks m
Reach-Tracks t here = t
Reach-Tracks t (next r st) = Step-Tracks (Reach-Tracks t r) st

inside-IsFull :
    (c : ℕ) (rs : List AddrRegion) (es : List Range)
    → All (HasChunk c) rs
    → All (InRegions rs) es
    → All IsFull es
inside-IsFull c rs [] chunked h = tt
inside-IsFull c rs ((p, n) ∷ es) chunked h =
    ((Within-positive c h.0 chunked).0, inside-IsFull c rs es chunked h.1)

Tracks-Apart : {l : Pool} → Tracks l → Apart l.live
Tracks-Apart {l} t =
    let c = l.bm.opts.chunksize in
    Apart-of_covered l.live (inside-IsFull c l.bm.regions l.live t.chunked t.inside)
      λ x. omega (arith, t.exact x, used-lt c l.bm.regions x t.chunked t.spans)

empty-Tracks : (opts : BoxMapOptions) → Tracks (record { bm = boxmap_new opts; live = [] })
unfolding boxmap_new
empty-Tracks opts = record {
  chunked = tt;
  spans = tt;
  exact = λ x. refl;
  inside = tt;
  counted = tt;
  reserved = tt;
  few = omega arith;
}

-- From `boxmap_new` on, after any calls of `addregion` on reservations of the host that do not meet
-- and have room for a chunk beside their guards, and any calls of `boxmap_addspace` for whole chunks
-- and of `boxmap_rmspace` for a space that the client holds, the spaces that the client holds do not meet, each lies in one region, and each
-- region's `active` is the number of spaces that begin in it.
pub Reach-Apart_spaces :
    (opts : BoxMapOptions) {l : Pool}
    → Reach (record { bm = boxmap_new opts; live = [] }) l
    → Apart l.live
      × All (InRegions l.bm.regions) l.live
      × All (λ r. r.active ≡ count r l.live) l.bm.regions
Reach-Apart_spaces opts r =
    let t = Reach-Tracks (empty-Tracks opts) r in (Tracks-Apart t, t.inside, t.counted)
