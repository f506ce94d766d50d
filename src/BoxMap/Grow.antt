-- ===== src/BoxMap/Grow.antt =====
-- A round of `boxmap_reserve` (core/boxmap.c) adds a region that meets no other.
use native.Mathlib.Omega.{arith}
use native.Mathlib.Nat.{div-add-mod', mul-le-mul_right}
use lfi_runtime.Prelude.{
  ℕ, ◌+◌, ◌-◌, ◌*◌, ◌/◌, ◌≤◌, ◌<◌, ◌≡◌, refl, ap, sym, ◌∙◌, inl, inr, Bool, true, false, aborted,
  done-injective, Option, none, some, List, [], ◌∷◌, ◌++◌, leb, ◌==◌, length, All, done, Run,
  Bool-cases, ◌>>=◌,
}
use lfi_runtime.Prelude.Ranges.{Range}
use lfi_runtime.Host.{Oracle, Trace}
use lfi_runtime.ExtAlloc.{ExtAlloc, extalloc_new}
use lfi_runtime.ExtAlloc.Apart.{extalloc_new_cases, extalloc_new-Tracks}
use lfi_runtime.BoxMap.{AddrRegion, BoxMap, BoxMapOptions, addr_region_max}
use lfi_runtime.BoxMap.Reserve.{addregion, mapregion, two_mallocs, alignbase, alignsize, region_of}
use lfi_runtime.BoxMap.Guards.{Roomy, alignbase-Guarded}
use lfi_runtime.BoxMap.Region.{in_span, used_in, Space-inside}
use lfi_runtime.BoxMap.Spaces.{HasChunk}
use lfi_runtime.BoxMap.Change.{Within, in_head, further, SpanApart, SpansApart, used}
use lfi_runtime.BoxMap.Ledger.{IsFresh, InReservation, InRegions, Tracks, count}

-- What a successful `addregion` did.
record Added (map : BoxMap) (base size : ℕ) (m' : BoxMap) : Type 0 where
  alloc : ExtAlloc
  m : Bool
  c : Bool
  made :
      extalloc_new m c (alignbase map.opts base) (alignsize map.opts base size) map.opts.chunksize
      ≡ done (some alloc)
  same : m' ≡ record map { regions = map.regions ++ (region_of alloc map.opts base size ∷ []) }
  fewer : length map.regions < addr_region_max

mapregion-true :
    (o : Oracle) (map : BoxMap) (base size : ℕ) (a : Option ExtAlloc) (t : Trace) {m' : BoxMap}
    {t' : Trace}
    → mapregion o map base size a t ≡ (true, m', t')
    → (alloc : ExtAlloc) × (a ≡ some alloc)
      × (m' ≡ record map { regions = map.regions ++ (region_of alloc map.opts base size ∷ []) })
unfolding mapregion
mapregion-true o map base size none t e = cc
mapregion-true o map base size (some alloc) t e = (alloc, refl, ground arith)

new_then :
    {r : Run (Option ExtAlloc)} {f : Option ExtAlloc → Bool × BoxMap × Trace}
    {v : Bool × BoxMap × Trace}
    → (r >>= λ a. done (f a)) ≡ done v
    → (a : Option ExtAlloc) × (r ≡ done a) × (f a ≡ v)
new_then {r = done a} e = (a, refl, done-injective e)
new_then {r = aborted} e = cc

Added-from :
    (o : Oracle) (map : BoxMap) (base size : ℕ) (m : Bool) (c : Bool) (a : Option ExtAlloc)
    (t : Trace) {m' : BoxMap} {t' : Trace}
    → length map.regions < addr_region_max
    → extalloc_new m c (alignbase map.opts base) (alignsize map.opts base size) map.opts.chunksize
      ≡ done a
    → mapregion o map base size a t ≡ (true, m', t')
    → Added map base size m'
Added-from o map base size m c a t fewer made e =
    let (alloc, is, same) = mapregion-true o map base size a t e in
    record { alloc = alloc; m = m; c = c; made = made ∙ ap done is; same = same; fewer = fewer }

addregion-true :
    (o : Oracle) (map : BoxMap) (base size : ℕ) (t : Trace) {m' : BoxMap} {t' : Trace}
    → addregion o map base size t ≡ done (true, m', t')
    → Added map base size m'
unfolding addregion
addregion-true o map base size t e = elim (Bool-cases (leb addr_region_max (length map.regions))) [
  | inl crowded ↦ (let bad = rw crowded at e in cc)
  | inr fewer ↦
      let (a, made, at) = new_then (rw fewer at e) in
      Added-from o map base size (two_mallocs o t).0 (two_mallocs o t).1 a (two_mallocs o t).2
        (ground arith) made at
]

-- The new region has the pool's chunk size, lies in its reservation, and hands out nothing.
record NewRegion (opts : BoxMapOptions) (base size : ℕ) (r : AddrRegion) : Type 0 where
  chunked : HasChunk opts.chunksize r
  inside : InReservation r
  mapped : (r.mapbase ≡ base) × (r.mapsize ≡ size)
  empty : (x : ℕ) → used_in r x ≡ 0
  idle : r.active ≡ 0

positive_quotient : (a c : ℕ) → 0 < a → a ≡ a / c * c → 0 < a / c
positive_quotient a c pos e = elim (Bool-cases (a / c == 0)) [
  | inl zero' ↦ absurd (
      let z : a / c ≡ 0 = ground arith in let e' : a ≡ 0 * c = e ∙ ap (λ k. k * c) z in omega arith)
  | inr more ↦ ground arith
]

new_region :
    (opts : BoxMapOptions) (base size : ℕ) (m : Bool) (c : Bool) {alloc : ExtAlloc}
    → 0 < base
    → Roomy opts base size 1
    → extalloc_new m c (alignbase opts base) (alignsize opts base size) opts.chunksize
      ≡ done (some alloc)
    → NewRegion opts base size (region_of alloc opts base size)
new_region opts base size m c {alloc} pos roomy made =
    let start = alignbase opts base in
    let g = alignbase-Guarded opts base size 1 roomy in
    let below = g.below in
    let above = g.above in
    let small = roomy.no_wrap in
    let whole = div-add-mod' start opts.chunksize in
    let exact = g.aligned in
    let chunks : 0 < start / opts.chunksize =
      positive_quotient start opts.chunksize (omega arith) (omega arith) in
    let high : opts.chunksize ≤ start =
      omega (arith, mul-le-mul_right {m = 1} {n = start / opts.chunksize} opts.chunksize chunks) in
    let (e, e', same) =
      extalloc_new_cases m c start (alignsize opts base size) opts.chunksize made in
    let t =
      extalloc_new-Tracks m c start (alignsize opts base size) opts.chunksize roomy.chunk high
        (omega arith) made in
    record {
      chunked = (
        record {
          valid = t.valid;
          starts = rw same (omega arith);
          spans = rw same (omega (arith, div-add-mod' (alignsize opts base size) opts.chunksize));
        },
        rw same,
      );
      inside = (omega arith, omega arith);
      mapped = (refl, refl);
      empty = λ x. ground (arith, t.exact ((x - start) / alloc.chunksize));
      idle = refl;
    }

All-snoc {ℓ} :
    {A : Type ℓ} (P : A → Type 0) (xs : List A) (y : A) → All P xs → P y → All P (xs ++ y ∷ [])
All-snoc P [] y h hy = (hy, tt)
All-snoc P (x ∷ xs) y h hy = (h.0, All-snoc P xs y h.1 hy)

used-snoc :
    (rs : List AddrRegion) (r : AddrRegion) (x : ℕ)
    → used (rs ++ r ∷ []) x ≡ used rs x + used_in r x
used-snoc [] r x = omega arith
used-snoc (q ∷ rs) r x = omega (arith, used-snoc rs r x)

Within-snoc :
    {p n : ℕ} {rs : List AddrRegion} (r : AddrRegion) → Within p n rs → Within p n (rs ++ r ∷ [])
Within-snoc r (in_head sp) = in_head sp
Within-snoc r (further w) = further (Within-snoc r w)

inside-snoc :
    (rs : List AddrRegion) (r : AddrRegion) (es : List Range)
    → All (InRegions rs) es
    → All (InRegions (rs ++ r ∷ [])) es
inside-snoc rs r [] h = tt
inside-snoc rs r ((p, n) ∷ es) h = (Within-snoc r h.0, inside-snoc rs r es h.1)

SpansApart-snoc :
    (rs : List AddrRegion) (r : AddrRegion)
    → SpansApart rs
    → All (λ q. SpanApart q r) rs
    → SpansApart (rs ++ r ∷ [])
SpansApart-snoc [] r h apart = (tt, tt)
SpansApart-snoc (q ∷ rs) r h apart =
    (All-snoc (SpanApart q) rs r h.0 apart.0, SpansApart-snoc rs r h.1 apart.1)

-- Apart reservations have apart spans.
fresh_spans :
    (rs : List AddrRegion) (r : AddrRegion) (base size : ℕ)
    → InReservation r
    → r.mapbase ≡ base
    → r.mapsize ≡ size
    → All InReservation rs
    → IsFresh rs base size
    → All (λ q. SpanApart q r) rs
fresh_spans [] r base size inside e e' res new = tt
fresh_spans (q ∷ rs) r base size inside e e' res new =
    (grind arith, fresh_spans rs r base size inside e e' res.1 new.1)

-- A space of an old region does not begin in the new one.
not_in_new :
    (c : ℕ) {p n : ℕ} {rs : List AddrRegion} (r : AddrRegion)
    → Within p n rs
    → All (HasChunk c) rs
    → All (λ q. SpanApart q r) rs
    → in_span r p ≡ false
not_in_new c r (in_head sp) h apart =
    let inside = Space-inside h.0.0 sp in ground (arith, apart.0, inside)
not_in_new c r (further w) h apart = not_in_new c r w h.1 apart.1

count_new :
    (c : ℕ) (rs : List AddrRegion) (r : AddrRegion) (es : List Range)
    → All (InRegions rs) es
    → All (HasChunk c) rs
    → All (λ q. SpanApart q r) rs
    → count r es ≡ 0
count_new c rs r [] h chunked apart = refl
count_new c rs r ((p, n) ∷ es) h chunked apart =
    rw (not_in_new c r h.0 chunked apart) (omega (arith, count_new c rs r es h.1 chunked apart))

-- The pool with the new region is in step with the same spaces.
pub grow-Tracks :
    {bm m' : BoxMap} {live : List Range} {t' : Trace} (o : Oracle) (base size : ℕ) (t : Trace)
    → Tracks (record { bm = bm; live = live })
    → 0 < base
    → Roomy bm.opts base size 1
    → IsFresh bm.regions base size
    → addregion o bm base size t ≡ done (true, m', t')
    → Tracks (record { bm = m'; live = live })
grow-Tracks {bm} {live} o base size t tr pos roomy new e =
    let a = addregion-true o bm base size t e in
    let r = region_of a.alloc bm.opts base size in
    let n = new_region bm.opts base size a.m a.c pos roomy a.made in
    let apart = fresh_spans bm.regions r base size n.inside n.mapped.0 n.mapped.1 tr.reserved new in
    rw a.same (record {
      chunked = All-snoc (HasChunk bm.opts.chunksize) bm.regions r tr.chunked n.chunked;
      spans = SpansApart-snoc bm.regions r tr.spans apart;
      exact = λ x. omega (arith, used-snoc bm.regions r x, n.empty x, tr.exact x);
      inside = inside-snoc bm.regions r live tr.inside;
      counted =
          All-snoc _ bm.regions r tr.counted (
            n.idle
            ∙ sym (count_new bm.opts.chunksize bm.regions r live tr.inside tr.chunked apart));
      reserved = All-snoc InReservation bm.regions r tr.reserved n.inside;
      few = tr.few;
    })
