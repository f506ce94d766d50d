-- ===== src/BoxMap/Change.antt =====
-- One space changes hands: what that does to the addresses that the regions of core/boxmap.c hand
-- out, and that `deleteslot` finds the region of the space.
use native.Mathlib.Omega.{arith}
use native.Mathlib.Nat.{add-mul}
use lfi_runtime.Prelude.{
  ℕ, ◌+◌, ◌≤◌, ◌<◌, ◌≡◌, refl, ◌⊎◌, true, false, ◌&&◌, List, [], ◌∷◌, if◌then◌else◌, ltb, leb, All,
  done, Returns, returns, Returns-bind, word, add64, sub64,
}
use lfi_runtime.ExtAlloc.{bit, extalloc_free}
use lfi_runtime.ExtAlloc.Alloc.{IsValid, Freed, extalloc_free-Freed}
use lfi_runtime.BoxMap.{AddrRegion, deletein, deleteslot}
use lfi_runtime.BoxMap.Region.{
  RegionOk, in_span, used_in, Space, Space-inside, update, used_in-update,
}
use lfi_runtime.BoxMap.Spaces.{TookIn, this, later, HasChunk}

-- The bits of one space become `v`, and the region's count changes by `f`.
pub record ChangedAt (p n v : ℕ) (f : ℕ → ℕ) (r r' : AddrRegion) : Type 0 where
  pub bits : List ℕ
  pub space : Space r p n
  pub same : r' ≡ update r bits (f r.active)
  pub valid : IsValid (record r.alloc { bitvec = bits })
  pub marked :
      (j : ℕ)
      → bit bits j ≡ (
          if leb space.first j && ltb j (space.first + space.chunks)
          then v
          else bit r.alloc.bitvec j)

pub data Changed (p n v : ℕ) (f : ℕ → ℕ) : List AddrRegion → List AddrRegion → Type 0 where
  at_head :
      {r r' : AddrRegion} {rs : List AddrRegion}
      → ChangedAt p n v f r r'
      → Changed p n v f (r ∷ rs) (r' ∷ rs)
  in_tail :
      {r : AddrRegion} {rs rs' : List AddrRegion}
      → Changed p n v f rs rs'
      → Changed p n v f (r ∷ rs) (r ∷ rs')

pub data Within (p n : ℕ) : List AddrRegion → Type 0 where
  in_head : {r : AddrRegion} {rs : List AddrRegion} → Space r p n → Within p n (r ∷ rs)
  further : {r : AddrRegion} {rs : List AddrRegion} → Within p n rs → Within p n (r ∷ rs)

pub Changed-Within :
    {p n v : ℕ} {f : ℕ → ℕ} {rs rs' : List AddrRegion} → Changed p n v f rs rs' → Within p n rs
Changed-Within (at_head c) = in_head c.space
Changed-Within (in_tail c) = further (Changed-Within c)

abbrev pub plus_one : ℕ → ℕ
plus_one a = add64 a 1

abbrev pub minus_one : ℕ → ℕ
minus_one a = sub64 a 1

pub TookIn-Changed :
    {n p : ℕ} {rs rs' : List AddrRegion} → TookIn n p rs rs' → Changed p n 1 plus_one rs rs'
TookIn-Changed (this t) =
    at_head
      (record { bits = t.bits; space = t.space; same = t.same; valid = t.valid; marked = t.marked })
TookIn-Changed (later t) = in_tail (TookIn-Changed t)

abbrev pub SpanApart : AddrRegion → AddrRegion → Type 0
SpanApart r r' = (r.base + r.size ≤ r'.base) ⊎ (r'.base + r'.size ≤ r.base)

abbrev pub SpansApart : List AddrRegion → Type 0
SpansApart [] = Unit
SpansApart (r ∷ rs) = All (SpanApart r) rs × SpansApart rs

abbrev pub used : List AddrRegion → ℕ → ℕ
used [] x = 0
used (r ∷ rs) x = used_in r x + used rs x

-- An address of one region is in no other.
pub used-outside :
    (r : AddrRegion) (rs : List AddrRegion) (x : ℕ)
    → All (SpanApart r) rs
    → in_span r x ≡ true
    → used rs x ≡ 0
used-outside r [] x apart here = refl
used-outside r (r' ∷ rs) x apart here =
    let other : in_span r' x ≡ false = ground (arith, apart.0) in
    rw other (omega (arith, used-outside r rs x apart.1 here))

pub Within-outside :
    (c : ℕ) {p n : ℕ} (r : AddrRegion) {rs : List AddrRegion} (x : ℕ)
    → Within p n rs
    → All (HasChunk c) rs
    → All (SpanApart r) rs
    → p ≤ x
    → x < p + n
    → in_span r x ≡ false
Within-outside c r x (in_head sp) h apart lo hi =
    let inside = Space-inside h.0.0 sp in ground (arith, apart.0, inside)
Within-outside c r x (further w) h apart lo hi = Within-outside c r x w h.1 apart.1 lo hi

-- The addresses of the space get the value, and every other address keeps its own.
pub Changed-used :
    (c : ℕ) {p n v : ℕ} {f : ℕ → ℕ} {rs rs' : List AddrRegion} (x : ℕ)
    → Changed p n v f rs rs'
    → All (HasChunk c) rs
    → SpansApart rs
    → used rs' x ≡ (if leb p x && ltb x (p + n) then v else used rs x)
Changed-used c {f} x (at_head {r} {rs} ch) h apart =
    let inside = Space-inside h.0.0 ch.space in
    rw ch.same (
      ground (
        arith,
        used_in-update ch.bits (f r.active) _ x h.0.0 ch.space ch.marked,
        used-outside r rs x apart.0,
        inside,
      ))
Changed-used c x (in_tail {r} ch) h apart =
    ground
      (arith, Changed-used c x ch h.1 apart.1, Within-outside c r x (Changed-Within ch) h.1 apart.0)

pub Within-positive :
    (c : ℕ) {p n : ℕ} {rs : List AddrRegion}
    → Within p n rs
    → All (HasChunk c) rs
    → (0 < n) × (0 < p)
Within-positive c (in_head sp) h = let inside = Space-inside h.0.0 sp in (inside.2, inside.3)
Within-positive c (further w) h = Within-positive c w h.1

-- The end of a region's span does not wrap.
span_small : {r : AddrRegion} → RegionOk r → r.base + r.size < word
span_small {r} ok =
    omega (
      arith,
      ok.starts,
      ok.spans,
      ok.valid.fits,
      add-mul r.alloc.base r.alloc.size r.alloc.chunksize,
    )

deletein-outside :
    {r : AddrRegion} (p n : ℕ) → RegionOk r → in_span r p ≡ false → deletein r p n ≡ done r
unfolding deletein
deletein-outside {r} p n ok out =
    let small = span_small ok in
    let test : (leb r.base p && ltb p (add64 r.base r.size)) ≡ false = ground arith in rw test

-- No region holds the address: nothing changes.
deleteslot-outside :
    (r : AddrRegion) (c p n : ℕ) (rs : List AddrRegion)
    → All (HasChunk c) rs
    → All (SpanApart r) rs
    → in_span r p ≡ true
    → deleteslot rs p n ≡ done rs
unfolding deleteslot
deleteslot-outside r c p n [] h apart here = refl
deleteslot-outside r c p n (r' ∷ rs) h apart here =
    let out : in_span r' p ≡ false = ground (arith, apart.0) in
    rw (deletein-outside p n h.0.0 out, deleteslot-outside r c p n rs h.1 apart.1 here)

deletein-ChangedAt :
    {r : AddrRegion} (p n : ℕ)
    → RegionOk r
    → Space r p n
    → Returns (ChangedAt p n 0 minus_one r) (deletein r p n)
unfolding deletein
deletein-ChangedAt {r} p n ok sp =
    let small = span_small ok in
    let inside = Space-inside ok sp in
    let test : (leb r.base p && ltb p (add64 r.base r.size)) ≡ true = ground (arith, inside) in
    let freed : Returns (Freed r.alloc sp.first sp.chunks) (extalloc_free r.alloc p n) =
      rw (sp.at, sp.bytes) (extalloc_free-Freed ok.valid sp.first sp.chunks sp.room sp.small) in
    rw test (
      Returns-bind freed λ a' f. returns (record {
        bits = f.bits;
        space = sp;
        same = rw f.same;
        valid = f.valid;
        marked = f.cleared;
      }))

-- Giving back a space never aborts, and it changes the space's region alone.
pub deleteslot-Changed :
    (c : ℕ) {p n : ℕ} {rs : List AddrRegion}
    → Within p n rs
    → All (HasChunk c) rs
    → SpansApart rs
    → Returns (Changed p n 0 minus_one rs) (deleteslot rs p n)
unfolding deleteslot
deleteslot-Changed c {p} {n} (in_head {r} {rs} sp) h apart =
    let inside = Space-inside h.0.0 sp in
    let here : in_span r p ≡ true = ground (arith, inside) in
    Returns-bind (deletein-ChangedAt p n h.0.0 sp)
      λ r' ch. rw (deleteslot-outside r c p n rs h.1 apart.0 here) (returns (at_head ch))
deleteslot-Changed c {p} {n} (further {r} {rs} w) h apart =
    let inside = Within-positive c w h.1 in
    let out : in_span r p ≡ false =
      Within-outside c r p w h.1 apart.0 (omega arith) (omega arith) in
    rw (deletein-outside p n h.0.0 out)
      (Returns-bind (deleteslot-Changed c w h.1 apart.1) λ rs' ch. returns (in_tail ch))
