-- ===== src/BoxMap/Apart.antt =====
-- The spaces that the client of core/boxmap.c holds lie apart after any calls.
use native.Mathlib.Omega.{arith}
use lfi_runtime.Prelude.{
  ℕ, ◌+◌, ◌-◌, ◌/◌, ◌≤◌, ◌<◌, ◌≡◌, refl, ap, sym, ◌∙◌, inl, inr, true, false, List, [], ◌∷◌,
  if◌then◌else◌, All, Bool-cases,
}
use lfi_runtime.Prelude.Ranges.{Range}
use lfi_runtime.ExtAlloc.Extents.{bit-lt}
use lfi_runtime.BoxMap.{AddrRegion}
use lfi_runtime.BoxMap.Region.{RegionOk, in_span, used_in, Space-inside, update, used_in-clear}
use lfi_runtime.BoxMap.Spaces.{HasChunk, TookIn, this, later}
use lfi_runtime.BoxMap.Change.{
  Changed, at_head, in_tail, Within-positive, Within-outside, SpanApart, SpansApart, used,
  used-outside, Changed-Within, TookIn-Changed,
}
use lfi_runtime.BoxMap.Ledger.{count}

count-update :
    (r : AddrRegion) (bits : List ℕ) (active : ℕ) (es : List Range)
    → count (update r bits active) es ≡ count r es
count-update r bits active [] = refl
count-update r bits active ((p, n) ∷ es) =
    ap (λ k. (if in_span r p then 1 else 0) + k) (count-update r bits active es)

abbrev pub Counted : List Range → List AddrRegion → Type 0
Counted es rs = All (λ r. r.active ≡ count r es) rs

-- How the lists `es` before and `es'` after a change at `p` compare, region by region.
module _ (p n v : ℕ) (f : ℕ → ℕ) (es es' : List Range)
    (hit : (r : AddrRegion) → in_span r p ≡ true → r.active ≡ count r es → f r.active ≡ count r es')
    (miss : (r : AddrRegion) → in_span r p ≡ false → count r es ≡ count r es') where
  Counted-outside :
      (q : AddrRegion) (rs : List AddrRegion)
      → All (SpanApart q) rs
      → in_span q p ≡ true
      → Counted es rs
      → Counted es' rs
  Counted-outside q [] apart at h = tt
  Counted-outside q (r ∷ rs) apart at h =
      let out : in_span r p ≡ false = ground (arith, apart.0) in
      (h.0 ∙ miss r out, Counted-outside q rs apart.1 at h.1)

  pub Changed-Counted :
      (c : ℕ) {rs rs' : List AddrRegion}
      → Changed p n v f rs rs'
      → All (HasChunk c) rs
      → SpansApart rs
      → Counted es rs
      → Counted es' rs'
  Changed-Counted c (at_head {r} {rs} ch) chunked apart h =
      let inside = Space-inside chunked.0.0 ch.space in
      let at : in_span r p ≡ true = ground (arith, inside) in
      rw ch.same (
        hit r at h.0 ∙ sym (count-update r ch.bits (f r.active) es'),
        Counted-outside r rs apart.0 at h.1,
      )
  Changed-Counted c (in_tail {r} ch) chunked apart h =
      let w = Changed-Within ch in
      let inside = Within-positive c w chunked.1 in
      let out : in_span r p ≡ false =
        Within-outside c r p w chunked.1 apart.0 (omega arith) (omega arith) in
      (h.0 ∙ miss r out, Changed-Counted c ch chunked.1 apart.1 h.1)

used_in-lt : (r : AddrRegion) (x : ℕ) → RegionOk r → used_in r x < 2
used_in-lt r x ok = ground (arith, bit-lt r.alloc ((x - r.base) / r.alloc.chunksize) ok.valid)

-- No address is handed out twice.
pub used-lt :
    (c : ℕ) (rs : List AddrRegion) (x : ℕ) → All (HasChunk c) rs → SpansApart rs → used rs x < 2
used-lt c [] x h apart = omega arith
used-lt c (r ∷ rs) x h apart = elim (Bool-cases (in_span r x)) [
  | inl at ↦ omega (arith, used_in-lt r x h.0.0, used-outside r rs x apart.0 at)
  | inr out ↦ rw out (omega (arith, used-lt c rs x h.1 apart.1))
]

-- The space that `allocslot` gives was free.
pub TookIn-clear :
    (c : ℕ) {n p : ℕ} {rs rs' : List AddrRegion} (x : ℕ)
    → TookIn n p rs rs'
    → All (HasChunk c) rs
    → SpansApart rs
    → p ≤ x
    → x < p + n
    → used rs x ≡ 0
TookIn-clear c x (this {r} {rs} t) h apart lo hi =
    let inside = Space-inside h.0.0 t.space in
    let at : in_span r x ≡ true = ground (arith, inside) in
    omega (arith, used_in-clear x h.0.0 t.space t.clear lo hi, used-outside r rs x apart.0 at)
TookIn-clear c x (later {r} t) h apart lo hi =
    let out : in_span r x ≡ false =
      Within-outside c r x (Changed-Within (TookIn-Changed t)) h.1 apart.0 lo hi in
    rw out (omega (arith, TookIn-clear c x t h.1 apart.1 lo hi))
