-- ===== src/RangeMap/Find.antt =====
-- `find` of core/mmap/range_map.h.
use native.Mathlib.Omega.{arith}
use lfi_runtime.Prelude.{
  ℕ, ◌≤◌, ◌<◌, ◌≡◌, refl, sym, ap, ◌∙◌, ◌&&◌, if◌then◌else◌, Option, none, some, List, [], ◌∷◌, ltb,
  leb, Bool-cases, inl, inr,
}
use lfi_runtime.RangeMap.{Entry, rev_append, upper_bound, before, find}
use lfi_runtime.RangeMap.View.{value_at, Ordered, Ordered-weaken, Falling, Falling-weaken}
use lfi_runtime.RangeMap.Cut.{HeadStart}

module _ {V : Type 0} where
  abbrev pub found : Option (Entry V) → Option V
  found none = none
  found (some e) = some e.val

  -- The entry that holds a key: a scan from the front.
  abbrev pub entry_at : ℕ → List (Entry V) → Option (Entry V)
  entry_at k [] = none
  entry_at k (e ∷ r) =
      let rest = entry_at k r in if leb e.start k && ltb k e.stop then some e else rest

  entry_at-below : (k lo : ℕ) (m : List (Entry V)) → k < lo → Ordered lo m → entry_at k m ≡ none
  entry_at-below k lo [] lt h = refl
  entry_at-below k lo (e ∷ r) lt h = ground (arith, entry_at-below k e.stop r)

  entry_at-above : (k hi : ℕ) (m : List (Entry V)) → hi ≤ k → Falling hi m → entry_at k m ≡ none
  entry_at-above k hi [] le h = refl
  entry_at-above k hi (e ∷ r) le h = ground (arith, entry_at-above k e.start r)

  -- A key below the cut is looked up before it, any other behind it.
  entry_at-rev_append :
      (k p : ℕ) (l r : List (Entry V))
      → Falling p l
      → Ordered p r
      → entry_at k (rev_append l r) ≡ (if ltb k p then entry_at k l else entry_at k r)
  unfolding rev_append
  entry_at-rev_append k p [] r hl hr = ground (arith, entry_at-below k p r)
  entry_at-rev_append k p (e ∷ l) r hl hr =
      let hr' : Ordered e.start (e ∷ r) = (omega arith, hl.1, Ordered-weaken e.stop p r hl.0 hr) in
      ground (
        arith,
        entry_at-rev_append k e.start l (e ∷ r) hl.2 hr',
        entry_at-above k e.start l,
        entry_at-below k p r,
      )

  -- The entry before the iterator is the one that may hold the key.
  before-entry_at :
      (k p : ℕ) (l r : List (Entry V))
      → Falling p l
      → Ordered p r
      → HeadStart (λ s. s ≤ k) l
      → HeadStart (λ s. k < s) r
      → before k l ≡ entry_at k (rev_append l r)
  unfolding before
  before-entry_at k p [] [] f o lo hi = sym (entry_at-rev_append k p [] [] f o ∙ ground arith)
  before-entry_at k p [] (x ∷ r) f o lo hi = sym (
      entry_at-rev_append k p [] (x ∷ r) f o
      ∙ ground (arith, entry_at-below k x.start (x ∷ r), o, hi))
  before-entry_at k p (e ∷ l) [] f o lo hi =
      ground (arith, entry_at-rev_append k p (e ∷ l) [] f o, entry_at-above k e.start l, f, lo)
  before-entry_at k p (e ∷ l) (x ∷ r) f o lo hi = ground (
    arith,
    entry_at-rev_append k p (e ∷ l) (x ∷ r) f o,
    entry_at-above k e.start l,
    entry_at-below k x.start (x ∷ r),
    f,
    o,
    lo,
    hi,
  )

  upper_bound-entry_at :
      (k p : ℕ) (l r : List (Entry V))
      → Falling p l
      → Ordered p r
      → HeadStart (λ s. s ≤ k) l
      → before k (upper_bound k l r).0 ≡ entry_at k (rev_append l r)
  unfolding upper_bound rev_append
  upper_bound-entry_at k p l [] f o lo = before-entry_at k p l [] f o lo tt
  upper_bound-entry_at k p l (e ∷ r) f o lo = elim (Bool-cases (leb e.start k)) [
    | inl more ↦ rw more (
        upper_bound-entry_at k e.stop (e ∷ l) r (omega arith, o.1, Falling-weaken p e.start l o.0 f)
          o.2 (ground arith))
    | inr end ↦ rw end (before-entry_at k p l (e ∷ r) f o lo (ground arith))
  ]

  -- In a map whose entries rise and do not meet, `find` gives the whole entry, its bounds and its
  -- value, whose range holds the key, as a scan from the front does; where no range holds it, `find`
  -- gives nothing.
  pub find-entry_at : (m : List (Entry V)) (k : ℕ) → Ordered 0 m → find k m ≡ entry_at k m
  unfolding find rev_append
  find-entry_at m k h = upper_bound-entry_at k 0 [] m tt h tt

  found-entry_at : (k : ℕ) (m : List (Entry V)) → found (entry_at k m) ≡ value_at k m
  found-entry_at k [] = refl
  found-entry_at k (e ∷ r) = ground (arith, found-entry_at k r)

  pub found-find : (m : List (Entry V)) (k : ℕ) → Ordered 0 m → found (find k m) ≡ value_at k m
  found-find m k h = ap found (find-entry_at m k h) ∙ found-entry_at k m
