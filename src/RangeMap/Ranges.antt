-- ===== src/RangeMap/Ranges.antt =====
-- What `overlaps`, `get_overlapping` and `get_gaps` of core/mmap/range_map.h say of a range of keys.
use native.Mathlib.Omega.{arith}
use lfi_runtime.Prelude.{
  ℕ, ◌≤◌, ◌<◌, ◌≡◌, refl, sym, ◌∙◌, Bool, true, false, ◌&&◌, ◌||◌, Option, none, some, List, [],
  ◌∷◌, if◌then◌else◌, ltb, leb, Bool-cases, inl, inr,
}
use lfi_runtime.RangeMap.{
  Entry, overlap_begin, overlaps, take_below, get_overlapping, gaps_from, get_gaps,
}
use lfi_runtime.RangeMap.View.{value_at, Ordered, Ordered-weaken, value_at-below}
use lfi_runtime.RangeMap.Cut.{HeadStop, overlap_begin-IsBegin}
use lfi_runtime.RangeMap.Carve.{value_at-cut}

-- whether a key lies in one of the gaps
abbrev pub in_gaps : ℕ → List (ℕ × ℕ) → Bool
in_gaps k [] = false
in_gaps k ((lo, hi) ∷ gaps) = (leb lo k && ltb k hi) || in_gaps k gaps

module _ {V : Type 0} where
  abbrev pub is_free : Option V → Bool
  is_free none = true
  is_free (some v) = false

  -- Every entry has a key in the range.
  abbrev pub Meets : ℕ → ℕ → List (Entry V) → Type 0
  Meets start stop [] = Unit
  Meets start stop (e ∷ r) = (e.start < stop) × (start < e.stop) × Meets start stop r

  -- Behind an entry that ends above `start` every entry does.
  abbrev EndAbove : ℕ → List (Entry V) → Type 0
  EndAbove start r = HeadStop (λ s. start < s) r

  EndAbove-tail :
      (start p : ℕ) (e : Entry V) (r : List (Entry V))
      → start < e.stop
      → Ordered e.stop r
      → EndAbove start r
  EndAbove-tail start p e [] h o = tt
  EndAbove-tail start p e (x ∷ r) h o = omega arith

  take_below-lem :
      (start stop p k : ℕ) (r : List (Entry V))
      → Ordered p r
      → EndAbove start r
      → Ordered p (take_below stop r)
        × Meets start stop (take_below stop r)
        × (k < stop → value_at k (take_below stop r) ≡ value_at k r)
  unfolding take_below
  take_below-lem start stop p k [] o h = (tt, tt, λ lt. refl)
  take_below-lem start stop p k (e ∷ r) o h = elim (Bool-cases (ltb e.start stop)) [
    | inl more ↦
        let rest = take_below-lem start stop e.stop k r o.2 (EndAbove-tail start p e r h o.2) in
        rw more ((o.0, o.1, rest.0), (ground arith, h, rest.1), λ lt. ground (arith, rest.2 lt))
    | inr end ↦ rw end (tt, tt, λ lt. ground (arith, value_at-below k e.start (e ∷ r), o))
  ]

  -- The entries that `get_overlapping` gives rise and do not meet, each has a key in the range, and in
  -- the range they say what the map says.
  pub record Overlapping (m : List (Entry V)) (start stop : ℕ) (es : List (Entry V)) : Type 0 where
    pub ordered : Ordered 0 es
    pub meets : Meets start stop es
    pub same : (k : ℕ) → start ≤ k → k < stop → value_at k es ≡ value_at k m

  pub get_overlapping-Overlapping :
      (m : List (Entry V)) (start stop : ℕ)
      → Ordered 0 m
      → Overlapping m start stop (get_overlapping start stop m)
  unfolding get_overlapping
  get_overlapping-Overlapping m start stop h = elim (Bool-cases (leb stop start)) [
    | inl empty ↦
        rw empty (record { ordered = tt; meets = tt; same = λ k lo hi. absurd (ground arith) })
    | inr full ↦
        let b = overlap_begin-IsBegin m start h in
        let (l, r) = overlap_begin start m in
        let lem = λ (k : ℕ). take_below-lem start stop b.point k r b.cut.ordered b.open_head in
        rw full (record {
          ordered = Ordered-weaken 0 b.point (take_below stop r) (omega arith) (lem 0).0;
          meets = (lem 0).1;
          same =
              λ k lo hi. (lem k).2 hi ∙ sym (value_at-cut m k b.point start l r b.cut b.ended lo);
        })
  ]

  overlaps_none :
      (start stop p : ℕ) (r : List (Entry V))
      → Ordered p r
      → elim r as (λ x. Bool) [ [] ↦ false | e ∷ r ↦ ltb e.start stop ] ≡ false
      → (k : ℕ) → k < stop
      → value_at k r ≡ none
  overlaps_none start stop p [] o h k lt = refl
  overlaps_none start stop p (e ∷ r) o h k lt =
      value_at-below k e.start (e ∷ r) (ground arith) (omega arith, o.1, o.2)

  -- Where `overlaps` says no, no key of the range has a value.
  pub value_at-overlaps :
      (m : List (Entry V)) (start stop k : ℕ)
      → Ordered 0 m
      → overlaps start stop m ≡ false
      → start ≤ k
      → k < stop
      → value_at k m ≡ none
  unfolding overlaps
  value_at-overlaps m start stop k h no_overlap lo hi =
      let b = overlap_begin-IsBegin m start h in
      let (l, r) = overlap_begin start m in
      let full : leb stop start ≡ false = ground arith in
      let empty : elim r as (λ x. Bool) [ [] ↦ false | e ∷ r ↦ ltb e.start stop ] ≡ false =
        rw full at no_overlap in
      value_at-cut m k b.point start l r b.cut b.ended lo
      ∙ overlaps_none start stop b.point r b.cut.ordered empty k hi

  past_end :
      (k c stop : ℕ) (e : Entry V) (r : List (Entry V))
      → stop ≤ e.start
      → Ordered e.start (e ∷ r)
      → in_gaps k (if ltb c stop then (c, stop) ∷ [] else [])
        ≡ (leb c k && ltb k stop && is_free (value_at k (e ∷ r)))
  past_end k c stop e r le o = elim (Bool-cases (ltb k stop)) [
    | inl lt ↦ rw (value_at-below k e.start (e ∷ r) (ground arith) o) (ground arith)
    | inr past ↦ ground arith
  ]

  -- The key against the entry: before it, in it, or behind it.
  no_gap_then :
      (k c stop : ℕ) (e : Entry V) (r : List (Entry V))
      → e.start ≤ c
      → e.start < e.stop
      → Ordered e.stop r
      → in_gaps k (gaps_from (if ltb c e.stop then e.stop else c) stop r)
        ≡ (leb (if ltb c e.stop then e.stop else c) k && ltb k stop && is_free (value_at k r))
      → in_gaps k (gaps_from (if ltb c e.stop then e.stop else c) stop r)
        ≡ (leb c k && ltb k stop && is_free (value_at k (e ∷ r)))
  no_gap_then k c stop e r le pos o rest = rest ∙ ground arith

  gap_then :
      (k c stop : ℕ) (e : Entry V) (r : List (Entry V))
      → c < e.start
      → e.start < stop
      → e.start < e.stop
      → Ordered e.stop r
      → in_gaps k (gaps_from e.stop stop r) ≡ (leb e.stop k && ltb k stop && is_free (value_at k r))
      → ((leb c k && ltb k e.start) || in_gaps k (gaps_from e.stop stop r))
        ≡ (leb c k && ltb k stop && is_free (value_at k (e ∷ r)))
  gap_then k c stop e r le lt pos o rest = rw rest (ground (arith, value_at-below k e.stop r))

  in_gaps-gaps_from :
      (k c stop p : ℕ) (r : List (Entry V))
      → Ordered p r
      → in_gaps k (gaps_from c stop r) ≡ (leb c k && ltb k stop && is_free (value_at k r))
  unfolding gaps_from
  in_gaps-gaps_from k c stop p [] o = ground arith
  in_gaps-gaps_from k c stop p (e ∷ r) o = elim (Bool-cases (ltb e.start stop)) [
    | inr end ↦ rw end (past_end k c stop e r (ground arith) (omega arith, o.1, o.2))
    | inl more ↦
        let rest = in_gaps-gaps_from k (if ltb c e.stop then e.stop else c) stop e.stop r o.2 in
        rw more (elim (Bool-cases (ltb c e.start)) [
          | inl gap ↦
              let jump : ltb c e.stop ≡ true = let pos = o.1 in ground arith in
              rw gap (
                rw jump (
                  gap_then k c stop e r (ground arith) (ground arith) o.1 o.2
                    (in_gaps-gaps_from k e.stop stop e.stop r o.2)))
          | inr no_gap ↦ rw no_gap (no_gap_then k c stop e r (ground arith) o.1 o.2 rest)
        ])
  ]

  -- In a map whose entries rise and do not meet, the gaps that `get_gaps` gives hold exactly the keys
  -- of the range that have no value.
  pub in_gaps-get_gaps :
      (m : List (Entry V)) (start stop k : ℕ)
      → Ordered 0 m
      → in_gaps k (get_gaps start stop m) ≡ (leb start k && ltb k stop && is_free (value_at k m))
  unfolding get_gaps
  in_gaps-get_gaps m start stop k h = elim (Bool-cases (leb stop start)) [
    | inl empty ↦ rw empty (ground arith)
    | inr full ↦
        let b = overlap_begin-IsBegin m start h in
        let (l, r) = overlap_begin start m in
        rw full (
          in_gaps-gaps_from k start stop b.point r b.cut.ordered
          ∙ ground (arith, value_at-cut m k b.point start l r b.cut b.ended))
  ]
