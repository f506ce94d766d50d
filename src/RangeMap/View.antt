-- ===== src/RangeMap/View.antt =====
-- What a map of core/mmap/range_map.h says of a key, and how the list of entries looks from an
-- iterator inside it.
use native.Mathlib.Omega.{arith}
use lfi_runtime.Prelude.{
  ℕ, ◌≤◌, ◌<◌, ◌≡◌, refl, ◌∙◌, true, ◌&&◌, Option, none, some, List, [], ◌∷◌, if◌then◌else◌, ltb,
  leb, All,
}
use lfi_runtime.RangeMap.{Entry, rev_append, put, lower_bound}

module _ {V : Type 0} where
  -- the value of a key
  abbrev pub value_at : ℕ → List (Entry V) → Option V
  value_at k [] = none
  value_at k (e ∷ r) =
      let rest = value_at k r in if leb e.start k && ltb k e.stop then some e.val else rest

  -- The entries are not empty, rise from `lo` on, and do not meet.
  abbrev pub Ordered : ℕ → List (Entry V) → Type 0
  Ordered lo [] = Unit
  Ordered lo (e ∷ r) = (lo ≤ e.start) × (e.start < e.stop) × Ordered e.stop r

  -- The same for a list in reverse, up to `hi`.
  abbrev pub Falling : ℕ → List (Entry V) → Type 0
  Falling hi [] = Unit
  Falling hi (e ∷ l) = (e.stop ≤ hi) × (e.start < e.stop) × Falling e.start l

  pub Ordered-weaken : (a b : ℕ) (m : List (Entry V)) → a ≤ b → Ordered b m → Ordered a m
  Ordered-weaken a b [] le h = tt
  Ordered-weaken a b (e ∷ r) le h = (omega arith, h.1, h.2)

  pub Falling-weaken : (a b : ℕ) (m : List (Entry V)) → a ≤ b → Falling a m → Falling b m
  Falling-weaken a b [] le h = tt
  Falling-weaken a b (e ∷ r) le h = (omega arith, h.1, h.2)

  -- A key below the entries, or above them, has no value.
  pub value_at-below : (k lo : ℕ) (m : List (Entry V)) → k < lo → Ordered lo m → value_at k m ≡ none
  value_at-below k lo [] lt h = refl
  value_at-below k lo (e ∷ r) lt h = ground (arith, value_at-below k e.stop r)

  pub value_at-above : (k hi : ℕ) (m : List (Entry V)) → hi ≤ k → Falling hi m → value_at k m ≡ none
  value_at-above k hi [] le h = refl
  value_at-above k hi (e ∷ r) le h = ground (arith, value_at-above k e.start r)

  pub rev_append-Ordered :
      (p : ℕ) (l r : List (Entry V)) → Falling p l → Ordered p r → Ordered 0 (rev_append l r)
  unfolding rev_append
  rev_append-Ordered p [] r hl hr = Ordered-weaken 0 p r (omega arith) hr
  rev_append-Ordered p (e ∷ l) r hl hr =
      rev_append-Ordered e.start l (e ∷ r) hl.2
        (omega arith, hl.1, Ordered-weaken e.stop p r hl.0 hr)

  -- A key below the cut is looked up before it, any other behind it.
  pub value_at-rev_append :
      (k p : ℕ) (l r : List (Entry V))
      → Falling p l
      → Ordered p r
      → value_at k (rev_append l r) ≡ (if ltb k p then value_at k l else value_at k r)
  unfolding rev_append
  value_at-rev_append k p [] r hl hr = ground (arith, value_at-below k p r)
  value_at-rev_append k p (e ∷ l) r hl hr =
      let hr' : Ordered e.start (e ∷ r) = (omega arith, hl.1, Ordered-weaken e.stop p r hl.0 hr) in
      ground (
        arith,
        value_at-rev_append k e.start l (e ∷ r) hl.2 hr',
        value_at-above k e.start l,
        value_at-below k p r,
      )

  abbrev pub StartBelow : ℕ → List (Entry V) → Type 0
  StartBelow k l = All (λ e. e.start < k) l

  pub Falling-StartBelow : (k : ℕ) (l : List (Entry V)) → Falling k l → StartBelow k l
  Falling-StartBelow k [] h = tt
  Falling-StartBelow k (e ∷ l) h =
      (omega arith, Falling-StartBelow k l (Falling-weaken e.start k l (omega arith) h.2))

  pub put-rev_append :
      (x : Entry V) (l r : List (Entry V))
      → StartBelow x.start l
      → put x (rev_append l r) ≡ rev_append l (put x r)
  unfolding rev_append put
  put-rev_append x [] r h = refl
  put-rev_append x (e ∷ l) r h =
      let below : ltb e.start x.start ≡ true = let lt = h.0 in ground arith in
      put-rev_append x l (e ∷ r) h.1 ∙ rw below refl

  pub put_lem :
      (x : Entry V) (r : List (Entry V)) → x.start < x.stop → Ordered x.stop r → put x r ≡ x ∷ r
  unfolding put
  put_lem x [] pos h = refl
  put_lem x (e ∷ r) pos h = ground arith

  pub lower_bound-rev_append :
      (k : ℕ) (l r : List (Entry V))
      → StartBelow k l
      → lower_bound k [] (rev_append l r) ≡ lower_bound k l r
  unfolding rev_append lower_bound
  lower_bound-rev_append k [] r h = refl
  lower_bound-rev_append k (e ∷ l) r h =
      let below : ltb e.start k ≡ true = let lt = h.0 in ground arith in
      lower_bound-rev_append k l (e ∷ r) h.1 ∙ rw below refl
