-- ===== src/RangeMap/Carve.antt =====
-- `remove` of core/mmap/range_map.h, and the part of `insert` that does the same: the map is cut at
-- the two ends of the range, and the entries between go away.
use native.Mathlib.Omega.{arith}
use lfi_runtime.Prelude.{
  ℕ, ◌≤◌, ◌<◌, ◌≡◌, refl, sym, ap, ◌∙◌, true, false, ◌&&◌, Option, none, some, List, [], ◌∷◌,
  if◌then◌else◌, ltb, leb, Bool-cases, inl, inr,
}
use lfi_runtime.RangeMap.{
  Entry, entry, rev_append, put, overlap_begin, erase_loop, restore, carve, remove,
}
use lfi_runtime.RangeMap.View.{
  value_at, Ordered, Falling, Ordered-weaken, Falling-weaken, value_at-below, value_at-above,
  value_at-rev_append, rev_append-Ordered, Falling-StartBelow, put-rev_append, put_lem,
}
use lfi_runtime.RangeMap.Cut.{IsCut, HeadStop, overlap_begin-IsBegin}

module _ {V : Type 0} where
  abbrev pub with_stub : Option (Entry V) → List (Entry V) → List (Entry V)
  with_stub none m = m
  with_stub (some x) m = x ∷ m

  -- The loop stops at an entry at or above the end of the range.
  erase_done :
      (start stop q : ℕ) (ls rs : Option (Entry V)) (r : List (Entry V))
      → stop ≤ q
      → Ordered q r
      → erase_loop start stop ls rs r ≡ (ls, rs, r)
  unfolding erase_loop
  erase_done start stop q ls rs [] le h = refl
  erase_done start stop q ls rs (e ∷ r) le h = ground arith

  -- Only an entry that begins before the range leaves a left stub.
  erase_keeps :
      (start stop q : ℕ) (ls rs : Option (Entry V)) (r : List (Entry V))
      → start ≤ q
      → Ordered q r
      → (erase_loop start stop ls rs r).0 ≡ ls
  unfolding erase_loop
  erase_keeps start stop q ls rs [] le h = refl
  erase_keeps start stop q ls rs (e ∷ r) le h =
      let late : ltb e.start start ≡ false = ground arith in
      elim (Bool-cases (ltb e.start stop)) [
        | inl more ↦ rw (more, late) (erase_keeps start stop e.stop ls _ r (omega arith) h.2)
        | inr end ↦ rw end refl
      ]

  -- What is left behind the range: the map above its end.
  abbrev Above : ℕ → List (Entry V) → Option (Entry V) × Option (Entry V) × List (Entry V) → Type 0
  Above stop r t =
      Ordered stop (with_stub t.1 t.2)
      × ((k : ℕ) → stop ≤ k → value_at k (with_stub t.1 t.2) ≡ value_at k r)

  erase_loop-Above :
      (start stop p : ℕ) (ls : Option (Entry V)) (r : List (Entry V))
      → Ordered p r
      → Above stop r (erase_loop start stop ls none r)
  unfolding erase_loop
  erase_loop-Above start stop p ls [] h = (tt, λ k le. refl)
  erase_loop-Above start stop p ls (e ∷ r) h = elim (Bool-cases (ltb e.start stop)) [
    | inr end ↦ rw end ((ground arith, h.1, h.2), λ k le. refl)
    | inl more ↦ rw more (elim (Bool-cases (ltb stop e.stop)) [
      | inl over ↦
          let above : stop < e.stop = ground arith in
          rw
            (
              over,
              erase_done start stop e.stop _ (some (entry stop e.stop e.val)) r (omega arith) h.2,
            )
            ((omega arith, above, h.2), λ k le. ground arith)
      | inr inside ↦
          let rest =
            erase_loop-Above start stop e.stop
              (if ltb e.start start then some (entry e.start start e.val) else ls) r h.2 in
          rw inside (rest.0, λ k le. ground (arith, rest.1 k le))
    ])
  ]

  -- What is left before the range: the map below its start.
  left_part :
      (m : List (Entry V)) (start stop p : ℕ) (l r : List (Entry V))
      → start < stop
      → IsCut m (l, r) p
      → Falling start l
      → HeadStop (λ s. start < s) r
      → let ls = (erase_loop start stop none none r).0 in
        Falling start (with_stub ls l)
        × ((k : ℕ) → k < start → value_at k (with_stub ls l) ≡ value_at k m)
  unfolding erase_loop
  left_part m start stop p l [] pos c f h = (
    f,
    λ k lt. rw (sym c.whole) (
        ground (arith, value_at-rev_append k p l [] c.falling tt, value_at-above k p l, c.falling)),
  )
  left_part m start stop p l (e ∷ r) pos c f h = elim (Bool-cases (ltb e.start start)) [
    | inl early ↦
        let more : ltb e.start stop ≡ true = ground arith in
        let o = c.ordered in
        rw (more, early, erase_keeps start stop e.stop _ _ r (omega arith) o.2)
          (
            (omega arith, ground arith, Falling-weaken p e.start l o.0 c.falling),
            λ k lt. rw (sym c.whole) (
                ground (
                  arith,
                  value_at-rev_append k p l (e ∷ r) c.falling o,
                  value_at-above k p l,
                  value_at-below k e.stop r,
                  c.falling,
                )),
          )
    | inr late ↦
        let o = c.ordered in
        let none_left : (erase_loop start stop none none (e ∷ r)).0 ≡ none =
          erase_keeps start stop e.start none none (e ∷ r) (ground arith) (omega arith, o.1, o.2) in
        rw none_left (
          f,
          λ k lt. rw (sym c.whole) (
              ground (
                arith,
                value_at-rev_append k p l (e ∷ r) c.falling o,
                value_at-above k p l,
                value_at-below k e.start (e ∷ r),
                c.falling,
              )),
        )
  ]

  -- The stubs go back where they were cut off.
  restore_lem :
      (start stop : ℕ) (l r : List (Entry V)) (ls rs : Option (Entry V))
      → start < stop
      → Falling start (with_stub ls l)
      → Ordered stop (with_stub rs r)
      → restore l (ls, rs, r) ≡ rev_append (with_stub ls l) (with_stub rs r)
  unfolding restore rev_append
  restore_lem start stop l r none none pos f o = refl
  restore_lem start stop l r none (some y) pos f o =
      put-rev_append y l r
        (Falling-StartBelow y.start l (Falling-weaken start y.start l (omega arith) f))
      ∙ ap (rev_append l) (put_lem y r o.1 o.2)
  restore_lem start stop l r (some x) none pos f o =
      put-rev_append x l r (Falling-StartBelow x.start l f.2)
      ∙ ap (rev_append l) (put_lem x r f.1 (Ordered-weaken x.stop stop r (omega arith) o))
  restore_lem start stop l r (some x) (some y) pos f o =
      ap (put y) (
        put-rev_append x l r (Falling-StartBelow x.start l f.2)
        ∙ ap (rev_append l) (put_lem x r f.1 (Ordered-weaken x.stop y.stop r (omega arith) o.2)))
      ∙ put-rev_append y (x ∷ l) r (
          Falling-StartBelow y.start (x ∷ l) (Falling-weaken start y.start (x ∷ l) (omega arith) f))
      ∙ ap (rev_append (x ∷ l)) (put_lem y r o.1 o.2)

  -- The map with the range cut out, as an iterator that stands in the hole.
  pub record Carved (m : List (Entry V)) (start stop : ℕ) (m' : List (Entry V)) : Type 0 where
    pub left : List (Entry V)
    pub right : List (Entry V)
    pub whole : m' ≡ rev_append left right
    pub falling : Falling start left
    pub ordered : Ordered stop right
    pub below : (k : ℕ) → k < start → value_at k left ≡ value_at k m
    pub above : (k : ℕ) → stop ≤ k → value_at k right ≡ value_at k m

  -- Above the cut, and above the entries before it, the map is the part behind the cut.
  pub value_at-cut :
      (m : List (Entry V)) (k p start : ℕ) (l r : List (Entry V))
      → IsCut m (l, r) p
      → Falling start l
      → start ≤ k
      → value_at k m ≡ value_at k r
  value_at-cut m k p start l r c f le = rw (sym c.whole) (
      ground (
        arith,
        value_at-rev_append k p l r c.falling c.ordered,
        value_at-above k start l,
        value_at-below k p r,
        c.ordered,
        f,
      ))

  pub carve-Carved :
      (m : List (Entry V)) (start stop : ℕ)
      → start < stop
      → Ordered 0 m
      → Carved m start stop (carve start stop m)
  unfolding carve
  carve-Carved m start stop pos h =
      let b = overlap_begin-IsBegin m start h in
      let (l, r) = overlap_begin start m in
      let t = erase_loop start stop none none r in
      let lp = left_part m start stop b.point l r pos b.cut b.ended b.open_head in
      let rp = erase_loop-Above start stop b.point none r b.cut.ordered in
      record {
        left = with_stub t.0 l;
        right = with_stub t.1 t.2;
        whole = restore_lem start stop l t.2 t.0 t.1 pos lp.0 rp.0;
        falling = lp.0;
        ordered = rp.0;
        below = lp.1;
        above = λ k le.
            rp.1 k le ∙ sym (value_at-cut m k b.point start l r b.cut b.ended (omega arith));
      }

  Carved-Ordered :
      {m m' : List (Entry V)} {start stop : ℕ}
      → start < stop
      → Carved m start stop m'
      → Ordered 0 m'
  Carved-Ordered {start} {stop} pos c = rw c.whole (
      rev_append-Ordered start c.left c.right c.falling
        (Ordered-weaken start stop c.right (omega arith) c.ordered))

  -- In a carved map the keys of the range have no value, and every other key has its own.
  Carved-value_at :
      {m m' : List (Entry V)} {start stop : ℕ} (k : ℕ)
      → start < stop
      → Carved m start stop m'
      → value_at k m' ≡ (if leb start k && ltb k stop then none else value_at k m)
  Carved-value_at {start} {stop} k pos c = rw c.whole (
      ground (
        arith,
        value_at-rev_append k start c.left c.right c.falling
            (Ordered-weaken start stop c.right (omega arith) c.ordered),
        value_at-below k stop c.right,
        c.ordered,
        c.below k,
        c.above k,
      ))

  -- In a map whose entries rise and do not meet, `remove` takes away the values of the keys in the
  -- range and of no other key, and the entries of the result rise and do not meet.
  pub value_at-remove :
      (m : List (Entry V)) (start stop k : ℕ)
      → Ordered 0 m
      → Ordered 0 (remove start stop m)
        × (value_at k (remove start stop m)
            ≡ (if leb start k && ltb k stop then none else value_at k m))
  unfolding remove
  value_at-remove m start stop k h = elim (Bool-cases (leb stop start)) [
    | inl empty ↦ rw empty (h, ground arith)
    | inr full ↦
        let pos : start < stop = ground arith in
        let c = carve-Carved m start stop pos h in
        rw full (Carved-Ordered pos c, Carved-value_at k pos c)
  ]
