-- ===== src/RangeMap/Change.antt =====
-- `insert` and `find` of core/mmap/range_map.h.
use native.Mathlib.Omega.{arith}
use lfi_runtime.Prelude.{
  ℕ, ◌<◌, ◌≡◌, refl, ap, ◌∙◌, Bool, true, false, ◌&&◌, some, List, [], ◌∷◌, if◌then◌else◌, ◌==◌,
  ltb, leb, Bool-cases, inl, inr,
}
use lfi_runtime.RangeMap.{
  Entry, entry, rev_append, put, lower_bound, carve, merge_right, merge_left, coalesce, insert,
}
use lfi_runtime.RangeMap.View.{
  value_at, Ordered, Falling, value_at-below, value_at-above, value_at-rev_append,
  rev_append-Ordered, Falling-StartBelow, put-rev_append, put_lem, lower_bound-rev_append,
}
use lfi_runtime.RangeMap.Carve.{Carved, carve-Carved}

module _ {V : Type 0} (eq : V → V → Bool) (sound : (a b : V) → eq a b ≡ true → a ≡ b) where
  -- What stands behind the cut after a merge with the next entry.
  record Merged (x : Entry V) (r : List (Entry V)) (m : List (Entry V)) : Type 0 where
    head : Entry V
    tail : List (Entry V)
    shape : m ≡ head ∷ tail
    same_start : head.start ≡ x.start
    same_val : head.val ≡ x.val
    ordered : Ordered x.start (head ∷ tail)
    same : (k : ℕ) → value_at k (head ∷ tail) ≡ value_at k (x ∷ r)

  merge_right-Merged :
      (x : Entry V) (r : List (Entry V))
      → x.start < x.stop
      → Ordered x.stop r
      → Merged x r (merge_right eq x r)
  unfolding merge_right
  merge_right-Merged x [] pos o = record {
    head = x;
    tail = [];
    shape = refl;
    same_start = refl;
    same_val = refl;
    ordered = (omega arith, pos, tt);
    same = λ k. refl;
  }
  merge_right-Merged x (n ∷ r) pos o = elim (Bool-cases (x.stop == n.start && eq x.val n.val)) [
    | inl merge ↦
        let at : x.stop ≡ n.start = ground arith in
        let v : x.val ≡ n.val = sound x.val n.val (ground arith) in
        rw merge (record {
          head = entry x.start n.stop x.val;
          tail = r;
          shape = refl;
          same_start = refl;
          same_val = refl;
          ordered = (omega arith, omega arith, o.2);
          same = λ k. ground arith;
        })
    | inr apart ↦ rw apart (record {
      head = x;
      tail = n ∷ r;
      shape = refl;
      same_start = refl;
      same_val = refl;
      ordered = (omega arith, pos, o);
      same = λ k. refl;
    })
  ]

  -- The merge with the entry before changes no key's value.
  merge_left-value_at :
      (l : List (Entry V)) (x : Entry V) (r : List (Entry V)) (k : ℕ)
      → Falling x.start l
      → Ordered x.start (x ∷ r)
      → Ordered 0 (merge_left eq l (x ∷ r))
        × (value_at k (merge_left eq l (x ∷ r))
            ≡ (if ltb k x.start then value_at k l else value_at k (x ∷ r)))
  unfolding merge_left
  merge_left-value_at [] x r k f o =
      ((omega arith, o.1, o.2), ground (arith, value_at-below k x.start (x ∷ r)))
  merge_left-value_at (p ∷ l) x r k f o = elim (Bool-cases (p.stop == x.start && eq p.val x.val)) [
    | inl merge ↦
        let at : p.stop ≡ x.start = ground arith in
        let v : p.val ≡ x.val = sound p.val x.val (ground arith) in
        let o' : Ordered p.start (entry p.start x.stop p.val ∷ r) =
          (omega arith, let pos = f.1 in let pos' = o.1 in omega arith, o.2) in
        rw merge (
          rev_append-Ordered p.start l (entry p.start x.stop p.val ∷ r) f.2 o',
          value_at-rev_append k p.start l (entry p.start x.stop p.val ∷ r) f.2 o'
              ∙ ground (arith, f, value_at-above k p.start l, value_at-below k x.stop r, o),
        )
    | inr apart ↦ rw apart (
      rev_append-Ordered x.start (p ∷ l) (x ∷ r) f o,
      value_at-rev_append k x.start (p ∷ l) (x ∷ r) f o,
    )
  ]

  coalesce-value_at :
      (l : List (Entry V)) (x : Entry V) (r : List (Entry V)) (k : ℕ)
      → Falling x.start l
      → x.start < x.stop
      → Ordered x.stop r
      → Ordered 0 (coalesce eq (l, x ∷ r))
        × (value_at k (coalesce eq (l, x ∷ r))
            ≡ (if ltb k x.start then value_at k l else value_at k (x ∷ r)))
  unfolding coalesce
  coalesce-value_at l x r k f pos o =
      let g = merge_right-Merged x r pos o in
      let h = g.head in
      let at = g.same_start in
      let f' : Falling h.start l = rw at f in
      let whole = g.ordered in
      let o' : Ordered h.start (h ∷ g.tail) = (omega arith, whole.1, whole.2) in
      let ml = merge_left-value_at l h g.tail k f' o' in
      rw g.shape (ml.0, ml.1 ∙ ground (arith, at, g.same k))

  -- `insert` puts the entry into the hole of the carved map.
  insert_at :
      (m m' : List (Entry V)) (start stop k : ℕ) (v : V)
      → start < stop
      → Carved m start stop m'
      → Ordered 0 (coalesce eq (lower_bound start [] (put (entry start stop v) m')))
        × (value_at k (coalesce eq (lower_bound start [] (put (entry start stop v) m')))
            ≡ (if leb start k && ltb k stop then some v else value_at k m))
  unfolding lower_bound
  insert_at m m' start stop k v pos c =
      let x = entry start stop v in
      let below = Falling-StartBelow start c.left c.falling in
      let placed : put x m' ≡ rev_append c.left (x ∷ c.right) =
        ap (put x) c.whole
        ∙ put-rev_append x c.left c.right below
        ∙ ap (rev_append c.left) (put_lem x c.right pos c.ordered) in
      let here : ltb start start ≡ false = ground arith in
      let found : lower_bound start [] (rev_append c.left (x ∷ c.right)) ≡ (c.left, x ∷ c.right) =
        lower_bound-rev_append start c.left (x ∷ c.right) below ∙ rw here refl in
      let r = coalesce-value_at c.left x c.right k c.falling pos c.ordered in
      rw (placed, found) (r.0, r.1 ∙ ground (arith, c.below k, c.above k))

  -- In a map whose entries rise and do not meet, and where the test on values tells equal ones,
  -- `insert` gives the keys in the range the value and leaves every other key as it is, whatever it
  -- overlaps or merges with, and the entries of the result rise and do not meet.
  pub value_at-insert :
      (m : List (Entry V)) (start stop k : ℕ) (v : V)
      → Ordered 0 m
      → Ordered 0 (insert eq start stop v m)
        × (value_at k (insert eq start stop v m)
            ≡ (if leb start k && ltb k stop then some v else value_at k m))
  unfolding insert
  value_at-insert m start stop k v h = elim (Bool-cases (leb stop start)) [
    | inl empty ↦ rw empty (h, ground arith)
    | inr full ↦
        let pos : start < stop = ground arith in
        rw full
          (insert_at m (carve start stop m) start stop k v pos (carve-Carved m start stop pos h))
  ]
