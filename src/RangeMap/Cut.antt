-- ===== src/RangeMap/Cut.antt =====
-- Where the iterators of core/mmap/range_map.h stand: what lies before them and what behind.
use native.Mathlib.Omega.{arith}
use lfi_runtime.Prelude.{ℕ, ◌≤◌, ◌<◌, ◌≡◌, refl, List, [], ◌∷◌, ltb, leb, Bool-cases, inl, inr}
use lfi_runtime.RangeMap.{Entry, Iter, rev_append, lower_bound, back_up, overlap_begin}
use lfi_runtime.RangeMap.View.{Ordered, Falling, Ordered-weaken, Falling-weaken}

module _ {V : Type 0} where
  -- The iterator cuts the list at `point`.
  pub record IsCut (m : List (Entry V)) (it : Iter V) (point : ℕ) : Type 0 where
    pub whole : rev_append it.0 it.1 ≡ m
    pub falling : Falling point it.0
    pub ordered : Ordered point it.1

  abbrev pub HeadStart : (ℕ → Type 0) → List (Entry V) → Type 0
  HeadStart P [] = Unit
  HeadStart P (e ∷ r) = P e.start

  abbrev pub HeadStop : (ℕ → Type 0) → List (Entry V) → Type 0
  HeadStop P [] = Unit
  HeadStop P (e ∷ r) = P e.stop

  -- `lower_bound` stands before the first entry that starts at the key or above.
  pub record IsLower (m : List (Entry V)) (k : ℕ) (it : Iter V) : Type 0 where
    pub point : ℕ
    pub cut : IsCut m it point
    pub left_below : HeadStart (λ s. s < k) it.0
    pub right_above : HeadStart (λ s. k ≤ s) it.1

  lower_bound-IsLower :
      (m : List (Entry V)) (k p : ℕ) (l r : List (Entry V))
      → IsCut m (l, r) p
      → HeadStart (λ s. s < k) l
      → IsLower m k (lower_bound k l r)
  unfolding lower_bound rev_append
  lower_bound-IsLower m k p l [] c h = record {
    point = p;
    cut = c;
    left_below = h;
    right_above = tt;
  }
  lower_bound-IsLower m k p l (e ∷ r) c h =
      let o = c.ordered in
      elim (Bool-cases (ltb e.start k)) [
        | inl below ↦ rw below (
            lower_bound-IsLower m k e.stop (e ∷ l) r
              (record {
                whole = c.whole;
                falling = (omega arith, o.1, Falling-weaken p e.start l o.0 c.falling);
                ordered = o.2;
              })
              (ground arith))
        | inr above ↦
            rw above (record { point = p; cut = c; left_below = h; right_above = ground arith })
      ]

  -- `overlap_begin` stands before the first entry that ends above `start`.
  pub record IsBegin (m : List (Entry V)) (start : ℕ) (it : Iter V) : Type 0 where
    pub point : ℕ
    pub cut : IsCut m it point
    pub ended : Falling start it.0
    pub open_head : HeadStop (λ s. start < s) it.1

  Falling-of_head :
      (a b : ℕ) (l : List (Entry V)) → HeadStop (λ s. s ≤ b) l → Falling a l → Falling b l
  Falling-of_head a b [] h f = tt
  Falling-of_head a b (e ∷ l) h f = (h, f.1, f.2)

  back_up-IsBegin :
      (m : List (Entry V)) (start : ℕ) (it : Iter V)
      → IsLower m start it
      → IsBegin m start (back_up start it)
  unfolding back_up rev_append
  back_up-IsBegin m start ([], r) h = record {
    point = h.point;
    cut = h.cut;
    ended = tt;
    open_head = heads r h.right_above h.cut.ordered;
  }
    where
      heads :
          (r : List (Entry V))
          → HeadStart (λ s. start ≤ s) r
          → Ordered h.point r
          → HeadStop (λ s. start < s) r
      heads [] a o = tt
      heads (e ∷ r) a o = omega arith
  back_up-IsBegin m start (e ∷ l, r) h = elim (Bool-cases (leb e.stop start)) [
    | inl ended ↦ rw ended (record {
      point = h.point;
      cut = h.cut;
      ended = (ground arith, h.cut.falling.1, h.cut.falling.2);
      open_head = heads r h.right_above h.cut.ordered;
    })
    | inr over ↦
        let f = h.cut.falling in
        let b = h.left_below in
        rw over (record {
          point = e.start;
          cut = record {
            whole = h.cut.whole;
            falling = f.2;
            ordered = (omega arith, f.1, Ordered-weaken e.stop h.point r f.0 h.cut.ordered);
          };
          ended = Falling-weaken e.start start l (omega arith) f.2;
          open_head = ground arith;
        })
  ]
    where
      heads :
          (r : List (Entry V))
          → HeadStart (λ s. start ≤ s) r
          → Ordered h.point r
          → HeadStop (λ s. start < s) r
      heads [] a o = tt
      heads (e ∷ r) a o = omega arith

  whole-IsCut : (m : List (Entry V)) → Ordered 0 m → IsCut m ([], m) 0
  unfolding rev_append
  whole-IsCut m h = record { whole = refl; falling = tt; ordered = h }

  pub overlap_begin-IsBegin :
      (m : List (Entry V)) (start : ℕ) → Ordered 0 m → IsBegin m start (overlap_begin start m)
  unfolding overlap_begin
  overlap_begin-IsBegin m start h =
      back_up-IsBegin m start (lower_bound start [] m)
        (lower_bound-IsLower m start 0 [] m (whole-IsCut m h) tt)
