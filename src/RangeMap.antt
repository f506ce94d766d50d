-- ===== src/RangeMap.antt =====
-- core/mmap/range_map.h: a map from half-open ranges to values, over `std::map`. The map is the list
-- of its entries by rising start; an iterator is the list cut in two, the entries before it in
-- reverse. The operations on iterators are those of `std::map`.
pub mod View
pub mod Cut
pub mod Carve
pub mod Change
pub mod Find
pub mod Ranges
pub mod Gaps
pub mod Tests
use lfi_runtime.Prelude.{
  ℕ, Bool, false, ◌&&◌, Option, none, some, List, [], ◌∷◌, if◌then◌else◌, ◌==◌, ltb, leb,
}

pub record Entry (V : Type 0) : Type 0 where
  pub start : ℕ
  pub stop : ℕ
  pub val : V

abbrev pub Iter : Type 0 → Type 0
Iter V = List (Entry V) × List (Entry V)

module _ {V : Type 0} where
  abbrev pub entry : ℕ → ℕ → V → Entry V
  entry s e v = record { start = s; stop = e; val = v }

  -- The entries before `left`'s, then those of `right`.
  pub rev_append : List (Entry V) → List (Entry V) → List (Entry V)
  rev_append [] r = r
  rev_append (e ∷ l) r = rev_append l (e ∷ r)

  pub lower_bound : ℕ → List (Entry V) → List (Entry V) → Iter V
  lower_bound k left [] = (left, [])
  lower_bound k left (e ∷ r) =
      let rest = lower_bound k (e ∷ left) r in if ltb e.start k then rest else (left, e ∷ r)

  pub upper_bound : ℕ → List (Entry V) → List (Entry V) → Iter V
  upper_bound k left [] = (left, [])
  upper_bound k left (e ∷ r) =
      let rest = upper_bound k (e ∷ left) r in if leb e.start k then rest else (left, e ∷ r)

  -- `std::map::insert`: an entry of that key stays.
  pub put : Entry V → List (Entry V) → List (Entry V)
  put x [] = x ∷ []
  put x (y ∷ r) =
      let rest = put x r in
      if ltb y.start x.start then y ∷ rest else if y.start == x.start then y ∷ r else x ∷ y ∷ r

  abbrev pub put_stub : Option (Entry V) → List (Entry V) → List (Entry V)
  put_stub none m = m
  put_stub (some x) m = put x m

  -- the entry before the iterator, if it holds the key
  pub before : ℕ → List (Entry V) → Option (Entry V)
  before key [] = none
  before key (e ∷ l) = if ltb key e.stop then some e else none

  unfoldable pub clear : List (Entry V) → List (Entry V)
  clear m = []

  unfoldable pub find : ℕ → List (Entry V) → Option (Entry V)
  unfolding before upper_bound
  find key m = before key (upper_bound key [] m).0

  -- `--it`, unless the entry before ends at or before `start`
  pub back_up : ℕ → Iter V → Iter V
  back_up start ([], r) = ([], r)
  back_up start (e ∷ l, r) = if leb e.stop start then (e ∷ l, r) else (l, e ∷ r)

  pub overlap_begin : ℕ → List (Entry V) → Iter V
  overlap_begin start m = back_up start (lower_bound start [] m)

  -- The `while` loop of `insert` and `remove`: the stubs, and what is left behind the erased ones.
  pub erase_loop :
      ℕ
      → ℕ
      → Option (Entry V)
      → Option (Entry V)
      → List (Entry V)
      → Option (Entry V) × Option (Entry V) × List (Entry V)
  erase_loop start stop left_stub right_stub [] = (left_stub, right_stub, [])
  erase_loop start stop left_stub right_stub (e ∷ r) =
      let rest =
        erase_loop start stop
          (if ltb e.start start then some (entry e.start start e.val) else left_stub)
          (if ltb stop e.stop then some (entry stop e.stop e.val) else right_stub) r in
      if ltb e.start stop then rest else (left_stub, right_stub, e ∷ r)

  -- the rest of the map with the stubs back in
  pub restore :
      List (Entry V) → Option (Entry V) × Option (Entry V) × List (Entry V) → List (Entry V)
  restore left (left_stub, right_stub, right) =
      put_stub right_stub (put_stub left_stub (rev_append left right))

  -- the part that `insert` and `remove` share
  pub carve : ℕ → ℕ → List (Entry V) → List (Entry V)
  carve start stop m =
      let it = overlap_begin start m in restore it.0 (erase_loop start stop none none it.1)

  unfoldable pub remove : ℕ → ℕ → List (Entry V) → List (Entry V)
  unfolding carve restore erase_loop overlap_begin back_up put rev_append lower_bound
  remove start stop m = if leb stop start then m else carve start stop m

  unfoldable pub overlaps : ℕ → ℕ → List (Entry V) → Bool
  unfolding overlap_begin back_up lower_bound
  overlaps start stop m =
      if leb stop start
      then false
      else elim (overlap_begin start m).1 [ [] ↦ false | e ∷ r ↦ ltb e.start stop ]

  pub take_below : ℕ → List (Entry V) → List (Entry V)
  take_below stop [] = []
  take_below stop (e ∷ r) =
      let rest = take_below stop r in if ltb e.start stop then e ∷ rest else []

  unfoldable pub get_overlapping : ℕ → ℕ → List (Entry V) → List (Entry V)
  unfolding take_below overlap_begin back_up lower_bound
  get_overlapping start stop m =
      if leb stop start then [] else take_below stop (overlap_begin start m).1

  -- The loop of `get_gaps`, with the step behind it.
  pub gaps_from : ℕ → ℕ → List (Entry V) → List (ℕ × ℕ)
  gaps_from cursor stop [] = if ltb cursor stop then (cursor, stop) ∷ [] else []
  gaps_from cursor stop (e ∷ r) =
      let rest = gaps_from (if ltb cursor e.stop then e.stop else cursor) stop r in
      if ltb e.start stop
      then (if ltb cursor e.start then (cursor, e.start) ∷ rest else rest)
      else if ltb cursor stop
      then (cursor, stop) ∷ []
      else []

  unfoldable pub get_gaps : ℕ → ℕ → List (Entry V) → List (ℕ × ℕ)
  unfolding gaps_from overlap_begin back_up lower_bound
  get_gaps start stop m =
      if leb stop start then [] else gaps_from start stop (overlap_begin start m).1

  -- `eq` is the `==` of the values.
  module _ (eq : V → V → Bool) where
    pub merge_right : Entry V → List (Entry V) → List (Entry V)
    merge_right it [] = it ∷ []
    merge_right it (n ∷ r) =
        if it.stop == n.start && eq it.val n.val
        then entry it.start n.stop it.val ∷ r
        else it ∷ n ∷ r

    -- the merge with the entry before, for the iterator's own entry and what follows it
    pub merge_left : List (Entry V) → List (Entry V) → List (Entry V)
    merge_left left [] = rev_append left []
    merge_left [] (it ∷ r) = it ∷ r
    merge_left (p ∷ l) (it ∷ r) =
        if p.stop == it.start && eq p.val it.val
        then rev_append l (entry p.start it.stop p.val ∷ r)
        else rev_append (p ∷ l) (it ∷ r)

    pub coalesce : Iter V → List (Entry V)
    coalesce (left, []) = rev_append left []
    coalesce (left, it ∷ r) = merge_left left (merge_right it r)

    unfoldable pub insert : ℕ → ℕ → V → List (Entry V) → List (Entry V)
    unfolding coalesce merge_left merge_right remove carve put lower_bound rev_append
    insert start stop val m =
        if leb stop start
        then m
        else coalesce (lower_bound start [] (put (entry start stop val) (carve start stop m)))
