-- ===== src/AddrSpace/Search.antt =====
-- `find_free` of core/mmap/mmap.cpp finds a run of free pages, with and without randomization.
use native.Mathlib.Omega.{arith}
use native.Mathlib.Nat.{mod-lt}
use lfi_runtime.Prelude.{
  ℕ, ◌+◌, ◌-◌, ◌<◌, ◌≡◌, refl, Bool, true, false, not, Option, none, some, List, [], ◌∷◌,
  if◌then◌else◌, ◌==◌, ltb, leb, Bool-cases, inl, inr,
}
use lfi_runtime.RangeMap
use lfi_runtime.RangeMap.Gaps.{FreeRun, TooSmall}
use lfi_runtime.AddrSpace.{
  AddrSpace, first_gap, positions, nth_position, next_rand, rand_below, find_free,
}

-- A search in the gaps finds a run of `pages` keys, or every gap is too short.
pub data Found (gaps : List (ℕ × ℕ)) (pages : ℕ) : Option ℕ → Type 0 where
  too_small : TooSmall pages gaps → Found gaps pages none
  found_at : (at : ℕ) → FreeRun gaps at pages → Found gaps pages (some at)

-- A run of the gaps behind is a run.
FreeRun-later :
    (l h at n : ℕ) (gaps : List (ℕ × ℕ)) → FreeRun gaps at n → FreeRun ((l, h) ∷ gaps) at n
FreeRun-later l h at n gaps run k lo hi = let e = run k lo hi in ground arith

first_gap-Found : (pages : ℕ) (gaps : List (ℕ × ℕ)) → Found gaps pages (first_gap pages gaps)
unfolding first_gap
first_gap-Found pages [] = too_small tt
first_gap-Found pages ((l, h) ∷ gaps) = elim (Bool-cases (leb pages (h - l))) [
  | inl fits ↦ rw fits (found_at l (λ k lo hi. ground arith))
  | inr small ↦ rw small (later (first_gap pages gaps) (ground arith) (first_gap-Found pages gaps))
]
  where
    later : (o : Option ℕ) → h - l < pages → Found gaps pages o → Found ((l, h) ∷ gaps) pages o
    later none lt (too_small s) = too_small (lt, s)
    later (some at) lt (found_at at' run) = found_at at (FreeRun-later l h at pages gaps run)

positions-zero : (pages : ℕ) (gaps : List (ℕ × ℕ)) → positions pages gaps ≡ 0 → TooSmall pages gaps
unfolding positions
positions-zero pages [] e = tt
positions-zero pages ((l, h) ∷ gaps) e = (ground arith, positions-zero pages gaps (ground arith))

-- Every position below the number of positions is a run.
nth_position-Found :
    (pages idx : ℕ) (gaps : List (ℕ × ℕ))
    → idx < positions pages gaps
    → (at : ℕ) × (nth_position pages idx gaps ≡ some at) × FreeRun gaps at pages
unfolding positions nth_position
nth_position-Found pages idx [] lt = absurd (omega arith)
nth_position-Found pages idx ((l, h) ∷ gaps) lt = elim (Bool-cases (ltb (h - l) pages)) [
  | inl small ↦
      let no_fit : leb pages (h - l) ≡ false = ground arith in
      let (at, e, run) = nth_position-Found pages idx gaps (ground arith) in
      (at, rw small e, FreeRun-later l h at pages gaps run)
  | inr fits ↦ elim (Bool-cases (ltb idx (h - l - pages + 1))) [
    | inl here ↦ (l + idx, rw (fits, here) refl, λ k lo hi. ground arith)
    | inr later ↦
        let (at, e, run) =
          nth_position-Found pages (idx - (h - l - pages + 1)) gaps (ground arith) in
        (at, rw (fits, later) e, FreeRun-later l h at pages gaps run)
  ]
]

-- The space with another state of the random numbers.
abbrev pub reseeded : AddrSpace → ℕ → AddrSpace
reseeded s z = record s { rand_state = z }

pub record FindsFree (s : AddrSpace) (pages : ℕ) (r : Option ℕ × AddrSpace) : Type 0 where
  pub state : ℕ
  pub same : r.1 ≡ reseeded s state
  pub answer : Found (RangeMap.get_gaps s.base (s.base + s.len) s.regions) pages r.0

rand_below-lt : (s : AddrSpace) (n : ℕ) → 0 < n → (rand_below s n).0 < n
unfolding rand_below
rand_below-lt s n pos = mod-lt (next_rand s).0 pos

rand_below-reseeded : (s : AddrSpace) (n : ℕ) → (z : ℕ) × ((rand_below s n).1 ≡ reseeded s z)
unfolding rand_below next_rand
rand_below-reseeded s n = (_, refl)

-- `find_free` finds a run of free pages where one gap is large enough, whether it takes the first or
-- a random one, and changes only the state of the random numbers.
pub find_free-FindsFree : (s : AddrSpace) (pages : ℕ) → FindsFree s pages (find_free s pages)
unfolding find_free
find_free-FindsFree s pages = go s.aslr
  where
    gaps : List (ℕ × ℕ)
    gaps = RangeMap.get_gaps s.base (s.base + s.len) s.regions

    go :
        (b : Bool)
        → FindsFree s pages (
            if not b
            then (first_gap pages gaps, s)
            else (let total = positions pages gaps in
                if total == 0
                then (none, s)
                else (let (idx, s') = rand_below s total in (nth_position pages idx gaps, s'))))
    go false = record { state = s.rand_state; same = refl; answer = first_gap-Found pages gaps }
    go true = elim (Bool-cases (positions pages gaps == 0)) [
      | inl full ↦ rw full (record {
        state = s.rand_state;
        same = refl;
        answer = too_small (positions-zero pages gaps (ground arith));
      })
      | inr room ↦
          let lt = rand_below-lt s (positions pages gaps) (ground arith) in
          let re = rand_below-reseeded s (positions pages gaps) in
          let (at, e, run) =
            nth_position-Found pages (rand_below s (positions pages gaps)).0 gaps lt in
          rw room (record { state = re.0; same = re.1; answer = rw e (found_at at run) })
    ]
