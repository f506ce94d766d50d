-- ===== src/RangeMap/Gaps.antt =====
-- The gaps that `get_gaps` of core/mmap/range_map.h gives rise, and no two touch: a run of free keys
-- lies in one of them.
use native.Mathlib.Omega.{arith}
use lfi_runtime.Prelude.{
  ℕ, ◌+◌, ◌-◌, ◌≤◌, ◌<◌, ◌≡◌, refl, true, false, List, [], ◌∷◌, if◌then◌else◌, ltb, leb, All,
  Bool-cases, inl, inr,
}
use lfi_runtime.RangeMap.{Entry, overlap_begin, gaps_from, get_gaps}
use lfi_runtime.RangeMap.View.{Ordered}
use lfi_runtime.RangeMap.Cut.{overlap_begin-IsBegin}
use lfi_runtime.RangeMap.Ranges.{in_gaps}

-- The gaps are not empty, rise from `lo` on, and do not touch.
abbrev pub Separate : ℕ → List (ℕ × ℕ) → Type 0
Separate lo [] = Unit
Separate lo ((l, h) ∷ gaps) = (lo ≤ l) × (l < h) × Separate (h + 1) gaps

Separate-weaken : (a b : ℕ) (gaps : List (ℕ × ℕ)) → a ≤ b → Separate b gaps → Separate a gaps
Separate-weaken a b [] le s = tt
Separate-weaken a b ((l, h) ∷ gaps) le s = (omega arith, s.1, s.2)

module _ {V : Type 0} where
  gaps_from-Separate :
      (c stop p : ℕ) (r : List (Entry V)) → Ordered p r → Separate c (gaps_from c stop r)
  unfolding gaps_from
  gaps_from-Separate c stop p [] o = elim (Bool-cases (ltb c stop)) [
    | inl some_keys ↦ rw some_keys (omega arith, ground arith, tt)
    | inr no_keys ↦ rw no_keys tt
  ]
  gaps_from-Separate c stop p (e ∷ r) o = elim (Bool-cases (ltb e.start stop)) [
    | inr end ↦ rw end (elim (Bool-cases (ltb c stop)) [
      | inl some_keys ↦ rw some_keys (omega arith, ground arith, tt)
      | inr no_keys ↦ rw no_keys tt
    ])
    | inl more ↦
        let c' = if ltb c e.stop then e.stop else c in
        let rest = gaps_from-Separate c' stop e.stop r o.2 in
        let above : (c ≤ c') × (e.stop ≤ c') = ground arith in
        rw more (elim (Bool-cases (ltb c e.start)) [
          | inl gap ↦ rw gap (
            omega arith,
            ground arith,
            Separate-weaken (e.start + 1) c' _ (let pos = o.1 in omega arith) rest,
          )
          | inr no_gap ↦ rw no_gap (Separate-weaken c c' _ above.0 rest)
        ])
  ]

  pub get_gaps-Separate :
      (m : List (Entry V)) (start stop : ℕ) → Ordered 0 m → Separate start (get_gaps start stop m)
  unfolding get_gaps
  get_gaps-Separate m start stop h = elim (Bool-cases (leb stop start)) [
    | inl empty ↦ rw empty tt
    | inr full ↦
        let b = overlap_begin-IsBegin m start h in
        rw full (gaps_from-Separate start stop b.point (overlap_begin start m).1 b.cut.ordered)
  ]

in_gaps-below :
    (k lo : ℕ) (gaps : List (ℕ × ℕ)) → k < lo → Separate lo gaps → in_gaps k gaps ≡ false
in_gaps-below k lo [] lt s = refl
in_gaps-below k lo ((l, h) ∷ gaps) lt s = ground (arith, in_gaps-below k (h + 1) gaps)

-- every gap is shorter than `n`
abbrev pub TooSmall : ℕ → List (ℕ × ℕ) → Type 0
TooSmall n = All λ g. g.1 - g.0 < n

-- `n` keys from `t` on lie in the gaps.
abbrev pub FreeRun : List (ℕ × ℕ) → ℕ → ℕ → Type 0
FreeRun gaps t n = (k : ℕ) → t ≤ k → k < t + n → in_gaps k gaps ≡ true

-- A run of free keys lies in one gap, so there is none where every gap is too short.
pub TooSmall-FreeRun :
    (gaps : List (ℕ × ℕ)) (lo t n : ℕ)
    → 0 < n
    → Separate lo gaps
    → TooSmall n gaps
    → FreeRun gaps t n
    → ⊥
TooSmall-FreeRun [] lo t n pos s small run =
    absurd (let e = run t (omega arith) (omega arith) in ground arith)
TooSmall-FreeRun ((l, h) ∷ gaps) lo t n pos s small run = elim (Bool-cases (leb (h + 1) t)) [
  | inl past ↦
      TooSmall-FreeRun gaps (h + 1) t n pos s.2 small.1
        (λ k lo hi. let e = run k lo hi in ground arith)
  | inr near ↦ elim (Bool-cases (leb l t)) [
    | inl inside ↦
        let e = run h (ground arith) (ground arith) in
        let out = in_gaps-below h (h + 1) gaps (omega arith) s.2 in absurd (ground arith)
    | inr before ↦
        let e = run t (omega arith) (omega arith) in
        let out = in_gaps-below t (h + 1) gaps (ground arith) s.2 in absurd (ground arith)
  ]
]
