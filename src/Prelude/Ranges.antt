-- ===== src/Prelude/Ranges.antt =====
-- Half-open ranges of numbers, `(start, length)`: how many of a list hold a number, and that none
-- meet where no number is in two.
use Prim.Native.Nat.{ℕ, ◌+◌, ◌≤◌, ◌<◌}
use mathlib.Core.Path.{◌≡◌}
use mathlib.Core.Logic.{◌⊎◌, inl, inr}
use mathlib.Core.Bool.{◌&&◌}
use mathlib.Core.List.{List, [], ◌∷◌, ◌++◌}
use native.Mathlib.Decide.{dec_le}
use native.Mathlib.Omega.{arith}
use lfi_runtime.Prelude.Tests.{ltb, leb, if◌then◌else◌}
use lfi_runtime.Prelude.Lists.{All}

abbrev pub Range : Type 0
Range = ℕ × ℕ

abbrev pub covers : Range → ℕ → ℕ
covers (s, k) j = if leb s j && ltb j (s + k) then 1 else 0

-- in how many ranges a number is
abbrev pub covered : List Range → ℕ → ℕ
covered [] j = 0
covered (e ∷ es) j = covers e j + covered es j

pub covered-append :
    (xs ys : List Range) (j : ℕ) → covered (xs ++ ys) j ≡ covered xs j + covered ys j
covered-append [] ys j = omega arith
covered-append (x ∷ xs) ys j = omega (arith, covered-append xs ys j)

pub All-middle {ℓ} :
    {A : Type ℓ} (P : A → Type 0) (xs ys : List A) (x : A)
    → All P (xs ++ x ∷ ys)
    → P x × All P (xs ++ ys)
All-middle P [] ys x h = h
All-middle P (y ∷ xs) ys x h = let r = All-middle P xs ys x h.1 in (r.0, (h.0, r.1))

abbrev pub IsFull : Range → Type 0
IsFull (s, k) = 0 < k

abbrev pub Disjoint : Range → Range → Type 0
Disjoint (s, k) (s', k') = (s + k ≤ s') ⊎ (s' + k' ≤ s)

-- No two ranges of the list meet.
abbrev pub Apart : List Range → Type 0
Apart [] = Unit
Apart (e ∷ es) = All (Disjoint e) es × Apart es

Disjoint-of_covers :
    (s k s' k' : ℕ)
    → 0 < k
    → 0 < k'
    → covers (s, k) s' + covers (s', k') s' < 2
    → covers (s, k) s + covers (s', k') s < 2
    → Disjoint (s, k) (s', k')
Disjoint-of_covers s k s' k' pos pos' once once' = elim (dec_le (s + k) s') [
  | yes before ↦ inl before
  | no over ↦ inr (ground arith)
]

Disjoint-from :
    (s k : ℕ) (es : List Range)
    → 0 < k
    → All IsFull es
    → ((j : ℕ) → covers (s, k) j + covered es j < 2)
    → All (Disjoint (s, k)) es
Disjoint-from s k [] pos fit once = tt
Disjoint-from s k ((s', k') ∷ es) pos fit once = (
  Disjoint-of_covers s k s' k' pos fit.0 (omega (arith, once s')) (omega (arith, once s)),
  Disjoint-from s k es pos fit.1 (λ j. omega (arith, once j)),
)

-- If no number is in two ranges, the ranges lie apart.
pub Apart-of_covered : (es : List Range) → All IsFull es → ((j : ℕ) → covered es j < 2) → Apart es
Apart-of_covered [] fit once = tt
Apart-of_covered ((s, k) ∷ es) fit once =
    (Disjoint-from s k es fit.0 fit.1 once, Apart-of_covered es fit.1 (λ j. omega (arith, once j)))
