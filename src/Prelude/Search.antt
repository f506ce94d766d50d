-- ===== src/Prelude/Search.antt =====
-- `for (i = 0; i < N; i++) if (test(array[i])) return i;` over the elements of an array.
use Prim.Native.Nat.{ℕ, zero, suc, ◌<◌}
use mathlib.Core.Path.{◌≡◌}
use mathlib.Core.Bool.{Bool, true, false}
use mathlib.Core.List.{List, [], ◌∷◌}
use mathlib.Core.Option.{Option, none, some}
use native.Mathlib.Omega.{arith}
use mathlib.Core.Logic.{inl, inr}
use lfi_runtime.Prelude.Tests.{Bool-cases}
use lfi_runtime.Prelude.Lists.{length, get_or}

-- the index that the search gives, from the one of the rest
abbrev pub shift : Option ℕ → Option ℕ
shift none = none
shift (some i) = some (suc i)

module _ {ℓ} {A : Type ℓ} where
  unfoldable pub find_index : (A → Bool) → List A → Option ℕ
  find_index test [] = none
  find_index test (x ∷ xs) =
      let rest = find_index test xs in elim (test x) [ true ↦ some 0 | false ↦ shift rest ]

  -- The first index whose element passes, or no element passes. `d` is read nowhere inside.
  abbrev pub IsFirst : (A → Bool) → List A → A → Option ℕ → Type 0
  IsFirst test xs d none = (i : ℕ) → i < length xs → test (get_or xs i d) ≡ false
  IsFirst test xs d (some i) =
      (i < length xs)
      × (test (get_or xs i d) ≡ true)
      × ((j : ℕ) → j < i → test (get_or xs j d) ≡ false)

  IsFirst-later :
      (test : A → Bool) (x : A) (xs : List A) (d : A) (r : Option ℕ)
      → test x ≡ false
      → IsFirst test xs d r
      → IsFirst test (x ∷ xs) d (shift r)
  IsFirst-later test x xs d none no_match h = all
    where
      all : (i : ℕ) → i < length (x ∷ xs) → test (get_or (x ∷ xs) i d) ≡ false
      all zero lt = no_match
      all (suc i) lt = h i (omega arith)
  IsFirst-later test x xs d (some i) no_match h = (omega (arith, h.0), h.1, before)
    where
      before : (j : ℕ) → j < suc i → test (get_or (x ∷ xs) j d) ≡ false
      before zero lt = no_match
      before (suc j) lt = h.2 j (omega arith)

  pub find_index-IsFirst :
      (test : A → Bool) (xs : List A) (d : A) → IsFirst test xs d (find_index test xs)
  unfolding find_index
  find_index-IsFirst test [] d = λ i lt. absurd (omega arith)
  find_index-IsFirst test (x ∷ xs) d = elim (Bool-cases (test x)) [
    | inl hit ↦ rw (hit, IsFirst) (omega arith, hit, λ j lt. absurd (omega arith))
    | inr miss ↦
        rw (miss, IsFirst)
          (IsFirst-later test x xs d (find_index test xs) miss (find_index-IsFirst test xs d))
  ]
