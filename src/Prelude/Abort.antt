-- ===== src/Prelude/Abort.antt =====
-- A computation that a failed `assert` or `abort()` stops.
use mathlib.Core.Path.{◌≡◌, refl, ap, subst}
use mathlib.Core.Bool.{Bool, true, false}

pub data Run {ℓ} (A : Type ℓ) : Type ℓ where
  done : A → Run A
  aborted : Run A

value_or {ℓ} : {A : Type ℓ} → A → Run A → A
value_or d (done a) = a
value_or d aborted = d

pub done-injective {ℓ} : {A : Type ℓ} {a b : A} → done a ≡ done b → a ≡ b
unfolding value_or
done-injective {a} e = ap (value_or a) e

infixl 5 ◌>>=◌ ◌>>◌
abbrev pub ◌>>=◌ {ℓ κ} : {A : Type ℓ} {B : Type κ} → Run A → (A → Run B) → Run B
done a >>= f = f a
aborted >>= f = aborted

abbrev pub ◌>>◌ {ℓ} : {B : Type ℓ} → Run (Unit {0}) → Run B → Run B
m >> k = m >>= λ _. k

-- `assert(b)` of a build without NDEBUG
abbrev pub assert : Bool → Run (Unit {0})
assert true = done tt
assert false = aborted

-- The run ends without an abort, and its value meets the condition.
pub data Returns {ℓ κ} {A : Type ℓ} (P : A → Type κ) : Run A → Type (ℓ ⊔ κ) where
  returns : {a : A} → P a → Returns P (done a)

pub of_Returns {ℓ κ} :
    {A : Type ℓ} {P : A → Type κ} {r : Run A} {a : A} → Returns P r → r ≡ done a → P a
of_Returns {P} (returns {a = b} p) e = subst P (done-injective e) p

pub Returns-bind {ℓ κ μ ν} :
    {A : Type ℓ} {B : Type κ} {P : A → Type μ} {Q : B → Type ν} {r : Run A} {k : A → Run B}
    → Returns P r
    → ((a : A) → P a → Returns Q (k a))
    → Returns Q (r >>= k)
Returns-bind (returns {a} p) next = next a p

pub Returns-map {ℓ κ μ} :
    {A : Type ℓ} {P : A → Type κ} {Q : A → Type μ} {r : Run A}
    → Returns P r
    → ((a : A) → P a → Q a)
    → Returns Q r
Returns-map (returns {a} p) next = returns (next a p)

pub Returns-both {ℓ κ μ} :
    {A : Type ℓ} {P : A → Type κ} {Q : A → Type μ} {r : Run A}
    → Returns P r
    → Returns Q r
    → Returns (λ a. P a × Q a) r
Returns-both (returns {a} p) q = returns (p, of_Returns q refl)
