-- ===== src/Prelude/Bytes.antt =====
-- The bits of a byte: what `|=` and `&=` with a one-bit mask do to each of them. The native
-- operations have no laws at variables, so the laws are checked at every byte and every bit.
use Prim.Native.Nat.{ℕ, zero, suc, ◌-◌, ◌/◌, ◌^◌, ◌<◌, bit_and, bit_or}
use mathlib.Core.Path.{◌≡◌, refl}
use mathlib.Core.Bool.{Bool, true, false, ◌&&◌}
use native.Mathlib.Omega.{arith}
use native.Mathlib.Nat.{zero-div}
use lfi_runtime.Prelude.Tests.{◌==◌, if◌then◌else◌, ltb, ==_iff}

-- `(b >> k) & 1`
abbrev pub bit_at : ℕ → ℕ → ℕ
bit_at b k = bit_and (b / 2 ^ k) 1

-- `b | (1 << k)` and `b & ~(1 << k)` on a byte
abbrev pub set_bit : ℕ → ℕ → ℕ
set_bit b k = bit_or b (2 ^ k)

abbrev pub clear_bit : ℕ → ℕ → ℕ
clear_bit b k = bit_and b (255 - 2 ^ k)

-- The test passes at every number below the bound.
passes_below : (ℕ → Bool) → ℕ → Bool
passes_below test zero = true
passes_below test (suc bound) = if test bound then passes_below test bound else false

passes_at :
    (test : ℕ → Bool) {bound at : ℕ} → at < bound → passes_below test bound ≡ true → test at ≡ true
unfolding passes_below
passes_at test {bound = zero} lt e = absurd (omega arith)
passes_at test {bound = suc bound} {at} lt e =
    ground (arith, passes_at test {bound = bound} {at = at})

set_ok : ℕ → ℕ → ℕ → Bool
set_ok b k j = bit_at (set_bit b k) j == (if k == j then 1 else bit_at b j)

clear_ok : ℕ → ℕ → ℕ → Bool
clear_ok b k j = bit_at (clear_bit b k) j == (if k == j then 0 else bit_at b j)

range_ok : ℕ → ℕ → Bool
range_ok b k = ltb (bit_at b k) 2 && ltb (set_bit b k) 256 && ltb (clear_bit b k) 256

set_table : passes_below (λ b. passes_below (λ k. passes_below (set_ok b k) 8) 8) 256 ≡ true
unfolding passes_below set_ok
set_table = refl

clear_table : passes_below (λ b. passes_below (λ k. passes_below (clear_ok b k) 8) 8) 256 ≡ true
unfolding passes_below clear_ok
clear_table = refl

range_table : passes_below (λ b. passes_below (range_ok b) 8) 256 ≡ true
unfolding passes_below range_ok
range_table = refl

module _ (b k j : ℕ) (hb : b < 256) (hk : k < 8) (hj : j < 8) where
  pub bit_at-set_bit : bit_at (set_bit b k) j ≡ (if k == j then 1 else bit_at b j)
  unfolding set_ok
  bit_at-set_bit = (==_iff _ _).0 (passes_at _ hj (passes_at _ hk (passes_at _ hb set_table)))

  pub bit_at-clear_bit : bit_at (clear_bit b k) j ≡ (if k == j then 0 else bit_at b j)
  unfolding clear_ok
  bit_at-clear_bit = (==_iff _ _).0 (passes_at _ hj (passes_at _ hk (passes_at _ hb clear_table)))

module _ (b k : ℕ) (hb : b < 256) (hk : k < 8) where
  in_range : range_ok b k ≡ true
  in_range = passes_at _ hk (passes_at _ hb range_table)

  pub bit_at-lt : bit_at b k < 2
  unfolding range_ok
  bit_at-lt = ground (arith, in_range)

  pub set_bit-lt : set_bit b k < 256
  unfolding range_ok
  set_bit-lt = ground (arith, in_range)

  pub clear_bit-lt : clear_bit b k < 256
  unfolding range_ok
  clear_bit-lt = ground (arith, in_range)

-- A byte 0 has no bit.
pub zero_bit : (k : ℕ) → bit_at 0 k ≡ 0
zero_bit k = rw zero_div_pow
  where
    zero_div_pow : 0 / 2 ^ k ≡ 0
    zero_div_pow = zero-div (2 ^ k)
