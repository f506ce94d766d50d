-- ===== src/ExtAlloc/Bits.antt =====
-- What `bitvec_set` does to each bit (core/extalloc.c).
use native.Mathlib.Omega.{arith}
use lfi_runtime.Prelude.{
  ℕ, zero, suc, ◌+◌, ◌-◌, ◌*◌, ◌/◌, ◌%◌, ◌≤◌, ◌<◌, ◌≡◌, refl, ◌∙◌, inl, inr, Bool, true, false,
  ◌&&◌, List, [], ◌∷◌, if◌then◌else◌, ◌==◌, ltb, leb, length, get_or, set, replicate, All,
  Bool-cases, length-set, get_or-set_self, get_or-set_ne, word, add64, ==_iff,
}
use lfi_runtime.Prelude.Bytes.{
  bit_at, set_bit, clear_bit, bit_at-set_bit, bit_at-clear_bit, set_bit-lt, clear_bit-lt,
}
use lfi_runtime.ExtAlloc.{bit, write_bit, bitvec_set_from, bitvec_set}

abbrev pub AreBytes : List ℕ → Type 0
AreBytes v = All (λ b. b < 256) v

pub get_or-AreBytes : (v : List ℕ) (i : ℕ) → AreBytes v → get_or v i 0 < 256
get_or-AreBytes [] i h = omega arith
get_or-AreBytes (x ∷ v) zero h = h.0
get_or-AreBytes (x ∷ v) (suc i) h = get_or-AreBytes v i h.1

set-AreBytes : (v : List ℕ) (i x : ℕ) → x < 256 → AreBytes v → AreBytes (set v i x)
set-AreBytes [] i x lt h = h
set-AreBytes (y ∷ v) zero x lt h = (lt, h.1)
set-AreBytes (y ∷ v) (suc i) x lt h = (h.0, set-AreBytes v i x lt h.1)

pub replicate-AreBytes : (n : ℕ) → AreBytes (replicate n 0)
replicate-AreBytes zero = tt
replicate-AreBytes (suc n) = (omega arith, replicate-AreBytes n)

abbrev new_byte : ℕ → ℕ → Bool → ℕ
new_byte b at val = if val then set_bit b (7 - at % 8) else clear_bit b (7 - at % 8)

new_byte-lt : (b at : ℕ) (val : Bool) → b < 256 → new_byte b at val < 256
new_byte-lt b at true h = set_bit-lt b (7 - at % 8) h (omega arith)
new_byte-lt b at false h = clear_bit-lt b (7 - at % 8) h (omega arith)

bit_at-new_byte :
    (b at j : ℕ) (val : Bool)
    → b < 256
    → at / 8 ≡ j / 8
    → bit_at (new_byte b at val) (7 - j % 8)
      ≡ (if at == j then (if val then 1 else 0) else bit_at b (7 - j % 8))
bit_at-new_byte b at j true h e =
    bit_at-set_bit b (7 - at % 8) (7 - j % 8) h (omega arith) (omega arith) ∙ ground arith
bit_at-new_byte b at j false h e =
    bit_at-clear_bit b (7 - at % 8) (7 - j % 8) h (omega arith) (omega arith) ∙ ground arith

-- One round of the loop changes one bit.
bit-write_bit :
    (v : List ℕ) (at j : ℕ) (val : Bool)
    → AreBytes v
    → at / 8 < length v
    → bit (write_bit v at val) j ≡ (if at == j then (if val then 1 else 0) else bit v j)
unfolding bit write_bit
bit-write_bit v at j val h lt = elim (Bool-cases (at / 8 == j / 8)) [
  | inl e ↦
      let same : at / 8 ≡ j / 8 = (==_iff _ _).0 e in
      rw (← same) (
        rw (get_or-set_self v (at / 8) (new_byte (get_or v (at / 8) 0) at val) 0 lt)
          (bit_at-new_byte (get_or v (at / 8) 0) at j val (get_or-AreBytes v (at / 8) h) same))
  | inr e ↦
      rw (get_or-set_ne v (at / 8) (j / 8) (new_byte (get_or v (at / 8) 0) at val) 0 (ground arith))
        (ground arith)
]

write_bit-AreBytes : (v : List ℕ) (at : ℕ) (val : Bool) → AreBytes v → AreBytes (write_bit v at val)
unfolding write_bit
write_bit-AreBytes v at val h =
    set-AreBytes v (at / 8) _ (new_byte-lt _ at val (get_or-AreBytes v (at / 8) h)) h

length-write_bit : (v : List ℕ) (at : ℕ) (val : Bool) → length (write_bit v at val) ≡ length v
unfolding write_bit
length-write_bit v at val = length-set v _ _

pub length-bitvec_set_from :
    (v : List ℕ) (s k i : ℕ) (val : Bool) → length (bitvec_set_from v s k i val) ≡ length v
unfolding bitvec_set_from
length-bitvec_set_from v s zero i val = refl
length-bitvec_set_from v s (suc k) i val =
    length-bitvec_set_from (write_bit v (add64 s i) val) s k (i + 1) val
    ∙ length-write_bit v (add64 s i) val

bitvec_set_from-AreBytes :
    (v : List ℕ) (s k i : ℕ) (val : Bool) → AreBytes v → AreBytes (bitvec_set_from v s k i val)
unfolding bitvec_set_from
bitvec_set_from-AreBytes v s zero i val h = h
bitvec_set_from-AreBytes v s (suc k) i val h =
    bitvec_set_from-AreBytes (write_bit v (add64 s i) val) s k (i + 1) val
      (write_bit-AreBytes v (add64 s i) val h)

bit-bitvec_set_from :
    (v : List ℕ) (s k i : ℕ) (val : Bool) (j : ℕ)
    → AreBytes v
    → s + i + k ≤ 8 * length v
    → s + i + k ≤ word
    → bit (bitvec_set_from v s k i val) j
      ≡ (if leb (s + i) j && ltb j (s + i + k) then (if val then 1 else 0) else bit v j)
unfolding bitvec_set_from
bit-bitvec_set_from v s zero i val j h room small = ground arith
bit-bitvec_set_from v s (suc k) i val j h room small = ground (
  arith,
  bit-bitvec_set_from (write_bit v (add64 s i) val) s k (i + 1) val j
      (write_bit-AreBytes v (add64 s i) val h) (omega (arith, length-write_bit v (add64 s i) val))
      (omega arith),
  bit-write_bit v (add64 s i) j val h (omega arith),
)

pub length-bitvec_set :
    (v : List ℕ) (s n : ℕ) (val : Bool) → length (bitvec_set v s n val) ≡ length v
unfolding bitvec_set
length-bitvec_set v s n val = ground (arith, length-bitvec_set_from v s n 0 val)

pub bitvec_set-AreBytes :
    (v : List ℕ) (s n : ℕ) (val : Bool) → AreBytes v → AreBytes (bitvec_set v s n val)
unfolding bitvec_set
bitvec_set-AreBytes v s n val h = elim (Bool-cases (n == 0)) [
  | inl e ↦ rw e h
  | inr e ↦ rw e (bitvec_set_from-AreBytes v s n 0 val h)
]

-- In a vector of bytes that holds the range, `bitvec_set` gives the bits of the range the value, and
-- leaves every other bit alone.
pub bit-bitvec_set :
    (v : List ℕ) (s n : ℕ) (val : Bool) (j : ℕ)
    → AreBytes v
    → s + n ≤ 8 * length v
    → s + n ≤ word
    → bit (bitvec_set v s n val) j
      ≡ (if leb s j && ltb j (s + n) then (if val then 1 else 0) else bit v j)
unfolding bitvec_set
bit-bitvec_set v s n val j h room small =
    ground (arith, bit-bitvec_set_from v s n 0 val j h (omega arith) (omega arith))
