-- ===== src/ExtAlloc/Find.antt =====
-- `bitvec_find_zeroes` against a description of the answer (core/extalloc.c): the first run of
-- `n` clear bits.
use native.Mathlib.Omega.{arith}
use native.Mathlib.Decide.{dec_le, ℕ_discrete}
use lfi_runtime.Prelude.{
  ℕ, zero, suc, ◌+◌, ◌≤◌, ◌<◌, ◌≡◌, refl, ◌≢◌, ◌⊎◌, inl, inr, ◌||◌, Option, none, some, List, ◌==◌,
  Bool-cases, word, add64, sub64, ==_iff,
}
use lfi_runtime.ExtAlloc.{bit, find_zeroes_from, bitvec_find_zeroes}

-- the `n` bits from `s` on are clear
abbrev pub ZeroRun : List ℕ → ℕ → ℕ → Type 0
ZeroRun v s n = (j : ℕ) → s ≤ j → j < s + n → bit v j ≡ 0

abbrev pub NoRun : List ℕ → ℕ → ℕ → Type 0
NoRun v n t = ZeroRun v t n → ⊥

-- The answer is the lowest run that fits below `nbits`; `none` says that there is no such run.
abbrev pub IsFirstRun : List ℕ → ℕ → ℕ → Option ℕ → Type 0
IsFirstRun v nbits n none = (t : ℕ) → t + n ≤ nbits → NoRun v n t
IsFirstRun v nbits n (some s) = (s + n ≤ nbits) × ZeroRun v s n × ((t : ℕ) → t < s → NoRun v n t)

-- Before round `i` with `count` clear bits behind it: the run began at `p`.
record Scan (v : List ℕ) (n i count : ℕ) : Type 0 where
  p : ℕ
  begin : p + count ≡ i
  short : count < n
  clear : ZeroRun v p count
  edge : (p ≡ 0) ⊎ ((q : ℕ) × (suc q ≡ p) × (bit v q ≢ 0))
  before : (t : ℕ) → t + n ≤ i → NoRun v n t

module _ (v : List ℕ) (n : ℕ) where
  -- A run that begins below `p` and reaches `p` holds the set bit before `p`.
  no_run_across :
      (p t : ℕ)
      → (p ≡ 0) ⊎ ((q : ℕ) × (suc q ≡ p) × (bit v q ≢ 0))
      → t < p
      → p ≤ t + n
      → NoRun v n t
  no_run_across p t (inl e) lt le run = absurd (omega arith)
  no_run_across p t (inr (q, e, ne)) lt le run = ne (run q (omega arith) (omega arith))

  extend_clear :
      (p i count : ℕ) → p + count ≡ i → ZeroRun v p count → bit v i ≡ 0 → ZeroRun v p (count + 1)
  extend_clear p i count e clear z j lo hi = elim (ℕ_discrete j i) [
    | yes same ↦ rw same z
    | no other ↦ clear j lo (omega arith)
  ]

  -- the state after a clear bit that does not complete a run
  scan-clear :
      (i count : ℕ) → Scan v n i count → bit v i ≡ 0 → count + 1 ≢ n → Scan v n (i + 1) (count + 1)
  scan-clear i count s z ne = record {
    p = s.p;
    begin = omega arith;
    short = omega arith;
    clear = extend_clear s.p i count s.begin s.clear z;
    edge = s.edge;
    before = λ t le. elim (dec_le (t + n) i) [
      | yes old ↦ s.before t old
      | no new ↦ no_run_across s.p t s.edge (omega arith) (omega arith)
    ];
  }

  -- the state after a set bit
  scan-set : (i count : ℕ) → Scan v n i count → bit v i ≢ 0 → 0 < n → Scan v n (i + 1) 0
  scan-set i count s ne pos = record {
    p = i + 1;
    begin = omega arith;
    short = pos;
    clear = λ j lo hi. absurd (omega arith);
    edge = inr (i, omega arith, ne);
    before = λ t le run. elim (dec_le (t + n) i) [
      | yes old ↦ s.before t old run
      | no new ↦ ne (run i (omega arith) (omega arith))
    ];
  }

  -- The round that completes a run returns its first bit.
  first_run :
      (i count nbits : ℕ)
      → Scan v n i count
      → i < nbits
      → nbits < word
      → bit v i ≡ 0
      → count + 1 ≡ n
      → IsFirstRun v nbits n (some (add64 (sub64 i n) 1))
  first_run i count nbits s lt small z full =
      let first : add64 (sub64 i n) 1 ≡ s.p = omega arith in
      rw first (
        omega arith,
        λ j lo hi. extend_clear s.p i count s.begin s.clear z j lo (omega arith),
        λ t lt' run. elim (dec_le (t + n) i) [
          | yes old ↦ s.before t old run
          | no new ↦ no_run_across s.p t s.edge lt' (omega arith) run
        ],
      )

  find_zeroes_from-IsFirstRun :
      (k i count nbits : ℕ)
      → Scan v n i count
      → i + k ≡ nbits
      → nbits < word
      → IsFirstRun v nbits n (find_zeroes_from v n k i count)
  unfolding find_zeroes_from
  find_zeroes_from-IsFirstRun zero i count nbits s e small = λ t le. s.before t (omega arith)
  find_zeroes_from-IsFirstRun (suc k) i count nbits s e small = elim (Bool-cases (bit v i == 0)) [
    | inl z ↦
        let clear : bit v i ≡ 0 = (==_iff _ _).0 z in
        rw (z, IsFirstRun)
          (elim (Bool-cases (count + 1 == n)) [
            | inl full ↦
                rw (full, IsFirstRun)
                  (first_run i count nbits s (omega arith) small clear (ground arith))
            | inr more ↦
                rw (more, IsFirstRun)
                  (find_zeroes_from-IsFirstRun k (i + 1) (count + 1) nbits
                    (scan-clear i count s clear (ground arith)) (omega arith) small)
          ])
    | inr ne ↦
        rw (ne, IsFirstRun)
          (find_zeroes_from-IsFirstRun k (i + 1) 0 nbits
            (scan-set i count s (ground arith) (omega (arith, s.short))) (omega arith) small)
  ]

start : (v : List ℕ) (n : ℕ) → 0 < n → Scan v n 0 0
start v n pos = record {
  p = 0;
  begin = omega arith;
  short = pos;
  clear = λ j lo hi. absurd (omega arith);
  edge = inl refl;
  before = λ t le. absurd (omega arith);
}

-- For `n` other than 0 and a vector of fewer than 2^64 bits, `bitvec_find_zeroes` gives the start of
-- the first run of `n` clear bits, or says that there is none where there is none.
pub bitvec_find_zeroes-IsFirstRun :
    (v : List ℕ) (nbits n : ℕ)
    → 0 < n
    → nbits < word
    → IsFirstRun v nbits n (bitvec_find_zeroes v nbits n)
unfolding bitvec_find_zeroes
bitvec_find_zeroes-IsFirstRun v nbits n pos small = elim (Bool-cases (n == 0 || nbits == 0)) [
  | inl empty ↦
      rw (empty, IsFirstRun)
        (λ t le. absurd (let none_fit : nbits ≡ 0 = ground arith in omega arith))
  | inr some_bits ↦
      rw (some_bits, IsFirstRun)
        (find_zeroes_from-IsFirstRun v n nbits 0 0 nbits (start v n pos) (omega arith) small)
]
