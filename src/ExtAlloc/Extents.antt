-- ===== src/ExtAlloc/Extents.antt =====
-- The allocator of core/extalloc.c as its client sees it: a set of extents that the client holds.
-- A client calls `extalloc_alloc` and gives back what it got by `extalloc_free`, in any order.
use native.Mathlib.Omega.{arith}
use native.Mathlib.Nat.{eq_of_mul-eq-mul_right}
use lfi_runtime.Prelude.{
  ℕ, ◌+◌, ◌-◌, ◌*◌, ◌/◌, ◌%◌, ◌≤◌, ◌<◌, ◌≡◌, refl, ap, List, ◌∷◌, ◌++◌, All, done, of_Returns, word,
}
use lfi_runtime.Prelude.Ranges.{Range, covered, covered-append, All-middle}
use lfi_runtime.Prelude.Bytes.{bit_at-lt}
use lfi_runtime.ExtAlloc.{ExtAlloc, bit, extalloc_alloc, extalloc_free}
use lfi_runtime.ExtAlloc.Bits.{get_or-AreBytes}
use lfi_runtime.ExtAlloc.Alloc.{
  IsValid, Outcome, full, placed, extalloc_alloc-Allocated, Freed, extalloc_free-Freed,
}

-- An extent: its first chunk, counted from the allocator's base, and its number of chunks.
abbrev pub Extent : Type 0
Extent = Range

pub record Ledger : Type 0 where
  pub alloc : ExtAlloc
  pub live : List Extent

abbrev pub address : ExtAlloc → ℕ → ℕ
address a s = (a.base + s) * a.chunksize

abbrev pub bytes_of : ExtAlloc → ℕ → ℕ
bytes_of a k = k * a.chunksize

-- One call of the client. `take` and `refuse` are the two ends of `extalloc_alloc`.
pub data Step : Ledger → Ledger → Type 0 where
  take :
      {l : Ledger} {a' : ExtAlloc} (s k : ℕ)
      → 0 < k
      → bytes_of l.alloc k + l.alloc.chunksize < word
      → extalloc_alloc l.alloc (bytes_of l.alloc k) ≡ done (address l.alloc s, a')
      → Step l (record { alloc = a'; live = (s, k) ∷ l.live })
  refuse :
      {l : Ledger} {a' : ExtAlloc} (k : ℕ)
      → 0 < k
      → bytes_of l.alloc k + l.alloc.chunksize < word
      → extalloc_alloc l.alloc (bytes_of l.alloc k) ≡ done (0, a')
      → Step l (record { alloc = a'; live = l.live })
  give_back :
      {l : Ledger} {a' : ExtAlloc} (xs ys : List Extent) (s k : ℕ)
      → l.live ≡ xs ++ (s, k) ∷ ys
      → extalloc_free l.alloc (address l.alloc s) (bytes_of l.alloc k) ≡ done a'
      → Step l (record { alloc = a'; live = xs ++ ys })

pub data Reach (l : Ledger) : Ledger → Type 0 where
  here : Reach l l
  next : {m n : Ledger} → Reach l m → Step m n → Reach l n

abbrev pub Fits : ExtAlloc → Extent → Type 0
Fits a (s, k) = (0 < k) × (s + k ≤ a.size) × (bytes_of a k + a.chunksize < word)

-- The bit of a chunk says whether the client holds it, and the extents lie inside the range.
pub record Tracks (l : Ledger) : Type 0 where
  pub valid : IsValid l.alloc
  pub exact : (j : ℕ) → bit l.alloc.bitvec j ≡ covered l.live j
  pub inside : All (Fits l.alloc) l.live

pub bit-lt : (a : ExtAlloc) (j : ℕ) → IsValid a → bit a.bitvec j < 2
unfolding bit
bit-lt a j v = bit_at-lt _ (7 - j % 8) (get_or-AreBytes a.bitvec (j / 8) v.bytes) (omega arith)

-- A successful call adds its extent.
take-Tracks :
    {a a' : ExtAlloc} {live : List Extent} {p : ℕ} (s k : ℕ)
    → Tracks (record { alloc = a; live = live })
    → 0 < k
    → bytes_of a k + a.chunksize < word
    → IsValid a'
    → Outcome a k (p, a')
    → p ≡ address a s
    → Tracks (record { alloc = a'; live = (s, k) ∷ live })
take-Tracks {a} s k t pos small v (full none_free) e =
    let v' = t.valid in absurd (let e' : 0 ≡ (a.base + s) * a.chunksize = e in grind arith)
take-Tracks {a} {live} s k t pos small v (placed s' w room clear lowest bits) e =
    let same : a.base + s' ≡ a.base + s =
      eq_of_mul-eq-mul_right a.chunksize t.valid.chunk (a.base + s') (a.base + s) e in
    let same' : s' ≡ s = omega arith in
    record {
      valid = v;
      exact = λ j. ground (arith, bits j, t.exact j, clear j);
      inside = ((pos, omega arith, small), t.inside);
    }

-- A refused call changes nothing.
refuse-Tracks :
    {a a' : ExtAlloc} {live : List Extent} {p : ℕ} (k : ℕ)
    → Tracks (record { alloc = a; live = live })
    → 0 < k
    → Outcome a k (p, a')
    → p ≡ 0
    → Tracks (record { alloc = a'; live = live })
refuse-Tracks k t pos (full none_free) e = t
refuse-Tracks {a} k t pos (placed s w room clear lowest bits) e =
    let v' = t.valid in absurd (let e' : (a.base + s) * a.chunksize ≡ 0 = e in grind arith)

-- Giving an extent back removes it, and touches no other.
give_back-Tracks :
    {a a' : ExtAlloc} {live : List Extent} (xs ys : List Extent) (s k : ℕ)
    → Tracks (record { alloc = a; live = live })
    → live ≡ xs ++ (s, k) ∷ ys
    → Freed a s k a'
    → Tracks (record { alloc = a'; live = xs ++ ys })
give_back-Tracks {a} {live} xs ys s k t e f = rw f.same (record {
  valid = f.valid;
  exact = λ j. ground (
    arith,
    f.cleared j,
    t.exact j,
    bit-lt a j t.valid,
    ap (λ l. covered l j) e,
    covered-append xs ((s, k) ∷ ys) j,
    covered-append xs ys j,
  );
  inside = (All-middle (Fits a) xs ys (s, k) (rw e at t.inside)).1;
})

Fits-of_live :
    {a : ExtAlloc} {live : List Extent} (xs ys : List Extent) (s k : ℕ)
    → Tracks (record { alloc = a; live = live })
    → live ≡ xs ++ (s, k) ∷ ys
    → Fits a (s, k)
Fits-of_live {a} xs ys s k t e = (All-middle (Fits a) xs ys (s, k) (rw e at t.inside)).0

pub Step-Tracks : {l m : Ledger} → Tracks l → Step l m → Tracks m
Step-Tracks {l} t (take s k pos small e) =
    let r = of_Returns (extalloc_alloc-Allocated t.valid k pos small) e in
    take-Tracks s k t pos small r.0 r.1 refl
Step-Tracks {l} t (refuse k pos small e) =
    let r = of_Returns (extalloc_alloc-Allocated t.valid k pos small) e in
    refuse-Tracks k t pos r.1 refl
Step-Tracks {l} t (give_back xs ys s k at e) =
    let (pos, room, small) = Fits-of_live xs ys s k t at in
    give_back-Tracks xs ys s k t at (of_Returns (extalloc_free-Freed t.valid s k room small) e)

-- The invariant holds after any calls.
pub Reach-Tracks : {l m : Ledger} → Tracks l → Reach l m → Tracks m
Reach-Tracks t here = t
Reach-Tracks t (next r st) = Step-Tracks (Reach-Tracks t r) st
