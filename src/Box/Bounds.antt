-- ===== src/Box/Bounds.antt =====
-- How the host stays inside a sandbox when it reads and writes it for the embedder: the pointer
-- checks of core/box.c, `lfi_box_copyfm`, `lfi_box_copyto` and `lfi_box_strnlen`.
use native.Mathlib.Omega.{arith}
use lfi_runtime.Prelude.{
  ℕ, ◌+◌, ◌≤◌, ◌<◌, ◌≡◌, refl, ◌↔◌, inl, inr, true, Option, none, some, ◌∷◌, if◌then◌else◌, ◌==◌,
  Bool-cases, Run, done, aborted, ◌>>=◌, word,
}
use lfi_runtime.Host.{Call, copy_out, copy_in, strnlen, Trace, Oracle}
use lfi_runtime.Box.{Box}
use lfi_runtime.Box.Maps.{lfi_box_ptrvalid, lfi_box_bufvalid}
use lfi_runtime.Box.Access.{
  l2p, lfi_box_copyfm, lfi_box_copyto, lfi_box_strnlen, strnlen_limit, size_max,
}

-- The bytes `[addr, addr + size)` lie between the bounds of the sandbox.
abbrev pub InBox : Box → ℕ → ℕ → Type 0
InBox box addr size = (box.min ≤ addr) × (addr + size ≤ box.max)

-- `lfi_box_bufvalid` accepts exactly the ranges inside the bounds, whatever the size: the sum
-- `addr + size` cannot wrap past its check.
pub lfi_box_bufvalid-InBox :
    (box : Box) (addr size : ℕ)
    → box.max < word
    → (lfi_box_bufvalid box addr size ≡ true) ↔ InBox box addr size
unfolding lfi_box_bufvalid
lfi_box_bufvalid-InBox box addr size small = ground arith

-- A copy: one call on the bytes asked for, which are inside the bounds, or an abort where they are
-- not.
pub data Copies (box : Box) (addr size : ℕ) (c : Call) (t : Trace) : Run Trace → Type 0 where
  copied : InBox box addr size → Copies box addr size c t (done (c ∷ t))
  stopped : (InBox box addr size → ⊥) → Copies box addr size c t aborted

-- `lfi_box_copyfm` reads the bytes asked for if they lie inside the bounds, and aborts if not.
pub lfi_box_copyfm-Copies :
    (box : Box) (src size : ℕ) (t : Trace)
    → box.max < word
    → Copies box src size (copy_out src size) t (lfi_box_copyfm box src size t)
unfolding lfi_box_copyfm l2p
lfi_box_copyfm-Copies box src size t small =
    let iff = lfi_box_bufvalid-InBox box src size small in
    elim (Bool-cases (lfi_box_bufvalid box src size)) [
      | inl ok ↦ rw ok (copied (iff.0 ok))
      | inr bad ↦ rw bad (stopped (λ h. let ok = iff.1 h in absurd (ground arith)))
    ]

-- `lfi_box_copyto` writes the bytes asked for if they lie inside the bounds, and aborts if not.
pub lfi_box_copyto-Copies :
    (box : Box) (dst size : ℕ) (t : Trace)
    → box.max < word
    → Copies box dst size
        (copy_in dst size)
        t
        (lfi_box_copyto box dst size t >>= λ (p, t'). done t')
unfolding lfi_box_copyto l2p
lfi_box_copyto-Copies box dst size t small =
    let iff = lfi_box_bufvalid-InBox box dst size small in
    elim (Bool-cases (lfi_box_bufvalid box dst size)) [
      | inl ok ↦ rw ok (copied (iff.0 ok))
      | inr bad ↦ rw bad (stopped (λ h. let ok = iff.1 h in absurd (ground arith)))
    ]

-- `strnlen` of the C library answers at most its limit.
abbrev pub IsStrnlen : Oracle → Type 0
IsStrnlen o = (t : Trace) (a limit n : ℕ) → o t (strnlen a limit) ≡ some n → n ≤ limit

-- The ends of `lfi_box_strnlen`. The second argument of the call is how far the host may read.
pub data Measured (box : Box) (addr max : ℕ) (t : Trace) : ℕ × Trace → Type 0 where
  outside : (box.min ≤ addr → addr < box.max → ⊥) → Measured box addr max t (size_max, t)
  unended :
      (limit : ℕ)
      → InBox box addr limit
      → limit ≤ max
      → Measured box addr max t (size_max, strnlen addr limit ∷ t)
  ended :
      (limit n : ℕ)
      → InBox box addr limit
      → limit ≤ max
      → n < limit
      → Measured box addr max t (n, strnlen addr limit ∷ t)

strnlen_limit-InBox :
    (box : Box) (addr max : ℕ)
    → box.max < word
    → lfi_box_ptrvalid box addr ≡ true
    → InBox box addr (strnlen_limit box addr max) × (strnlen_limit box addr max ≤ max)
unfolding strnlen_limit lfi_box_ptrvalid l2p
strnlen_limit-InBox box addr max small valid = ground arith

ptrvalid_of :
    (box : Box) (addr : ℕ) → box.min ≤ addr → addr < box.max → lfi_box_ptrvalid box addr ≡ true
unfolding lfi_box_ptrvalid
ptrvalid_of box addr lo hi = ground arith

-- The end of the call, by the limit and the answer of the host.
measured :
    (o : Oracle) (box : Box) (addr max limit : ℕ) (t : Trace)
    → IsStrnlen o
    → InBox box addr limit
    → limit ≤ max
    → Measured box addr max t (elim (o t (strnlen addr limit)) [
      | none ↦ (if 0 == limit then size_max else 0, strnlen addr limit ∷ t)
      | some n ↦ (if n == limit then size_max else n, strnlen addr limit ∷ t)
    ])
measured o box addr max limit t host inside le =
    answer (o t (strnlen addr limit)) (host t addr limit)
  where
    length_of :
        (n : ℕ)
        → n ≤ limit
        → Measured box addr max t (if n == limit then size_max else n, strnlen addr limit ∷ t)
    length_of n short = elim (Bool-cases (n == limit)) [
      | inl all ↦ rw all (unended limit inside le)
      | inr part ↦ rw part (ended limit n inside le (ground arith))
    ]

    answer :
        (r : Option ℕ)
        → ((n : ℕ) → r ≡ some n → n ≤ limit)
        → Measured box addr max t (elim r as (λ x. ℕ × Trace) [
          | none ↦ (if 0 == limit then size_max else 0, strnlen addr limit ∷ t)
          | some n ↦ (if n == limit then size_max else n, strnlen addr limit ∷ t)
        ])
    answer none short = length_of 0 (omega arith)
    answer (some n) short = length_of n (short n refl)

-- `lfi_box_strnlen` reads nothing for a pointer outside the bounds; for one inside, it never reads
-- past the bounds or past the limit given, and a length it gives ends before both.
pub lfi_box_strnlen-Measured :
    (o : Oracle) (box : Box) (addr max : ℕ) (t : Trace)
    → IsStrnlen o
    → box.max < word
    → Measured box addr max t (lfi_box_strnlen o box addr max t)
unfolding lfi_box_strnlen l2p
lfi_box_strnlen-Measured o box addr max t host small =
    elim (Bool-cases (lfi_box_ptrvalid box addr)) [
      | inl valid ↦
          let (inside, le) = strnlen_limit-InBox box addr max small valid in
          rw valid (measured o box addr max (strnlen_limit box addr max) t host inside le)
      | inr bad ↦
          rw bad (outside (λ lo hi. let ok = ptrvalid_of box addr lo hi in absurd (ground arith)))
    ]
