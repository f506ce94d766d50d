-- ===== src/Elf/Inside.antt =====
-- Where a mapping at an address lies when core/box.c answers it.
use native.Mathlib.Omega.{arith}
use lfi_runtime.Prelude.{
  ℕ, ◌<◌, ◌≡◌, refl, Bool, false, not, Option, none, some, List, ℤ, if◌then◌else◌, word, Bool-cases,
  inl, inr, Run, done, Returns, returns, Returns-bind, Returns-both, Returns-map,
}
use lfi_runtime.Host.{Trace, Oracle}
use lfi_runtime.AddrSpace
use lfi_runtime.AddrSpace.{AddrSpace, Update}
use lfi_runtime.AddrSpace.Change.{MappedAt, map_at-MappedAt, not_mapped, mapped_at}
use lfi_runtime.Box.{Box, verify, cbunmap_all, mapverify}
use lfi_runtime.Box.Maps.{
  map_or_undo, with_mm, info_of, lfi_box_bufvalid, box_mapat_locked, lfi_box_mapat,
  lfi_box_mapat_register, lfi_box_mprotect,
}
use lfi_runtime.Box.Bounds.{InBox, lfi_box_bufvalid-InBox}
use lfi_runtime.Box.Inside.{IsBox, CallsIn}
use lfi_runtime.Box.Stays.{Stays, CallStays}
use lfi_runtime.Box.StaysMap.{mapat-Stays, mapat_register-Stays}
use lfi_runtime.Box.StaysCall.{mprotect-Stays}
use lfi_runtime.Elf.{Placed}

-- An answer of a mapping at an address: it is that address, and the range is in bounds.
abbrev pub AnswerIn : Box → ℕ → ℕ → Option ℕ → Type 0
AnswerIn box addr size none = Unit
AnswerIn box addr size (some p) = (p ≡ addr) × InBox box addr size

abbrev pub PlacedIn : Box → ℕ → ℕ → Placed → Type 0
PlacedIn box addr size (a, box', t) = Stays box (box', t) × AnswerIn box addr size a

abbrev AnswerOf : Box → ℕ → ℕ → Placed → Type 0
AnswerOf box addr size (a, box', t) = AnswerIn box addr size a

module _ (o : Oracle) (box : Box) (h : IsBox box) where
  small_max : box.max < word
  small_max = let n = h.no_wrap in omega arith

  map_or_undo-AnswerIn :
      (b : Box) (addr size prot flags : ℕ) (fd off : ℤ) (nv : Bool) (t : Trace)
      → InBox box addr size
      → AnswerOf box addr size (map_or_undo o b addr size prot flags fd off nv t)
  unfolding map_or_undo
  map_or_undo-AnswerIn b addr size prot flags fd off nv t inside =
      elim (Bool-cases (mapverify o b addr size prot flags fd off nv t).0) [
        | inl ok ↦ rw ok (refl, inside)
        | inr bad ↦ rw bad tt
      ]

  mapat_answer :
      (addr size prot flags : ℕ) (fd off : ℤ) (t : Trace)
      → Returns (AnswerOf box addr size) (box_mapat_locked o box addr size prot flags fd off t)
  unfolding box_mapat_locked
  mapat_answer addr size prot flags fd off t = elim (Bool-cases (lfi_box_bufvalid box addr size)) [
    | inr bad ↦ rw bad (returns tt)
    | inl good ↦ rw good (
        Returns-bind (map_at-MappedAt box.mm addr size (info_of prot flags fd off) h.space)
          (go ((lfi_box_bufvalid-InBox box addr size small_max).0 good)))
  ]
    where
      go :
          InBox box addr size
          → (r : Option ℕ × List Update × AddrSpace)
          → MappedAt box.mm addr size (info_of prot flags fd off) r
          → Returns (AnswerOf box addr size) (elim r.0 as (λ x. Run Placed) [
            | none ↦ done (none, with_mm box r.2, cbunmap_all o r.1 t)
            | some at ↦ done (
                map_or_undo o
                  (with_mm box r.2)
                  at
                  size
                  prot
                  flags
                  fd
                  off
                  false
                  (cbunmap_all o r.1 t))
          ])
      go inside r (not_mapped bad) = returns tt
      go inside r (mapped_at us mm good told ch) = returns (
          map_or_undo-AnswerIn (with_mm box mm) addr size prot flags fd off false
            (cbunmap_all o us t) inside)

  mapat_register_answer :
      (addr size prot flags : ℕ) (fd off : ℤ) (t : Trace)
      → Returns
          (AnswerOf box addr size)
          (lfi_box_mapat_register o box addr size prot flags fd off t)
  unfolding lfi_box_mapat_register
  mapat_register_answer addr size prot flags fd off t =
      elim (Bool-cases (lfi_box_bufvalid box addr size)) [
        | inr bad ↦ rw bad (returns tt)
        | inl good ↦ rw good (
            Returns-bind (map_at-MappedAt box.mm addr size (info_of prot flags fd off) h.space)
              (go ((lfi_box_bufvalid-InBox box addr size small_max).0 good)))
      ]
    where
      go :
          InBox box addr size
          → (r : Option ℕ × List Update × AddrSpace)
          → MappedAt box.mm addr size (info_of prot flags fd off) r
          → Returns (AnswerOf box addr size) (elim r.0 as (λ x. Run Placed) [
            | none ↦ done (none, with_mm box r.2, cbunmap_all o r.1 t)
            | some at ↦
                let (ok, t') = verify o box at size prot (cbunmap_all o r.1 t) in
                let (e, ignored, mm') = AddrSpace.unmap r.2 at size in
                done
                  (if not ok then (none, with_mm box mm', t') else (some at, with_mm box r.2, t'))
          ])
      go inside r (not_mapped bad) = returns tt
      go inside r (mapped_at us mm good told ch) =
          elim (Bool-cases (verify o box addr size prot (cbunmap_all o us t)).0) [
            | inl ok ↦ rw ok (returns (refl, inside))
            | inr bad ↦ rw bad (returns tt)
          ]

  -- `lfi_box_mapat` and `lfi_box_mapat_register` stay inside, and so does what they answer.
  pub lfi_box_mapat-PlacedIn :
      (addr size prot flags : ℕ) (fd off : ℤ) (t : Trace)
      → CallsIn box.min box.max t
      → Returns (PlacedIn box addr size) (lfi_box_mapat o box addr size prot flags fd off t)
  unfolding lfi_box_mapat
  lfi_box_mapat-PlacedIn addr size prot flags fd off t c =
      Returns-map
        (Returns-both (mapat-Stays o box h addr size prot flags fd off t c)
          (mapat_answer addr size prot flags fd off t))
        (λ r both. both)

  pub lfi_box_mapat_register-PlacedIn :
      (addr size prot flags : ℕ) (fd off : ℤ) (t : Trace)
      → CallsIn box.min box.max t
      → Returns
          (PlacedIn box addr size)
          (lfi_box_mapat_register o box addr size prot flags fd off t)
  lfi_box_mapat_register-PlacedIn addr size prot flags fd off t c =
      Returns-map
        (Returns-both (mapat_register-Stays o box h addr size prot flags fd off t c)
          (mapat_register_answer addr size prot flags fd off t))
        (λ r both. both)

  pub lfi_box_mprotect-Stays :
      (addr size prot : ℕ) (t : Trace)
      → CallsIn box.min box.max t
      → CallStays box (lfi_box_mprotect o box addr size prot t)
  unfolding lfi_box_mprotect
  lfi_box_mprotect-Stays addr size prot t c = mprotect-Stays o box h addr size prot false t c
