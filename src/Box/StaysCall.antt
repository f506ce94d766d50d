-- ===== src/Box/StaysCall.antt =====
-- `mprotect` and `munmap` of core/box.c stay inside the bounds.
use native.Mathlib.Omega.{arith}
use native.Mathlib.Nat.{div-add-mod', mul-le-mul_right, add-mul, add-mul-mod_self_right}
use lfi_runtime.Prelude.{
  ℕ, ◌+◌, ◌-◌, ◌*◌, ◌/◌, ◌%◌, ◌≤◌, ◌<◌, ◌≡◌, refl, ◌∙◌, Bool, not, ◌||◌, Option, none, some, List,
  ◌∷◌, ℤ, pos, negsuc, neg, if◌then◌else◌, ◌==◌, leb, add64, sub64, Bool-cases, inl, inr,
}
use lfi_runtime.Host.{Call, mmap, Trace, Oracle, prot_none, anon_fixed}
use lfi_runtime.AddrSpace
use lfi_runtime.AddrSpace.{
  AddrSpace, MapInfo, Update, Error, k_ok, k_inval, k_no_mem, page_size, to_page, to_page_ceil,
}
use lfi_runtime.AddrSpace.Change.{Unmapped, unmap-Unmapped, with_regions, not_unmapped, unmapped}
use lfi_runtime.AddrSpace.Protect.{Protected, not_protected, protected, protect-Protected}
use lfi_runtime.Box.{Box, protectverify}
use lfi_runtime.Box.Maps.{
  with_mm, lfi_box_bufvalid, box_mprotect_locked, box_munmap_locked, page_ceil, einval, enomem,
}
use lfi_runtime.Box.Session.{}
use lfi_runtime.Box.Bounds.{InBox, lfi_box_bufvalid-InBox}
use lfi_runtime.Box.Inside.{IsBox, CallsIn, protectverify-CallsIn}
use lfi_runtime.Box.Stays.{SameBox, Stays, unchanged, with_mm-SameBox, Changed-SameBox, CallStays}

-- A multiple of the page size that is less than a page past another one is not past it.
pub multiple_le : (n m ps : ℕ) → 0 < ps → n % ps ≡ 0 → m % ps ≡ 0 → n < m + ps → n ≤ m
multiple_le n m ps pos_ps dn dm lt =
    let en = div-add-mod' n ps in
    let em = div-add-mod' m ps in
    elim (Bool-cases (leb n m)) [
      | inl le ↦ ground arith
      | inr gt ↦
          let quot : m / ps + 1 ≤ n / ps = elim (Bool-cases (leb (m / ps + 1) (n / ps))) [
            | inl q ↦ ground arith
            | inr q ↦
                let up : n / ps * ps ≤ m / ps * ps = mul-le-mul_right ps (ground arith) in
                absurd (ground arith)
          ] in
          let down : (m / ps + 1) * ps ≤ n / ps * ps = mul-le-mul_right ps quot in
          absurd (ground (arith, add-mul (m / ps) 1 ps))
    ]

-- A range inside the bounds that starts at a page is inside them to the end of its last page.
page_ceil-InBox :
    (box : Box) (addr size : ℕ)
    → IsBox box
    → InBox box addr size
    → 0 < size
    → addr % box.opts.pagesize ≡ 0
    → InBox box addr (page_ceil size box.opts.pagesize)
unfolding page_ceil
page_ceil-InBox box addr size h inside nonempty al =
    let ps = box.opts.pagesize in
    let sum = size + ps - 1 in
    let bound = h.no_wrap in
    let some_ps = h.some_page in
    let sum_eq : sub64 (add64 size ps) 1 ≡ sum = ground arith in
    let div = div-add-mod' sum ps in
    let whole : (addr + sum / ps * ps) % ps ≡ 0 = add-mul-mod_self_right addr (sum / ps) ps ∙ al in
    let le : addr + sum / ps * ps ≤ box.max =
      multiple_le (addr + sum / ps * ps) box.max ps some_ps whole h.aligned (omega arith) in
    rw sum_eq (inside.0, omega arith)

module _ (o : Oracle) (box : Box) (h : IsBox box) where
  with_mm-Protected :
      (addr size prot : ℕ) (r : Error × AddrSpace)
      → Protected box.mm addr size prot r
      → SameBox box (with_mm box r.1)
  with_mm-Protected addr size prot r (not_protected bad) = unchanged box h
  with_mm-Protected addr size prot r (protected m good space now) =
      with_mm-SameBox box h (with_regions box.mm m) space refl refl refl

  pub mprotect-Stays :
      (addr size prot : ℕ) (no_verify : Bool) (t : Trace)
      → CallsIn box.min box.max t
      → CallStays box (box_mprotect_locked o box addr size prot no_verify t)
  unfolding box_mprotect_locked
  mprotect-Stays addr size prot no_verify t c =
      let ps = box.opts.pagesize in
      let keep : Stays box (box, t) = (unchanged box h, c) in
      elim (Bool-cases (size == 0 || not (addr % ps == 0) || not (size % ps == 0))) [
        | inl bad ↦ rw bad keep
        | inr good ↦ rw good (elim (Bool-cases (lfi_box_bufvalid box addr size)) [
          | inr bad ↦ rw bad keep
          | inl valid ↦
              let inside =
                (lfi_box_bufvalid-InBox box addr size (let n = h.no_wrap in omega arith)).0 valid in
              let calls =
                protectverify-CallsIn o box box.min box.max addr size prot no_verify t inside.0
                  inside.1 c in
              rw valid (elim (Bool-cases (protectverify o box addr size prot no_verify t).0) [
                | inr no_ok ↦ rw no_ok (unchanged box h, calls)
                | inl ok ↦ rw ok (
                  with_mm-Protected addr size prot (AddrSpace.protect box.mm addr size prot)
                      (protect-Protected box.mm addr size prot h.space),
                  calls,
                )
              ])
        ])
      ]

  with_mm-Unmapped :
      (addr size : ℕ) (r : Error × List Update × AddrSpace)
      → Unmapped box.mm addr size r
      → SameBox box (with_mm box r.2)
  with_mm-Unmapped addr size r (not_unmapped bad) = unchanged box h
  with_mm-Unmapped addr size r (unmapped us mm good told ch) = Changed-SameBox box h ch

  pub munmap-Stays :
      (addr size : ℕ) (t : Trace)
      → CallsIn box.min box.max t
      → CallStays box (box_munmap_locked o box addr size t)
  unfolding box_munmap_locked
  munmap-Stays addr size t c =
      let ps = box.opts.pagesize in
      elim (Bool-cases
        (not (lfi_box_bufvalid box addr size) || size == 0 || not (addr % ps == 0))) [
          | inl bad ↦ rw bad (unchanged box h, c)
          | inr good ↦
              let inside =
                (lfi_box_bufvalid-InBox box addr size (let n = h.no_wrap in omega arith)).0
                  (ground arith) in
              let call_in = page_ceil-InBox box addr size h inside (ground arith) (ground arith) in
              let same =
                with_mm-Unmapped addr size (AddrSpace.unmap box.mm addr size)
                  (unmap-Unmapped box.mm addr size h.space) in
              rw good (
                answer (mmap addr (page_ceil size ps) prot_none anon_fixed (negsuc 0) (pos 0)) same
                  (call_in, c))
        ]
    where
      ended :
          (e : Error) (r : Box × Trace)
          → Stays box r
          → CallStays box (elim e as (λ x. ℤ × Box × Trace) [
            | k_ok ↦ (pos 0, r.0, r.1)
            | _ ↦ (neg einval, r.0, r.1)
          ])
      ended k_ok r s = s
      ended k_inval r s = s
      ended k_no_mem r s = s

      answer :
          (call : Call)
          → SameBox box (with_mm box (AddrSpace.unmap box.mm addr size).2)
          → CallsIn box.min box.max (call ∷ t)
          → CallStays box (elim (o t call) as (λ x. ℤ × Box × Trace) [
            | none ↦ (neg enomem, box, call ∷ t)
            | some m ↦
                if not (m == addr)
                then (neg enomem, box, call ∷ t)
                else elim (AddrSpace.unmap box.mm addr size).0 [
                  | k_ok ↦ (pos 0, with_mm box (AddrSpace.unmap box.mm addr size).2, call ∷ t)
                  | _ ↦ (neg einval, with_mm box (AddrSpace.unmap box.mm addr size).2, call ∷ t)
                ]
          ])
      answer call same calls = go (o t call)
        where
          go :
              (r : Option ℕ)
              → CallStays box (elim r as (λ x. ℤ × Box × Trace) [
                | none ↦ (neg enomem, box, call ∷ t)
                | some m ↦
                    if not (m == addr)
                    then (neg enomem, box, call ∷ t)
                    else elim (AddrSpace.unmap box.mm addr size).0 [
                      | k_ok ↦ (pos 0, with_mm box (AddrSpace.unmap box.mm addr size).2, call ∷ t)
                      | _ ↦ (neg einval, with_mm box (AddrSpace.unmap box.mm addr size).2, call ∷ t)
                    ]
              ])
          go none = (unchanged box h, calls)
          go (some m) = elim (Bool-cases (m == addr)) [
            | inl same_addr ↦
                rw same_addr (ended (AddrSpace.unmap box.mm addr size).0 _ (same, calls))
            | inr other ↦ rw other (unchanged box h, calls)
          ]
