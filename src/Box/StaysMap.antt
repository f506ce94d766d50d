-- ===== src/Box/StaysMap.antt =====
-- The mapping operations of core/box.c return and stay inside the bounds.
use native.Mathlib.Omega.{arith}
use lfi_runtime.Prelude.{
  ℕ, ◌*◌, ◌<◌, ◌≡◌, refl, Bool, false, not, Option, none, some, List, ℤ, if◌then◌else◌, word,
  Bool-cases, inl, inr, Run, done, Returns, returns, Returns-bind,
}
use lfi_runtime.Host.{Trace, Oracle}
use lfi_runtime.AddrSpace
use lfi_runtime.AddrSpace.{
  AddrSpace, MapInfo, Update, Error, k_ok, k_inval, k_no_mem, page_size, to_page, to_page_ceil,
}
use lfi_runtime.AddrSpace.Change.{
  Told, Unmapped, unmap-Unmapped, MappedAt, map_at-MappedAt, refuses, refuses-Fits, not_unmapped,
  unmapped, not_mapped, mapped_at,
}
use lfi_runtime.AddrSpace.Any.{MappedAny, no_pages, full, mapped_any, map_any-MappedAny}
use lfi_runtime.Box.{Box, verify, cbunmap_all}
use lfi_runtime.Box.Maps.{
  map_or_undo, with_mm, info_of, lfi_box_bufvalid, box_mapany_locked, box_mapat_locked,
  lfi_box_mapat_register,
}
use lfi_runtime.Box.Session.{}
use lfi_runtime.Box.Bounds.{InBox, lfi_box_bufvalid-InBox}
use lfi_runtime.Box.Inside.{IsBox, CallsIn, verify-CallsIn, cbunmap_all-CallsIn, bytes_inside}
use lfi_runtime.Box.Stays.{
  SameBox, unchanged, with_mm-SameBox, Changed-SameBox, map_or_undo-Stays, SameBox-trans,
  Stays-trans, MapStays,
}

module _ (o : Oracle) (box : Box) (h : IsBox box) where
  pub mapany-Stays :
      (size prot flags : ℕ) (fd off : ℤ) (no_verify : Bool) (t : Trace)
      → size < word
      → CallsIn box.min box.max t
      → Returns (MapStays box) (box_mapany_locked o box size prot flags fd off no_verify t)
  unfolding box_mapany_locked
  mapany-Stays size prot flags fd off no_verify t small c =
      Returns-bind (map_any-MappedAny box.mm size (info_of prot flags fd off) h.space) go
    where
      go :
          (r : Option ℕ × AddrSpace)
          → MappedAny box.mm size (info_of prot flags fd off) r
          → Returns (MapStays box) (elim r.0 as (λ x. Run (Option ℕ × Box × Trace)) [
            | none ↦ done (none, with_mm box r.1, t)
            | some addr ↦
                done (map_or_undo o (with_mm box r.1) addr size prot flags fd off no_verify t)
          ])
      go r (no_pages bad) = returns (unchanged box h, c)
      go r (full z none_fits) = returns (
        with_mm-SameBox box h r.1
            (record { ordered = h.space.ordered; inside = h.space.inside; fits = h.space.fits })
            refl refl refl,
        c,
      )
      go r (mapped_any at mm f free ch) =
          let same = Changed-SameBox box h ch in
          returns (
            Stays-trans _ same (
              map_or_undo-Stays (with_mm box mm) same.is_box o (at * page_size box.mm) size prot
                flags fd off no_verify t (bytes_inside box h at size f small) c))

  pub mapat-Stays :
      (addr size prot flags : ℕ) (fd off : ℤ) (t : Trace)
      → CallsIn box.min box.max t
      → Returns (MapStays box) (box_mapat_locked o box addr size prot flags fd off t)
  unfolding box_mapat_locked cbunmap_all
  mapat-Stays addr size prot flags fd off t c = elim (Bool-cases (lfi_box_bufvalid box addr size)) [
    | inr bad ↦ rw bad (returns (unchanged box h, c))
    | inl good ↦
        let inside =
          (lfi_box_bufvalid-InBox box addr size (let n = h.no_wrap in omega arith)).0 good in
        rw good (
          Returns-bind (map_at-MappedAt box.mm addr size (info_of prot flags fd off) h.space)
            (go inside))
  ]
    where
      unmapped_calls :
          (us : List Update)
          → refuses box.mm addr size ≡ false
          → Told box.mm addr size us
          → CallsIn box.min box.max (cbunmap_all o us t)
      unmapped_calls us good told =
          cbunmap_all-CallsIn box h o addr size us t (refuses-Fits box.mm addr size good) told c

      go :
          InBox box addr size
          → (r : Option ℕ × List Update × AddrSpace)
          → MappedAt box.mm addr size (info_of prot flags fd off) r
          → Returns (MapStays box) (elim r.0 as (λ x. Run (Option ℕ × Box × Trace)) [
            | none ↦ done (none, with_mm box r.2, cbunmap_all o r.1 t)
            | some at ↦ done (
                map_or_undo o
                  (with_mm box r.2)
                  at
                  size
                  prot
                  flags
                  fd
                  off
                  false
                  (cbunmap_all o r.1 t))
          ])
      go inside r (not_mapped bad) = returns (unchanged box h, c)
      go inside r (mapped_at us mm good told ch) =
          let same = Changed-SameBox box h ch in
          returns (
            Stays-trans _ same (
              map_or_undo-Stays (with_mm box mm) same.is_box o addr size prot flags fd off false
                (cbunmap_all o us t) inside (unmapped_calls us good told)))

  pub mapat_register-Stays :
      (addr size prot flags : ℕ) (fd off : ℤ) (t : Trace)
      → CallsIn box.min box.max t
      → Returns (MapStays box) (lfi_box_mapat_register o box addr size prot flags fd off t)
  unfolding lfi_box_mapat_register cbunmap_all
  mapat_register-Stays addr size prot flags fd off t c =
      elim (Bool-cases (lfi_box_bufvalid box addr size)) [
        | inr bad ↦ rw bad (returns (unchanged box h, c))
        | inl good ↦
            let inside =
              (lfi_box_bufvalid-InBox box addr size (let n = h.no_wrap in omega arith)).0 good in
            rw good (
              Returns-bind (map_at-MappedAt box.mm addr size (info_of prot flags fd off) h.space)
                (go inside))
      ]
    where
      undone :
          (mm : AddrSpace)
          → SameBox box (with_mm box mm)
          → (r : Error × List Update × AddrSpace) → Unmapped mm addr size r
          → SameBox box (with_mm box r.2)
      undone mm same r (not_unmapped bad) = same
      undone mm same r (unmapped us mm' good told ch) =
          SameBox-trans same (Changed-SameBox (with_mm box mm) same.is_box ch)

      go :
          InBox box addr size
          → (r : Option ℕ × List Update × AddrSpace)
          → MappedAt box.mm addr size (info_of prot flags fd off) r
          → Returns (MapStays box) (elim r.0 as (λ x. Run (Option ℕ × Box × Trace)) [
            | none ↦ done (none, with_mm box r.2, cbunmap_all o r.1 t)
            | some at ↦
                let (ok, t') = verify o box at size prot (cbunmap_all o r.1 t) in
                let (e, ignored, mm') = AddrSpace.unmap r.2 at size in
                done
                  (if not ok then (none, with_mm box mm', t') else (some at, with_mm box r.2, t'))
          ])
      go inside r (not_mapped bad) = returns (unchanged box h, c)
      go inside r (mapped_at us mm good told ch) =
          let same = Changed-SameBox box h ch in
          let calls =
            cbunmap_all-CallsIn box h o addr size us t (refuses-Fits box.mm addr size good) told
              c in
          let t' = cbunmap_all o us t in
          let kept =
            verify-CallsIn o box box.min box.max addr size prot t' inside.0 inside.1 calls in
          elim (Bool-cases (verify o box addr size prot t').0) [
            | inl ok ↦ rw ok (returns (same, kept))
            | inr bad ↦ rw bad (
                returns (
                  undone mm same (AddrSpace.unmap mm addr size)
                      (unmap-Unmapped mm addr size same.is_box.space),
                  kept,
                ))
          ]
