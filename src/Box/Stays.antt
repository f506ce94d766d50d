-- ===== src/Box/Stays.antt =====
-- The end of an operation of core/box.c that stays inside the sandbox's bounds.
use lfi_runtime.Prelude.{
  ℕ, ◌≡◌, refl, sym, ap, ◌∙◌, ◌^◌, Bool, Option, List, ℤ, Bool-cases, inl, inr,
}
use lfi_runtime.Host.{Trace, Oracle}
use lfi_runtime.AddrSpace
use lfi_runtime.AddrSpace.{
  AddrSpace, MapInfo, Update, Error, k_ok, k_inval, k_no_mem, page_size, to_page, to_page_ceil,
}
use lfi_runtime.AddrSpace.View.{IsSpace}
use lfi_runtime.AddrSpace.Change.{
  Changed, Unmapped, unmap-Unmapped, refuses-Fits, not_unmapped, unmapped,
}
use lfi_runtime.Box.{Box, mapverify, cbunmap_all}
use lfi_runtime.Box.Maps.{map_or_undo, with_mm}
use lfi_runtime.Box.Session.{}
use lfi_runtime.Box.Bounds.{InBox}
use lfi_runtime.Box.Inside.{IsBox, CallsIn, mapverify-CallsIn, cbunmap_all-CallsIn}

-- The box after an operation: in order, with the bounds from before.
pub record SameBox (box box' : Box) : Type 0 where
  pub is_box : IsBox box'
  pub same_min : box'.min ≡ box.min
  pub same_max : box'.max ≡ box.max

-- The end of an operation: the box is in order, and the host calls so far are inside.
abbrev pub Stays : Box → Box × Trace → Type 0
Stays box (box', t) = SameBox box box' × CallsIn box.min box.max t

module _ (box : Box) (h : IsBox box) where
  pub unchanged : SameBox box box
  unchanged = record { is_box = h; same_min = refl; same_max = refl }

  -- A changed address map keeps the box in order.
  pub with_mm-SameBox :
      (mm : AddrSpace)
      → IsSpace mm
      → mm.base ≡ box.mm.base
      → mm.len ≡ box.mm.len
      → page_size mm ≡ page_size box.mm
      → SameBox box (with_mm box mm)
  with_mm-SameBox mm space b l p = record {
    is_box = record {
      space = space;
      low = rw (b, p) h.low;
      high = rw (b, l, p) h.high;
      some_page = h.some_page;
      aligned = h.aligned;
      no_wrap = h.no_wrap;
    };
    same_min = refl;
    same_max = refl;
  }

  pub Changed-SameBox :
      {start pages : ℕ} {v : Option MapInfo} {mm : AddrSpace}
      → Changed box.mm start pages v mm
      → SameBox box (with_mm box mm)
  Changed-SameBox {mm} c =
      with_mm-SameBox mm c.space c.same_base c.same_len (ap (λ n. 2 ^ n) c.same_size)

  -- What `unmap` leaves is in order, and what it tells is inside.
  pub unmap-Stays :
      (o : Oracle) (addr len : ℕ) (t : Trace) (r : Error × List Update × AddrSpace)
      → Unmapped box.mm addr len r
      → CallsIn box.min box.max t
      → Stays box (with_mm box r.2, cbunmap_all o r.1 t)
  unfolding cbunmap_all
  unmap-Stays o addr len t r (not_unmapped bad) c = (unchanged, c)
  unmap-Stays o addr len t r (unmapped us mm good told ch) c = (
    Changed-SameBox ch,
    cbunmap_all-CallsIn box h o addr len us t (refuses-Fits box.mm addr len good) told c,
  )

  pub map_or_undo-Stays :
      (o : Oracle) (addr size prot flags : ℕ) (fd off : ℤ) (no_verify : Bool) (t : Trace)
      → InBox box addr size
      → CallsIn box.min box.max t
      → let r = map_or_undo o box addr size prot flags fd off no_verify t in Stays box (r.1, r.2)
  unfolding map_or_undo
  map_or_undo-Stays o addr size prot flags fd off no_verify t inside c =
      let m = mapverify o box addr size prot flags fd off no_verify t in
      let cm =
        mapverify-CallsIn o box box.min box.max addr size prot flags fd off no_verify t inside.0
          inside.1 c in
      elim (Bool-cases m.0) [
        | inl good ↦ rw good (unchanged, cm)
        | inr bad ↦ rw bad (
            unmap-Stays o addr size m.1 (AddrSpace.unmap box.mm addr size)
              (unmap-Unmapped box.mm addr size h.space) cm)
      ]

-- The same, as the end of an operation on the box from before.
pub SameBox-trans : {a b c : Box} → SameBox a b → SameBox b c → SameBox a c
SameBox-trans p q = record {
  is_box = q.is_box;
  same_min = q.same_min ∙ p.same_min;
  same_max = q.same_max ∙ p.same_max;
}

pub Stays-trans : {a b : Box} (r : Box × Trace) → SameBox a b → Stays b r → Stays a r
Stays-trans {a} {b} (box', t) p q = (SameBox-trans p q.0, rw (sym p.same_min, sym p.same_max) q.1)

-- The condition on a mapping operation that returns.
abbrev pub MapStays : Box → Option ℕ × Box × Trace → Type 0
MapStays box (a, box', t) = Stays box (box', t)

-- The same for an operation that returns a code.
abbrev pub CallStays : Box → ℤ × Box × Trace → Type 0
CallStays box (code, box', t) = Stays box (box', t)
