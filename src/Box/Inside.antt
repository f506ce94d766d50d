-- ===== src/Box/Inside.antt =====
-- What a sandbox in order is, and which host calls stay inside it (core/box.c).
use native.Mathlib.Omega.{arith}
use native.Mathlib.Nat.{mul-le-mul_right, add-mul}
use lfi_runtime.Prelude.{ℕ, ◌+◌, ◌*◌, ◌%◌, ◌≤◌, ◌<◌, ◌≡◌, Bool, List, [], ◌∷◌, ℤ, All, word}
use lfi_runtime.Host.{
  Call, mmap, munmap, mprotect, lfiv_verify, copy_out, copy_in, memset, strnlen, Trace, Oracle,
}
use lfi_runtime.RangeMap.{Entry}
use lfi_runtime.RangeMap.View.{Ordered}
use lfi_runtime.RangeMap.Ranges.{Meets}
use lfi_runtime.AddrSpace.{
  MapInfo, Update, page_size, to_page, to_page_ceil, to_addr, updates, clip, larger, smaller,
}
use lfi_runtime.AddrSpace.View.{IsSpace, Fits, to_page_ceil-le}
use lfi_runtime.AddrSpace.Change.{Told}
use lfi_runtime.Box.{Box, verify, protectverify, mapverify, cbunmap, cbunmap_all}

-- The pages of the address map lie between the bounds, whose upper end is a page boundary; a page
-- behind it does not wrap.
pub record IsBox (box : Box) : Type 0 where
  pub space : IsSpace box.mm
  pub low : box.min ≤ box.mm.base * page_size box.mm
  pub high : (box.mm.base + box.mm.len) * page_size box.mm ≤ box.max
  pub some_page : 0 < box.opts.pagesize
  pub aligned : box.max % box.opts.pagesize ≡ 0
  pub no_wrap : box.max + box.opts.pagesize < word

-- The call touches no memory outside `[lo, hi)`.
abbrev pub CallIn : ℕ → ℕ → Call → Type 0
CallIn lo hi (mmap a n p f fd off) = (lo ≤ a) × (a + n ≤ hi)
CallIn lo hi (munmap a n) = (lo ≤ a) × (a + n ≤ hi)
CallIn lo hi (mprotect a n p) = (lo ≤ a) × (a + n ≤ hi)
CallIn lo hi (lfiv_verify a n) = (lo ≤ a) × (a + n ≤ hi)
CallIn lo hi (copy_out a n) = (lo ≤ a) × (a + n ≤ hi)
CallIn lo hi (copy_in a n) = (lo ≤ a) × (a + n ≤ hi)
CallIn lo hi (memset a b n) = (lo ≤ a) × (a + n ≤ hi)
CallIn lo hi (strnlen a n) = (lo ≤ a) × (a + n ≤ hi)
CallIn lo hi _ = Unit

abbrev pub CallsIn : ℕ → ℕ → Trace → Type 0
CallsIn lo hi = All (CallIn lo hi)

module _ (o : Oracle) (box : Box) (lo hi : ℕ) where
  pub protectverify-CallsIn :
      (base size prot : ℕ) (no_verify : Bool) (t : Trace)
      → lo ≤ base
      → base + size ≤ hi
      → CallsIn lo hi t
      → CallsIn lo hi (protectverify o box base size prot no_verify t).1
  unfolding protectverify
  protectverify-CallsIn base size prot no_verify t l h c = ground arith

  pub mapverify-CallsIn :
      (start size prot flags : ℕ) (fd off : ℤ) (no_verify : Bool) (t : Trace)
      → lo ≤ start
      → start + size ≤ hi
      → CallsIn lo hi t
      → CallsIn lo hi (mapverify o box start size prot flags fd off no_verify t).1
  unfolding mapverify
  mapverify-CallsIn start size prot flags fd off no_verify t l h c = ground arith

  pub verify-CallsIn :
      (base size prot : ℕ) (t : Trace)
      → lo ≤ base
      → base + size ≤ hi
      → CallsIn lo hi t
      → CallsIn lo hi (verify o box base size prot t).1
  unfolding verify
  verify-CallsIn base size prot t l h c = ground arith

-- An update lies between the bounds.
abbrev UpdateIn : ℕ → ℕ → Update → Type 0
UpdateIn lo hi (a, n, info) = (lo ≤ a) × (a + n ≤ hi)

cbunmap-CallsIn :
    (o : Oracle) (lo hi : ℕ) (u : Update) (t : Trace)
    → UpdateIn lo hi u
    → CallsIn lo hi t
    → CallsIn lo hi (cbunmap o u t)
unfolding cbunmap
cbunmap-CallsIn o lo hi u t h c = ground arith

cbunmap_all-CallsIn_of :
    (o : Oracle) (lo hi : ℕ) (us : List Update) (t : Trace)
    → All (UpdateIn lo hi) us
    → CallsIn lo hi t
    → CallsIn lo hi (cbunmap_all o us t)
unfolding cbunmap_all
cbunmap_all-CallsIn_of o lo hi [] t h c = c
cbunmap_all-CallsIn_of o lo hi (u ∷ us) t h c =
    cbunmap_all-CallsIn_of o lo hi us (cbunmap o u t) h.1 (cbunmap-CallsIn o lo hi u t h.0 c)

module _ (box : Box) (h : IsBox box) where
  -- Whole pages of the address map lie between the bounds.
  pub pages_inside :
      (first last : ℕ)
      → box.mm.base ≤ first
      → last ≤ box.mm.base + box.mm.len
      → (box.min ≤ first * page_size box.mm) × (last * page_size box.mm ≤ box.max)
  pages_inside first last l r =
      let a : box.mm.base * page_size box.mm ≤ first * page_size box.mm =
        mul-le-mul_right (page_size box.mm) l in
      let b : last * page_size box.mm ≤ (box.mm.base + box.mm.len) * page_size box.mm =
        mul-le-mul_right (page_size box.mm) r in
      let low = h.low in let high = h.high in (omega arith, omega arith)

  address_of :
      (page : ℕ) → page ≤ box.mm.base + box.mm.len → to_addr box.mm page ≡ page * page_size box.mm
  unfolding to_addr
  address_of page le =
      let a : page * page_size box.mm ≤ (box.mm.base + box.mm.len) * page_size box.mm =
        mul-le-mul_right (page_size box.mm) le in
      let small = h.space.fits in omega arith

  clip-UpdateIn :
      (start pages : ℕ) (e : Entry MapInfo)
      → Fits box.mm start pages
      → e.start < start + pages
      → start < e.stop
      → e.start < e.stop
      → UpdateIn box.min box.max (clip box.mm start (start + pages) e)
  unfolding clip
  clip-UpdateIn start pages e f meets_low meets_high full =
      let cs = larger e.start start in
      let ce = smaller e.stop (start + pages) in
      let order : (start ≤ cs) × (cs ≤ ce) × (ce ≤ start + pages) = ground arith in
      let inside = pages_inside cs ce (omega arith) (omega arith) in
      let le : cs * page_size box.mm ≤ ce * page_size box.mm =
        mul-le-mul_right (page_size box.mm) order.1 in
      let small = h.no_wrap in
      rw (address_of cs (omega arith), address_of ce (omega arith)) (inside.0, omega arith)

  updates-UpdateIn :
      (start pages p : ℕ) (es : List (Entry MapInfo))
      → Fits box.mm start pages
      → Ordered p es
      → Meets start (start + pages) es
      → All (UpdateIn box.min box.max) (updates box.mm start (start + pages) es)
  unfolding updates
  updates-UpdateIn start pages p [] f o m = tt
  updates-UpdateIn start pages p (e ∷ es) f o m =
      (clip-UpdateIn start pages e f m.0 m.1 o.1, updates-UpdateIn start pages e.stop es f o.2 m.2)

  -- What `unmap` and `map_at` tell the update function lies between the bounds.
  pub cbunmap_all-CallsIn :
      (o : Oracle) (addr len : ℕ) (us : List Update) (t : Trace)
      → Fits box.mm (to_page box.mm addr) (to_page_ceil box.mm len)
      → Told box.mm addr len us
      → CallsIn box.min box.max t
      → CallsIn box.min box.max (cbunmap_all o us t)
  cbunmap_all-CallsIn o addr len us t f told c = rw told.calls (
      cbunmap_all-CallsIn_of o box.min box.max _ t
        (updates-UpdateIn (to_page box.mm addr) (to_page_ceil box.mm len) 0 told.entries f
          told.overlapping.ordered told.overlapping.meets)
        c)

  -- A range of the address map, in bytes.
  pub bytes_inside :
      (at len : ℕ)
      → Fits box.mm at (to_page_ceil box.mm len)
      → len < word
      → (box.min ≤ at * page_size box.mm) × (at * page_size box.mm + len ≤ box.max)
  bytes_inside at len f small =
      let inside = pages_inside at (at + to_page_ceil box.mm len) f.0 f.1 in
      let le = to_page_ceil-le box.mm len small in
      (inside.0, omega (arith, add-mul at (to_page_ceil box.mm len) (page_size box.mm)))
