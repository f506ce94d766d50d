-- ===== src/AddrSpace/Protect.antt =====
-- `protect` of core/mmap/mmap.cpp as an operation on the pages.
use native.Mathlib.Omega.{arith}
use lfi_runtime.Prelude.{
  ℕ, ◌+◌, ◌≤◌, ◌<◌, ◌≡◌, refl, sym, ◌∙◌, Bool, true, false, ◌&&◌, Option, none, some, List, [], ◌∷◌,
  if◌then◌else◌, ltb, leb, Bool-cases, inl, inr,
}
use lfi_runtime.RangeMap
use lfi_runtime.RangeMap.{Entry}
use lfi_runtime.RangeMap.View.{value_at, Ordered, value_at-below}
use lfi_runtime.RangeMap.Carve.{value_at-remove}
use lfi_runtime.RangeMap.Change.{value_at-insert}
use lfi_runtime.RangeMap.Ranges.{get_overlapping-Overlapping}
use lfi_runtime.AddrSpace.{
  AddrSpace, MapInfo, Error, k_ok, k_inval, eq_info, larger, smaller, to_page, to_page_ceil,
  protect_entry, protect_loop, protect,
}
use lfi_runtime.AddrSpace.View.{IsSpace, page_info, eq_info_sound, in_pages}
use lfi_runtime.AddrSpace.Change.{refuses, with_regions}

abbrev pub with_prot : ℕ → Option MapInfo → Option MapInfo
with_prot prot none = none
with_prot prot (some info) = some (record info { prot = prot })

-- the value that a list of entries gives a key, with the new protection, or the one that it has
abbrev override : ℕ → Option MapInfo → Option MapInfo → Option MapInfo
override prot none old = old
override prot (some info) old = some (record info { prot = prot })

module _ (start stop prot : ℕ) where
  protect_entry-value_at :
      (e : Entry MapInfo) (m : List (Entry MapInfo)) (k : ℕ)
      → Ordered 0 m
      → Ordered 0 (protect_entry start stop prot e m)
        × (value_at k (protect_entry start stop prot e m) ≡ (
            if leb e.start k && ltb k e.stop && leb start k && ltb k stop
            then some (record (e.val) { prot = prot })
            else value_at k m))
  unfolding protect_entry
  protect_entry-value_at e m k o =
      let cs = larger e.start start in
      let ce = smaller e.stop stop in
      let info : MapInfo = record (e.val) { prot = prot } in
      let r = value_at-remove m cs ce k o in
      let i = value_at-insert eq_info eq_info_sound (RangeMap.remove cs ce m) cs ce k info r.0 in
      (i.0, i.1 ∙ ground (arith, r.1))

  protect_loop-value_at :
      (p k : ℕ) (es m : List (Entry MapInfo))
      → Ordered p es
      → Ordered 0 m
      → Ordered 0 (protect_loop start stop prot es m)
        × (value_at k (protect_loop start stop prot es m) ≡ (
            if leb start k && ltb k stop
            then override prot (value_at k es) (value_at k m)
            else value_at k m))
  unfolding protect_loop
  protect_loop-value_at p k [] m oe om = (om, ground arith)
  protect_loop-value_at p k (e ∷ es) m oe om =
      let one = protect_entry-value_at e m k om in
      let rest = protect_loop-value_at e.stop k es (protect_entry start stop prot e m) oe.2 one.0 in
      (rest.0, rest.1 ∙ rw one.1 (merge (value_at k es) (value_at-below k e.stop es)))
    where
      merge :
          (v : Option MapInfo)
          → (k < e.stop → Ordered e.stop es → v ≡ none)
          → (if leb start k && ltb k stop
              then override prot v (
                  if leb e.start k && ltb k e.stop && leb start k && ltb k stop
                  then some (record (e.val) { prot = prot })
                  else value_at k m)
              else (if leb e.start k && ltb k e.stop && leb start k && ltb k stop
                  then some (record (e.val) { prot = prot })
                  else value_at k m))
            ≡ (if leb start k && ltb k stop
                then override prot
                    (if leb e.start k && ltb k e.stop then some e.val else v)
                    (value_at k m)
                else value_at k m)
      merge none below = ground arith
      merge (some v) below = let above : e.stop ≤ k = ground (arith, below, oe) in ground arith

  override_same : (v : Option MapInfo) → override prot v v ≡ with_prot prot v
  override_same none = refl
  override_same (some v) = refl

  protect_loop-pages :
      (m : List (Entry MapInfo)) (page : ℕ)
      → Ordered 0 m
      → let m' = protect_loop start stop prot (RangeMap.get_overlapping start stop m) m in
        Ordered 0 m'
        × (value_at page m' ≡ (
            if leb start page && ltb page stop
            then with_prot prot (value_at page m)
            else value_at page m))
  protect_loop-pages m page h =
      let o = get_overlapping-Overlapping m start stop h in
      let r = protect_loop-value_at 0 page (RangeMap.get_overlapping start stop m) m o.ordered h in
      (
        r.0,
        r.1 ∙ elim (Bool-cases (leb start page && ltb page stop)) [
          | inl at ↦
              rw at
                (rw (o.same page (ground arith) (ground arith)) (override_same (value_at page m)))
          | inr out ↦ rw out refl
        ],
      )

was_mapped :
    (b : Bool) (prot : ℕ) (o : Option MapInfo) (info : MapInfo)
    → (if b then with_prot prot o else o) ≡ some info
    → (old : MapInfo) × (o ≡ some old)
was_mapped true prot none info e = absurd (ground arith)
was_mapped false prot none info e = absurd (ground arith)
was_mapped b prot (some old) info e = (old, refl)

-- The ends of `protect`.
pub data Protected (s : AddrSpace) (addr len prot : ℕ) : Error × AddrSpace → Type 0 where
  not_protected : refuses s addr len ≡ true → Protected s addr len prot (k_inval, s)
  protected :
      (m : List (Entry MapInfo))
      → refuses s addr len ≡ false
      → IsSpace (with_regions s m)
      → ((page : ℕ)
          → value_at page m ≡ (
              if in_pages (to_page s addr) (to_page_ceil s len) page
              then with_prot prot (page_info s page)
              else page_info s page))
      → Protected s addr len prot (k_ok, with_regions s m)

-- In an address space in order, `protect` refuses a range that is empty, unaligned or not inside the
-- space, and changes nothing; or it sets the protection of exactly the mapped pages of the range, and
-- changes nothing else of them or of other pages. The space stays in order.
pub protect-Protected :
    (s : AddrSpace) (addr len prot : ℕ)
    → IsSpace s
    → Protected s addr len prot (protect s addr len prot)
unfolding protect
protect-Protected s addr len prot h = elim (Bool-cases (refuses s addr len)) [
  | inl bad ↦ rw bad (not_protected bad)
  | inr good ↦
      let start = to_page s addr in
      let stop = to_page s addr + to_page_ceil s len in
      let now = λ (page : ℕ). protect_loop-pages start stop prot s.regions page h.ordered in
      rw good (
        protected
          (protect_loop start stop prot (RangeMap.get_overlapping start stop s.regions) s.regions)
          good
          (record {
            ordered = (now 0).0;
            inside = λ page info e.
                let (old, at) = was_mapped _ prot (page_info s page) info (sym (now page).1 ∙ e) in
                h.inside page old at;
            fits = h.fits;
          })
          (λ page. (now page).1))
]
