-- ===== src/AddrSpace/Any.antt =====
-- `map_any` of core/mmap/mmap.cpp without a hint, as the runtime calls it: it takes pages that are
-- free, and fails only where there is no such run of pages.
use native.Mathlib.Omega.{arith}
use native.Mathlib.Nat.{mul-div_cancel, mul-le-mul_right}
use lfi_runtime.Prelude.{
  ℕ, ◌+◌, ◌-◌, ◌*◌, ◌≤◌, ◌<◌, ◌≡◌, refl, sym, subst, ◌∙◌, true, ◌||◌, Option, none, some, List,
  ◌==◌, Bool-cases, inl, inr, Run, done, ◌>>◌, assert, Returns, returns,
}
use lfi_runtime.RangeMap
use lfi_runtime.RangeMap.Ranges.{is_free, in_gaps-get_gaps}
use lfi_runtime.RangeMap.Gaps.{FreeRun, TooSmall-FreeRun, get_gaps-Separate}
use lfi_runtime.AddrSpace.{
  AddrSpace, MapInfo, page_size, to_page, to_page_ceil, to_addr, is_valid, put_range, find_free,
  map_any,
}
use lfi_runtime.AddrSpace.View.{IsSpace, page_info, page_size-pos, Fits, is_valid_of}
use lfi_runtime.AddrSpace.Change.{Changed, put_range-Changed}
use lfi_runtime.AddrSpace.Search.{
  Found, too_small, found_at, reseeded, FindsFree, find_free-FindsFree,
}

-- The pages `[at, at + pages)` lie in the space and have no mapping.
abbrev pub FreePages : AddrSpace → ℕ → ℕ → Type 0
FreePages s at pages =
    (page : ℕ)
    → at ≤ page
    → page < at + pages
    → (s.base ≤ page) × (page < s.base + s.len) × (page_info s page ≡ none)

is_free_eq : (o : Option MapInfo) → is_free o ≡ true → o ≡ none
is_free_eq none e = refl
is_free_eq (some i) e = absurd (ground arith)

module _ {s : AddrSpace} (h : IsSpace s) where
  abbrev gaps : List (ℕ × ℕ)
  gaps = RangeMap.get_gaps s.base (s.base + s.len) s.regions

  FreeRun-FreePages : (at pages : ℕ) → FreeRun gaps at pages → FreePages s at pages
  FreeRun-FreePages at pages run page lo hi =
      let e = in_gaps-get_gaps s.regions s.base (s.base + s.len) page h.ordered in
      let here = run page lo hi in
      (ground arith, ground arith, is_free_eq (page_info s page) (ground arith))

  FreePages-FreeRun : (at pages : ℕ) → FreePages s at pages → FreeRun gaps at pages
  FreePages-FreeRun at pages free page lo hi =
      let (below, above, none_there) = free page lo hi in
      in_gaps-get_gaps s.regions s.base (s.base + s.len) page h.ordered
      ∙ rw none_there (ground arith)

  FreePages-Fits : (at pages : ℕ) → 0 < pages → FreePages s at pages → Fits s at pages
  FreePages-Fits at pages pos free =
      let first = free at (omega arith) (omega arith) in
      let last = free (at + pages - 1) (omega arith) (omega arith) in (first.0, omega arith)

  -- The address of a page of the space does not wrap, and is in that page.
  pub to_addr_lem : (page : ℕ) → page < s.base + s.len → to_addr s page ≡ page * page_size s
  unfolding to_addr
  to_addr_lem page lt =
      let le : page * page_size s ≤ (s.base + s.len) * page_size s =
        mul-le-mul_right (page_size s) (omega arith) in
      let small = h.fits in omega arith

  to_page-to_addr : (page : ℕ) → page < s.base + s.len → to_page s (to_addr s page) ≡ page
  unfolding to_page
  to_page-to_addr page lt = rw (to_addr_lem page lt) (mul-div_cancel page (page_size-pos s))

-- The ends of `map_any`.
pub data MappedAny (s : AddrSpace) (len : ℕ) (info : MapInfo) : Option ℕ × AddrSpace → Type 0 where
  no_pages : (len == 0 || to_page_ceil s len == 0) ≡ true → MappedAny s len info (none, s)
  full :
      (z : ℕ)
      → ((at : ℕ) → FreePages s at (to_page_ceil s len) → ⊥)
      → MappedAny s len info (none, reseeded s z)
  mapped_any :
      (at : ℕ) (s' : AddrSpace)
      → Fits s at (to_page_ceil s len)
      → FreePages s at (to_page_ceil s len)
      → Changed s at (to_page_ceil s len) (some info) s'
      → MappedAny s len info (some (at * page_size s), s')

reseeded-IsSpace : {s : AddrSpace} (z : ℕ) → IsSpace s → IsSpace (reseeded s z)
reseeded-IsSpace z h = record { ordered = h.ordered; inside = h.inside; fits = h.fits }

Changed-reseeded :
    {s s' : AddrSpace} (z : ℕ) {start pages : ℕ} {v : Option MapInfo}
    → Changed (reseeded s z) start pages v s'
    → Changed s start pages v s'
Changed-reseeded z c = record {
  space = c.space;
  same_base = c.same_base;
  same_len = c.same_len;
  same_size = c.same_size;
  pages_now = c.pages_now;
}

-- the end of `map_any`, from the space and the answer that the search left
abbrev place_at : AddrSpace → AddrSpace → ℕ → ℕ → MapInfo → Option ℕ → Run (Option ℕ × AddrSpace)
place_at s s1 len pages info none = done (none, s1)
place_at s s1 len pages info (some at) =
    assert (is_valid s1 (to_page s1 (to_addr s at)) (to_page_ceil s1 len))
    >> done (some (to_addr s at), put_range s1 at pages info)

module _ {s : AddrSpace} (h : IsSpace s) (len : ℕ) (info : MapInfo)
    (pos : 0 < to_page_ceil s len) where
  -- The end of the call, from the place that the search found.
  place :
      (z : ℕ) (o : Option ℕ)
      → Found (gaps h) (to_page_ceil s len) o
      → Returns (MappedAny s len info) (place_at s (reseeded s z) len (to_page_ceil s len) info o)
  unfolding to_page_ceil to_addr to_page
  place z none (too_small small) = returns (
      full z (λ at free.
        TooSmall-FreeRun (gaps h) s.base at (to_page_ceil s len) pos
          (get_gaps-Separate s.regions s.base (s.base + s.len) h.ordered) small
          (FreePages-FreeRun h at (to_page_ceil s len) free)))
  place z (some at) (found_at at' run) =
      let free = FreeRun-FreePages h at (to_page_ceil s len) run in
      let f = FreePages-Fits h at (to_page_ceil s len) pos free in
      let h' = reseeded-IsSpace z h in
      let lt : at < s.base + s.len = omega arith in
      let here : to_page (reseeded s z) (to_addr s at) ≡ at = to_page-to_addr h at lt in
      let valid : is_valid (reseeded s z) at (to_page_ceil (reseeded s z) len) ≡ true =
        is_valid_of (reseeded s z) at (to_page_ceil s len) f in
      rw here (
        rw valid (
          rw (to_addr_lem h at lt) (
            returns (
              mapped_any at _ f free
                (Changed-reseeded z (put_range-Changed h' at (to_page_ceil s len) info f))))))

-- In an address space in order, `map_any` without a hint never ends the process. It refuses a length
-- of no pages; or there is no run of free pages that is long enough; or it gives the mapping to a run
-- of pages of the space that were all free, and to no other page. The space stays in order.
pub map_any-MappedAny :
    (s : AddrSpace) (len : ℕ) (info : MapInfo)
    → IsSpace s
    → Returns (MappedAny s len info) (map_any s 0 len info)
unfolding map_any
map_any-MappedAny s len info h = elim (Bool-cases (len == 0 || to_page_ceil s len == 0)) [
  | inl bad ↦ rw bad (returns (no_pages bad))
  | inr good ↦
      let pos : 0 < to_page_ceil s len = ground arith in
      rw good
        (go (find_free s (to_page_ceil s len)) (find_free-FindsFree s (to_page_ceil s len)) pos)
]
  where
    go :
        (r : Option ℕ × AddrSpace)
        → FindsFree s (to_page_ceil s len) r
        → 0 < to_page_ceil s len
        → Returns (MappedAny s len info) (elim r.0 as (λ x. Run (Option ℕ × AddrSpace)) [
          | none ↦ done (none, r.1)
          | some at ↦
              assert (is_valid r.1 (to_page r.1 (to_addr s at)) (to_page_ceil r.1 len))
              >> done (some (to_addr s at), put_range r.1 at (to_page_ceil s len) info)
        ])
    go (none, s1) f pos =
        subst
          (λ x. Returns (MappedAny s len info) (place_at s x len (to_page_ceil s len) info none))
          (sym f.same) (place h len info pos f.state none f.answer)
    go (some at, s1) f pos =
        subst
          (λ x.
            Returns (MappedAny s len info) (place_at s x len (to_page_ceil s len) info (some at)))
          (sym f.same) (place h len info pos f.state (some at) f.answer)
