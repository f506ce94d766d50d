-- ===== src/AddrSpace/Change.antt =====
-- `unmap`, `map_at` and `protect` of core/mmap/mmap.cpp as operations on the pages.
use native.Mathlib.Omega.{arith}
use lfi_runtime.Prelude.{
  ℕ, ◌+◌, ◌%◌, ◌≡◌, refl, ◌∙◌, Bool, true, false, not, ◌||◌, Option, none, some, List, [],
  if◌then◌else◌, ◌==◌, Bool-cases, inl, inr, Returns, returns,
}
use lfi_runtime.RangeMap
use lfi_runtime.RangeMap.{Entry}
use lfi_runtime.RangeMap.Carve.{value_at-remove}
use lfi_runtime.RangeMap.Change.{value_at-insert}
use lfi_runtime.RangeMap.Ranges.{Overlapping, get_overlapping-Overlapping}
use lfi_runtime.AddrSpace.{
  AddrSpace, MapInfo, Error, k_ok, k_inval, Update, eq_info, page_size, to_page, to_page_ceil,
  is_valid, put_range, updates, unmap, map_at,
}
use lfi_runtime.AddrSpace.View.{
  IsSpace, page_info, eq_info_sound, Fits, is_valid-Fits, is_valid_of, in_pages,
}

-- The space with these regions instead.
abbrev pub with_regions : AddrSpace → List (Entry MapInfo) → AddrSpace
with_regions s m = record s { regions = m }

-- The two spaces differ at most in the pages of a range, where `v` holds afterwards.
pub record Changed (s : AddrSpace) (start pages : ℕ) (v : Option MapInfo) (s' : AddrSpace)
    : Type 0 where
  pub space : IsSpace s'
  pub same_base : s'.base ≡ s.base
  pub same_len : s'.len ≡ s.len
  pub same_size : s'.p2pagesize ≡ s.p2pagesize
  pub pages_now :
      (page : ℕ) → page_info s' page ≡ (if in_pages start pages page then v else page_info s page)

module _ {s : AddrSpace} (h : IsSpace s) (start pages : ℕ) where
  remove-Changed :
      Changed s start pages none (with_regions s (RangeMap.remove start (start + pages) s.regions))
  remove-Changed =
      let lem = λ (k : ℕ). value_at-remove s.regions start (start + pages) k h.ordered in
      record {
        space = record {
          ordered = (lem 0).0;
          inside = λ page info e. h.inside page info (ground (arith, (lem page).1, e));
          fits = h.fits;
        };
        same_base = refl;
        same_len = refl;
        same_size = refl;
        pages_now = λ page. (lem page).1;
      }

  pub put_range-Changed :
      (info : MapInfo)
      → Fits s start pages
      → Changed s start pages (some info) (put_range s start pages info)
  put_range-Changed info f =
      let lem = λ (k : ℕ).
        value_at-insert eq_info eq_info_sound s.regions start (start + pages) k info h.ordered in
      record {
        space = record {
          ordered = (lem 0).0;
          inside = λ page i e. elim (Bool-cases (in_pages start pages page)) [
            | inl at ↦ (ground arith, ground arith)
            | inr out ↦ h.inside page i (ground (arith, (lem page).1, e))
          ];
          fits = h.fits;
        };
        same_base = refl;
        same_len = refl;
        same_size = refl;
        pages_now = λ page. (lem page).1;
      }

-- Whether a request for `[addr, addr + len)` is refused.
abbrev pub refuses : AddrSpace → ℕ → ℕ → Bool
refuses s addr len =
    not (addr % page_size s == 0)
    || len == 0
    || to_page_ceil s len == 0
    || not (is_valid s (to_page s addr) (to_page_ceil s len))

pub refuses-Fits :
    (s : AddrSpace) (addr len : ℕ)
    → refuses s addr len ≡ false
    → Fits s (to_page s addr) (to_page_ceil s len)
refuses-Fits s addr len e = is_valid-Fits s (to_page s addr) (to_page_ceil s len) (ground arith)

-- The update function is told the part of each entry that lies in the range: of entries that rise,
-- each meet the range, and say in it what the map says.
pub record Told (s : AddrSpace) (addr len : ℕ) (us : List Update) : Type 0 where
  pub entries : List (Entry MapInfo)
  pub overlapping :
      Overlapping s.regions (to_page s addr) (to_page s addr + to_page_ceil s len) entries
  pub calls : us ≡ updates s (to_page s addr) (to_page s addr + to_page_ceil s len) entries

told_lem :
    (s : AddrSpace) (addr len : ℕ)
    → IsSpace s
    → Told s addr len (
        updates s (to_page s addr) (to_page s addr + to_page_ceil s len) (
          RangeMap.get_overlapping
            (to_page s addr)
            (to_page s addr + to_page_ceil s len)
            s.regions))
told_lem s addr len h = record {
  entries =
      RangeMap.get_overlapping (to_page s addr) (to_page s addr + to_page_ceil s len) s.regions;
  overlapping =
      get_overlapping-Overlapping s.regions (to_page s addr) (to_page s addr + to_page_ceil s len)
        h.ordered;
  calls = refl;
}

-- The ends of `unmap`.
pub data Unmapped (s : AddrSpace) (addr len : ℕ) : Error × List Update × AddrSpace → Type 0 where
  not_unmapped : refuses s addr len ≡ true → Unmapped s addr len (k_inval, [], s)
  unmapped :
      (us : List Update) (s' : AddrSpace)
      → refuses s addr len ≡ false
      → Told s addr len us
      → Changed s (to_page s addr) (to_page_ceil s len) none s'
      → Unmapped s addr len (k_ok, us, s')

-- In an address space in order, `unmap` refuses a range that is empty, unaligned or not inside the
-- space, and changes nothing; or it takes the mapping of exactly the pages of the range away, and
-- tells the update function the parts that were mapped. The space stays in order.
pub unmap-Unmapped :
    (s : AddrSpace) (addr len : ℕ) → IsSpace s → Unmapped s addr len (unmap s addr len)
unfolding unmap
unmap-Unmapped s addr len h = elim (Bool-cases (refuses s addr len)) [
  | inl bad ↦ rw bad (not_unmapped bad)
  | inr good ↦ rw good (
      unmapped _ _ good (told_lem s addr len h)
        (remove-Changed h (to_page s addr) (to_page_ceil s len)))
]

-- The ends of `map_at`.
pub data MappedAt (s : AddrSpace) (addr len : ℕ) (info : MapInfo)
    : Option ℕ × List Update × AddrSpace → Type 0 where
  not_mapped : refuses s addr len ≡ true → MappedAt s addr len info (none, [], s)
  mapped_at :
      (us : List Update) (s' : AddrSpace)
      → refuses s addr len ≡ false
      → Told s addr len us
      → Changed s (to_page s addr) (to_page_ceil s len) (some info) s'
      → MappedAt s addr len info (some addr, us, s')

Changed-twice :
    {s s' s'' : AddrSpace} {start pages : ℕ} {v w : Option MapInfo}
    → Changed s start pages v s'
    → Changed s' start pages w s''
    → Changed s start pages w s''
Changed-twice {start} {pages} c d = record {
  space = d.space;
  same_base = d.same_base ∙ c.same_base;
  same_len = d.same_len ∙ c.same_len;
  same_size = d.same_size ∙ c.same_size;
  pages_now = λ page. ground (arith, d.pages_now page, c.pages_now page);
}

-- In an address space in order, `map_at` never ends the process. It refuses a range that is empty,
-- unaligned or not inside the space, and changes nothing; or it gives exactly the pages of the range
-- the mapping, whatever was there before. The space stays in order.
pub map_at-MappedAt :
    (s : AddrSpace) (addr len : ℕ) (info : MapInfo)
    → IsSpace s
    → Returns (MappedAt s addr len info) (map_at s addr len info)
unfolding map_at
map_at-MappedAt s addr len info h = elim (Bool-cases (refuses s addr len)) [
  | inl bad ↦ rw bad (returns (not_mapped bad))
  | inr good ↦
      let start = to_page s addr in
      let pages = to_page_ceil s len in
      let f = refuses-Fits s addr len good in
      let c = remove-Changed h start pages in
      let s' = with_regions s (RangeMap.remove start (start + pages) s.regions) in
      let d = put_range-Changed c.space start pages info f in
      let valid : is_valid (put_range s' start pages info) start pages ≡ true =
        is_valid_of (put_range s' start pages info) start pages f in
      rw good (rw valid (returns (mapped_at _ _ good (told_lem s addr len h) (Changed-twice c d))))
]
