-- ===== src/AddrSpace/View.antt =====
-- What an address space of core/mmap says of a page, and what keeps one in order.
use native.Mathlib.Omega.{arith}
use native.Mathlib.Nat.{div-add-mod', mod-lt, add-mul, le-mul_of_pos_right}
use lfi_runtime.Prelude.{
  ℕ, zero, suc, ◌+◌, ◌*◌, ◌/◌, ◌%◌, ◌^◌, ◌≤◌, ◌<◌, ◌≡◌, refl, ◌∙◌, Bool, true, ◌&&◌, Option, none,
  some, ◌==◌, ltb, leb, Bool-cases, inl, inr, word, add64,
}
use lfi_runtime.RangeMap
use lfi_runtime.RangeMap.{Entry}
use lfi_runtime.RangeMap.View.{value_at, Ordered}
use lfi_runtime.RangeMap.Find.{found, found-find}
use lfi_runtime.AddrSpace.{
  AddrSpace, MapInfo, eq_int, eq_info, page_size, to_page, to_page_ceil, is_valid, query_page,
  reset,
}

pub eq_info_sound : (a b : MapInfo) → eq_info a b ≡ true → a ≡ b
unfolding eq_info eq_int
eq_info_sound a b e = ground (arith, a, b)

-- the mapping of a page
abbrev pub page_info : AddrSpace → ℕ → Option MapInfo
page_info s page = value_at page s.regions

-- The regions rise and do not meet, they lie in the space, and no address of the space wraps.
pub record IsSpace (s : AddrSpace) : Type 0 where
  pub ordered : Ordered 0 s.regions
  pub inside :
      (page : ℕ) (info : MapInfo)
      → page_info s page ≡ some info
      → (s.base ≤ page) × (page < s.base + s.len)
  pub fits : (s.base + s.len) * page_size s < word

pow-pos : (k : ℕ) → 0 < 2 ^ k
pow-pos zero = omega arith
pow-pos (suc k) = omega (arith, pow-pos k)

pub page_size-pos : (s : AddrSpace) → 0 < page_size s
page_size-pos s = pow-pos s.p2pagesize

-- In an address space in order, `query_page` gives the mapping of the page that the address lies in,
-- and fails where the page has none.
pub query_page-page_info :
    (s : AddrSpace) (addr : ℕ) → IsSpace s → query_page s addr ≡ page_info s (addr / page_size s)
unfolding query_page to_page
query_page-page_info s addr h =
    same (RangeMap.find (addr / page_size s) s.regions)
    ∙ found-find s.regions (addr / page_size s) h.ordered
  where
    same :
        (o : Option (Entry MapInfo))
        → elim o as (λ x. Option MapInfo) [ none ↦ none | some e ↦ some e.val ] ≡ found o
    same none = refl
    same (some e) = refl

-- `reset` leaves a space in order, with no page mapped.
reset-IsSpace :
    (s : AddrSpace) → IsSpace s → IsSpace (reset s) × ((page : ℕ) → page_info (reset s) page ≡ none)
unfolding reset RangeMap.clear
reset-IsSpace s h = (
  record { ordered = tt; inside = λ page info e. absurd (ground arith); fits = h.fits },
  λ page. refl,
)

-- The pages `[start, start + pages)` lie in the space.
abbrev pub Fits : AddrSpace → ℕ → ℕ → Type 0
Fits s start pages = (s.base ≤ start) × (start + pages ≤ s.base + s.len)

pub is_valid-Fits :
    (s : AddrSpace) (start pages : ℕ) → is_valid s start pages ≡ true → Fits s start pages
unfolding is_valid
is_valid-Fits s start pages e = ground arith

pub is_valid_of :
    (s : AddrSpace) (start pages : ℕ) → Fits s start pages → is_valid s start pages ≡ true
unfolding is_valid
is_valid_of s start pages h = ground arith

-- A range of pages gets a mapping, or loses it.
abbrev pub in_pages : ℕ → ℕ → ℕ → Bool
in_pages start pages page = leb start page && ltb page (start + pages)

-- The pages of a length hold its bytes.
pub to_page_ceil-le :
    (s : AddrSpace) (len : ℕ) → len < word → len ≤ to_page_ceil s len * page_size s
unfolding to_page_ceil
to_page_ceil-le s len small =
    let pg = page_size s in
    let q = len / pg in
    let whole = div-add-mod' len pg in
    let part = mod-lt len (page_size-pos s) in
    elim (Bool-cases (len % pg == 0)) [
      | inl exact ↦ rw exact (ground arith)
      | inr more ↦
          let le : q ≤ q * pg = le-mul_of_pos_right q (page_size-pos s) in
          let e : add64 q 1 ≡ q + 1 = ground arith in rw more (rw e (omega (arith, add-mul q 1 pg)))
    ]
