-- ===== src/AddrSpace.antt =====
-- core/mmap/mmap.cpp and addr_space.h: the map of a sandbox's pages, and where a new mapping goes.
-- Pages are numbers; `run` of a call that ends in `std::terminate` is `aborted`.
pub mod View
pub mod Change
pub mod Protect
pub mod Search
pub mod Any
pub mod Tests
use Prim.Native.Nat.{bit_xor}
use lfi_runtime.Prelude.{
  ℕ, zero, suc, ◌+◌, ◌-◌, ◌/◌, ◌%◌, ◌^◌, Bool, true, false, not, ◌&&◌, ◌||◌, Option, none, some,
  List, [], ◌∷◌, if◌then◌else◌, ◌==◌, ltb, leb, Run, done, ◌>>◌, assert, add64, sub64, mul64, ℤ,
  pos, negsuc, bit_and,
}
use lfi_runtime.RangeMap
use lfi_runtime.RangeMap.{Entry}

pub record MapInfo : Type 0 where
  pub prot : ℕ
  pub flags : ℕ
  pub fd : ℤ
  pub offset : ℤ

pub eq_int : ℤ → ℤ → Bool
eq_int (pos a) (pos b) = a == b
eq_int (negsuc a) (negsuc b) = a == b
eq_int (pos a) (negsuc b) = false
eq_int (negsuc a) (pos b) = false

-- `MapInfo::operator==`
pub eq_info : MapInfo → MapInfo → Bool
eq_info a b = a.prot == b.prot && a.flags == b.flags && eq_int a.fd b.fd && eq_int a.offset b.offset

pub data Error : Type 0 where
  k_ok k_inval k_no_mem : Error

pub record AddrSpace : Type 0 where
  pub base : ℕ
  pub len : ℕ
  pub p2pagesize : ℕ
  pub aslr : Bool
  pub rand_state : ℕ
  pub regions : List (Entry MapInfo)

abbrev pub page_size : AddrSpace → ℕ
page_size s = 2 ^ s.p2pagesize

unfoldable pub to_page : AddrSpace → ℕ → ℕ
to_page s addr = addr / page_size s

unfoldable pub to_page_ceil : AddrSpace → ℕ → ℕ
to_page_ceil s len =
    if len % page_size s == 0 then len / page_size s else add64 (len / page_size s) 1

unfoldable pub to_addr : AddrSpace → ℕ → ℕ
to_addr s page = mul64 page (page_size s)

unfoldable pub is_valid : AddrSpace → ℕ → ℕ → Bool
is_valid s start len =
    if ltb start s.base
    then false
    else if ltb s.len (start - s.base)
    then false
    else leb len (s.len - (start - s.base))

-- the check that ends in `std::terminate`
abbrev pub check_in_region : AddrSpace → ℕ → ℕ → Run (Unit {0})
check_in_region s addr len = assert (is_valid s (to_page s addr) (to_page_ceil s len))

-- `while (p >>= 1) p2pagesize_++`
pub log_loop : ℕ → ℕ → ℕ → ℕ
log_loop zero p n = n
log_loop (suc fuel) p n = elim (p / 2 == 0) [ true ↦ n | false ↦ log_loop fuel (p / 2) (n + 1) ]

abbrev pub blank : ℕ → AddrSpace
blank k = record { base = 0; len = 0; p2pagesize = k; aslr = false; rand_state = 0; regions = [] }

-- `none` where the page size is no power of two. A word has 64 bits, so 64 rounds are enough.
unfoldable pub init : ℕ → ℕ → ℕ → Option AddrSpace
unfolding log_loop
init start len pagesize =
    if pagesize == 0 || not (bit_and pagesize (pagesize - 1) == 0)
    then none
    else (let s = blank (log_loop 64 pagesize 0) in
        some (record s { base = to_page s start; len = to_page_ceil s len }))

pub reset : AddrSpace → AddrSpace
reset s = record s { regions = RangeMap.clear s.regions }

unfoldable pub enable_aslr : AddrSpace → ℕ → AddrSpace
enable_aslr s seed = record s { aslr = true; rand_state = seed }

-- splitmix64
pub mix : ℕ → ℕ → ℕ → ℕ
mix z shift factor = mul64 (bit_xor z (z / 2 ^ shift)) factor

pub next_rand : AddrSpace → ℕ × AddrSpace
next_rand s =
    let z = add64 s.rand_state 0x9E3779B97F4A7C15 in
    let z' = mix (mix z 30 0xBF58476D1CE4E5B9) 27 0x94D049BB133111EB in
    (bit_xor z' (z' / 2 ^ 31), record s { rand_state = z })

pub rand_below : AddrSpace → ℕ → ℕ × AddrSpace
rand_below s n = let (r, s') = next_rand s in (r % n, s')

-- Without randomization the first gap that is large enough.
pub first_gap : ℕ → List (ℕ × ℕ) → Option ℕ
first_gap pages [] = none
first_gap pages ((lo, hi) ∷ gaps) =
    let rest = first_gap pages gaps in if leb pages (hi - lo) then some lo else rest

-- the number of positions at which `pages` pages fit
pub positions : ℕ → List (ℕ × ℕ) → ℕ
positions pages [] = 0
positions pages ((lo, hi) ∷ gaps) =
    (if leb pages (hi - lo) then hi - lo - pages + 1 else 0) + positions pages gaps

pub nth_position : ℕ → ℕ → List (ℕ × ℕ) → Option ℕ
nth_position pages idx [] = none
nth_position pages idx ((lo, hi) ∷ gaps) =
    let next = nth_position pages (idx - (hi - lo - pages + 1)) gaps in
    let skip = nth_position pages idx gaps in
    if ltb (hi - lo) pages
    then skip
    else if ltb idx (hi - lo - pages + 1)
    then some (lo + idx)
    else next

unfoldable pub find_free : AddrSpace → ℕ → Option ℕ × AddrSpace
unfolding first_gap positions nth_position rand_below next_rand mix
find_free s pages =
    let gaps = RangeMap.get_gaps s.base (s.base + s.len) s.regions in
    if not s.aslr
    then (first_gap pages gaps, s)
    else (let total = positions pages gaps in
        if total == 0
        then (none, s)
        else (let (idx, s') = rand_below s total in (nth_position pages idx gaps, s')))

-- a call of the `UpdateFn`: the address, the number of bytes, and the value of the entry
abbrev pub Update : Type 0
Update = ℕ × ℕ × MapInfo

abbrev pub larger : ℕ → ℕ → ℕ
larger a b = if ltb a b then b else a

abbrev pub smaller : ℕ → ℕ → ℕ
smaller a b = if ltb b a then b else a

-- the part of an entry inside `[start, stop)`, as the update function is told
unfoldable pub clip : AddrSpace → ℕ → ℕ → Entry MapInfo → Update
clip s start stop e =
    let cs = larger e.start start in
    let ce = smaller e.stop stop in (to_addr s cs, sub64 (to_addr s ce) (to_addr s cs), e.val)

unfoldable pub updates : AddrSpace → ℕ → ℕ → List (Entry MapInfo) → List Update
updates s start stop [] = []
updates s start stop (e ∷ es) = clip s start stop e ∷ updates s start stop es

abbrev pub put_range : AddrSpace → ℕ → ℕ → MapInfo → AddrSpace
put_range s start pages info = record s {
  regions = RangeMap.insert eq_info start (start + pages) info s.regions;
}

-- `none` is `(uintptr_t) -1`. `hint` is 0 in every call of the runtime.
unfoldable pub map_any : AddrSpace → ℕ → ℕ → MapInfo → Run (Option ℕ × AddrSpace)
unfolding find_free is_valid to_page to_page_ceil to_addr eq_info eq_int
map_any s hint len info =
    let pages = to_page_ceil s len in
    let start = to_page s hint in
    let hinted = put_range s start pages info in
    let searched = find_free s pages in
    if len == 0 || pages == 0
    then done (none, s)
    else if not (hint == 0)
        && hint % page_size s == 0
        && is_valid s start pages
        && not (RangeMap.overlaps start (start + pages) s.regions)
    then (check_in_region hinted (to_addr s start) len >> done (some (to_addr s start), hinted))
    else elim searched.0 [
      | none ↦ done (none, searched.1)
      | some at ↦
          check_in_region searched.1 (to_addr s at) len
          >> done (some (to_addr s at), put_range searched.1 at pages info)
    ]

-- the error, the calls of the update function, and the map after the call
unfoldable pub unmap : AddrSpace → ℕ → ℕ → Error × List Update × AddrSpace
unfolding updates clip is_valid to_page to_page_ceil to_addr
unmap s addr len =
    let start = to_page s addr in
    let pages = to_page_ceil s len in
    if not (addr % page_size s == 0) || len == 0 || pages == 0 || not (is_valid s start pages)
    then (k_inval, [], s)
    else (
      k_ok,
      updates s start (start + pages) (RangeMap.get_overlapping start (start + pages) s.regions),
      record s { regions = RangeMap.remove start (start + pages) s.regions },
    )

unfoldable pub map_at : AddrSpace → ℕ → ℕ → MapInfo → Run (Option ℕ × List Update × AddrSpace)
unfolding unmap is_valid to_page to_page_ceil eq_info eq_int
map_at s addr len info =
    let start = to_page s addr in
    let pages = to_page_ceil s len in
    let (e, calls, s') = unmap s addr len in
    if not (addr % page_size s == 0) || len == 0 || pages == 0 || not (is_valid s start pages)
    then done (none, [], s)
    else (check_in_region (put_range s' start pages info) addr len
        >> done (some addr, calls, put_range s' start pages info))

unfoldable pub query_page : AddrSpace → ℕ → Option MapInfo
unfolding to_page
query_page s addr = elim (RangeMap.find (to_page s addr) s.regions) [
  | none ↦ none
  | some e ↦ some e.val
]

-- one round of the loop of `protect`
pub protect_entry : ℕ → ℕ → ℕ → Entry MapInfo → List (Entry MapInfo) → List (Entry MapInfo)
protect_entry start stop prot e m =
    let cs = larger e.start start in
    let ce = smaller e.stop stop in
    let info : MapInfo = record (e.val) { prot = prot } in
    RangeMap.insert eq_info cs ce info (RangeMap.remove cs ce m)

pub protect_loop : ℕ → ℕ → ℕ → List (Entry MapInfo) → List (Entry MapInfo) → List (Entry MapInfo)
protect_loop start stop prot [] m = m
protect_loop start stop prot (e ∷ es) m =
    protect_loop start stop prot es (protect_entry start stop prot e m)

-- The runtime hands no update function to `protect`.
unfoldable pub protect : AddrSpace → ℕ → ℕ → ℕ → Error × AddrSpace
unfolding protect_loop protect_entry is_valid to_page to_page_ceil eq_info eq_int
protect s addr len prot =
    let start = to_page s addr in
    let pages = to_page_ceil s len in
    if not (addr % page_size s == 0) || len == 0 || pages == 0 || not (is_valid s start pages)
    then (k_inval, s)
    else (
      k_ok,
      record s {
        regions =
            protect_loop start (start + pages) prot
              (RangeMap.get_overlapping start (start + pages) s.regions) s.regions;
      },
    )
