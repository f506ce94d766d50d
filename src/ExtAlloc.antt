-- ===== src/ExtAlloc.antt =====
-- core/extalloc.c: the extent allocator. A bit vector has one bit for each chunk of an address
-- range, the highest bit of a byte first. `assert` aborts, as in a build without NDEBUG; the bytes
-- of the vector are the list, and `malloc` and `calloc` answer by the Booleans handed to
-- `extalloc_new`. A loop recurs on the rounds that are left, so it needs no fuel. The theorems
-- that say when an index is in range are in the children.
pub mod Bits
pub mod Find
pub mod Alloc
pub mod Extents
pub mod Apart
pub mod Tests
use lfi_runtime.Prelude.{
  ℕ, zero, suc, ◌+◌, ◌-◌, ◌/◌, ◌%◌, Bool, true, false, not, ◌&&◌, ◌||◌, Option, none, some, List,
  if◌then◌else◌, ◌==◌, get_or, set, replicate, Run, done, aborted, ◌>>=◌, ◌>>◌, assert, add64,
  sub64, mul64,
}
use lfi_runtime.Prelude.Bytes.{bit_at, set_bit, clear_bit}

-- `base` and `size` count chunks.
pub record ExtAlloc : Type 0 where
  pub base : ℕ
  pub size : ℕ
  pub chunksize : ℕ
  pub bitvec : List ℕ

-- `none` is NULL
unfoldable pub extalloc_new : Bool → Bool → ℕ → ℕ → ℕ → Run (Option ExtAlloc)
extalloc_new malloc_ok calloc_ok base size chunksize = do
  assert (base % chunksize == 0)
  assert (size % chunksize == 0)
  if not malloc_ok
      then done none
      else if not calloc_ok
      then done none
      else done (
          some (record {
            base = base / chunksize;
            size = size / chunksize;
            chunksize = chunksize;
            bitvec = replicate (add64 (size / chunksize / 8) 1) 0;
          }))

unfoldable pub bit : List ℕ → ℕ → ℕ
bit bitvec i = bit_at (get_or bitvec (i / 8) 0) (7 - i % 8)

-- The loop of `bitvec_find_zeroes`; `none` is -1.
unfoldable pub find_zeroes_from : List ℕ → ℕ → ℕ → ℕ → ℕ → Option ℕ
find_zeroes_from bitvec n zero i count = none
find_zeroes_from bitvec n (suc k) i count = elim (bit bitvec i == 0) [
  | true ↦ elim (count + 1 == n) [
    | true ↦ some (add64 (sub64 i n) 1)
    | false ↦ find_zeroes_from bitvec n k (i + 1) (count + 1)
  ]
  | false ↦ find_zeroes_from bitvec n k (i + 1) 0
]

unfoldable pub bitvec_find_zeroes : List ℕ → ℕ → ℕ → Option ℕ
bitvec_find_zeroes bitvec nbits n =
    if n == 0 || nbits == 0 then none else find_zeroes_from bitvec n nbits 0 0

-- the body of the loop of `bitvec_set`
unfoldable pub write_bit : List ℕ → ℕ → Bool → List ℕ
write_bit bitvec at val = set bitvec (at / 8) (
    if val
    then set_bit (get_or bitvec (at / 8) 0) (7 - at % 8)
    else clear_bit (get_or bitvec (at / 8) 0) (7 - at % 8))

unfoldable pub bitvec_set_from : List ℕ → ℕ → ℕ → ℕ → Bool → List ℕ
bitvec_set_from bitvec start zero i val = bitvec
bitvec_set_from bitvec start (suc k) i val =
    bitvec_set_from (write_bit bitvec (add64 start i) val) start k (i + 1) val

unfoldable pub bitvec_set : List ℕ → ℕ → ℕ → Bool → List ℕ
bitvec_set bitvec start length val =
    if length == 0 then bitvec else bitvec_set_from bitvec start length 0 val

unfoldable pub chunks_ceil : ℕ → ℕ → ℕ
chunks_ceil n chunksize = sub64 (add64 n chunksize) 1 / chunksize

-- the loop of `extalloc_is_full`
unfoldable pub full_from : List ℕ → ℕ → ℕ → Bool
full_from bitvec zero i = true
full_from bitvec (suc k) i = if not (bit bitvec i == 1) then false else full_from bitvec k (i + 1)

unfoldable pub extalloc_is_full : ExtAlloc → Bool
extalloc_is_full a = full_from a.bitvec a.size 0

-- the end of `extalloc_alloc`, from the answer of `bitvec_find_zeroes`
unfoldable pub take_run : ExtAlloc → ℕ → Option ℕ → ℕ × ExtAlloc
take_run a n none = (0, a)
take_run a n (some idx) =
    (mul64 (add64 a.base idx) a.chunksize, record a { bitvec = bitvec_set a.bitvec idx n true })

-- the address, 0 where there is no room, and the allocator after the call
unfoldable pub extalloc_alloc : ExtAlloc → ℕ → Run (ℕ × ExtAlloc)
extalloc_alloc a n = do
  assert (n % a.chunksize == 0)
  let n = chunks_ceil n a.chunksize
  done (take_run a n (bitvec_find_zeroes a.bitvec a.size n))

unfoldable pub extalloc_allocat : ExtAlloc → ℕ → ℕ → Run ExtAlloc
extalloc_allocat a at n = do
  assert (at % a.chunksize == 0)
  assert (n % a.chunksize == 0)
  let at = at / a.chunksize
  let n = chunks_ceil n a.chunksize
  done (record a { bitvec = bitvec_set a.bitvec (sub64 at a.base) n true })

unfoldable pub extalloc_free : ExtAlloc → ℕ → ℕ → Run ExtAlloc
extalloc_free a at n = do
  assert (at % a.chunksize == 0)
  assert (n % a.chunksize == 0)
  let at = at / a.chunksize
  let n = chunks_ceil n a.chunksize
  done (record a { bitvec = bitvec_set a.bitvec (sub64 at a.base) n false })
