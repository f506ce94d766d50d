-- ===== src/Box.antt =====
-- core/box.c and the constants of core/core.h: a sandbox, its bounds, and the mappings inside it.
-- The build without protection keys (HAVE_PKU) and, for the return code, the x64 one. A lock that
-- an entry point holds for its whole body makes it one step, so the locks are not in the model.
-- `int` flags and protections are their bit patterns.
pub mod Maps
pub mod New
pub mod Access
pub mod WriteExec
pub mod Session
pub mod Keeps
pub mod Safety
pub mod Bounds
pub mod Inside
pub mod Stays
pub mod StaysMap
pub mod StaysCall
pub mod Contained
pub mod Tests
use lfi_runtime.Prelude.{
  ℕ, zero, suc, ◌+◌, ◌-◌, ◌*◌, ◌/◌, ◌%◌, ◌^◌, Bool, true, false, not, ◌&&◌, ◌||◌, Option, none,
  some, List, [], ◌∷◌, if◌then◌else◌, ◌==◌, ltb, leb, Run, done, aborted, ◌>>=◌, ◌>>◌, assert,
  add64, sub64, mul64, ℤ, pos, negsuc, bit_and, bit_or,
}
use lfi_runtime.Host.{
  HostProt, HostFlags, Call, mmap, munmap, mprotect, lfiv_verify, malloc, Trace, Oracle, ask,
  prot_none, prot_read, anon_fixed,
}
use lfi_runtime.AddrSpace
use lfi_runtime.AddrSpace.{AddrSpace, MapInfo, Error, k_ok, k_inval, k_no_mem, Update}

pub record LfiOptions : Type 0 where
  pub pagesize : ℕ
  pub boxsize : ℕ
  pub no_verify : Bool
  pub allow_wx : Bool
  pub no_aslr : Bool

-- `struct LFIBox`, without what the other modules keep of it.
pub record Box : Type 0 where
  pub base : ℕ
  pub size : ℕ
  pub min : ℕ
  pub max : ℕ
  pub max_exec : ℕ
  pub mm : AddrSpace
  pub retaddr : ℕ
  pub opts : LfiOptions

-- LFI_PROT_* and LFI_MAP_*
abbrev pub prot_bit_read : ℕ
prot_bit_read = 1

abbrev pub prot_bit_write : ℕ
prot_bit_write = 2

abbrev pub prot_bit_exec : ℕ
prot_bit_exec = 4

abbrev pub map_shared : ℕ
map_shared = 1

abbrev pub map_private : ℕ
map_private = 2

abbrev pub map_fixed : ℕ
map_fixed = 16

abbrev pub map_anonymous : ℕ
map_anonymous = 32

-- `(flags & flag) != 0`
abbrev pub has : ℕ → ℕ → Bool
has flags flag = not (bit_and flags flag == 0)

pub host_prot : ℕ → HostProt
host_prot prot = record {
  read = has prot prot_bit_read;
  write = has prot prot_bit_write;
  exec = has prot prot_bit_exec;
}

pub host_flags : ℕ → HostFlags
host_flags flags = record {
  private = has flags map_private;
  anonymous = has flags map_anonymous;
  fixed = has flags map_fixed;
  shared = has flags map_shared;
}

abbrev pub is_some {ℓ} : {A : Type ℓ} → Option A → Bool
is_some none = false
is_some (some a) = true

-- `protectmem(...) == 0`
pub protectmem : Oracle → ℕ → ℕ → HostProt → Trace → Bool × Trace
protectmem o start size prot t =
    let call = mprotect start size prot in (is_some (o t call), call ∷ t)

pub mapmem : Oracle → ℕ → ℕ → ℕ → ℕ → ℤ → ℤ → Trace → Bool × Trace
mapmem o start size prot flags fd off t =
    let call =
      mmap start size (host_prot prot) (record (host_flags flags) { fixed = true }) fd off in
    (is_some (o t call), call ∷ t)

-- `lfiv_verify(...)`
pub verified : Oracle → ℕ → ℕ → Trace → Bool × Trace
verified o base size t = (is_some (o t (lfiv_verify base size)), lfiv_verify base size ∷ t)

-- The test that lets a mapping pass with no verification.
pub unchecked : LfiOptions → Bool → ℕ → Bool
unchecked opts no_verify prot =
    let allow_wx = opts.allow_wx && no_verify in
    let w = has prot prot_bit_write in
    let x = has prot prot_bit_exec in not x || (no_verify && not (w && x)) || allow_wx

pub is_wx : ℕ → Bool
is_wx prot = has prot prot_bit_write && has prot prot_bit_exec

-- `verify`: `true` where the region may have the protection.
unfoldable pub verify : Oracle → Box → ℕ → ℕ → ℕ → Trace → Bool × Trace
unfolding verified unchecked is_wx
verify o box base size prot t =
    if unchecked box.opts box.opts.no_verify prot
    then (true, t)
    else if is_wx prot
    then (false, t)
    else verified o base size t

-- the part of `protectverify` and `mapverify` behind the check
pub verify_then_protect : Oracle → ℕ → ℕ → ℕ → Trace → Bool × Trace
verify_then_protect o base size prot t =
    let (ok, t') = verified o base size t in
    if not ok then (false, t') else protectmem o base size (host_prot prot) t'

unfoldable pub protectverify : Oracle → Box → ℕ → ℕ → ℕ → Bool → Trace → Bool × Trace
unfolding verify_then_protect verified protectmem host_prot unchecked is_wx
protectverify o box base size prot no_verify t =
    let no_verify' = no_verify || box.opts.no_verify in
    if unchecked box.opts no_verify' prot
    then protectmem o base size (host_prot prot) t
    else if is_wx prot
    then (false, t)
    else verify_then_protect o base size prot (protectmem o base size prot_read t).1

unfoldable pub mapverify : Oracle → Box → ℕ → ℕ → ℕ → ℕ → ℤ → ℤ → Bool → Trace → Bool × Trace
unfolding verify_then_protect verified protectmem mapmem host_prot host_flags unchecked is_wx
mapverify o box start size prot flags fd off no_verify t =
    let no_verify' = no_verify || box.opts.no_verify in
    if unchecked box.opts no_verify' prot
    then mapmem o start size prot flags fd off t
    else if is_wx prot
    then (false, t)
    else (let (ok, t') = mapmem o start size prot_bit_read flags fd off t in
        if not ok then (false, t') else verify_then_protect o start size prot t')

-- `cbunmap`, for one call of the update function
unfoldable pub cbunmap : Oracle → Update → Trace → Trace
cbunmap o (start, len, info) t =
    let call = mmap start len prot_none anon_fixed (negsuc 0) (pos 0) in
    elim (o t call) [
      | some p ↦ if p == start then call ∷ t else mprotect start len prot_none ∷ call ∷ t
      | none ↦ mprotect start len prot_none ∷ call ∷ t
    ]

unfoldable pub cbunmap_all : Oracle → List Update → Trace → Trace
cbunmap_all o [] t = t
cbunmap_all o (u ∷ us) t = cbunmap_all o us (cbunmap o u t)
