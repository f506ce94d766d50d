-- ===== src/Host.antt =====
-- The host system calls that core/ makes. Neither the kernel nor the verifier (lfi-verifier) is
-- part of the repository, so their answers are a parameter: an oracle that sees the calls made so
-- far and the call that is made. The calls are recorded, the latest first, so that a theorem can
-- speak of what the runtime asks of the host.
use lfi_runtime.Prelude.{ℕ, Bool, true, false, List, ◌∷◌, Option, ℤ}

-- The PROT_ and MAP_ flags of the host's headers, as sets.
pub record HostProt : Type 0 where
  pub read : Bool
  pub write : Bool
  pub exec : Bool

pub record HostFlags : Type 0 where
  pub shared : Bool
  pub private : Bool
  pub fixed : Bool
  pub anonymous : Bool

abbrev pub prot_none : HostProt
prot_none = record { read = false; write = false; exec = false }

abbrev pub prot_read : HostProt
prot_read = record { read = true; write = false; exec = false }

-- `MAP_ANONYMOUS | MAP_PRIVATE`, without and with `MAP_FIXED`
abbrev pub anon_private : HostFlags
anon_private = record { shared = false; private = true; fixed = false; anonymous = true }

abbrev pub anon_fixed : HostFlags
anon_fixed = record { shared = false; private = true; fixed = true; anonymous = true }

pub data Call : Type 0 where
  mmap : ℕ → ℕ → HostProt → HostFlags → ℤ → ℤ → Call
  munmap : ℕ → ℕ → Call
  mprotect : ℕ → ℕ → HostProt → Call
  lfiv_verify : ℕ → ℕ → Call
  malloc : Call
  mutex_init : Call
  memfd_create : Call
  ftruncate : ℕ → ℕ → Call
  close : ℕ → Call
  -- the C library on the sandbox's memory: `memcpy` from and to it, `memset`, `strnlen`
  copy_out : ℕ → ℕ → Call
  copy_in : ℕ → ℕ → Call
  memset : ℕ → ℕ → ℕ → Call
  strnlen : ℕ → ℕ → Call
  -- the old place of a mapping, its length, and its new place
  mremap : ℕ → ℕ → ℕ → Call

abbrev pub Trace : Type 0
Trace = List Call

-- `none` is the call's failure: MAP_FAILED, -1, NULL, or a region that does not verify.
abbrev pub Oracle : Type 0
Oracle = Trace → Call → Option ℕ

abbrev pub ask : Oracle → Call → Trace → Option ℕ × Trace
ask o c t = (o t c, c ∷ t)
