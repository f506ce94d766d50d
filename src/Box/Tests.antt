-- ===== src/Box/Tests.antt =====
-- The theorems on core/box.c at a small sandbox.
use native.Mathlib.Omega.{arith}
use lfi_runtime.Prelude.{
  ◌≡◌, ◌↔◌, refl, true, false, none, some, List, [], ◌∷◌, pos, negsuc, ◌>>=◌, done, Returns,
}
use lfi_runtime.Host.{strnlen, copy_out, copy_in, mmap, Oracle}
use lfi_runtime.AddrSpace
use lfi_runtime.Box.{Box, LfiOptions}
use lfi_runtime.Box.Maps.{lfi_box_bufvalid}
use lfi_runtime.Box.Access.{lfi_box_copyfm, lfi_box_copyto, lfi_box_strnlen}
use lfi_runtime.Box.Session.{Op, mapany, mprotect, munmap, mapany_noverify, mapat, session}
use lfi_runtime.Box.WriteExec.{Verified, NoWx}
use lfi_runtime.Box.Safety.{Leaves, session-Verified, session-NoWx}
use lfi_runtime.Box.Inside.{IsBox}
use lfi_runtime.Box.Stays.{Stays}
use lfi_runtime.Box.Contained.{session-Stays}
use lfi_runtime.Box.Bounds.{
  InBox, lfi_box_bufvalid-InBox, Copies, lfi_box_copyfm-Copies, lfi_box_copyto-Copies, IsStrnlen,
  Measured, lfi_box_strnlen-Measured,
}

abbrev options : LfiOptions
options = record {
  pagesize = 4096;
  boxsize = 65_536;
  no_verify = false;
  allow_wx = false;
  no_aslr = true;
}

abbrev small_box : Box
small_box = record {
  base = 65_536;
  size = 65_536;
  min = 69_632;
  max = 131_072;
  max_exec = 131_072;
  mm = AddrSpace.blank 0;
  retaddr = 0;
  opts = options;
}

-- The same sandbox with an address map of 15 pages between its bounds.
abbrev paged_box : Box
paged_box = record small_box {
  mm = record { base = 17; len = 15; p2pagesize = 12; aslr = false; rand_state = 0; regions = [] };
}

paged_box-IsBox : IsBox paged_box
paged_box-IsBox = record {
  space = record {
    ordered = tt;
    inside = λ page info e. absurd (ground arith);
    fits = omega arith;
  };
  low = omega arith;
  high = omega arith;
  some_page = omega arith;
  aligned = refl;
  no_wrap = omega arith;
}

-- A host that maps where it is asked to, accepts all code, and finds only empty strings.
obliging : Oracle
obliging t (mmap addr len prot flags fd off) = some addr
obliging t (strnlen addr limit) = none
obliging t call = some 1

obliging-IsStrnlen : IsStrnlen obliging
unfolding obliging
obliging-IsStrnlen t a limit n e = absurd (ground arith)

-- map code, make it executable, unmap it
abbrev load : List Op
load = mapany 4096 3 34 (negsuc 0) (pos 0) ∷ mprotect 69_632 4096 5 ∷ munmap 69_632 4096 ∷ []

session-Verified_example : Leaves (Verified obliging) (session obliging load (paged_box, []))
session-Verified_example =
    session-Verified obliging load paged_box [] refl (refl, (refl, (refl, tt))) tt

abbrev trusted_load : List Op
trusted_load = mapany_noverify 4096 7 34 (negsuc 0) (pos 0) ∷ load

session-NoWx_example : Leaves NoWx (session obliging trusted_load (paged_box, []))
session-NoWx_example = session-NoWx obliging trusted_load paged_box [] refl tt

lfi_box_bufvalid-InBox_example :
    (lfi_box_bufvalid small_box 70_000 100 ≡ true) ↔ InBox small_box 70_000 100
lfi_box_bufvalid-InBox_example = lfi_box_bufvalid-InBox small_box 70_000 100 (omega arith)

lfi_box_copyfm-Copies_example :
    Copies small_box 70_000 100 (copy_out 70_000 100) [] (lfi_box_copyfm small_box 70_000 100 [])
lfi_box_copyfm-Copies_example = lfi_box_copyfm-Copies small_box 70_000 100 [] (omega arith)

lfi_box_copyto-Copies_example :
    Copies small_box 70_000 100
      (copy_in 70_000 100)
      []
      (lfi_box_copyto small_box 70_000 100 [] >>= λ (p, t'). done t')
lfi_box_copyto-Copies_example = lfi_box_copyto-Copies small_box 70_000 100 [] (omega arith)

lfi_box_strnlen-Measured_example :
    Measured small_box 131_000 100 [] (lfi_box_strnlen obliging small_box 131_000 100 [])
lfi_box_strnlen-Measured_example =
    lfi_box_strnlen-Measured obliging small_box 131_000 100 [] obliging-IsStrnlen (omega arith)

-- a request in the sandbox, then one past the upper bound
abbrev stray_load : List Op
stray_load = mapany 4096 3 34 (negsuc 0) (pos 0) ∷ mapat 126_976 8192 3 34 (negsuc 0) (pos 0) ∷ []

session-Stays_example : Returns (Stays paged_box) (session obliging stray_load (paged_box, []))
session-Stays_example =
    session-Stays obliging stray_load paged_box [] paged_box-IsBox (omega arith, (tt, tt)) tt
