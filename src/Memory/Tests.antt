-- ===== src/Memory/Tests.antt =====
-- The theorem on linux/sys/sys_mmap.c at a small sandbox.
use lfi_runtime.Prelude.{refl, true, false, none, some, [], pos, negsuc}
use lfi_runtime.Host.{mmap, Oracle}
use lfi_runtime.Box.{Box}
use lfi_runtime.Fd.{fdinit}
use lfi_runtime.Memory.{sys_mmap}
use lfi_runtime.Memory.Safety.{EndsVerified, sys_mmap-Verified}

abbrev small_box : Box
small_box = record {
  base = 65_536;
  size = 65_536;
  min = 69_632;
  max = 131_072;
  max_exec = 131_072;
  mm = record { base = 17; len = 15; p2pagesize = 12; aslr = false; rand_state = 0; regions = [] };
  retaddr = 0;
  opts = record {
    pagesize = 4096;
    boxsize = 65_536;
    no_verify = false;
    allow_wx = false;
    no_aslr = true;
  };
}

abbrev obliging : Oracle
obliging t (mmap addr len prot flags fd off) = some addr
obliging t call = some 1

-- anonymous, private and fixed, readable and executable
sys_mmap-Verified_example : EndsVerified obliging (
    sys_mmap obliging none
      (fdinit false (some 50) (some 51) (some 52))
      small_box
      73_728
      4096
      5
      50
      (negsuc 0)
      (pos 0)
      [])
sys_mmap-Verified_example =
    sys_mmap-Verified obliging none (fdinit false (some 50) (some 51) (some 52)) small_box 73_728
      4096 5 50 (negsuc 0) (pos 0) [] refl tt
