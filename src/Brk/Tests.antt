-- ===== src/Brk/Tests.antt =====
-- The theorem on linux/sys/sys_brk.c at a small sandbox.
use native.Mathlib.Omega.{arith}
use lfi_runtime.Prelude.{true, false, some, []}
use lfi_runtime.Host.{mmap, Oracle}
use lfi_runtime.Box.{Box}
use lfi_runtime.Brk.{Break, sys_brk}
use lfi_runtime.Brk.Limit.{IsBreak, Broke, sys_brk-Broke}

abbrev small_box : Box
small_box = record {
  base = 65_536;
  size = 65_536;
  min = 69_632;
  max = 131_072;
  max_exec = 131_072;
  mm = record { base = 17; len = 15; p2pagesize = 12; aslr = false; rand_state = 0; regions = [] };
  retaddr = 0;
  opts = record {
    pagesize = 4096;
    boxsize = 65_536;
    no_verify = false;
    allow_wx = false;
    no_aslr = true;
  };
}

-- A host that maps where it is asked to.
abbrev obliging : Oracle
obliging t (mmap addr len prot flags fd off) = some addr
obliging t call = some 1

abbrev start : Break
start = record { brkbase = 73_728; brksize = 0 }

start-IsBreak : IsBreak start 16_384 4096
start-IsBreak = record { inside = omega arith; some_page = omega arith; no_wrap = omega arith }

sys_brk-Broke_example :
    Broke obliging start small_box 16_384 80_000 []
      (sys_brk obliging start small_box 16_384 80_000 [])
sys_brk-Broke_example = sys_brk-Broke obliging start small_box 16_384 80_000 [] start-IsBreak
