-- ===== src/Thread/Tests.antt =====
-- The theorem on linux/thread.c at a stack of 16 KiB.
use native.Mathlib.Omega.{arith}
use lfi_runtime.Prelude.{false, [], ◌∷◌, Returns}
use lfi_runtime.AddrSpace
use lfi_runtime.Box.{Box}
use lfi_runtime.Thread.{stack_init}
use lfi_runtime.Thread.Stack.{InStack, stack_init-InStack}

abbrev box : Box
box = record {
  base = 65_536;
  size = 65_536;
  min = 69_632;
  max = 131_072;
  max_exec = 131_072;
  mm = AddrSpace.blank 0;
  retaddr = 0;
  opts = record {
    pagesize = 4096;
    boxsize = 65_536;
    no_verify = false;
    allow_wx = false;
    no_aslr = false;
  };
}

stack_init-InStack_example :
    Returns
      (InStack 69_632 16_384)
      (stack_init box 69_632 16_384 2 (7 ∷ 3000 ∷ []) (20 ∷ []) 777 [])
stack_init-InStack_example =
    stack_init-InStack box 69_632 16_384 2 (7 ∷ 3000 ∷ []) (20 ∷ []) 777 [] (omega arith)
      (omega arith, omega arith) (omega arith) tt
