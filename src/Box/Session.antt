-- ===== src/Box/Session.antt =====
-- A sandbox in use: any sequence of the mapping operations of core/box.c, as one function over
-- the list of its requests.
use lfi_runtime.Prelude.{ℕ, Bool, true, false, Option, List, [], ◌∷◌, ℤ, Run, done, ◌>>=◌}
use lfi_runtime.Host.{Trace, Oracle}
use lfi_runtime.Box.{Box}
use lfi_runtime.Box.Maps.{
  lfi_box_mapany, lfi_box_mapany_noverify, lfi_box_mapat, lfi_box_mapat_register, lfi_box_mprotect,
  lfi_box_mprotect_noverify, lfi_box_munmap,
}

-- A request of the sandbox's owner.
pub data Op : Type 0 where
  mapany : ℕ → ℕ → ℕ → ℤ → ℤ → Op
  mapat : ℕ → ℕ → ℕ → ℕ → ℤ → ℤ → Op
  mapat_register : ℕ → ℕ → ℕ → ℕ → ℤ → ℤ → Op
  mprotect : ℕ → ℕ → ℕ → Op
  munmap : ℕ → ℕ → Op
  mapany_noverify : ℕ → ℕ → ℕ → ℤ → ℤ → Op
  mprotect_noverify : ℕ → ℕ → ℕ → Op

-- The requests that skip verification are the runtime's own, for code that it writes itself.
abbrev pub checks : Op → Bool
checks (mapany_noverify size prot flags fd off) = false
checks (mprotect_noverify addr size prot) = false
checks _ = true

abbrev pub after_map : Run (Option ℕ × Box × Trace) → Run (Box × Trace)
after_map r = r >>= λ (a, box, t). done (box, t)

abbrev pub after_call : ℤ × Box × Trace → Run (Box × Trace)
after_call (code, box, t) = done (box, t)

unfoldable pub step : Oracle → Op → Box × Trace → Run (Box × Trace)
step o (mapany size prot flags fd off) (box, t) =
    after_map (lfi_box_mapany o box size prot flags fd off t)
step o (mapat addr size prot flags fd off) (box, t) =
    after_map (lfi_box_mapat o box addr size prot flags fd off t)
step o (mapat_register addr size prot flags fd off) (box, t) =
    after_map (lfi_box_mapat_register o box addr size prot flags fd off t)
step o (mprotect addr size prot) (box, t) = after_call (lfi_box_mprotect o box addr size prot t)
step o (munmap addr size) (box, t) = after_call (lfi_box_munmap o box addr size t)
step o (mapany_noverify size prot flags fd off) (box, t) =
    after_map (lfi_box_mapany_noverify o box size prot flags fd off t)
step o (mprotect_noverify addr size prot) (box, t) =
    after_call (lfi_box_mprotect_noverify o box addr size prot t)

unfoldable pub session : Oracle → List Op → Box × Trace → Run (Box × Trace)
session o [] s = done s
session o (op ∷ ops) s = step o op s >>= session o ops
