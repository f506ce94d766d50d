-- ===== src/Box/Contained.antt =====
-- A sandbox in use (core/box.c) touches no memory outside its bounds, and never ends the process.
use lfi_runtime.Prelude.{
  ℕ, ◌<◌, true, false, Option, List, [], ◌∷◌, All, word, Run, Returns, returns, Returns-bind,
  Returns-map,
}
use lfi_runtime.Host.{Trace, Oracle}
use lfi_runtime.AddrSpace.{}
use lfi_runtime.AddrSpace.Change.{}
use lfi_runtime.Box.{Box}
use lfi_runtime.Box.Maps.{
  lfi_box_mapany, lfi_box_mapany_noverify, lfi_box_mapat, lfi_box_mprotect,
  lfi_box_mprotect_noverify, lfi_box_munmap,
}
use lfi_runtime.Box.Session.{
  Op, mapany, mapat, mapat_register, mprotect, munmap, mapany_noverify, mprotect_noverify, step,
  session, after_map,
}
use lfi_runtime.Box.Inside.{IsBox, CallsIn}
use lfi_runtime.Box.Stays.{Stays, unchanged, Stays-trans, MapStays}
use lfi_runtime.Box.StaysMap.{mapany-Stays, mapat-Stays, mapat_register-Stays}
use lfi_runtime.Box.StaysCall.{mprotect-Stays, munmap-Stays}

-- The size of a request is a machine word.
abbrev pub FitsWord : Op → Type 0
FitsWord (mapany size prot flags fd off) = size < word
FitsWord (mapany_noverify size prot flags fd off) = size < word
FitsWord _ = Unit

module _ (o : Oracle) (box : Box) (h : IsBox box) where
  after_map-Stays :
      (r : Run (Option ℕ × Box × Trace))
      → Returns (MapStays box) r
      → Returns (Stays box) (after_map r)
  after_map-Stays r k = Returns-bind k (λ a s. returns s)

  step-Stays :
      (op : Op) (t : Trace)
      → FitsWord op
      → CallsIn box.min box.max t
      → Returns (Stays box) (step o op (box, t))
  unfolding step lfi_box_mapany lfi_box_mapany_noverify lfi_box_mapat lfi_box_mprotect
      lfi_box_mprotect_noverify lfi_box_munmap
  step-Stays (mapany size prot flags fd off) t small c =
      after_map-Stays _ (mapany-Stays o box h size prot flags fd off false t small c)
  step-Stays (mapat addr size prot flags fd off) t small c =
      after_map-Stays _ (mapat-Stays o box h addr size prot flags fd off t c)
  step-Stays (mapat_register addr size prot flags fd off) t small c =
      after_map-Stays _ (mapat_register-Stays o box h addr size prot flags fd off t c)
  step-Stays (mprotect addr size prot) t small c =
      returns (mprotect-Stays o box h addr size prot false t c)
  step-Stays (munmap addr size) t small c = returns (munmap-Stays o box h addr size t c)
  step-Stays (mapany_noverify size prot flags fd off) t small c =
      after_map-Stays _ (mapany-Stays o box h size prot flags fd off true t small c)
  step-Stays (mprotect_noverify addr size prot) t small c =
      returns (mprotect-Stays o box h addr size prot true t c)

-- Take a sandbox whose address map is in order and lies between the bounds, where the upper bound is
-- a page boundary and a page behind it does not wrap, and host calls so far that touch no memory
-- outside the bounds. Any sequence of mapping requests, whatever their arguments (the sizes of the
-- requests for any place are machine words) and whatever the host answers, runs to its end with no
-- abort; no host call touches memory outside the bounds, which stay, and the box is in order again.
pub session-Stays :
    (o : Oracle) (ops : List Op) (box : Box) (t : Trace)
    → IsBox box
    → All FitsWord ops
    → CallsIn box.min box.max t
    → Returns (Stays box) (session o ops (box, t))
unfolding session
session-Stays o [] box t h small c = returns (unchanged box h, c)
session-Stays o (op ∷ ops) box t h small c =
    Returns-bind (step-Stays o box h op t small.0 c) (λ (box', t') stay.
      Returns-map (session-Stays o ops box' t' stay.0.is_box small.1 (inside box' t' stay))
        (λ r s. Stays-trans r stay.0 s))
  where
    inside : (box' : Box) (t' : Trace) → Stays box (box', t') → CallsIn box'.min box'.max t'
    inside box' t' s = rw (s.0.same_min, s.0.same_max) s.1
