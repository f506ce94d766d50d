-- ===== src/Memory/Safety.antt =====
-- The memory calls of a process keep the rule on executable memory.
use lfi_runtime.Prelude.{
  ℕ, ◌≡◌, refl, false, not, Option, none, some, List, [], ◌∷◌, if◌then◌else◌, Bool-cases, inl, inr,
  Run, done, aborted, ◌>>=◌, ℤ, negsuc, neg,
}
use lfi_runtime.Host.{close, Trace, Oracle}
use lfi_runtime.Box.{Box, has, map_fixed}
use lfi_runtime.Box.Maps.{lfi_box_ptrvalid}
use lfi_runtime.Box.Session.{step, mapany, mapat, after_map}
use lfi_runtime.Box.WriteExec.{Verified}
use lfi_runtime.Box.Keeps.{Ensures, step-Ensures}
use lfi_runtime.Box.Safety.{StrictlyVerified, verified_keeps}
use lfi_runtime.Fd.{FdTable, fdacquire, fdrelease}
use lfi_runtime.Brk.{align_up}
use lfi_runtime.Memory.{
  MapResult, closes, finish_map, bad_file, proc_mapany, proc_mapat, at_address, mmap_error,
  sys_mmap, align_down,
}

-- The rule holds of the trace after a call that does not abort.
abbrev pub EndsVerified : Oracle → Run MapResult → Type 0
EndsVerified o (done (code, a, box, t)) = Verified o t
EndsVerified o aborted = Unit

closes-Verified : (o : Oracle) (ks : List ℕ) (t : Trace) → Verified o t → Verified o (closes ks t)
closes-Verified o [] t h = h
closes-Verified o (k ∷ ks) t h = closes-Verified o ks (close k ∷ t) (tt, h)

module _ (o : Oracle) (dup : Option ℕ) (fds : FdTable) (box : Box) where
  finish_map-Verified :
      (kfd : ℤ) (r : Run (Option ℕ × Box × Trace))
      → Ensures (StrictlyVerified o) box.opts (after_map r)
      → EndsVerified o (r >>= λ r. done (finish_map fds kfd r))
  finish_map-Verified kfd (done (none, box', t)) h = closes-Verified o (fdrelease fds kfd) t h.1.1
  finish_map-Verified kfd (done (some a, box', t)) h = closes-Verified o (fdrelease fds kfd) t h.1.1
  finish_map-Verified kfd aborted h = tt

  at_address-Verified :
      (addr : ℕ) (r : Run MapResult)
      → EndsVerified o r
      → EndsVerified o (r >>= λ r. done (at_address addr r))
  at_address-Verified addr (done (code, a, box', t)) h = h
  at_address-Verified addr aborted h = tt

  module _ (prot flags : ℕ) (fd off : ℤ) (t : Trace) (strict : box.opts.no_verify ≡ false)
      (h : Verified o t) where
    proc_mapany-Verified :
        (size : ℕ) → EndsVerified o (proc_mapany o dup fds box size prot flags fd off t)
    unfolding proc_mapany step
    proc_mapany-Verified size = elim (Bool-cases (bad_file fd (fdacquire dup fds fd).0)) [
      | inl bad ↦ rw bad (closes-Verified o (fdrelease fds (fdacquire dup fds fd).0) t h)
      | inr good ↦ rw good (
          finish_map-Verified (fdacquire dup fds fd).0 _ (
            step-Ensures (StrictlyVerified o) (verified_keeps o)
              (mapany size prot flags (fdacquire dup fds fd).0 off) box t refl (strict, h)))
    ]

    proc_mapat-Verified :
        (start size : ℕ) → EndsVerified o (proc_mapat o dup fds box start size prot flags fd off t)
    unfolding proc_mapat step
    proc_mapat-Verified start size = elim (Bool-cases (bad_file fd (fdacquire dup fds fd).0)) [
      | inl bad ↦ rw bad (closes-Verified o (fdrelease fds (fdacquire dup fds fd).0) t h)
      | inr good ↦ rw good (
          finish_map-Verified (fdacquire dup fds fd).0 _ (
            step-Ensures (StrictlyVerified o) (verified_keeps o)
              (mapat start size prot flags (fdacquire dup fds fd).0 off) box t refl (strict, h)))
    ]

-- In a sandbox whose verification is on, where the host calls so far obey the rule that nothing is
-- executable before its bytes are verified, the host calls of `sys_mmap` obey it too, for any
-- arguments of the sandbox, the descriptor of a file included, unless the call aborts.
pub sys_mmap-Verified :
    (o : Oracle) (dup : Option ℕ) (fds : FdTable) (box : Box) (addrp length prot flags : ℕ)
    (fd off : ℤ) (t : Trace)
    → box.opts.no_verify ≡ false
    → Verified o t
    → EndsVerified o (sys_mmap o dup fds box addrp length prot flags fd off t)
unfolding sys_mmap
sys_mmap-Verified o dup fds box addrp length prot flags fd off t strict h =
    go (mmap_error box.opts.pagesize length prot flags)
  where
    mapped :
        (at size : ℕ)
        → EndsVerified o (
            if has flags map_fixed
            then (if not (lfi_box_ptrvalid box at)
                then done (negsuc 0, none, box, t)
                else (proc_mapat o dup fds box at size prot flags fd off t >>= λ r.
                    done (at_address at r)))
            else proc_mapany o dup fds box size prot flags fd off t)
    mapped at size = elim (Bool-cases (has flags map_fixed)) [
      | inl fixed ↦ rw fixed (elim (Bool-cases (lfi_box_ptrvalid box at)) [
        | inl valid ↦ rw valid (
            at_address-Verified o dup fds box at _
              (proc_mapat-Verified o dup fds box prot flags fd off t strict h at size))
        | inr bad ↦ rw bad h
      ])
      | inr any ↦ rw any (proc_mapany-Verified o dup fds box prot flags fd off t strict h size)
    ]

    go :
        (e : Option ℕ)
        → EndsVerified o (elim e as (λ x. Run MapResult) [
          | some e ↦ done (neg e, none, box, t)
          | none ↦
              if has flags map_fixed
              then (if not (lfi_box_ptrvalid box (align_down addrp box.opts.pagesize))
                  then done (negsuc 0, none, box, t)
                  else (proc_mapat o dup fds box
                        (align_down addrp box.opts.pagesize)
                        (align_up length box.opts.pagesize)
                        prot
                        flags
                        fd
                        off
                        t
                      >>= λ r. done (at_address (align_down addrp box.opts.pagesize) r)))
              else proc_mapany o dup fds box (align_up length box.opts.pagesize) prot flags fd off t
        ])
    go none = mapped (align_down addrp box.opts.pagesize) (align_up length box.opts.pagesize)
    go (some e) = h
