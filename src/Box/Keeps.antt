-- ===== src/Box/Keeps.antt =====
-- What every mapping operation of core/box.c keeps of the trace of host calls: a condition is
-- shown once for the primitive steps, and then holds of a whole session.
use native.Mathlib.Omega.{arith}
use lfi_runtime.Prelude.{
  ℕ, ◌≡◌, refl, Bool, true, false, not, Option, none, some, List, [], ◌∷◌, ℤ, pos, negsuc,
  if◌then◌else◌, Bool-cases, inl, inr, Run, done, aborted, ◌>>=◌, All, subst, sym,
}
use lfi_runtime.Host.{mmap, Trace, Oracle, prot_none, anon_fixed}
use lfi_runtime.AddrSpace
use lfi_runtime.AddrSpace.{AddrSpace, Update, Error, k_ok, k_inval, k_no_mem}
use lfi_runtime.Box.{Box, LfiOptions, verify, protectverify, mapverify, cbunmap_all}
use lfi_runtime.Box.Maps.{
  map_or_undo, with_mm, info_of, lfi_box_bufvalid, box_mapany_locked, lfi_box_mapany,
  lfi_box_mapany_noverify, box_mapat_locked, lfi_box_mapat, lfi_box_mapat_register,
  box_mprotect_locked, lfi_box_mprotect, lfi_box_mprotect_noverify, box_munmap_locked,
  lfi_box_munmap, page_ceil,
}
use lfi_runtime.Box.Session.{
  Op, mapany, mapat, mapat_register, mprotect, munmap, mapany_noverify, mprotect_noverify, checks,
  after_map, after_call, step, session,
}

-- The primitive steps keep `P`. `allowed` says for which values of the flag `no_verify`.
pub record Keeps (o : Oracle) (P : LfiOptions → Trace → Type 0) (allowed : Bool → Type 0)
    : Type 0 where
  pub of_map :
      (box : Box) (start size prot flags : ℕ) (fd off : ℤ) (no_verify : Bool) (t : Trace)
      → allowed no_verify
      → P box.opts t
      → P box.opts (mapverify o box start size prot flags fd off no_verify t).1
  pub of_protect :
      (box : Box) (base size prot : ℕ) (no_verify : Bool) (t : Trace)
      → allowed no_verify
      → P box.opts t
      → P box.opts (protectverify o box base size prot no_verify t).1
  pub of_verify :
      (box : Box) (base size prot : ℕ) (t : Trace)
      → P box.opts t
      → P box.opts (verify o box base size prot t).1
  pub of_updates :
      (opts : LfiOptions) (us : List Update) (t : Trace) → P opts t → P opts (cbunmap_all o us t)
  pub of_clear :
      (opts : LfiOptions) (addr len : ℕ) (t : Trace)
      → P opts t
      → P opts (mmap addr len prot_none anon_fixed (negsuc 0) (pos 0) ∷ t)
  pub checked : allowed false

-- The condition at the end of a run that does not abort; the options stay as they are.
abbrev pub Ensures : (LfiOptions → Trace → Type 0) → LfiOptions → Run (Box × Trace) → Type 0
Ensures P opts (done (box, t)) = (box.opts ≡ opts) × P opts t
Ensures P opts aborted = Unit

module _ {o : Oracle} (P : LfiOptions → Trace → Type 0) {allowed : Bool → Type 0}
    (keeps : Keeps o P allowed) where
  open keeps use {of_map, of_protect, of_verify, of_updates, of_clear, checked}

  map_or_undo-Ensures :
      (box : Box) (addr size prot flags : ℕ) (fd off : ℤ) (no_verify : Bool) (t : Trace)
      → allowed no_verify
      → P box.opts t
      → Ensures P box.opts
          (after_map (done (map_or_undo o box addr size prot flags fd off no_verify t)))
  unfolding map_or_undo
  map_or_undo-Ensures box addr size prot flags fd off no_verify t ok h =
      let mapped = of_map box addr size prot flags fd off no_verify t ok h in
      elim (Bool-cases (mapverify o box addr size prot flags fd off no_verify t).0) [
        | inl good ↦ rw good (refl, mapped)
        | inr bad ↦ rw bad (refl, of_updates box.opts _ _ mapped)
      ]

  mapany-Ensures :
      (box : Box) (size prot flags : ℕ) (fd off : ℤ) (no_verify : Bool) (t : Trace)
      → allowed no_verify
      → P box.opts t
      → Ensures P box.opts (after_map (box_mapany_locked o box size prot flags fd off no_verify t))
  unfolding box_mapany_locked
  mapany-Ensures box size prot flags fd off no_verify t ok h =
      go (AddrSpace.map_any box.mm 0 size (info_of prot flags fd off))
    where
      go :
          (r : Run (Option ℕ × AddrSpace))
          → Ensures P box.opts (
              after_map (
                r >>= λ (a, mm). elim a [
                  | none ↦ done (none, with_mm box mm, t)
                  | some addr ↦
                      done (map_or_undo o (with_mm box mm) addr size prot flags fd off no_verify t)
                ]))
      go (done (none, mm)) = (refl, h)
      go (done (some addr, mm)) =
          map_or_undo-Ensures (with_mm box mm) addr size prot flags fd off no_verify t ok h
      go aborted = tt

  mapat-Ensures :
      (box : Box) (addr size prot flags : ℕ) (fd off : ℤ) (t : Trace)
      → P box.opts t
      → Ensures P box.opts (after_map (box_mapat_locked o box addr size prot flags fd off t))
  unfolding box_mapat_locked
  mapat-Ensures box addr size prot flags fd off t h =
      elim (Bool-cases (lfi_box_bufvalid box addr size)) [
        | inl valid ↦ rw valid (go (AddrSpace.map_at box.mm addr size (info_of prot flags fd off)))
        | inr bad ↦ rw bad (refl, h)
      ]
    where
      go :
          (r : Run (Option ℕ × List Update × AddrSpace))
          → Ensures P box.opts (
              after_map (
                r >>= λ (a, calls, mm). elim a [
                  | none ↦ done (none, with_mm box mm, cbunmap_all o calls t)
                  | some at ↦ done (
                      map_or_undo o
                        (with_mm box mm)
                        at
                        size
                        prot
                        flags
                        fd
                        off
                        false
                        (cbunmap_all o calls t))
                ]))
      go (done (none, calls, mm)) = (refl, of_updates box.opts calls t h)
      go (done (some at, calls, mm)) =
          map_or_undo-Ensures (with_mm box mm) at size prot flags fd off false _ checked
            (of_updates box.opts calls t h)
      go aborted = tt

  mapat_register-Ensures :
      (box : Box) (addr size prot flags : ℕ) (fd off : ℤ) (t : Trace)
      → P box.opts t
      → Ensures P box.opts (after_map (lfi_box_mapat_register o box addr size prot flags fd off t))
  unfolding lfi_box_mapat_register
  mapat_register-Ensures box addr size prot flags fd off t h =
      elim (Bool-cases (lfi_box_bufvalid box addr size)) [
        | inl valid ↦ rw valid (go (AddrSpace.map_at box.mm addr size (info_of prot flags fd off)))
        | inr bad ↦ rw bad (refl, h)
      ]
    where
      answer :
          (at : ℕ) (mm : AddrSpace) (us : List Update)
          → Ensures P box.opts (
              after_map (
                let (ok, t') = verify o box at size prot (cbunmap_all o us t) in
                let (e, ignored, mm') = AddrSpace.unmap mm at size in
                done
                  (if not ok then (none, with_mm box mm', t') else (some at, with_mm box mm, t'))))
      answer at mm us =
          let kept = of_verify box at size prot _ (of_updates box.opts us t h) in
          elim (Bool-cases (verify o box at size prot (cbunmap_all o us t)).0) [
            | inl good ↦ rw good (refl, kept)
            | inr bad ↦ rw bad (refl, kept)
          ]

      go :
          (r : Run (Option ℕ × List Update × AddrSpace))
          → Ensures P box.opts (
              after_map (
                r >>= λ (a, calls, mm). elim a [
                  | none ↦ done (none, with_mm box mm, cbunmap_all o calls t)
                  | some at ↦
                      let (ok, t') = verify o box at size prot (cbunmap_all o calls t) in
                      let (e, ignored, mm') = AddrSpace.unmap mm at size in
                      done (
                        if not ok
                        then (none, with_mm box mm', t')
                        else (some at, with_mm box mm, t'))
                ]))
      go (done (none, calls, mm)) = (refl, of_updates box.opts calls t h)
      go (done (some at, calls, mm)) = answer at mm calls
      go aborted = tt

  mprotect-Ensures :
      (box : Box) (addr size prot : ℕ) (no_verify : Bool) (t : Trace)
      → allowed no_verify
      → P box.opts t
      → Ensures P box.opts (after_call (box_mprotect_locked o box addr size prot no_verify t))
  unfolding box_mprotect_locked
  mprotect-Ensures box addr size prot no_verify t ok h =
      ground (arith, of_protect box addr size prot no_verify t ok h)

  munmap-Ensures :
      (box : Box) (addr size : ℕ) (t : Trace)
      → P box.opts t
      → Ensures P box.opts (after_call (box_munmap_locked o box addr size t))
  unfolding box_munmap_locked
  munmap-Ensures box addr size t h =
      ground (arith, of_clear box.opts addr (page_ceil size box.opts.pagesize) t h)

  -- An operation that may skip verification is allowed only where `P` allows that.
  abbrev pub Allowed : Op → Type 0
  Allowed op = allowed (not (checks op))

  pub step-Ensures :
      (op : Op) (box : Box) (t : Trace)
      → Allowed op
      → P box.opts t
      → Ensures P box.opts (step o op (box, t))
  unfolding step lfi_box_mapany lfi_box_mapat lfi_box_mprotect lfi_box_munmap
      lfi_box_mapany_noverify lfi_box_mprotect_noverify
  step-Ensures (mapany size prot flags fd off) box t ok h =
      mapany-Ensures box size prot flags fd off false t ok h
  step-Ensures (mapat addr size prot flags fd off) box t ok h =
      mapat-Ensures box addr size prot flags fd off t h
  step-Ensures (mapat_register addr size prot flags fd off) box t ok h =
      mapat_register-Ensures box addr size prot flags fd off t h
  step-Ensures (mprotect addr size prot) box t ok h =
      mprotect-Ensures box addr size prot false t ok h
  step-Ensures (munmap addr size) box t ok h = munmap-Ensures box addr size t h
  step-Ensures (mapany_noverify size prot flags fd off) box t ok h =
      mapany-Ensures box size prot flags fd off true t ok h
  step-Ensures (mprotect_noverify addr size prot) box t ok h =
      mprotect-Ensures box addr size prot true t ok h

  pub session-Ensures :
      (ops : List Op) (box : Box) (t : Trace)
      → All Allowed ops
      → P box.opts t
      → Ensures P box.opts (session o ops (box, t))
  unfolding session
  session-Ensures [] box t ok h = (refl, h)
  session-Ensures (op ∷ ops) box t ok h =
      go (step o op (box, t)) (step-Ensures op box t ok.0 h)
        (λ box' t' h'. session-Ensures ops box' t' ok.1 h')
    where
      go :
          (r : Run (Box × Trace))
          → Ensures P box.opts r
          → ((box' : Box) (t' : Trace)
              → P box'.opts t'
              → Ensures P box'.opts (session o ops (box', t')))
          → Ensures P box.opts (r >>= session o ops)
      go (done (box', t')) (same, kept) next =
          subst (λ opts. Ensures P opts (session o ops (box', t'))) same
            (next box' t' (subst (λ opts. P opts t') (sym same) kept))
      go aborted kept next = tt
