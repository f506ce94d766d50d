-- ===== src/Box/Safety.antt =====
-- The two rules on executable memory (core/box.c), for every session of a sandbox.
use native.Mathlib.Omega.{arith}
use lfi_runtime.Prelude.{◌≡◌, refl, Bool, true, false, not, List, [], ◌∷◌, All, Run, done, aborted}
use lfi_runtime.Host.{Trace, Oracle}
use lfi_runtime.Box.{Box, LfiOptions, verify}
use lfi_runtime.Box.Session.{Op, checks, session}
use lfi_runtime.Box.WriteExec.{
  Verified, NoWx, protectverify-Verified, mapverify-Verified, protectverify-NoWx, mapverify-NoWx,
  cbunmap_all-Verified, cbunmap_all-NoWx,
}
use lfi_runtime.Box.Keeps.{Keeps, Ensures, session-Ensures}

-- Verification is on, and the trace obeys its rule.
abbrev pub StrictlyVerified : Oracle → LfiOptions → Trace → Type 0
StrictlyVerified o opts t = (opts.no_verify ≡ false) × Verified o t

abbrev IsOff : Bool → Type 0
IsOff b = b ≡ false

pub verified_keeps : (o : Oracle) → Keeps o (StrictlyVerified o) IsOff
unfolding verify
verified_keeps o = record {
  of_map = λ box start size prot flags fd off nv t off' h.
      rw off' (h.0, mapverify-Verified o box start size prot flags fd off t h.0 h.1);
  of_protect = λ box base size prot nv t off' h.
      rw off' (h.0, protectverify-Verified o box base size prot t h.0 h.1);
  of_verify = λ box base size prot t h. ground arith;
  of_updates = λ opts us t h. (h.0, cbunmap_all-Verified o us t h.1);
  of_clear = λ opts addr len t h. (h.0, (refl, h.1));
  checked = refl;
}

-- Memory that is writable and executable is not asked for.
abbrev pub StrictlyNoWx : LfiOptions → Trace → Type 0
StrictlyNoWx opts t = (opts.allow_wx ≡ false) × NoWx t

nowx_keeps : (o : Oracle) → Keeps o StrictlyNoWx (λ flag. Unit)
unfolding verify
nowx_keeps o = record {
  of_map = λ box start size prot flags fd off nv t any h.
      (h.0, mapverify-NoWx o box start size prot flags fd off nv t h.0 h.1);
  of_protect =
      λ box base size prot nv t any h. (h.0, protectverify-NoWx o box base size prot nv t h.0 h.1);
  of_verify = λ box base size prot t h. ground arith;
  of_updates = λ opts us t h. (h.0, cbunmap_all-NoWx o us t h.1);
  of_clear = λ opts addr len t h. (h.0, (refl, h.1));
  checked = tt;
}

-- After a run that does not abort, the trace obeys `P`.
abbrev pub Leaves : (Trace → Type 0) → Run (Box × Trace) → Type 0
Leaves P (done (box, t)) = P t
Leaves P aborted = Unit

any_ops : (ops : List Op) → All {0, 0} (λ op. Unit) ops
any_ops [] = tt
any_ops (op ∷ ops) = (tt, any_ops ops)

checked_ops :
    (ops : List Op) → All (λ op. checks op ≡ true) ops → All (λ op. not (checks op) ≡ false) ops
checked_ops [] h = tt
checked_ops (op ∷ ops) h = ((rw h.0 refl), checked_ops ops h.1)

-- In a sandbox whose verification is on, take any sequence of mapping requests, none of them one
-- of the runtime's own unverified ones. The host calls so far obey this rule: nothing is mapped
-- executable, and every call that makes bytes executable asks for no write access and comes right
-- after a successful verification of exactly these bytes. Right before the verification the host was
-- asked to make the same bytes read-only; what it answered to that is not known. Then the calls of
-- the whole run obey the rule too, if it does not abort.
pub session-Verified :
    (o : Oracle) (ops : List Op) (box : Box) (t : Trace)
    → box.opts.no_verify ≡ false
    → All (λ op. checks op ≡ true) ops
    → Verified o t
    → Leaves (Verified o) (session o ops (box, t))
session-Verified o ops box t strict all h = go (session o ops (box, t)) (
    session-Ensures (StrictlyVerified o) (verified_keeps o) ops box t (checked_ops ops all)
      (strict, h))
  where
    go : (r : Run (Box × Trace)) → Ensures (StrictlyVerified o) box.opts r → Leaves (Verified o) r
    go (done (box', t')) kept = kept.1.1
    go aborted kept = tt

-- In a sandbox without the option `allow_wx`, where the host has not been asked for memory that is
-- writable and executable at once, no sequence of mapping requests that ends without an abort, the
-- unverified requests included, asks for it.
pub session-NoWx :
    (o : Oracle) (ops : List Op) (box : Box) (t : Trace)
    → box.opts.allow_wx ≡ false
    → NoWx t
    → Leaves NoWx (session o ops (box, t))
session-NoWx o ops box t strict h =
    go (session o ops (box, t))
      (session-Ensures StrictlyNoWx (nowx_keeps o) ops box t (any_ops ops) (strict, h))
  where
    go : (r : Run (Box × Trace)) → Ensures StrictlyNoWx box.opts r → Leaves NoWx r
    go (done (box', t')) kept = kept.1.1
    go aborted kept = tt
