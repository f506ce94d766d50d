-- ===== src/Box/WriteExec.antt =====
-- No page of a sandbox becomes executable before its bytes are verified, and none is writable and
-- executable at once (core/box.c).
use native.Mathlib.Omega.{arith}
use lfi_runtime.Prelude.{ℕ, ◌≡◌, Bool, true, false, ◌&&◌, List, [], ◌∷◌, ℤ}
use lfi_runtime.Host.{Call, mmap, mprotect, lfiv_verify, Trace, Oracle, prot_read}
use lfi_runtime.AddrSpace.{Update}
use lfi_runtime.Box.{Box, is_some, protectverify, mapverify, cbunmap, cbunmap_all}

-- The call before asked the host to make exactly these bytes read-only.
abbrev pub JustReadOnly : ℕ → ℕ → Trace → Type 0
JustReadOnly a n (mprotect a' n' p ∷ t) = (a' ≡ a) × (n' ≡ n) × (p ≡ prot_read)
JustReadOnly a n (mmap a' n' p f fd off ∷ t) = (a' ≡ a) × (n' ≡ n) × (p ≡ prot_read)
JustReadOnly a n _ = ⊥

-- The call before verified exactly these bytes, with success, and the one before that asked
-- to make them read-only; the code does not look at the answer to that.
abbrev pub JustVerified : Oracle → ℕ → ℕ → Trace → Type 0
JustVerified o a n (lfiv_verify a' n' ∷ t) =
    (a' ≡ a) × (n' ≡ n) × (is_some (o t (lfiv_verify a' n')) ≡ true) × JustReadOnly a n t
JustVerified o a n _ = ⊥

-- A mapping is never made executable, and bytes become executable right after they are verified.
abbrev pub CallVerified : Oracle → Call → Trace → Type 0
CallVerified o (mmap a n p f fd off) t = p.exec ≡ false
CallVerified o (mprotect a n p) t = p.exec ≡ true → (p.write ≡ false) × JustVerified o a n t
CallVerified o _ t = Unit

abbrev pub Verified : Oracle → Trace → Type 0
Verified o [] = Unit
Verified o (c ∷ t) = CallVerified o c t × Verified o t

-- No call asks for memory that is writable and executable.
abbrev pub CallNoWx : Call → Type 0
CallNoWx (mmap a n p f fd off) = (p.write && p.exec) ≡ false
CallNoWx (mprotect a n p) = (p.write && p.exec) ≡ false
CallNoWx _ = Unit

abbrev pub NoWx : Trace → Type 0
NoWx [] = Unit
NoWx (c ∷ t) = CallNoWx c × NoWx t

module _ (o : Oracle) (box : Box) where
  pub protectverify-Verified :
      (base size prot : ℕ) (t : Trace)
      → box.opts.no_verify ≡ false
      → Verified o t
      → Verified o (protectverify o box base size prot false t).1
  unfolding protectverify
  protectverify-Verified base size prot t strict h = ground arith

  pub mapverify-Verified :
      (start size prot flags : ℕ) (fd off : ℤ) (t : Trace)
      → box.opts.no_verify ≡ false
      → Verified o t
      → Verified o (mapverify o box start size prot flags fd off false t).1
  unfolding mapverify
  mapverify-Verified start size prot flags fd off t strict h = ground arith

  pub protectverify-NoWx :
      (base size prot : ℕ) (no_verify : Bool) (t : Trace)
      → box.opts.allow_wx ≡ false
      → NoWx t
      → NoWx (protectverify o box base size prot no_verify t).1
  unfolding protectverify
  protectverify-NoWx base size prot no_verify t strict h = ground arith

  pub mapverify-NoWx :
      (start size prot flags : ℕ) (fd off : ℤ) (no_verify : Bool) (t : Trace)
      → box.opts.allow_wx ≡ false
      → NoWx t
      → NoWx (mapverify o box start size prot flags fd off no_verify t).1
  unfolding mapverify
  mapverify-NoWx start size prot flags fd off no_verify t strict h = ground arith

cbunmap-Verified : (o : Oracle) (u : Update) (t : Trace) → Verified o t → Verified o (cbunmap o u t)
unfolding cbunmap
cbunmap-Verified o u t h = ground arith

cbunmap-NoWx : (o : Oracle) (u : Update) (t : Trace) → NoWx t → NoWx (cbunmap o u t)
unfolding cbunmap
cbunmap-NoWx o u t h = ground arith

pub cbunmap_all-Verified :
    (o : Oracle) (us : List Update) (t : Trace) → Verified o t → Verified o (cbunmap_all o us t)
unfolding cbunmap_all
cbunmap_all-Verified o [] t h = h
cbunmap_all-Verified o (u ∷ us) t h =
    cbunmap_all-Verified o us (cbunmap o u t) (cbunmap-Verified o u t h)

pub cbunmap_all-NoWx :
    (o : Oracle) (us : List Update) (t : Trace) → NoWx t → NoWx (cbunmap_all o us t)
unfolding cbunmap_all
cbunmap_all-NoWx o [] t h = h
cbunmap_all-NoWx o (u ∷ us) t h = cbunmap_all-NoWx o us (cbunmap o u t) (cbunmap-NoWx o u t h)
