-- ===== src/Thread/Stack.antt =====
-- What `stack_init` of linux/thread.c copies fits into the stack.
use native.Mathlib.Omega.{arith}
use native.Mathlib.Nat.{mod-lt}
use lfi_runtime.Prelude.{
  ℕ, zero, suc, ◌+◌, ◌-◌, ◌*◌, ◌%◌, ◌≤◌, ◌<◌, ◌≡◌, refl, sym, ap, Bool, true, false, List, [], ◌∷◌,
  if◌then◌else◌, ltb, word, add64, sub64, Bool-cases, inl, inr, Returns, returns, Returns-bind,
  Returns-map,
}
use lfi_runtime.Host.{Trace}
use lfi_runtime.Box.{Box}
use lfi_runtime.Box.Access.{l2p, lfi_box_copyto}
use lfi_runtime.Box.Bounds.{InBox, lfi_box_bufvalid-InBox}
use lfi_runtime.Box.Inside.{CallsIn}
use lfi_runtime.Memory.{align_down}
use lfi_runtime.Thread.{
  args_max, stack_rnd_range, auxv_size, fixed, capped, Fit, fit_strs, copy_strs, copy_vectors,
  no_strs, argc_rounds, stack_budget, stack_init,
}

-- the bytes of the first strings, with their ends
abbrev str_bytes : ℕ → List ℕ → ℕ
str_bytes zero lens = 0
str_bytes (suc n) [] = 0
str_bytes (suc n) (len ∷ lens) = capped len + 1 + str_bytes n lens

-- Some more strings were counted, and what they use is within the budget.
record FitBy (budget : ℕ) (lens : List ℕ) (f f' : Fit) : Type 0 where
  n : ℕ
  counted : f'.count ≡ f.count + n
  bytes : f'.strs_len ≡ f.strs_len + str_bytes n lens
  uses : f'.used ≡ f.used + str_bytes n lens + 8 * n
  within : f.used ≤ budget → f'.used ≤ budget

none_more : (budget : ℕ) (lens : List ℕ) (f : Fit) → FitBy budget lens f f
none_more budget lens f = record {
  n = 0;
  counted = omega arith;
  bytes = omega arith;
  uses = omega arith;
  within = λ e. e;
}

fit_strs-FitBy :
    (budget rounds : ℕ) (lens : List ℕ) (f : Fit)
    → FitBy budget lens f (fit_strs budget rounds lens f)
unfolding fit_strs
fit_strs-FitBy budget zero lens f = none_more budget lens f
fit_strs-FitBy budget (suc rounds) [] f = none_more budget [] f
fit_strs-FitBy budget (suc rounds) (len ∷ lens) f =
    let f' : Fit = record {
      used = f.used + (capped len + 1 + 8);
      strs_len = f.strs_len + (capped len + 1);
      count = f.count + 1;
    } in
    let rest = fit_strs-FitBy budget rounds lens f' in
    let counted = rest.counted in
    let bytes = rest.bytes in
    let uses = rest.uses in
    elim (Bool-cases (ltb budget (f.used + capped len + 1 + 8))) [
      | inl over ↦ rw over (none_more budget (len ∷ lens) f)
      | inr fits ↦ rw fits (record {
        n = suc rest.n;
        counted = omega arith;
        bytes = omega arith;
        uses = omega arith;
        within = λ e. rest.within (ground arith);
      })
    ]

module _ (box : Box) (small : box.max < word) (lo hi : ℕ) (low : box.min ≤ lo)
    (high : hi ≤ box.max) where
  copyto-CallsIn :
      (dst n : ℕ) (t : Trace)
      → lo ≤ dst
      → dst + n ≤ hi
      → CallsIn lo hi t
      → Returns (λ r. (r.0 ≡ dst) × CallsIn lo hi r.1) (lfi_box_copyto box dst n t)
  unfolding lfi_box_copyto l2p
  copyto-CallsIn dst n t a b c =
      rw ((lfi_box_bufvalid-InBox box dst n small).1 (omega arith, omega arith))
        (returns (refl, ((a, b), c)))

  copy_strs-CallsIn :
      (n : ℕ) (lens : List ℕ) (at : ℕ) (t : Trace)
      → lo ≤ at
      → at + str_bytes n lens ≤ hi
      → CallsIn lo hi t
      → Returns (λ r. (r.0 ≡ at + str_bytes n lens) × CallsIn lo hi r.1) (copy_strs box n lens at t)
  unfolding copy_strs
  copy_strs-CallsIn zero lens at t a b c = returns (omega arith, c)
  copy_strs-CallsIn (suc n) [] at t a b c = returns (omega arith, c)
  copy_strs-CallsIn (suc n) (len ∷ lens) at t a b c =
      let e : add64 at (capped len) ≡ at + capped len = omega arith in
      let e' : add64 at (capped len + 1) ≡ at + (capped len + 1) = omega arith in
      let sum : at + (capped len + 1) + str_bytes n lens ≡ at + str_bytes (suc n) (len ∷ lens) =
        omega arith in
      rw (e, e', sym sum)
        (Returns-bind (copyto-CallsIn at (capped len) t a (omega arith) c) (λ r p.
          Returns-bind (copyto-CallsIn (at + capped len) 1 r.1 (omega arith) (omega arith) p.1)
            (λ q p'.
              copy_strs-CallsIn n lens (at + (capped len + 1)) q.1 (omega arith) (omega arith)
                p'.1)))

  copy_vectors-CallsIn :
      (sp nargv nenvp : ℕ) (t : Trace)
      → lo ≤ sp
      → sp + (8 + 8 * (nargv + 1) + 8 * (nenvp + 1) + auxv_size) ≤ hi
      → CallsIn lo hi t
      → Returns (λ r. (r.0 ≡ sp) × CallsIn lo hi r.1) (copy_vectors box sp nargv nenvp t)
  unfolding copy_vectors
  copy_vectors-CallsIn sp nargv nenvp t a b c =
      Returns-bind (copyto-CallsIn sp 8 t a (omega arith) c) (λ p kp.
        let ep = kp.0 in
        Returns-bind
          (copyto-CallsIn (add64 p.0 8) (8 * (nargv + 1)) p.1 (omega arith) (omega arith) kp.1)
          (λ q kq.
            let eq = kq.0 in
            Returns-bind
              (copyto-CallsIn (add64 q.0 (8 * (nargv + 1))) (8 * (nenvp + 1)) q.1 (omega arith)
                (omega arith) kq.1)
              (λ r kr.
                let er = kr.0 in
                Returns-bind
                  (copyto-CallsIn (add64 r.0 (8 * (nenvp + 1))) auxv_size r.1 (omega arith)
                    (omega arith) kr.1)
                  (λ s ks. returns (refl, ks.1)))))

-- The stack pointer lies in the stack, at a multiple of 16, and what was copied lies in the stack.
abbrev pub InStack : ℕ → ℕ → ℕ × Trace → Type 0
InStack stack stack_size (sp, t) =
    (stack ≤ sp) × (sp < stack + stack_size) × (sp % 16 ≡ 0) × CallsIn stack (stack + stack_size) t

align_down_16 :
    (x : ℕ) → (align_down x 16 ≤ x) × (x < align_down x 16 + 16) × (align_down x 16 % 16 ≡ 0)
unfolding align_down
align_down_16 x = (omega arith, omega arith, omega arith)

offset_lt : (b : Bool) (random : ℕ) → (if b then 0 else random % stack_rnd_range) < stack_rnd_range
offset_lt true random = omega arith
offset_lt false random = mod-lt random (omega arith)

-- For a stack that lies in the sandbox and is no smaller than its fixed part (8568 bytes), any number of
-- arguments and environment strings of any lengths, and any random offset, `stack_init` ends with no
-- abort: everything that it copies lies in the stack, and so does the stack pointer, which is a
-- multiple of 16.
pub stack_init-InStack :
    (box : Box) (stack stack_size argc : ℕ) (argv envp : List ℕ) (random : ℕ) (t : Trace)
    → box.max < word
    → InBox box stack stack_size
    → fixed ≤ stack_size
    → CallsIn stack (stack + stack_size) t
    → Returns (InStack stack stack_size) (stack_init box stack stack_size argc argv envp random t)
unfolding stack_init
stack_init-InStack box stack stack_size argc argv envp random t small inside room c =
    let budget = stack_budget stack_size in
    let budget_is : budget + fixed ≡ stack_size = ground arith in
    let a = fit_strs-FitBy budget (argc_rounds argc) argv no_strs in
    let args = fit_strs budget (argc_rounds argc) argv no_strs in
    let b = fit_strs-FitBy budget args_max envp (record args { count = 0 }) in
    let both = fit_strs budget args_max envp (record args { count = 0 }) in
    let a_n = a.counted in
    let b_n = b.counted in
    let a_bytes = a.bytes in
    let b_bytes = b.bytes in
    let a_uses = a.uses in
    let b_uses = b.uses in
    let limit = b.within (a.within (omega arith)) in
    let offset = if box.opts.no_aslr then 0 else random % stack_rnd_range in
    let off = offset_lt box.opts.no_aslr random in
    let strs = align_down_16 (sub64 (sub64 (add64 stack stack_size) offset) both.strs_len) in
    let strs_start = align_down (sub64 (sub64 (add64 stack stack_size) offset) both.strs_len) 16 in
    let start_low : stack + 8 * args.count + 8 * both.count + 361 ≤ strs_start = omega arith in
    let start_high : strs_start + both.strs_len ≤ stack + stack_size = omega arith in
    let rand : sub64 strs_start 16 ≡ strs_start - 16 = omega arith in
    let vectors = 8 + 8 * (args.count + 1) + 8 * (both.count + 1) + auxv_size in
    let sp_of : sub64 (sub64 strs_start 16) vectors ≡ strs_start - 16 - vectors = omega arith in
    let sp = align_down_16 (sub64 (sub64 strs_start 16) vectors) in
    let argv_bytes : str_bytes args.count argv ≡ str_bytes a.n argv =
      ap (λ n. str_bytes n argv) (let e : args.count ≡ a.n = omega arith in e) in
    let envp_bytes : str_bytes both.count envp ≡ str_bytes b.n envp =
      ap (λ n. str_bytes n envp) (let e : both.count ≡ b.n = omega arith in e) in
    Returns-bind
      (copy_strs-CallsIn box small stack (stack + stack_size) inside.0 inside.1 args.count argv
        strs_start t (omega arith) (omega arith) c)
      (λ p kp.
        let at = kp.0 in
        Returns-bind
          (copy_strs-CallsIn box small stack (stack + stack_size) inside.0 inside.1 both.count envp
            p.0 p.1 (omega arith) (omega arith) kp.1)
          (λ q kq.
            Returns-bind
              (copyto-CallsIn box small stack (stack + stack_size) inside.0 inside.1
                (sub64 strs_start 16) 16 q.1 (omega arith) (omega arith) kq.1)
              (λ r kr.
                Returns-map
                  (copy_vectors-CallsIn box small stack (stack + stack_size) inside.0 inside.1
                    (align_down (sub64 (sub64 strs_start 16) vectors) 16) args.count both.count r.1
                    (omega arith) (omega arith) kr.1)
                  (λ z kz. let e = kz.0 in rw e (omega arith, omega arith, sp.2, kz.1)))))
