-- ===== src/Thread.antt =====
-- linux/thread.c: the initial stack of a thread. `argv` and `envp` are the lengths of their strings, up
-- to the null pointer. The random numbers of the host are an argument.
pub mod Stack
pub mod Tests
use lfi_runtime.Prelude.{
  ℕ, zero, suc, ◌+◌, ◌-◌, ◌*◌, ◌%◌, Bool, true, false, List, [], ◌∷◌, if◌then◌else◌, ltb, Run, done,
  ◌>>=◌, add64, sub64,
}
use lfi_runtime.Host.{Trace}
use lfi_runtime.Box.{Box}
use lfi_runtime.Box.Access.{lfi_box_copyto}
use lfi_runtime.Memory.{align_down}

-- ARGV_MAX and ENVP_MAX, and ARGV_MAXLEN and ENVP_MAXLEN
abbrev pub args_max : ℕ
args_max = 1024

abbrev pub arg_maxlen : ℕ
arg_maxlen = 1024

abbrev pub stack_rnd_range : ℕ
stack_rnd_range = 8192

-- `sizeof(struct AuxvList)`
abbrev pub auxv_size : ℕ
auxv_size = 304

-- what the stack holds besides the strings and their pointers
abbrev pub fixed : ℕ
fixed = auxv_size + 16 + 8 + 2 * 8 + stack_rnd_range + 32

-- `strnlen(s, ARGV_MAXLEN)`
abbrev pub capped : ℕ → ℕ
capped len = if ltb arg_maxlen len then arg_maxlen else len

-- what fits of the strings
pub record Fit : Type 0 where
  pub used : ℕ
  pub strs_len : ℕ
  pub count : ℕ

-- The two `for` loops that count, by the rounds that are left.
unfoldable pub fit_strs : ℕ → ℕ → List ℕ → Fit → Fit
fit_strs budget zero lens f = f
fit_strs budget (suc rounds) [] f = f
fit_strs budget (suc rounds) (len ∷ lens) f =
    let more = fit_strs budget rounds lens (record {
      used = f.used + (capped len + 1 + 8);
      strs_len = f.strs_len + (capped len + 1);
      count = f.count + 1;
    }) in
    if ltb budget (f.used + capped len + 1 + 8) then f else more

-- The two `for` loops that copy: what is left to copy, and where the next string goes.
unfoldable pub copy_strs : Box → ℕ → List ℕ → ℕ → Trace → Run (ℕ × Trace)
copy_strs box zero lens at t = done (at, t)
copy_strs box (suc n) [] at t = done (at, t)
copy_strs box (suc n) (len ∷ lens) at t = lfi_box_copyto box at (capped len) t >>= λ (p, t').
    lfi_box_copyto box (add64 at (capped len)) 1 t' >>= λ (q, t'').
    copy_strs box n lens (add64 at (capped len + 1)) t''

-- the copies of argc, argv, envp and auxv, one behind the other
unfoldable pub copy_vectors : Box → ℕ → ℕ → ℕ → Trace → Run (ℕ × Trace)
copy_vectors box stack_start nargv nenvp t = lfi_box_copyto box stack_start 8 t >>= λ (p, t').
    lfi_box_copyto box (add64 p 8) (8 * (nargv + 1)) t' >>= λ (q, t'').
    lfi_box_copyto box (add64 q (8 * (nargv + 1))) (8 * (nenvp + 1)) t'' >>= λ (r, t3).
    lfi_box_copyto box (add64 r (8 * (nenvp + 1))) auxv_size t3 >>= λ (s, t4).
    done (stack_start, t4)

abbrev pub no_strs : Fit
no_strs = record { used = 0; strs_len = 0; count = 0 }

-- `min(argc, ARGV_MAX)`
abbrev pub argc_rounds : ℕ → ℕ
argc_rounds argc = if ltb argc args_max then argc else args_max

abbrev pub stack_budget : ℕ → ℕ
stack_budget stack_size = if ltb fixed stack_size then stack_size - fixed else 0

-- `random` is what the host gives for the offset, which is 0 without randomization.
unfoldable pub stack_init : Box → ℕ → ℕ → ℕ → List ℕ → List ℕ → ℕ → Trace → Run (ℕ × Trace)
stack_init box stack stack_size argc argv envp random t =
    let budget = stack_budget stack_size in
    let args = fit_strs budget (argc_rounds argc) argv no_strs in
    let both = fit_strs budget args_max envp (record args { count = 0 }) in
    let offset = if box.opts.no_aslr then 0 else random % stack_rnd_range in
    let stack_top = sub64 (add64 stack stack_size) offset in
    let strs_start = align_down (sub64 stack_top both.strs_len) 16 in
    let rand_start = sub64 strs_start 16 in
    let vectors = 8 + 8 * (args.count + 1) + 8 * (both.count + 1) + auxv_size in
    copy_strs box args.count argv strs_start t >>= λ (at, t').
    copy_strs box both.count envp at t' >>= λ (end', t'').
    lfi_box_copyto box rand_start 16 t'' >>= λ (p, t3).
    copy_vectors box (align_down (sub64 rand_start vectors) 16) args.count both.count t3
