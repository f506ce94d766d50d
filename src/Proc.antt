-- ===== src/Proc.antt =====
-- The life of a Linux process (linux/proc.c, linux/thread.c, linux/trampoline.c, sys_clone.c and
-- sys_exit.c of linux/sys): which threads are in it, and who frees it. What runs under one lock, or is
-- one atomic operation, is one step; the threads' steps interleave. The counters are C `int`s.
pub mod Life
pub mod Phases
pub mod Safety
pub mod Once
pub mod Tests
use lfi_runtime.Prelude.{
  ℕ, zero, suc, ◌+◌, ◌-◌, ◌≡◌, ◌<◌, ◌≢◌, Bool, true, false, ◌&&◌, Option, none, some, if◌then◌else◌,
  ◌==◌, ltb, ℤ,
}

-- `struct LFILinuxProc`, of what its end depends on
pub record Proc : Type 0 where
  pub active_threads : ℕ
  pub attached_threads : ℕ
  pub pending_free : Bool
  pub terminating : Bool
  pub exit_code : ℤ

-- `lfi_proc_new` clears all of it.
abbrev pub fresh_proc : Proc
fresh_proc = record {
  active_threads = 0;
  attached_threads = 0;
  pending_free = false;
  terminating = false;
  exit_code = ℤ.pos 0;
}

-- `spawn`: the thread is counted before its pthread is created
unfoldable pub count_thread : Proc → Proc
count_thread p = record p { active_threads = p.active_threads + 1 }

-- `threadspawn` at its end, and `spawn` where `pthread_create` fails
unfoldable pub uncount_thread : Proc → Proc
uncount_thread p = record p { active_threads = p.active_threads - 1 }

-- `lfi_linux_clone_cb` at its start
unfoldable pub count_attached : Proc → Proc
count_attached p = record p { attached_threads = p.attached_threads + 1 }

-- `lfi_linux_clone_cb` where it fails
unfoldable pub uncount_attached : Proc → Proc
uncount_attached p = record p { attached_threads = p.attached_threads - 1 }

-- `detach_ctx` under `lk_proc`: whether this thread is to destroy the process
unfoldable pub detach_ctx : Proc → Bool × Proc
detach_ctx p =
    let remaining = p.attached_threads - 1 in
    (remaining == 0 && p.pending_free, record p { attached_threads = remaining })

-- `lfi_proc_free` behind its wait: its load of `attached_threads`, and what it stores where it leaves
-- the end to the last host thread
unfoldable pub has_attached : Proc → Bool
has_attached p = ltb 0 p.attached_threads

unfoldable pub defer_free : Proc → Proc
defer_free p = record p { pending_free = true }

-- `enum LFIExitKind`, and what `thread_exit` publishes
pub data ExitKind : Type 0 where
  exit_thread exit_process : ExitKind

unfoldable pub publish_exit : ExitKind → ℤ → Proc → Proc
publish_exit exit_process code p = record p { exit_code = code; terminating = true }
publish_exit exit_thread code p = p

unfoldable pub lfi_proc_exited : Proc → Option ℤ
lfi_proc_exited p = if p.terminating then some p.exit_code else none
