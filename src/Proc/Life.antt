-- ===== src/Proc/Life.antt =====
-- The threads of a process and the call that frees it, as interleaved steps of linux/proc.c,
-- linux/trampoline.c and sys_clone.c. A step is one atomic operation, or a section under a lock of what
-- only that lock guards. The counts of threads are what really is there; the process has counters of
-- its own. The embedder begins to attach no thread once it has called `lfi_proc_free`, and its main
-- thread is out of the sandbox by then. Where attaching fails, `lfi_clone` of core/trampoline.c aborts
-- the host process; until it does, the other threads go on. The two stores of an exit, of its code and
-- then of its flag, are one step, since no other step reads them.
use lfi_runtime.Prelude.{ℕ, ◌+◌, ◌-◌, ◌≡◌, ◌<◌, Bool, true, false, ℤ, ◌⊎◌}
use lfi_runtime.Proc.{
  Proc, fresh_proc, count_thread, uncount_thread, count_attached, uncount_attached, detach_ctx,
  has_attached, defer_free, ExitKind, publish_exit,
}

-- Where the call of `lfi_proc_free` is. It holds `lk_proc` from `waiting` for the threads, through
-- `idle`, where it has seen none and has let `lk_threads` go, to `deferring`, where it has seen an
-- attached thread; `destroying` is before its call of `proc_destroy`.
pub data Freer : Type 0 where
  not_called waiting idle deferring destroying returned : Freer

-- The threads that there are, and what is left to do for them.
pub record Crowd : Type 0 where
  -- threads that `spawn` counted and has not created yet, and threads on their pthread
  pub starting : ℕ
  pub running : ℕ
  -- host threads in `lfi_linux_clone_cb`, and those that are attached
  pub attaching : ℕ
  pub hosts : ℕ
  -- the last detached thread, before it has seen that no thread is left, and behind that
  pub doomed : ℕ
  pub sure : ℕ
  pub destroyed : ℕ
  -- whether an attempt to attach has failed
  pub failed : Bool

pub record World : Type 0 where
  pub proc : Proc
  pub freer : Freer
  pub crowd : Crowd

abbrev pub nobody : Crowd
nobody = record {
  starting = 0;
  running = 0;
  attaching = 0;
  hosts = 0;
  doomed = 0;
  sure = 0;
  destroyed = 0;
  failed = false;
}

abbrev pub fresh_world : World
fresh_world = record { proc = fresh_proc; freer = not_called; crowd = nobody }

-- Some thread is in the sandbox: the main thread, one of its own, or one of the host.
abbrev pub InUse : World → Type 0
InUse w = (w.freer ≡ not_called) ⊎ (0 < w.crowd.running + w.crowd.hosts + w.crowd.attaching)

-- `lfi_proc_free` does not hold `lk_proc`.
abbrev pub Unlocked : Freer → Type 0
Unlocked waiting = ⊥
Unlocked idle = ⊥
Unlocked deferring = ⊥
Unlocked _ = Unit

-- what `lfi_proc_free` does next, by whether it saw an attached thread
abbrev pub decided : Bool → Freer
decided true = deferring
decided false = destroying

abbrev pub detached : World → Bool × Proc → World
detached w (true, p) = record w {
  proc = p;
  crowd = record (w.crowd) { hosts = w.crowd.hosts - 1; doomed = w.crowd.doomed + 1 };
}
detached w (false, p) = record w {
  proc = p;
  crowd = record (w.crowd) { hosts = w.crowd.hosts - 1 };
}

pub data Step : World → World → Type 0 where
  spawns :
      (w : World)
      → InUse w
      → Step w (record w {
        proc = count_thread w.proc;
        crowd = record (w.crowd) { starting = w.crowd.starting + 1 };
      })
  spawned :
      (w : World)
      → 0 < w.crowd.starting
      → Step w (record w {
        crowd = record (w.crowd) { starting = w.crowd.starting - 1; running = w.crowd.running + 1 };
      })
  spawn_fails :
      (w : World)
      → 0 < w.crowd.starting
      → Step w (record w {
        proc = uncount_thread w.proc;
        crowd = record (w.crowd) { starting = w.crowd.starting - 1 };
      })
  thread_ends :
      (w : World)
      → 0 < w.crowd.running
      → Step w (record w {
        proc = uncount_thread w.proc;
        crowd = record (w.crowd) { running = w.crowd.running - 1 };
      })
  attaches :
      (w : World)
      → w.freer ≡ not_called
      → Step w (record w {
        proc = count_attached w.proc;
        crowd = record (w.crowd) { attaching = w.crowd.attaching + 1 };
      })
  attached :
      (w : World)
      → 0 < w.crowd.attaching
      → Step w (record w {
        crowd = record (w.crowd) { attaching = w.crowd.attaching - 1; hosts = w.crowd.hosts + 1 };
      })
  attach_fails :
      (w : World)
      → 0 < w.crowd.attaching
      → Step w (record w {
        proc = uncount_attached w.proc;
        crowd = record (w.crowd) { attaching = w.crowd.attaching - 1; failed = true };
      })
  detaches :
      (w : World) → 0 < w.crowd.hosts → Unlocked w.freer → Step w (detached w (detach_ctx w.proc))
  exits :
      (w : World) (kind : ExitKind) (code : ℤ)
      → InUse w
      → Step w (record w { proc = publish_exit kind code w.proc })
  frees : (w : World) → w.freer ≡ not_called → Step w (record w { freer = waiting })
  sees_idle :
      (w : World)
      → w.freer ≡ waiting
      → w.proc.active_threads ≡ 0
      → Step w (record w { freer = idle })
  decides :
      (w : World) → w.freer ≡ idle → Step w (record w { freer = decided (has_attached w.proc) })
  defers :
      (w : World)
      → w.freer ≡ deferring
      → Step w (record w { proc = defer_free w.proc; freer = returned })
  destroys :
      (w : World)
      → w.freer ≡ destroying
      → Step w (record w {
        freer = returned;
        crowd = record (w.crowd) { destroyed = w.crowd.destroyed + 1 };
      })
  last_sees_idle :
      (w : World)
      → 0 < w.crowd.doomed
      → w.proc.active_threads ≡ 0
      → Step w (record w {
        crowd = record (w.crowd) { doomed = w.crowd.doomed - 1; sure = w.crowd.sure + 1 };
      })
  last_destroys :
      (w : World)
      → 0 < w.crowd.sure
      → Step w (record w {
        crowd = record (w.crowd) { sure = w.crowd.sure - 1; destroyed = w.crowd.destroyed + 1 };
      })

-- The worlds that a fresh process can come to.
pub data Reach : World → Type 0 where
  here : Reach fresh_world
  later : {w w' : World} → Reach w → Step w w' → Reach w'
