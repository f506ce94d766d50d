-- ===== src/Proc/Tests.antt =====
-- The theorems on the end of a process: a host thread attaches, `lfi_proc_free` leaves the end to it,
-- and it detaches.
use native.Mathlib.Omega.{arith}
use lfi_runtime.Prelude.{◌≡◌, ◌≤◌, ◌<◌, refl, true}
use lfi_runtime.Proc.{fresh_proc, count_attached, detach_ctx, has_attached, defer_free}
use lfi_runtime.Proc.Life.{
  World, nobody, returned, Step, attaches, attached, frees, sees_idle, decides, defers, detaches,
  last_sees_idle, last_destroys, Reach, here, later,
}
use lfi_runtime.Proc.Phases.{threads}
use lfi_runtime.Proc.Once.{Reach-Once, CanEnd, Reach-CanEnd}

-- the last thread has detached, and is to destroy the process
abbrev left : World
left = record {
  proc = record fresh_proc { pending_free = true };
  freer = returned;
  crowd = record nobody { doomed = 1 };
}

abbrev ended : World
ended = record left { crowd = record nobody { destroyed = 1 } }

left-Reach : Reach left
unfolding count_attached detach_ctx has_attached defer_free
left-Reach =
    later
      (later
        (later
          (later
            (later (later (later here (attaches _ refl)) (attached _ (omega arith))) (frees _ refl))
            (sees_idle _ refl refl))
          (decides _ refl))
        (defers _ refl))
      (detaches _ (omega arith) tt)

ended-Reach : Reach ended
ended-Reach =
    later (later left-Reach (last_sees_idle left (omega arith) refl))
      (last_destroys _ (omega arith))

Reach-Once_example :
    (ended.crowd.destroyed ≤ 1)
    × (0 < ended.crowd.destroyed → threads ended.crowd ≡ 0)
    × (0 < ended.crowd.destroyed → (w' : World) → Step ended w' → ⊥)
Reach-Once_example = Reach-Once ended-Reach refl

Reach-CanEnd_example : CanEnd left
Reach-CanEnd_example = Reach-CanEnd left-Reach refl (λ e. absurd (ground (arith, e))) refl
