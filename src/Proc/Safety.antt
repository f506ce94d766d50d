-- ===== src/Proc/Safety.antt =====
-- The counters of a process agree with its threads, and somebody is left to destroy it.
use native.Mathlib.Omega.{arith}
use lfi_runtime.Prelude.{
  ◌+◌, ◌-◌, ◌≡◌, ◌<◌, refl, Bool, true, false, ltb, inl, inr, Bool-cases, subst,
}
use lfi_runtime.Proc.{
  Proc, count_thread, uncount_thread, count_attached, detach_ctx, has_attached, defer_free,
  exit_thread, exit_process, publish_exit,
}
use lfi_runtime.Proc.Life.{
  Freer, waiting, idle, deferring, destroying, World, decided, detached, Step, spawns, spawned,
  spawn_fails, thread_ends, attaches, attached, attach_fails, detaches, exits, frees, sees_idle,
  decides, defers, destroys, last_sees_idle, last_destroys,
}
use lfi_runtime.Proc.Phases.{
  Phase, leaves, spawns-Phase, spawned-Phase, spawn_fails-Phase, thread_ends-Phase, attaches-Phase,
  attached-Phase, last_sees_idle-Phase, last_destroys-Phase, detaches-Phase, frees-Phase,
  sees_idle-Phase, sees_attached-Phase, sees_none-Phase, defers-Phase, destroys-Phase,
}

pub record Inv (w : World) : Type 0 where
  pub active : w.proc.active_threads ≡ w.crowd.running + w.crowd.starting
  pub attached_sum : w.proc.attached_threads ≡ w.crowd.hosts + w.crowd.attaching
  pub phase : Phase w.freer w.proc.pending_free w.crowd

detached-Inv :
    (w : World) (p : Proc) (b : Bool)
    → Inv w
    → 0 < w.crowd.hosts
    → p.active_threads ≡ w.proc.active_threads
    → p.attached_threads ≡ w.proc.attached_threads - 1
    → p.pending_free ≡ w.proc.pending_free
    → Phase w.freer w.proc.pending_free (leaves b w.crowd)
    → Inv (detached w (b, p))
detached-Inv w p true h some_thread ea et ep ph =
    let act = h.active in
    let att = h.attached_sum in
    record { active = omega arith; attached_sum = omega arith; phase = rw ep ph }
detached-Inv w p false h some_thread ea et ep ph =
    let act = h.active in
    let att = h.attached_sum in
    record { active = omega arith; attached_sum = omega arith; phase = rw ep ph }

module _ {w : World} (h : Inv w) where
  -- The step moves `lfi_proc_free` on.
  moved-Inv : (f : Freer) → Phase f w.proc.pending_free w.crowd → Inv (record w { freer = f })
  moved-Inv f ph = record { active = h.active; attached_sum = h.attached_sum; phase = ph }

  Phase-at : {f : Freer} → w.freer ≡ f → Phase f w.proc.pending_free w.crowd
  Phase-at e = subst (λ f. Phase f w.proc.pending_free w.crowd) e h.phase

  decides-Inv : w.freer ≡ idle → Inv (record w { freer = decided (has_attached w.proc) })
  unfolding has_attached
  decides-Inv f =
      let att = h.attached_sum in
      elim (Bool-cases (ltb 0 w.proc.attached_threads)) [
        | inl more ↦ rw more (
            moved-Inv deferring
              (sees_attached-Phase w.proc.pending_free w.crowd (ground arith) (Phase-at f)))
        | inr none ↦ rw none (
            moved-Inv destroying
              (sees_none-Phase w.proc.pending_free w.crowd (ground arith) (Phase-at f)))
      ]

detached-failed :
    (w : World) (r : Bool × Proc) → (detached w r).crowd.failed ≡ false → w.crowd.failed ≡ false
detached-failed w (true, p) e = e
detached-failed w (false, p) e = e

-- While no attempt to attach has failed, a step keeps the invariant.
pub Inv-step :
    {w w' : World} → (w.crowd.failed ≡ false → Inv w) → Step w w' → w'.crowd.failed ≡ false → Inv w'
unfolding count_thread uncount_thread count_attached detach_ctx publish_exit defer_free
Inv-step inv (spawns w inside) kept =
    let h = inv kept in
    let act = h.active in
    record {
      active = omega arith;
      attached_sum = h.attached_sum;
      phase = spawns-Phase w.freer w.proc.pending_free w.crowd inside h.phase;
    }
Inv-step inv (spawned w some_thread) kept =
    let h = inv kept in
    let act = h.active in
    record {
      active = omega arith;
      attached_sum = h.attached_sum;
      phase = spawned-Phase w.freer w.proc.pending_free w.crowd some_thread h.phase;
    }
Inv-step inv (spawn_fails w some_thread) kept =
    let h = inv kept in
    let act = h.active in
    record {
      active = omega arith;
      attached_sum = h.attached_sum;
      phase = spawn_fails-Phase w.freer w.proc.pending_free w.crowd some_thread h.phase;
    }
Inv-step inv (thread_ends w some_thread) kept =
    let h = inv kept in
    let act = h.active in
    record {
      active = omega arith;
      attached_sum = h.attached_sum;
      phase = thread_ends-Phase w.freer w.proc.pending_free w.crowd some_thread h.phase;
    }
Inv-step inv (attaches w early) kept =
    let h = inv kept in
    let att = h.attached_sum in
    record {
      active = h.active;
      attached_sum = omega arith;
      phase = attaches-Phase w.freer w.proc.pending_free w.crowd early h.phase;
    }
Inv-step inv (attached w some_thread) kept =
    let h = inv kept in
    let att = h.attached_sum in
    record {
      active = h.active;
      attached_sum = omega arith;
      phase = attached-Phase w.freer w.proc.pending_free w.crowd some_thread h.phase;
    }
Inv-step inv (attach_fails w some_thread) kept = absurd (ground arith)
Inv-step inv (detaches w some_thread free) kept =
    let h = inv (detached-failed w (detach_ctx w.proc) kept) in
    let att = h.attached_sum in
    let ph = detaches-Phase w.freer w.proc.pending_free w.crowd some_thread free h.phase in
    detached-Inv w _ _ h some_thread refl refl refl (rw att ph)
Inv-step inv (exits w exit_thread code inside) kept = inv kept
Inv-step inv (exits w exit_process code inside) kept =
    let h = inv kept in record { active = h.active; attached_sum = h.attached_sum; phase = h.phase }
Inv-step inv (frees w early) kept =
    let h = inv kept in
    moved-Inv h waiting (frees-Phase w.proc.pending_free w.crowd (Phase-at h early))
Inv-step inv (sees_idle w f none_active) kept =
    let h = inv kept in
    let act = h.active in
    moved-Inv h idle (sees_idle-Phase w.proc.pending_free w.crowd (omega arith) (Phase-at h f))
Inv-step inv (decides w f) kept = decides-Inv (inv kept) f
Inv-step inv (defers w f) kept =
    let h = inv kept in
    record {
      active = h.active;
      attached_sum = h.attached_sum;
      phase = defers-Phase w.proc.pending_free w.crowd (Phase-at h f);
    }
Inv-step inv (destroys w f) kept =
    let h = inv kept in
    record {
      active = h.active;
      attached_sum = h.attached_sum;
      phase = destroys-Phase w.proc.pending_free w.crowd (Phase-at h f);
    }
Inv-step inv (last_sees_idle w some_doomed none_active) kept =
    let h = inv kept in
    let act = h.active in
    record {
      active = h.active;
      attached_sum = h.attached_sum;
      phase =
          last_sees_idle-Phase w.freer w.proc.pending_free w.crowd some_doomed (omega arith)
            h.phase;
    }
Inv-step inv (last_destroys w some_sure) kept =
    let h = inv kept in
    record {
      active = h.active;
      attached_sum = h.attached_sum;
      phase = last_destroys-Phase w.freer w.proc.pending_free w.crowd some_sure h.phase;
    }
