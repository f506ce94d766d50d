-- ===== src/Proc/Once.antt =====
-- The end of a process (linux/proc.c, linux/trampoline.c): once, last, and in any case.
use native.Mathlib.Omega.{arith}
use lfi_runtime.Prelude.{
  ℕ, ◌+◌, ◌≤◌, ◌≡◌, ◌≢◌, ◌<◌, refl, sym, ◌∙◌, Bool, true, false, ltb, ◌⊎◌, inl, inr, Bool-cases,
  subst,
}
use lfi_runtime.Proc.{Proc, has_attached}
use lfi_runtime.Proc.Life.{
  Freer, not_called, waiting, idle, deferring, destroying, returned, Crowd, World, fresh_world,
  decided, Step, spawns, spawned, spawn_fails, thread_ends, attaches, attached, attach_fails,
  detaches, exits, frees, sees_idle, decides, defers, destroys, last_sees_idle, last_destroys,
  Reach, here, later,
}
use lfi_runtime.Proc.Phases.{threads, ending, Phase}
use lfi_runtime.Proc.Safety.{Inv, Inv-step}

fresh-Inv : Inv fresh_world
fresh-Inv = record { active = refl; attached_sum = refl; phase = refl }

Reach-Inv : {w : World} → Reach w → w.crowd.failed ≡ false → Inv w
Reach-Inv here kept = fresh-Inv
Reach-Inv (later r s) kept = Inv-step (Reach-Inv r) s kept

-- The process was destroyed, and nobody is left.
abbrev Gone : Freer → Crowd → Type 0
Gone f w = (f ≡ returned) × (w.destroyed ≡ 1) × (w.doomed ≡ 0) × (w.sure ≡ 0) × (threads w ≡ 0)

destroyed-Gone : (f : Freer) (b : Bool) (w : Crowd) → Phase f b w → 0 < w.destroyed → Gone f w
destroyed-Gone returned false w h some_end = (refl, h.2, h.0, h.1, h.3)
destroyed-Gone returned true w h some_end =
    (refl, ground arith, ground arith, ground arith, ground arith)
destroyed-Gone not_called false w h some_end = absurd (ground arith)
destroyed-Gone not_called true w h some_end = elim h [ ]
destroyed-Gone waiting false w h some_end = absurd (ground arith)
destroyed-Gone waiting true w h some_end = elim h [ ]
destroyed-Gone idle false w h some_end = absurd (ground arith)
destroyed-Gone idle true w h some_end = elim h [ ]
destroyed-Gone deferring false w h some_end = absurd (ground arith)
destroyed-Gone deferring true w h some_end = elim h [ ]
destroyed-Gone destroying false w h some_end = absurd (ground arith)
destroyed-Gone destroying true w h some_end = elim h [ ]

not_returned : (f g : Freer) → f ≡ returned → f ≡ g → (returned ≡ g → ⊥) → ⊥
not_returned f g e e' h = h (sym e ∙ e')

not_in_use :
    (f : Freer) (w : Crowd)
    → Gone f w
    → (f ≡ not_called) ⊎ (0 < w.running + w.hosts + w.attaching)
    → ⊥
not_in_use f w g (inl early) = not_returned f not_called g.0 early (λ e. ground arith)
not_in_use f w g (inr some_thread) = ground arith

no_step : {w w' : World} → Gone w.freer w.crowd → Step w w' → ⊥
no_step g (spawns w inside) = not_in_use w.freer w.crowd g inside
no_step g (exits w kind code inside) = not_in_use w.freer w.crowd g inside
no_step g (spawned w some_thread) = ground arith
no_step g (spawn_fails w some_thread) = ground arith
no_step g (thread_ends w some_thread) = ground arith
no_step g (attached w some_thread) = ground arith
no_step g (attach_fails w some_thread) = ground arith
no_step g (detaches w some_thread free) = ground arith
no_step g (last_sees_idle w some_thread none_active) = ground arith
no_step g (last_destroys w some_thread) = ground arith
no_step g (attaches w f) = not_returned w.freer _ g.0 f (λ e. ground arith)
no_step g (frees w f) = not_returned w.freer _ g.0 f (λ e. ground arith)
no_step g (sees_idle w f none_active) = not_returned w.freer _ g.0 f (λ e. ground arith)
no_step g (decides w f) = not_returned w.freer _ g.0 f (λ e. ground arith)
no_step g (defers w f) = not_returned w.freer _ g.0 f (λ e. ground arith)
no_step g (destroys w f) = not_returned w.freer _ g.0 f (λ e. ground arith)

-- Take any order of the steps of a process's threads and of `lfi_proc_free`, where the embedder begins
-- to attach no thread once it has called `lfi_proc_free` and its main thread is out of the sandbox by
-- then, and where no attempt to attach has failed so far (which ends the host process). The process is
-- destroyed at most once; when it is, no thread of its own and no host thread is in it or on its way in
-- or out, and no step of any of them, nor of `lfi_proc_free`, is left to make.
pub Reach-Once :
    {w : World}
    → Reach w
    → w.crowd.failed ≡ false
    → (w.crowd.destroyed ≤ 1)
      × (0 < w.crowd.destroyed → threads w.crowd ≡ 0)
      × (0 < w.crowd.destroyed → (w' : World) → Step w w' → ⊥)
Reach-Once {w} r kept =
    let inv = Reach-Inv r kept in
    let gone = destroyed-Gone w.freer w.proc.pending_free w.crowd inv.phase in
    (once w.crowd.destroyed (λ e. (gone e).1), λ e. (gone e).4, λ e w' s. no_step (gone e) s)
  where
    once : (n : ℕ) → (0 < n → n ≡ 1) → n ≤ 1
    once n h = ground arith

-- Steps from one world to another.
pub data Runs : World → World → Type 0 where
  stop : (w : World) → Runs w w
  go_on : {w w' w'' : World} → Step w w' → Runs w' w'' → Runs w w''

-- There is a way to the end.
abbrev pub CanEnd : World → Type 0
CanEnd w = (w' : World) × Runs w w' × (w'.crowd.destroyed ≡ 1)

go_first : {w w' : World} → Step w w' → CanEnd w' → CanEnd w
go_first s (w', run, e) = (w', go_on s run, e)

destroying_ends : (w : World) → w.freer ≡ destroying → w.crowd.destroyed ≡ 0 → CanEnd w
destroying_ends w f none_yet = go_first (destroys w f) (_, stop _, omega arith)

free_decides : (p : Proc) → p.attached_threads ≡ 0 → has_attached p ≡ false
unfolding has_attached
free_decides p alone = ground arith

idle_ends :
    (w : World) → w.freer ≡ idle → w.proc.attached_threads ≡ 0 → w.crowd.destroyed ≡ 0 → CanEnd w
idle_ends w f alone none_yet =
    let next : World = record w { freer = destroying } in
    let step : Step w next =
      subst (λ b. Step w (record w { freer = decided b })) (free_decides w.proc alone)
        (decides w f) in
    go_first step (destroying_ends next refl none_yet)

waiting_ends :
    (w : World)
    → w.freer ≡ waiting
    → w.proc.active_threads ≡ 0
    → w.proc.attached_threads ≡ 0
    → w.crowd.destroyed ≡ 0
    → CanEnd w
waiting_ends w f none_active alone none_yet =
    go_first (sees_idle w f none_active) (idle_ends (record w { freer = idle }) refl alone none_yet)

sure_ends : (w : World) → w.crowd.sure ≡ 1 → w.crowd.destroyed ≡ 0 → CanEnd w
sure_ends w one none_yet = go_first (last_destroys w (omega arith)) (_, stop _, omega arith)

doomed_ends :
    (w : World)
    → w.crowd.doomed ≡ 1
    → w.proc.active_threads ≡ 0
    → w.crowd.sure ≡ 0
    → w.crowd.destroyed ≡ 0
    → CanEnd w
doomed_ends w one none_active unsure none_yet =
    go_first (last_sees_idle w (omega arith) none_active) (sure_ends _ (omega arith) none_yet)

-- The last thread of the host is to end the process, or has.
last_ends : (w : World) → ending w.crowd ≡ 1 → w.proc.active_threads ≡ 0 → CanEnd w
last_ends w one none_active = elim (Bool-cases (ltb 0 w.crowd.destroyed)) [
  | inl ended ↦ (w, stop w, ground arith)
  | inr not_yet ↦ elim (Bool-cases (ltb 0 w.crowd.sure)) [
    | inl certain ↦ sure_ends w (ground arith) (ground arith)
    | inr unsure ↦ doomed_ends w (ground arith) none_active (ground arith) (ground arith)
  ]
]

-- By where `lfi_proc_free` is, when no thread is left.
ends_by :
    (w : World) (f : Freer) (b : Bool)
    → w.freer ≡ f
    → Phase f b w.crowd
    → f ≢ not_called
    → w.proc.active_threads ≡ 0
    → w.proc.attached_threads ≡ 0
    → threads w.crowd ≡ 0
    → CanEnd w
ends_by w not_called b e h called none_active alone empty = absurd (called refl)
ends_by w waiting false e h called none_active alone empty =
    waiting_ends w e none_active alone (omega arith)
ends_by w idle false e h called none_active alone empty = idle_ends w e alone (omega (arith, h.0))
ends_by w deferring false e h called none_active alone empty = absurd (omega (arith, h.1))
ends_by w destroying false e h called none_active alone empty =
    destroying_ends w e (omega (arith, h.0))
ends_by w returned false e h called none_active alone empty = (w, stop w, h.2)
ends_by w returned true e h called none_active alone empty =
    last_ends w (h.1 (omega arith)) none_active
ends_by w waiting true e h called none_active alone empty = elim h [ ]
ends_by w idle true e h called none_active alone empty = elim h [ ]
ends_by w deferring true e h called none_active alone empty = elim h [ ]
ends_by w destroying true e h called none_active alone empty = elim h [ ]

-- Take any order of the steps of a process's threads and of `lfi_proc_free`, where the embedder begins
-- to attach no thread once it has called `lfi_proc_free` and its main thread is out of the sandbox by
-- then, and where no attempt to attach has failed so far (which ends the host process). Once
-- `lfi_proc_free` is called and every thread has left, the process is destroyed, or steps that are still
-- to be made lead to it: it does not leak.
pub Reach-CanEnd :
    {w : World}
    → Reach w
    → w.crowd.failed ≡ false
    → w.freer ≢ not_called
    → threads w.crowd ≡ 0
    → CanEnd w
Reach-CanEnd {w} r kept called empty =
    let inv = Reach-Inv r kept in
    let act = inv.active in
    let att = inv.attached_sum in
    ends_by w w.freer w.proc.pending_free refl inv.phase called (omega arith) (omega arith) empty
