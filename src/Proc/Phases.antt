-- ===== src/Proc/Phases.antt =====
-- Who is still to destroy a process, and how each step of Life changes that.
use native.Mathlib.Omega.{arith}
use lfi_runtime.Prelude.{
  ℕ, ◌+◌, ◌-◌, ◌≡◌, ◌<◌, Bool, true, false, ◌&&◌, ◌==◌, ◌⊎◌, inl, inr, Bool-cases,
}
use lfi_runtime.Proc.Life.{
  Freer, not_called, waiting, idle, deferring, destroying, returned, Crowd, Unlocked,
}

-- the threads that the process has, but for the embedder's main thread
abbrev pub threads : Crowd → ℕ
threads w = w.starting + w.running + w.attaching + w.hosts

-- what is destroyed, or is to be by a thread that has detached
abbrev pub ending : Crowd → ℕ
ending w = w.doomed + w.sure + w.destroyed

-- Who is still to destroy the process, by where `lfi_proc_free` is and whether it left that to others.
abbrev pub Phase : Freer → Bool → Crowd → Type 0
Phase idle false w = (ending w ≡ 0) × (w.hosts + w.attaching ≡ 0 → w.running + w.starting ≡ 0)
Phase deferring false w = (ending w ≡ 0) × (0 < w.hosts + w.attaching)
Phase destroying false w = (ending w ≡ 0) × (threads w ≡ 0)
Phase returned false w = (w.doomed ≡ 0) × (w.sure ≡ 0) × (w.destroyed ≡ 1) × (threads w ≡ 0)
Phase returned true w =
    (0 < w.hosts + w.attaching → ending w ≡ 0)
    × (w.hosts + w.attaching ≡ 0 → ending w ≡ 1)
    × (0 < w.sure + w.destroyed → threads w ≡ 0)
Phase f false w = ending w ≡ 0
Phase f true w = ⊥

pub spawns-Phase :
    (f : Freer) (b : Bool) (w : Crowd)
    → (f ≡ not_called) ⊎ (0 < w.running + w.hosts + w.attaching)
    → Phase f b w
    → Phase f b (record w { starting = w.starting + 1 })
spawns-Phase not_called false w inside h = ground arith
spawns-Phase waiting false w inside h = ground arith
spawns-Phase idle false w inside h = ground arith
spawns-Phase deferring false w inside h = ground arith
spawns-Phase destroying false w inside h = ground arith
spawns-Phase returned false w inside h = ground arith
spawns-Phase returned true w inside h = ground arith
spawns-Phase not_called true w inside h = elim h [ ]
spawns-Phase waiting true w inside h = elim h [ ]
spawns-Phase idle true w inside h = elim h [ ]
spawns-Phase deferring true w inside h = elim h [ ]
spawns-Phase destroying true w inside h = elim h [ ]

pub spawned-Phase :
    (f : Freer) (b : Bool) (w : Crowd)
    → 0 < w.starting
    → Phase f b w
    → Phase f b (record w { starting = w.starting - 1; running = w.running + 1 })
spawned-Phase not_called false w some_thread h = ground arith
spawned-Phase waiting false w some_thread h = ground arith
spawned-Phase idle false w some_thread h = ground arith
spawned-Phase deferring false w some_thread h = ground arith
spawned-Phase destroying false w some_thread h = ground arith
spawned-Phase returned false w some_thread h = ground arith
spawned-Phase returned true w some_thread h = ground arith
spawned-Phase not_called true w some_thread h = elim h [ ]
spawned-Phase waiting true w some_thread h = elim h [ ]
spawned-Phase idle true w some_thread h = elim h [ ]
spawned-Phase deferring true w some_thread h = elim h [ ]
spawned-Phase destroying true w some_thread h = elim h [ ]

pub spawn_fails-Phase :
    (f : Freer) (b : Bool) (w : Crowd)
    → 0 < w.starting
    → Phase f b w
    → Phase f b (record w { starting = w.starting - 1 })
spawn_fails-Phase not_called false w some_thread h = ground arith
spawn_fails-Phase waiting false w some_thread h = ground arith
spawn_fails-Phase idle false w some_thread h = ground arith
spawn_fails-Phase deferring false w some_thread h = ground arith
spawn_fails-Phase destroying false w some_thread h = ground arith
spawn_fails-Phase returned false w some_thread h = ground arith
spawn_fails-Phase returned true w some_thread h = ground arith
spawn_fails-Phase not_called true w some_thread h = elim h [ ]
spawn_fails-Phase waiting true w some_thread h = elim h [ ]
spawn_fails-Phase idle true w some_thread h = elim h [ ]
spawn_fails-Phase deferring true w some_thread h = elim h [ ]
spawn_fails-Phase destroying true w some_thread h = elim h [ ]

pub thread_ends-Phase :
    (f : Freer) (b : Bool) (w : Crowd)
    → 0 < w.running
    → Phase f b w
    → Phase f b (record w { running = w.running - 1 })
thread_ends-Phase not_called false w some_thread h = ground arith
thread_ends-Phase waiting false w some_thread h = ground arith
thread_ends-Phase idle false w some_thread h = ground arith
thread_ends-Phase deferring false w some_thread h = ground arith
thread_ends-Phase destroying false w some_thread h = ground arith
thread_ends-Phase returned false w some_thread h = ground arith
thread_ends-Phase returned true w some_thread h = ground arith
thread_ends-Phase not_called true w some_thread h = elim h [ ]
thread_ends-Phase waiting true w some_thread h = elim h [ ]
thread_ends-Phase idle true w some_thread h = elim h [ ]
thread_ends-Phase deferring true w some_thread h = elim h [ ]
thread_ends-Phase destroying true w some_thread h = elim h [ ]

pub attaches-Phase :
    (f : Freer) (b : Bool) (w : Crowd)
    → f ≡ not_called
    → Phase f b w
    → Phase f b (record w { attaching = w.attaching + 1 })
attaches-Phase not_called false w early h = ground arith
attaches-Phase waiting false w early h = ground arith
attaches-Phase idle false w early h = ground arith
attaches-Phase deferring false w early h = ground arith
attaches-Phase destroying false w early h = ground arith
attaches-Phase returned false w early h = ground arith
attaches-Phase returned true w early h = ground arith
attaches-Phase not_called true w early h = elim h [ ]
attaches-Phase waiting true w early h = elim h [ ]
attaches-Phase idle true w early h = elim h [ ]
attaches-Phase deferring true w early h = elim h [ ]
attaches-Phase destroying true w early h = elim h [ ]

pub attached-Phase :
    (f : Freer) (b : Bool) (w : Crowd)
    → 0 < w.attaching
    → Phase f b w
    → Phase f b (record w { attaching = w.attaching - 1; hosts = w.hosts + 1 })
attached-Phase not_called false w some_thread h = ground arith
attached-Phase waiting false w some_thread h = ground arith
attached-Phase idle false w some_thread h = ground arith
attached-Phase deferring false w some_thread h = ground arith
attached-Phase destroying false w some_thread h = ground arith
attached-Phase returned false w some_thread h = ground arith
attached-Phase returned true w some_thread h = ground arith
attached-Phase not_called true w some_thread h = elim h [ ]
attached-Phase waiting true w some_thread h = elim h [ ]
attached-Phase idle true w some_thread h = elim h [ ]
attached-Phase deferring true w some_thread h = elim h [ ]
attached-Phase destroying true w some_thread h = elim h [ ]

pub last_sees_idle-Phase :
    (f : Freer) (b : Bool) (w : Crowd)
    → 0 < w.doomed
    → w.running + w.starting ≡ 0
    → Phase f b w
    → Phase f b (record w { doomed = w.doomed - 1; sure = w.sure + 1 })
last_sees_idle-Phase not_called false w some_doomed none_active h = ground arith
last_sees_idle-Phase waiting false w some_doomed none_active h = ground arith
last_sees_idle-Phase idle false w some_doomed none_active h = ground arith
last_sees_idle-Phase deferring false w some_doomed none_active h = ground arith
last_sees_idle-Phase destroying false w some_doomed none_active h = ground arith
last_sees_idle-Phase returned false w some_doomed none_active h = ground arith
last_sees_idle-Phase returned true w some_doomed none_active h = ground arith
last_sees_idle-Phase not_called true w some_doomed none_active h = elim h [ ]
last_sees_idle-Phase waiting true w some_doomed none_active h = elim h [ ]
last_sees_idle-Phase idle true w some_doomed none_active h = elim h [ ]
last_sees_idle-Phase deferring true w some_doomed none_active h = elim h [ ]
last_sees_idle-Phase destroying true w some_doomed none_active h = elim h [ ]

pub last_destroys-Phase :
    (f : Freer) (b : Bool) (w : Crowd)
    → 0 < w.sure
    → Phase f b w
    → Phase f b (record w { sure = w.sure - 1; destroyed = w.destroyed + 1 })
last_destroys-Phase not_called false w some_sure h = ground arith
last_destroys-Phase waiting false w some_sure h = ground arith
last_destroys-Phase idle false w some_sure h = ground arith
last_destroys-Phase deferring false w some_sure h = ground arith
last_destroys-Phase destroying false w some_sure h = ground arith
last_destroys-Phase returned false w some_sure h = ground arith
last_destroys-Phase returned true w some_sure h = ground arith
last_destroys-Phase not_called true w some_sure h = elim h [ ]
last_destroys-Phase waiting true w some_sure h = elim h [ ]
last_destroys-Phase idle true w some_sure h = elim h [ ]
last_destroys-Phase deferring true w some_sure h = elim h [ ]
last_destroys-Phase destroying true w some_sure h = elim h [ ]

-- `detach_ctx` by whether this is the last host thread
abbrev pub leaves : Bool → Crowd → Crowd
leaves true w = record w { hosts = w.hosts - 1; doomed = w.doomed + 1 }
leaves false w = record w { hosts = w.hosts - 1 }

pub detaches-Phase :
    (f : Freer) (b : Bool) (w : Crowd)
    → 0 < w.hosts
    → Unlocked f
    → Phase f b w
    → Phase f b (leaves (w.hosts + w.attaching - 1 == 0 && b) w)
detaches-Phase returned true w some_thread free h =
    elim (Bool-cases (w.hosts + w.attaching - 1 == 0)) [
      | inl last ↦ rw last (ground arith)
      | inr more ↦ rw more (ground arith)
    ]
detaches-Phase not_called false w some_thread free h = ground arith
detaches-Phase waiting false w some_thread free h = elim free [ ]
detaches-Phase idle false w some_thread free h = elim free [ ]
detaches-Phase deferring false w some_thread free h = elim free [ ]
detaches-Phase destroying false w some_thread free h = ground arith
detaches-Phase returned false w some_thread free h = ground arith
detaches-Phase not_called true w some_thread free h = elim h [ ]
detaches-Phase waiting true w some_thread free h = elim h [ ]
detaches-Phase idle true w some_thread free h = elim h [ ]
detaches-Phase deferring true w some_thread free h = elim h [ ]
detaches-Phase destroying true w some_thread free h = elim h [ ]

pub frees-Phase : (b : Bool) (w : Crowd) → Phase not_called b w → Phase waiting b w
frees-Phase false w h = ground arith
frees-Phase true w h = elim h [ ]

pub sees_idle-Phase :
    (b : Bool) (w : Crowd) → w.running + w.starting ≡ 0 → Phase waiting b w → Phase idle b w
sees_idle-Phase false w none_active h = ground arith
sees_idle-Phase true w none_active h = elim h [ ]

pub sees_attached-Phase :
    (b : Bool) (w : Crowd) → 0 < w.hosts + w.attaching → Phase idle b w → Phase deferring b w
sees_attached-Phase false w some_host h = ground arith
sees_attached-Phase true w some_host h = elim h [ ]

pub sees_none-Phase :
    (b : Bool) (w : Crowd) → w.hosts + w.attaching ≡ 0 → Phase idle b w → Phase destroying b w
sees_none-Phase false w no_host h = ground arith
sees_none-Phase true w no_host h = elim h [ ]

pub defers-Phase : (b : Bool) (w : Crowd) → Phase deferring b w → Phase returned true w
defers-Phase false w h = ground arith
defers-Phase true w h = elim h [ ]

pub destroys-Phase :
    (b : Bool) (w : Crowd)
    → Phase destroying b w
    → Phase returned b (record w { destroyed = w.destroyed + 1 })
destroys-Phase false w h = ground arith
destroys-Phase true w h = elim h [ ]
