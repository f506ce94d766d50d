-- ===== src/Fd.antt =====
-- linux/fd.c: the table of a process's file descriptors. The three arrays `fds`, `dirs` and `flags`
-- are one list of slots, `none` in `fd` is -1, and a directory is the bytes of its name. What the
-- host answers is an argument: the descriptor that `dup` gives, and whether `malloc` and `dup2`
-- work. The table's lock makes an operation one step.
pub mod Table
pub mod Copy
pub mod Dup
pub mod Session
pub mod Tests
use lfi_runtime.Prelude.{
  ℕ, zero, suc, ◌-◌, Bool, true, false, not, ◌&&◌, ◌||◌, Option, none, some, List, [], ◌∷◌,
  if◌then◌else◌, ◌==◌, leb, get_or, set, replicate, take, find_index, Run, done, aborted, ◌>>=◌,
  ◌>>◌, assert, ℤ, pos, negsuc, neg,
}

abbrev pub linux_nofile : ℕ
linux_nofile = 1024

abbrev pub linux_ebadf : ℕ
linux_ebadf = 9

abbrev pub linux_enomem : ℕ
linux_enomem = 12

abbrev pub linux_einval : ℕ
linux_einval = 22

abbrev pub linux_emfile : ℕ
linux_emfile = 24

abbrev pub filename_max : ℕ
filename_max = 4096

-- the bytes of a string, without the 0 at its end
abbrev pub Dir : Type 0
Dir = List ℕ

pub record Slot : Type 0 where
  pub fd : Option ℕ
  pub dir : Option Dir
  pub flags : ℕ

pub record FdTable : Type 0 where
  pub passthrough : Bool
  pub slots : List Slot

abbrev pub free_slot : Slot
free_slot = record { fd = none; dir = none; flags = 0 }

abbrev pub slot_at : FdTable → ℕ → Slot
slot_at t fd = get_or t.slots fd free_slot

abbrev pub put : FdTable → ℕ → Slot → FdTable
put t fd s = record t { slots = set t.slots fd s }

abbrev pub is_none {ℓ} : {A : Type ℓ} → Option A → Bool
is_none none = true
is_none (some a) = false

-- What the host answers to the calls of `fddup2`.
pub record Answers : Type 0 where
  pub malloc_ok : Bool
  pub dup : Option ℕ
  pub dup2_ok : Bool

-- the loop for the lowest free slot, of `fdalloc` and `fddup2`
unfoldable pub lowest_free : FdTable → Option ℕ
lowest_free t = find_index (λ (s : Slot). is_none s.fd) t.slots

unfoldable pub fdalloc : FdTable → ℕ → Option Dir → ℕ → ℤ × FdTable
fdalloc t host_fd dir flags = if t.passthrough then (pos host_fd, t) else elim (lowest_free t) [
  | none ↦ (neg linux_emfile, t)
  | some fd ↦ (pos fd, put t fd (record { fd = some host_fd; dir = dir; flags = flags }))
]

-- the host descriptor, the flags and whether it is a directory; `dup` is the answer of the host
unfoldable pub fdacquire : Option ℕ → FdTable → ℤ → ℤ × ℕ × Bool
fdacquire dup t (negsuc n) = if t.passthrough then (negsuc n, 0, false) else (negsuc 0, 0, false)
fdacquire dup t (pos fd) =
    let slot = slot_at t fd in
    if t.passthrough
    then (pos fd, 0, false)
    else if leb linux_nofile fd || is_none slot.fd
    then (negsuc 0, 0, false)
    else elim dup [
      | none ↦ (negsuc 0, slot.flags, not (is_none slot.dir))
      | some k ↦ (pos k, slot.flags, not (is_none slot.dir))
    ]

-- the host descriptors that are closed
unfoldable pub fdrelease : FdTable → ℤ → List ℕ
fdrelease t (negsuc n) = []
fdrelease t (pos hostfd) = if t.passthrough then [] else hostfd ∷ []

-- `newfd < -1 || newfd >= LINUX_NOFILE`
abbrev pub bad_newfd : ℤ → Bool
bad_newfd (pos n) = leb linux_nofile n
bad_newfd (negsuc zero) = false
bad_newfd (negsuc (suc n)) = true

abbrev pub is_pos : ℤ → ℕ → Bool
is_pos (pos n) m = n == m
is_pos (negsuc n) m = false

-- `strncpy` and the 0 that is put at the end
unfoldable pub copy_dir : Dir → Dir
copy_dir d = take (filename_max - 1) d

-- the end of `fddup2`, whose `dir` is not NULL where it is used: the new slot gets the directory and the flags of the old one
unfoldable pub copy_into : FdTable → ℕ → Slot → Option Dir → ℕ → Run (ℤ × FdTable)
copy_into t newfd new none flags = done (pos newfd, put t newfd (record new { flags = flags }))
copy_into t newfd new (some d) flags =
    assert (is_none new.dir)
    >> done (pos newfd, put t newfd (record new { dir = some (copy_dir d); flags = flags }))

unfoldable pub copy_slot : FdTable → ℕ → ℕ → Run (ℤ × FdTable)
copy_slot t oldfd newfd =
    copy_into t newfd (slot_at t newfd) (slot_at t oldfd).dir (slot_at t oldfd).flags

-- `newfd == -1`
unfoldable pub dup_lowest : Answers → FdTable → ℕ → Run (ℤ × FdTable)
dup_lowest a t oldfd = elim (lowest_free t) [
  | none ↦ done (neg linux_emfile, t)
  | some newfd ↦ elim a.dup [
    | none ↦ done (neg linux_einval, t)
    | some k ↦ copy_slot (put t newfd (record (slot_at t newfd) { fd = some k })) oldfd newfd
  ]
]

unfoldable pub dup_onto : Answers → FdTable → ℕ → ℕ → Run (ℤ × FdTable)
dup_onto a t oldfd newfd = elim (slot_at t newfd).fd [
  | none ↦ elim a.dup [
    | none ↦ done (neg linux_einval, t)
    | some k ↦
        copy_slot (put t newfd (record (slot_at t newfd) { fd = some k; dir = none })) oldfd newfd
  ]
  | some k ↦
      if not a.dup2_ok
      then done (neg linux_einval, t)
      else copy_slot (put t newfd (record (slot_at t newfd) { fd = some k; dir = none })) oldfd
          newfd
]

-- the branch on `newfd`
unfoldable pub dup_to : Answers → FdTable → ℕ → ℤ → Run (ℤ × FdTable)
dup_to a t oldfd (pos newfd) = dup_onto a t oldfd newfd
dup_to a t oldfd (negsuc n) = dup_lowest a t oldfd

unfoldable pub fddup2 : Answers → FdTable → ℤ → ℤ → Run (ℤ × FdTable)
fddup2 a t (negsuc n) newfd = done (neg linux_ebadf, t)
fddup2 a t (pos oldfd) newfd =
    if leb linux_nofile oldfd || bad_newfd newfd || is_none (slot_at t oldfd).fd
    then done (neg linux_ebadf, t)
    else if is_pos newfd oldfd
    then done (newfd, t)
    else if not (is_none (slot_at t oldfd).dir) && not a.malloc_ok
    then done (neg linux_enomem, t)
    else dup_to a t oldfd newfd

-- the answer, the table, and the host descriptors that are closed
unfoldable pub fdclose : FdTable → ℤ → Bool × FdTable × List ℕ
fdclose t (negsuc n) = (t.passthrough, t, [])
fdclose t (pos fd) =
    if t.passthrough
    then (true, t, [])
    else if leb linux_nofile fd
    then (false, t, [])
    else elim (slot_at t fd).fd [
      | none ↦ (false, t, [])
      | some k ↦ (true, put t fd free_slot, k ∷ [])
    ]

-- The build without SYS_MINIMAL; the arguments are the answers of `dup` for the standard streams.
unfoldable pub fdinit : Bool → Option ℕ → Option ℕ → Option ℕ → FdTable
fdinit sys_passthrough stdin stdout stderr =
    let stream = λ (k : Option ℕ). record free_slot { fd = k } in
    record {
      passthrough = sys_passthrough;
      slots = stream stdin ∷ stream stdout ∷ stream stderr ∷ replicate (linux_nofile - 3) free_slot;
    }

-- the loop of `fdfree`, with the host descriptors that are closed
unfoldable pub free_slots : List Slot → List Slot × List ℕ
free_slots [] = ([], [])
free_slots (s ∷ ss) =
    let (ss', closed) = free_slots ss in
    elim s.fd [
      | none ↦ (s ∷ ss', closed)
      | some k ↦ (record s { fd = none; dir = none } ∷ ss', k ∷ closed)
    ]

unfoldable pub fdfree : FdTable → FdTable × List ℕ
fdfree t = let (ss, closed) = free_slots t.slots in (record t { slots = ss }, closed)
