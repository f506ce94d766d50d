-- ===== src/Fd/Dup.antt =====
-- `fddup2` of linux/fd.c on a table in order.
use native.Mathlib.Omega.{arith}
use lfi_runtime.Prelude.{
  ℕ, zero, suc, ◌<◌, ◌≡◌, ◌≢◌, refl, sym, ap, subst, ◌∙◌, inl, inr, Bool, true, false, not, ◌&&◌,
  ◌||◌, Option, none, some, if◌then◌else◌, IsFirst, find_index, find_index-IsFirst, ℤ, pos, negsuc,
  Run, done, Returns, returns, Bool-cases, leb, neg,
}
use lfi_runtime.Fd.{
  FdTable, Slot, Dir, free_slot, slot_at, put, is_none, linux_nofile, lowest_free, Answers,
  copy_slot, dup_lowest, dup_onto, dup_to, fddup2, bad_newfd, is_pos,
}
use lfi_runtime.Fd.Copy.{Copied, copy_slot-Copied}
use lfi_runtime.Fd.Table.{IsTable, IsFresh, host_fd, Keeps, same, fresh}

-- The slot that a request for `newfd` is for: that slot, or for -1 the lowest one that is free.
pub data Target (t : FdTable) : ℤ → ℕ → Type 0 where
  named : (n : ℕ) → n < linux_nofile → Target t (pos n) n
  lowest :
      (n : ℕ)
      → n < linux_nofile
      → is_none (host_fd t n) ≡ true
      → ((i : ℕ) → i < n → is_none (host_fd t i) ≡ false)
      → Target t (negsuc 0) n

-- One of the two descriptors is out of range, or the old one is not open.
abbrev pub bad_fds : FdTable → ℕ → ℤ → Bool
bad_fds t oldfd newfd = leb linux_nofile oldfd || bad_newfd newfd || is_none (host_fd t oldfd)

-- There is a directory to copy, and no memory for it.
abbrev pub no_memory_for : Answers → FdTable → ℕ → Bool
no_memory_for a t oldfd = not (is_none (slot_at t oldfd).dir) && not a.malloc_ok

-- The host descriptor of the new slot: what `dup` gives to a free slot, and for an open slot its own,
-- where `dup2` onto it works.
abbrev pub given : Answers → Option ℕ → Option ℕ
given a none = a.dup
given a (some k) = if a.dup2_ok then some k else none

-- The ends of `fddup2`: EBADF, the same descriptor, ENOMEM, EMFILE or EINVAL, and nothing changes,
-- or a copy.
pub data Duped (a : Answers) (t : FdTable) (oldfd : ℕ) (newfd : ℤ) : ℤ × FdTable → Type 0 where
  refused : bad_fds t oldfd newfd ≡ true → Duped a t oldfd newfd (neg 9, t)
  itself : bad_fds t oldfd newfd ≡ false → newfd ≡ pos oldfd → Duped a t oldfd newfd (pos oldfd, t)
  no_memory :
      bad_fds t oldfd newfd ≡ false
      → newfd ≢ pos oldfd
      → no_memory_for a t oldfd ≡ true
      → Duped a t oldfd newfd (neg 12, t)
  all_used :
      bad_fds t oldfd newfd ≡ false
      → no_memory_for a t oldfd ≡ false
      → newfd ≡ negsuc 0
      → ((i : ℕ) → i < linux_nofile → is_none (host_fd t i) ≡ false)
      → Duped a t oldfd newfd (neg 24, t)
  host_refused :
      (n : ℕ)
      → bad_fds t oldfd newfd ≡ false
      → newfd ≢ pos oldfd
      → no_memory_for a t oldfd ≡ false
      → Target t newfd n
      → given a (host_fd t n) ≡ none
      → Duped a t oldfd newfd (neg 22, t)
  copied :
      {t' : FdTable} (n k : ℕ)
      → bad_fds t oldfd newfd ≡ false
      → newfd ≢ pos oldfd
      → no_memory_for a t oldfd ≡ false
      → Target t newfd n
      → given a (host_fd t n) ≡ some k
      → Copied t oldfd n k t'
      → Duped a t oldfd newfd (pos n, t')

-- What the host gives to `dup` is a descriptor that no slot holds.
abbrev pub GivesFresh : FdTable → Option ℕ → Type 0
GivesFresh t none = Unit
GivesFresh t (some k) = IsFresh t k

-- The condition on a run of `fddup2`.
abbrev pub Dups : Answers → FdTable → ℕ → ℤ → ℤ × FdTable → Type 0
Dups a t oldfd newfd r = IsTable r.1 × Duped a t oldfd newfd r

is_none_eq : {o : Option Dir} → is_none o ≡ true → o ≡ none
is_none_eq {o = none} e = refl
is_none_eq {o = some d} e = absurd (ground arith)

module _ (a : Answers) {t : FdTable} (h : IsTable t) (new : GivesFresh t a.dup) (oldfd : ℕ)
    (newfd : ℤ) (good : bad_fds t oldfd newfd ≡ false) (ne : newfd ≢ pos oldfd)
    (room : no_memory_for a t oldfd ≡ false) where
  copy_slot-Dups :
      (n k : ℕ)
      → n < linux_nofile
      → oldfd ≢ n
      → Target t newfd n
      → given a (host_fd t n) ≡ some k
      → Keeps t n (some k)
      → Returns (Dups a t oldfd newfd) (
          copy_slot
            (put t n (record { fd = some k; dir = none; flags = (slot_at t n).flags }))
            oldfd
            n)
  copy_slot-Dups n k inside apart target e keeps =
      go (copy_slot-Copied h oldfd n inside apart k keeps)
    where
      go :
          {r : Run (ℤ × FdTable)}
          → Returns (λ (r : ℤ × FdTable). (r.0 ≡ pos n) × Copied t oldfd n k r.1) r
          → Returns (Dups a t oldfd newfd) r
      go (returns {a = (z, t')} (ez, c)) =
          returns (c.table, rw ez (copied n k good ne room target e c))

  -- The slot is free, and `dup` of the host gives its descriptor.
  take_free :
      (n : ℕ) (d : Option ℕ) (dir : Option Dir)
      → dir ≡ none
      → GivesFresh t d
      → given a (host_fd t n) ≡ d
      → n < linux_nofile
      → oldfd ≢ n
      → Target t newfd n
      → Returns (Dups a t oldfd newfd) (elim d as (λ x. Run (ℤ × FdTable)) [
        | none ↦ done (neg 22, t)
        | some k ↦
            copy_slot
              (put t n (record { fd = some k; dir = dir; flags = (slot_at t n).flags }))
              oldfd
              n
      ])
  take_free n none dir clean fr e inside apart target =
      returns (h, host_refused n good ne room target e)
  take_free n (some k) dir clean fr e inside apart target =
      rw clean (copy_slot-Dups n k inside apart target e (fresh k fr))

  given-free : (n : ℕ) → is_none (host_fd t n) ≡ true → given a (host_fd t n) ≡ a.dup
  given-free n free = go (host_fd t n) free
    where
      go : (o : Option ℕ) → is_none o ≡ true → given a o ≡ a.dup
      go none e = refl
      go (some k) e = absurd (ground arith)

  dup_lowest-Dups : newfd ≡ negsuc 0 → Returns (Dups a t oldfd newfd) (dup_lowest a t oldfd)
  unfolding dup_lowest lowest_free
  dup_lowest-Dups least =
      slot (find_index (λ (s : Slot). is_none s.fd) t.slots)
        (find_index-IsFirst (λ (s : Slot). is_none s.fd) t.slots free_slot)
    where
      apart : (n : ℕ) → is_none (host_fd t n) ≡ true → oldfd ≢ n
      apart n free e = absurd (
          let free' : is_none (host_fd t oldfd) ≡ true =
            subst (λ x. is_none (host_fd t x) ≡ true) (sym e) free in
          let opened : is_none (host_fd t oldfd) ≡ false = ground arith in ground arith)

      slot :
          (r : Option ℕ)
          → IsFirst (λ (s : Slot). is_none s.fd) t.slots free_slot r
          → Returns (Dups a t oldfd newfd) (elim r as (λ x. Run (ℤ × FdTable)) [
            | none ↦ done (neg 24, t)
            | some n ↦ elim a.dup as (λ x. Run (ℤ × FdTable)) [
              | none ↦ done (neg 22, t)
              | some k ↦ copy_slot (put t n (record (slot_at t n) { fd = some k })) oldfd n
            ]
          ])
      slot none first =
          returns (h, all_used good room least (λ i lt. first i (omega (arith, h.size))))
      slot (some n) (lt, free, before) =
          let inside : n < linux_nofile = omega (arith, h.size) in
          let target : Target t newfd n =
            subst (λ z. Target t z n) (sym least) (lowest n inside free before) in
          take_free n a.dup (slot_at t n).dir (is_none_eq (h.clean n free)) new (given-free n free)
            inside (apart n free) target

  dup_onto-Dups :
      (n : ℕ)
      → n < linux_nofile
      → newfd ≡ pos n
      → Returns (Dups a t oldfd newfd) (dup_onto a t oldfd n)
  unfolding dup_onto
  dup_onto-Dups n inside at = slot (host_fd t n) refl
    where
      apart : oldfd ≢ n
      apart e = ne (at ∙ ap pos (sym e))

      target : Target t newfd n
      target = subst (λ z. Target t z n) (sym at) (named n inside)

      held :
          (k : ℕ) (ok : Bool)
          → host_fd t n ≡ some k
          → given a (host_fd t n) ≡ (if ok then some k else none)
          → Returns (Dups a t oldfd newfd) (
              if not ok
              then done (neg 22, t)
              else copy_slot (put t n (record (slot_at t n) { fd = some k; dir = none })) oldfd n)
      held k false e e' = returns (h, host_refused n good ne room target e')
      held k true e e' = copy_slot-Dups n k inside apart target e' (subst (Keeps t n) e same)

      slot :
          (o : Option ℕ)
          → host_fd t n ≡ o
          → Returns (Dups a t oldfd newfd) (elim o as (λ x. Run (ℤ × FdTable)) [
            | none ↦ elim a.dup as (λ x. Run (ℤ × FdTable)) [
              | none ↦ done (neg 22, t)
              | some k ↦
                  copy_slot (put t n (record (slot_at t n) { fd = some k; dir = none })) oldfd n
            ]
            | some k ↦
                if not a.dup2_ok
                then done (neg 22, t)
                else copy_slot (put t n (record (slot_at t n) { fd = some k; dir = none })) oldfd n
          ])
      slot none e = take_free n a.dup none refl new (ap (given a) e) inside apart target
      slot (some k) e = held k a.dup2_ok e (ap (given a) e)

  dup_to-Dups : Returns (Dups a t oldfd newfd) (dup_to a t oldfd newfd)
  unfolding dup_to
  dup_to-Dups = go newfd refl good
    where
      go :
          (z : ℤ)
          → newfd ≡ z
          → bad_fds t oldfd z ≡ false
          → Returns (Dups a t oldfd newfd) (dup_to a t oldfd z)
      go (pos n) e ok = dup_onto-Dups n (ground arith) e
      go (negsuc zero) e ok = dup_lowest-Dups e
      go (negsuc (suc n)) e ok = absurd (ground arith)

is_pos_eq : (z : ℤ) (n : ℕ) → is_pos z n ≡ true → z ≡ pos n
is_pos_eq (pos m) n e = ap pos (ground arith)
is_pos_eq (negsuc m) n e = absurd (ground arith)

is_pos_ne : (z : ℤ) (n : ℕ) → is_pos z n ≡ false → z ≢ pos n
is_pos_ne z n e e' =
    let same : is_pos (pos n) n ≡ false = subst (λ x. is_pos x n ≡ false) e' e in ground arith

-- On a table in order, where `dup` of the host gives a descriptor that no slot holds, `fddup2` of a
-- descriptor that is not negative never fails its assertion, and the table stays in order. It answers
-- -9 where a descriptor is out of range or the old one is not open, the descriptor itself where both
-- are the same, -12 where the memory for the directory is not given, -24 where -1 asks for a free slot
-- and there is none, and -22 where the host refuses; then nothing changes. Otherwise the slot asked
-- for, which for -1 is the lowest free one, is a copy of the old one with its flags and its directory,
-- under the host descriptor that `dup` gave, or under its own where it was open, and every other slot
-- is as before.
pub fddup2-Dups :
    {t : FdTable} (a : Answers) (oldfd : ℕ) (newfd : ℤ)
    → IsTable t
    → GivesFresh t a.dup
    → Returns (Dups a t oldfd newfd) (fddup2 a t (pos oldfd) newfd)
unfolding fddup2
fddup2-Dups {t} a oldfd newfd h new = elim (Bool-cases (bad_fds t oldfd newfd)) [
  | inl bad ↦ rw bad (returns (h, refused bad))
  | inr good ↦ rw good (elim (Bool-cases (is_pos newfd oldfd)) [
    | inl e ↦
        let eq = is_pos_eq newfd oldfd e in
        rw e (returns (h, subst (λ z. Duped a t oldfd newfd (z, t)) (sym eq) (itself good eq)))
    | inr ne ↦
        let apart = is_pos_ne newfd oldfd ne in
        rw ne (elim (Bool-cases (no_memory_for a t oldfd)) [
          | inl lack ↦ rw lack (returns (h, no_memory good apart lack))
          | inr room ↦ rw room (dup_to-Dups a h new oldfd newfd good apart room)
        ])
  ])
]
