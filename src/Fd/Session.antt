-- ===== src/Fd/Session.antt =====
-- A table of linux/fd.c in use: `fdalloc`, `fddup2` and `fdclose` in any order.
use native.Mathlib.Omega.{arith}
use lfi_runtime.Prelude.{
  ℕ, zero, suc, ◌<◌, ◌≡◌, ◌≢◌, refl, sym, ap, subst, ◌∙◌, ◌⊎◌, inl, inr, Bool, true, false, Option,
  none, some, List, [], ◌∷◌, eq_cases, length, if◌then◌else◌, get_or, get_or-replicate, ◌-◌,
  length-replicate, IsFirst, find_index, find_index-IsFirst, ℤ, pos, done, of_Returns, if_false,
  Bool-cases, leb, neg,
}
use lfi_runtime.Fd.{
  FdTable, Slot, Dir, free_slot, slot_at, put, is_none, linux_nofile, lowest_free, Answers, fddup2,
  fdalloc, fdclose, fdinit,
}
use lfi_runtime.Fd.Table.{
  IsTable, IsClean, IsFresh, host_fd, gone, fresh, put_self, put_other, put-IsTable,
}
use lfi_runtime.Fd.Dup.{GivesFresh, fddup2-Dups}

-- The ends of `fdalloc`: every slot is in use, or the lowest free slot gets the descriptor.
pub data Allocated (t : FdTable) (k : ℕ) (dir : Option Dir) (flags : ℕ) : ℤ × FdTable → Type 0 where
  full :
      ((i : ℕ) → i < linux_nofile → is_none (host_fd t i) ≡ false)
      → Allocated t k dir flags (neg 24, t)
  placed :
      {t' : FdTable} (fd : ℕ)
      → fd < linux_nofile
      → is_none (host_fd t fd) ≡ true
      → ((i : ℕ) → i < fd → is_none (host_fd t i) ≡ false)
      → slot_at t' fd ≡ record { fd = some k; dir = dir; flags = flags }
      → ((i : ℕ) → fd ≢ i → slot_at t' i ≡ slot_at t i)
      → Allocated t k dir flags (pos fd, t')

-- On a table in order that does not pass descriptors through, `fdalloc` of a host descriptor that no
-- slot holds puts it into the lowest free slot, or every slot is in use and nothing changes. The
-- table stays in order.
pub fdalloc-Allocated :
    {t : FdTable} (k : ℕ) (dir : Option Dir) (flags : ℕ)
    → IsTable t
    → t.passthrough ≡ false
    → IsFresh t k
    → IsTable (fdalloc t k dir flags).1 × Allocated t k dir flags (fdalloc t k dir flags)
unfolding fdalloc lowest_free
fdalloc-Allocated {t} k dir flags h off new = if_false ends _ _ t.passthrough off (
    slot (find_index (λ (s : Slot). is_none s.fd) t.slots)
      (find_index-IsFirst (λ (s : Slot). is_none s.fd) t.slots free_slot))
  where
    given : Slot
    given = record { fd = some k; dir = dir; flags = flags }

    ends : ℤ × FdTable → Type 0
    ends r = IsTable r.1 × Allocated t k dir flags r

    slot :
        (r : Option ℕ)
        → IsFirst (λ (s : Slot). is_none s.fd) t.slots free_slot r
        → ends (elim r as (λ x. ℤ × FdTable) [
          | none ↦ (neg 24, t)
          | some fd ↦ (pos fd, put t fd given)
        ])
    slot none first = (h, full (λ i lt. first i (omega (arith, h.size))))
    slot (some fd) (lt, free, before) =
        let inside : fd < linux_nofile = omega (arith, h.size) in
        (
          put-IsTable h fd inside given (λ e. absurd (ground arith)) (fresh k new),
          placed fd inside free before (put_self h fd inside given) (put_other h fd inside given),
        )

-- The ends of `fdclose` of descriptor `fd`: it is not open, nothing is closed and nothing changes;
-- or its host descriptor is closed, once, and after that no slot holds it.
pub data Closed (t : FdTable) (fd : ℕ) : Bool × FdTable × List ℕ → Type 0 where
  not_open : is_none (host_fd t fd) ≡ true → Closed t fd (false, t, [])
  closed :
      {t' : FdTable} (k : ℕ)
      → host_fd t fd ≡ some k
      → is_none (host_fd t' fd) ≡ true
      → IsFresh t' k
      → ((i : ℕ) → fd ≢ i → slot_at t' i ≡ slot_at t i)
      → Closed t fd (true, t', k ∷ [])

-- Outside the array every slot is free.
outside : (t : FdTable) (fd : ℕ) → leb (length t.slots) fd ≡ true → slot_at t fd ≡ free_slot
outside t fd past = go t.slots fd past
  where
    go : (ss : List Slot) (i : ℕ) → leb (length ss) i ≡ true → get_or ss i free_slot ≡ free_slot
    go [] i e = refl
    go (s ∷ ss) zero e = absurd (ground arith)
    go (s ∷ ss) (suc i) e = go ss i (ground arith)

-- On a table in order that does not pass descriptors through, `fdclose` closes exactly the host
-- descriptor of an open slot, which no slot holds afterwards. The table stays in order.
pub fdclose-Closed :
    {t : FdTable} (fd : ℕ)
    → IsTable t
    → t.passthrough ≡ false
    → IsTable (fdclose t (pos fd)).1 × Closed t fd (fdclose t (pos fd))
unfolding fdclose
fdclose-Closed {t} fd h off =
    if_false ends _ _ t.passthrough off (elim (Bool-cases (leb linux_nofile fd)) [
      | inl past ↦
          let past' : leb (length t.slots) fd ≡ true = rw h.size past in
          rw past (h, not_open (ap (λ (s : Slot). is_none s.fd) (outside t fd past')))
      | inr within ↦ rw within (slot (host_fd t fd) refl (ground arith))
    ])
  where
    ends : Bool × FdTable × List ℕ → Type 0
    ends r = IsTable r.1 × Closed t fd r

    no_fd : {k : ℕ} → none ≢ some k
    no_fd e = ground arith

    free_again :
        (k : ℕ) → host_fd t fd ≡ some k → fd < linux_nofile → IsFresh (put t fd free_slot) k
    free_again k e inside i e' = elim (eq_cases fd i) [
      | inl here ↦ no_fd (
          sym (ap (λ (s : Slot). s.fd) (put_self h fd inside free_slot))
          ∙ subst (λ x. host_fd (put t fd free_slot) x ≡ some k) (sym here) e')
      | inr ne ↦ ne (
          h.owned fd i k e
            (ap (λ (s : Slot). s.fd) (sym (put_other h fd inside free_slot i ne)) ∙ e'))
    ]

    slot :
        (o : Option ℕ)
        → host_fd t fd ≡ o
        → fd < linux_nofile
        → ends (elim o as (λ x. Bool × FdTable × List ℕ) [
          | none ↦ (false, t, [])
          | some k ↦ (true, put t fd free_slot, k ∷ [])
        ])
    slot none e inside = (h, not_open (ap is_none e))
    slot (some k) e inside =
        let self = put_self h fd inside free_slot in
        (
          put-IsTable h fd inside free_slot (λ e. refl) gone,
          closed {t' = put t fd free_slot} k e (ap (λ (s : Slot). is_none s.fd) self)
              (free_again k e inside) (put_other h fd inside free_slot),
        )

-- The client's calls. What `fdalloc` gets from `open`, and what `dup` gives, is a host descriptor
-- that no slot holds.
pub data Step : FdTable → FdTable → Type 0 where
  alloc :
      {t : FdTable} (k : ℕ) (dir : Option Dir) (flags : ℕ)
      → IsFresh t k
      → Step t (fdalloc t k dir flags).1
  dup :
      {t t' : FdTable} {r : ℤ} (a : Answers) (oldfd : ℕ) (newfd : ℤ)
      → GivesFresh t a.dup
      → fddup2 a t (pos oldfd) newfd ≡ done (r, t')
      → Step t t'
  close : {t : FdTable} (fd : ℕ) → Step t (fdclose t (pos fd)).1

pub data Reach (t : FdTable) : FdTable → Type 0 where
  here : Reach t t
  next : {u v : FdTable} → Reach t u → Step u v → Reach t v

fdalloc-IsTable :
    {t : FdTable} (k : ℕ) (dir : Option Dir) (flags : ℕ)
    → IsTable t
    → IsFresh t k
    → IsTable (fdalloc t k dir flags).1
unfolding fdalloc
fdalloc-IsTable {t} k dir flags h new = elim (Bool-cases t.passthrough) [
  | inl on ↦ through _ t.passthrough on
  | inr off ↦ (fdalloc-Allocated k dir flags h off new).0
]
  where
    through : (y : ℤ × FdTable) (b : Bool) → b ≡ true → IsTable (if b then (pos k, t) else y).1
    through y true e = h
    through y false e = absurd (ground arith)

fdclose-IsTable : {t : FdTable} (fd : ℕ) → IsTable t → IsTable (fdclose t (pos fd)).1
unfolding fdclose
fdclose-IsTable {t} fd h = elim (Bool-cases t.passthrough) [
  | inl on ↦ through _ t.passthrough on
  | inr off ↦ (fdclose-Closed fd h off).0
]
  where
    through :
        (y : Bool × FdTable × List ℕ) (b : Bool)
        → b ≡ true
        → IsTable (if b then (true, t, []) else y).1
    through y true e = h
    through y false e = absurd (ground arith)

Step-IsTable : {t u : FdTable} → IsTable t → Step t u → IsTable u
Step-IsTable h (alloc k dir flags new) = fdalloc-IsTable k dir flags h new
Step-IsTable h (dup a oldfd newfd new e) = (of_Returns (fddup2-Dups a oldfd newfd h new) e).0
Step-IsTable h (close fd) = fdclose-IsTable fd h

Reach-IsTable_from : {t u : FdTable} → IsTable t → Reach t u → IsTable u
Reach-IsTable_from h here = h
Reach-IsTable_from h (next r s) = Step-IsTable (Reach-IsTable_from h r) s

-- The standard streams, where `dup` gave three different descriptors.
abbrev pub Streams : ℕ → ℕ → ℕ → Type 0
Streams a b c = (a ≢ b) × (a ≢ c) × (b ≢ c)

-- Which slot of a new table holds a host descriptor.
pub init_at :
    (pass : Bool) (a b c i k : ℕ)
    → host_fd (fdinit pass (some a) (some b) (some c)) i ≡ some k
    → ((i ≡ 0) × (a ≡ k)) ⊎ (((i ≡ 1) × (b ≡ k)) ⊎ ((i ≡ 2) × (c ≡ k)))
unfolding fdinit
init_at pass a b c zero k e = inl (refl, ground arith)
init_at pass a b c (suc zero) k e = inr (inl (refl, ground arith))
init_at pass a b c (suc (suc zero)) k e = inr (inr (refl, ground arith))
init_at pass a b c (suc (suc (suc i))) k e =
    absurd (
      nothing (sym (ap (λ (s : Slot). s.fd) (get_or-replicate (linux_nofile - 3) i free_slot)) ∙ e))
  where
    nothing : {k : ℕ} → none ≢ some k
    nothing e = ground arith

init-IsClean :
    (pass : Bool) (a b c i : ℕ) → IsClean (slot_at (fdinit pass (some a) (some b) (some c)) i)
unfolding fdinit
init-IsClean pass a b c zero e = refl
init-IsClean pass a b c (suc zero) e = refl
init-IsClean pass a b c (suc (suc zero)) e = refl
init-IsClean pass a b c (suc (suc (suc i))) e =
    ap (λ (s : Slot). is_none s.dir) (get_or-replicate (linux_nofile - 3) i free_slot)

fdinit-IsTable :
    (pass : Bool) (a b c : ℕ) → Streams a b c → IsTable (fdinit pass (some a) (some b) (some c))
unfolding fdinit
fdinit-IsTable pass a b c apart = record {
  size = ap (λ n. suc (suc (suc n))) (length-replicate (linux_nofile - 3) free_slot);
  clean = init-IsClean pass a b c;
  owned = λ i j k ei ej. grind (arith, init_at pass a b c i k ei, init_at pass a b c j k ej, apart);
}

-- From `fdinit` on, where `dup` gave three different descriptors for the standard streams, take any
-- calls of `fdalloc`, `fddup2` and `fdclose`, where each host descriptor that `fdalloc` is given, and
-- each one that the host's `dup` gives to `fddup2`, is one that no slot holds at that time. After them
-- the table is in order: no two of its slots own the same host descriptor, and only an open slot has
-- a directory.
pub Reach-IsTable :
    (pass : Bool) (a b c : ℕ) {t : FdTable}
    → Streams a b c
    → Reach (fdinit pass (some a) (some b) (some c)) t
    → IsTable t
Reach-IsTable pass a b c apart r = Reach-IsTable_from (fdinit-IsTable pass a b c apart) r
