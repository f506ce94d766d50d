-- ===== src/Fd/Table.antt =====
-- What keeps a table of linux/fd.c in order: no two slots own the same host descriptor, and a slot
-- without a descriptor has no directory.
use native.Mathlib.Omega.{arith}
use lfi_runtime.Prelude.{
  ℕ, ◌<◌, ◌≡◌, ◌≢◌, sym, ap, subst, ◌∙◌, ◌⊎◌, inl, inr, true, Option, none, some, eq_cases, length,
  length-set, get_or-set_self, get_or-set_ne,
}
use lfi_runtime.Fd.{FdTable, Slot, free_slot, slot_at, put, is_none, linux_nofile}

abbrev pub host_fd : FdTable → ℕ → Option ℕ
host_fd t i = (slot_at t i).fd

abbrev pub IsClean : Slot → Type 0
IsClean s = is_none s.fd ≡ true → is_none s.dir ≡ true

pub record IsTable (t : FdTable) : Type 0 where
  pub size : length t.slots ≡ linux_nofile
  pub clean : (i : ℕ) → IsClean (slot_at t i)
  pub owned : (i j k : ℕ) → host_fd t i ≡ some k → host_fd t j ≡ some k → i ≡ j

-- No slot holds the host descriptor.
abbrev pub IsFresh : FdTable → ℕ → Type 0
IsFresh t k = (i : ℕ) → host_fd t i ≢ some k

-- A slot keeps its descriptor, has none, or gets one that no slot holds.
pub data Keeps (t : FdTable) (i : ℕ) : Option ℕ → Type 0 where
  same : Keeps t i (host_fd t i)
  gone : Keeps t i none
  fresh : (k : ℕ) → IsFresh t k → Keeps t i (some k)

none_not_some : {k : ℕ} → none ≢ some k
none_not_some e = ground arith

some-injective : {k m : ℕ} → some k ≡ some m → k ≡ m
some-injective e = ground arith

module _ {t : FdTable} (h : IsTable t) (i : ℕ) (lt : i < linux_nofile) (s : Slot) where
  pub put_self : slot_at (put t i s) i ≡ s
  put_self = get_or-set_self t.slots i s free_slot (omega (arith, h.size))

  pub put_other : (j : ℕ) → i ≢ j → slot_at (put t i s) j ≡ slot_at t j
  put_other j ne = get_or-set_ne t.slots i j s free_slot ne

  put-IsClean : IsClean s → (j : ℕ) → IsClean (slot_at (put t i s) j)
  put-IsClean c j = elim (eq_cases i j) [
    | inl e ↦ subst (λ x. IsClean (slot_at (put t i s) x)) e (subst IsClean (sym put_self) c)
    | inr ne ↦ subst IsClean (sym (put_other j ne)) (h.clean j)
  ]

  -- Another slot does not own the descriptor that is put.
  put_clash : (o : Option ℕ) (j k : ℕ) → Keeps t i o → i ≢ j → o ≡ some k → host_fd t j ≡ some k → ⊥
  put_clash o j k same ne e e' = ne (h.owned i j k e e')
  put_clash o j k gone ne e e' = none_not_some e
  put_clash o j k (fresh m free) ne e e' = free j (e' ∙ sym e)

  put_owned :
      Keeps t i s.fd
      → (a b k : ℕ) → host_fd (put t i s) a ≡ some k
      → host_fd (put t i s) b ≡ some k
      → a ≡ b
  put_owned keeps a b k ea eb = both (eq_cases i a) (eq_cases i b)
    where
      at_slot : (j : ℕ) → i ≡ j → host_fd (put t i s) j ≡ some k → s.fd ≡ some k
      at_slot j e h' =
          ap (λ (x : Slot). x.fd) (sym put_self)
          ∙ subst (λ x. host_fd (put t i s) x ≡ some k) (sym e) h'

      elsewhere : (j : ℕ) → i ≢ j → host_fd (put t i s) j ≡ some k → host_fd t j ≡ some k
      elsewhere j ne h' = ap (λ (x : Slot). x.fd) (sym (put_other j ne)) ∙ h'

      both : (i ≡ a) ⊎ (i ≢ a) → (i ≡ b) ⊎ (i ≢ b) → a ≡ b
      both (inl x) (inl y) = sym x ∙ y
      both (inl x) (inr y) = absurd (put_clash s.fd b k keeps y (at_slot a x ea) (elsewhere b y eb))
      both (inr x) (inl y) = absurd (put_clash s.fd a k keeps x (at_slot b y eb) (elsewhere a x ea))
      both (inr x) (inr y) = h.owned a b k (elsewhere a x ea) (elsewhere b y eb)

  pub put-IsTable : IsClean s → Keeps t i s.fd → IsTable (put t i s)
  put-IsTable c keeps = record {
    size = length-set t.slots i s ∙ h.size;
    clean = put-IsClean c;
    owned = put_owned keeps;
  }
