-- ===== src/Fd/Copy.antt =====
-- The copy of a slot at the end of `fddup2` of linux/fd.c.
use native.Mathlib.Omega.{arith}
use lfi_runtime.Prelude.{
  ℕ, ◌<◌, ◌≡◌, ◌≢◌, refl, sym, ap, subst, ◌∙◌, Option, none, some, ℤ, pos, Returns, returns,
}
use lfi_runtime.Fd.{FdTable, Slot, Dir, slot_at, put, linux_nofile, copy_dir, copy_slot, copy_into}
use lfi_runtime.Fd.Table.{IsTable, host_fd, Keeps, same, put_self, put_other, put-IsTable}

abbrev pub map_dir : Option Dir → Option Dir
map_dir none = none
map_dir (some d) = some (copy_dir d)

-- The slot `newfd` has become a copy of the slot `oldfd`, with the host descriptor `k` of its own.
pub record Copied (t : FdTable) (oldfd newfd k : ℕ) (t' : FdTable) : Type 0 where
  pub table : IsTable t'
  pub inside : newfd < linux_nofile
  pub host : host_fd t' newfd ≡ some k
  pub same_flags : (slot_at t' newfd).flags ≡ (slot_at t oldfd).flags
  pub same_dir : (slot_at t' newfd).dir ≡ map_dir (slot_at t oldfd).dir
  pub others : (i : ℕ) → newfd ≢ i → slot_at t' i ≡ slot_at t i

module _ {t : FdTable} (h : IsTable t) (oldfd newfd : ℕ) (inside : newfd < linux_nofile)
    (ne : oldfd ≢ newfd) (k : ℕ) (keeps : Keeps t newfd (some k)) where
  abbrev cleared : Slot
  cleared = record { fd = some k; dir = none; flags = (slot_at t newfd).flags }

  abbrev final : Option Dir → Slot
  final d = record { fd = some k; dir = d; flags = (slot_at t oldfd).flags }

  dup_onto_slot : IsTable (put t newfd cleared)
  dup_onto_slot = put-IsTable h newfd inside cleared (λ e. refl) keeps

  -- Both branches put the descriptor into the slot, whose directory is then none.
  pub copy_slot-Copied :
      Returns
        (λ (r : ℤ × FdTable). (r.0 ≡ pos newfd) × Copied t oldfd newfd k r.1)
        (copy_slot (put t newfd cleared) oldfd newfd)
  unfolding copy_slot copy_into
  copy_slot-Copied = rw (new, old) (into (slot_at t oldfd).dir refl)
    where
      u : FdTable
      u = put t newfd cleared

      old : slot_at u oldfd ≡ slot_at t oldfd
      old = put_other h newfd inside cleared oldfd (λ e. ne (sym e))

      new : slot_at u newfd ≡ cleared
      new = put_self h newfd inside cleared

      copied_as :
          (d : Option Dir)
          → d ≡ map_dir (slot_at t oldfd).dir
          → Copied t oldfd newfd k (put u newfd (final d))
      copied_as d e =
          let self = put_self dup_onto_slot newfd inside (final d) in
          let kept : Keeps u newfd (some k) =
            subst (Keeps u newfd) (ap (λ (s : Slot). s.fd) new) same in
          record {
            table =
                put-IsTable dup_onto_slot newfd inside (final d) (λ e. absurd (ground arith)) kept;
            inside = inside;
            host = ap (λ (s : Slot). s.fd) self;
            same_flags = ap (λ (s : Slot). s.flags) self;
            same_dir = ap (λ (s : Slot). s.dir) self ∙ e;
            others = λ i d'.
                put_other dup_onto_slot newfd inside (final d) i d'
                ∙ put_other h newfd inside cleared i d';
          }

      into :
          (d : Option Dir)
          → (slot_at t oldfd).dir ≡ d
          → Returns
              (λ (r : ℤ × FdTable). (r.0 ≡ pos newfd) × Copied t oldfd newfd k r.1)
              (copy_into u newfd cleared d (slot_at t oldfd).flags)
      into none e = returns (refl, copied_as none (rw e refl))
      into (some d) e = returns (refl, copied_as (some (copy_dir d)) (rw e refl))
