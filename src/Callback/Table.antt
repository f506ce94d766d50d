-- ===== src/Callback/Table.antt =====
-- The callback table of core/arch/x64/callback.c: no function has two slots, and the entry that the
-- sandbox jumps through holds the function that the slot is registered for.
use native.Mathlib.Omega.{arith}
use lfi_runtime.Prelude.{
  ℕ, ◌<◌, ◌≡◌, ◌≢◌, refl, sym, ap, subst, ◌∙◌, ◌⊎◌, inl, inr, Option, none, some, List, [], ◌∷◌,
  zero, suc, ◌==◌, ==_iff, eq_cases, length, length-set, get_or, get_or-set_self, get_or-set_ne,
  set, find_index, IsFirst, find_index-IsFirst,
}
use lfi_runtime.Callback.{
  Callbacks, CallbackEntry, cbfind, cbfreeslot, store_entry, take_slot, entry_address, fresh_entry,
  lfi_box_unregister_cb,
}

abbrev pub slot_fn : Callbacks → ℕ → ℕ
slot_fn cb i = get_or cb.callbacks i 0

abbrev pub slot_target : Callbacks → ℕ → ℕ
slot_target cb i = (get_or cb.entries i fresh_entry).target

pub record IsTable (cb : Callbacks) : Type 0 where
  pub same_length : length cb.entries ≡ length cb.callbacks
  pub targets : (i : ℕ) → slot_target cb i ≡ slot_fn cb i
  pub unique : (i j : ℕ) → slot_fn cb i ≢ 0 → slot_fn cb i ≡ slot_fn cb j → i ≡ j

-- How the table after a write of `fn` to a slot compares: only the slot changes.
pub record Wrote (cb : Callbacks) (slot fn : ℕ) (cb' : Callbacks) : Type 0 where
  pub inside : slot < length cb.callbacks
  pub table : IsTable cb'
  pub at_slot : slot_fn cb' slot ≡ fn
  pub elsewhere : (i : ℕ) → slot ≢ i → slot_fn cb' i ≡ slot_fn cb i

-- Nothing is written, or a slot gets the function.
abbrev write : Callbacks → ℕ → ℕ → ℕ → Callbacks
write cb slot fn trampoline = record cb {
  entries = store_entry cb.entries slot fn trampoline;
  callbacks = set cb.callbacks slot fn;
}

module _ {cb : Callbacks} (h : IsTable cb) (slot fn trampoline : ℕ)
    (inside : slot < length cb.callbacks) where
  target-store_entry :
      (i : ℕ)
      → slot_target (write cb slot fn trampoline) i ≡ slot_fn (write cb slot fn trampoline) i
  unfolding store_entry
  target-store_entry i = elim (eq_cases slot i) [
    | inl e ↦
        subst
          (λ k.
            slot_target (write cb slot fn trampoline) k ≡ slot_fn (write cb slot fn trampoline) k)
          e
          (ap (λ (c : CallbackEntry). c.target)
              (get_or-set_self cb.entries slot _ fresh_entry (omega (arith, h.same_length)))
            ∙ sym (get_or-set_self cb.callbacks slot fn 0 inside))
    | inr ne ↦
        ap (λ (c : CallbackEntry). c.target) (get_or-set_ne cb.entries slot i _ fresh_entry ne)
        ∙ h.targets i
        ∙ sym (get_or-set_ne cb.callbacks slot i fn 0 ne)
  ]

  -- The slots of the new table are unique, if the function had no slot before.
  unique_after :
      (fn ≡ 0) ⊎ ((i : ℕ) → slot_fn cb i ≢ fn)
      → (i j : ℕ) → slot_fn (write cb slot fn trampoline) i ≢ 0
      → slot_fn (write cb slot fn trampoline) i ≡ slot_fn (write cb slot fn trampoline) j
      → i ≡ j
  unique_after fresh i j some_fn e = both (eq_cases slot i) (eq_cases slot j)
    where
      self : slot_fn (write cb slot fn trampoline) slot ≡ fn
      self = get_or-set_self cb.callbacks slot fn 0 inside

      other : (k : ℕ) → slot ≢ k → slot_fn (write cb slot fn trampoline) k ≡ slot_fn cb k
      other k ne = get_or-set_ne cb.callbacks slot k fn 0 ne

      clash :
          (k m : ℕ)
          → slot ≡ k
          → slot ≢ m
          → slot_fn (write cb slot fn trampoline) k ≢ 0
          → slot_fn (write cb slot fn trampoline) k ≡ slot_fn (write cb slot fn trampoline) m
          → ⊥
      clash k m at ne non_zero same =
          let here : slot_fn (write cb slot fn trampoline) k ≡ fn =
            subst (λ x. slot_fn (write cb slot fn trampoline) x ≡ fn) at self in
          elim fresh [
            | inl z ↦ non_zero (here ∙ z)
            | inr new ↦ new m (sym (other m ne) ∙ sym same ∙ here)
          ]

      both : (slot ≡ i) ⊎ (slot ≢ i) → (slot ≡ j) ⊎ (slot ≢ j) → i ≡ j
      both (inl a) (inl b) = sym a ∙ b
      both (inl a) (inr b) = absurd (clash i j a b some_fn e)
      both (inr a) (inl b) = absurd (clash j i b a (λ z. some_fn (e ∙ z)) (sym e))
      both (inr a) (inr b) =
          h.unique i j (λ z. some_fn (other i a ∙ z)) (sym (other i a) ∙ e ∙ other j b)

  write-Wrote :
      (fn ≡ 0) ⊎ ((i : ℕ) → slot_fn cb i ≢ fn) → Wrote cb slot fn (write cb slot fn trampoline)
  unfolding store_entry
  write-Wrote fresh = record {
    inside = inside;
    table = record {
      same_length =
          length-set cb.entries slot _ ∙ h.same_length ∙ sym (length-set cb.callbacks slot fn);
      targets = target-store_entry;
      unique = unique_after fresh;
    };
    at_slot = get_or-set_self cb.callbacks slot fn 0 inside;
    elsewhere = λ i ne. get_or-set_ne cb.callbacks slot i fn 0 ne;
  }

-- What `register_cb` does with its table: the function has a slot already, whose address it gives;
-- or no slot is free and nothing changes; or it takes a slot that was free.
pub data Registered (cb : Callbacks) (fn : ℕ) : ℕ × Callbacks → Type 0 where
  known :
      (slot : ℕ)
      → slot < length cb.callbacks
      → slot_fn cb slot ≡ fn
      → Registered cb fn (entry_address cb slot, cb)
  full :
      ((i : ℕ) → i < length cb.callbacks → slot_fn cb i ≢ 0)
      → ((i : ℕ) → i < length cb.callbacks → slot_fn cb i ≢ fn)
      → Registered cb fn (0, cb)
  placed :
      {cb' : Callbacks} (slot : ℕ)
      → slot_fn cb slot ≡ 0
      → Wrote cb slot fn cb'
      → Registered cb fn (entry_address cb slot, cb')

-- Outside the array there is nothing but 0.
slot_fn-outside :
    (cb : Callbacks) (fn i : ℕ)
    → fn ≢ 0
    → ((i : ℕ) → i < length cb.callbacks → slot_fn cb i ≢ fn)
    → slot_fn cb i ≢ fn
slot_fn-outside cb fn i non_zero absent = go cb.callbacks absent i
  where
    go :
        (cs : List ℕ)
        → ((i : ℕ) → i < length cs → get_or cs i 0 ≢ fn)
        → (i : ℕ) → get_or cs i 0 ≢ fn
    go [] none_is i e = non_zero (sym e)
    go (c ∷ cs) none_is zero e = none_is 0 (omega arith) e
    go (c ∷ cs) none_is (suc i) e = go cs (λ k lt. none_is (suc k) (omega arith)) i e

-- On a table where no function has two slots and each entry's target is its slot's function,
-- registering a function other than NULL gives the entry of the slot that the function has; or no
-- slot is free, the answer is NULL and nothing changes; or it writes a free slot and gives its entry,
-- the table stays in that order, and every other slot keeps its function.
pub take_slot-Registered :
    (cb : Callbacks) (fn trampoline : ℕ)
    → IsTable cb
    → fn ≢ 0
    → Registered cb fn (take_slot cb fn trampoline)
unfolding take_slot cbfind cbfreeslot
take_slot-Registered cb fn trampoline h non_zero =
    found (find_index (λ c. c == fn) cb.callbacks)
      (find_index-IsFirst (λ c. c == fn) cb.callbacks 0)
  where
    free :
        (r : Option ℕ)
        → IsFirst (λ c. c == 0) cb.callbacks 0 r
        → ((i : ℕ) → i < length cb.callbacks → slot_fn cb i ≢ fn)
        → Registered cb fn (elim r as (λ x. ℕ × Callbacks) [
          | none ↦ (0, cb)
          | some slot ↦ (entry_address cb slot, write cb slot fn trampoline)
        ])
    free none first absent = full (λ i lt e. ground (arith, first i lt)) absent
    free (some slot) (lt, zero_at, before) absent =
        placed slot ((==_iff _ _).0 zero_at)
          (write-Wrote h slot fn trampoline lt (inr λ i. slot_fn-outside cb fn i non_zero absent))

    found :
        (r : Option ℕ)
        → IsFirst (λ c. c == fn) cb.callbacks 0 r
        → Registered cb fn (elim r as (λ x. ℕ × Callbacks) [
          | some slot ↦ (entry_address cb slot, cb)
          | none ↦ elim (find_index (λ c. c == 0) cb.callbacks) as (λ x. ℕ × Callbacks) [
            | none ↦ (0, cb)
            | some slot ↦ (entry_address cb slot, write cb slot fn trampoline)
          ]
        ])
    found none first =
        free (find_index (λ c. c == 0) cb.callbacks)
          (find_index-IsFirst (λ c. c == 0) cb.callbacks 0) (λ i lt e. ground (arith, first i lt))
    found (some slot) (lt, at, before) = known slot lt ((==_iff _ _).0 at)

-- What `lfi_box_unregister_cb` does: the function has no slot and nothing changes, or its slot
-- becomes free.
pub data Unregistered (cb : Callbacks) (fn : ℕ) : Callbacks → Type 0 where
  absent : ((i : ℕ) → i < length cb.callbacks → slot_fn cb i ≢ fn) → Unregistered cb fn cb
  freed :
      {cb' : Callbacks} (slot : ℕ)
      → slot_fn cb slot ≡ fn
      → Wrote cb slot 0 cb'
      → Unregistered cb fn cb'

-- On a table where no function has two slots, unregistering a function empties its slot and leaves
-- every other slot and that property as they are, or the function had no slot and nothing changes.
pub lfi_box_unregister_cb-Unregistered :
    (cb : Callbacks) (fn : ℕ) → IsTable cb → Unregistered cb fn (lfi_box_unregister_cb cb fn)
unfolding lfi_box_unregister_cb cbfind
lfi_box_unregister_cb-Unregistered cb fn h =
    found (find_index (λ c. c == fn) cb.callbacks)
      (find_index-IsFirst (λ c. c == fn) cb.callbacks 0)
  where
    found :
        (r : Option ℕ)
        → IsFirst (λ c. c == fn) cb.callbacks 0 r
        → Unregistered cb fn
            (elim r as (λ x. Callbacks) [ none ↦ cb | some slot ↦ write cb slot 0 0 ])
    found none first = absent (λ i lt e. ground (arith, first i lt))
    found (some slot) (lt, at, before) =
        freed slot ((==_iff _ _).0 at) (write-Wrote h slot 0 0 lt (inl refl))
