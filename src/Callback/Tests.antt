-- ===== src/Callback/Tests.antt =====
-- The theorems on core/arch/x64/callback.c at a table of two slots.
use native.Mathlib.Omega.{arith}
use lfi_runtime.Prelude.{ℕ, zero, suc, ◌≡◌, ◌≢◌, refl, [], ◌∷◌}
use lfi_runtime.Callback.{Callbacks, fresh_entry, take_slot, lfi_box_unregister_cb}
use lfi_runtime.Callback.Table.{
  IsTable, slot_fn, slot_target, Registered, take_slot-Registered, Unregistered,
  lfi_box_unregister_cb-Unregistered,
}

abbrev one_callback : Callbacks
one_callback = record {
  callbacks = 7000 ∷ 0 ∷ [];
  entries = record fresh_entry { target = 7000; trampoline = 900 } ∷ fresh_entry ∷ [];
  cbentries_alias = 4096;
  cbentries_box = 65_536;
}

only_first : (i : ℕ) → slot_fn one_callback i ≢ 0 → i ≡ 0
only_first zero ne = refl
only_first (suc zero) ne = absurd (ne refl)
only_first (suc (suc i)) ne = absurd (ne refl)

one_callback-IsTable : IsTable one_callback
one_callback-IsTable = record {
  same_length = refl;
  targets = λ i. agree i;
  unique = λ i j ne e. omega (arith, only_first i ne, only_first j (λ z. ne (omega (arith, e, z))));
}
  where
    agree : (i : ℕ) → slot_target one_callback i ≡ slot_fn one_callback i
    agree zero = refl
    agree (suc zero) = refl
    agree (suc (suc i)) = refl

take_slot-Registered_example : Registered one_callback 8000 (take_slot one_callback 8000 900)
take_slot-Registered_example =
    take_slot-Registered one_callback 8000 900 one_callback-IsTable (λ e. absurd (omega arith))

lfi_box_unregister_cb-Unregistered_example :
    Unregistered one_callback 7000 (lfi_box_unregister_cb one_callback 7000)
lfi_box_unregister_cb-Unregistered_example =
    lfi_box_unregister_cb-Unregistered one_callback 7000 one_callback-IsTable
