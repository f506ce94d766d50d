-- ===== src/Callback.antt =====
-- core/arch/x64/callback.c: the table of host functions that a sandbox may call. The entries lie in
-- one shared mapping: the host writes them through an alias outside the sandbox, and the sandbox
-- sees them readable and executable. 0 is NULL.
pub mod Table
pub mod Tests
use lfi_runtime.Prelude.{
  ℕ, ◌+◌, ◌*◌, Bool, true, false, not, Option, none, some, List, [], ◌∷◌, if◌then◌else◌, ◌==◌,
  replicate, set, get_or, find_index, Run, done, aborted, ◌>>=◌, ◌>>◌, assert, pos, negsuc,
}
use lfi_runtime.Host.{
  HostProt, HostFlags, Call, mmap, munmap, memfd_create, ftruncate, close, Trace, Oracle,
}
use lfi_runtime.Box.{Box, is_some, prot_bit_read, prot_bit_exec, map_shared}
use lfi_runtime.Box.New.{prot_rw}
use lfi_runtime.Box.Maps.{box_mapany_locked}

pub record CallbackEntry : Type 0 where
  pub code : List ℕ
  pub target : ℕ
  pub trampoline : ℕ

-- The callback part of `struct LFIBox`; `entries` is the memory behind the alias.
pub record Callbacks : Type 0 where
  pub callbacks : List ℕ
  pub entries : List CallbackEntry
  pub cbentries_alias : ℕ
  pub cbentries_box : ℕ

abbrev pub max_callbacks : ℕ
max_callbacks = 4096

-- `sizeof(struct CallbackEntry)`
abbrev pub entry_size : ℕ
entry_size = 32

abbrev pub table_size : ℕ
table_size = 131_072

abbrev pub cbentry_code : List ℕ
cbentry_code =
    0x4c ∷ 0x8b ∷ 0x15 ∷ 0x09 ∷ 0 ∷ 0 ∷ 0 ∷ 0xff ∷ 0x25 ∷ 0x0b ∷ 0 ∷ 0 ∷ 0 ∷ 0x0f ∷ 0x1f ∷ 0 ∷ []

unfoldable pub cbfreeslot : List ℕ → Option ℕ
cbfreeslot callbacks = find_index (λ c. c == 0) callbacks

unfoldable pub cbfind : List ℕ → ℕ → Option ℕ
cbfind callbacks fn = find_index (λ c. c == fn) callbacks

abbrev pub shared_map : HostFlags
shared_map = record { shared = true; private = false; fixed = false; anonymous = false }

-- `ftruncate` gives the file zeroes, and the loop writes the code of each entry.
abbrev pub fresh_entry : CallbackEntry
fresh_entry = record { code = cbentry_code; target = 0; trampoline = 0 }

-- the steps behind the alias mapping, up to the label `err1`
unfoldable pub share_entries :
    Oracle → Box → Callbacks → ℕ → ℕ → Trace → Run (Bool × Box × Callbacks × Trace)
share_entries o box cb fd alias t =
    box_mapany_locked o box table_size (prot_bit_read + prot_bit_exec) map_shared (pos fd) (pos 0)
      true t
    >>= λ (boxmap, box', t'). elim boxmap [
      | none ↦
          done (
            false,
            box',
            record cb { cbentries_alias = 0 },
            close fd ∷ munmap alias table_size ∷ t',
          )
      | some at ↦ done (
        true,
        box',
        record cb {
          entries = replicate max_callbacks fresh_entry;
          cbentries_alias = alias;
          cbentries_box = at;
        },
        close fd ∷ t',
      )
    ]

unfoldable pub init_cb : Oracle → Box → Callbacks → Trace → Run (Bool × Box × Callbacks × Trace)
init_cb o box cb t = elim (o t memfd_create) [
  | none ↦ done (false, box, cb, memfd_create ∷ t)
  | some fd ↦
      let sized = ftruncate fd table_size in
      let t1 = memfd_create ∷ t in
      let alias_call = mmap 0 table_size prot_rw shared_map (pos fd) (pos 0) in
      if not (is_some (o t1 sized))
      then done (false, box, cb, close fd ∷ sized ∷ t1)
      else elim (o (sized ∷ t1) alias_call) [
        | none ↦ done (false, box, cb, close fd ∷ alias_call ∷ sized ∷ t1)
        | some alias ↦ share_entries o box cb fd alias (alias_call ∷ sized ∷ t1)
      ]
]

-- `&box->cbinfo.cbentries_box[slot].code[0]`
abbrev pub entry_address : Callbacks → ℕ → ℕ
entry_address cb slot = cb.cbentries_box + entry_size * slot

-- the two stores through the alias
unfoldable pub store_entry : List CallbackEntry → ℕ → ℕ → ℕ → List CallbackEntry
store_entry entries slot target trampoline =
    set entries slot
      (record (get_or entries slot fresh_entry) { target = target; trampoline = trampoline })

-- the steps of `register_cb` behind its assertion
unfoldable pub take_slot : Callbacks → ℕ → ℕ → ℕ × Callbacks
take_slot cb fn lfi_callback_fn = elim (cbfind cb.callbacks fn) [
  | some slot ↦ (entry_address cb slot, cb)
  | none ↦ elim (cbfreeslot cb.callbacks) [
    | none ↦ (0, cb)
    | some slot ↦ (
      entry_address cb slot,
      record cb {
        entries = store_entry cb.entries slot fn lfi_callback_fn;
        callbacks = set cb.callbacks slot fn;
      },
    )
  ]
]

unfoldable pub register_cb :
    Oracle → Box → Callbacks → ℕ → ℕ → Trace → Run (ℕ × Box × Callbacks × Trace)
register_cb o box cb fn lfi_callback_fn t =
    let init = if cb.cbentries_box == 0 then init_cb o box cb t else done (true, box, cb, t) in
    init >>= λ (ok, box', cb', t').
    if not ok
    then done (0, box', cb', t')
    else (assert (not (fn == 0))
        >> (let (at, cb'') = take_slot cb' fn lfi_callback_fn in done (at, box', cb'', t')))

-- `lfi_callback` and `lfi_callback_struct` are the two trampolines, given by their addresses.
unfoldable pub lfi_box_register_cb :
    Oracle → ℕ → Box → Callbacks → ℕ → Trace → Run (ℕ × Box × Callbacks × Trace)
lfi_box_register_cb o lfi_callback box cb fn t = register_cb o box cb fn lfi_callback t

unfoldable pub lfi_box_register_cb_struct :
    Oracle → ℕ → Box → Callbacks → ℕ → Trace → Run (ℕ × Box × Callbacks × Trace)
lfi_box_register_cb_struct o lfi_callback_struct box cb fn t =
    register_cb o box cb fn lfi_callback_struct t

unfoldable pub lfi_box_unregister_cb : Callbacks → ℕ → Callbacks
lfi_box_unregister_cb cb fn = elim (cbfind cb.callbacks fn) [
  | none ↦ cb
  | some slot ↦ record cb {
    callbacks = set cb.callbacks slot 0;
    entries = store_entry cb.entries slot 0 0;
  }
]

unfoldable pub lfi_box_cb_free : Callbacks → Trace → Trace
lfi_box_cb_free cb t =
    if not (cb.cbentries_alias == 0) then munmap cb.cbentries_alias table_size ∷ t else t
