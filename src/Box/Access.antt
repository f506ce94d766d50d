-- ===== src/Box/Access.antt =====
-- How the host reads and writes a sandbox's memory (core/box.c): `lfi_box_copyfm`, `lfi_box_copyto`,
-- `lfi_box_strnlen`, and the return code that `lfi_box_init_ret` installs. A sandbox pointer is the
-- host pointer, so `l2p` and `p2l` change nothing.
use lfi_runtime.Prelude.{
  ℕ, ◌+◌, ◌-◌, ◌^◌, Bool, true, false, not, none, some, ◌∷◌, if◌then◌else◌, ◌==◌, ltb, Run, done,
  ◌>>=◌, ◌>>◌, assert, sub64, pos, negsuc,
}
use lfi_runtime.Host.{copy_out, copy_in, memset, strnlen, Trace, Oracle}
use lfi_runtime.Box.{Box, prot_bit_read, prot_bit_write, prot_bit_exec, map_anonymous, map_private}
use lfi_runtime.Box.Maps.{
  lfi_box_ptrvalid, lfi_box_bufvalid, box_mapany_locked, box_mprotect_locked,
}

unfoldable pub l2p : Box → ℕ → ℕ
l2p box l = l

unfoldable pub p2l : Box → ℕ → ℕ
p2l box p = p

abbrev pub size_max : ℕ
size_max = 2 ^ 64 - 1

unfoldable pub lfi_box_copyfm : Box → ℕ → ℕ → Trace → Run Trace
lfi_box_copyfm box src size t =
    assert (lfi_box_bufvalid box src size) >> done (copy_out (l2p box src) size ∷ t)

unfoldable pub lfi_box_copyto : Box → ℕ → ℕ → Trace → Run (ℕ × Trace)
lfi_box_copyto box dst size t =
    assert (lfi_box_bufvalid box dst size) >> done (dst, copy_in (l2p box dst) size ∷ t)

-- the limit that `strnlen` of the C library is given
unfoldable pub strnlen_limit : Box → ℕ → ℕ → ℕ
strnlen_limit box addr max =
    let room = sub64 box.max (l2p box addr) in if ltb max room then max else room

-- `strnlen` always answers; the oracle's `none` stands for 0.
unfoldable pub lfi_box_strnlen : Oracle → Box → ℕ → ℕ → Trace → ℕ × Trace
lfi_box_strnlen o box addr max t =
    let limit = strnlen_limit box addr max in
    let call = strnlen (l2p box addr) limit in
    if not (lfi_box_ptrvalid box addr) then (size_max, t) else elim (o t call) [
      | none ↦ (if 0 == limit then size_max else 0, call ∷ t)
      | some n ↦ (if n == limit then size_max else n, call ∷ t)
    ]

-- `sizeof(ret)` of the x64 code: `lea` of 7 bytes and `jmp` of 4
abbrev pub ret_size : ℕ
ret_size = 11

-- the steps of `lfi_box_init_ret` behind the mapping
pub install_ret : Oracle → Box → ℕ → Trace → Run (Bool × Box × Trace)
install_ret o box p t =
    let pagesize = box.opts.pagesize in
    lfi_box_copyto box p ret_size (memset (l2p box p) 0xcc pagesize ∷ t) >>= λ (p_ret, t').
    let (r, box', t'') =
      box_mprotect_locked o box p pagesize (prot_bit_read + prot_bit_exec) false t' in
    done (elim r [
      | pos n ↦ if n == 0 then (true, record box' { retaddr = p_ret }, t'') else (false, box', t'')
      | negsuc n ↦ (false, box', t'')
    ])

unfoldable pub lfi_box_init_ret : Oracle → Box → Trace → Run (Bool × Box × Trace)
lfi_box_init_ret o box t =
    box_mapany_locked o box box.opts.pagesize (prot_bit_read + prot_bit_write)
      (map_anonymous + map_private) (negsuc 0) (pos 0) false t
    >>= λ (p, box', t'). elim p [
      | none ↦ done (false, box', t')
      | some at ↦
          let install = install_ret o box' at t' in
          if not (lfi_box_ptrvalid box' at) then done (false, box', t') else install
    ]

unfoldable pub lfi_box_register_ret : Box → ℕ → Run Box
lfi_box_register_ret box retaddr =
    assert (lfi_box_ptrvalid box retaddr) >> done (record box { retaddr = retaddr })
