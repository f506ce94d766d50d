-- ===== src/Brk.antt =====
-- linux/sys/sys_brk.c: the program break of a process. The lock of the break makes the call one
-- step. `none` is the answer -1.
pub mod Limit
pub mod Tests
use lfi_runtime.Prelude.{
  ℕ, ◌+◌, ◌-◌, ◌*◌, ◌%◌, Bool, true, false, not, ◌&&◌, Option, none, some, if◌then◌else◌, ◌==◌, ltb,
  leb, Run, done, aborted, ◌>>=◌, ◌>>◌, assert, add64, sub64, negsuc, pos,
}
use lfi_runtime.Host.{Trace, Oracle}
use lfi_runtime.Box.{Box, is_some, prot_bit_read, prot_bit_write, map_private, map_anonymous}
use lfi_runtime.Box.Maps.{lfi_box_ptrvalid, lfi_box_mapat}

-- the part of `struct LFILinuxProc` for the break
pub record Break : Type 0 where
  pub brkbase : ℕ
  pub brksize : ℕ

abbrev pub brk_max_size : ℕ
brk_max_size = 536_870_912

-- `brkmaxsize`, from the options `brk_control` and `brk_size`
unfoldable pub brk_limit : Bool → ℕ → ℕ
brk_limit brk_control brk_size = if brk_control then brk_size else brk_max_size

-- `ceilp` of linux/align.h, whose `align` is a power of two
unfoldable pub align_up : ℕ → ℕ → ℕ
align_up addr align = let sum = add64 addr (sub64 align 1) in sum - sum % align

unfoldable pub clamp_break : Break → ℕ → ℕ → ℕ
clamp_break brk limit brkp =
    let low = if ltb brkp brk.brkbase then brk.brkbase else brkp in
    if leb (add64 brk.brkbase limit) low then add64 brk.brkbase limit else low

-- the pages that the break grows into
unfoldable pub grow_pages : Oracle → Box → ℕ → ℕ → Trace → Run (Bool × Box × Trace)
grow_pages o box next new_end t =
    if ltb next new_end
    then (lfi_box_mapat o box next (sub64 new_end next) (prot_bit_read + prot_bit_write)
          (map_private + map_anonymous) (negsuc 0) (pos 0) t
        >>= λ (a, box', t'). done (is_some a, box', t'))
    else done (true, box, t)

abbrev pub BrkResult : Type 0
BrkResult = Option ℕ × Break × Box × Trace

abbrev pub set_break : Break → ℕ → Bool × Box × Trace → BrkResult
set_break brk newsize (ok, box, t) =
    if ok
    then (some (add64 brk.brkbase newsize), record brk { brksize = newsize }, box, t)
    else (none, brk, box, t)

-- the call from the new size on
unfoldable pub move_break : Oracle → Break → Box → ℕ → ℕ → Trace → Run BrkResult
move_break o brk box limit brkp t =
    let newsize = sub64 brkp brk.brkbase in
    let old_end = add64 brk.brkbase brk.brksize in
    let pagesize = box.opts.pagesize in
    let pages =
      if ltb old_end brkp
      then grow_pages o box (align_up old_end pagesize)
          (align_up (add64 brk.brkbase newsize) pagesize) t
      else done (true, box, t) in
    assert (leb newsize limit)
    >> (if newsize == brk.brksize
        then done (some brkp, brk, box, t)
        else (pages >>= λ r. done (set_break brk newsize r)))

unfoldable pub sys_brk : Oracle → Break → Box → ℕ → ℕ → Trace → Run BrkResult
sys_brk o brk box limit addr t =
    if addr == 0
    then move_break o brk box limit (clamp_break brk limit (add64 brk.brkbase brk.brksize)) t
    else if not (lfi_box_ptrvalid box addr)
    then done (none, brk, box, t)
    else move_break o brk box limit (clamp_break brk limit addr) t
