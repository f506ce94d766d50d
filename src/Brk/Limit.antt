-- ===== src/Brk/Limit.antt =====
-- The break of linux/sys/sys_brk.c stays between its base and its limit.
use native.Mathlib.Omega.{arith}
use native.Mathlib.Nat.{div-add-mod', div-mul-le_self, le-div_iff_mul-le, mul-le-mul_right}
use lfi_runtime.Prelude.{
  ℕ, ◌+◌, ◌-◌, ◌≤◌, ◌<◌, ◌≡◌, refl, sym, ap, ◌∙◌, inl, inr, true, false, Option, none, some, ◌*◌,
  ◌/◌, Bool, ◌||◌, if◌then◌else◌, ◌==◌, ltb, leb, Bool-cases, Run, done, aborted, ◌>>=◌, add64,
  sub64, word, negsuc, pos,
}
use lfi_runtime.Host.{Trace, Oracle}
use lfi_runtime.Box.{Box, is_some}
use lfi_runtime.Box.Maps.{lfi_box_ptrvalid, lfi_box_mapat}
use lfi_runtime.Brk.{
  Break, align_up, clamp_break, grow_pages, BrkResult, set_break, move_break, sys_brk,
}

-- The break lies inside its limit, and neither its addresses nor the page behind them wrap.
pub record IsBreak (brk : Break) (limit pagesize : ℕ) : Type 0 where
  pub inside : brk.brksize ≤ limit
  pub some_page : 0 < pagesize
  pub no_wrap : brk.brkbase + limit + pagesize < word

-- The end of the last page that holds a byte below `x`.
abbrev pub page_end : ℕ → ℕ → ℕ
page_end pagesize x = (x + (pagesize - 1)) / pagesize * pagesize

-- The address that a request asks for, moved into the range of the break.
abbrev pub between : ℕ → ℕ → ℕ → ℕ
between lo hi x = if ltb x lo then lo else if ltb hi x then hi else x

abbrev pub asked : Break → ℕ → ℕ
asked brk addr = if addr == 0 then brk.brkbase + brk.brksize else addr

-- The request is for the present break, or for an address in the sandbox.
abbrev pub accepts : Box → ℕ → Bool
accepts box addr = addr == 0 || lfi_box_ptrvalid box addr

-- A new size of the break: what is asked for, moved into its range.
abbrev pub IsNewSize : Break → ℕ → ℕ → ℕ → Type 0
IsNewSize brk limit addr size =
    (size ≤ limit)
    × (brk.brkbase + size ≡ between brk.brkbase (brk.brkbase + limit) (asked brk addr))

-- `lfi_box_mapat` on the pages from the end of the old break's last page to that of the new one's.
abbrev pub new_pages : Oracle → Break → Box → ℕ → Trace → Run (Option ℕ × Box × Trace)
new_pages o brk box size t =
    let old = page_end box.opts.pagesize (brk.brkbase + brk.brksize) in
    let new = page_end box.opts.pagesize (brk.brkbase + size) in
    lfi_box_mapat o box old (new - old) 3 34 (negsuc 0) (pos 0) t

-- Whether the new break needs pages that the old one does not have.
abbrev pub needs_pages : Break → Box → ℕ → Bool
needs_pages brk box size =
    ltb (page_end box.opts.pagesize (brk.brkbase + brk.brksize))
      (page_end box.opts.pagesize (brk.brkbase + size))

-- The ends of `sys_brk`.
pub data Broke (o : Oracle) (brk : Break) (box : Box) (limit addr : ℕ) (t : Trace)
    : Run BrkResult → Type 0 where
  refused : accepts box addr ≡ false → Broke o brk box limit addr t (done (none, brk, box, t))
  moved :
      (size : ℕ)
      → accepts box addr ≡ true
      → IsNewSize brk limit addr size
      → needs_pages brk box size ≡ false
      → Broke o brk box limit addr t
          (done (some (brk.brkbase + size), record brk { brksize = size }, box, t))
  grown :
      (size a : ℕ) (box' : Box) (t' : Trace)
      → accepts box addr ≡ true
      → IsNewSize brk limit addr size
      → needs_pages brk box size ≡ true
      → new_pages o brk box size t ≡ done (some a, box', t')
      → Broke o brk box limit addr t
          (done (some (brk.brkbase + size), record brk { brksize = size }, box', t'))
  no_room :
      (size : ℕ) (box' : Box) (t' : Trace)
      → accepts box addr ≡ true
      → IsNewSize brk limit addr size
      → needs_pages brk box size ≡ true
      → new_pages o brk box size t ≡ done (none, box', t')
      → Broke o brk box limit addr t (done (none, brk, box', t'))
  stopped :
      (size : ℕ)
      → accepts box addr ≡ true
      → IsNewSize brk limit addr size
      → needs_pages brk box size ≡ true
      → new_pages o brk box size t ≡ aborted
      → Broke o brk box limit addr t aborted

align_up-page_end :
    (x pagesize : ℕ)
    → 0 < pagesize
    → x + pagesize < word
    → align_up x pagesize ≡ page_end pagesize x
unfolding align_up
align_up-page_end x pagesize some_page small =
    let sum : add64 x (sub64 pagesize 1) ≡ x + (pagesize - 1) = omega arith in
    let div = div-add-mod' (x + (pagesize - 1)) pagesize in rw sum (omega arith)

page_end-le : (pagesize x y : ℕ) → 0 < pagesize → x ≤ y → page_end pagesize x ≤ page_end pagesize y
page_end-le pagesize x y some_page le =
    let low = div-mul-le_self (x + (pagesize - 1)) pagesize in
    mul-le-mul_right pagesize ((le-div_iff_mul-le some_page).1 (omega arith))

page_end-below : (pagesize x : ℕ) → page_end pagesize x ≤ x + (pagesize - 1)
page_end-below pagesize x = div-mul-le_self (x + (pagesize - 1)) pagesize

clamp_break-between :
    (brk : Break) (limit x : ℕ)
    → brk.brkbase + limit < word
    → clamp_break brk limit x ≡ between brk.brkbase (brk.brkbase + limit) x
unfolding clamp_break
clamp_break-between brk limit x small = ground arith

module _ (o : Oracle) (brk : Break) (box : Box) (limit addr : ℕ) (t : Trace)
    (h : IsBreak brk limit box.opts.pagesize) (ok : accepts box addr ≡ true) where
  -- The end of a call that needs no pages.
  moved-Broke :
      (size : ℕ)
      → IsNewSize brk limit addr size
      → needs_pages brk box size ≡ false
      → Broke o brk box limit addr t (done (set_break brk size (true, box, t)))
  moved-Broke size new none_needed =
      let le = new.0 in
      let small = h.no_wrap in
      let sum : add64 brk.brkbase size ≡ brk.brkbase + size = omega arith in
      rw sum (moved size ok new none_needed)

  grow_pages-Broke :
      (size : ℕ)
      → IsNewSize brk limit addr size
      → Broke o brk box limit addr t (
          grow_pages o box
            (page_end box.opts.pagesize (brk.brkbase + brk.brksize))
            (page_end box.opts.pagesize (brk.brkbase + size))
            t
          >>= λ r. done (set_break brk size r))
  unfolding grow_pages
  grow_pages-Broke size new = elim (Bool-cases (needs_pages brk box size)) [
    | inl more ↦ rw (more, len more) (go more (new_pages o brk box size t) refl)
    | inr enough ↦ rw enough (moved-Broke size new enough)
  ]
    where
      old_end : ℕ
      old_end = page_end box.opts.pagesize (brk.brkbase + brk.brksize)

      len :
          needs_pages brk box size ≡ true
          → sub64
              (page_end box.opts.pagesize (brk.brkbase + size))
              (page_end box.opts.pagesize (brk.brkbase + brk.brksize))
            ≡ page_end box.opts.pagesize (brk.brkbase + size)
              - page_end box.opts.pagesize (brk.brkbase + brk.brksize)
      len more =
          let small = h.no_wrap in
          let some_page = h.some_page in
          let le = new.0 in
          let top = page_end-below box.opts.pagesize (brk.brkbase + size) in ground arith

      go :
          needs_pages brk box size ≡ true
          → (r : Run (Option ℕ × Box × Trace)) → new_pages o brk box size t ≡ r
          → Broke o brk box limit addr t (
              (r >>= λ (a, box', t'). done (is_some a, box', t')) >>= λ r.
              done (set_break brk size r))
      go more (done (none, box', t')) same = no_room size box' t' ok new more same
      go more (done (some a, box', t')) same =
          let le = new.0 in
          let small = h.no_wrap in
          let sum : add64 brk.brkbase size ≡ brk.brkbase + size = omega arith in
          rw sum (grown size a box' t' ok new more same)
      go more aborted same = stopped size ok new more same

  -- A break that does not rise needs no pages.
  down_needs_none : (size : ℕ) → size ≤ brk.brksize → needs_pages brk box size ≡ false
  down_needs_none size le =
      let some_page = h.some_page in
      let low =
        page_end-le box.opts.pagesize (brk.brkbase + size) (brk.brkbase + brk.brksize) some_page
          (omega arith) in
      ground arith

  -- The break is there already.
  unchanged :
      (brkp : ℕ)
      → brkp ≡ brk.brkbase + brk.brksize
      → brkp ≡ between brk.brkbase (brk.brkbase + limit) (asked brk addr)
      → Broke o brk box limit addr t (done (some brkp, brk, box, t))
  unchanged brkp at e =
      rw at
        (moved brk.brksize ok (h.inside, sym at ∙ e) (down_needs_none brk.brksize (omega arith)))

  move_break-Broke :
      (brkp : ℕ)
      → brkp ≡ between brk.brkbase (brk.brkbase + limit) (asked brk addr)
      → Broke o brk box limit addr t (move_break o brk box limit brkp t)
  unfolding move_break
  move_break-Broke brkp e =
      let small = h.no_wrap in
      let inside = h.inside in
      let some_page = h.some_page in
      let bounds : (brk.brkbase ≤ brkp) × (brkp ≤ brk.brkbase + limit) = rw e (ground arith) in
      let diff = brkp - brk.brkbase in
      let size : sub64 brkp brk.brkbase ≡ diff = omega arith in
      let whole : brk.brkbase + diff ≡ brkp = omega arith in
      let old_at : add64 brk.brkbase brk.brksize ≡ brk.brkbase + brk.brksize = omega arith in
      let new_at : add64 brk.brkbase diff ≡ brk.brkbase + diff = omega arith in
      let old_end =
        ap (λ x. align_up x box.opts.pagesize) old_at
        ∙ align_up-page_end (brk.brkbase + brk.brksize) box.opts.pagesize some_page (omega arith) in
      let new_end =
        ap (λ x. align_up x box.opts.pagesize) new_at
        ∙ align_up-page_end (brk.brkbase + diff) box.opts.pagesize some_page (omega arith) in
      let fits : leb diff limit ≡ true = ground arith in
      let new : IsNewSize brk limit addr diff = (omega arith, whole ∙ e) in
      rw (size, fits)
        (elim (Bool-cases (diff == brk.brksize)) [
          | inl same ↦ rw same (unchanged brkp (ground arith) e)
          | inr other ↦
              rw (other, old_end, new_end, old_at)
                (elim (Bool-cases (ltb (brk.brkbase + brk.brksize) brkp)) [
                  | inl up ↦ rw up (grow_pages-Broke diff new)
                  | inr down ↦ rw down (moved-Broke diff new (down_needs_none diff (ground arith)))
                ])
        ])

-- On a break inside its limit, where no address up to a page behind the limit wraps, `sys_brk` never
-- fails its assertion. It refuses an address outside the sandbox, other than 0, and changes nothing.
-- Any other request is for a new break: the address asked for (the present break for 0), moved into the
-- range from the base to the limit. Where the new break lies in the pages of the old one, the break
-- becomes it, with no host call. Where it does not, `lfi_box_mapat` is called for exactly the pages
-- between, private, anonymous, readable and writable. Only where it refuses does the break stay, and the
-- answer is -1; if it aborts, so does the call. The answer is the new break otherwise.
pub sys_brk-Broke :
    (o : Oracle) (brk : Break) (box : Box) (limit addr : ℕ) (t : Trace)
    → IsBreak brk limit box.opts.pagesize
    → Broke o brk box limit addr t (sys_brk o brk box limit addr t)
unfolding sys_brk
sys_brk-Broke o brk box limit addr t h =
    let small = h.no_wrap in
    let le = h.inside in
    elim (Bool-cases (addr == 0)) [
      | inl zero_addr ↦
          let sum : add64 brk.brkbase brk.brksize ≡ brk.brkbase + brk.brksize = omega arith in
          let e : clamp_break brk limit (add64 brk.brkbase brk.brksize)
              ≡ between brk.brkbase (brk.brkbase + limit) (asked brk addr) =
            clamp_break-between brk limit _ (omega arith) ∙ rw (sum, zero_addr) refl in
          rw zero_addr (move_break-Broke o brk box limit addr t h (rw zero_addr refl) _ e)
      | inr some_addr ↦
          let e : clamp_break brk limit addr
              ≡ between brk.brkbase (brk.brkbase + limit) (asked brk addr) =
            clamp_break-between brk limit addr (omega arith) ∙ rw some_addr refl in
          rw some_addr (elim (Bool-cases (lfi_box_ptrvalid box addr)) [
            | inl valid ↦
                rw valid
                  (move_break-Broke o brk box limit addr t h (rw (some_addr, valid) refl) _ e)
            | inr bad ↦ rw bad (refused (rw (some_addr, bad) refl))
          ])
    ]
