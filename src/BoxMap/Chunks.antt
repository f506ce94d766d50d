-- ===== src/BoxMap/Chunks.antt =====
-- `addregion` (core/boxmap.c) hands whole chunks to `extalloc_new`, whose assertions hold.
use native.Mathlib.Omega.{arith}
use Prim.Native.Nat.{◌∣◌}
use native.Mathlib.Nat.{
  mod-mod_of_dvd, dvd_of_mod-eq-zero, mod-eq-zero_of_dvd, div-add-mod', dvd-add, dvd-sub,
  dvd-mul_left, mod-lt, mod_self, le_of_dvd,
}
use lfi_runtime.Prelude.{
  ℕ, ◌+◌, ◌-◌, ◌*◌, ◌/◌, ◌%◌, ◌^◌, ◌≤◌, ◌<◌, ◌≡◌, ◌∙◌, inl, inr, Bool, true, false, not, Option,
  none, some, [], ◌∷◌, ◌++◌, if◌then◌else◌, ◌==◌, replicate, leb, length, done, pos, negsuc, add64,
  sub64, word, Returns, returns, Returns-bind, Bool-cases,
}
use lfi_runtime.Host.{mmap, prot_none, anon_fixed, Trace, Oracle}
use lfi_runtime.ExtAlloc.{ExtAlloc, extalloc_new}
use lfi_runtime.BoxMap.{BoxMapOptions, BoxMap, addr_region_max, truncp, ceilp}
use lfi_runtime.BoxMap.Reserve.{alignbase, alignsize, region_of, two_mallocs, mapregion, addregion}

-- The chunk size divides 2^64: it is a power of two.
module _ {c : ℕ} (some_c : 0 < c) (small_c : c ≤ word) (h : c ∣ word) where
  word-dvd : {x : ℕ} → c ∣ x → c ∣ x % word
  word-dvd {x} d = dvd_of_mod-eq-zero c (mod-mod_of_dvd c x h ∙ mod-eq-zero_of_dvd c d)

  whole-dvd : (x : ℕ) → c ∣ x / c * c
  whole-dvd x = dvd-mul_left c (x / c)

  truncp-dvd : (x : ℕ) → c ∣ truncp x c
  unfolding truncp
  truncp-dvd x =
      let e : x + 2 ^ 64 - x % c ≡ x / c * c + word = omega (arith, div-add-mod' x c) in
      word-dvd (rw e (dvd-add c (whole-dvd x) h))

  ceilp-dvd : (x : ℕ) → c ∣ ceilp x c
  unfolding ceilp
  ceilp-dvd x = elim (Bool-cases (x % c == 0)) [
    | inl whole ↦ rw whole (dvd_of_mod-eq-zero c (ground arith))
    | inr part ↦ rw part (
        word-dvd {x = x + sub64 c (x % c)} (
          let lt = mod-lt x some_c in
          let e : x + sub64 c (x % c) ≡ x / c * c + c = ground (arith, div-add-mod' x c) in
          rw e (dvd-add c (whole-dvd x) (dvd_of_mod-eq-zero c {n = c} (mod_self c)))))
  ]

  sub64-dvd : {a b : ℕ} → c ∣ a → c ∣ b → c ∣ sub64 a b
  sub64-dvd {a} {b} da db = word-dvd {x = a + word - b} (dvd-sub c (dvd-add c da h) db)

-- What a call of `addregion` does to the regions.
pub data Adds (map : BoxMap) (base size : ℕ) : Bool × BoxMap × Trace → Type 0 where
  added :
      (alloc : ExtAlloc) (t : Trace)
      → Adds map base size (
        true,
        record map { regions = map.regions ++ (region_of alloc map.opts base size ∷ []) },
        t,
      )
  not_added : (t : Trace) → Adds map base size (false, map, t)

mapregion-Adds :
    (o : Oracle) (map : BoxMap) (base size : ℕ) (a : Option ExtAlloc) (t : Trace)
    → Adds map base size (mapregion o map base size a t)
unfolding mapregion
mapregion-Adds o map base size none t = not_added t
mapregion-Adds o map base size (some alloc) t =
    answer (o t (mmap start (alignsize map.opts base size) prot_none anon_fixed (negsuc 0) (pos 0)))
  where
    start : ℕ
    start = alignbase map.opts base

    answer :
        (r : Option ℕ)
        → let call =
            mmap start (alignsize map.opts base size) prot_none anon_fixed (negsuc 0) (pos 0) in
          Adds map base size (elim r as (λ x. Bool × BoxMap × Trace) [
            | none ↦ (false, map, call ∷ t)
            | some region ↦ if not (region == start) then (false, map, call ∷ t) else (
              true,
              record map { regions = map.regions ++ (region_of alloc map.opts base size ∷ []) },
              call ∷ t,
            )
          ])
    answer none = not_added _
    answer (some region) = elim (Bool-cases (region == start)) [
      | inl same ↦ rw same (added alloc _)
      | inr other ↦ rw other (not_added _)
    ]

extalloc_new-Returns :
    (m c : Bool) (base size chunk : ℕ)
    → base % chunk ≡ 0
    → size % chunk ≡ 0
    → Returns {0, 0} (λ a. Unit) (extalloc_new m c base size chunk)
unfolding extalloc_new
extalloc_new-Returns m c base size chunk hb hs = rw (hb, hs) (go m c)
  where
    go :
        (m c : Bool)
        → Returns {0, 0} {A = Option ExtAlloc}
            (λ a. Unit)
            (if not m
              then done none
              else if not c
              then done none
              else done (
                  some (record {
                    base = base / chunk;
                    size = size / chunk;
                    chunksize = chunk;
                    bitvec = replicate (add64 (size / chunk / 8) 1) 0;
                  })))
    go true true = returns tt
    go true false = returns tt
    go false c = returns tt

-- A pool's chunk size is a power of two, so it divides 2^64.
pub record ChunkOk (opts : BoxMapOptions) : Type 0 where
  pub some_chunk : 0 < opts.chunksize
  pub divides : word % opts.chunksize ≡ 0

pub addregion-Adds :
    (o : Oracle) (map : BoxMap) (base size : ℕ) (t : Trace)
    → ChunkOk map.opts
    → Returns (Adds map base size) (addregion o map base size t)
unfolding addregion alignbase alignsize
addregion-Adds o map base size t h = elim (Bool-cases (leb addr_region_max (length map.regions))) [
  | inl crowded ↦ rw crowded (returns (not_added t))
  | inr room ↦
      let c = map.opts.chunksize in
      let d : c ∣ word = dvd_of_mod-eq-zero c h.divides in
      let le : c ≤ word = le_of_dvd (omega arith) d in
      let low = ceilp-dvd h.some_chunk le d (add64 base map.opts.guardsize) in
      let high = truncp-dvd h.some_chunk le d (sub64 (add64 base size) map.opts.guardsize) in
      let span = sub64-dvd h.some_chunk le d high low in
      rw room (
        Returns-bind
          (extalloc_new-Returns (two_mallocs o t).0 (two_mallocs o t).1 _ _ c
            (mod-eq-zero_of_dvd c low) (mod-eq-zero_of_dvd c span))
          (λ a u. returns (mapregion-Adds o map base size a (two_mallocs o t).2)))
]
