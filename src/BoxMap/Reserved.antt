-- ===== src/BoxMap/Reserved.antt =====
-- `boxmap_reserve` (core/boxmap.c) comes to an end, and answers truthfully.
use native.Mathlib.Omega.{arith}
use lfi_runtime.Prelude.{
  ℕ, zero, suc, ◌+◌, ◌/◌, ◌^◌, ◌≤◌, ◌<◌, ◌≡◌, refl, ◌∙◌, inl, inr, Bool, true, false, Option, none,
  some, List, [], ◌∷◌, ◌++◌, if◌then◌else◌, ◌==◌, ltb, leb, Run, done, ◌>>=◌, add64, sub64, word,
  Returns, returns, Returns-bind, Returns-map, subst, Bool-cases,
}
use lfi_runtime.Host.{munmap, Trace, Oracle}
use lfi_runtime.BoxMap.{AddrRegion, BoxMap, addr_region_max, gb, tb}
use lfi_runtime.BoxMap.Reserve.{
  Reserved, got, failed, out_of_fuel, reserve_call, reserve, region_of, addregion, Goal, Answer,
  answered, starved, reserve_fuel, reserve_loop, boxmap_reserve,
}
use lfi_runtime.BoxMap.Chunks.{ChunkOk, Adds, added, not_added, addregion-Adds}

-- A reservation that the loop got is between the threshold and the size asked for; fuel for each bit
-- of the size does not run out.
data Got (size threshold : ℕ) : Reserved → Type 0 where
  enough : (p n : ℕ) → threshold ≤ n → n ≤ size → Got size threshold (got p n)
  nothing : Got size threshold failed

smaller_request :
    (size size' threshold : ℕ) (r : Reserved)
    → size' ≤ size
    → Got size' threshold r
    → Got size threshold r
smaller_request size size' threshold r le (enough p n lo hi) = enough p n lo (omega arith)
smaller_request size size' threshold r le nothing = nothing

fuel_left :
    (fuel size threshold : ℕ)
    → size < 2 ^ suc fuel
    → 0 < threshold
    → threshold ≤ size / 2
    → 0 < fuel
fuel_left zero size threshold small p lo = absurd (omega arith)
fuel_left (suc fuel) size threshold small p lo = omega arith

reserve-Got :
    (o : Oracle) (fuel size threshold : ℕ) (t : Trace)
    → size < 2 ^ fuel
    → 0 < fuel
    → 0 < threshold
    → Got size threshold (reserve o fuel size threshold t).0
unfolding reserve
reserve-Got o zero size threshold t small some_fuel pos_threshold = absurd (omega arith)
reserve-Got o (suc fuel) size threshold t small some_fuel pos_threshold =
    answer (o t (reserve_call size)) (λ lo.
      reserve-Got o fuel (size / 2) threshold (reserve_call size ∷ t) (omega arith)
        (fuel_left fuel size threshold small pos_threshold lo) pos_threshold)
  where
    answer :
        (r : Option ℕ)
        → (threshold ≤ size / 2
            → Got
                (size / 2)
                threshold
                (reserve o fuel (size / 2) threshold (reserve_call size ∷ t)).0)
        → Got size threshold
            (elim r as (λ x. Reserved × Trace) [
              | some p ↦ (if ltb size threshold then failed else got p size, reserve_call size ∷ t)
              | none ↦ elim (ltb (size / 2) threshold) [
                | true ↦ (failed, reserve_call size ∷ t)
                | false ↦ reserve o fuel (size / 2) threshold (reserve_call size ∷ t)
              ]
            ]).0
    answer (some p) rest = elim (Bool-cases (ltb size threshold)) [
      | inl less ↦ rw less nothing
      | inr more ↦ rw more (enough p size (ground arith) (omega arith))
    ]
    answer none rest = elim (Bool-cases (ltb (size / 2) threshold)) [
      | inl less ↦ rw less nothing
      | inr more ↦
          rw more (smaller_request size (size / 2) threshold _ (omega arith) (rest (ground arith)))
    ]

-- The bytes of the reservations of a pool.
unfoldable pub reserved_bytes : List AddrRegion → ℕ
reserved_bytes [] = 0
reserved_bytes (r ∷ rs) = r.mapsize + reserved_bytes rs

reserved_bytes-snoc :
    (rs : List AddrRegion) (r : AddrRegion)
    → reserved_bytes (rs ++ r ∷ []) ≡ reserved_bytes rs + r.mapsize
unfolding reserved_bytes
reserved_bytes-snoc [] r = omega arith
reserved_bytes-snoc (q ∷ rs) r = omega (arith, reserved_bytes-snoc rs r)

-- `boxmap_reserve` answered, and true only if the reservations have grown by what was needed and not
-- yet counted.
pub data Reserves (need counted : ℕ) (map : BoxMap) : Answer × BoxMap × Trace → Type 0 where
  ended :
      (b : Bool) (map' : BoxMap) (t : Trace)
      → map'.opts ≡ map.opts
      → reserved_bytes map.regions ≤ reserved_bytes map'.regions
      → (b ≡ true → need + reserved_bytes map.regions ≤ counted + reserved_bytes map'.regions)
      → Reserves need counted map (answered b, map', t)

same_map :
    (need counted : ℕ) (b : Bool) (map : BoxMap) (t : Trace)
    → (b ≡ true → need ≤ counted)
    → Reserves need counted map (answered b, map, t)
same_map need counted b map t h = ended b map t refl (omega arith) (λ e. omega (arith, h e))

-- A further region counts for its size.
after_region :
    (need counted n : ℕ) (map m : BoxMap) (r : Answer × BoxMap × Trace)
    → m.opts ≡ map.opts
    → reserved_bytes m.regions ≡ reserved_bytes map.regions + n
    → Reserves need (counted + n) m r
    → Reserves need counted map r
after_region need counted n map m r same grown (ended b map' t opts more h) =
    ended b map' t (opts ∙ same) (omega arith) (λ e. omega (arith, h e))

module _ (o : Oracle) (g : Goal) (some_min : 0 < g.min) where
  reserve_loop-Reserves :
      (rounds : ℕ) (map : BoxMap) (size total totalgot : ℕ) (t : Trace)
      → ChunkOk map.opts
      → size ≤ total
      → total + totalgot < word
      → Returns (Reserves g.need totalgot map) (reserve_loop o g rounds map size total totalgot t)
  unfolding reserve_loop
  reserve_loop-Reserves zero map size total totalgot t h le small =
      returns (same_map g.need totalgot (leb g.need totalgot) map t (λ e. ground arith))
  reserve_loop-Reserves (suc rounds) map size total totalgot t h le small =
      after_reserve (reserve o reserve_fuel size g.min t).0 (reserve o reserve_fuel size g.min t).1
        (reserve-Got o reserve_fuel size g.min t (omega arith) (omega arith) some_min)
        (λ m n t' ok len.
          reserve_loop-Reserves rounds m (sub64 total n) (sub64 total n) (add64 totalgot n) t' ok
            (omega arith) (omega arith))
    where
      after_adds :
          (base n : ℕ)
          → n ≤ total
          → (r : Bool × BoxMap × Trace) → Adds map base n r
          → ((m : BoxMap) (n : ℕ) (t' : Trace)
              → ChunkOk m.opts
              → n ≤ total
              → Returns
                  (Reserves g.need (add64 totalgot n) m)
                  (reserve_loop o g rounds m (sub64 total n) (sub64 total n) (add64 totalgot n) t'))
          → Returns
              (Reserves g.need totalgot map)
              (elim r.0 as (λ x. Run (Answer × BoxMap × Trace)) [
                | false ↦ done (answered false, r.1, munmap base n ∷ r.2)
                | true ↦ elim (leb g.want (add64 totalgot n)) [
                  | true ↦ done (answered (leb g.need (add64 totalgot n)), r.1, r.2)
                  | false ↦
                      reserve_loop o g rounds r.1
                        (sub64 total n)
                        (sub64 total n)
                        (add64 totalgot n)
                        r.2
                ]
              ])
      after_adds base n len r (not_added t') rest =
          returns (same_map g.need totalgot false map _ (λ e. cc))
      after_adds base n len r (added alloc t') rest =
          let m : BoxMap = record map {
            regions = map.regions ++ (region_of alloc map.opts base n ∷ []);
          } in
          let sum : add64 totalgot n ≡ totalgot + n = omega arith in
          let grown = reserved_bytes-snoc map.regions (region_of alloc map.opts base n) in
          elim (Bool-cases (leb g.want (add64 totalgot n))) [
            | inl all ↦ rw all (
                returns (
                  after_region g.need totalgot n map m _ refl grown
                    (same_map g.need (totalgot + n) _ m t' (λ e. ground arith))))
            | inr part ↦ rw part (
                Returns-map (rest m n t' h len) (λ r k.
                  after_region g.need totalgot n map m r refl grown
                    (subst (λ k. Reserves g.need k m r) sum k)))
          ]

      after_reserve :
          (r : Reserved) (t' : Trace)
          → Got size g.min r
          → ((m : BoxMap) (n : ℕ) (t' : Trace)
              → ChunkOk m.opts
              → n ≤ total
              → Returns
                  (Reserves g.need (add64 totalgot n) m)
                  (reserve_loop o g rounds m (sub64 total n) (sub64 total n) (add64 totalgot n) t'))
          → Returns (Reserves g.need totalgot map) (elim r as (λ x. Run (Answer × BoxMap × Trace)) [
            | out_of_fuel ↦ done (starved, map, t')
            | failed ↦ done (answered (leb g.need totalgot), map, t')
            | got base n ↦ addregion o map base n t' >>= λ (new, map', t''). elim new [
              | false ↦ done (answered false, map', munmap base n ∷ t'')
              | true ↦ elim (leb g.want (add64 totalgot n)) [
                | true ↦ done (answered (leb g.need (add64 totalgot n)), map', t'')
                | false ↦
                    reserve_loop o g rounds map'
                      (sub64 total n)
                      (sub64 total n)
                      (add64 totalgot n)
                      t''
              ]
            ]
          ])
      after_reserve r t' nothing rest =
          returns (same_map g.need totalgot (leb g.need totalgot) map t' (λ e. ground arith))
      after_reserve r t' (enough base n lo hi) rest =
          Returns-bind (addregion-Adds o map base n t' h)
            (λ r a. after_adds base n (omega arith) r a rest)

-- What `boxmap_reserve` is asked for: 32 GiB where the size is 0.
abbrev pub needed : ℕ → ℕ
needed size = if size == 0 then gb 32 else size

-- In a pool whose chunk size divides 2^64, `boxmap_reserve` for a 64-bit size ends with an answer,
-- whatever the host answers: no assertion fails and no loop runs out of its rounds. It answers true
-- only if the pool's reservations have grown by the size, or by 32 GiB where the size is 0.
pub boxmap_reserve-Reserves :
    (o : Oracle) (map : BoxMap) (size : ℕ) (t : Trace)
    → ChunkOk map.opts
    → size < word
    → Returns (Reserves (needed size) 0 map) (boxmap_reserve o map size t)
unfolding boxmap_reserve
boxmap_reserve-Reserves o map size t h small = elim (Bool-cases (size == 0)) [
  | inl all ↦ rw all (
      reserve_loop-Reserves o (record { min = gb 32; want = tb 255; need = gb 32 }) (omega arith)
        addr_region_max map (tb 255) (tb 256) 0 t h (omega arith) (omega arith))
  | inr part ↦ rw part (
      reserve_loop-Reserves o (record { min = size; want = size; need = size }) (ground arith)
        addr_region_max map size size 0 t h (omega arith) (omega arith))
]
