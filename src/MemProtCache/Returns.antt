-- ===== src/MemProtCache/Returns.antt =====
-- The loops of src/MemProtCache.cpp end: each round goes on at the end of a range that contains the
-- address, so one round for each address asked for is enough.
use drob.Prelude.{
  ℕ, zero, suc, ◌+◌, ◌*◌, ◌%◌, ◌<◌, ◌≤◌, ◌≡◌, refl, arith, ◌==◌, if◌then◌else◌, Bool, true, false,
  not, ltb, Option, some, ◌>>=◌, List, ◌∷◌, Bool-cases, Option-cases, inl, inr, [],
}
use drob.Value.{u64}
use drob.MemProtCache.{
  MemoryRange, MemCfg, cfg_end, find_memory_range, find_cfg, configured_from,
  is_configured_constant, range_is_constant, constant_from, is_constant,
}
use drob.MemProtCache.Sound.{find_cfg-in_cfg, find_memory_range-in_range}

abbrev pub Returns : Option Bool → Type 0
Returns o = (b : Bool) × (o ≡ some b)

chosen :
    (l : List MemCfg) (o : Option Bool)
    → Returns o
    → Returns (elim l [ [] ↦ some false | _ ∷ _ ↦ o ])
chosen [] o h = (false, refl)
chosen (_ ∷ _) o h = h

decided :
    (r w : Bool) (o : Option Bool)
    → Returns o
    → Returns (if not r then some false else if w then o else some true)
decided false w o h = (false, refl)
decided true true o h = h
decided true false o h = (true, refl)

both :
    (o rest : Option Bool)
    → Returns o
    → Returns rest
    → Returns (o >>= λ ok. if ok then rest else some false)
both o rest (true, e) r = rw e r
both o rest (false, e) r = rw e (false, refl)

configured_from-Returns :
    (fuel : ℕ) (mems : List MemCfg) (addr end : ℕ)
    → end ≤ addr + fuel
    → Returns (configured_from fuel mems addr end)
unfolding configured_from
configured_from-Returns zero mems addr end h =
    let p : ltb addr end ≡ false = ground arith in (true, rw p)
configured_from-Returns (suc fuel) mems addr end h = elim (Bool-cases (ltb addr end)) [
  | inr p ↦ (true, rw p)
  | inl p ↦ elim (Option-cases (find_cfg mems addr)) [
    | inl e ↦ (false, rw (p, e))
    | inr (mem, e) ↦
        rw (p, e)
          (configured_from-Returns fuel mems (cfg_end mem) end
            (ground (arith, find_cfg-in_cfg mems addr mem e)))
  ]
]

-- If the range asked for is not empty and ends below 2 ^ 64, then `isConfiguredConstant` returns.
pub is_configured_constant-Returns :
    (mems : List MemCfg) (addr size : ℕ)
    → 0 < size
    → addr + size < u64
    → Returns (is_configured_constant mems addr size)
unfolding is_configured_constant
is_configured_constant-Returns mems addr size pos lt =
    let end = (addr + size) % u64 in
    let same : end ≡ addr + size = omega arith in
    let p : (size == 0) ≡ false = ground arith in
    let q : ltb addr end ≡ true = ground arith in
    rw (p, q) (chosen mems _ (configured_from-Returns size mems addr end (omega arith)))

range_is_constant-Returns :
    (mems : List MemCfg) (range : MemoryRange) (addr size : ℕ)
    → 0 < size
    → addr + size < u64
    → Returns (range_is_constant mems range addr size)
unfolding range_is_constant
range_is_constant-Returns mems range addr size pos lt =
    decided range.r range.w _ (is_configured_constant-Returns mems addr size pos lt)

constant_from-Returns :
    (fuel : ℕ) (ranges : List MemoryRange) (mems : List MemCfg) (addr end size : ℕ)
    → end ≤ addr + fuel
    → 0 < size
    → end + size ≤ u64
    → Returns (constant_from fuel ranges mems addr end size)
unfolding constant_from
constant_from-Returns zero ranges mems addr end size h pos room =
    let p : ltb addr end ≡ false = ground arith in (true, rw p)
constant_from-Returns (suc fuel) ranges mems addr end size h pos room =
    elim (Bool-cases (ltb addr end)) [
      | inr p ↦ (true, rw p)
      | inl p ↦ elim (Option-cases (find_memory_range ranges addr)) [
        | inl e ↦ (false, rw (p, e))
        | inr (range, e) ↦
            let lt : addr < end = ground arith in
            rw (p, e)
              (both _ _ (range_is_constant-Returns mems range addr size pos (omega arith)) (
                constant_from-Returns fuel ranges mems range.end end size
                  (ground (arith, find_memory_range-in_range ranges addr range e)) pos room))
      ]
    ]

-- If the range asked for is not empty and one as long behind it would end at 2 ^ 64 or below, then
-- `isConstant` returns: its loops end, and it does not throw.
pub is_constant-Returns :
    (ranges : List MemoryRange) (mems : List MemCfg) (addr size : ℕ)
    → 0 < size
    → addr + 2 * size ≤ u64
    → Returns (is_constant ranges mems addr size)
unfolding is_constant
is_constant-Returns ranges mems addr size pos room =
    let end = (addr + size) % u64 in
    let same : end ≡ addr + size = omega arith in
    let p : (size == 0) ≡ false = ground arith in
    let q : ltb addr end ≡ true = ground arith in
    rw (p, q) (constant_from-Returns size ranges mems addr end size (omega arith) pos (omega arith))
