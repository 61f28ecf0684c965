-- ===== src/MemProtCache.antt =====
-- `MemProtCache` of src/MemProtCache.hpp and src/MemProtCache.cpp: which memory is constant. The list
-- of ranges that the constructor reads from the system is a parameter of the queries. A loop runs on
-- fuel: it has none left only where it has not ended.
pub mod Sound
pub mod Returns
use drob.Prelude.{
  ℕ, zero, suc, ◌+◌, ◌%◌, ◌==◌, if◌then◌else◌, Bool, true, false, not, ◌&&◌, leb, ltb, Option, none,
  some, ◌>>=◌, ◌>>◌, drob_assert, List, ◌∷◌, [],
}
use drob.Value.{u64}

-- `MemoryRange`
pub record MemoryRange : Type 0 where
  pub start : ℕ
  pub end : ℕ
  pub r : Bool
  pub w : Bool
  pub x : Bool

-- `drob_mem_cfg`
pub record MemCfg : Type 0 where
  pub start : ℕ
  pub size : ℕ

abbrev pub in_range : MemoryRange → ℕ → Bool
in_range range addr = leb range.start addr && ltb addr range.end

-- The end of a configured range, a `uint64_t`.
abbrev pub cfg_end : MemCfg → ℕ
cfg_end mem = (mem.start + mem.size) % u64

abbrev pub in_cfg : MemCfg → ℕ → Bool
in_cfg mem addr = leb mem.start addr && ltb addr (cfg_end mem)

-- `findMemoryRange`
pub find_memory_range : List MemoryRange → ℕ → Option MemoryRange
find_memory_range [] addr = none
find_memory_range (range ∷ ranges) addr =
    let rest = find_memory_range ranges addr in if in_range range addr then some range else rest

-- The inner loop of `isConfiguredConstant`.
pub find_cfg : List MemCfg → ℕ → Option MemCfg
find_cfg [] addr = none
find_cfg (mem ∷ mems) addr =
    let rest = find_cfg mems addr in if in_cfg mem addr then some mem else rest

-- The loop of `isConfiguredConstant` from `addr` on.
pub configured_from : ℕ → List MemCfg → ℕ → ℕ → Option Bool
unfolding find_cfg
configured_from zero mems addr end = if ltb addr end then none else some true
configured_from (suc fuel) mems addr end =
    if ltb addr end
    then elim (find_cfg mems addr) [
      | none ↦ some false
      | some mem ↦ configured_from fuel mems (cfg_end mem) end
    ]
    else some true

-- `isConfiguredConstant`
unfoldable pub is_configured_constant : List MemCfg → ℕ → ℕ → Option Bool
unfolding configured_from
is_configured_constant mems addr size =
    let end = (addr + size) % u64 in
    let found = configured_from size mems addr end in
    if size == 0
    then some true
    else (do drob_assert (ltb addr end); elim mems [ [] ↦ some false | _ ∷ _ ↦ found ])

-- The test of one range: `none` where the query of the configuration throws.
pub range_is_constant : List MemCfg → MemoryRange → ℕ → ℕ → Option Bool
unfolding is_configured_constant
range_is_constant mems range addr size =
    if not range.r
    then some false
    else if range.w
    then is_configured_constant mems addr size
    else some true

-- The loop of `isConstant` from `addr` on.
pub constant_from : ℕ → List MemoryRange → List MemCfg → ℕ → ℕ → ℕ → Option Bool
unfolding find_memory_range range_is_constant
constant_from zero ranges mems addr end size = if ltb addr end then none else some true
constant_from (suc fuel) ranges mems addr end size =
    if ltb addr end
    then elim (find_memory_range ranges addr) [
      | none ↦ some false
      | some range ↦
          (let rest = constant_from fuel ranges mems range.end end size in
            range_is_constant mems range addr size >>= λ ok. if ok then rest else some false)
    ]
    else some true

-- `isConstant`
unfoldable pub is_constant : List MemoryRange → List MemCfg → ℕ → ℕ → Option Bool
unfolding constant_from
is_constant ranges mems addr size =
    let end = (addr + size) % u64 in
    if size == 0
    then some true
    else (do drob_assert (ltb addr end); constant_from size ranges mems addr end size)
