-- ===== src/Memory.antt =====
-- Memory operands of an instruction in a program state: `calculateMemPtr`, `emulateReadAccess` and
-- `createMemAccess` of src/Instruction.cpp. The bytes of the host's memory, the ranges of memory and
-- the user's configuration are parameters.
pub mod Sound
use drob.Prelude.{
  ℕ, zero, suc, ◌+◌, ◌-◌, ltb, ◌*◌, ◌%◌, ◌^◌, ◌==◌, if◌then◌else◌, Bool, true, false, not, ◌&&◌,
  ◌||◌, Option, none, some, ◌>>=◌, ◌>>◌, drob_assert, List, [], ◌∷◌,
}
use drob.Prelude.Bytes.{load}
use drob.Value.{
  DynamicValue, PtrType, dead_value, unknown_value, tainted_value, imm64, imm128, ptr_value, u64,
  get_type, get_imm64, is_imm, multiply_dynamic_value, add_dynamic_values, stack, usr, ret,
}
use drob.Registers.{Register, no_register, full}
use drob.Stack.{Offset, nonneg, neg}
use drob.Program.{ProgramState, get_register, get_stack}
use drob.MemProtCache.{MemoryRange, MemCfg, is_constant}

-- `Immediate64` and `SignedImmediate32`: the value, as a 64-bit pattern, and the number and offset of a
-- user pointer, if it is not negative.
pub record Immediate : Type 0 where
  pub val : ℕ
  pub usr_ptr : Option (ℕ × ℕ)

-- `StaticMemPtr`
pub data RawMemPtr : Type 0 where
  raw_direct : Immediate → RawMemPtr
  raw_sib : Register → Register → Immediate → ℕ → RawMemPtr

-- `UsrPtrCfg`, the part that reads use.
pub record UsrPtrCfg : Type 0 where
  pub is_known : Bool
  pub is_const : Bool
  pub val : ℕ

-- `calculateMemPtr` of base, index, displacement and scale.
unfoldable pub calculate_mem_ptr : DynamicValue → DynamicValue → DynamicValue → ℕ → DynamicValue
calculate_mem_ptr base index disp scale =
    if is_imm (get_type base) && is_imm (get_type index) && is_imm (get_type disp)
    then imm64 ((get_imm64 base + scale * get_imm64 index + get_imm64 disp) % u64)
    else add_dynamic_values disp (add_dynamic_values base (multiply_dynamic_value index scale))

-- The value of an immediate, or the user pointer that it stands for.
abbrev pub immediate_value : Immediate → Option (ℕ × ℕ) → DynamicValue
immediate_value i none = imm64 i.val
immediate_value i (some (nr, offset)) = ptr_value usr nr offset

abbrev pub is_no_register : Register → Bool
is_no_register no_register = true
is_no_register _ = false

-- A base or an index, 0 where there is none.
unfoldable pub address_register : ProgramState → Register → Option DynamicValue
address_register ps reg = if is_no_register reg then some (imm64 0) else get_register ps reg full

-- `createMemAccess`: the pointer's value.
unfoldable pub create_mem_access : RawMemPtr → ProgramState → Option DynamicValue
unfolding calculate_mem_ptr address_register
create_mem_access (raw_direct addr) ps = some (immediate_value addr addr.usr_ptr)
create_mem_access (raw_sib base index disp scale) ps = do
  b ← address_register ps base
  i ← address_register ps index
  some (calculate_mem_ptr b i (immediate_value disp disp.usr_ptr) scale)

-- `getUsrPtrCfg`
unfoldable pub get_usr_ptr_cfg : List UsrPtrCfg → ℕ → Option UsrPtrCfg
get_usr_ptr_cfg [] nr = none
get_usr_ptr_cfg (cfg ∷ rest) zero = some cfg
get_usr_ptr_cfg (cfg ∷ rest) (suc nr) = get_usr_ptr_cfg rest nr

-- An offset of `int64_t`, from its pattern.
abbrev pub to_offset : ℕ → Offset
to_offset v = if ltb v (2 ^ 63) then nonneg v else neg (u64 - 1 - v)

module _ (memory : ℕ → ℕ) (ranges : List MemoryRange) (mems : List MemCfg)
    (usr_ptrs : List UsrPtrCfg) where
  -- The last `switch` of `emulateReadAccess`.
  unfoldable pub read_host : ℕ → ℕ → Option DynamicValue
  read_host ptr size =
      if (size == 1) || (size == 2) || (size == 4) || (size == 8)
      then some (imm64 (load size ptr memory))
      else if size == 16
      then some (imm128 (load 16 ptr memory))
      else none

  -- "At this point we are reading from a known host address."
  unfoldable pub read_known : Bool → ℕ → ℕ → Option DynamicValue
  unfolding read_host
  read_known is_const ptr size = do
    constant ← (if is_const then some true else is_constant ranges mems ptr size)
    if constant then read_host ptr size else some unknown_value

  unfoldable pub read_usr_ptr : UsrPtrCfg → ℕ → ℕ → Option DynamicValue
  unfolding read_known
  read_usr_ptr cfg offset size =
      if not cfg.is_known
      then some unknown_value
      else read_known cfg.is_const ((cfg.val + offset) % u64) size

  -- `emulateReadAccess`, with the program state, whose stack can grow.
  unfoldable pub emulate_read_access :
      DynamicValue → ℕ → ProgramState → Option (DynamicValue × ProgramState)
  unfolding read_usr_ptr read_known get_usr_ptr_cfg
  emulate_read_access tainted_value size ps = some (tainted_value, ps)
  emulate_read_access unknown_value size ps = some (unknown_value, ps)
  emulate_read_access dead_value size ps = some (unknown_value, ps)
  emulate_read_access (ptr_value ret nr offset) size ps = none
  emulate_read_access (ptr_value stack nr offset) size ps = get_stack ps (to_offset offset) size
  emulate_read_access (ptr_value usr nr offset) size ps = do
    cfg ← get_usr_ptr_cfg usr_ptrs nr
    v ← read_usr_ptr cfg offset size
    some (v, ps)
  emulate_read_access (imm64 ptr) size ps = do v ← read_known false ptr size; some (v, ps)
  emulate_read_access (imm128 ptr) size ps = do v ← read_known false (ptr % u64) size; some (v, ps)
