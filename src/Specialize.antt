-- ===== src/Specialize.antt =====
-- Replacing an instruction by a cheaper one once some of its inputs are known: the functions of
-- src/x86/Specialize.cpp. A function gets the opcode and the explicit operands in a draft, which it
-- changes, and the pool of constants. An assertion that fails, a read of the wrong member of an operand
-- and a pool that is full give `none`.
pub mod Arith
pub mod Compare
pub mod Move
pub mod Meaning
use drob.Prelude.{
  ℕ, zero, suc, ◌+◌, ◌%◌, ◌&&◌, ◌||◌, Option, none, some, Bool, true, false, ◌>>=◌, if◌then◌else◌,
  List,
}
use drob.Value.{
  DynamicValue, PtrType, unknown_value, dead_value, tainted_value, imm64, imm128, ptr_value, usr,
  u64,
}
use drob.Registers.{Register}
use drob.Registers.Codes.{register_eq}
use drob.Memory.{Immediate, raw_direct, UsrPtrCfg, get_usr_ptr_cfg}
use drob.BinaryPool.{BinaryPool, alloc_constant64, alloc_constant128}
use drob.Liveness.{Mask}
use drob.Instruction.{StaticOperand, reg_op, mem_op, imm_op}
use drob.Encoder.Opcode.{Opcode}

-- `SpecRet`
pub data SpecRet : Type 0 where
  no_change change delete : SpecRet

-- The copies of the opcode and of the explicit operands, and the pool.
pub record Draft : Type 0 where
  pub opcode : Opcode
  pub op0 : StaticOperand
  pub op1 : StaticOperand
  pub pool : BinaryPool

abbrev pub Specialization : Type 0
Specialization = Option (SpecRet × Draft)

-- `registersWillBeRead`, for masks of a number of subregisters.
unfoldable pub registers_will_be_read : ℕ → Mask → Mask → Bool
registers_will_be_read zero live_out registers = false
registers_will_be_read (suc n) live_out registers =
    (live_out n && registers n) || registers_will_be_read n live_out registers

-- `getImm`
unfoldable pub get_imm : List UsrPtrCfg → DynamicValue → Option (Option Immediate)
get_imm usr_ptrs (imm64 v) = some (some (record { val = v; usr_ptr = none }))
get_imm usr_ptrs (imm128 v) = none
get_imm usr_ptrs (ptr_value usr nr offset) = do
  cfg ← get_usr_ptr_cfg usr_ptrs nr
  some (
      if cfg.is_known
      then some (record { val = (cfg.val + offset) % u64; usr_ptr = some (nr, offset) })
      else none)
get_imm usr_ptrs _ = some none

-- A call of `getImm`, and what is done with the immediate.
unfoldable pub with_imm :
    List UsrPtrCfg → DynamicValue → (Immediate → Specialization) → Specialization → Specialization
with_imm usr_ptrs v f rest = do r ← get_imm usr_ptrs v; elim r [ none ↦ rest | some imm ↦ f imm ]

-- `explOperands.op[i].reg`
abbrev pub reg_of : StaticOperand → Option Register
reg_of (reg_op reg) = some reg
reg_of _ = none

-- `explOperands.op[0].reg == explOperands.op[1].reg`
abbrev pub same_register : Draft → Option Bool
same_register d = do a ← reg_of d.op0; b ← reg_of d.op1; some (register_eq a b)

abbrev pub unchanged : Draft → Specialization
unchanged d = some (no_change, d)

abbrev pub deleted : Draft → Specialization
deleted d = some (delete, d)

-- A new opcode for the operands as they are.
abbrev pub use_opcode : Draft → Opcode → Specialization
use_opcode d opcode = some (change, record d { opcode = opcode })

-- A new opcode with an immediate as operand 1.
abbrev pub use_imm : Draft → Opcode → Immediate → Specialization
use_imm d opcode imm = some (change, record d { opcode = opcode; op1 = imm_op imm })

-- A new opcode with the register of operand 0 as operand 1.
unfoldable pub use_same_reg : Draft → Opcode → Specialization
use_same_reg d opcode = do
  reg ← reg_of d.op0
  some (change, record d { opcode = opcode; op1 = reg_op reg })

abbrev pub pool_operand : ℕ → StaticOperand
pool_operand addr = mem_op (raw_direct (record { val = addr; usr_ptr = none }))

module _ (mmap_fixed : ℕ → Bool) where
  -- A new opcode with a constant of the pool as operand 1.
  unfoldable pub use_constant64 : Draft → Opcode → ℕ → Specialization
  use_constant64 d opcode val = do
    r ← alloc_constant64 mmap_fixed d.pool val
    some (change, record d { opcode = opcode; op1 = pool_operand r.0; pool = r.1 })

  unfoldable pub use_constant128 : Draft → Opcode → ℕ → Specialization
  use_constant128 d opcode val = do
    r ← alloc_constant128 mmap_fixed d.pool val
    some (change, record d { opcode = opcode; op1 = pool_operand r.0; pool = r.1 })
