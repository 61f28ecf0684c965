-- ===== src/Instruction.antt =====
-- What an instruction reads and writes: `StaticOperandInfo`, `OperandInfo` and `OpcodeInfo` of
-- src/OpcodeInfo.hpp, `InstructionInfo` of src/InstructionInfo.hpp and `getInfo` of src/Instruction.cpp.
-- The masks that the generated table gives to a register are a parameter.
pub mod Dynamic
pub mod Emulate
pub mod Taint
use drob.Prelude.{
  ℕ, zero, suc, Bool, true, false, Option, none, some, List, [], ◌∷◌, ◌++◌, ◌>>=◌, if◌then◌else◌,
}
use drob.Registers.{Register, no_register, RegisterAccessType, full}
use drob.Memory.{Immediate, RawMemPtr, raw_direct, raw_sib, is_no_register}
use drob.Predicate.{
  Predicate, PredComparison, PredComparand, reg_side, imm_side, PredConjunction, no_conjunction,
}
use drob.Liveness.{Mask, zero_mask, fill_mask, add_mask}
use drob.Program.{ProgramState}
use drob.Emulator.{DynamicOperandInfo, Emulation}

-- `AccessMode`
pub data AccessMode : Type 0 where
  no_mode address read may_read write may_write read_write may_read_write read_may_write :
      AccessMode
  may_read_may_write : AccessMode

-- `isRead`, `isWrite`, `isConditional` and `isSpecial`.
abbrev pub is_read : AccessMode → Bool
is_read read = true
is_read may_read = true
is_read read_write = true
is_read may_read_write = true
is_read read_may_write = true
is_read may_read_may_write = true
is_read _ = false

abbrev pub is_write : AccessMode → Bool
is_write write = true
is_write may_write = true
is_write read_write = true
is_write may_read_write = true
is_write read_may_write = true
is_write may_read_may_write = true
is_write _ = false

abbrev pub is_conditional : AccessMode → Bool
is_conditional may_read = true
is_conditional may_write = true
is_conditional may_read_write = true
is_conditional read_may_write = true
is_conditional may_read_may_write = true
is_conditional _ = false

abbrev pub is_special : AccessMode → Bool
is_special address = true
is_special _ = false

abbrev pub is_no_mode : AccessMode → Bool
is_no_mode no_mode = true
is_no_mode _ = false

-- `StaticRegAccess`
pub record RegAccess : Type 0 where
  pub reg : Register
  pub mode : AccessMode
  pub r : RegisterAccessType
  pub w : RegisterAccessType

-- `StaticMemAccess`; the size is in bytes, 0 for `Unknown`.
pub record MemOperand : Type 0 where
  pub ptr : RawMemPtr
  pub mode : AccessMode
  pub size : ℕ

-- `StaticOperandInfo`
pub data StaticOperandInfo : Type 0 where
  reg_info : RegAccess → StaticOperandInfo
  mem_info : MemOperand → StaticOperandInfo
  imm_info : Immediate → StaticOperandInfo

-- `ExplicitStaticOperandInfo`: what the opcode says of an operand that the instruction names.
pub data ExplicitInfo : Type 0 where
  expl_reg : AccessMode → RegisterAccessType → RegisterAccessType → ExplicitInfo
  expl_mem : AccessMode → ℕ → ExplicitInfo
  expl_imm : ExplicitInfo

-- `StaticOperand`: an explicit operand.
pub data StaticOperand : Type 0 where
  reg_op : Register → StaticOperand
  mem_op : RawMemPtr → StaticOperand
  imm_op : Immediate → StaticOperand

-- `OperandInfo`
pub record OperandInfo : Type 0 where
  pub info : StaticOperandInfo
  pub nr : ℕ
  pub is_impl : Bool

abbrev pub Refine : Type 0
Refine = List StaticOperand → Option ProgramState → OperandInfo → Option OperandInfo

-- The flags of an opcode that say which inputs its emulation wants: `OfEmuFull`, `OfEmuPtr`, and what is
-- left.
pub data EmuFlag : Type 0 where
  of_emu_full of_emu_ptr of_emu_imm : EmuFlag

-- `OpcodeInfo`, the part that this file and the emulation use.
pub record OpcodeInfo : Type 0 where
  pub expl_infos : List ExplicitInfo
  pub impl_infos : List StaticOperandInfo
  pub predicate : Option Predicate
  pub refine : Option Refine
  pub emulate : Option (List DynamicOperandInfo → Emulation)
  pub flag : EmuFlag

-- `InstructionInfo`
pub record InstructionInfo : Type 0 where
  pub nasty : Bool
  pub operands : List OperandInfo
  pub may_write_mem : Bool
  pub predicate_regs : Mask
  pub read_regs : Mask
  pub written_regs : Mask
  pub cond_written_regs : Mask

-- `createRawOperandInfo`. An operand of another type than the opcode says is a read of the wrong member
-- of a union.
unfoldable pub create_raw_operand_info : ExplicitInfo → StaticOperand → Option StaticOperandInfo
create_raw_operand_info (expl_reg mode r w) (reg_op reg) =
    some (reg_info (record { reg = reg; mode = mode; r = r; w = w }))
create_raw_operand_info (expl_mem mode size) (mem_op ptr) =
    some (mem_info (record { ptr = ptr; mode = mode; size = size }))
create_raw_operand_info expl_imm (imm_op imm) = some (imm_info imm)
create_raw_operand_info _ _ = none

-- The call of a `refine` handler, if there is one.
abbrev pub refined :
    Option Refine → List StaticOperand → Option ProgramState → OperandInfo → Option OperandInfo
refined none ops ps o = some o
refined (some f) ops ps o = f ops ps o

-- `createOperandInfo`
unfoldable pub create_operand_info :
    Option Refine → List StaticOperand → StaticOperandInfo → ℕ → Bool → Option OperandInfo
create_operand_info refine ops raw nr is_impl =
    refined refine ops none (record { info = raw; nr = nr; is_impl = is_impl })

module _ (mask_of : Register → RegisterAccessType → Mask) where
  add_addr_reg : Mask → Register → Mask
  add_addr_reg mask reg = if is_no_register reg then mask else add_mask mask (mask_of reg full)

  -- `addAddrRegs`
  unfoldable pub add_addr_regs : Mask → RawMemPtr → Mask
  unfolding add_addr_reg
  add_addr_regs mask (raw_direct addr) = mask
  add_addr_regs mask (raw_sib base index disp scale) = add_addr_reg (add_addr_reg mask base) index

  -- `addOperandToRegisterMasks`
  unfoldable pub add_operand_to_register_masks : InstructionInfo → OperandInfo → InstructionInfo
  unfolding add_addr_regs
  add_operand_to_register_masks i o = elim o.info [
    | mem_info m ↦ record i {
      read_regs = if is_no_mode m.mode then i.read_regs else add_addr_regs i.read_regs m.ptr;
      may_write_mem = if is_write m.mode then true else i.may_write_mem;
    }
    | reg_info a ↦ record i {
      read_regs = if is_read a.mode then add_mask i.read_regs (mask_of a.reg a.r) else i.read_regs;
      cond_written_regs =
          if is_write a.mode
          then (if is_conditional a.mode
              then add_mask i.cond_written_regs (mask_of a.reg a.w)
              else i.cond_written_regs)
          else i.cond_written_regs;
      written_regs =
          if is_write a.mode
          then (if is_conditional a.mode
              then i.written_regs
              else add_mask i.written_regs (mask_of a.reg a.w))
          else i.written_regs;
    }
    | imm_info imm ↦ i
  ]

  add_operand : InstructionInfo → OperandInfo → InstructionInfo
  unfolding add_operand_to_register_masks
  add_operand i o =
      let i' = add_operand_to_register_masks i o in record i' { operands = i'.operands ++ o ∷ [] }

  -- The loop over the explicit operands, from number `nr` on.
  explicit_operands :
      Option Refine
      → List StaticOperand
      → List ExplicitInfo
      → List StaticOperand
      → ℕ
      → InstructionInfo
      → Option InstructionInfo
  unfolding add_operand create_operand_info create_raw_operand_info
  explicit_operands refine ops [] rest nr i = some i
  explicit_operands refine ops (e ∷ infos) [] nr i = none
  explicit_operands refine ops (e ∷ infos) (op ∷ rest) nr i = do
    raw ← create_raw_operand_info e op
    o ← create_operand_info refine ops raw nr false
    explicit_operands refine ops infos rest (suc nr) (add_operand i o)

  -- The loop over the implicit operands.
  implicit_operands :
      Option Refine
      → List StaticOperand
      → List StaticOperandInfo
      → ℕ
      → InstructionInfo
      → Option InstructionInfo
  unfolding add_operand create_operand_info
  implicit_operands refine ops [] nr i = some i
  implicit_operands refine ops (raw ∷ infos) nr i = do
    o ← create_operand_info refine ops raw nr true
    implicit_operands refine ops infos (suc nr) (add_operand i o)

  side_mask : Mask → PredComparand → Mask
  side_mask mask (reg_side reg) = add_mask mask (mask_of reg full)
  side_mask mask (imm_side v) = mask

  -- The predicate register mask.
  predicate_mask : Mask → List PredComparison → Mask
  unfolding side_mask
  predicate_mask mask [] = mask
  predicate_mask mask (c ∷ cs) =
      let mask' = side_mask (side_mask mask c.lhs) c.rhs in
      let rest = predicate_mask mask' cs in elim c.con [ no_conjunction ↦ mask' | _ ↦ rest ]

  abbrev count {ℓ} : {A : Type ℓ} → List A → ℕ
  count [] = 0
  count (x ∷ xs) = suc (count xs)

  -- `getInfo` without its cache.
  unfoldable pub get_info : Option OpcodeInfo → List StaticOperand → Option InstructionInfo
  unfolding explicit_operands implicit_operands predicate_mask
  get_info none ops = some (record {
    nasty = true;
    operands = [];
    may_write_mem = false;
    predicate_regs = zero_mask;
    read_regs = fill_mask;
    written_regs = fill_mask;
    cond_written_regs = zero_mask;
  })
  get_info (some opcode_info) ops = do
    i ← explicit_operands opcode_info.refine ops opcode_info.expl_infos ops 0 (record {
      nasty = false;
      operands = [];
      may_write_mem = false;
      predicate_regs = zero_mask;
      read_regs = zero_mask;
      written_regs = zero_mask;
      cond_written_regs = zero_mask;
    })
    i' ←
        implicit_operands opcode_info.refine ops opcode_info.impl_infos
          (count opcode_info.expl_infos) i
    some (record i' {
      predicate_regs = elim opcode_info.predicate [
        | none ↦ zero_mask
        | some comparisons ↦ predicate_mask zero_mask comparisons
      ];
    })
