-- ===== src/Instruction/Dynamic.antt =====
-- An instruction in a program state: `createDynOpInfo` and `genDynInfo` of src/Instruction.cpp. Reading
-- an operand can grow the stack, so the state is passed on.
use drob.Prelude.{
  ℕ, ◌+◌, ◌%◌, ltb, Bool, true, false, Option, none, some, List, [], ◌∷◌, ◌++◌, ◌>>=◌,
  if◌then◌else◌,
}
use drob.Value.{unknown_value, imm64, get_type, is_imm, is_ptr, is_tainted, is_stack_ptr}
use drob.Registers.{Register, RegisterAccessType}
use drob.Memory.{immediate_value, UsrPtrCfg, create_mem_access, emulate_read_access}
use drob.MemProtCache.{MemoryRange, MemCfg}
use drob.Liveness.{Mask, zero_mask, fill_mask, add_mask}
use drob.Predicate.{TriState, Predicate, will_execute}
use drob.Program.{ProgramState, get_register}
use drob.Emulator.{DynamicOperandInfo, Location, reg_acc, mem_acc, encoded}
use drob.Instruction.{
  RegAccess, MemOperand, StaticOperandInfo, reg_info, mem_info, imm_info, StaticOperand,
  OperandInfo, InstructionInfo, OpcodeInfo, Refine, refined, is_read, is_write, is_conditional,
  is_special, add_addr_regs, get_info,
}

-- `DynamicInstructionInfo` with its counts, which are bit-fields of 4 bits.
pub record DynamicInstructionInfo : Type 0 where
  pub will_execute : TriState
  pub nasty : Bool
  pub operands : List DynamicOperandInfo
  pub num_input : ℕ
  pub num_input_encoded_imm : ℕ
  pub num_input_imm : ℕ
  pub num_input_ptr : ℕ
  pub num_input_stack_ptr : ℕ
  pub num_input_tainted : ℕ
  pub may_write_mem : Bool
  pub predicate_regs : Mask
  pub read_regs : Mask
  pub written_regs : Mask
  pub cond_written_regs : Mask

-- An operand before its input is read; 0 is the default input, and unknown the default output.
abbrev pub new_operand : Location → DynamicOperandInfo
new_operand loc = record {
  location = loc;
  is_input = false;
  is_output = false;
  is_cond_output = false;
  input = imm64 0;
  output = unknown_value;
}

abbrev is_encoded : Location → Bool
is_encoded encoded = true
is_encoded _ = false

-- `++` of a bit-field of 4 bits, as its bit pattern.
abbrev pub bump : ℕ → ℕ
bump n = (n + 1) % 16

-- A bit-field of 4 bits is signed: its value, and 16.
abbrev pub signed_plus16 : ℕ → ℕ
signed_plus16 n = if ltb n 8 then n + 16 else n

abbrev bump_if : Bool → ℕ → ℕ
bump_if b n = if b then bump n else n

-- "count the beans to make emulation decisions easier"
unfoldable pub count_input : DynamicInstructionInfo → DynamicOperandInfo → DynamicInstructionInfo
count_input d o =
    let t = get_type o.input in
    if o.is_input
    then (if is_imm t
        then record d {
          num_input = bump d.num_input;
          num_input_imm = bump d.num_input_imm;
          num_input_encoded_imm = bump_if (is_encoded o.location) d.num_input_encoded_imm;
        }
        else if is_tainted t
        then record d { num_input = bump d.num_input; num_input_tainted = bump d.num_input_tainted }
        else if is_ptr t
        then record d {
          num_input = bump d.num_input;
          num_input_ptr = bump d.num_input_ptr;
          num_input_stack_ptr = bump_if (is_stack_ptr t) d.num_input_stack_ptr;
        }
        else record d { num_input = bump d.num_input })
    else d

abbrev pub refine_of : Option OpcodeInfo → Option Refine
refine_of none = none
refine_of (some i) = i.refine

abbrev pub predicate_of : Option OpcodeInfo → Option (Option Predicate)
predicate_of none = none
predicate_of (some i) = some i.predicate

-- What `genDynInfo` starts with.
abbrev pub new_info : TriState → InstructionInfo → DynamicInstructionInfo
new_info executes i = record {
  will_execute = executes;
  nasty = i.nasty;
  operands = [];
  num_input = 0;
  num_input_encoded_imm = 0;
  num_input_imm = 0;
  num_input_ptr = 0;
  num_input_stack_ptr = 0;
  num_input_tainted = 0;
  may_write_mem = false;
  predicate_regs = i.predicate_regs;
  read_regs = if i.nasty then fill_mask else zero_mask;
  written_regs = if i.nasty then fill_mask else zero_mask;
  cond_written_regs = zero_mask;
}

module _ (mask_of : Register → RegisterAccessType → Mask) where
  abbrev addr_regs : Mask → StaticOperandInfo → Mask
  addr_regs mask (mem_info m) = add_addr_regs mask_of mask m.ptr
  addr_regs mask _ = mask

  -- "prepare helpful data for register liveness analysis"
  unfoldable pub add_masks :
      DynamicInstructionInfo → OperandInfo → DynamicOperandInfo → DynamicInstructionInfo
  add_masks d o dyn = elim dyn.location [
    | reg_acc reg r w ↦ record d {
      read_regs = if dyn.is_input then add_mask d.read_regs (mask_of reg r) else d.read_regs;
      cond_written_regs =
          if dyn.is_output
          then (if dyn.is_cond_output
              then add_mask d.cond_written_regs (mask_of reg w)
              else d.cond_written_regs)
          else d.cond_written_regs;
      written_regs =
          if dyn.is_output
          then (if dyn.is_cond_output
              then d.written_regs
              else add_mask d.written_regs (mask_of reg w))
          else d.written_regs;
    }
    | mem_acc ptr size ↦
        let seen = if dyn.is_input then addr_regs d.read_regs o.info else d.read_regs in
        record d {
          read_regs = if dyn.is_output then addr_regs seen o.info else seen;
          may_write_mem = if dyn.is_output then true else d.may_write_mem;
        }
    | encoded ↦ d
  ]

  -- One round of the loop, with the operand at hand.
  unfoldable pub take_operand :
      DynamicInstructionInfo → OperandInfo → DynamicOperandInfo → DynamicInstructionInfo
  unfolding count_input add_masks
  take_operand d o dyn =
      let d' = add_masks (count_input d dyn) o dyn in
      record d' { operands = d'.operands ++ dyn ∷ [] }

module _ (memory : ℕ → ℕ) (ranges : List MemoryRange) (mems : List MemCfg)
    (usr_ptrs : List UsrPtrCfg) where
  -- The case of a register.
  create_dyn_reg : RegAccess → ProgramState → Option (DynamicOperandInfo × ProgramState)
  create_dyn_reg a ps = do
    v ← (if is_read a.mode then get_register ps a.reg a.r else some (imm64 0))
    some (
      record (new_operand (reg_acc a.reg a.r a.w)) {
        input = v;
        is_input = is_read a.mode;
        is_output = is_write a.mode;
        is_cond_output = if is_write a.mode then is_conditional a.mode else false;
      },
      ps,
    )

  -- The case of memory.
  create_dyn_mem : MemOperand → ProgramState → Option (DynamicOperandInfo × ProgramState)
  create_dyn_mem m ps = do
    ptr ← create_mem_access m.ptr ps
    r ←
        (if is_read m.mode
          then emulate_read_access memory ranges mems usr_ptrs ptr m.size ps
          else some (if is_special m.mode then ptr else imm64 0, ps))
    some (
      record (new_operand (mem_acc ptr m.size)) {
        input = r.0;
        is_input = if is_special m.mode then true else is_read m.mode;
        is_output = is_write m.mode;
        is_cond_output = if is_write m.mode then is_conditional m.mode else false;
      },
      r.1,
    )

  create_dyn : OperandInfo → ProgramState → Option (DynamicOperandInfo × ProgramState)
  unfolding create_dyn_reg create_dyn_mem
  create_dyn o ps = elim o.info [
    | reg_info a ↦ create_dyn_reg a ps
    | mem_info m ↦ create_dyn_mem m ps
    | imm_info imm ↦ some (
      record (new_operand encoded) { input = immediate_value imm imm.usr_ptr; is_input = true },
      ps,
    )
  ]

  abbrev is_immediate : StaticOperandInfo → Bool
  is_immediate (imm_info imm) = true
  is_immediate _ = false

  -- `createDynOpInfo`: a register or memory operand is refined with the state.
  unfoldable pub create_dyn_op_info :
      Option Refine
      → List StaticOperand
      → OperandInfo
      → ProgramState
      → Option (DynamicOperandInfo × ProgramState)
  unfolding create_dyn
  create_dyn_op_info refine ops o ps = do
    o' ← (if is_immediate o.info then some o else refined refine ops (some ps) o)
    create_dyn o' ps

  module _ (mask_of : Register → RegisterAccessType → Mask) where
    -- "Convert all operands using runtime information"
    unfoldable pub dyn_operands :
        Option Refine
        → List StaticOperand
        → List OperandInfo
        → DynamicInstructionInfo
        → ProgramState
        → Option (DynamicInstructionInfo × ProgramState)
    unfolding create_dyn_op_info take_operand
    dyn_operands refine ops [] d ps = some (d, ps)
    dyn_operands refine ops (o ∷ rest) d ps = do
      r ← create_dyn_op_info refine ops o ps
      dyn_operands refine ops rest (take_operand mask_of d o r.0) r.1

    -- `genDynInfo`
    unfoldable pub gen_dyn_info :
        Option OpcodeInfo
        → List StaticOperand
        → ProgramState
        → Option (DynamicInstructionInfo × ProgramState)
    unfolding dyn_operands
    gen_dyn_info opcode_info ops ps = do
      i ← get_info mask_of opcode_info ops
      executes ← will_execute (predicate_of opcode_info) ps
      dyn_operands (refine_of opcode_info) ops i.operands (new_info executes i) ps
