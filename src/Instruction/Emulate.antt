-- ===== src/Instruction/Emulate.antt =====
-- The effect of one instruction on a program state: `emulate`, `emulateGeneric` and `performDirectMove`
-- of src/Instruction.cpp, without the cache of the last result.
use drob.Prelude.{
  ℕ, ◌+◌, ◌==◌, Bool, true, false, ◌||◌, not, Option, none, some, List, [], ◌∷◌, ◌>>=◌, ◌>>◌,
  drob_assert, if◌then◌else◌,
}
use drob.Value.{
  DynamicValue, unknown_value, tainted_value, ptr_value, stack, get_type, is_tainted, is_stack_ptr,
}
use drob.Registers.{Register, RegisterAccessType}
use drob.Memory.{to_offset, UsrPtrCfg}
use drob.MemProtCache.{MemoryRange, MemCfg}
use drob.Liveness.{Mask}
use drob.Predicate.{TriState, tri_false, tri_unknown}
use drob.Program.{
  ProgramState, set_register, set_stack, move_register_register, move_register_stack,
  move_stack_register, move_stack_stack, nasty_instruction, untracked_stack_access,
}
use drob.Emulator.{
  DynamicOperandInfo, Location, reg_acc, mem_acc, encoded, EmuRet, ok, mov10, mov20, mov02,
  Emulation, operand,
}
use drob.Instruction.{OpcodeInfo, StaticOperand, of_emu_full, of_emu_ptr, of_emu_imm}
use drob.Instruction.Dynamic.{DynamicInstructionInfo, signed_plus16, gen_dyn_info}

abbrev pub with_outputs : List DynamicOperandInfo → DynamicValue → List DynamicOperandInfo
with_outputs [] v = []
with_outputs (o ∷ ops) v = (if o.is_output then record o { output = v } else o) ∷ with_outputs ops v

-- `emulateGeneric`: "if one input is tainted or a stack pointer, everything is tainted"
unfoldable pub emulate_generic : DynamicInstructionInfo → Emulation
emulate_generic d =
    let v =
      if not (d.num_input_tainted == 0) || not (d.num_input_stack_ptr == 0)
      then tainted_value
      else unknown_value in
    some (with_outputs d.operands v, ok)

-- The choice between an opcode's emulation and the generic one.
unfoldable pub run_emulation : OpcodeInfo → DynamicInstructionInfo → Emulation
unfolding emulate_generic
run_emulation info d = elim info.emulate [
  | none ↦ emulate_generic d
  | some f ↦ elim info.flag [
    | of_emu_full ↦ f d.operands
    | of_emu_ptr ↦
        if signed_plus16 d.num_input + 16
          == signed_plus16 d.num_input_imm + signed_plus16 d.num_input_ptr
        then f d.operands
        else emulate_generic d
    | of_emu_imm ↦ if d.num_input == d.num_input_imm then f d.operands else emulate_generic d
  ]
]

abbrev is_unknown : TriState → Bool
is_unknown tri_unknown = true
is_unknown _ = false

-- A write through a pointer that is not a stack pointer.
abbrev write_elsewhere : DynamicValue → DynamicValue → ProgramState → ProgramState
write_elsewhere ptr v ps =
    if is_tainted (get_type ptr)
    then untracked_stack_access ps
    else if is_stack_ptr (get_type v) || is_tainted (get_type v)
    then untracked_stack_access ps
    else ps

write_memory : DynamicValue → ℕ → DynamicValue → Bool → ProgramState → Option ProgramState
write_memory (ptr_value stack nr offset) size v cond ps =
    set_stack ps (to_offset offset) size v cond
write_memory ptr size v cond ps = some (write_elsewhere ptr v ps)

write_location : Location → DynamicValue → Bool → ProgramState → Option ProgramState
unfolding write_memory
write_location (reg_acc reg r w) v cond ps = set_register ps reg w v cond
write_location (mem_acc ptr size) v cond ps = write_memory ptr size v cond ps
write_location encoded v cond ps = none

-- "Move all output to the destination."
unfoldable pub write_outputs :
    TriState → List DynamicOperandInfo → ProgramState → Option ProgramState
unfolding write_location
write_outputs executes [] ps = some ps
write_outputs executes (o ∷ ops) ps = do
  ps' ←
      (if o.is_output
        then write_location o.location o.output (o.is_cond_output || is_unknown executes) ps
        else some ps)
  write_outputs executes ops ps'

move_to_memory :
    Register → RegisterAccessType → DynamicValue → ℕ → ProgramState → Option ProgramState
move_to_memory reg r (ptr_value stack nr offset) size ps =
    move_register_stack ps reg r (to_offset offset) size
move_to_memory reg r ptr size ps = some ps

move_from_memory :
    DynamicValue → ℕ → Register → RegisterAccessType → ProgramState → Option ProgramState
move_from_memory (ptr_value stack nr offset) size reg w ps =
    move_stack_register ps (to_offset offset) size reg w
move_from_memory ptr size reg w ps = some ps

move_memory : DynamicValue → ℕ → DynamicValue → ℕ → ProgramState → Option ProgramState
move_memory (ptr_value stack nr offset) size (ptr_value stack nr' offset') size' ps = do
  drob_assert (size == size')
  move_stack_stack ps (to_offset offset) (to_offset offset') size'
move_memory ptr size ptr' size' ps = some ps

-- `performDirectMove`
unfoldable pub perform_direct_move :
    DynamicOperandInfo → DynamicOperandInfo → Bool → ProgramState → Option ProgramState
unfolding move_to_memory move_from_memory move_memory
perform_direct_move src dst true ps = some ps
perform_direct_move src dst false ps = elim src.location [
  | reg_acc reg r w ↦ elim dst.location [
    | reg_acc reg' r' w' ↦ move_register_register ps reg r reg' w'
    | mem_acc ptr size ↦ move_to_memory reg r ptr size ps
    | encoded ↦ none
  ]
  | mem_acc ptr size ↦ elim dst.location [
    | reg_acc reg' r' w' ↦ move_from_memory ptr size reg' w' ps
    | mem_acc ptr' size' ↦ move_memory ptr size ptr' size' ps
    | encoded ↦ none
  ]
  | encoded ↦ some ps
]

move_operand : TriState → List DynamicOperandInfo → ℕ → ℕ → ProgramState → Option ProgramState
unfolding perform_direct_move
move_operand executes ops i j ps = do
  src ← operand ops i
  dst ← operand ops j
  perform_direct_move src dst (dst.is_cond_output || is_unknown executes) ps

-- "move data again, but this time directly"
unfoldable pub move_again :
    TriState → List DynamicOperandInfo → EmuRet → ProgramState → Option ProgramState
unfolding move_operand
move_again executes ops ok ps = some ps
move_again executes ops mov10 ps = move_operand executes ops 1 0 ps
move_again executes ops mov02 ps = move_operand executes ops 0 2 ps
move_again executes ops mov20 ps = move_operand executes ops 2 0 ps

-- The effect of an instruction that is not nasty.
unfoldable pub emulate_known :
    OpcodeInfo → DynamicInstructionInfo → ProgramState → Option ProgramState
unfolding run_emulation write_outputs move_again
emulate_known info d ps = do
  r ← run_emulation info d
  ps' ← write_outputs d.will_execute r.0 ps
  move_again d.will_execute r.0 r.1 ps'

-- The effect of an instruction that may be executed.
unfoldable pub emulate_executed :
    Option OpcodeInfo → DynamicInstructionInfo → ProgramState → Option ProgramState
unfolding emulate_known
emulate_executed none d ps = nasty_instruction ps
emulate_executed (some info) d ps =
    if d.nasty then nasty_instruction ps else emulate_known info d ps

module _ (memory : ℕ → ℕ) (ranges : List MemoryRange) (mems : List MemCfg)
    (usr_ptrs : List UsrPtrCfg) (mask_of : Register → RegisterAccessType → Mask) where
  -- `emulate`
  unfoldable pub emulate :
      Option OpcodeInfo → List StaticOperand → ProgramState → Option ProgramState
  unfolding emulate_executed
  emulate info ops ps = do
    r ← gen_dyn_info memory ranges mems usr_ptrs mask_of info ops ps
    elim r.0.will_execute [ tri_false ↦ some r.1 | _ ↦ emulate_executed info r.0 r.1 ]
