-- ===== src/Opcodes/Fits.antt =====
-- The rows of the table fit the emulation functions that they name.
use drob.Prelude.{ℕ, suc, ◌≡◌, refl, arith, Bool, true, false, Option, none, some, List, [], ◌∷◌}
use drob.Value.{DynamicValue, imm64, unknown_value}
use drob.Registers.{Register}
use drob.Emulator.{DynamicOperandInfo, Location, reg_acc, mem_acc, encoded, Processor}
use drob.Emulator.Arith.{
  emulate_add, emulate_add64, emulate_sub, emulate_sub64, emulate_xor32, emulate_xor64,
  emulate_cmp8, emulate_cmp16, emulate_cmp32, emulate_cmp64, emulate_test8, emulate_test16,
  emulate_test32, emulate_test64, emulate_shl64, emulate_shr64, emulate_addpd, emulate_addsd,
  emulate_mulpd, emulate_mulsd, emulate_pxor, clear_flags, shift_flags,
}
use drob.Emulator.Control.{
  emulate_call, emulate_lea, emulate_mov, emulate_pop, emulate_push, emulate_ret,
}
use drob.Encoder.Opcode.{Opcode, shl64m, shl64r, shl64mi, shl64ri, shr64m, shr64r, shr64mi, shr64ri}
use drob.Instruction.{
  ExplicitInfo, expl_reg, expl_mem, expl_imm, StaticOperandInfo, reg_info, mem_info, imm_info,
  OpcodeInfo,
}
use drob.Opcodes.Table.{opcode_info}

-- An operand at a place, with a number as its input.
abbrev known : Location → ℕ → DynamicOperandInfo
known loc v = record {
  location = loc;
  is_input = true;
  is_output = true;
  is_cond_output = false;
  input = imm64 v;
  output = unknown_value;
}

-- The operands that a row describes, in any registers and at any address, with any numbers as inputs.
module _ (regs : ℕ → Register) (ptr : DynamicValue) (numbers : ℕ → ℕ) where
  abbrev explicit_location : ExplicitInfo → ℕ → Location
  explicit_location (expl_reg mode r w) i = reg_acc (regs i) r w
  explicit_location (expl_mem mode size) i = mem_acc ptr size
  explicit_location expl_imm i = encoded

  abbrev implicit_location : StaticOperandInfo → Location
  implicit_location (reg_info a) = reg_acc a.reg a.r a.w
  implicit_location (mem_info m) = mem_acc ptr m.size
  implicit_location (imm_info imm) = encoded

  abbrev implicit_known : List StaticOperandInfo → ℕ → List DynamicOperandInfo
  implicit_known [] i = []
  implicit_known (o ∷ infos) i =
      known (implicit_location o) (numbers i) ∷ implicit_known infos (suc i)

  abbrev all_known : List ExplicitInfo → List StaticOperandInfo → ℕ → List DynamicOperandInfo
  all_known [] impl i = implicit_known impl i
  all_known (e ∷ infos) impl i =
      known (explicit_location e i) (numbers i) ∷ all_known infos impl (suc i)

  abbrev pub row_operands : OpcodeInfo → List DynamicOperandInfo
  row_operands info = all_known info.expl_infos info.impl_infos 0

abbrev is_some {ℓ} : {A : Type ℓ} → Option A → Bool
is_some none = false
is_some (some a) = true

-- The row has no emulation function, or its function returns for these operands.
abbrev pub emulation_returns : OpcodeInfo → List DynamicOperandInfo → Bool
emulation_returns info ops = elim info.emulate [ none ↦ true | some f ↦ is_some (f ops) ]

-- For every opcode that has an emulation function, the function returns for the operands that its row
-- lists, in any registers and at any address, with any numbers as inputs: it finds each operand that it
-- uses, the flags where it asserts them, and an access to memory where it reads the size of one.
pub opcode_info-returns :
    (cpu : Processor) (regs : ℕ → Register) (ptr : DynamicValue) (numbers : ℕ → ℕ) (op : Opcode)
    → emulation_returns (opcode_info cpu op) (row_operands regs ptr numbers (opcode_info cpu op))
      ≡ true
unfolding opcode_info emulate_add emulate_add64 emulate_sub emulate_sub64 emulate_xor32
    emulate_xor64 emulate_cmp8 emulate_cmp16 emulate_cmp32 emulate_cmp64 emulate_test8
    emulate_test16 emulate_test32 emulate_test64 emulate_shl64 emulate_shr64 emulate_addpd
    emulate_addsd emulate_mulpd emulate_mulsd emulate_pxor clear_flags shift_flags emulate_call
    emulate_lea emulate_mov emulate_pop emulate_push emulate_ret
opcode_info-returns cpu regs ptr numbers shl64m = ground arith
opcode_info-returns cpu regs ptr numbers shl64r = ground arith
opcode_info-returns cpu regs ptr numbers shl64mi = ground arith
opcode_info-returns cpu regs ptr numbers shl64ri = ground arith
opcode_info-returns cpu regs ptr numbers shr64m = ground arith
opcode_info-returns cpu regs ptr numbers shr64r = ground arith
opcode_info-returns cpu regs ptr numbers shr64mi = ground arith
opcode_info-returns cpu regs ptr numbers shr64ri = ground arith
opcode_info-returns cpu regs ptr numbers _ = refl
