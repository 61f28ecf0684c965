-- ===== src/Emulator.antt =====
-- The emulation of one instruction on tracked values: the functions of src/x86/Emulator.cpp on the
-- operands of `DynamicInstructionInfo` (src/InstructionInfo.hpp). The inline assembly is the host's
-- processor, a parameter. An operand that does not exist and a failed assertion give `none`.
pub mod Arith
pub mod Control
pub mod Shape
pub mod Sound
use drob.Prelude.{
  ℕ, zero, suc, ◌%◌, ◌^◌, Option, none, some, List, [], ◌∷◌, Bool, true, false, drob_assert, ◌>>=◌,
  ◌>>◌,
}
use drob.Value.{DynamicValue, imm64, imm128, u64}
use drob.Registers.{Register, RegisterAccessType, cf, af, of}

-- Where an operand stands: a register with the parts that are read and written, memory at a pointer
-- with its size in bytes, or in the instruction.
pub data Location : Type 0 where
  reg_acc : Register → RegisterAccessType → RegisterAccessType → Location
  mem_acc : DynamicValue → ℕ → Location
  encoded : Location

-- `DynamicOperandInfo`
pub record DynamicOperandInfo : Type 0 where
  pub location : Location
  pub is_input : Bool
  pub is_output : Bool
  pub is_cond_output : Bool
  pub input : DynamicValue
  pub output : DynamicValue

-- `Eflags`: single bits.
pub record Eflags : Type 0 where
  pub carry : ℕ
  pub parity : ℕ
  pub adjust : ℕ
  pub is_zero : ℕ
  pub sign : ℕ
  pub overflow : ℕ

-- What the inline assembly asks of the processor: instructions of a number of bits on two numbers.
pub record Processor : Type 0 where
  pub run_add : ℕ → ℕ → ℕ → ℕ × Eflags
  pub run_sub : ℕ → ℕ → ℕ → ℕ × Eflags
  pub run_xor : ℕ → ℕ → ℕ → ℕ × Eflags
  -- The flags of a shift are those that it sets if the lowest six bits of the count are not all 0.
  pub run_shl : ℕ → ℕ → ℕ × Eflags
  pub run_shr : ℕ → ℕ → ℕ × Eflags
  pub run_cmp : ℕ → ℕ → ℕ → Eflags
  pub run_test : ℕ → ℕ → ℕ → Eflags
  pub run_addpd : ℕ → ℕ → ℕ
  pub run_addsd : ℕ → ℕ → ℕ
  pub run_mulpd : ℕ → ℕ → ℕ
  pub run_mulsd : ℕ → ℕ → ℕ
  pub run_pxor : ℕ → ℕ → ℕ

-- `EmuRet`
pub data EmuRet : Type 0 where
  ok mov10 mov20 mov02 : EmuRet

abbrev pub Emulation : Type 0
Emulation = Option (List DynamicOperandInfo × EmuRet)

-- `dynInfo.operands[i]`
unfoldable pub operand : List DynamicOperandInfo → ℕ → Option DynamicOperandInfo
operand [] i = none
operand (o ∷ ops) zero = some o
operand (o ∷ ops) (suc i) = operand ops i

-- `dynInfo.operands[i].output = v`
unfoldable pub set_output :
    List DynamicOperandInfo → ℕ → DynamicValue → Option (List DynamicOperandInfo)
set_output [] i v = none
set_output (o ∷ ops) zero v = some (record o { output = v } ∷ ops)
set_output (o ∷ ops) (suc i) v = do ops' ← set_output ops i v; some (o ∷ ops')

-- `getImm64` and `getImm128`. For a value of another kind the source asserts, or reads a member of the
-- union that the value does not have, depending on the bits of its number; the model has no result. The
-- callers and the flags of the rows ask for an immediate first.
abbrev pub imm64_of : DynamicValue → Option ℕ
imm64_of (imm64 v) = some v
imm64_of (imm128 v) = some (v % u64)
imm64_of _ = none

abbrev pub imm128_of : DynamicValue → Option ℕ
imm128_of (imm64 v) = some v
imm128_of (imm128 v) = some v
imm128_of _ = none

-- The tests of the assertions on flags.
abbrev pub is_cf : Location → Bool
is_cf (reg_acc cf r w) = true
is_cf _ = false

abbrev pub is_af : Location → Bool
is_af (reg_acc af r w) = true
is_af _ = false

abbrev pub is_of : Location → Bool
is_of (reg_acc of r w) = true
is_of _ = false

-- `setEflags`
unfoldable pub set_eflags : List DynamicOperandInfo → ℕ → Eflags → Option (List DynamicOperandInfo)
unfolding operand set_output
set_eflags ops idx eflags = do
  o ← operand ops idx
  drob_assert (is_cf o.location)
  ops1 ← set_output ops idx (imm64 eflags.carry)
  ops2 ← set_output ops1 (suc idx) (imm64 eflags.parity)
  ops3 ← set_output ops2 (suc (suc idx)) (imm64 eflags.adjust)
  ops4 ← set_output ops3 (suc (suc (suc idx))) (imm64 eflags.is_zero)
  ops5 ← set_output ops4 (suc (suc (suc (suc idx)))) (imm64 eflags.sign)
  set_output ops5 (suc (suc (suc (suc (suc idx))))) (imm64 eflags.overflow)

-- `setAF`
unfoldable pub set_af :
    List DynamicOperandInfo → ℕ → DynamicValue → Option (List DynamicOperandInfo)
unfolding operand set_output
set_af ops idx v = do o ← operand ops idx; drob_assert (is_af o.location); set_output ops idx v

-- `setCF`
unfoldable pub set_cf :
    List DynamicOperandInfo → ℕ → DynamicValue → Option (List DynamicOperandInfo)
unfolding operand set_output
set_cf ops idx v = do o ← operand ops idx; drob_assert (is_cf o.location); set_output ops idx v

-- `setOF`
unfoldable pub set_of :
    List DynamicOperandInfo → ℕ → DynamicValue → Option (List DynamicOperandInfo)
unfolding operand set_output
set_of ops idx v = do o ← operand ops idx; drob_assert (is_of o.location); set_output ops idx v
