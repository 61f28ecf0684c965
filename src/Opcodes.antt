-- ===== src/Opcodes.antt =====
-- The operands that the opcodes have, and the handlers that refine them, of src/x86/OpcodeInfo.cpp. The
-- size of a memory operand is in bytes; an operand of the encoding has no size here.
pub mod Table
pub mod Fits
pub mod Invert
use drob.Prelude.{
  ℕ, suc, ◌-◌, ◌==◌, ltb, ◌&&◌, Bool, true, false, Option, none, some, List, [], ◌∷◌, ◌>>=◌, ◌>>◌,
  drob_assert, if◌then◌else◌,
}
use drob.Value.{DynamicValue, get_type, is_imm, get_imm64, u64}
use drob.Registers.{
  Register, no_register, cf, pf, af, zf, sf, of, cl, rsp, RegisterAccessType, no_access, full,
  full_zero_parent, h0,
}
use drob.Registers.Codes.{register_eq}
use drob.Memory.{Immediate, raw_sib}
use drob.Program.{ProgramState, get_register}
use drob.Predicate.{Predicate}
use drob.Emulator.{DynamicOperandInfo, Emulation}
use drob.Encoder.Opcode.{
  Opcode, shl64mi, shl64ri, shr64mi, shr64ri, shl64m, shl64r, shr64m, shr64r, pxor128rr, xor64rr,
  xor32rr,
}
use drob.Instruction.{
  AccessMode, no_mode, address, read, may_read, write, may_write, read_write, may_read_write,
  ExplicitInfo, expl_reg, expl_mem, expl_imm, StaticOperandInfo, reg_info, mem_info, imm_info,
  StaticOperand, reg_op, mem_op, imm_op, OperandInfo, OpcodeInfo, Refine, EmuFlag,
}

abbrev pub i16 : ExplicitInfo
i16 = expl_imm

abbrev pub i32 : ExplicitInfo
i32 = expl_imm

abbrev pub i64 : ExplicitInfo
i64 = expl_imm

abbrev pub i8 : ExplicitInfo
i8 = expl_imm

abbrev pub m128r : ExplicitInfo
m128r = expl_mem read 16

abbrev pub m128w : ExplicitInfo
m128w = expl_mem write 16

abbrev pub m16r : ExplicitInfo
m16r = expl_mem read 2

abbrev pub m16rw : ExplicitInfo
m16rw = expl_mem read_write 2

abbrev pub m16w : ExplicitInfo
m16w = expl_mem write 2

abbrev pub m32r : ExplicitInfo
m32r = expl_mem read 4

abbrev pub m32rw : ExplicitInfo
m32rw = expl_mem read_write 4

abbrev pub m32w : ExplicitInfo
m32w = expl_mem write 4

abbrev pub m64r : ExplicitInfo
m64r = expl_mem read 8

abbrev pub m64rw : ExplicitInfo
m64rw = expl_mem read_write 8

abbrev pub m64w : ExplicitInfo
m64w = expl_mem write 8

abbrev pub m8r : ExplicitInfo
m8r = expl_mem read 1

abbrev pub m8rw : ExplicitInfo
m8rw = expl_mem read_write 1

abbrev pub ma : ExplicitInfo
ma = expl_mem address 0

abbrev pub r16r : ExplicitInfo
r16r = expl_reg read full no_access

abbrev pub r16rw : ExplicitInfo
r16rw = expl_reg read_write full full

abbrev pub r16w : ExplicitInfo
r16w = expl_reg write no_access full

abbrev pub r32mr : ExplicitInfo
r32mr = expl_reg may_read full no_access

abbrev pub r32mrw : ExplicitInfo
r32mrw = expl_reg may_read_write full full_zero_parent

abbrev pub r32r : ExplicitInfo
r32r = expl_reg read full no_access

abbrev pub r32rw : ExplicitInfo
r32rw = expl_reg read_write full full_zero_parent

abbrev pub r32w : ExplicitInfo
r32w = expl_reg write no_access full_zero_parent

abbrev pub r64mr : ExplicitInfo
r64mr = expl_reg may_read full no_access

abbrev pub r64mrw : ExplicitInfo
r64mrw = expl_reg may_read_write full full

abbrev pub r64r : ExplicitInfo
r64r = expl_reg read full no_access

abbrev pub r64rw : ExplicitInfo
r64rw = expl_reg read_write full full

abbrev pub r64w : ExplicitInfo
r64w = expl_reg write no_access full

abbrev pub r8r : ExplicitInfo
r8r = expl_reg read full no_access

abbrev pub r8rw : ExplicitInfo
r8rw = expl_reg read_write full full

abbrev pub s32 : ExplicitInfo
s32 = expl_imm

abbrev pub x128mr : ExplicitInfo
x128mr = expl_reg may_read full no_access

abbrev pub x128mrw : ExplicitInfo
x128mrw = expl_reg may_read_write full full

abbrev pub x128r : ExplicitInfo
x128r = expl_reg read full no_access

abbrev pub x128rw : ExplicitInfo
x128rw = expl_reg read_write full full

abbrev pub x128w : ExplicitInfo
x128w = expl_reg write no_access full

abbrev pub x64r : ExplicitInfo
x64r = expl_reg read h0 no_access

abbrev pub x64rw : ExplicitInfo
x64rw = expl_reg read_write h0 h0

abbrev pub x64w : ExplicitInfo
x64w = expl_reg write no_access h0

-- The flags, written or perhaps written, in the order of the tables.
abbrev flag_with : AccessMode → Register → StaticOperandInfo
flag_with mode reg = reg_info (record { reg = reg; mode = mode; r = no_access; w = full })

abbrev all_flags : AccessMode → List StaticOperandInfo
all_flags mode =
    flag_with mode cf
    ∷ flag_with mode pf
    ∷ flag_with mode af
    ∷ flag_with mode zf
    ∷ flag_with mode sf
    ∷ flag_with mode of
    ∷ []

-- `ioi_eflagsW` and `ioi_eflagsMW`
abbrev pub eflags_w : List StaticOperandInfo
eflags_w = all_flags write

abbrev pub eflags_mw : List StaticOperandInfo
eflags_mw = all_flags may_write

-- `ioi_sh`: the access to CL stands in the field for writes.
abbrev pub shift_flags_of : List StaticOperandInfo
shift_flags_of =
    reg_info (record { reg = cl; mode = read; r = no_access; w = full }) ∷ all_flags may_write

abbrev rsp_changed : StaticOperandInfo
rsp_changed = reg_info (record { reg = rsp; mode = read_write; r = full; w = full })

abbrev stack_at : ℕ → AccessMode → ℕ → StaticOperandInfo
stack_at disp mode size = mem_info (record {
  ptr = raw_sib rsp no_register (record { val = disp; usr_ptr = none }) 0;
  mode = mode;
  size = size;
})

-- `ioi_pop64`, `ioi_pop16` and `ioi_ret`: the top of the stack.
abbrev pub pop_stack : ℕ → List StaticOperandInfo
pop_stack size = rsp_changed ∷ stack_at 0 read size ∷ []

-- `ioi_push64` and `ioi_push16`: below the top of the stack.
abbrev pub push_stack : ℕ → List StaticOperandInfo
push_stack size = rsp_changed ∷ stack_at (u64 - size) write size ∷ []

-- A row of the table.
abbrev pub opc :
    List ExplicitInfo
    → List StaticOperandInfo
    → Option Predicate
    → Option Refine
    → Option (List DynamicOperandInfo → Emulation)
    → EmuFlag
    → OpcodeInfo
opc expl impl pred refiner handler emu_flag = record {
  expl_infos = expl;
  impl_infos = impl;
  predicate = pred;
  refine = refiner;
  emulate = handler;
  flag = emu_flag;
}

-- `operandInfo.r.mode = mode`
unfoldable pub set_mode : OperandInfo → AccessMode → Option OperandInfo
set_mode o mode = elim o.info [
  | reg_info a ↦ some (record o { info = reg_info (record a { mode = mode }) })
  | _ ↦ none
]

-- `explOperands.op[1].imm`
imm_at1 : List StaticOperand → Option Immediate
imm_at1 (x ∷ imm_op imm ∷ rest) = some imm
imm_at1 _ = none

-- The flags after a shift by a count.
count_mode : ℕ → AccessMode
count_mode count = if count == 0 then no_mode else write

refine_sh_imm : List StaticOperand → OperandInfo → Option OperandInfo
unfolding set_mode imm_at1 count_mode
refine_sh_imm ops o =
    if o.is_impl then (do imm ← imm_at1 ops; set_mode o (count_mode imm.val)) else some o

refine_sh_cl : Option ProgramState → OperandInfo → Option OperandInfo
unfolding set_mode count_mode
refine_sh_cl none o = some o
refine_sh_cl (some ps) o =
    if ltb 1 o.nr
    then (do
      v ← get_register ps cl full
      if is_imm (get_type v) then set_mode o (count_mode (get_imm64 v)) else some o)
    else some o

-- `refine_sh`
unfoldable pub refine_sh : Opcode → Refine
unfolding refine_sh_imm refine_sh_cl
refine_sh shl64mi ops ps o = refine_sh_imm ops o
refine_sh shl64ri ops ps o = refine_sh_imm ops o
refine_sh shr64mi ops ps o = refine_sh_imm ops o
refine_sh shr64ri ops ps o = refine_sh_imm ops o
refine_sh shl64r ops ps o = refine_sh_cl ps o
refine_sh shl64m ops ps o = refine_sh_cl ps o
refine_sh shr64r ops ps o = refine_sh_cl ps o
refine_sh shr64m ops ps o = refine_sh_cl ps o
refine_sh _ ops ps o = none

-- `explOperands.op[0].reg == explOperands.op[1].reg`
equal_registers : List StaticOperand → Option Bool
equal_registers (reg_op a ∷ reg_op b ∷ rest) = some (register_eq a b)
equal_registers _ = none

abbrev may_be_same : Opcode → Bool
may_be_same pxor128rr = true
may_be_same xor64rr = true
may_be_same xor32rr = true
may_be_same _ = false

-- `refine_xor_rr`
unfoldable pub refine_xor_rr : Opcode → Refine
unfolding set_mode equal_registers
refine_xor_rr op ops ps o = do
  drob_assert (may_be_same op)
  same ← equal_registers ops
  if o.nr == 0
      then set_mode o (if same then write else read_write)
      else if o.nr == 1
      then set_mode o (if same then no_mode else read)
      else some o
