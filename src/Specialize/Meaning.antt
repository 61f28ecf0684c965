-- ===== src/Specialize/Meaning.antt =====
-- What the 64-bit instructions of a draft do on a machine, independently of src/x86/Specialize.cpp: the
-- number that goes to operand 0, and the flags. The processor's arithmetic is a parameter.
pub mod Same
pub mod Total
use drob.Prelude.{
  ℕ, ◌+◌, ◌*◌, ◌%◌, ◌<◌, ◌≡◌, refl, arith, Bool, true, false, ◌&&◌, Option, none, some, ◌>>=◌,
  >>=-eq-some, some-eq, ap, if◌then◌else◌, List, none-ne-some, ◌∙◌, sym,
}
use drob.Prelude.Bytes.{Bytes, load}
use drob.Value.{DynamicValue, PtrType, imm64, imm128, ptr_value, usr, stack, ret, dead_value, u64}
use drob.Value.Laws.{Bases, Allows}
use drob.Registers.{Register}
use drob.Memory.{
  Immediate, RawMemPtr, raw_direct, raw_sib, is_no_register, UsrPtrCfg, get_usr_ptr_cfg,
}
use drob.Emulator.{Eflags, Processor}
use drob.Encoder.Operand.{fits32}
use drob.Encoder.Opcode.{
  Opcode, add64mr, add64mi, add64rr, add64rm, add64ri, mov64mi, mov64mr, mov64rr, mov64rm, mov64ri,
  xor64rr, xor64rm, xor64mr, xor64mi, xor64ri, cmp64mr, cmp64mi, cmp64rm, cmp64rr, cmp64ri,
  test64mr, test64mi, test64rr, test64ri,
}
use drob.Instruction.{StaticOperand, reg_op, mem_op, imm_op}
use drob.Specialize.{Draft, get_imm}

pub record Machine : Type 0 where
  pub regs : Register → ℕ
  pub mem : Bytes

abbrev register_value : Machine → Register → ℕ
register_value m reg = if is_no_register reg then 0 else m.regs reg

abbrev address_of : Machine → RawMemPtr → ℕ
address_of m (raw_direct addr) = addr.val
address_of m (raw_sib base index disp scale) =
    (register_value m base + scale * register_value m index + disp.val) % u64

-- The number that an operand of 64 bits stands for.
abbrev pub operand_value : Machine → StaticOperand → ℕ
operand_value m (reg_op reg) = m.regs reg
operand_value m (mem_op ptr) = load 8 (address_of m ptr) m.mem
operand_value m (imm_op imm) = imm.val

pub data Kind : Type 0 where
  adds xors moves compares tests : Kind

abbrev pub kind_of : Opcode → Option Kind
kind_of add64mr = some adds
kind_of add64mi = some adds
kind_of add64rr = some adds
kind_of add64rm = some adds
kind_of add64ri = some adds
kind_of xor64mr = some xors
kind_of xor64mi = some xors
kind_of xor64rr = some xors
kind_of xor64rm = some xors
kind_of xor64ri = some xors
kind_of mov64mr = some moves
kind_of mov64mi = some moves
kind_of mov64rr = some moves
kind_of mov64rm = some moves
kind_of mov64ri = some moves
kind_of cmp64mr = some compares
kind_of cmp64mi = some compares
kind_of cmp64rr = some compares
kind_of cmp64rm = some compares
kind_of cmp64ri = some compares
kind_of test64mr = some tests
kind_of test64mi = some tests
kind_of test64rr = some tests
kind_of test64ri = some tests
kind_of _ = none

-- The forms of two operands: a register or memory first, then a register, memory, or an immediate of
-- 32 bits that is sign extended; a move to a register has an immediate of 64 bits.
pub data Form : Type 0 where
  mr mi rr rm ri move_ri : Form

abbrev pub form_of : Opcode → Option Form
form_of add64mr = some mr
form_of add64mi = some mi
form_of add64rr = some rr
form_of add64rm = some rm
form_of add64ri = some ri
form_of xor64mr = some mr
form_of xor64mi = some mi
form_of xor64rr = some rr
form_of xor64rm = some rm
form_of xor64ri = some ri
form_of mov64mr = some mr
form_of mov64mi = some mi
form_of mov64rr = some rr
form_of mov64rm = some rm
form_of mov64ri = some move_ri
form_of cmp64mr = some mr
form_of cmp64mi = some mi
form_of cmp64rr = some rr
form_of cmp64rm = some rm
form_of cmp64ri = some ri
form_of test64mr = some mr
form_of test64mi = some mi
form_of test64rr = some rr
form_of test64ri = some ri
form_of _ = none

abbrev pub is_reg : StaticOperand → Bool
is_reg (reg_op reg) = true
is_reg _ = false

abbrev pub is_mem : StaticOperand → Bool
is_mem (mem_op ptr) = true
is_mem _ = false

abbrev pub is_imm32 : StaticOperand → Bool
is_imm32 (imm_op imm) = fits32 imm.val
is_imm32 _ = false

abbrev pub is_imm_op : StaticOperand → Bool
is_imm_op (imm_op imm) = true
is_imm_op _ = false

abbrev pub form_fits : Option Form → StaticOperand → StaticOperand → Bool
form_fits none o o' = false
form_fits (some mr) o o' = is_mem o && is_reg o'
form_fits (some mi) o o' = is_mem o && is_imm32 o'
form_fits (some rr) o o' = is_reg o && is_reg o'
form_fits (some rm) o o' = is_reg o && is_mem o'
form_fits (some ri) o o' = is_reg o && is_imm32 o'
form_fits (some move_ri) o o' = is_reg o && is_imm_op o'

-- The two operands have the form that the name of the opcode says.
abbrev pub has_form : Opcode → StaticOperand → StaticOperand → Bool
has_form op o o' = form_fits (form_of op) o o'

-- The number that is written to operand 0 and the flags, where the instruction writes them.
pub record Effect : Type 0 where
  pub value : Option ℕ
  pub flags : Option Eflags

abbrev pub effect_of : Processor → Kind → ℕ → ℕ → Effect
effect_of cpu adds a b = record {
  value = some (cpu.run_add 64 a b).0;
  flags = some (cpu.run_add 64 a b).1;
}
effect_of cpu xors a b = record {
  value = some (cpu.run_xor 64 a b).0;
  flags = some (cpu.run_xor 64 a b).1;
}
effect_of cpu moves a b = record { value = some b; flags = none }
effect_of cpu compares a b = record { value = none; flags = some (cpu.run_cmp 64 a b) }
effect_of cpu tests a b = record { value = none; flags = some (cpu.run_test 64 a b) }

abbrev pub kind_effect : Processor → Option Kind → ℕ → ℕ → Option Effect
kind_effect cpu none a b = none
kind_effect cpu (some k) a b = some (effect_of cpu k a b)

-- The effect of a draft.
abbrev pub draft_effect : Processor → Machine → Draft → Option Effect
draft_effect cpu m d =
    kind_effect cpu (kind_of d.opcode) (operand_value m d.op0) (operand_value m d.op1)

-- Nothing happens: operand 0 keeps its number.
abbrev pub no_effect : ℕ → Effect
no_effect a = record { value = some a; flags = none }

-- Two effects that nobody can tell apart, where the flags count only if they are read.
abbrev pub SameEffect : Bool → Option Effect → Option Effect → Type 0
SameEffect eflags_read (some e) (some f) =
    (e.value ≡ f.value) × (eflags_read ≡ true → e.flags ≡ f.flags)
SameEffect eflags_read _ _ = ⊥

-- The addresses that the user gave for the known pointers are those of the run.
abbrev pub UsrBases : Bases → List UsrPtrCfg → Type 0
UsrBases base usr_ptrs =
    (nr : ℕ) (cfg : UsrPtrCfg)
    → get_usr_ptr_cfg usr_ptrs nr ≡ some cfg
    → cfg.is_known ≡ true
    → base usr nr ≡ cfg.val

-- What `getImm` gives is the number of the run.
pub get_imm-value :
    (base : Bases) (usr_ptrs : List UsrPtrCfg) (v : DynamicValue) (a : ℕ) (imm : Immediate)
    → UsrBases base usr_ptrs
    → Allows base v a
    → get_imm usr_ptrs v ≡ some (some imm)
    → imm.val ≡ a
unfolding get_imm
get_imm-value base usr_ptrs (imm64 v) a imm u p h = ground arith
get_imm-value base usr_ptrs (imm128 v) a imm u p h = cc
get_imm-value base usr_ptrs (ptr_value usr nr offset) a imm u p h =
    let (cfg, e, k) = >>=-eq-some (get_usr_ptr_cfg usr_ptrs nr) _ h in ground (arith, u nr cfg e)
get_imm-value base usr_ptrs _ a imm u p h = cc
