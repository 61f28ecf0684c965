-- ===== src/Tests/Emulator.antt =====
-- The theorems on the emulation of instructions at concrete operands.
use Prim.Native.Nat.{bit_xor}
use drob.Encoder.Operand.{length}
use drob.Prelude.{
  ◌<◌, ℕ, ◌+◌, ◌-◌, ◌*◌, ◌%◌, ◌≡◌, ◌^◌, refl, arith, true, false, none, some, List, [], ◌∷◌,
}
use drob.Prelude.{if◌then◌else◌, ◌==◌}
use drob.Elements.{State}
use drob.Elements.Get.{get_elements}
use drob.Tests.{flat, or_else}
use drob.Predicate.{tri_true, will_execute}
use drob.Program.{get_register, file_state}
use drob.Registers.{get_register_data}
use drob.Value.{
  unknown, stack_ptr, stack_ptr_tail, DynamicValue, imm64, ptr_value, stack, unknown_value, u64,
}
use drob.Value.Laws.{Bases}
use drob.Registers.{cf, pf, af, zf, sf, of, Register, RegisterAccessType, no_access, full, rsp, rax}
use drob.Liveness.{Mask, zero_mask}
use drob.Program.{ProgramState}
use drob.Emulator.{DynamicOperandInfo, Location, reg_acc, encoded, Eflags, Processor, ok}
use drob.Emulator.Arith.{emulate_add64, emulate_sub64, emulate_shl64, emulate_test64}
use drob.Emulator.Shape.{FlagOperands, AreFlags, AreUnknown, flag_list}
use drob.Emulator.Sound.{Computes, emulate_add64-Computes, emulate_sub64-Computes}
use drob.Emulator.Sound.Flags.{Flagged}
use drob.Emulator.Sound.Compare.{after_shift, emulate_shl64-Computes, emulate_test64-Flagged}
use drob.Instruction.{OpcodeInfo, get_info, reg_op, expl_reg, read, write, of_emu_imm}
use drob.Instruction.Dynamic.{DynamicInstructionInfo, gen_dyn_info, new_info}
use drob.Instruction.Emulate.{emulate_generic}
use drob.Instruction.Taint.{AllTainted, reads_stack_ptr, emulate_generic-AllTainted}

abbrev no_flags : Eflags
no_flags = record { carry = 0; parity = 0; adjust = 0; is_zero = 0; sign = 0; overflow = 0 }

-- The flags before an instruction.
abbrev ones : Eflags
ones = record { carry = 1; parity = 1; adjust = 1; is_zero = 1; sign = 1; overflow = 1 }

-- A processor whose vector instructions and shifts to the right give 0.
abbrev pub cpu : Processor
cpu = record {
  run_add = λ bits a b. ((a + b) % 2 ^ bits, no_flags);
  run_sub = λ bits a b. ((a + (2 ^ bits - b)) % 2 ^ bits, no_flags);
  run_xor = λ bits a b. (if a == b then 0 else bit_xor a b, no_flags);
  run_shl = λ a b. (a * 2 ^ b % u64, no_flags);
  run_shr = λ a b. (0, no_flags);
  run_cmp = λ bits a b. no_flags;
  run_test = λ bits a b. no_flags;
  run_addpd = λ a b. 0;
  run_addsd = λ a b. 0;
  run_mulpd = λ a b. 0;
  run_mulsd = λ a b. 0;
  run_pxor = λ a b. 0;
}

abbrev source : Location → DynamicValue → DynamicOperandInfo
source loc v = record {
  location = loc;
  is_input = true;
  is_output = false;
  is_cond_output = false;
  input = v;
  output = unknown_value;
}

abbrev flag : Register → DynamicOperandInfo
flag reg = record {
  location = reg_acc reg no_access full;
  is_input = false;
  is_output = true;
  is_cond_output = false;
  input = imm64 0;
  output = unknown_value;
}

abbrev flags : FlagOperands
flags = record {
  cf_op = flag cf;
  pf_op = flag pf;
  af_op = flag af;
  zf_op = flag zf;
  sf_op = flag sf;
  of_op = flag of;
}

flags-AreFlags : AreFlags flags
flags-AreFlags = record { cf_first = refl; af_third = refl; of_last = refl }

flags-AreUnknown : AreUnknown flags
flags-AreUnknown = record {
  cf_unknown = refl;
  pf_unknown = refl;
  af_unknown = refl;
  zf_unknown = refl;
  sf_unknown = refl;
  of_unknown = refl;
}

-- `RSP`, 8 bytes below its value at the entry, which is 1000.
abbrev pub base : Bases
base p nr = 1000

abbrev below_entry : DynamicOperandInfo
below_entry = source (reg_acc rsp full full) (ptr_value stack 0 (u64 - 8))

abbrev pub number : ℕ → DynamicOperandInfo
number n = source encoded (imm64 n)

-- An operand that is known before and after.
abbrev pub number_to : ℕ → ℕ → DynamicOperandInfo
number_to n n' = record {
  location = reg_acc rax full full;
  is_input = true;
  is_output = true;
  is_cond_output = false;
  input = imm64 n;
  output = imm64 n';
}

emulate_add64-Computes_example :
    Computes base
      (number 16)
      (1008, no_flags)
      (emulate_add64 cpu (below_entry ∷ number 16 ∷ flag_list flags))
emulate_add64-Computes_example =
    emulate_add64-Computes base cpu below_entry (number 16) flags flags-AreFlags flags-AreUnknown
      992 16 refl refl (omega arith) (omega arith) (λ m n. refl)

emulate_sub64-Computes_example :
    Computes base
      (number 16)
      (976, no_flags)
      (emulate_sub64 cpu (below_entry ∷ number 16 ∷ flag_list flags))
emulate_sub64-Computes_example =
    emulate_sub64-Computes base cpu below_entry (number 16) flags flags-AreFlags flags-AreUnknown
      992 16 refl refl (omega arith) (omega arith) (λ m n. refl) refl

emulate_shl64-Computes_example :
    Computes base
      (number 3)
      (after_shift cpu.run_shl ones 5 3)
      (emulate_shl64 cpu (number 5 ∷ number 3 ∷ flag_list flags))
emulate_shl64-Computes_example =
    emulate_shl64-Computes base cpu (number 5) (number 3) flags flags-AreFlags flags-AreUnknown 5 3
      refl refl (omega arith) (omega arith) ones (λ e. e) refl

emulate_test64-Flagged_example :
    Flagged base below_entry
      (number 3)
      no_flags
      (emulate_test64 cpu (below_entry ∷ number 3 ∷ flag_list flags))
emulate_test64-Flagged_example =
    emulate_test64-Flagged base cpu below_entry (number 3) flags flags-AreFlags flags-AreUnknown 992
      3 refl refl (omega arith) (omega arith) (λ m n. (refl, refl))

-- `RSP` holds a stack pointer, and so does every other register.
abbrev nothing_known : ℕ → State
nothing_known n = flat n unknown 0

abbrev stack_everywhere : ProgramState
stack_everywhere = record {
  stack = record { elements = nothing_known 0; base = 0; is_dead = false };
  flags = λ nr. nothing_known 1;
  gprs = λ nr. record (nothing_known 8) {
    metadata = λ i. record { type = if i == 0 then stack_ptr else stack_ptr_tail; nr = 0 };
  };
  vectors = λ nr. nothing_known 16;
}

-- An instruction with no emulation that reads one register and writes another.
abbrev copy : OpcodeInfo
copy = record {
  expl_infos = expl_reg write no_access full ∷ expl_reg read full no_access ∷ [];
  impl_infos = [];
  predicate = none;
  refine = none;
  emulate = none;
  flag = of_emu_imm;
}

abbrev no_mask : Register → RegisterAccessType → Mask
no_mask reg part i = false

abbrev no_info : DynamicInstructionInfo
no_info = new_info tri_true (record {
  nasty = false;
  operands = [];
  may_write_mem = false;
  predicate_regs = zero_mask;
  read_regs = zero_mask;
  written_regs = zero_mask;
  cond_written_regs = zero_mask;
})

copied : DynamicInstructionInfo × ProgramState
copied =
    or_else (no_info, stack_everywhere)
      (gen_dyn_info (λ _. 0) [] [] [] no_mask (some copy) (reg_op rax ∷ reg_op rsp ∷ [])
        stack_everywhere)

copied_is :
    gen_dyn_info
      (λ _. 0)
      []
      []
      []
      no_mask
      (some copy)
      (reg_op rax ∷ reg_op rsp ∷ [])
      stack_everywhere
    ≡ some copied
unfolding copied gen_dyn_info get_info will_execute get_register get_register_data get_elements
    file_state
copied_is = refl

copied_reads : reads_stack_ptr copied.0.operands ≡ true
unfolding copied gen_dyn_info get_info will_execute get_register get_register_data get_elements
    file_state
copied_reads = refl

copied_few : length copied.0.operands < 16
unfolding copied gen_dyn_info get_info will_execute get_register get_register_data get_elements
    file_state
copied_few = omega arith

emulate_generic-AllTainted_example :
    (ops' : List DynamicOperandInfo) × (emulate_generic copied.0 ≡ some (ops', ok))
    × AllTainted ops'
emulate_generic-AllTainted_example =
    emulate_generic-AllTainted (λ _. 0) [] [] [] no_mask (some copy) (reg_op rax ∷ reg_op rsp ∷ [])
      stack_everywhere copied_is copied_few copied_reads
