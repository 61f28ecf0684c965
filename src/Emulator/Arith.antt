-- ===== src/Emulator/Arith.antt =====
-- The emulation of arithmetic, comparisons, shifts and vector instructions.
use drob.Prelude.{
  ℕ, ◌%◌, ◌^◌, ◌==◌, leb, not, ◌&&◌, ◌||◌, if◌then◌else◌, Bool, Option, some, List, ◌>>=◌,
}
use drob.Value.{
  DynamicValue, unknown_value, tainted_value, imm64, imm128, ptr_value, get_type, is_imm, is_ptr,
  is_stack_ptr, type_eq, get_imm64,
}
use drob.Emulator.{
  DynamicOperandInfo, Eflags, Processor, ok, Emulation, operand, set_output, imm64_of, imm128_of,
  set_eflags, set_af, set_cf, set_of,
}

-- The result of an instruction and its flags, which follow the two explicit operands.
unfoldable pub write_result : List DynamicOperandInfo → ℕ × Eflags → Emulation
unfolding set_output set_eflags
write_result ops r = do
  ops' ← set_output ops 0 (imm64 r.0)
  ops'' ← set_eflags ops' 2 r.1
  some (ops'', ok)

unfoldable pub write_flags : List DynamicOperandInfo → Eflags → Emulation
unfolding set_eflags
write_flags ops eflags = do ops' ← set_eflags ops 2 eflags; some (ops', ok)

unfoldable pub write_output : List DynamicOperandInfo → DynamicValue → Emulation
unfolding set_output
write_output ops v = do ops' ← set_output ops 0 v; some (ops', ok)

-- Two immediates, cut to a number of bits, through an instruction.
unfoldable pub emulate_imm : (ℕ → ℕ → ℕ → ℕ × Eflags) → ℕ → List DynamicOperandInfo → Emulation
unfolding operand write_result
emulate_imm run bits ops = do
  inout ← operand ops 0
  in' ← operand ops 1
  a ← imm64_of inout.input
  b ← imm64_of in'.input
  write_result ops (run bits (a % 2 ^ bits) (b % 2 ^ bits))

-- `GEN_EMULATE_ADD`
unfoldable pub emulate_add : Processor → ℕ → List DynamicOperandInfo → Emulation
unfolding emulate_imm
emulate_add cpu bits ops = emulate_imm cpu.run_add bits ops

-- A pointer whose offset is replaced.
abbrev pub with_offset : DynamicValue → ℕ → DynamicValue
with_offset (ptr_value p nr offset) k = ptr_value p nr k
with_offset v k = v

-- `getPtrOffset`
abbrev pub ptr_offset : DynamicValue → ℕ
ptr_offset (ptr_value p nr offset) = offset
ptr_offset _ = 0

-- What becomes of a sum or difference that is not tracked.
abbrev pub untracked : DynamicValue → DynamicValue → DynamicValue
untracked v w =
    if is_stack_ptr (get_type v) || is_stack_ptr (get_type w) then tainted_value else unknown_value

-- The branches that `add64` and `sub64` share.
unfoldable pub emulate_imm_ptr : (ℕ → ℕ → ℕ → ℕ × Eflags) → List DynamicOperandInfo → Emulation
unfolding operand write_result write_output
emulate_imm_ptr run ops = do
  inout ← operand ops 0
  in' ← operand ops 1
  let v = inout.input
  let w = in'.input
  if is_imm (get_type v) && is_imm (get_type w)
      then write_result ops (run 64 (get_imm64 v) (get_imm64 w))
      else if is_ptr (get_type v) && is_imm (get_type w)
      then write_output ops (with_offset v (run 64 (ptr_offset v) (get_imm64 w)).0)
      else if is_ptr (get_type w) && is_imm (get_type v)
      then write_output ops (with_offset w (run 64 (ptr_offset w) (get_imm64 v)).0)
      else write_output ops (untracked v w)

-- `add64`
unfoldable pub emulate_add64 : Processor → List DynamicOperandInfo → Emulation
unfolding emulate_imm_ptr
emulate_add64 cpu ops = emulate_imm_ptr cpu.run_add ops

-- `GEN_EMULATE_SUB`
unfoldable pub emulate_sub : Processor → ℕ → List DynamicOperandInfo → Emulation
unfolding emulate_imm
emulate_sub cpu bits ops = emulate_imm cpu.run_sub bits ops

-- `sub64`
unfoldable pub emulate_sub64 : Processor → List DynamicOperandInfo → Emulation
unfolding emulate_imm_ptr
emulate_sub64 cpu ops = emulate_imm_ptr cpu.run_sub ops

-- `xor32`
unfoldable pub emulate_xor32 : Processor → List DynamicOperandInfo → Emulation
unfolding emulate_imm
emulate_xor32 cpu ops = emulate_imm cpu.run_xor 32 ops

-- `xor64`
unfoldable pub emulate_xor64 : Processor → List DynamicOperandInfo → Emulation
unfolding emulate_imm
emulate_xor64 cpu ops = emulate_imm cpu.run_xor 64 ops

unfoldable pub compare_imm : Processor → ℕ → List DynamicOperandInfo → Emulation
unfolding operand write_flags
compare_imm cpu bits ops = do
  in0 ← operand ops 0
  in1 ← operand ops 1
  a ← imm64_of in0.input
  b ← imm64_of in1.input
  write_flags ops (cpu.run_cmp bits (a % 2 ^ bits) (b % 2 ^ bits))

-- `cmp8`
unfoldable pub emulate_cmp8 : Processor → List DynamicOperandInfo → Emulation
unfolding compare_imm
emulate_cmp8 cpu ops = compare_imm cpu 8 ops

-- `cmp16`
unfoldable pub emulate_cmp16 : Processor → List DynamicOperandInfo → Emulation
unfolding compare_imm
emulate_cmp16 cpu ops = compare_imm cpu 16 ops

-- `cmp32`
unfoldable pub emulate_cmp32 : Processor → List DynamicOperandInfo → Emulation
unfolding compare_imm
emulate_cmp32 cpu ops = compare_imm cpu 32 ops

abbrev pub ptr_nr : DynamicValue → ℕ
ptr_nr (ptr_value p nr offset) = nr
ptr_nr _ = 0

-- Two pointers of one type and number.
abbrev pub same_ptr : DynamicValue → DynamicValue → Bool
same_ptr v w =
    is_ptr (get_type v)
    && (is_ptr (get_type w) && (type_eq (get_type v) (get_type w) && (ptr_nr v == ptr_nr w)))

-- `cmp64`
unfoldable pub emulate_cmp64 : Processor → List DynamicOperandInfo → Emulation
unfolding operand write_flags
emulate_cmp64 cpu ops = do
  in0 ← operand ops 0
  in1 ← operand ops 1
  let v = in0.input
  let w = in1.input
  if is_imm (get_type v) && is_imm (get_type w)
      then write_flags ops (cpu.run_cmp 64 (get_imm64 v) (get_imm64 w))
      else if same_ptr v w
      then write_flags ops (cpu.run_cmp 64 (ptr_offset v) (ptr_offset w))
      else some (ops, ok)

-- "the following flags don't depend on any input values"
unfoldable pub clear_flags : List DynamicOperandInfo → Emulation
unfolding set_cf set_af set_of
clear_flags ops = do
  ops1 ← set_cf ops 2 (imm64 0)
  ops2 ← set_af ops1 4 unknown_value
  ops3 ← set_of ops2 7 (imm64 0)
  some (ops3, ok)

unfoldable pub test_flags : Processor → ℕ → List DynamicOperandInfo → Emulation
unfolding operand write_flags
test_flags cpu bits ops = do
  in0 ← operand ops 0
  in1 ← operand ops 1
  let v = in0.input
  let w = in1.input
  r ←
      (if is_imm (get_type v) && is_imm (get_type w)
        then write_flags ops (cpu.run_test bits (get_imm64 v % 2 ^ bits) (get_imm64 w % 2 ^ bits))
        else some (ops, ok))
  clear_flags r.0

-- `test8`
unfoldable pub emulate_test8 : Processor → List DynamicOperandInfo → Emulation
unfolding test_flags
emulate_test8 cpu ops = test_flags cpu 8 ops

-- `test16`
unfoldable pub emulate_test16 : Processor → List DynamicOperandInfo → Emulation
unfolding test_flags
emulate_test16 cpu ops = test_flags cpu 16 ops

-- `test32`
unfoldable pub emulate_test32 : Processor → List DynamicOperandInfo → Emulation
unfolding test_flags
emulate_test32 cpu ops = test_flags cpu 32 ops

-- `test64`
unfoldable pub emulate_test64 : Processor → List DynamicOperandInfo → Emulation
unfolding test_flags
emulate_test64 cpu ops = test_flags cpu 64 ops

-- The value that a shift leaves where not both operands are known.
abbrev pub shift_output : DynamicValue → DynamicValue
shift_output v =
    if is_stack_ptr (get_type v)
    then tainted_value
    else if is_ptr (get_type v)
    then unknown_value
    else v

-- `shift.input` is no immediate, or one that passes a test.
abbrev pub shift_is : (ℕ → Bool) → DynamicValue → Bool
shift_is test w = not (is_imm (get_type w)) || test (get_imm64 w)

unfoldable pub shift_flags : List DynamicOperandInfo → DynamicValue → Emulation
unfolding set_cf set_af set_of
shift_flags ops w = do
  ops1 ← (if shift_is (λ k. not (k == 1)) w then set_of ops 7 unknown_value else some ops)
  ops2 ← (if shift_is (λ k. leb 64 k) w then set_cf ops1 2 unknown_value else some ops1)
  ops3 ← set_af ops2 4 unknown_value
  some (ops3, ok)

-- The count is a `uint8_t`.
unfoldable pub emulate_shift : (ℕ → ℕ → ℕ × Eflags) → List DynamicOperandInfo → Emulation
unfolding operand write_result write_output
emulate_shift run ops = do
  inout ← operand ops 0
  shift ← operand ops 1
  let v = inout.input
  let w = shift.input
  r ←
      (if is_imm (get_type v) && is_imm (get_type w)
        then write_result ops (run (get_imm64 v) (get_imm64 w % 2 ^ 8))
        else write_output ops (shift_output v))
  shift_flags r.0 w

-- `shl64`
unfoldable pub emulate_shl64 : Processor → List DynamicOperandInfo → Emulation
unfolding emulate_shift
emulate_shl64 cpu ops = emulate_shift cpu.run_shl ops

-- `shr64`
unfoldable pub emulate_shr64 : Processor → List DynamicOperandInfo → Emulation
unfolding emulate_shift
emulate_shr64 cpu ops = emulate_shift cpu.run_shr ops

unfoldable pub emulate_vector :
    (ℕ → ℕ → ℕ)
    → (DynamicValue → Option ℕ)
    → (ℕ → DynamicValue)
    → List DynamicOperandInfo
    → Emulation
unfolding operand write_output
emulate_vector run get put ops = do
  inout ← operand ops 0
  in' ← operand ops 1
  a ← get inout.input
  b ← get in'.input
  write_output ops (put (run a b))

-- `addpd`
unfoldable pub emulate_addpd : Processor → List DynamicOperandInfo → Emulation
unfolding emulate_vector
emulate_addpd cpu ops = emulate_vector cpu.run_addpd imm128_of imm128 ops

-- `addsd`
unfoldable pub emulate_addsd : Processor → List DynamicOperandInfo → Emulation
unfolding emulate_vector
emulate_addsd cpu ops = emulate_vector cpu.run_addsd imm64_of imm64 ops

-- `mulpd`
unfoldable pub emulate_mulpd : Processor → List DynamicOperandInfo → Emulation
unfolding emulate_vector
emulate_mulpd cpu ops = emulate_vector cpu.run_mulpd imm128_of imm128 ops

-- `mulsd`
unfoldable pub emulate_mulsd : Processor → List DynamicOperandInfo → Emulation
unfolding emulate_vector
emulate_mulsd cpu ops = emulate_vector cpu.run_mulsd imm64_of imm64 ops

-- `pxor`
unfoldable pub emulate_pxor : Processor → List DynamicOperandInfo → Emulation
unfolding emulate_vector
emulate_pxor cpu ops = emulate_vector cpu.run_pxor imm128_of imm128 ops
