-- ===== src/Specialize/Compare.antt =====
-- The specialization of comparisons and tests.
use drob.Prelude.{ℕ, some, Bool, false, ◌>>=◌, if◌then◌else◌, List}
use drob.Memory.{Immediate, UsrPtrCfg}
use drob.Emulator.{DynamicOperandInfo, operand}
use drob.Encoder.Operand.{fits32}
use drob.Encoder.Opcode.{
  Opcode, cmp8mr, cmp8mi, cmp8ri, cmp16mr, cmp16mi, cmp16ri, cmp32mr, cmp32mi, cmp32ri, cmp64mr,
  cmp64mi, cmp64ri, cmp64rr, cmp64rm, test8mr, test8mi, test8rr, test8ri, test16mr, test16mi,
  test16rr, test16ri, test32mr, test32mi, test32rr, test32ri, test64mr, test64mi, test64rr,
  test64ri,
}
use drob.Instruction.{reg_op, imm_op}
use drob.Specialize.{
  change, Draft, Specialization, with_imm, reg_of, unchanged, use_imm, use_constant64,
  same_register,
}
use drob.Specialize.Arith.{is_plain}

-- "We can switch operand positions to encode the LHS as an immediate"
unfoldable pub switch_operands : Draft → Opcode → Immediate → Specialization
switch_operands d opcode imm = do
  reg ← reg_of d.op1
  some (change, record d { opcode = opcode; op0 = reg_op reg; op1 = imm_op imm })

module _ (mmap_fixed : ℕ → Bool) (usr_ptrs : List UsrPtrCfg) where
  -- `cmp8`
  unfoldable pub specialize_cmp8 : Draft → List DynamicOperandInfo → Specialization
  unfolding with_imm
  specialize_cmp8 d ops = do
    y ← operand ops 1
    with_imm usr_ptrs y.input
        (λ imm. elim d.opcode [ cmp8mr ↦ use_imm d cmp8mi imm | _ ↦ use_imm d cmp8ri imm ])
        (unchanged d)

  -- `cmp16`
  unfoldable pub specialize_cmp16 : Draft → List DynamicOperandInfo → Specialization
  unfolding with_imm
  specialize_cmp16 d ops = do
    y ← operand ops 1
    with_imm usr_ptrs y.input
        (λ imm. elim d.opcode [ cmp16mr ↦ use_imm d cmp16mi imm | _ ↦ use_imm d cmp16ri imm ])
        (unchanged d)

  -- `cmp32`
  unfoldable pub specialize_cmp32 : Draft → List DynamicOperandInfo → Specialization
  unfolding with_imm
  specialize_cmp32 d ops = do
    y ← operand ops 1
    with_imm usr_ptrs y.input
        (λ imm. elim d.opcode [ cmp32mr ↦ use_imm d cmp32mi imm | _ ↦ use_imm d cmp32ri imm ])
        (unchanged d)

  -- A comparison with a number that does not fit 32 bits.
  unfoldable pub cmp_constant : Draft → Immediate → Specialization
  cmp_constant d imm =
      if is_plain imm
      then elim d.opcode [
        | cmp64rr ↦ use_constant64 mmap_fixed d cmp64rm imm.val
        | cmp64rm ↦ use_constant64 mmap_fixed d cmp64rm imm.val
        | _ ↦ unchanged d
      ]
      else unchanged d

  unfoldable pub cmp_known : Draft → Immediate → Specialization
  unfolding cmp_constant
  cmp_known d imm =
      if fits32 imm.val
      then elim d.opcode [ cmp64mr ↦ use_imm d cmp64mi imm | _ ↦ use_imm d cmp64ri imm ]
      else cmp_constant d imm

  -- `cmp64`
  unfoldable pub specialize_cmp64 : Draft → List DynamicOperandInfo → Specialization
  unfolding with_imm cmp_known
  specialize_cmp64 d ops = do
    y ← operand ops 1
    with_imm usr_ptrs y.input (cmp_known d) (unchanged d)

  -- `test8`
  unfoldable pub specialize_test8 : Draft → List DynamicOperandInfo → Specialization
  unfolding with_imm switch_operands
  specialize_test8 d ops = do
    same ← (elim d.opcode [ test8rr ↦ same_register d | _ ↦ some false ])
    x ← operand ops 0
    y ← operand ops 1
    if same
        then unchanged d
        else with_imm usr_ptrs y.input
            (λ imm. elim d.opcode [ test8mr ↦ use_imm d test8mi imm | _ ↦ use_imm d test8ri imm ])
            (with_imm usr_ptrs x.input (switch_operands d test8ri) (unchanged d))

  -- `test16`
  unfoldable pub specialize_test16 : Draft → List DynamicOperandInfo → Specialization
  unfolding with_imm switch_operands
  specialize_test16 d ops = do
    same ← (elim d.opcode [ test16rr ↦ same_register d | _ ↦ some false ])
    x ← operand ops 0
    y ← operand ops 1
    if same
        then unchanged d
        else with_imm usr_ptrs y.input
            (λ imm. elim d.opcode [
              | test16mr ↦ use_imm d test16mi imm
              | _ ↦ use_imm d test16ri imm
            ])
            (with_imm usr_ptrs x.input (switch_operands d test16ri) (unchanged d))

  -- `test32`
  unfoldable pub specialize_test32 : Draft → List DynamicOperandInfo → Specialization
  unfolding with_imm switch_operands
  specialize_test32 d ops = do
    same ← (elim d.opcode [ test32rr ↦ same_register d | _ ↦ some false ])
    x ← operand ops 0
    y ← operand ops 1
    if same
        then unchanged d
        else with_imm usr_ptrs y.input
            (λ imm. elim d.opcode [
              | test32mr ↦ use_imm d test32mi imm
              | _ ↦ use_imm d test32ri imm
            ])
            (with_imm usr_ptrs x.input (switch_operands d test32ri) (unchanged d))

  unfoldable pub test_known : Draft → Immediate → Specialization → Specialization
  test_known d imm rest =
      if fits32 imm.val
      then elim d.opcode [ test64mr ↦ use_imm d test64mi imm | _ ↦ use_imm d test64ri imm ]
      else rest

  unfoldable pub test_switched : Draft → Immediate → Specialization
  unfolding switch_operands
  test_switched d imm = if fits32 imm.val then switch_operands d test64ri imm else unchanged d

  -- `test64`
  unfoldable pub specialize_test64 : Draft → List DynamicOperandInfo → Specialization
  unfolding with_imm test_known test_switched
  specialize_test64 d ops = do
    same ← (elim d.opcode [ test64rr ↦ same_register d | _ ↦ some false ])
    x ← operand ops 0
    y ← operand ops 1
    let switched = with_imm usr_ptrs x.input (test_switched d) (unchanged d)
    if same
        then unchanged d
        else with_imm usr_ptrs y.input (λ imm. test_known d imm switched) switched
