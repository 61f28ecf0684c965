-- ===== src/Specialize/Move.antt =====
-- The specialization of moves, of address computations and of the stack instructions.
use drob.Prelude.{ℕ, ◌==◌, ◌&&◌, none, some, Bool, false, not, ◌>>=◌, if◌then◌else◌, List}
use drob.Value.{get_type, is_imm}
use drob.Registers.{Register, RegisterAccessType, no_register, full, rsp}
use drob.Memory.{Immediate, raw_sib, UsrPtrCfg}
use drob.Liveness.{Mask}
use drob.Emulator.{DynamicOperandInfo, operand, imm64_of, imm128_of}
use drob.Encoder.Operand.{fits32}
use drob.Encoder.Opcode.{
  Opcode, lea64ra, mov32mr, mov32mi, mov32ri, mov32rr, mov64mr, mov64mi, mov64ri, mov64rr, movapdrm,
  movapdrr, movsdrm, movsdrr, movsdmr, movupdrm, movupdrr, movupsrm, movupsrr, push16i, push64i,
  pxor128rr, xor64rr,
}
use drob.Instruction.{reg_op, mem_op, imm_op}
use drob.Specialize.{
  no_change, change, Draft, Specialization, with_imm, reg_of, unchanged, deleted, use_imm,
  use_same_reg, use_constant64, use_constant128, same_register, registers_will_be_read,
}
use drob.Specialize.Arith.{is_plain}

-- The effect of `pop` on its copies: by the time that the opcode is tested it is `LEA64ra`, so the
-- displacement is 2. The scale is what the operand happened to hold.
abbrev pub pop_to_lea : ℕ → Draft → Draft
pop_to_lea scale d = record d {
  opcode = lea64ra;
  op0 = reg_op rsp;
  op1 = mem_op (raw_sib rsp no_register (record { val = 2; usr_ptr = none }) scale);
}

-- `pop`: the copies are changed, but the answer is that they are not.
unfoldable pub specialize_pop :
    ℕ → (Register → RegisterAccessType → Mask) → Mask → ℕ → Draft → Specialization
specialize_pop bits mask_of live_out scale d = do
  reg ← reg_of d.op0
  some (
    no_change,
    if registers_will_be_read bits live_out (mask_of reg full) then d else pop_to_lea scale d,
  )

module _ (mmap_fixed : ℕ → Bool) (usr_ptrs : List UsrPtrCfg) (eflags_read : Bool) where
  -- `lea64`
  unfoldable pub specialize_lea64 : Draft → List DynamicOperandInfo → Specialization
  specialize_lea64 d ops = do
    x ← operand ops 0
    with_imm usr_ptrs x.output
        (λ imm.
          if is_plain imm && ((imm.val == 0) && not eflags_read)
          then use_same_reg d xor64rr
          else use_imm d mov64ri imm)
        (unchanged d)

  -- `lea32`
  unfoldable pub specialize_lea32 : Draft → List DynamicOperandInfo → Specialization
  specialize_lea32 d ops = do
    x ← operand ops 0
    with_imm usr_ptrs x.output (use_imm d mov32ri) (unchanged d)

  -- `lea16`
  unfoldable pub specialize_lea16 : Draft → List DynamicOperandInfo → Specialization
  specialize_lea16 d ops = unchanged d

  -- `mov32`
  unfoldable pub specialize_mov32 : Draft → List DynamicOperandInfo → Specialization
  specialize_mov32 d ops = do
    same ← (elim d.opcode [ mov32rr ↦ same_register d | _ ↦ some false ])
    y ← operand ops 1
    if same
        then deleted d
        else with_imm usr_ptrs y.input
            (λ imm. elim d.opcode [ mov32mr ↦ use_imm d mov32mi imm | _ ↦ use_imm d mov32ri imm ])
            (unchanged d)

  unfoldable pub mov_known : Draft → Immediate → Specialization
  mov_known d imm = elim d.opcode [
    | mov64mr ↦ if fits32 imm.val then use_imm d mov64mi imm else unchanged d
    | _ ↦ use_imm d mov64ri imm
  ]

  -- `mov64`
  unfoldable pub specialize_mov64 : Draft → List DynamicOperandInfo → Specialization
  unfolding mov_known
  specialize_mov64 d ops = do
    same ← (elim d.opcode [ mov64rr ↦ same_register d | _ ↦ some false ])
    y ← operand ops 1
    if same then deleted d else with_imm usr_ptrs y.input (mov_known d) (unchanged d)

  -- `movapd`
  unfoldable pub specialize_movapd : Draft → List DynamicOperandInfo → Specialization
  specialize_movapd d ops = do
    same ← (elim d.opcode [ movapdrr ↦ same_register d | _ ↦ some false ])
    x ← operand ops 0
    if same
        then deleted d
        else if is_imm (get_type x.output)
        then (do
          val ← imm128_of x.output
          let loaded = use_constant128 mmap_fixed d movapdrm val
          if val == 0
              then use_same_reg d pxor128rr
              else elim d.opcode [ movapdrm ↦ loaded | _ ↦ unchanged d ])
        else unchanged d

  -- `movsd`
  unfoldable pub specialize_movsd : Draft → List DynamicOperandInfo → Specialization
  specialize_movsd d ops = do
    same ← (elim d.opcode [ movsdrr ↦ same_register d | _ ↦ some false ])
    x ← operand ops 0
    if same
        then deleted d
        else if is_imm (get_type x.output)
        then (do
          val ← imm64_of x.output
          elim d.opcode [
            | movsdrm ↦ use_constant64 mmap_fixed d movsdrm val
            | movsdmr ↦
                if fits32 val
                then use_imm d mov64mi (record { val = val; usr_ptr = none })
                else unchanged d
            | _ ↦ unchanged d
          ])
        else unchanged d

  -- `movupd`
  unfoldable pub specialize_movupd : Draft → List DynamicOperandInfo → Specialization
  specialize_movupd d ops = do
    same ← (elim d.opcode [ movupdrr ↦ same_register d | _ ↦ some false ])
    x ← operand ops 0
    if same
        then deleted d
        else if is_imm (get_type x.output)
        then (do
          val ← imm128_of x.output
          let loaded = use_constant128 mmap_fixed d movapdrm val
          if val == 0
              then use_same_reg d pxor128rr
              else elim d.opcode [ movupdrm ↦ loaded | _ ↦ unchanged d ])
        else unchanged d

  -- `movups`
  unfoldable pub specialize_movups : Draft → List DynamicOperandInfo → Specialization
  specialize_movups d ops = do
    same ← (elim d.opcode [ movupsrr ↦ same_register d | _ ↦ some false ])
    x ← operand ops 0
    let loaded = (do val ← imm128_of x.output; use_constant128 mmap_fixed d movupsrm val)
    if same
        then deleted d
        else if is_imm (get_type x.output)
        then elim d.opcode [ movupsrm ↦ loaded | _ ↦ unchanged d ]
        else unchanged d

  abbrev use_imm0 : Draft → Opcode → Immediate → Specialization
  use_imm0 d opcode imm = some (change, record d { opcode = opcode; op0 = imm_op imm })

  -- `push16`
  unfoldable pub specialize_push16 : Draft → List DynamicOperandInfo → Specialization
  specialize_push16 d ops = do
    x ← operand ops 0
    with_imm usr_ptrs x.input (use_imm0 d push16i) (unchanged d)

  -- `push64`
  unfoldable pub specialize_push64 : Draft → List DynamicOperandInfo → Specialization
  specialize_push64 d ops = do
    x ← operand ops 0
    with_imm usr_ptrs x.input
        (λ imm. if fits32 imm.val then use_imm0 d push64i imm else unchanged d) (unchanged d)
