-- ===== src/Specialize/Arith.antt =====
-- The specialization of additions, multiplications, exclusive ors and shifts.
use drob.Prelude.{
  ℕ, ◌%◌, ◌==◌, ◌&&◌, Option, none, some, Bool, true, false, not, ◌>>=◌, if◌then◌else◌, List,
}
use drob.Value.{DynamicValue, get_type, is_imm}
use drob.Memory.{Immediate, UsrPtrCfg}
use drob.Emulator.{DynamicOperandInfo, operand, imm64_of, imm128_of}
use drob.Encoder.Operand.{fits32}
use drob.Encoder.Opcode.{
  Opcode, add64mr, add64mi, add64rr, add64rm, add64ri, mov64mi, mov64mr, mov64rr, mov64rm, mov64ri,
  xor64rr, xor64rm, xor64mr, xor64mi, xor64ri, xor32rr, xor32rm, xor32mr, xor32mi, xor32ri, addpdrm,
  addsdrm, movapdrm, movsdrm, mulpdrm, mulsdrm, pxor128rr, pxor128rm, shl64m, shl64r, shl64mi,
  shl64ri, shr64m, shr64r, shr64mi, shr64ri,
}
use drob.Specialize.{
  Draft, Specialization, get_imm, unchanged, deleted, use_opcode, use_imm, use_same_reg,
  use_constant64, use_constant128, same_register,
}

-- A known immediate of operand 1 that is no user pointer.
abbrev pub is_plain : Immediate → Bool
is_plain imm = elim imm.usr_ptr [ none ↦ true | some p ↦ false ]

-- "`getImm(...) && !imm.val`"
abbrev pub is_zero_imm : Option Immediate → Bool
is_zero_imm none = false
is_zero_imm (some imm) = imm.val == 0

abbrev writes_memory : Opcode → Bool
writes_memory add64mr = true
writes_memory add64mi = true
writes_memory shl64m = true
writes_memory shl64mi = true
writes_memory shr64m = true
writes_memory shr64mi = true
writes_memory _ = false

-- The result is known and the flags are not read; the opcode is one of the function that asks.
unfoldable pub known_result : Draft → Immediate → Option Specialization
known_result d imm =
    if writes_memory d.opcode
    then (if fits32 imm.val then some (use_imm d mov64mi imm) else none)
    else if imm.val == 0
    then some (use_same_reg d xor64rr)
    else some (use_imm d mov64ri imm)

-- "LHS is 0 -> simple MOV"
unfoldable pub add_to_zero : Draft → Option Specialization
add_to_zero d = elim d.opcode [
  | add64rr ↦ some (use_opcode d mov64rr)
  | add64mr ↦ some (use_opcode d mov64mr)
  | add64rm ↦ some (use_opcode d mov64rm)
  | _ ↦ none
]

-- What the first branch that applies gives, and else the rest.
abbrev pub or_else : Option Specialization → Specialization → Specialization
or_else none rest = rest
or_else (some s) rest = s

abbrev pub when_known :
    Option Immediate → (Immediate → Option Specialization) → Option Specialization
when_known none f = none
when_known (some imm) f = f imm

module _ (mmap_fixed : ℕ → Bool) (usr_ptrs : List UsrPtrCfg) (eflags_read : Bool) where
  -- "RHS known and eflags relevant"
  unfoldable pub add_known : Draft → Immediate → Specialization
  add_known d imm = elim d.opcode [
    | add64mr ↦ if fits32 imm.val then use_imm d add64mi imm else unchanged d
    | _ ↦
        if fits32 imm.val
        then use_imm d add64ri imm
        else if is_plain imm
        then use_constant64 mmap_fixed d add64rm imm.val
        else unchanged d
  ]

  -- The part of `add64` that does not depend on the flags.
  unfoldable pub add_rest : Draft → DynamicValue → Specialization
  unfolding add_known
  add_rest d v =
      let known = (do
        rhs ← get_imm usr_ptrs v
        elim rhs [ none ↦ unchanged d | some imm ↦ add_known d imm ]) in
      elim d.opcode [ add64mi ↦ unchanged d | add64ri ↦ unchanged d | _ ↦ known ]

  -- "If eflags are not of interest, we can do some nice optimizations"
  unfoldable pub add_unread : Draft → DynamicOperandInfo → DynamicOperandInfo → Specialization
  unfolding known_result add_to_zero add_rest
  add_unread d x y = do
    rhs ← get_imm usr_ptrs y.input
    if is_zero_imm rhs then deleted d else (do
      result ← get_imm usr_ptrs x.output
      or_else (when_known result (known_result d)) (do
        lhs ← get_imm usr_ptrs x.input
        or_else (if is_zero_imm lhs then add_to_zero d else none) (add_rest d y.input)))

  -- `add64`
  unfoldable pub specialize_add64 : Draft → List DynamicOperandInfo → Specialization
  unfolding add_unread add_rest
  specialize_add64 d ops = do
    x ← operand ops 0
    y ← operand ops 1
    if eflags_read then add_rest d y.input else add_unread d x y

  -- A vector instruction whose result is known: a constant, or with the register itself if it is 0.
  vector_result : Opcode → Draft → DynamicOperandInfo → DynamicOperandInfo → Specialization
  vector_result opcode d x y =
      if is_imm (get_type x.output)
      then (do
        val ← imm128_of x.output
        if val == 0 then use_same_reg d pxor128rr else use_constant128 mmap_fixed d movapdrm val)
      else if is_imm (get_type y.input)
      then (do val ← imm128_of y.input; use_constant128 mmap_fixed d opcode val)
      else unchanged d

  -- `addpd`
  unfoldable pub specialize_addpd : Draft → List DynamicOperandInfo → Specialization
  unfolding vector_result
  specialize_addpd d ops = do x ← operand ops 0; y ← operand ops 1; vector_result addpdrm d x y

  -- `mulpd`
  unfoldable pub specialize_mulpd : Draft → List DynamicOperandInfo → Specialization
  unfolding vector_result
  specialize_mulpd d ops = do x ← operand ops 0; y ← operand ops 1; vector_result mulpdrm d x y

  scalar_result : Opcode → Draft → DynamicOperandInfo → DynamicOperandInfo → Specialization
  scalar_result opcode d x y =
      if is_imm (get_type x.output)
      then (do val ← imm64_of x.output; use_constant64 mmap_fixed d movsdrm val)
      else if is_imm (get_type y.input)
      then (do val ← imm64_of y.input; use_constant64 mmap_fixed d opcode val)
      else unchanged d

  -- `addsd`
  unfoldable pub specialize_addsd : Draft → List DynamicOperandInfo → Specialization
  unfolding scalar_result
  specialize_addsd d ops = do x ← operand ops 0; y ← operand ops 1; scalar_result addsdrm d x y

  -- `mulsd`
  unfoldable pub specialize_mulsd : Draft → List DynamicOperandInfo → Specialization
  unfolding scalar_result
  specialize_mulsd d ops = do x ← operand ops 0; y ← operand ops 1; scalar_result mulsdrm d x y

  -- `pxor`
  unfoldable pub specialize_pxor : Draft → List DynamicOperandInfo → Specialization
  specialize_pxor d ops = do
    x ← operand ops 0
    y ← operand ops 1
    same ← (elim d.opcode [ pxor128rr ↦ same_register d | _ ↦ some false ])
    if same
        then unchanged d
        else if is_imm (get_type x.output)
        then (do val ← imm128_of x.output; use_constant128 mmap_fixed d movapdrm val)
        else if is_imm (get_type y.input)
        then (do val ← imm128_of y.input; use_constant128 mmap_fixed d pxor128rm val)
        else unchanged d

  -- The count, in CL, can be encoded as an immediate.
  unfoldable pub shift_by_imm : Draft → Option Immediate → Specialization
  shift_by_imm d none = unchanged d
  shift_by_imm d (some imm) = elim d.opcode [
    | shl64m ↦ use_imm d shl64mi imm
    | shl64r ↦ use_imm d shl64ri imm
    | shr64m ↦ use_imm d shr64mi imm
    | shr64r ↦ use_imm d shr64ri imm
    | _ ↦ unchanged d
  ]

  -- "`getImm(...) && !(imm.val & 0x3f)`"
  abbrev is_zero_shift : Option Immediate → Bool
  is_zero_shift none = false
  is_zero_shift (some imm) = imm.val % 64 == 0

  specialize_shift : Draft → List DynamicOperandInfo → Specialization
  unfolding known_result shift_by_imm
  specialize_shift d ops = do
    x ← operand ops 0
    y ← operand ops 1
    count ← get_imm usr_ptrs y.input
    if is_zero_shift count then deleted d else (do
      result ← get_imm usr_ptrs x.output
      or_else (if eflags_read then none else when_known result (known_result d))
          (shift_by_imm d count))

  -- `shl64`
  unfoldable pub specialize_shl64 : Draft → List DynamicOperandInfo → Specialization
  unfolding specialize_shift
  specialize_shl64 d ops = specialize_shift d ops

  -- `shr64`
  unfoldable pub specialize_shr64 : Draft → List DynamicOperandInfo → Specialization
  unfolding specialize_shift
  specialize_shr64 d ops = specialize_shift d ops

  -- `xor32`
  unfoldable pub specialize_xor32 : Draft → List DynamicOperandInfo → Specialization
  specialize_xor32 d ops = do
    y ← operand ops 1
    same ← (elim d.opcode [ xor32rr ↦ same_register d | _ ↦ some false ])
    if same then unchanged d else (do
      rhs ← get_imm usr_ptrs y.input
      elim rhs [
        | none ↦ unchanged d
        | some imm ↦ if (imm.val == 0) && not eflags_read then deleted d else elim d.opcode [
          | xor32mr ↦ use_imm d xor32mi imm
          | xor32rr ↦ use_imm d xor32ri imm
          | xor32rm ↦ use_imm d xor32ri imm
          | _ ↦ unchanged d
        ]
      ])

  -- An exclusive or with a known number.
  unfoldable pub xor_known : Draft → Immediate → Specialization
  xor_known d imm = elim d.opcode [
    | xor64mr ↦ if fits32 imm.val then use_imm d xor64mi imm else unchanged d
    | xor64rr ↦
        if fits32 imm.val
        then use_imm d xor64ri imm
        else if is_plain imm
        then use_constant64 mmap_fixed d xor64rm imm.val
        else unchanged d
    | xor64rm ↦
        if fits32 imm.val
        then use_imm d xor64ri imm
        else if is_plain imm
        then use_constant64 mmap_fixed d xor64rm imm.val
        else unchanged d
    | _ ↦ unchanged d
  ]

  -- `xor64`
  unfoldable pub specialize_xor64 : Draft → List DynamicOperandInfo → Specialization
  unfolding xor_known
  specialize_xor64 d ops = do
    y ← operand ops 1
    same ← (elim d.opcode [ xor64rr ↦ same_register d | _ ↦ some false ])
    if same then unchanged d else (do
      rhs ← get_imm usr_ptrs y.input
      elim rhs [
        | none ↦ unchanged d
        | some imm ↦ if (imm.val == 0) && not eflags_read then deleted d else xor_known d imm
      ])
