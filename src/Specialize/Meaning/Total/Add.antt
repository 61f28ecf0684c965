-- ===== src/Specialize/Meaning/Total/Add.antt =====
-- The specialization of an addition returns, and what it returns is correct.
use drob.Prelude.{
  ℕ, ◌+◌, ◌%◌, ◌<◌, ◌==◌, ◌≡◌, refl, arith, Bool, true, false, Option, none, some, if◌then◌else◌,
  List, ◌∷◌,
}
use drob.Value.{u64}
use drob.Value.Laws.{Bases, Allows}
use drob.Memory.{Immediate, UsrPtrCfg}
use drob.BinaryPool.{BinaryPool}
use drob.BinaryPool.Pages.{MapsPages}
use drob.BinaryPool.Constants.{ConstantsHeld}
use drob.Emulator.{DynamicOperandInfo, Processor, operand}
use drob.Encoder.Operand.{fits32}
use drob.Encoder.Opcode.{Opcode, add64mr, add64mi, add64rr, add64rm, add64ri, xor64rr}
use drob.Instruction.{StaticOperand}
use drob.Specialize.{SpecRet, Draft, Specialization, get_imm, use_same_reg}
use drob.Specialize.Arith.{
  specialize_add64, known_result, add_to_zero, add_unread, add_rest, add_known, is_zero_imm,
  or_else, when_known, is_plain,
}
use drob.Specialize.Meaning.{Machine, operand_value, has_form, is_reg, UsrBases}
use drob.Specialize.Meaning.Same.{Correct}
use drob.Specialize.Meaning.Same.Logic.{draft}
use drob.Specialize.Meaning.Same.Add.{has_add64, add64_answer-Correct}
use drob.Specialize.Meaning.Total.{
  is_reg-Defined, Defined, if-Defined, bind-Defined, with_result, HasRoom, constant-Defined,
  number-Defined,
}

-- An optional branch does not throw, if it applies.
abbrev BranchDefined : Option Specialization → Type 0
BranchDefined none = Unit
BranchDefined (some s) = Defined s

or_else-Defined :
    (o : Option Specialization) (s : Specialization)
    → BranchDefined o
    → Defined s
    → Defined (or_else o s)
or_else-Defined none s p q = q
or_else-Defined (some r) s p q = p

if-BranchDefined :
    (b : Bool) (o o' : Option Specialization)
    → BranchDefined o
    → BranchDefined o'
    → BranchDefined (if b then o else o')
if-BranchDefined true o o' p q = p
if-BranchDefined false o o' p q = q

module _ (op0 op1 : StaticOperand) (pool : BinaryPool) where
  zeroed-Defined :
      (op : Opcode) → is_reg op0 ≡ true → Defined (use_same_reg (draft op op0 op1 pool) xor64rr)
  unfolding use_same_reg
  zeroed-Defined op is = let (r, e) = is_reg-Defined op0 is in rw e (_, refl)

  known_result-Defined :
      (op : Opcode) (imm : Immediate)
      → has_add64 op ≡ true
      → has_form op op0 op1 ≡ true
      → BranchDefined (known_result (draft op op0 op1 pool) imm)
  unfolding known_result
  known_result-Defined add64mr imm is h = if-BranchDefined (fits32 imm.val) _ _ (_, refl) tt
  known_result-Defined add64mi imm is h = if-BranchDefined (fits32 imm.val) _ _ (_, refl) tt
  known_result-Defined add64rr imm is h =
      if-BranchDefined (imm.val == 0) _ _ (zeroed-Defined add64rr (ground (arith, h))) (_, refl)
  known_result-Defined add64rm imm is h =
      if-BranchDefined (imm.val == 0) _ _ (zeroed-Defined add64rm (ground (arith, h))) (_, refl)
  known_result-Defined add64ri imm is h =
      if-BranchDefined (imm.val == 0) _ _ (zeroed-Defined add64ri (ground (arith, h))) (_, refl)
  known_result-Defined _ imm is h = absurd (ground (arith, is))

  when_known-Defined :
      (op : Opcode) (r : Option Immediate)
      → has_add64 op ≡ true
      → has_form op op0 op1 ≡ true
      → BranchDefined (when_known r (known_result (draft op op0 op1 pool)))
  when_known-Defined op none is h = tt
  when_known-Defined op (some imm) is h = known_result-Defined op imm is h

  add_to_zero-Defined :
      (op : Opcode) → has_add64 op ≡ true → BranchDefined (add_to_zero (draft op op0 op1 pool))
  unfolding add_to_zero
  add_to_zero-Defined add64mr is = (_, refl)
  add_to_zero-Defined add64rr is = (_, refl)
  add_to_zero-Defined add64rm is = (_, refl)
  add_to_zero-Defined add64mi is = tt
  add_to_zero-Defined add64ri is = tt
  add_to_zero-Defined _ is = absurd (ground (arith, is))

  module _ (mmap_fixed : ℕ → Bool) (usr_ptrs : List UsrPtrCfg) (room : HasRoom mmap_fixed pool)
      (x y : DynamicOperandInfo) (rest : List DynamicOperandInfo)
      (readable1 : Defined (get_imm usr_ptrs y.input)) where
    add_rest-Defined :
        (eflags_read : Bool) (op : Opcode)
        → has_add64 op ≡ true
        → Defined (add_rest mmap_fixed usr_ptrs eflags_read (draft op op0 op1 pool) y.input)
    unfolding add_rest add_known
    add_rest-Defined eflags_read add64mr is = bind-Defined _ readable1 (
        number-Defined mmap_fixed usr_ptrs op0 op1 pool room _ _
          (λ imm. if-Defined (fits32 imm.val) (_, refl) (_, refl)))
    add_rest-Defined eflags_read add64rr is = bind-Defined _ readable1 (
        number-Defined mmap_fixed usr_ptrs op0 op1 pool room _ _ (λ imm.
          if-Defined (fits32 imm.val) (_, refl)
            (if-Defined (is_plain imm)
              (constant-Defined mmap_fixed usr_ptrs op0 op1 pool room add64rr add64rm imm.val)
              (_, refl))))
    add_rest-Defined eflags_read add64rm is = bind-Defined _ readable1 (
        number-Defined mmap_fixed usr_ptrs op0 op1 pool room _ _ (λ imm.
          if-Defined (fits32 imm.val) (_, refl)
            (if-Defined (is_plain imm)
              (constant-Defined mmap_fixed usr_ptrs op0 op1 pool room add64rm add64rm imm.val)
              (_, refl))))
    add_rest-Defined eflags_read add64mi is = (_, refl)
    add_rest-Defined eflags_read add64ri is = (_, refl)
    add_rest-Defined eflags_read _ is = absurd (ground (arith, is))

    module _ (readable0 : Defined (get_imm usr_ptrs x.input))
        (readable : Defined (get_imm usr_ptrs x.output)) where
      add64-Defined :
          (eflags_read : Bool) (op : Opcode)
          → has_add64 op ≡ true
          → has_form op op0 op1 ≡ true
          → Defined (
              specialize_add64 mmap_fixed usr_ptrs eflags_read
                (draft op op0 op1 pool)
                (x ∷ y ∷ rest))
      unfolding specialize_add64 operand add_unread
      add64-Defined true op is h = add_rest-Defined true op is
      add64-Defined false op is h = bind-Defined _ readable1 λ rhs.
          if-Defined (is_zero_imm rhs) (_, refl)
            (bind-Defined _ readable λ result.
              or_else-Defined (when_known result (known_result (draft op op0 op1 pool))) _
                (when_known-Defined op result is h)
                (bind-Defined _ readable0 λ lhs.
                  or_else-Defined
                    (if is_zero_imm lhs then add_to_zero (draft op op0 op1 pool) else none) _
                    (if-BranchDefined (is_zero_imm lhs) _ _ (add_to_zero-Defined op is) tt)
                    (add_rest-Defined false op is)))

      module _ (cpu : Processor) (m : Machine)
          (adds_mod : (a b : ℕ) → (cpu.run_add 64 a b).0 ≡ (a + b) % u64)
          (xor_same : (a : ℕ) → (cpu.run_xor 64 a a).0 ≡ 0) (maps : MapsPages mmap_fixed)
          (held : ConstantsHeld pool) (small0 : operand_value m op0 < u64)
          (small1 : operand_value m op1 < u64) (base : Bases) (u : UsrBases base usr_ptrs)
          (p0 : Allows base x.input (operand_value m op0))
          (p1 : Allows base y.input (operand_value m op1))
          (q : Allows base x.output
            (cpu.run_add 64 (operand_value m op0) (operand_value m op1)).0) where
        -- If the processor adds modulo 2 ^ 64 and gives 0 for the exclusive or of a number with itself, the
        -- machine gives both operands numbers below 2 ^ 64 that their tracked inputs allow, the tracked
        -- output allows their sum, `getImm` can read the three, the user's pointers are those of the run,
        -- the pool holds its constants and has room for one more, and the operands have the form of the
        -- opcode, then the specialization of an `ADD64` returns, and its answer is correct on the machine:
        -- the instruction as it is, one with the same destination and effect (on the flags where they are
        -- read) whose operands have the form of its opcode, with an immediate of 32 bits where the form
        -- has one and of 64 bits for `MOV64ri`, or the deletion of one that has no effect but on flags
        -- that are not read.
        pub specialize_add64-Correct :
            (eflags_read : Bool) (op : Opcode)
            → has_add64 op ≡ true
            → has_form op op0 op1 ≡ true
            → (s : SpecRet × Draft) × (specialize_add64 mmap_fixed usr_ptrs eflags_read
                  (draft op op0 op1 pool)
                  (x ∷ y ∷ rest)
                ≡ some s)
              × Correct cpu m eflags_read (draft op op0 op1 pool) s
        specialize_add64-Correct eflags_read op is h =
            with_result (add64-Defined eflags_read op is h) (
              add64_answer-Correct cpu m op0 op1 pool adds_mod xor_same small0 small1 mmap_fixed
                maps held base usr_ptrs u x y rest p1 p0 q eflags_read op is h)
