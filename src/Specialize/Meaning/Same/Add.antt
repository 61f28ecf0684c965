-- ===== src/Specialize/Meaning/Same/Add.antt =====
-- A specialized addition does what the original one does.
use native.Mathlib.Nat.{mod-eq_of_lt}
use drob.Prelude.{
  ℕ, ◌+◌, ◌%◌, ◌<◌, ◌==◌, ◌≡◌, refl, arith, Bool, true, false, Option, none, some, some-eq, ap,
  if◌then◌else◌, if_cases, List, ◌∷◌, ◌∙◌, sym, ==_iff,
}
use drob.Prelude.Returns.{Returns, Returns-some, Returns-bind}
use drob.Value.{DynamicValue, u64}
use drob.Value.Laws.{Bases, Allows}
use drob.Registers.{Register}
use drob.Memory.{Immediate, UsrPtrCfg}
use drob.BinaryPool.{BinaryPool}
use drob.BinaryPool.Pages.{MapsPages}
use drob.BinaryPool.Constants.{ConstantsHeld}
use drob.Emulator.{DynamicOperandInfo, Processor, operand}
use drob.Encoder.Operand.{fits32}
use drob.Encoder.Opcode.{
  Opcode, add64mr, add64mi, add64rr, add64rm, add64ri, mov64mi, mov64mr, mov64rr, mov64rm, mov64ri,
  xor64rr,
}
use drob.Instruction.{StaticOperand, reg_op, mem_op, imm_op}
use drob.Specialize.{
  change, delete, Specialization, get_imm, use_imm, use_same_reg, deleted, reg_of,
}
use drob.Specialize.Arith.{
  specialize_add64, known_result, add_to_zero, add_unread, add_rest, add_known, is_zero_imm,
  or_else, when_known,
}
use drob.Specialize.Meaning.{
  Machine, operand_value, kind_of, draft_effect, has_form, is_reg, is_mem, SameEffect, UsrBases,
  get_imm-value, adds,
}
use drob.Specialize.Meaning.Same.{Correct, unchanged-Correct, imm_or_constant, imm_or_nothing}
use drob.Specialize.Meaning.Same.Logic.{draft, with_number}

abbrev pub has_add64 : Opcode → Bool
has_add64 add64mr = true
has_add64 add64rr = true
has_add64 add64rm = true
has_add64 add64mi = true
has_add64 add64ri = true
has_add64 _ = false

has_add64-kind : (op : Opcode) → has_add64 op ≡ true → kind_of op ≡ some adds
has_add64-kind add64mr is = refl
has_add64-kind add64rr is = refl
has_add64-kind add64rm is = refl
has_add64-kind add64mi is = refl
has_add64-kind add64ri is = refl
has_add64-kind _ is = cc

module _ (cpu : Processor) (m : Machine) (op0 op1 : StaticOperand) (pool : BinaryPool)
    (adds_mod : (a b : ℕ) → (cpu.run_add 64 a b).0 ≡ (a + b) % u64)
    (xor_same : (a : ℕ) → (cpu.run_xor 64 a a).0 ≡ 0) (small0 : operand_value m op0 < u64)
    (small1 : operand_value m op1 < u64) where
  abbrev C : Bool → Opcode → Specialization → Type 0
  C eflags_read op = Returns (Correct cpu m eflags_read (draft op op0 op1 pool))

  -- The addition of 0.
  add_zero :
      operand_value m op1 ≡ 0
      → (cpu.run_add 64 (operand_value m op0) (operand_value m op1)).0 ≡ operand_value m op0
  add_zero z = adds_mod _ _ ∙ omega (arith, z, small0, mod-eq_of_lt small0)

  deleted_add :
      (op : Opcode)
      → has_add64 op ≡ true
      → operand_value m op1 ≡ 0
      → C false op (deleted (draft op op0 op1 pool))
  deleted_add op is z =
      Returns-some (delete, _) (rw (has_add64-kind op is) (ap some (add_zero z), λ e. cc e))

  -- An answer that writes the sum, where the flags are not read.
  answer_add :
      (op op' : Opcode) (op1' : StaticOperand)
      → has_add64 op ≡ true
      → has_form op' op0 op1' ≡ true
      → SameEffect false
          (draft_effect cpu m (draft add64rr op0 op1 pool))
          (draft_effect cpu m (draft op' op0 op1' pool))
      → C false op (some (change, draft op' op0 op1' pool))
  answer_add op op' op1' is f e =
      Returns-some (change, _)
        (λ _. record { destination = refl; fits = f; same = rw (has_add64-kind op is) e })

  -- What an optional branch answers is correct.
  abbrev Branch : Opcode → Option Specialization → Type 0
  Branch op none = Unit
  Branch op (some s) = C false op s

  or_else-Correct :
      (op : Opcode) (o : Option Specialization) (s : Specialization)
      → Branch op o
      → C false op s
      → C false op (or_else o s)
  or_else-Correct op none s p q = q
  or_else-Correct op (some r) s p q = p

  reg_of-value :
      (o : StaticOperand) (r : Register) → reg_of o ≡ some r → m.regs r ≡ operand_value m o
  reg_of-value (reg_op r') r e = ap m.regs (sym (some-eq e))
  reg_of-value (mem_op ptr) r e = cc
  reg_of-value (imm_op imm) r e = cc

  module _ (imm : Immediate)
      (v : imm.val ≡ (cpu.run_add 64 (operand_value m op0) (operand_value m op1)).0) where
    moved_imm :
        (op : Opcode)
        → has_add64 op ≡ true
        → is_reg op0 ≡ true
        → C false op (use_imm (draft op op0 op1 pool) mov64ri imm)
    moved_imm op is f =
        answer_add op mov64ri (imm_op imm) is (ground (arith, f)) (ap some (sym v), λ e. cc e)

    moved_mem :
        (op : Opcode)
        → has_add64 op ≡ true
        → is_mem op0 ≡ true
        → Branch op
            (if fits32 imm.val then some (use_imm (draft op op0 op1 pool) mov64mi imm) else none)
    moved_mem op is f =
        if_cases (Branch op) (fits32 imm.val)
          (λ s.
            answer_add op mov64mi (imm_op imm) is (ground (arith, f, s))
              (ap some (sym v), λ e. cc e))
          (λ _. tt)

    zeroed :
        (op : Opcode)
        → has_add64 op ≡ true
        → is_reg op0 ≡ true
        → imm.val ≡ 0
        → C false op (use_same_reg (draft op op0 op1 pool) xor64rr)
    unfolding use_same_reg
    zeroed op is f z = Returns-bind (reg_of op0) λ r e.
        answer_add op xor64rr (reg_op r) is (ground (arith, f)) (
          ap some (sym v ∙ z ∙ rw (reg_of-value op0 r e) (sym (xor_same (operand_value m op0)))),
          λ e. cc e,
        )

    zero_or_moved :
        (op : Opcode)
        → has_add64 op ≡ true
        → is_reg op0 ≡ true
        → Branch op (
            if imm.val == 0
            then some (use_same_reg (draft op op0 op1 pool) xor64rr)
            else some (use_imm (draft op op0 op1 pool) mov64ri imm))
    zero_or_moved op is f =
        if_cases (Branch op) (imm.val == 0) (λ e. zeroed op is f ((==_iff imm.val 0).0 e))
          (λ _. moved_imm op is f)

    known_result-Correct :
        (op : Opcode)
        → has_add64 op ≡ true
        → has_form op op0 op1 ≡ true
        → Branch op (known_result (draft op op0 op1 pool) imm)
    unfolding known_result
    known_result-Correct add64mr is f = moved_mem add64mr is (ground (arith, f))
    known_result-Correct add64mi is f = moved_mem add64mi is (ground (arith, f))
    known_result-Correct add64rr is f = zero_or_moved add64rr is (ground (arith, f))
    known_result-Correct add64rm is f = zero_or_moved add64rm is (ground (arith, f))
    known_result-Correct add64ri is f = zero_or_moved add64ri is (ground (arith, f))
    known_result-Correct _ is f = cc

  zero_add :
      operand_value m op0 ≡ 0
      → (cpu.run_add 64 (operand_value m op0) (operand_value m op1)).0 ≡ operand_value m op1
  zero_add z = adds_mod _ _ ∙ omega (arith, z, small1, mod-eq_of_lt small1)

  add_to_zero-Correct :
      (op : Opcode)
      → has_add64 op ≡ true
      → has_form op op0 op1 ≡ true
      → operand_value m op0 ≡ 0
      → Branch op (add_to_zero (draft op op0 op1 pool))
  unfolding add_to_zero
  add_to_zero-Correct add64rr is f z =
      answer_add add64rr mov64rr op1 is f (ap some (zero_add z), λ e. cc e)
  add_to_zero-Correct add64mr is f z =
      answer_add add64mr mov64mr op1 is f (ap some (zero_add z), λ e. cc e)
  add_to_zero-Correct add64rm is f z =
      answer_add add64rm mov64rm op1 is f (ap some (zero_add z), λ e. cc e)
  add_to_zero-Correct add64mi is f z = tt
  add_to_zero-Correct add64ri is f z = tt
  add_to_zero-Correct _ is f z = cc

  module _ (mmap_fixed : ℕ → Bool) (maps : MapsPages mmap_fixed) (held : ConstantsHeld pool)
      (base : Bases) (usr_ptrs : List UsrPtrCfg) (u : UsrBases base usr_ptrs)
      (x y : DynamicOperandInfo) (rest : List DynamicOperandInfo)
      (p : Allows base y.input (operand_value m op1)) where
    add_rest-Correct :
        (eflags_read : Bool) (op : Opcode)
        → has_add64 op ≡ true
        → has_form op op0 op1 ≡ true
        → C eflags_read op
            (add_rest mmap_fixed usr_ptrs eflags_read (draft op op0 op1 pool) y.input)
    unfolding add_rest add_known
    add_rest-Correct eflags_read add64mr is f = Returns-bind (get_imm usr_ptrs y.input) (
        with_number cpu m eflags_read op0 op1 pool mmap_fixed maps held small1 base usr_ptrs u x y
          rest p add64mr _
          (λ imm v.
            imm_or_nothing cpu m eflags_read (draft add64mr op0 op1 pool) _ refl mmap_fixed maps
              held small1 imm v add64mi refl (λ e. cc e) (λ s. ground (arith, f, s))))
    add_rest-Correct eflags_read add64rr is f = Returns-bind (get_imm usr_ptrs y.input) (
        with_number cpu m eflags_read op0 op1 pool mmap_fixed maps held small1 base usr_ptrs u x y
          rest p add64rr _
          (λ imm v.
            imm_or_constant cpu m eflags_read (draft add64rr op0 op1 pool) _ refl mmap_fixed maps
              held small1 imm v add64ri add64rm refl refl (λ e. cc e) (λ s. ground (arith, f, s))
              (λ addr. ground (arith, f))))
    add_rest-Correct eflags_read add64rm is f = Returns-bind (get_imm usr_ptrs y.input) (
        with_number cpu m eflags_read op0 op1 pool mmap_fixed maps held small1 base usr_ptrs u x y
          rest p add64rm _
          (λ imm v.
            imm_or_constant cpu m eflags_read (draft add64rm op0 op1 pool) _ refl mmap_fixed maps
              held small1 imm v add64ri add64rm refl refl (λ e. cc e) (λ s. ground (arith, f, s))
              (λ addr. ground (arith, f))))
    add_rest-Correct eflags_read add64mi is f =
        unchanged-Correct cpu m eflags_read (draft add64mi op0 op1 pool)
    add_rest-Correct eflags_read add64ri is f =
        unchanged-Correct cpu m eflags_read (draft add64ri op0 op1 pool)
    add_rest-Correct eflags_read _ is f = cc

    zero_imm-value :
        (v : DynamicValue) (n : ℕ) (r : Option Immediate)
        → get_imm usr_ptrs v ≡ some r
        → Allows base v n
        → is_zero_imm r ≡ true
        → n ≡ 0
    zero_imm-value v n none e q z = cc
    zero_imm-value v n (some imm) e q z =
        sym (get_imm-value base usr_ptrs v n imm u q e) ∙ (==_iff imm.val 0).0 z

    module _ (q : Allows base x.input (operand_value m op0))
        (s : Allows base x.output
          (cpu.run_add 64 (operand_value m op0) (operand_value m op1)).0) where
      known-Branch :
          (op : Opcode) (r : Option Immediate)
          → has_add64 op ≡ true
          → has_form op op0 op1 ≡ true
          → get_imm usr_ptrs x.output ≡ some r
          → Branch op (when_known r (known_result (draft op op0 op1 pool)))
      known-Branch op none is f e = tt
      known-Branch op (some imm) is f e =
          known_result-Correct imm (get_imm-value base usr_ptrs x.output _ imm u s e) op is f

      add_unread-Correct :
          (op : Opcode)
          → has_add64 op ≡ true
          → has_form op op0 op1 ≡ true
          → C false op (add_unread mmap_fixed usr_ptrs false (draft op op0 op1 pool) x y)
      unfolding add_unread
      add_unread-Correct op is f = Returns-bind (get_imm usr_ptrs y.input) λ rhs e.
          if_cases (C false op) (is_zero_imm rhs)
            (λ z. deleted_add op is (zero_imm-value y.input _ rhs e p z))
            (λ _. Returns-bind (get_imm usr_ptrs x.output) λ result e'.
              or_else-Correct op (when_known result (known_result (draft op op0 op1 pool))) _
                (known-Branch op result is f e')
                (Returns-bind (get_imm usr_ptrs x.input) λ lhs e''.
                  or_else-Correct op
                    (if is_zero_imm lhs then add_to_zero (draft op op0 op1 pool) else none) _
                    (if_cases (Branch op) (is_zero_imm lhs)
                      (λ z. add_to_zero-Correct op is f (zero_imm-value x.input _ lhs e'' q z))
                      (λ _. tt))
                    (add_rest-Correct false op is f)))

      -- What the specialization of an `ADD64` returns, if it does.
      pub add64_answer-Correct :
          (eflags_read : Bool) (op : Opcode)
          → has_add64 op ≡ true
          → has_form op op0 op1 ≡ true
          → C eflags_read op (
              specialize_add64 mmap_fixed usr_ptrs eflags_read
                (draft op op0 op1 pool)
                (x ∷ y ∷ rest))
      unfolding specialize_add64 operand
      add64_answer-Correct true op is f = add_rest-Correct true op is f
      add64_answer-Correct false op is f = add_unread-Correct op is f
