-- ===== src/Specialize/Meaning/Same/Logic.antt =====
-- A specialized exclusive or, comparison or test does what the original one does.
use drob.Prelude.{
  ℕ, ◌<◌, ◌==◌, ◌≡◌, refl, arith, Bool, true, false, not, ◌&&◌, Option, none, some, ap,
  if◌then◌else◌, if_cases, List, ◌∷◌, ◌∙◌, sym, ==_iff,
}
use drob.Prelude.Returns.{Returns, Returns-some, Returns-if, Returns-bind}
use drob.Value.{u64}
use drob.Value.Laws.{Bases, Allows}
use drob.Memory.{Immediate, UsrPtrCfg}
use drob.BinaryPool.{BinaryPool}
use drob.BinaryPool.Pages.{MapsPages}
use drob.BinaryPool.Constants.{ConstantsHeld}
use drob.Emulator.{DynamicOperandInfo, Processor, operand}
use drob.Encoder.Operand.{fits32}
use drob.Encoder.Opcode.{
  Opcode, xor64rr, xor64rm, xor64mr, xor64mi, xor64ri, cmp64mr, cmp64mi, cmp64rm, cmp64rr, cmp64ri,
}
use drob.Instruction.{StaticOperand}
use drob.Specialize.{
  delete, Draft, Specialization, get_imm, unchanged, deleted, with_imm, same_register,
}
use drob.Specialize.Arith.{xor_known, specialize_xor64, is_plain}
use drob.Specialize.Compare.{cmp_known, cmp_constant, specialize_cmp64}
use drob.Specialize.Meaning.{Machine, operand_value, has_form, UsrBases, get_imm-value}
use drob.Specialize.Meaning.Same.{
  Correct, unchanged-Correct, imm_or_constant, imm_or_nothing, use_imm-Correct,
}

-- The opcodes with `xor64` and with `cmp64` in their rows of src/x86/Opcodes.inc.h.
abbrev pub has_xor64 : Opcode → Bool
has_xor64 xor64mr = true
has_xor64 xor64rr = true
has_xor64 xor64rm = true
has_xor64 xor64mi = true
has_xor64 xor64ri = true
has_xor64 _ = false

abbrev pub has_cmp64 : Opcode → Bool
has_cmp64 cmp64mr = true
has_cmp64 cmp64rr = true
has_cmp64 cmp64rm = true
has_cmp64 _ = false

abbrev pub draft : Opcode → StaticOperand → StaticOperand → BinaryPool → Draft
draft op op0 op1 pool = record { opcode = op; op0 = op0; op1 = op1; pool = pool }

module _ (cpu : Processor) (m : Machine) (eflags_read : Bool) (op0 op1 : StaticOperand)
    (pool : BinaryPool) (mmap_fixed : ℕ → Bool) (maps : MapsPages mmap_fixed)
    (held : ConstantsHeld pool) (small : operand_value m op1 < u64) where
  xor_known-Correct :
      (op : Opcode) (usr_ptrs : List UsrPtrCfg) (imm : Immediate)
      → has_form op op0 op1 ≡ true
      → imm.val ≡ operand_value m op1
      → Returns
          (Correct cpu m eflags_read (draft op op0 op1 pool))
          (xor_known mmap_fixed usr_ptrs eflags_read (draft op op0 op1 pool) imm)
  unfolding xor_known
  xor_known-Correct xor64mr usr_ptrs imm f v =
      imm_or_nothing cpu m eflags_read (draft xor64mr op0 op1 pool) _ refl mmap_fixed maps held
        small imm v xor64mi refl (λ e. cc e) (λ s. ground (arith, f, s))
  xor_known-Correct xor64rr usr_ptrs imm f v =
      imm_or_constant cpu m eflags_read (draft xor64rr op0 op1 pool) _ refl mmap_fixed maps held
        small imm v xor64ri xor64rm refl refl (λ e. cc e) (λ s. ground (arith, f, s))
        (λ addr. ground (arith, f))
  xor_known-Correct xor64rm usr_ptrs imm f v =
      imm_or_constant cpu m eflags_read (draft xor64rm op0 op1 pool) _ refl mmap_fixed maps held
        small imm v xor64ri xor64rm refl refl (λ e. cc e) (λ s. ground (arith, f, s))
        (λ addr. ground (arith, f))
  xor_known-Correct op usr_ptrs imm f v =
      unchanged-Correct cpu m eflags_read (draft op op0 op1 pool)

  -- An exclusive or with 0 whose flags are not read.
  deleted-Correct :
      (op : Opcode)
      → has_xor64 op ≡ true
      → eflags_read ≡ false
      → ((cpu.run_xor 64 (operand_value m op0) 0).0 ≡ operand_value m op0)
      → operand_value m op1 ≡ 0
      → Returns
          (Correct cpu m eflags_read (draft op op0 op1 pool))
          (deleted (draft op op0 op1 pool))
  deleted-Correct xor64mr is unread keeps z =
      Returns-some (delete, _) (ap some (rw (z, keeps) refl), λ e. cc (e, unread))
  deleted-Correct xor64rr is unread keeps z =
      Returns-some (delete, _) (ap some (rw (z, keeps) refl), λ e. cc (e, unread))
  deleted-Correct xor64rm is unread keeps z =
      Returns-some (delete, _) (ap some (rw (z, keeps) refl), λ e. cc (e, unread))
  deleted-Correct xor64mi is unread keeps z =
      Returns-some (delete, _) (ap some (rw (z, keeps) refl), λ e. cc (e, unread))
  deleted-Correct xor64ri is unread keeps z =
      Returns-some (delete, _) (ap some (rw (z, keeps) refl), λ e. cc (e, unread))
  deleted-Correct _ is unread keeps z = cc

  cmp_known-Correct :
      (op : Opcode) (usr_ptrs : List UsrPtrCfg) (imm : Immediate)
      → has_cmp64 op ≡ true
      → has_form op op0 op1 ≡ true
      → imm.val ≡ operand_value m op1
      → Returns
          (Correct cpu m eflags_read (draft op op0 op1 pool))
          (cmp_known mmap_fixed usr_ptrs (draft op op0 op1 pool) imm)
  unfolding cmp_known cmp_constant
  cmp_known-Correct cmp64mr usr_ptrs imm is f v =
      if_cases (Returns (Correct cpu m eflags_read (draft cmp64mr op0 op1 pool))) (fits32 imm.val)
        (λ s.
          use_imm-Correct cpu m eflags_read (draft cmp64mr op0 op1 pool) _ refl cmp64mi imm refl
            (λ e. cc e) (ground (arith, f, s)) v)
        (λ _.
          Returns-if (is_plain imm)
            (unchanged-Correct cpu m eflags_read (draft cmp64mr op0 op1 pool))
            (unchanged-Correct cpu m eflags_read (draft cmp64mr op0 op1 pool)))
  cmp_known-Correct cmp64rr usr_ptrs imm is f v =
      imm_or_constant cpu m eflags_read (draft cmp64rr op0 op1 pool) _ refl mmap_fixed maps held
        small imm v cmp64ri cmp64rm refl refl (λ e. cc e) (λ s. ground (arith, f, s))
        (λ addr. ground (arith, f))
  cmp_known-Correct cmp64rm usr_ptrs imm is f v =
      imm_or_constant cpu m eflags_read (draft cmp64rm op0 op1 pool) _ refl mmap_fixed maps held
        small imm v cmp64ri cmp64rm refl refl (λ e. cc e) (λ s. ground (arith, f, s))
        (λ addr. ground (arith, f))
  cmp_known-Correct _ usr_ptrs imm is f v = cc

  module _ (base : Bases) (usr_ptrs : List UsrPtrCfg) (u : UsrBases base usr_ptrs)
      (x y : DynamicOperandInfo) (rest : List DynamicOperandInfo)
      (p : Allows base y.input (operand_value m op1)) where
    xor_unread_or_known :
        (op : Opcode) (imm : Immediate)
        → has_xor64 op ≡ true
        → has_form op op0 op1 ≡ true
        → ((cpu.run_xor 64 (operand_value m op0) 0).0 ≡ operand_value m op0)
        → imm.val ≡ operand_value m op1
        → Returns (Correct cpu m eflags_read (draft op op0 op1 pool)) (
            if (imm.val == 0) && not eflags_read
            then deleted (draft op op0 op1 pool)
            else xor_known mmap_fixed usr_ptrs eflags_read (draft op op0 op1 pool) imm)
    xor_unread_or_known op imm is f keeps v =
        if_cases (Returns (Correct cpu m eflags_read (draft op op0 op1 pool)))
          ((imm.val == 0) && not eflags_read)
          (λ e.
            deleted-Correct op is (ground (arith, e)) keeps
              (sym v ∙ (==_iff imm.val 0).0 (ground (arith, e))))
          (λ _. xor_known-Correct op usr_ptrs imm f v)

    -- The call of `getImm` for operand 1.
    pub with_number :
        (op : Opcode) (f : Immediate → Specialization)
        → ((imm : Immediate)
            → imm.val ≡ operand_value m op1
            → Returns (Correct cpu m eflags_read (draft op op0 op1 pool)) (f imm))
        → (r : Option Immediate) → get_imm usr_ptrs y.input ≡ some r
        → Returns
            (Correct cpu m eflags_read (draft op op0 op1 pool))
            (elim r [ none ↦ unchanged (draft op op0 op1 pool) | some imm ↦ f imm ])
    with_number op f g none e = unchanged-Correct cpu m eflags_read (draft op op0 op1 pool)
    with_number op f g (some imm) e = g imm (get_imm-value base usr_ptrs y.input _ imm u p e)

    -- What the specialization of an `XOR64` returns, if it does.
    pub xor64_answer-Correct :
        (op : Opcode)
        → has_xor64 op ≡ true
        → has_form op op0 op1 ≡ true
        → ((cpu.run_xor 64 (operand_value m op0) 0).0 ≡ operand_value m op0)
        → Returns (Correct cpu m eflags_read (draft op op0 op1 pool)) (
            specialize_xor64 mmap_fixed usr_ptrs eflags_read (draft op op0 op1 pool) (x ∷ y ∷ rest))
    unfolding specialize_xor64 operand
    xor64_answer-Correct op is f keeps =
        let d = draft op op0 op1 pool in
        Returns-bind (elim op [ xor64rr ↦ same_register d | _ ↦ some false ])
          λ same _. Returns-if same (unchanged-Correct cpu m eflags_read d) (
            Returns-bind (get_imm usr_ptrs y.input)
              (with_number op _ (λ imm v. xor_unread_or_known op imm is f keeps v)))

    -- What the specialization of a `CMP64` returns, if it does.
    pub cmp64_answer-Correct :
        (op : Opcode)
        → has_cmp64 op ≡ true
        → has_form op op0 op1 ≡ true
        → Returns
            (Correct cpu m eflags_read (draft op op0 op1 pool))
            (specialize_cmp64 mmap_fixed usr_ptrs (draft op op0 op1 pool) (x ∷ y ∷ rest))
    unfolding specialize_cmp64 operand with_imm
    cmp64_answer-Correct op is f =
        Returns-bind (get_imm usr_ptrs y.input)
          (with_number op _ (λ imm v. cmp_known-Correct op usr_ptrs imm is f v))
