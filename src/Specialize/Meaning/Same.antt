-- ===== src/Specialize/Meaning/Same.antt =====
-- A specialized instruction does what the original one does.
pub mod Add
pub mod Logic
use drob.Prelude.{
  ℕ, ◌+◌, ◌%◌, ◌^◌, ◌<◌, ◌==◌, ◌≡◌, refl, arith, Bool, true, false, not, ◌&&◌, Option, none, some,
  ◌>>=◌, >>=-eq-some, some-eq, ap, if◌then◌else◌, if_cases, List, [], ◌∷◌, none-ne-some, ◌∙◌, sym,
  ◌⊎◌, inl, inr, ==_iff, Option-cases, ◌≢◌,
}
use drob.Prelude.Returns.{Returns, Returns-none, Returns-some, Returns-if, Returns-bind}
use drob.Prelude.Bytes.{load}
use drob.Value.{DynamicValue, u64}
use drob.Value.Laws.{Bases, Allows}
use drob.Memory.{Immediate, UsrPtrCfg}
use drob.BinaryPool.{BinaryPool, alloc_constant64, alloc_bytes, find_constant}
use drob.BinaryPool.Pages.{MapsPages}
use drob.BinaryPool.Constants.{ConstantsHeld, alloc_constant64-held, alloc_constant64-found}
use drob.Emulator.{DynamicOperandInfo, Processor, operand}
use drob.Encoder.Operand.{fits32}
use drob.Encoder.Opcode.{
  Opcode, xor64rr, xor64rm, xor64mr, xor64mi, xor64ri, cmp64mr, cmp64mi, cmp64rm, cmp64rr, cmp64ri,
  mov64ri,
}
use drob.Instruction.{StaticOperand, reg_op, mem_op, imm_op}
use drob.Specialize.{
  SpecRet, no_change, change, delete, Draft, Specialization, get_imm, unchanged, use_imm, deleted,
  pool_operand, use_constant64, with_imm,
}
use drob.Specialize.Arith.{xor_known, specialize_xor64, is_plain}
use drob.Specialize.Compare.{cmp_known, cmp_constant, specialize_cmp64}
use drob.Specialize.Meaning.{
  Machine, operand_value, kind_of, kind_effect, Kind, draft_effect, no_effect, SameEffect, Effect,
  effect_of, has_form, UsrBases, get_imm-value, xors, compares,
}

-- The machine's memory has the constants of a pool where the pool has them.
abbrev pub HasConstants : Machine → BinaryPool → Type 0
HasConstants m p =
    (val addr : ℕ)
    → find_constant p.map64 val ≡ some addr
    → load 8 addr m.mem ≡ load 8 addr p.memory

-- The new draft writes to the same operand, its operands have the form of its opcode, and it has the
-- effect of the old one.
pub record Replaces (cpu : Processor) (m : Machine) (eflags_read : Bool) (d d' : Draft)
    : Type 0 where
  pub destination : d'.op0 ≡ d.op0
  pub fits : has_form d'.opcode d'.op0 d'.op1 ≡ true
  pub same : SameEffect eflags_read (draft_effect cpu m d) (draft_effect cpu m d')

-- What a specialization may answer: nothing new, a draft with the same effect, or that the instruction
-- has none, on a machine that has the pool's constants.
abbrev pub Correct : Processor → Machine → Bool → Draft → SpecRet × Draft → Type 0
Correct cpu m eflags_read d (no_change, d') = d' ≡ d
Correct cpu m eflags_read d (change, d') = HasConstants m d'.pool → Replaces cpu m eflags_read d d'
Correct cpu m eflags_read d (delete, d') =
    SameEffect eflags_read (draft_effect cpu m d) (some (no_effect (operand_value m d.op0)))

module _ (cpu : Processor) (m : Machine) (eflags_read : Bool) where
  pub unchanged-Correct : (d : Draft) → Returns (Correct cpu m eflags_read d) (unchanged d)
  unchanged-Correct d = Returns-some (no_change, d) refl

  pub same_kind :
      (k : Option Kind) (a b b' : ℕ)
      → k ≢ none
      → b' ≡ b
      → SameEffect eflags_read (kind_effect cpu k a b) (kind_effect cpu k a b')
  same_kind none a b b' n e = absurd (n refl)
  same_kind (some k) a b b' n e = rw e (refl, λ _. refl)

  module _ (d : Draft) (b : ℕ) (h : operand_value m d.op1 ≡ b) where
    -- Another opcode of the same kind, with an operand 1 that stands for the same number.
    pub use_imm-Correct :
        (op : Opcode) (imm : Immediate)
        → kind_of op ≡ kind_of d.opcode
        → kind_of d.opcode ≢ none
        → has_form op d.op0 (imm_op imm) ≡ true
        → imm.val ≡ b
        → Returns (Correct cpu m eflags_read d) (use_imm d op imm)
    use_imm-Correct op imm k n f v =
        Returns-some (change, _)
          (λ _. record {
            destination = refl;
            fits = f;
            same = rw k (
                same_kind (kind_of d.opcode) (operand_value m d.op0) (operand_value m d.op1) imm.val
                  n (v ∙ sym h));
          })

    pub use_constant64-Correct :
        (mmap_fixed : ℕ → Bool) (op : Opcode) (val : ℕ)
        → MapsPages mmap_fixed
        → ConstantsHeld d.pool
        → b < u64
        → kind_of op ≡ kind_of d.opcode
        → kind_of d.opcode ≢ none
        → ((addr : ℕ) → has_form op d.op0 (pool_operand addr) ≡ true)
        → val ≡ b
        → Returns (Correct cpu m eflags_read d) (use_constant64 mmap_fixed d op val)
    unfolding use_constant64
    use_constant64-Correct mmap_fixed op val maps held small k n f v =
        Returns-bind (alloc_constant64 mmap_fixed d.pool val) λ r e.
          Returns-some (change, _)
            (λ has. record {
              destination = refl;
              fits = f r.0;
              same =
                  let there = has val r.0 (alloc_constant64-found mmap_fixed d.pool val r e) in
                  let loaded =
                    there ∙ (alloc_constant64-held mmap_fixed d.pool r.1 val r.0 maps held e).0 in
                  let value : load 8 r.0 m.mem ≡ operand_value m d.op1 =
                    omega (arith, loaded, h, v, small) in
                  rw k (
                    same_kind (kind_of d.opcode) (operand_value m d.op0) (operand_value m d.op1)
                      (load 8 r.0 m.mem) n value);
            })

    module _ (mmap_fixed : ℕ → Bool) (maps : MapsPages mmap_fixed) (held : ConstantsHeld d.pool)
        (small : b < u64) (imm : Immediate) (v : imm.val ≡ b) where
      -- An immediate if it fits, a constant of the pool if it is a plain number, and else nothing.
      pub imm_or_constant :
          (op op' : Opcode)
          → kind_of op ≡ kind_of d.opcode
          → kind_of op' ≡ kind_of d.opcode
          → kind_of d.opcode ≢ none
          → (fits32 imm.val ≡ true → has_form op d.op0 (imm_op imm) ≡ true)
          → ((addr : ℕ) → has_form op' d.op0 (pool_operand addr) ≡ true)
          → Returns (Correct cpu m eflags_read d) (
              if fits32 imm.val
              then use_imm d op imm
              else if is_plain imm
              then use_constant64 mmap_fixed d op' imm.val
              else unchanged d)
      imm_or_constant op op' k k' n fi fc =
          if_cases (Returns (Correct cpu m eflags_read d)) (fits32 imm.val)
            (λ f. use_imm-Correct op imm k n (fi f) v)
            (λ _.
              Returns-if (is_plain imm)
                (use_constant64-Correct mmap_fixed op' imm.val maps held small k' n fc v)
                (unchanged-Correct d))

      pub imm_or_nothing :
          (op : Opcode)
          → kind_of op ≡ kind_of d.opcode
          → kind_of d.opcode ≢ none
          → (fits32 imm.val ≡ true → has_form op d.op0 (imm_op imm) ≡ true)
          → Returns
              (Correct cpu m eflags_read d)
              (if fits32 imm.val then use_imm d op imm else unchanged d)
      imm_or_nothing op k n fi =
          if_cases (Returns (Correct cpu m eflags_read d)) (fits32 imm.val)
            (λ f. use_imm-Correct op imm k n (fi f) v) (λ _. unchanged-Correct d)
