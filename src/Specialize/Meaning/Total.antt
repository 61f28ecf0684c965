-- ===== src/Specialize/Meaning/Total.antt =====
-- The specialization of an exclusive or and of a comparison returns, and what it returns is correct.
pub mod Add
use drob.Prelude.{
  ℕ, ◌<◌, ◌==◌, ◌≡◌, refl, arith, Bool, true, false, not, ◌&&◌, Option, none, some, ◌>>=◌,
  if◌then◌else◌, List, ◌∷◌,
}
use drob.Prelude.Returns.{Returns}
use drob.Value.{u64}
use drob.Value.Laws.{Bases, Allows}
use drob.Registers.{Register}
use drob.Memory.{Immediate, UsrPtrCfg}
use drob.BinaryPool.{BinaryPool, alloc_constant64}
use drob.BinaryPool.Pages.{MapsPages}
use drob.BinaryPool.Constants.{ConstantsHeld}
use drob.Emulator.{DynamicOperandInfo, Processor, operand}
use drob.Encoder.Operand.{fits32}
use drob.Encoder.Opcode.{Opcode, xor64rr, xor64rm, xor64mr, cmp64mr, cmp64rm, cmp64rr}
use drob.Instruction.{StaticOperand, reg_op, mem_op, imm_op}
use drob.Specialize.{
  SpecRet, Draft, Specialization, get_imm, unchanged, with_imm, same_register, use_constant64,
}
use drob.Specialize.Arith.{xor_known, specialize_xor64, is_plain}
use drob.Specialize.Compare.{cmp_known, cmp_constant, specialize_cmp64}
use drob.Specialize.Meaning.{Machine, operand_value, has_form, is_reg, UsrBases}
use drob.Specialize.Meaning.Same.{Correct}
use drob.Specialize.Meaning.Same.Logic.{
  draft, has_xor64, has_cmp64, xor64_answer-Correct, cmp64_answer-Correct,
}

-- A call that does not throw.
abbrev pub Defined {ℓ} : {A : Type ℓ} → Option A → Type ℓ
Defined {A = A} o = (a : A) × (o ≡ some a)

pub if-Defined {ℓ} :
    {A : Type ℓ} (b : Bool) {x y : Option A} → Defined x → Defined y → Defined (if b then x else y)
if-Defined true p q = p
if-Defined false p q = q

pub bind-Defined {ℓ κ} :
    {A : Type ℓ} {B : Type κ} (o : Option A) {f : A → Option B}
    → Defined o
    → ((a : A) → Defined (f a))
    → Defined (o >>= f)
bind-Defined o (a, e) g = rw e (g a)

-- A call that returns, with what holds of its result.
pub with_result {ℓ κ} :
    {A : Type ℓ} {P : A → Type κ} {o : Option A}
    → Defined o
    → Returns P o
    → (a : A) × (o ≡ some a) × P a
with_result (a, e) r = (a, e, r.result a e)

-- The pool has room for one more constant.
abbrev pub HasRoom : (ℕ → Bool) → BinaryPool → Type 0
HasRoom mmap_fixed pool = (val : ℕ) → Defined (alloc_constant64 mmap_fixed pool val)

pub is_reg-Defined : (o : StaticOperand) → is_reg o ≡ true → (r : Register) × (o ≡ reg_op r)
is_reg-Defined (reg_op r) is = (r, refl)
is_reg-Defined (mem_op ptr) is = cc
is_reg-Defined (imm_op imm) is = cc

module _ (mmap_fixed : ℕ → Bool) (usr_ptrs : List UsrPtrCfg) (op0 op1 : StaticOperand)
    (pool : BinaryPool) (room : HasRoom mmap_fixed pool) where
  pub constant-Defined :
      (op op' : Opcode) (val : ℕ)
      → Defined (use_constant64 mmap_fixed (draft op op0 op1 pool) op' val)
  unfolding use_constant64
  constant-Defined op op' val =
      bind-Defined (alloc_constant64 mmap_fixed pool val) (room val) (λ r. (_, refl))

  xor_known-Defined :
      (eflags_read : Bool) (op : Opcode) (imm : Immediate)
      → Defined (xor_known mmap_fixed usr_ptrs eflags_read (draft op op0 op1 pool) imm)
  unfolding xor_known
  xor_known-Defined eflags_read xor64mr imm = if-Defined (fits32 imm.val) (_, refl) (_, refl)
  xor_known-Defined eflags_read xor64rr imm =
      if-Defined (fits32 imm.val) (_, refl)
        (if-Defined (is_plain imm) (constant-Defined xor64rr xor64rm imm.val) (_, refl))
  xor_known-Defined eflags_read xor64rm imm =
      if-Defined (fits32 imm.val) (_, refl)
        (if-Defined (is_plain imm) (constant-Defined xor64rm xor64rm imm.val) (_, refl))
  xor_known-Defined eflags_read _ imm = (_, refl)

  cmp_known-Defined :
      (op : Opcode) (imm : Immediate)
      → has_cmp64 op ≡ true
      → Defined (cmp_known mmap_fixed usr_ptrs (draft op op0 op1 pool) imm)
  unfolding cmp_known cmp_constant
  cmp_known-Defined cmp64mr imm is =
      if-Defined (fits32 imm.val) (_, refl) (if-Defined (is_plain imm) (_, refl) (_, refl))
  cmp_known-Defined cmp64rr imm is =
      if-Defined (fits32 imm.val) (_, refl)
        (if-Defined (is_plain imm) (constant-Defined cmp64rr cmp64rm imm.val) (_, refl))
  cmp_known-Defined cmp64rm imm is =
      if-Defined (fits32 imm.val) (_, refl)
        (if-Defined (is_plain imm) (constant-Defined cmp64rm cmp64rm imm.val) (_, refl))
  cmp_known-Defined _ imm is = absurd (ground arith)

  same-Defined :
      (op : Opcode)
      → has_form op op0 op1 ≡ true
      → (let d = draft op op0 op1 pool in
          Defined (elim d.opcode [ xor64rr ↦ same_register d | _ ↦ some false ]))
  same-Defined xor64rr h =
      let (r, e) = is_reg-Defined op0 (ground (arith, h)) in
      let (r', e') = is_reg-Defined op1 (ground (arith, h)) in rw (e, e') (_, refl)
  same-Defined _ h = (_, refl)

  pub number-Defined :
      (d : Draft) (f : Immediate → Specialization)
      → ((imm : Immediate) → Defined (f imm))
      → (r : Option Immediate) → Defined (elim r [ none ↦ unchanged d | some imm ↦ f imm ])
  number-Defined d f g none = (_, refl)
  number-Defined d f g (some imm) = g imm

  module _ (x y : DynamicOperandInfo) (rest : List DynamicOperandInfo)
      (readable : Defined (get_imm usr_ptrs y.input)) where
    xor64-Defined :
        (eflags_read : Bool) (op : Opcode)
        → has_form op op0 op1 ≡ true
        → Defined (
            specialize_xor64 mmap_fixed usr_ptrs eflags_read (draft op op0 op1 pool) (x ∷ y ∷ rest))
    unfolding specialize_xor64 operand
    xor64-Defined eflags_read op h = bind-Defined _ (same-Defined op h) λ same.
        if-Defined same (_, refl)
          (bind-Defined _ readable (
            number-Defined _ _ (λ imm.
              if-Defined ((imm.val == 0) && not eflags_read) (_, refl)
                (xor_known-Defined eflags_read op imm))))

    cmp64-Defined :
        (op : Opcode)
        → has_cmp64 op ≡ true
        → Defined (specialize_cmp64 mmap_fixed usr_ptrs (draft op op0 op1 pool) (x ∷ y ∷ rest))
    unfolding specialize_cmp64 operand with_imm
    cmp64-Defined op is =
        bind-Defined _ readable (number-Defined _ _ (λ imm. cmp_known-Defined op imm is))

    module _ (cpu : Processor) (m : Machine) (maps : MapsPages mmap_fixed)
        (held : ConstantsHeld pool) (small : operand_value m op1 < u64) (base : Bases)
        (u : UsrBases base usr_ptrs) (p : Allows base y.input (operand_value m op1)) where
      -- If the machine gives operand 1 a number below 2 ^ 64 that its tracked input allows, `getImm` can
      -- read the input, the user's pointers are those of the run, the pool holds its constants and has
      -- room for one more, the operands have the form of the opcode, and the exclusive or with 0 keeps
      -- the number of operand 0, then the specialization of an `XOR64` returns, and its answer is correct
      -- on the machine: the instruction as it is, one with the same destination and effect whose operands
      -- have the form of its opcode, with an immediate of 32 bits where the form has one, or the deletion
      -- of one that has no effect but on flags that are not read.
      pub specialize_xor64-Correct :
          (eflags_read : Bool) (op : Opcode)
          → has_xor64 op ≡ true
          → has_form op op0 op1 ≡ true
          → ((cpu.run_xor 64 (operand_value m op0) 0).0 ≡ operand_value m op0)
          → (s : SpecRet × Draft) × (specialize_xor64 mmap_fixed usr_ptrs eflags_read
                (draft op op0 op1 pool)
                (x ∷ y ∷ rest)
              ≡ some s)
            × Correct cpu m eflags_read (draft op op0 op1 pool) s
      specialize_xor64-Correct eflags_read op is h keeps =
          with_result (xor64-Defined eflags_read op h) (
            xor64_answer-Correct cpu m eflags_read op0 op1 pool mmap_fixed maps held small base
              usr_ptrs u x y rest p op is h keeps)

      -- If the machine gives operand 1 a number below 2 ^ 64 that its tracked input allows, `getImm` can
      -- read the input, the user's pointers are those of the run, the pool holds its constants and has
      -- room for one more, and the operands have the form of the opcode, then the specialization of a
      -- `CMP64` returns, and its answer is correct on the machine: the instruction as it is, or one with
      -- the same first operand and flags whose operands have the form of its opcode, with an immediate of
      -- 32 bits where the form has one.
      pub specialize_cmp64-Correct :
          (op : Opcode)
          → has_cmp64 op ≡ true
          → has_form op op0 op1 ≡ true
          → (s : SpecRet × Draft) × (specialize_cmp64 mmap_fixed usr_ptrs
                (draft op op0 op1 pool)
                (x ∷ y ∷ rest)
              ≡ some s)
            × Correct cpu m true (draft op op0 op1 pool) s
      specialize_cmp64-Correct op is h = with_result (cmp64-Defined op is) (
          cmp64_answer-Correct cpu m true op0 op1 pool mmap_fixed maps held small base usr_ptrs u x
            y rest p op is h)
