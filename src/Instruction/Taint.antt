-- ===== src/Instruction/Taint.antt =====
-- A stack pointer that an instruction reads is never lost by the generic emulation.
use drob.Encoder.Operand.{length}
use drob.Encoder.Length.{length-++}
use drob.Prelude.{
  ℕ, suc, ◌<◌, ◌≤◌, sym, subst, ◌∙◌, ◌==◌, ◌≡◌, refl, ap, arith, Bool, true, false, ◌||◌, ◌&&◌, not,
  Option, some, List, [], ◌∷◌, ◌++◌, >>=-eq-some, some-eq,
}
use drob.Value.{tainted_value}
use drob.Value.Laws.{may_be_stack}
use drob.Registers.{Register, RegisterAccessType}
use drob.Memory.{UsrPtrCfg}
use drob.MemProtCache.{MemoryRange, MemCfg}
use drob.Liveness.{Mask}
use drob.Program.{ProgramState}
use drob.Predicate.{will_execute}
use drob.Emulator.{DynamicOperandInfo, ok}
use drob.Instruction.{OpcodeInfo, StaticOperand, OperandInfo, Refine, get_info}
use drob.Instruction.Dynamic.{
  DynamicInstructionInfo, count_input, add_masks, create_dyn_op_info, dyn_operands, gen_dyn_info,
  refine_of, predicate_of, take_operand, new_info,
}
use drob.Instruction.Emulate.{emulate_generic, with_outputs}

-- Some operand is read and may hold a stack pointer.
abbrev pub reads_stack_ptr : List DynamicOperandInfo → Bool
reads_stack_ptr [] = false
reads_stack_ptr (o ∷ ops) = (o.is_input && may_be_stack o.input) || reads_stack_ptr ops

-- All operands that are written have the output tainted.
abbrev pub AllTainted : List DynamicOperandInfo → Type 0
AllTainted [] = Unit
AllTainted (o ∷ ops) = (o.is_output ≡ true → o.output ≡ tainted_value) × AllTainted ops

abbrev counted : DynamicInstructionInfo → Bool
counted d = not (d.num_input_tainted == 0) || not (d.num_input_stack_ptr == 0)

with_outputs-AllTainted :
    (ops : List DynamicOperandInfo) → AllTainted (with_outputs ops tainted_value)
with_outputs-AllTainted [] = tt
with_outputs-AllTainted (o ∷ ops) = (ground arith, with_outputs-AllTainted ops)

reads_stack_ptr-snoc :
    (ops : List DynamicOperandInfo) (o : DynamicOperandInfo)
    → reads_stack_ptr (ops ++ o ∷ [])
      ≡ (reads_stack_ptr ops || (o.is_input && may_be_stack o.input))
reads_stack_ptr-snoc [] o = ground arith
reads_stack_ptr-snoc (p ∷ ops) o = ground (arith, reads_stack_ptr-snoc ops o)

or_mono : (b c d : Bool) → (b ≡ true → c ≡ true) → (b || d) ≡ true → (c || d) ≡ true
or_mono b c d f h = ground arith

-- The counts grow, and count an operand that may hold a stack pointer.
count_input-counted :
    (d : DynamicInstructionInfo) (o : DynamicOperandInfo)
    → d.num_input_tainted < 15
    → d.num_input_stack_ptr < 15
    → (counted d || (o.is_input && may_be_stack o.input)) ≡ true
    → counted (count_input d o) ≡ true
unfolding count_input
count_input-counted d o t s h = ground arith

-- The counts are at most a number of operands.
record AtMost (n : ℕ) (d : DynamicInstructionInfo) : Type 0 where
  tainted : d.num_input_tainted ≤ n
  stack_ptr : d.num_input_stack_ptr ≤ n

count_input-AtMost :
    (n : ℕ) (d : DynamicInstructionInfo) (o : DynamicOperandInfo)
    → AtMost n d
    → AtMost (suc n) (count_input d o)
unfolding count_input
count_input-AtMost n d o a = record {
  tainted = ground (arith, a.tainted);
  stack_ptr = ground (arith, a.stack_ptr);
}

length-snoc {ℓ} : {A : Type ℓ} (xs : List A) (x : A) → length (xs ++ x ∷ []) ≡ suc (length xs)
length-snoc xs x = omega (arith, length-++ xs (x ∷ []))

count_input-operands :
    (d : DynamicInstructionInfo) (o : DynamicOperandInfo) → (count_input d o).operands ≡ d.operands
unfolding count_input
count_input-operands d o = ground arith

module _ (mask_of : Register → RegisterAccessType → Mask) where
  add_masks_counts :
      (d : DynamicInstructionInfo) (o : OperandInfo) (dyn : DynamicOperandInfo)
      → (counted (add_masks mask_of d o dyn) ≡ counted d)
        × ((add_masks mask_of d o dyn).operands ≡ d.operands)
        × ((add_masks mask_of d o dyn).num_input_tainted ≡ d.num_input_tainted)
        × ((add_masks mask_of d o dyn).num_input_stack_ptr ≡ d.num_input_stack_ptr)
  unfolding add_masks
  add_masks_counts d o dyn = (ground arith, ground arith, ground arith, ground arith)

  take_operand-counted :
      (d : DynamicInstructionInfo) (o : OperandInfo) (dyn : DynamicOperandInfo)
      → AtMost 14 d
      → (reads_stack_ptr d.operands ≡ true → counted d ≡ true)
      → reads_stack_ptr (take_operand mask_of d o dyn).operands ≡ true
      → counted (take_operand mask_of d o dyn) ≡ true
  unfolding take_operand
  take_operand-counted d o dyn few inv seen =
      let c = count_input d dyn in
      let m = add_masks_counts c o dyn in
      let seen' =
        rw (m.1, count_input-operands d dyn, reads_stack_ptr-snoc d.operands dyn) at seen in
      rw m.0 (
        count_input-counted d dyn (omega (arith, few.tainted)) (omega (arith, few.stack_ptr))
          (or_mono _ _ _ inv seen'))

  take_operand-AtMost :
      (d : DynamicInstructionInfo) (o : OperandInfo) (dyn : DynamicOperandInfo)
      → AtMost (length d.operands) d
      → AtMost (suc (length d.operands)) (take_operand mask_of d o dyn)
        × (length (take_operand mask_of d o dyn).operands ≡ suc (length d.operands))
  unfolding take_operand
  take_operand-AtMost d o dyn a =
      let c = count_input d dyn in
      let m = add_masks_counts c o dyn in
      let n = count_input-AtMost (length d.operands) d dyn a in
      (
        record {
          tainted = omega (arith, m.2, n.tainted);
          stack_ptr = omega (arith, m.3, n.stack_ptr);
        },
        length-snoc (add_masks mask_of c o dyn).operands dyn
            ∙ ap (λ (q : List DynamicOperandInfo). suc (length q))
                (m.1 ∙ count_input-operands d dyn),
      )

module _ (memory : ℕ → ℕ) (ranges : List MemoryRange) (mems : List MemCfg)
    (usr_ptrs : List UsrPtrCfg) (mask_of : Register → RegisterAccessType → Mask) where
  dyn_operands-length :
      (refine : Option Refine) (ops : List StaticOperand) (infos : List OperandInfo)
      (d : DynamicInstructionInfo) (ps : ProgramState) {r : DynamicInstructionInfo × ProgramState}
      → dyn_operands memory ranges mems usr_ptrs mask_of refine ops infos d ps ≡ some r
      → AtMost (length d.operands) d
      → length d.operands ≤ length r.0.operands
  unfolding dyn_operands
  dyn_operands-length refine ops [] d ps h a =
      rw (← ap (λ (q : DynamicInstructionInfo × ProgramState). q.0) (some-eq h)) (omega arith)
  dyn_operands-length refine ops (o ∷ infos) d ps h a =
      let (q, _, k) =
        >>=-eq-some (create_dyn_op_info memory ranges mems usr_ptrs refine ops o ps) _ h in
      let (b, l) = take_operand-AtMost mask_of d o q.0 a in
      let m =
        dyn_operands-length refine ops infos _ q.1 k
          (subst (λ (n : ℕ). AtMost n (take_operand mask_of d o q.0)) (sym l) b) in
      omega (arith, l, m)

  -- What is read is counted.
  dyn_operands-counted :
      (refine : Option Refine) (ops : List StaticOperand) (infos : List OperandInfo)
      (d : DynamicInstructionInfo) (ps : ProgramState) {r : DynamicInstructionInfo × ProgramState}
      → dyn_operands memory ranges mems usr_ptrs mask_of refine ops infos d ps ≡ some r
      → AtMost (length d.operands) d
      → length r.0.operands < 16
      → (reads_stack_ptr d.operands ≡ true → counted d ≡ true)
      → reads_stack_ptr r.0.operands ≡ true
      → counted r.0 ≡ true
  unfolding dyn_operands
  dyn_operands-counted refine ops [] d ps h a few inv =
      rw (← ap (λ (q : DynamicInstructionInfo × ProgramState). q.0) (some-eq h)) inv
  dyn_operands-counted refine ops (o ∷ infos) d ps h a few inv =
      let (q, _, k) =
        >>=-eq-some (create_dyn_op_info memory ranges mems usr_ptrs refine ops o ps) _ h in
      let (b, l) = take_operand-AtMost mask_of d o q.0 a in
      let b' = subst (λ (n : ℕ). AtMost n (take_operand mask_of d o q.0)) (sym l) b in
      let m = dyn_operands-length refine ops infos _ q.1 k b' in
      let few' : AtMost 14 d = record {
        tainted = omega (arith, a.tainted, l, m, few);
        stack_ptr = omega (arith, a.stack_ptr, l, m, few);
      } in
      dyn_operands-counted refine ops infos _ q.1 k b' few
        (take_operand-counted mask_of d o q.0 few' inv)

  -- If the operands of an instruction are found in a state, there are fewer than 16, as many as the
  -- counters of 4 bits can hold, and one that is read may hold a stack pointer or a piece of one,
  -- then the generic emulation returns the operands with the output of each that is written tainted.
  pub emulate_generic-AllTainted :
      (info : Option OpcodeInfo) (ops : List StaticOperand) (ps : ProgramState)
      {r : DynamicInstructionInfo × ProgramState}
      → gen_dyn_info memory ranges mems usr_ptrs mask_of info ops ps ≡ some r
      → length r.0.operands < 16
      → reads_stack_ptr r.0.operands ≡ true
      → (ops' : List DynamicOperandInfo) × (emulate_generic r.0 ≡ some (ops', ok)) × AllTainted ops'
  unfolding gen_dyn_info emulate_generic
  emulate_generic-AllTainted info ops ps {r} h few seen =
      let (i, _, h1) = >>=-eq-some (get_info mask_of info ops) _ h in
      let (t, _, h2) = >>=-eq-some (will_execute (predicate_of info) ps) _ h1 in
      let c =
        dyn_operands-counted (refine_of info) ops i.operands (new_info t i) ps h2
          (record { tainted = omega arith; stack_ptr = omega arith }) few (λ e. cc e) seen in
      rw c (_, refl, with_outputs-AllTainted r.0.operands)
