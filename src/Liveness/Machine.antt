-- ===== src/Liveness/Machine.antt =====
-- A machine that runs the instructions, independent of the analysis: subregisters with values, memory,
-- and where an instruction goes. It models no code.
use drob.Prelude.{ℕ, ◌<◌, ◌≡◌, ◌⊎◌, true, false, Option, none, some, List, [], ◌∷◌}
use drob.Predicate.{TriState, tri_true, tri_false}
use drob.Liveness.{
  Mask, Instruction, ControlFlow, other, call, ret, branch, effects, execution_of, add_mask,
  RegisterEffects, LivenessData, fill_mask, zero_mask, add_known,
}

-- Where an instruction goes: to the next one, to a block, back to the caller, or into unknown code.
pub data Exit : Type 0 where
  goes_on returns leaves : Exit
  to_block : ℕ → Exit

pub record State (V M : Type 0) : Type 0 where
  pub regs : ℕ → V
  pub mem : M

-- Two states that hold the same in the subregisters of a mask, and in memory.
pub record Agree {V M : Type 0} (bits : ℕ) (mask : Mask) (s t : State V M) : Type 0 where
  pub reg : (r : ℕ) → r < bits → mask r ≡ true → s.regs r ≡ t.regs r
  pub mem : s.mem ≡ t.mem

abbrev pub Exec : Type 0 → Type 0 → Type 0
Exec V M = Instruction → State V M → Exit × State V M

-- The subregisters that decide what an instruction does.
abbrev pub inputs : TriState → RegisterEffects → Mask
inputs tri_false e = e.predicate_regs
inputs _ e = add_mask e.read_regs e.predicate_regs

abbrev pub IsExecuted : TriState → Type 0
IsExecuted tri_false = ⊥
IsExecuted _ = Unit

-- The exits that the control flow of an instruction that may be executed has: a return is not
-- conditional.
abbrev pub Allowed : ControlFlow → Exit → Type 0
Allowed other goes_on = Unit
Allowed call goes_on = Unit
Allowed (branch (some dst)) goes_on = Unit
Allowed (branch none) goes_on = Unit
Allowed (branch (some dst)) (to_block b) = b ≡ dst
Allowed (branch none) leaves = Unit
Allowed call leaves = Unit
Allowed ret returns = Unit
Allowed _ _ = ⊥

-- The meaning of the masks, as src/InstructionInfo.hpp and src/OpcodeInfo.hpp document them.
pub record Respects {V M : Type 0} (bits : ℕ) (i : Instruction) (f : State V M → Exit × State V M)
    : Type 0 where
  -- Nothing but the registers that may be written changes.
  pub frame :
      (s : State V M) (r : ℕ)
      → r < bits
      → (effects i).written_regs r ≡ false
      → (effects i).cond_written_regs r ≡ false
      → (f s).1.regs r ≡ s.regs r
  pub frame_mem : (s : State V M) → (effects i).may_write_mem ≡ false → (f s).1.mem ≡ s.mem
  -- The registers that are read decide all effects; a register that is not certainly written may
  -- keep its value.
  pub result :
      (s t : State V M)
      → Agree bits (inputs (execution_of i) (effects i)) s t
      → (r : ℕ) → r < bits
      → (s.regs r ≡ t.regs r) ⊎ ((execution_of i ≡ tri_true) × ((effects i).written_regs r ≡ true))
      → (f s).1.regs r ≡ (f t).1.regs r
  pub result_mem :
      (s t : State V M)
      → Agree bits (inputs (execution_of i) (effects i)) s t
      → (f s).1.mem ≡ (f t).1.mem
  pub exit :
      (s t : State V M) → Agree bits (inputs (execution_of i) (effects i)) s t → (f s).0 ≡ (f t).0
  pub allowed : (s : State V M) → IsExecuted (execution_of i) → Allowed i.flow (f s).0
  pub skipped : (s : State V M) → execution_of i ≡ tri_false → f s ≡ (goes_on, s)

-- The registers that are live where an instruction goes.
abbrev pub live_at : Mask → (ℕ → Option LivenessData) → Mask → Exit → Mask
live_at live_ret blocks live goes_on = live
live_at live_ret blocks live returns = live_ret
live_at live_ret blocks live leaves = fill_mask
live_at live_ret blocks live (to_block b) = add_known zero_mask (blocks b)

-- The instructions of a block, up to the first that does not go on.
abbrev pub continue {ℓ} : {A : Type ℓ} → Exit × A → (A → Exit × A) → Exit × A
continue (goes_on, s) k = k s
continue (returns, s) k = (returns, s)
continue (leaves, s) k = (leaves, s)
continue (to_block b, s) k = (to_block b, s)

unfoldable pub run_block :
    {V M : Type 0} → Exec V M → List Instruction → State V M → Exit × State V M
run_block exec [] s = (goes_on, s)
run_block exec (i ∷ is) s = continue (exec i s) (λ t. run_block exec is t)
