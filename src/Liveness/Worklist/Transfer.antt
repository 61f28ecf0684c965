-- ===== src/Liveness/Worklist/Transfer.antt =====
-- On which data of blocks the transfer of src/passes/LivenessAnalysisPass.hpp depends.
use drob.Prelude.{ℕ, ◌≡◌, refl, Option, none, some, List, [], ◌∷◌}
use drob.Predicate.{TriState, tri_true, tri_false, tri_unknown}
use drob.Liveness.{
  Mask, Instruction, ControlFlow, other, call, ret, branch, LivenessData, add_mask, sub_mask,
  process_instructions, process_instruction, add_known, flow_live, executed_live, effects,
  execution_of,
}

-- Two states of the data that mean the same for the branches into a block.
unfoldable pub SameFor : (ℕ → Option LivenessData) → (ℕ → Option LivenessData) → ℕ → Type 0
SameFor f g b = (m : Mask) → add_known m (f b) ≡ add_known m (g b)

-- What holds of the targets of branches.
unfoldable pub OfTarget : (ℕ → Type 0) → ControlFlow → Type 0
OfTarget P (branch (some dst)) = P dst
OfTarget P _ = Unit

unfoldable pub OfTargets : (ℕ → Type 0) → List Instruction → Type 0
OfTargets P [] = Unit
OfTargets P (i ∷ is) = OfTarget P i.flow × OfTargets P is

module _ (bits : ℕ) (live_ret : Mask) where
  pub same_flow :
      (f g : ℕ → Option LivenessData) (flow : ControlFlow) (m : Mask)
      → OfTarget (SameFor f g) flow
      → flow_live live_ret f flow m ≡ flow_live live_ret g flow m
  unfolding OfTarget SameFor
  same_flow f g (branch (some dst)) m h = h m
  same_flow f g (branch none) m h = refl
  same_flow f g other m h = refl
  same_flow f g call m h = refl
  same_flow f g ret m h = refl

  pub same_executed :
      (f g : ℕ → Option LivenessData) (i : Instruction) (will : TriState) (m : Mask)
      → OfTarget (SameFor f g) i.flow
      → executed_live live_ret f i will m ≡ executed_live live_ret g i will m
  same_executed f g i tri_true m h =
      same_flow f g i.flow (add_mask (sub_mask m (effects i).written_regs) (effects i).read_regs) h
  same_executed f g i tri_unknown m h = same_flow f g i.flow (add_mask m (effects i).read_regs) h
  same_executed f g i tri_false m h = refl

  -- The data of blocks that no branch leads to do not matter.
  pub same_instructions :
      (f g : ℕ → Option LivenessData) (is : List Instruction) (m : Mask)
      → OfTargets (SameFor f g) is
      → process_instructions bits live_ret f is m ≡ process_instructions bits live_ret g is m
  unfolding process_instructions process_instruction OfTargets
  same_instructions f g [] m h = refl
  same_instructions f g (i ∷ is) m (h, hs) = rw (same_instructions f g is m hs) (
      rw (same_executed f g i (execution_of i) (process_instructions bits live_ret g is m).1 h)
        refl)
