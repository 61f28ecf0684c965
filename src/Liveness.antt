-- ===== src/Liveness.antt =====
-- The liveness analysis of registers, src/passes/LivenessAnalysisPass.hpp: which parts of the registers
-- are still read. A mask is a function of the number of a subregister; only the first `bits` count.
-- Blocks are numbers, and what the analysis attached to them is a function.
pub mod Machine
pub mod Masks
pub mod Sound
pub mod Program
pub mod Worklist
use drob.Prelude.{
  ℕ, zero, suc, if◌then◌else◌, Bool, true, false, not, ◌&&◌, ◌||◌, Option, none, some, List, [],
  ◌∷◌,
}
use drob.Predicate.{TriState, tri_true, tri_false, tri_unknown}

-- `SubRegisterMask`
abbrev pub Mask : Type 0
Mask = ℕ → Bool

abbrev pub zero_mask : Mask
zero_mask r = false

abbrev pub fill_mask : Mask
fill_mask r = true

-- `+=`
abbrev pub add_mask : Mask → Mask → Mask
add_mask a b r = a r || b r

-- `-=`
abbrev pub sub_mask : Mask → Mask → Mask
sub_mask a b r = a r && not (b r)

abbrev pub same_bit : Bool → Bool → Bool
same_bit true b = b
same_bit false b = not b

-- `==`
unfoldable pub equal_mask : ℕ → Mask → Mask → Bool
equal_mask zero a b = true
equal_mask (suc bits) a b = same_bit (a bits) (b bits) && equal_mask bits a b

-- The part of `InstructionInfo` and of `DynamicInstructionInfo` that the analysis reads.
pub record RegisterEffects : Type 0 where
  pub may_write_mem : Bool
  pub predicate_regs : Mask
  pub read_regs : Mask
  pub written_regs : Mask
  pub cond_written_regs : Mask

-- What `isBranch`, `isCall` and `isRet` say, and the block that a branch edge leads to.
pub data ControlFlow : Type 0 where
  other call ret : ControlFlow
  branch : Option ℕ → ControlFlow

-- `Instruction`: `getInfo`, `getDynInfo` with `willExecute`, and whether there is a predicate.
pub record Instruction : Type 0 where
  pub flow : ControlFlow
  pub info : RegisterEffects
  pub dyn_info : Option (RegisterEffects × TriState)
  pub has_predicate : Bool

-- `LivenessData`
pub record LivenessData : Type 0 where
  pub live_out : Mask
  pub live_in : Mask

-- What the static information says of the execution.
abbrev pub static_execution : Bool → TriState
static_execution true = tri_unknown
static_execution false = tri_true

-- "If we have dynamic instruction info, make use of it".
abbrev pub choose_effects :
    Instruction → Option (RegisterEffects × TriState) → RegisterEffects × TriState
choose_effects i (some (e, will)) = (e, will)
choose_effects i none = (i.info, static_execution i.has_predicate)

abbrev pub effects : Instruction → RegisterEffects
effects i = (choose_effects i i.dyn_info).0

abbrev pub execution_of : Instruction → TriState
execution_of i = (choose_effects i i.dyn_info).1

abbrev pub is_other : ControlFlow → Bool
is_other other = true
is_other _ = false

-- "Any instruction that is not a control flow instruction can be removed if ..."
abbrev pub is_dead : ℕ → Instruction → Mask → Bool
is_dead bits i live =
    let e = effects i in
    is_other i.flow
    && (not e.may_write_mem
        && equal_mask bits (sub_mask (sub_mask live e.written_regs) e.cond_written_regs) live)

-- The live registers of a block that is known.
abbrev pub add_known : Mask → Option LivenessData → Mask
add_known live (some d) = add_mask live d.live_in
add_known live none = live

-- What control flow makes of the live registers.
abbrev pub flow_live : Mask → (ℕ → Option LivenessData) → ControlFlow → Mask → Mask
flow_live live_ret blocks other live = live
flow_live live_ret blocks ret live = live_ret
flow_live live_ret blocks call live = fill_mask
flow_live live_ret blocks (branch (some dst)) live = add_known live (blocks dst)
flow_live live_ret blocks (branch none) live = fill_mask

-- The `switch` on `willExecute`.
abbrev pub executed_live : Mask → (ℕ → Option LivenessData) → Instruction → TriState → Mask → Mask
executed_live live_ret blocks i tri_true live =
    let e = effects i in
    flow_live live_ret blocks i.flow (add_mask (sub_mask live e.written_regs) e.read_regs)
executed_live live_ret blocks i tri_unknown live =
    flow_live live_ret blocks i.flow (add_mask live (effects i).read_regs)
executed_live live_ret blocks i tri_false live = live

-- `live_in` of an instruction that is kept.
abbrev pub transfer : Mask → (ℕ → Option LivenessData) → Instruction → Mask → Mask
transfer live_ret blocks i live =
    add_mask (executed_live live_ret blocks i (execution_of i) live) (effects i).predicate_regs

-- `processInstruction`: the liveness data attached, none to an instruction that can go, and the live
-- registers in front.
unfoldable pub process_instruction :
    ℕ → Mask → (ℕ → Option LivenessData) → Instruction → Mask → Option LivenessData × Mask
unfolding equal_mask
process_instruction bits live_ret blocks i live =
    if is_dead bits i live
    then (none, live)
    else (let live_in = transfer live_ret blocks i live in
        (some (record { live_out = live; live_in = live_in }), live_in))

-- The loop of `processBlock`, from the last instruction to the first.
unfoldable pub process_instructions :
    ℕ
    → Mask
    → (ℕ → Option LivenessData)
    → List Instruction
    → Mask
    → List (Option LivenessData) × Mask
unfolding process_instruction
process_instructions bits live_ret blocks [] live = ([], live)
process_instructions bits live_ret blocks (i ∷ is) live =
    let r = process_instructions bits live_ret blocks is live in
    let p = process_instruction bits live_ret blocks i r.1 in (p.0 ∷ r.0, p.1)

-- `DeadWriteEliminationPass`: instructions without liveness data are removed.
unfoldable pub keep_live : List Instruction → List (Option LivenessData) → List Instruction
keep_live (i ∷ is) (some d ∷ rest) = i ∷ keep_live is rest
keep_live (i ∷ is) (none ∷ rest) = keep_live is rest
keep_live _ _ = []
