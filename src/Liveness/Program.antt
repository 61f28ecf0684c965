-- ===== src/Liveness/Program.antt =====
-- A whole function under the liveness analysis of src/passes/LivenessAnalysisPass.hpp: once the data of
-- its blocks fit together, the removal of dead instructions everywhere keeps its behaviour.
use drob.Prelude.{ℕ, zero, suc, ◌<◌, ◌≡◌, refl, true, Option, none, some, List}
use drob.Liveness.{
  Mask, Instruction, LivenessData, process_instructions, keep_live, zero_mask, fill_mask,
}
use drob.Liveness.Machine.{Exit, goes_on, returns, leaves, to_block, State, Agree, Exec, run_block}
use drob.Liveness.Sound.{Sim, AllSound, run_block-Sim}

-- The blocks of a function, and which block follows one.
pub record Blocks : Type 0 where
  pub instructions : ℕ → List Instruction
  pub next : ℕ → Option ℕ

-- What a run comes to: without fuel, nothing.
abbrev pub Result : Type 0 → Type 0 → Type 0
Result V M = Option (Exit × State V M)

abbrev pub fall_through :
    {V M : Type 0} → Option ℕ → State V M → (ℕ → State V M → Result V M) → Result V M
fall_through (some n) s k = k n s
fall_through none s k = some (goes_on, s)

abbrev pub after_block :
    {V M : Type 0} → Option ℕ → Exit × State V M → (ℕ → State V M → Result V M) → Result V M
after_block next (goes_on, s) k = fall_through next s k
after_block next (to_block b, s) k = k b s
after_block next (returns, s) k = some (returns, s)
after_block next (leaves, s) k = some (leaves, s)

unfoldable pub run : {V M : Type 0} → Exec V M → Blocks → ℕ → ℕ → State V M → Result V M
unfolding run_block
run exec p zero b s = none
run exec p (suc fuel) b s =
    after_block (p.next b) (run_block exec (p.instructions b) s) (λ c t. run exec p fuel c t)

-- What the caller or unknown code reads.
abbrev pub final_live : Mask → Exit → Mask
final_live live_ret returns = live_ret
final_live live_ret leaves = fill_mask
final_live live_ret _ = zero_mask

unfoldable pub SameResult : {V M : Type 0} → ℕ → Mask → Result V M → Result V M → Type 0
SameResult bits live_ret none none = Unit
SameResult bits live_ret (some (x, s)) (some (y, t)) =
    (x ≡ y) × Agree bits (final_live live_ret x) s t
SameResult bits live_ret _ _ = ⊥

module _ (bits : ℕ) (live_ret : Mask) (p : Blocks) (live : ℕ → LivenessData) where
  abbrev known : ℕ → Option LivenessData
  known b = some (live b)

  abbrev processed : ℕ → List (Option LivenessData) × Mask
  processed b = process_instructions bits live_ret known (p.instructions b) (live b).live_out

  -- Liveness data that fit together: those of a block cover what its instructions make of its
  -- end, and its end covers the block that follows.
  pub record IsConsistent : Type 0 where
    pub live_in : (b r : ℕ) → r < bits → (processed b).1 r ≡ true → (live b).live_in r ≡ true
    pub live_out :
        (b n r : ℕ)
        → p.next b ≡ some n
        → r < bits
        → (live n).live_in r ≡ true
        → (live b).live_out r ≡ true

  -- The function without the instructions that have no liveness data.
  abbrev pub eliminated : Blocks
  eliminated = record {
    instructions = λ b. keep_live (p.instructions b) (processed b).0;
    next = p.next;
  }

module _ {V M : Type 0} (bits : ℕ) (live_ret : Mask) (p : Blocks) (live : ℕ → LivenessData) where
  after_block-SameResult :
      (b : ℕ) (next : Option ℕ) (a a' : Exit × State V M) (k l : ℕ → State V M → Result V M)
      → p.next b ≡ next
      → IsConsistent bits live_ret p live
      → Sim bits live_ret (λ b. some (live b)) (live b).live_out a a'
      → ((c : ℕ) (s t : State V M)
          → Agree bits (live c).live_in s t
          → SameResult bits live_ret (k c s) (l c t))
      → SameResult bits live_ret (after_block next a k) (after_block next a' l)
  unfolding Sim SameResult
  after_block-SameResult b none (goes_on, s) (y, t) k l e c (x, h) go =
      rw (← x) (refl, record { reg = λ r le i. cc; mem = h.mem })
  after_block-SameResult b (some n) (goes_on, s) (y, t) k l e c (x, h) go =
      rw (← x)
        (go n s t (record { reg = λ r le i. h.reg r le (c.live_out b n r e le i); mem = h.mem }))
  after_block-SameResult b next (to_block d, s) (y, t) k l e c (x, h) go = rw (← x) (go d s t h)
  after_block-SameResult b next (returns, s) (y, t) k l e c (x, h) go = rw (← x) (refl, h)
  after_block-SameResult b next (leaves, s) (y, t) k l e c (x, h) go = rw (← x) (refl, h)

  -- Consistent liveness data, instructions that do what their masks say, and two states that agree
  -- on what is live in front of a block: the function and what is left of it without the
  -- instructions that have no liveness data come to the same exit after the same number of
  -- blocks, with the same in memory and in the registers that are live there.
  pub eliminated-SameResult :
      (exec : Exec V M)
      → IsConsistent bits live_ret p live
      → ((b : ℕ) → AllSound bits live_ret (λ b. some (live b)) exec (p.instructions b))
      → (fuel b : ℕ) (s t : State V M) → Agree bits (live b).live_in s t
      → SameResult bits live_ret
          (run exec p fuel b s)
          (run exec (eliminated bits live_ret p live) fuel b t)
  unfolding run SameResult
  eliminated-SameResult exec c ok zero b s t h = tt
  eliminated-SameResult exec c ok (suc fuel) b s t h =
      after_block-SameResult b (p.next b) _ _ _ _ refl c
        (run_block-Sim bits live_ret (λ b. some (live b)) exec (p.instructions b) (live b).live_out
          s t (ok b) (record { reg = λ r le i. h.reg r le (c.live_in b r le i); mem = h.mem }))
        (λ d s' t' h'. eliminated-SameResult exec c ok fuel d s' t' h')
