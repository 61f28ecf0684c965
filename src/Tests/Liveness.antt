-- ===== src/Tests/Liveness.antt =====
-- The theorems on liveness at a function of one block: a write that nobody reads, and a return.
use drob.Prelude.{
  ℕ, ◌≡◌, inl, inr, refl, arith, if◌then◌else◌, ◌==◌, Bool, true, false, none, some, List, [], ◌∷◌,
  Bool-cases, ◌||◌,
}
use drob.Liveness.{
  Mask, Instruction, LivenessData, ControlFlow, other, ret, zero_mask, process_instructions,
  process_instruction, equal_mask,
}
use drob.Liveness.Machine.{Exit, goes_on, returns, State, Agree, Exec, Respects}
use drob.Liveness.Sound.{IsSound, AllSound}
use drob.Liveness.Program.{Blocks, IsConsistent, eliminated, SameResult, run, eliminated-SameResult}
use drob.Liveness.Worklist.{
  SuperBlock, Analysis, analyze_block, reenqueue_all, process_block, process_front, handle_function,
}
use drob.Liveness.Worklist.Transfer.{OfTarget, OfTargets}
use drob.Liveness.Worklist.Invariant.{IsGraph}
use drob.Liveness.Worklist.Entry.{Named}
use drob.Liveness.Worklist.Alive.{Distinct}
use drob.Liveness.Worklist.Rounds.{IsBefore, rounds, started, Inv}
use drob.Liveness.Worklist.Progress.{handle_function-Inv, handle_function_reaches}
use drob.Tests.{or_else}

abbrev only : ℕ → Mask
only n r = r == n

abbrev write_first : Instruction
write_first = record {
  flow = other;
  info = record {
    may_write_mem = false;
    predicate_regs = zero_mask;
    read_regs = zero_mask;
    written_regs = only 0;
    cond_written_regs = zero_mask;
  };
  dyn_info = none;
  has_predicate = false;
}

abbrev return : Instruction
return = record {
  flow = ret;
  info = record {
    may_write_mem = false;
    predicate_regs = zero_mask;
    read_regs = zero_mask;
    written_regs = zero_mask;
    cond_written_regs = zero_mask;
  };
  dyn_info = none;
  has_predicate = false;
}

abbrev Machine : Type 0
Machine = State ℕ ℕ

abbrev write : Machine → Exit × Machine
write s = (goes_on, record s { regs = λ r. if r == 0 then 5 else s.regs r })

abbrev give_back : Machine → Exit × Machine
give_back s = (returns, s)

abbrev exec_flow : ControlFlow → Machine → Exit × Machine
exec_flow other s = write s
exec_flow _ s = give_back s

abbrev exec : Exec ℕ ℕ
exec i s = exec_flow i.flow s

write-Respects : Respects 2 write_first write
write-Respects = record {
  frame = λ s r le w c. rw w refl;
  frame_mem = λ s e. refl;
  result = λ s t a r le o. elim (Bool-cases (r == 0)) [
    | inl e ↦ rw e refl
    | inr e ↦ rw e (elim o [ inl h ↦ h | inr (x, w) ↦ cc ])
  ];
  result_mem = λ s t a. a.mem;
  exit = λ s t a. refl;
  allowed = λ s k. tt;
  skipped = λ s e. cc;
}

return-Respects : Respects 2 return give_back
return-Respects = record {
  frame = λ s r le w c. refl;
  frame_mem = λ s e. refl;
  result = λ s t a r le o. elim o [ inl h ↦ h | inr (x, w) ↦ cc ];
  result_mem = λ s t a. a.mem;
  exit = λ s t a. refl;
  allowed = λ s k. tt;
  skipped = λ s e. cc;
}

abbrev body : List Instruction
body = write_first ∷ return ∷ []

abbrev function : Blocks
function = record { instructions = λ b. body; next = λ b. none }

abbrev live : ℕ → LivenessData
live b = record { live_out = zero_mask; live_in = only 1 }

body-AllSound : AllSound 2 (only 1) (λ b. some (live b)) exec body
unfolding AllSound IsSound
body-AllSound = ((write-Respects, λ r e. cc), ((return-Respects, λ r e h. cc), tt))

or_false : (b : Bool) → b || false ≡ true → b ≡ true
or_false true h = refl
or_false false h = h

live-IsConsistent : IsConsistent 2 (only 1) function live
unfolding process_instructions process_instruction equal_mask
live-IsConsistent = record { live_in = λ b r le h. or_false (r == 1) h; live_out = λ b n r e. cc }

abbrev before : Machine
before = record { regs = λ r. 7; mem = 0 }

abbrev before' : Machine
before' = record { regs = λ r. if r == 0 then 9 else 7; mem = 0 }

before-Agree : Agree 2 (only 1) before before'
before-Agree = record {
  reg = λ r le h. elim (Bool-cases (r == 0)) [ inl e ↦ ground arith | inr e ↦ rw e refl ];
  mem = refl;
}

eliminated-SameResult_example :
    SameResult 2
      (only 1)
      (run exec function 3 0 before)
      (run exec (eliminated 2 (only 1) function live) 3 0 before')
eliminated-SameResult_example =
    eliminated-SameResult 2 (only 1) function live exec live-IsConsistent (λ b. body-AllSound) 3 0
      before before' before-Agree

-- The same function before its analysis.
abbrev graph : ℕ → SuperBlock
graph b = record { instructions = body; next = none; prev = none; incoming = [] }

abbrev start : Analysis
start = record {
  blocks = λ b. none;
  attached = λ b. [];
  valid = λ b. false;
  queued = λ b. false;
  queue = [];
}

graph-IsGraph : IsGraph graph
unfolding OfTargets OfTarget
graph-IsGraph = record { edges = λ b. (tt, (tt, tt)); falls = λ b n e. cc }

-- The state after one round.
abbrev one_round : Analysis
one_round = or_else start (rounds 2 (only 1) graph 1 (started 2 (only 1) graph (0 ∷ []) start))

round_done : rounds 2 (only 1) graph 1 (started 2 (only 1) graph (0 ∷ []) start) ≡ some one_round
unfolding rounds process_front process_block analyze_block reenqueue_all process_instructions
    process_instruction equal_mask
round_done = refl

round_empty : one_round.queue ≡ []
unfolding rounds process_front process_block analyze_block reenqueue_all process_instructions
    process_instruction equal_mask
round_empty = refl

one-Distinct : Distinct (0 ∷ [])
unfolding Distinct Named
one-Distinct = (λ n. n, tt)

handle_function-Inv_example :
    (st' : Analysis) × (rounds 2 (only 1) graph 1 (started 2 (only 1) graph (0 ∷ []) start)
      ≡ some st')
    × Inv 2 (only 1) graph (0 ∷ []) st'
handle_function-Inv_example =
    handle_function-Inv 2 (only 1) graph (0 ∷ []) 1 start graph-IsGraph one-Distinct refl
      (λ c. refl)

handle_function_reaches_example :
    (handle_function 2 (only 1) graph 2 (0 ∷ []) start ≡ some one_round)
    × ((c : ℕ) → Named c (0 ∷ []) → one_round.valid c ≡ true)
    × ((b c : ℕ) → one_round.valid b ≡ true → IsBefore graph c b → one_round.valid c ≡ true)
handle_function_reaches_example =
    handle_function_reaches 2 (only 1) graph (0 ∷ []) 1 start one_round graph-IsGraph one-Distinct
      refl refl (λ c. refl) round_done round_empty
