-- ===== src/Liveness/Worklist.antt =====
-- The queue of blocks of the liveness analysis: `processBlock` and the loop of `handleFunction` of
-- src/passes/LivenessAnalysisPass.hpp. Blocks are numbers; a change of what is attached to a block is a
-- new function.
pub mod Transfer
pub mod Entry
pub mod Fits
pub mod Queue
pub mod Invariant
pub mod Alive
pub mod Start
pub mod Rounds
pub mod Progress
use drob.Prelude.{
  ℕ, zero, suc, ◌==◌, if◌then◌else◌, Bool, true, false, not, ◌||◌, Option, none, some, ◌>>=◌, ◌>>◌,
  drob_assert, List, [], ◌∷◌, ◌++◌,
}
use drob.Liveness.{Mask, Instruction, LivenessData, equal_mask, zero_mask, process_instructions}

-- `SuperBlock`: the instructions, the neighbours, and the sources of the incoming edges.
pub record SuperBlock : Type 0 where
  pub instructions : List Instruction
  pub next : Option ℕ
  pub prev : Option ℕ
  pub incoming : List ℕ

-- What the analysis changes: the liveness data of blocks, those of their instructions,
-- `livenessAnalysisValid`, `queued` and `blocksToProcess`.
pub record Analysis : Type 0 where
  pub blocks : ℕ → Option LivenessData
  pub attached : ℕ → List (Option LivenessData)
  pub valid : ℕ → Bool
  pub queued : ℕ → Bool
  pub queue : List ℕ

abbrev pub update {ℓ} : {A : Type ℓ} → ℕ → A → (ℕ → A) → ℕ → A
update b v f c = if c == b then v else f c

-- The tests around `blocksToProcess.push`.
unfoldable pub push : ℕ → Analysis → Analysis
push b st =
    if st.queued b
    then st
    else record st { queued = update b true st.queued; queue = st.queue ++ b ∷ [] }

-- What `processBlock` does to the source of an edge and to the block in front.
unfoldable pub reenqueue : Bool → ℕ → Analysis → Analysis
unfolding push
reenqueue changed src st =
    let st' = if changed then record st { valid = update src false st.valid } else st in
    if st'.valid src then st' else push src st'

unfoldable pub reenqueue_all : Bool → List ℕ → Analysis → Analysis
unfolding reenqueue
reenqueue_all changed [] st = st
reenqueue_all changed (src ∷ rest) st = reenqueue_all changed rest (reenqueue changed src st)

abbrev pub old_live_in : Option LivenessData → Mask
old_live_in (some d) = d.live_in
old_live_in none = zero_mask

abbrev pub to_list : Option ℕ → List ℕ
to_list none = []
to_list (some b) = b ∷ []

abbrev pub live_data : Mask → Mask → LivenessData
live_data live_out live_in = record { live_out = live_out; live_in = live_in }

module _ (bits : ℕ) (live_ret : Mask) (graph : ℕ → SuperBlock) where
  -- "Attach empty liveness information", and `live_out`.
  abbrev pub prepared : ℕ → Mask → Analysis → ℕ → Option LivenessData
  prepared b live_out st =
      update b (some (live_data live_out (old_live_in (st.blocks b)))) st.blocks

  abbrev pub analyzed : ℕ → Mask → Analysis → List (Option LivenessData) × Mask
  analyzed b live_out st =
      process_instructions bits live_ret (prepared b live_out st) (graph b).instructions live_out

  -- `entryLiveRegsChanged`
  abbrev pub entry_changed : ℕ → Mask → Analysis → Bool
  entry_changed b live_out st =
      not (equal_mask bits (old_live_in (st.blocks b)) (analyzed b live_out st).1)

  -- "Remember the entry state", and the block is valid.
  abbrev pub remember_entry : ℕ → Mask → Analysis → Analysis
  remember_entry b live_out st =
      let r = analyzed b live_out st in
      record st {
        blocks =
            update b
              (some (
                live_data live_out
                  (if entry_changed b live_out st then r.1 else old_live_in (st.blocks b))))
              st.blocks;
        attached = update b r.0 st.attached;
        valid = update b true st.valid;
      }

  -- The part of `processBlock` behind the test of the next block.
  unfoldable pub analyze_block : ℕ → Mask → Analysis → Analysis
  unfolding reenqueue_all
  analyze_block b live_out st =
      let changed = entry_changed b live_out st in
      reenqueue_all changed (to_list (graph b).prev)
        (reenqueue_all changed (graph b).incoming (remember_entry b live_out st))

  -- The test of the next block: one without data is processed first.
  abbrev pub with_next : ℕ → ℕ → Option LivenessData → Analysis → Option Analysis
  with_next b n (some d) st = some (analyze_block b d.live_in st)
  with_next b n none st = do drob_assert (not (st.valid n)); some (push n st)

  abbrev pub from_next : ℕ → Option ℕ → Analysis → Option Analysis
  from_next b (some n) st = with_next b n (st.blocks n) st
  from_next b none st = some (analyze_block b zero_mask st)

  -- `processBlock`
  unfoldable pub process_block : ℕ → Analysis → Option Analysis
  unfolding push analyze_block
  process_block b st = do drob_assert (not (st.valid b)); from_next b (graph b).next st

  -- One round of the loop: the front of the queue is processed.
  unfoldable pub process_front : List ℕ → Analysis → (Analysis → Option Analysis) → Option Analysis
  unfolding process_block
  process_front [] st continue = some st
  process_front (b ∷ rest) st continue =
      process_block b (record st { queue = rest; queued = update b false st.queued }) >>= continue

  -- "Process all superblocks until there are no changes anymore", for `fuel` rounds.
  unfoldable pub process_queue : ℕ → Analysis → Option Analysis
  unfolding process_front
  process_queue zero st = none
  process_queue (suc fuel) st = process_front st.queue st (λ st'. process_queue fuel st')

  -- "Start with all superblocks that have return edges."
  abbrev pub enqueue_returns : List ℕ → Analysis → Analysis
  enqueue_returns [] st = st
  enqueue_returns (src ∷ rest) st =
      enqueue_returns rest
        (record st { queued = update src true st.queued; queue = st.queue ++ src ∷ [] })

  abbrev pub is_empty : List ℕ → Bool
  is_empty [] = true
  is_empty (src ∷ rest) = false

  -- `handleFunction` of a function with a specification, on the sources of its return edges: "Throw
  -- away old analysis data", and the loop.
  unfoldable pub handle_function : ℕ → List ℕ → Analysis → Option Analysis
  unfolding process_queue
  handle_function fuel return_edges st = do
    drob_assert (not (is_empty return_edges))
    process_queue fuel
        (enqueue_returns return_edges (record st { blocks = λ b. none; valid = λ b. false }))
