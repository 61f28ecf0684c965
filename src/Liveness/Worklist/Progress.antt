-- ===== src/Liveness/Worklist/Progress.antt =====
-- Each round of the loop of `handleFunction` of src/passes/LivenessAnalysisPass.hpp returns, and keeps the
-- invariant.
use drob.Prelude.{
  ℕ, zero, suc, ◌≡◌, inl, inr, refl, sym, ap, ◌∙◌, subst, true, false, Bool-cases, Option, none,
  some, List, [], ◌∷◌, some-eq, >>=-eq-some, none-ne-some,
}
use drob.Liveness.{Mask, LivenessData, zero_mask}
use drob.Liveness.Worklist.{
  SuperBlock, Analysis, update, push, with_next, from_next, process_block, process_front,
  process_queue, is_empty, handle_function,
}
use drob.Liveness.Worklist.Entry.{Named, true-ne-false}
use drob.Liveness.Worklist.Invariant.{IsGraph, AllFit, process_block-AllFit, enqueue_returns-AllFit}
use drob.Liveness.Worklist.Alive.{Distinct, IsQueue}
use drob.Liveness.Worklist.Start.{enqueue-IsQueue, enqueue_returns-invalid}
use drob.Liveness.Worklist.Rounds.{
  IsBefore, rounds, started, Pending, alive, waits, Inv, front, front_invalid, after-Inv,
  pushed-Inv,
}

module _ (bits : ℕ) (live_ret : Mask) (graph : ℕ → SuperBlock) (returns : List ℕ) where
  abbrev I : Analysis → Type 0
  I = Inv bits live_ret graph returns

  abbrev Fitting : Analysis → Type 0
  Fitting = AllFit bits live_ret graph

  -- A call that returns a state with the invariant.
  abbrev Good : Option Analysis → Type 0
  Good o = (st' : Analysis) × (o ≡ some st') × I st'

  module _ (b : ℕ) (rest : List ℕ) (st : Analysis) (is : st.queue ≡ b ∷ rest) (v : I st)
      (g : IsGraph graph) where
    abbrev taken : Analysis
    taken = front bits live_ret graph b rest st is v.queue

    -- In a result of `processBlock` the data fit.
    result-Fitting :
        (st' : Analysis) → process_block bits live_ret graph b taken ≡ some st' → Fitting st'
    unfolding AllFit
    result-Fitting st' h = process_block-AllFit bits live_ret graph b taken st' g h v.fit

    not_valid : (n : ℕ) → st.blocks n ≡ none → st.valid n ≡ false
    not_valid n e = elim (Bool-cases (st.valid n)) [
      | inl h ↦ let (d, k) = v.known n h in absurd (none-ne-some (sym e ∙ k))
      | inr h ↦ h
    ]

    process_with_next :
        (n : ℕ) (o : Option LivenessData)
        → (graph b).next ≡ some n
        → st.blocks n ≡ o
        → ((st' : Analysis) → with_next bits live_ret graph b n o taken ≡ some st' → Fitting st')
        → Good (with_next bits live_ret graph b n o taken)
    process_with_next n (some d) e k f = (
      _,
      refl,
      after-Inv bits live_ret graph b rest st is v.queue g d.live_in returns v (f _ refl),
    )
    process_with_next n none e k f =
        let h = not_valid n k in
        let done : with_next bits live_ret graph b n none taken ≡ some (push n taken) = rw h refl in
        (_, done, pushed-Inv bits live_ret graph b rest st is v.queue n e k returns h v (f _ done))

    process_from_next :
        (o : Option ℕ)
        → (graph b).next ≡ o
        → ((st' : Analysis) → from_next bits live_ret graph b o taken ≡ some st' → Fitting st')
        → Good (from_next bits live_ret graph b o taken)
    process_from_next none e f = (
      _,
      refl,
      after-Inv bits live_ret graph b rest st is v.queue g zero_mask returns v (f _ refl),
    )
    process_from_next (some n) e f = process_with_next n (st.blocks n) e refl f

    process_block-Good : Good (process_block bits live_ret graph b taken)
    unfolding process_block
    process_block-Good =
        let h = front_invalid bits live_ret graph b rest st is v.queue in
        let same : process_block bits live_ret graph b taken
            ≡ from_next bits live_ret graph b (graph b).next taken =
          rw h refl in
        let (st', done, inv) =
          process_from_next (graph b).next refl (λ st' e. result-Fitting st' (same ∙ e)) in
        (st', same ∙ done, inv)

  -- A round is a block, or nothing is left.
  process_front-Good :
      (queue : List ℕ) (st : Analysis) (continue : Analysis → Option Analysis)
      → IsGraph graph
      → st.queue ≡ queue
      → I st
      → ((s : Analysis) → I s → Good (continue s))
      → Good (process_front bits live_ret graph queue st continue)
  unfolding process_front
  process_front-Good [] st continue g is v k = (st, refl, v)
  process_front-Good (b ∷ rest) st continue g is v k =
      let (s, done, inv) = process_block-Good b rest st is v g in rw done (k s inv)

  rounds-Good :
      (k : ℕ) (st : Analysis) → IsGraph graph → I st → Good (rounds bits live_ret graph k st)
  unfolding rounds
  rounds-Good zero st g v = (st, refl, v)
  rounds-Good (suc k) st g v =
      process_front-Good st.queue st (λ s. rounds bits live_ret graph k s) g refl v
        (λ s inv. rounds-Good k s g inv)

  -- A block that waits is valid once the queue is empty.
  Pending-valid :
      (st : Analysis) (c : ℕ)
      → I st
      → st.queue ≡ []
      → Pending bits live_ret graph st c
      → st.valid c ≡ true
  unfolding Named
  Pending-valid st c v e (alive _ h) = elim (Bool-cases (st.valid c)) [
    | inl valid ↦ valid
    | inr invalid ↦ absurd (subst (λ q. Named c q) e (v.queue.queued_in c (rw invalid at h)))
  ]
  Pending-valid st c v e (waits _ n f none_yet p) =
      let (d, k) = v.known n (Pending-valid st n v e p) in absurd (none-ne-some (sym none_yet ∙ k))

  front_queue :
      (queue : List ℕ) (st st' : Analysis) (f h : Analysis → Option Analysis)
      → ((s : Analysis) → f s ≡ some st' → h s ≡ some st')
      → process_front bits live_ret graph queue st f ≡ some st'
      → process_front bits live_ret graph queue st h ≡ some st'
  unfolding process_front
  front_queue [] st st' f h k e = e
  front_queue (b ∷ rest) st st' f h k e =
      let (s, done, more) =
        >>=-eq-some
          (process_block bits live_ret graph b
            (record st { queue = rest; queued = update b false st.queued }))
          f e in
      rw done (k s more)

  -- With one more round the loop ends where the queue is empty.
  rounds-process_queue :
      (k : ℕ) (st st' : Analysis)
      → rounds bits live_ret graph k st ≡ some st'
      → st'.queue ≡ []
      → process_queue bits live_ret graph (suc k) st ≡ some st'
  unfolding rounds process_queue process_front
  rounds-process_queue zero st st' h e =
      let empty : st.queue ≡ [] = ap (λ (s : Analysis). s.queue) (some-eq h) ∙ e in
      subst (λ (q : List ℕ). process_front bits live_ret graph q st (λ s. none) ≡ some st')
        (sym empty) h
  rounds-process_queue (suc k) st st' h e =
      front_queue st.queue st st' (λ s. rounds bits live_ret graph k s)
        (λ s. process_queue bits live_ret graph (suc k) s)
        (λ s more. rounds-process_queue k s st' more e) h

  -- In a graph whose edges and neighbours are entered at both ends, for different blocks with return
  -- edges, an empty queue and no block marked as queued: each number of rounds of `handleFunction` returns
  -- a state, so no assertion fails, and there the data of each valid block fit those of the blocks behind
  -- it, the queue has each block at most once and no valid one, a valid block has data, and every block
  -- with a return edge, with a branch to a valid block or in front of one is valid, in the queue, or waits
  -- for the block behind it, which has no data yet.
  pub handle_function-Inv :
      (k : ℕ) (st : Analysis)
      → IsGraph graph
      → Distinct returns
      → st.queue ≡ []
      → ((c : ℕ) → st.queued c ≡ false)
      → (st' : Analysis) × (rounds bits live_ret graph k (started bits live_ret graph returns st)
          ≡ some st')
        × Inv bits live_ret graph returns st'
  unfolding Named Distinct
  handle_function-Inv k st g d empty unmarked =
      let cleared = record st { blocks = λ b. none; valid = λ b. false } in
      let marks : IsQueue cleared = record {
        queued_in = λ c h. absurd (true-ne-false (sym h ∙ unmarked c));
        in_queued = λ c n. absurd (subst (λ q. Named c q) empty n);
        distinct = subst (λ q. Distinct q) (sym empty) tt;
        fresh = λ c h. refl;
      } in
      let first =
        enqueue-IsQueue bits live_ret graph returns cleared d (λ c. refl) (λ c n. unmarked c)
          marks in
      let unset = enqueue_returns-invalid bits live_ret graph returns cleared (λ c. refl) in
      rounds-Good k _ g (record {
        fit = enqueue_returns-AllFit bits live_ret graph returns cleared (λ b. refl);
        queue = first.0;
        known = λ c h. absurd (true-ne-false (sym h ∙ unset c));
        returning = λ c n. alive c (first.1 c (inl n));
        before = λ b c h n. absurd (true-ne-false (sym h ∙ unset b));
      })

  -- Under the same conditions, for at least one block with a return edge: if the queue is empty after a
  -- number of rounds, then `handleFunction` returns that state with one more round of fuel, every block
  -- with a return edge is valid, and so is every block with a branch to a valid block or in front of one.
  pub handle_function_reaches :
      (k : ℕ) (st st' : Analysis)
      → IsGraph graph
      → Distinct returns
      → is_empty bits live_ret graph returns ≡ false
      → st.queue ≡ []
      → ((c : ℕ) → st.queued c ≡ false)
      → rounds bits live_ret graph k (started bits live_ret graph returns st) ≡ some st'
      → st'.queue ≡ []
      → (handle_function bits live_ret graph (suc k) returns st ≡ some st')
        × ((c : ℕ) → Named c returns → st'.valid c ≡ true)
        × ((b c : ℕ) → st'.valid b ≡ true → IsBefore graph c b → st'.valid c ≡ true)
  unfolding handle_function
  handle_function_reaches k st st' g d some_return empty unmarked done e =
      let (s, same, inv') = handle_function-Inv k st g d empty unmarked in
      let inv = subst (λ t. I t) (some-eq (sym same ∙ done)) inv' in
      (
        rw some_return (rounds-process_queue k _ st' done e),
        λ c n. Pending-valid st' c inv e (inv.returning c n),
        λ b c h n. Pending-valid st' c inv e (inv.before b c h n),
      )
