-- ===== src/Liveness/Worklist/Rounds.antt =====
-- The loop of `handleFunction` of src/passes/LivenessAnalysisPass.hpp, round by round: no assertion
-- fails, and no block from which a return can be reached is lost.
use drob.Prelude.{
  ℕ, zero, suc, ◌≡◌, ◌⊎◌, inl, inr, refl, sym, ap, ◌∙◌, subst, Bool, true, false, ◌||◌, Option,
  none, some, List, ◌∷◌,
}
use drob.Liveness.{Mask, LivenessData}
use drob.Liveness.Worklist.{
  SuperBlock, Analysis, update, push, reenqueue_all, to_list, remember_entry, analyze_block,
  process_front, enqueue_returns, entry_changed,
}
use drob.Liveness.Worklist.Entry.{Named, update_same, update_other, true-ne-false}
use drob.Liveness.Worklist.Queue.{reenqueue_all-Keeps, push-Keeps}
use drob.Liveness.Worklist.Invariant.{IsGraph, AllFit}
use drob.Liveness.Worklist.Alive.{
  same_or_apart, Distinct, IsQueue, is_alive, push-IsQueue, push-alive, reenqueue_all-Fills,
}

-- The blocks with a branch to a block, or in front of it.
abbrev pub IsBefore : (ℕ → SuperBlock) → ℕ → ℕ → Type 0
IsBefore graph c b = Named c (graph b).incoming ⊎ Named c (to_list (graph b).prev)

or_true : (b : Bool) → (b || true) ≡ true
or_true true = refl
or_true false = refl

module _ (bits : ℕ) (live_ret : Mask) (graph : ℕ → SuperBlock) where
  -- The state after a number of rounds, or where the queue is empty before.
  unfoldable pub rounds : ℕ → Analysis → Option Analysis
  unfolding process_front
  rounds zero st = some st
  rounds (suc k) st = process_front bits live_ret graph st.queue st (λ st'. rounds k st')

  -- The state in which the loop starts.
  abbrev pub started : List ℕ → Analysis → Analysis
  started return_edges st =
      enqueue_returns bits live_ret graph return_edges
        (record st { blocks = λ b. none; valid = λ b. false })

  -- A block is valid, in the queue, or waits for the block behind it, which has no data yet.
  pub data Pending (st : Analysis) : ℕ → Type 0 where
    alive : (c : ℕ) → is_alive st c ≡ true → Pending st c
    waits : (c n : ℕ) → (graph c).next ≡ some n → st.blocks n ≡ none → Pending st n → Pending st c

  -- The invariant of the loop, for the blocks with return edges.
  pub record Inv (returns : List ℕ) (st : Analysis) : Type 0 where
    pub fit : AllFit bits live_ret graph st
    pub queue : IsQueue st
    pub known : (c : ℕ) → st.valid c ≡ true → (d : LivenessData) × (st.blocks c ≡ some d)
    pub returning : (c : ℕ) → Named c returns → Pending st c
    pub before : (b c : ℕ) → st.valid b ≡ true → IsBefore graph c b → Pending st c

  module _ (b : ℕ) (rest : List ℕ) (st : Analysis) (is : st.queue ≡ b ∷ rest) (i : IsQueue st) where
    -- The front of the queue is taken out.
    abbrev pub front : Analysis
    front = record st { queue = rest; queued = update b false st.queued }

    pub front_invalid : st.valid b ≡ false
    unfolding Named
    front_invalid = i.fresh b (i.in_queued b (rw is (inl refl)))

    rest-Distinct : (Named b rest → ⊥) × Distinct rest
    unfolding Distinct
    rest-Distinct = subst (λ q. Distinct q) is i.distinct

    front-IsQueue : IsQueue front
    unfolding Named
    front-IsQueue = record {
      queued_in = λ c h. elim (same_or_apart c b) [
        | inl e ↦ absurd (true-ne-false (sym h ∙ update_same b false st.queued c e))
        | inr a ↦
            elim (subst (λ q. Named c q) is
              (i.queued_in c (sym (update_other b false st.queued c a) ∙ h))) [
                | inl e ↦ absurd (a e)
                | inr n ↦ n
              ]
      ];
      in_queued = λ c n. elim (same_or_apart c b) [
        | inl e ↦ absurd (rest-Distinct.0 (subst (λ (x : ℕ). Named x rest) e n))
        | inr a ↦
            update_other b false st.queued c a
            ∙ i.in_queued c (subst (λ q. Named c q) (sym is) (inr n))
      ];
      distinct = rest-Distinct.1;
      fresh = λ c h. elim (same_or_apart c b) [
        | inl e ↦ ap st.valid e ∙ front_invalid
        | inr a ↦ i.fresh c (sym (update_other b false st.queued c a) ∙ h)
      ];
    }

    -- Only the block that is taken out can be lost.
    front-alive : (c : ℕ) → (c ≡ b → ⊥) → is_alive st c ≡ true → is_alive front c ≡ true
    front-alive c a h = rw (update_other b false st.queued c a) h

    -- The block is analyzed.
    module _ (g : IsGraph graph) (lo : Mask) where
      abbrev entered : Analysis
      entered = remember_entry bits live_ret graph b lo front

      abbrev analyzed_front : Analysis
      analyzed_front = analyze_block bits live_ret graph b lo front

      entered-IsQueue : IsQueue entered
      entered-IsQueue = record {
        queued_in = front-IsQueue.queued_in;
        in_queued = front-IsQueue.in_queued;
        distinct = front-IsQueue.distinct;
        fresh = λ c h. elim (same_or_apart c b) [
          | inl e ↦ absurd (true-ne-false (sym h ∙ update_same b false st.queued c e))
          | inr a ↦ update_other b true st.valid c a ∙ front-IsQueue.fresh c h
        ];
      }

      entered-alive : (c : ℕ) → is_alive st c ≡ true → is_alive entered c ≡ true
      entered-alive c h = elim (same_or_apart c b) [
        | inl e ↦ rw (update_same b true st.valid c e) refl
        | inr a ↦ rw (update_other b true st.valid c a) (front-alive c a h)
      ]

      -- What the two calls behind keep.
      record After : Type 0 where
        queue : IsQueue analyzed_front
        lives : (c : ℕ) → is_alive st c ≡ true → is_alive analyzed_front c ≡ true
        named : (c : ℕ) → IsBefore graph c b → is_alive analyzed_front c ≡ true
        blocks : analyzed_front.blocks ≡ entered.blocks
        valid : (c : ℕ) → analyzed_front.valid c ≡ true → entered.valid c ≡ true

      after : After
      unfolding analyze_block
      after =
          let changed = entry_changed bits live_ret graph b lo front in
          let p = reenqueue_all-Fills changed (graph b).incoming entered in
          let middle = reenqueue_all changed (graph b).incoming entered in
          let q = reenqueue_all-Fills changed (to_list (graph b).prev) middle in
          let k = reenqueue_all-Keeps changed (graph b).incoming entered in
          let l = reenqueue_all-Keeps changed (to_list (graph b).prev) middle in
          record {
            queue = q.queue (p.queue entered-IsQueue);
            lives = λ c h. q.alive c (p.alive c (entered-alive c h));
            named = λ c n. elim n [ inl m ↦ q.alive c (p.named c m) | inr m ↦ q.named c m ];
            blocks = l.blocks ∙ k.blocks;
            valid = λ c h. k.valid c (l.valid c h);
          }

      after-Pending : (c : ℕ) → Pending st c → Pending analyzed_front c
      after-Pending c (alive _ h) = alive c (after.lives c h)
      after-Pending c (waits _ n e none_yet p) = elim (same_or_apart n b) [
        | inl same ↦ alive c (
            after.named c
              (inr (subst (λ (x : ℕ). Named c (to_list (graph x).prev)) same (g.falls c n e))))
        | inr a ↦
            waits c n e
              (ap (λ (f : ℕ → Option LivenessData). f n) after.blocks
                ∙ update_other b _ st.blocks n a
                ∙ none_yet)
              (after-Pending n p)
      ]

      pub after-Inv :
          (returns : List ℕ)
          → Inv returns st
          → AllFit bits live_ret graph analyzed_front
          → Inv returns analyzed_front
      after-Inv returns v fit = record {
        fit = fit;
        queue = after.queue;
        known = λ c h. elim (same_or_apart c b) [
          | inl e ↦ (
            _,
            ap (λ (f : ℕ → Option LivenessData). f c) after.blocks ∙ update_same b _ st.blocks c e,
          )
          | inr a ↦
              let (d, k) = v.known c (sym (update_other b true st.valid c a) ∙ after.valid c h) in
              (
                d,
                ap (λ (f : ℕ → Option LivenessData). f c) after.blocks
                    ∙ update_other b _ st.blocks c a
                    ∙ k,
              )
        ];
        returning = λ c n. after-Pending c (v.returning c n);
        before = λ x c h n. elim (same_or_apart x b) [
          | inl e ↦ alive c (after.named c (subst (λ (y : ℕ). IsBefore graph c y) e n))
          | inr a ↦
              after-Pending c
                (v.before x c (sym (update_other b true st.valid x a) ∙ after.valid x h) n)
        ];
      }

    -- The block behind has no data, and is put into the queue.
    module _ (n : ℕ) (e : (graph b).next ≡ some n) (none_yet : st.blocks n ≡ none) where
      abbrev pushed : Analysis
      pushed = push n front

      pushed-Pending : (c : ℕ) → Pending st c → Pending pushed c
      pushed-Pending c (alive _ h) = elim (same_or_apart c b) [
        | inl same ↦
            waits c n (ap (λ (x : ℕ). (graph x).next) same ∙ e)
              (ap (λ (f : ℕ → Option LivenessData). f n) (push-Keeps false n front).blocks
                ∙ none_yet)
              (alive n (rw (push-alive n front n).0 (or_true (pushed.valid n))))
        | inr a ↦ alive c ((push-alive n front c).1 (front-alive c a h))
      ]
      pushed-Pending c (waits _ m f no_data p) =
          waits c m f
            (ap (λ (k : ℕ → Option LivenessData). k m) (push-Keeps false n front).blocks ∙ no_data)
            (pushed-Pending m p)

      pub pushed-Inv :
          (returns : List ℕ)
          → st.valid n ≡ false
          → Inv returns st
          → AllFit bits live_ret graph pushed
          → Inv returns pushed
      pushed-Inv returns invalid v fit =
          let k = push-Keeps false n front in
          record {
            fit = fit;
            queue = push-IsQueue n front invalid front-IsQueue;
            known = λ c h.
                let (d, s) = v.known c (k.valid c h) in
                (d, ap (λ (f : ℕ → Option LivenessData). f c) k.blocks ∙ s);
            returning = λ c m. pushed-Pending c (v.returning c m);
            before = λ x c h m. pushed-Pending c (v.before x c (k.valid x h) m);
          }
