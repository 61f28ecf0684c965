-- ===== src/Liveness/Worklist/Invariant.antt =====
-- The invariant of the queue of the liveness analysis of src/passes/LivenessAnalysisPass.hpp: the data of
-- a valid block fit those of the blocks behind it.
use drob.Prelude.{
  ℕ, ◌≡◌, inl, inr, refl, sym, ◌∙◌, subst, ◌==◌, ==_iff, if◌then◌else◌, Bool, true, false, not,
  Bool-cases, Option, none, some, drob_assert, List, [], ◌∷◌, ◌++◌, >>=-eq-some, some-eq,
  none-ne-some,
}
use drob.Liveness.{Mask, LivenessData, zero_mask}
use drob.Liveness.Worklist.{
  SuperBlock, Analysis, update, push, reenqueue_all, old_live_in, to_list, live_data, analyzed,
  entry_changed, remember_entry, analyze_block, with_next, from_next, process_block,
  enqueue_returns,
}
use drob.Liveness.Worklist.Transfer.{OfTargets}
use drob.Liveness.Worklist.Entry.{OfTargets-map, Named, update_same, update_other, true-ne-false}
use drob.Liveness.Worklist.Fits.{Fits, Fits-other, Fits-own}
use drob.Liveness.Worklist.Queue.{push-Keeps, reenqueue_all-Keeps}

-- Edges and neighbours are entered at both ends.
pub record IsGraph (graph : ℕ → SuperBlock) : Type 0 where
  pub edges : (b : ℕ) → OfTargets (λ dst. Named b (graph dst).incoming) (graph b).instructions
  pub falls : (b n : ℕ) → (graph b).next ≡ some n → Named b (to_list (graph n).prev)

module _ (bits : ℕ) (live_ret : Mask) (graph : ℕ → SuperBlock) where
  -- Each valid block fits.
  unfoldable pub AllFit : Analysis → Type 0
  AllFit st =
      (c : ℕ)
      → st.valid c ≡ true
      → Fits bits live_ret (graph c) st.blocks (st.attached c) (st.blocks c)

  -- Blocks that are still valid behind a change have no branch into the block that changed.
  unforced :
      (changed : Bool) (xs : List ℕ) (c dst b : ℕ)
      → (changed ≡ true → Named c xs → ⊥)
      → (dst ≡ b → Named c xs)
      → dst ≡ b
      → changed ≡ false
  unforced false xs c dst b k n e = refl
  unforced true xs c dst b k n e = elim (k refl (n e)) [ ]

  module _ (b : ℕ) (lo : Mask) (st : Analysis) (g : IsGraph graph) where
    abbrev changed : Bool
    changed = entry_changed bits live_ret graph b lo st

    abbrev after : Analysis
    after = remember_entry bits live_ret graph b lo st

    -- A block that the change of the entry of `b` does not make invalid.
    Spared : ℕ → Type 0
    Spared c =
        (changed ≡ true → Named c (graph b).incoming → ⊥)
        × (changed ≡ true → Named c (to_list (graph b).prev) → ⊥)

    FitsAfter : ℕ → Type 0
    FitsAfter c = Fits bits live_ret (graph c) after.blocks (after.attached c) (after.blocks c)

    Spared-branches :
        (c : ℕ) → Spared c → OfTargets (λ dst. dst ≡ b → changed ≡ false) (graph c).instructions
    unfolding Spared
    Spared-branches c (no_edge, no_prev) =
        OfTargets-map (graph c).instructions
          (λ dst n.
            unforced changed (graph b).incoming c dst b no_edge
              (λ e. subst (λ (d : ℕ). Named c (graph d).incoming) e n))
          (g.edges c)

    Spared-falls : (c : ℕ) → Spared c → (n : ℕ) → (graph c).next ≡ some n → n ≡ b → changed ≡ false
    unfolding Spared
    Spared-falls c (no_edge, no_prev) n e =
        unforced changed (to_list (graph b).prev) c n b no_prev
          (λ i. subst (λ (d : ℕ). Named c (to_list (graph d).prev)) i (g.falls c n e))

    own_fits :
        ((n : ℕ)
          → (graph b).next ≡ some n
          → (d : LivenessData) × (st.blocks n ≡ some d) × (d.live_in ≡ lo))
        → Spared b
        → FitsAfter b
    unfolding FitsAfter
    own_fits known s =
        let r = analyzed bits live_ret graph b lo st in
        subst (λ a. Fits bits live_ret (graph b) after.blocks a (after.blocks b))
          (sym (update_same b r.0 st.attached b refl))
          (Fits-own bits live_ret (graph b) st.blocks b lo r.1 changed (Spared-branches b s)
            (Spared-falls b s) refl refl known)

    other_fits : (c : ℕ) → (c ≡ b → ⊥) → AllFit st → st.valid c ≡ true → Spared c → FitsAfter c
    unfolding FitsAfter AllFit
    other_fits c e fit v s =
        let r = analyzed bits live_ret graph b lo st in
        rw
          (
            update_other b r.0 st.attached c e,
            update_other b
                (some (live_data lo (if changed then r.1 else old_live_in (st.blocks b)))) st.blocks
                c e,
          )
          (Fits-other bits live_ret (graph c) st.blocks b lo r.1 changed (Spared-branches c s)
            (Spared-falls c s) (st.attached c) (st.blocks c) (fit c v))

    after_fits :
        (c : ℕ)
        → ((n : ℕ)
            → (graph b).next ≡ some n
            → (d : LivenessData) × (st.blocks n ≡ some d) × (d.live_in ≡ lo))
        → AllFit st
        → after.valid c ≡ true
        → Spared c
        → FitsAfter c
    after_fits c known fit v s = elim (Bool-cases (c == b)) [
      | inl e ↦
          let same = (==_iff c b).0 e in
          subst (λ (x : ℕ). FitsAfter x) (sym same)
            (own_fits known (subst (λ (x : ℕ). Spared x) same s))
      | inr e ↦
          let apart = λ (i : c ≡ b). true-ne-false (sym ((==_iff c b).1 i) ∙ e) in
          other_fits c apart fit (rw (update_other b true st.valid c apart) at v) s
    ]

    analyze_block-AllFit :
        ((n : ℕ)
          → (graph b).next ≡ some n
          → (d : LivenessData) × (st.blocks n ≡ some d) × (d.live_in ≡ lo))
        → AllFit st
        → AllFit (analyze_block bits live_ret graph b lo st)
    unfolding analyze_block AllFit Spared FitsAfter
    analyze_block-AllFit known fit c v =
        let middle = reenqueue_all changed (graph b).incoming after in
        let k = reenqueue_all-Keeps changed (graph b).incoming after in
        let l = reenqueue_all-Keeps changed (to_list (graph b).prev) middle in
        let m = l.valid c v in
        rw (l.blocks ∙ k.blocks, l.attached ∙ k.attached)
          (after_fits c known fit (k.valid c m) (k.unnamed c m, l.unnamed c v))

  push-AllFit : (b : ℕ) (st : Analysis) → AllFit st → AllFit (push b st)
  unfolding AllFit
  push-AllFit b st fit c v =
      let k = push-Keeps false b st in rw (k.blocks, k.attached) (fit c (k.valid c v))

  with_next-AllFit :
      (b n : ℕ) (o : Option LivenessData) (st st' : Analysis)
      → IsGraph graph
      → (graph b).next ≡ some n
      → st.blocks n ≡ o
      → with_next bits live_ret graph b n o st ≡ some st'
      → AllFit st
      → AllFit st'
  with_next-AllFit b n none st st' g e is h fit =
      let (_, _, pushed) = >>=-eq-some (drob_assert (not (st.valid n))) _ h in
      subst (λ s. AllFit s) (some-eq pushed) (push-AllFit n st fit)
  with_next-AllFit b n (some d) st st' g e is h fit =
      subst (λ s. AllFit s) (some-eq h)
        (analyze_block-AllFit b d.live_in st g
          (λ m next. (d, subst (λ (x : ℕ). st.blocks x ≡ some d) (some-eq (sym e ∙ next)) is, refl))
          fit)

  from_next-AllFit :
      (b : ℕ) (o : Option ℕ) (st st' : Analysis)
      → IsGraph graph
      → (graph b).next ≡ o
      → from_next bits live_ret graph b o st ≡ some st'
      → AllFit st
      → AllFit st'
  from_next-AllFit b none st st' g e h fit =
      subst (λ s. AllFit s) (some-eq h)
        (analyze_block-AllFit b zero_mask st g (λ n next. elim (none-ne-some (sym e ∙ next)) [ ])
          fit)
  from_next-AllFit b (some n) st st' g e h fit =
      with_next-AllFit b n (st.blocks n) st st' g e refl h fit

  -- In a graph whose edges and neighbours are entered at both ends, and where the data of each valid
  -- block fit those behind it, this still holds where `processBlock` returns.
  pub process_block-AllFit :
      (b : ℕ) (st st' : Analysis)
      → IsGraph graph
      → process_block bits live_ret graph b st ≡ some st'
      → AllFit st
      → AllFit st'
  unfolding process_block
  process_block-AllFit b st st' g h fit =
      let (_, _, next) = >>=-eq-some (drob_assert (not (st.valid b))) _ h in
      from_next-AllFit b (graph b).next st st' g refl next fit

  -- Blocks of which none is valid.
  pub enqueue_returns-AllFit :
      (xs : List ℕ) (st : Analysis)
      → ((b : ℕ) → st.valid b ≡ false)
      → AllFit (enqueue_returns bits live_ret graph xs st)
  unfolding AllFit
  enqueue_returns-AllFit [] st none_valid c v = elim (true-ne-false (sym v ∙ none_valid c)) [ ]
  enqueue_returns-AllFit (x ∷ xs) st none_valid c v =
      enqueue_returns-AllFit xs
        (record st { queued = update x true st.queued; queue = st.queue ++ x ∷ [] }) none_valid c v
