-- ===== src/Liveness/Worklist/Fits.antt =====
-- When the liveness data of a block fit those of the blocks behind it, and how `processBlock` of
-- src/passes/LivenessAnalysisPass.hpp keeps that.
use drob.Prelude.{
  ℕ, ◌<◌, ◌≡◌, refl, sym, ap, ◌∙◌, subst, if◌then◌else◌, if_cases, Bool, true, false, not, Option,
  some, List,
}
use drob.Liveness.{Mask, LivenessData, equal_mask, process_instructions}
use drob.Liveness.Masks.{equal_mask-bit}
use drob.Liveness.Worklist.{SuperBlock, old_live_in}
use drob.Liveness.Worklist.Transfer.{SameFor, OfTargets, same_instructions}
use drob.Liveness.Worklist.Entry.{
  not-false, update_same, OfTargets-map, first_entry, entry_data, last_entry, same_first, same_last,
  last_next,
}

-- The data of a block fit those of the blocks behind it, and those of its instructions are the
-- ones computed from them.
pub record Fits (bits : ℕ) (live_ret : Mask) (block : SuperBlock) (f : ℕ → Option LivenessData)
    (attached : List (Option LivenessData)) (o : Option LivenessData) : Type 0 where
  pub entry : LivenessData
  pub is_entry : o ≡ some entry
  pub live_in :
      (r : ℕ)
      → r < bits
      → (process_instructions bits live_ret f block.instructions entry.live_out).1 r ≡ true
      → entry.live_in r ≡ true
  pub is_attached :
      attached ≡ (process_instructions bits live_ret f block.instructions entry.live_out).0
  pub live_out :
      (n : ℕ)
      → block.next ≡ some n
      → (d : LivenessData) × (f n ≡ some d) × (d.live_in ≡ entry.live_out)

module _ (bits : ℕ) (live_ret : Mask) (block : SuperBlock) (f : ℕ → Option LivenessData) (b : ℕ)
    (lo new : Mask) (changed : Bool)
    (branches : OfTargets (λ dst. dst ≡ b → changed ≡ false) block.instructions)
    (falls : (n : ℕ) → block.next ≡ some n → n ≡ b → changed ≡ false) where
  same_branches :
      OfTargets
        (SameFor (first_entry f b lo new changed) (last_entry f b lo new changed))
        block.instructions
  same_branches =
      OfTargets-map block.instructions (λ dst k. same_last f b lo new changed dst k) branches

  all_branches : OfTargets (SameFor f (last_entry f b lo new changed)) block.instructions
  unfolding SameFor
  all_branches =
      OfTargets-map block.instructions
        (λ dst k m. same_first f b lo new changed dst m ∙ same_last f b lo new changed dst k m)
        branches

  -- Another block, whose branches do not lead to a changed entry.
  pub Fits-other :
      (attached : List (Option LivenessData)) (o : Option LivenessData)
      → Fits bits live_ret block f attached o
      → Fits bits live_ret block (last_entry f b lo new changed) attached o
  Fits-other attached o h =
      let g = last_entry f b lo new changed in
      let same =
        same_instructions bits live_ret f g block.instructions h.entry.live_out all_branches in
      record {
        entry = h.entry;
        is_entry = h.is_entry;
        live_in = λ r le e. h.live_in r le (rw same e);
        is_attached = h.is_attached ∙ ap (λ (p : List (Option LivenessData) × Mask). p.0) same;
        live_out = λ n e.
            let (dn, known, out) = h.live_out n e in
            let (d, is, same_in) = last_next f b lo new changed n dn known (falls n e) in
            (d, is, same_in ∙ out);
      }

  entry_covers :
      (old m : Mask) (r : ℕ)
      → changed ≡ not (equal_mask bits old m)
      → r < bits
      → m r ≡ true
      → (if changed then m else old) r ≡ true
  entry_covers old m r c le h =
      if_cases (λ (x : Mask). x r ≡ true) changed (λ _. h)
        (λ e. equal_mask-bit bits old m (not-false (equal_mask bits old m) (sym c ∙ e)) r le ∙ h)

  -- The block itself.
  pub Fits-own :
      let r =
        process_instructions bits live_ret (first_entry f b lo new changed) block.instructions lo in
      new ≡ r.1
      → changed ≡ not (equal_mask bits (old_live_in (f b)) r.1)
      → ((n : ℕ) → block.next ≡ some n → (d : LivenessData) × (f n ≡ some d) × (d.live_in ≡ lo))
      → Fits bits live_ret block
          (last_entry f b lo new changed)
          r.0
          (last_entry f b lo new changed b)
  Fits-own is_new c known =
      let p = first_entry f b lo new changed in
      let g = last_entry f b lo new changed in
      let same = same_instructions bits live_ret p g block.instructions lo same_branches in
      let m = (process_instructions bits live_ret p block.instructions lo).1 in
      record {
        entry = entry_data f b lo new changed;
        is_entry = update_same b (some (entry_data f b lo new changed)) f b refl;
        live_in = λ r le e.
            subst (λ (x : Mask). (if changed then x else old_live_in (f b)) r ≡ true) (sym is_new)
              (entry_covers (old_live_in (f b)) m r c le (rw (← same) at e));
        is_attached = ap (λ (q : List (Option LivenessData) × Mask). q.0) same;
        live_out = λ n e.
            let (dn, is, out) = known n e in
            let (d, is_last, same_in) = last_next f b lo new changed n dn is (falls n e) in
            (d, is_last, same_in ∙ out);
      }
