-- ===== src/Liveness/Worklist/Entry.antt =====
-- One change of the liveness data of a block, as `processBlock` of
-- src/passes/LivenessAnalysisPass.hpp makes it.
use drob.Prelude.{
  ℕ, ◌≡◌, ◌⊎◌, inl, inr, refl, sym, ap, ◌∙◌, subst, ◌==◌, ==_iff, if◌then◌else◌, if_cases, Bool,
  true, false, not, ◌||◌, Bool-cases, Option, none, some, List, [], ◌∷◌,
}
use drob.Liveness.{
  Mask, Instruction, ControlFlow, other, call, ret, branch, LivenessData, add_known,
}
use drob.Liveness.Worklist.{update, old_live_in, live_data}
use drob.Liveness.Worklist.Transfer.{SameFor, OfTarget, OfTargets}

pub not-false : (a : Bool) → not a ≡ false → a ≡ true
not-false true h = refl
not-false false h = cc

pub true-ne-false : true ≡ false → ⊥
true-ne-false h = cc

pub update_same : {A : Type 0} (b : ℕ) (v : A) (f : ℕ → A) (c : ℕ) → c ≡ b → update b v f c ≡ v
update_same b v f c e =
    if_cases (λ x. x ≡ v) (c == b) (λ _. refl)
      (λ n. elim (true-ne-false (sym ((==_iff c b).1 e) ∙ n)) [ ])

pub update_other :
    {A : Type 0} (b : ℕ) (v : A) (f : ℕ → A) (c : ℕ) → (c ≡ b → ⊥) → update b v f c ≡ f c
update_other b v f c e =
    if_cases (λ x. x ≡ f c) (c == b) (λ h. elim (e ((==_iff c b).0 h)) [ ]) (λ _. refl)

unfoldable pub Named : ℕ → List ℕ → Type 0
Named c [] = ⊥
Named c (x ∷ xs) = (c ≡ x) ⊎ Named c xs

OfTarget-map :
    {P Q : ℕ → Type 0} (flow : ControlFlow)
    → ((b : ℕ) → P b → Q b)
    → OfTarget P flow
    → OfTarget Q flow
unfolding OfTarget
OfTarget-map (branch (some dst)) k h = k dst h
OfTarget-map (branch none) k h = tt
OfTarget-map other k h = tt
OfTarget-map call k h = tt
OfTarget-map ret k h = tt

pub or_false : (a : Bool) → a || false ≡ a
or_false true = refl
or_false false = refl

pub OfTargets-map :
    {P Q : ℕ → Type 0} (is : List Instruction)
    → ((b : ℕ) → P b → Q b)
    → OfTargets P is
    → OfTargets Q is
unfolding OfTargets
OfTargets-map [] k h = tt
OfTargets-map (i ∷ is) k (h, hs) = (OfTarget-map i.flow k h, OfTargets-map is k hs)

-- The first data of a block mean the same as none.
pub old_SameFor :
    (o : Option LivenessData) (lo m : Mask)
    → add_known m o ≡ add_known m (some (live_data lo (old_live_in o)))
old_SameFor (some d) lo m = refl
old_SameFor none lo m = λ i r. sym (or_false (m r)) i

-- One change of the data of a block `b`, from what they were over a first entry to the new one.
module _ (f : ℕ → Option LivenessData) (b : ℕ) (lo new : Mask) (changed : Bool) where
  abbrev pub first_entry : ℕ → Option LivenessData
  first_entry = update b (some (live_data lo (old_live_in (f b)))) f

  abbrev pub entry_data : LivenessData
  entry_data = live_data lo (if changed then new else old_live_in (f b))

  abbrev pub last_entry : ℕ → Option LivenessData
  last_entry = update b (some entry_data) f

  pub same_first : (c : ℕ) → SameFor f first_entry c
  unfolding SameFor
  same_first c m =
      if_cases (λ o. add_known m (f c) ≡ add_known m o) (c == b)
        (λ e.
          subst
            (λ (n : ℕ). add_known m (f c) ≡ add_known m (some (live_data lo (old_live_in (f n)))))
            ((==_iff c b).0 e) (old_SameFor (f c) lo m))
        (λ _. refl)

  pub same_last : (c : ℕ) → (c ≡ b → changed ≡ false) → SameFor first_entry last_entry c
  unfolding SameFor
  same_last c k m = elim (Bool-cases (c == b)) [
    | inl e ↦ rw (e, k ((==_iff c b).0 e)) refl
    | inr e ↦ rw e refl
  ]

  pub last_next :
      (n : ℕ) (dn : LivenessData)
      → f n ≡ some dn
      → (n ≡ b → changed ≡ false)
      → (d : LivenessData) × (last_entry n ≡ some d) × (d.live_in ≡ dn.live_in)
  last_next n dn e k = elim (Bool-cases (n == b)) [
    | inl h ↦
        let same = (==_iff n b).0 h in
        let old : old_live_in (f b) ≡ dn.live_in =
          subst (λ (c : ℕ). old_live_in (f c) ≡ dn.live_in) same (ap old_live_in e) in
        (entry_data, update_same b (some entry_data) f n same, rw (k same) old)
    | inr h ↦ (dn, rw h e, refl)
  ]
