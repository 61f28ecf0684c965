-- ===== src/Elements/Merge/Cycle.antt =====
-- Dead elements for which `mergeElements` of src/ProgramState.cpp reports a difference again and again.
use drob.Prelude.{
  ℕ, zero, suc, ◌+◌, ◌<◌, ◌≤◌, ◌≡◌, refl, arith, ◌⊎◌, inl, inr, Bool, true, false, some, ◌∙◌, ◌||◌,
}
use drob.Value.{DynamicValueType, dead, unknown, immediate}
use drob.Elements.{State}
use drob.Elements.Merge.{merge_element, merge_skip, merge_from, merge_elements, merge_other, retype}
use drob.Elements.Merge.Sound.{merge_from-Forgets}

-- All elements have one type.
abbrev pub Uniform : DynamicValueType → State → Type 0
Uniform t s = (j : ℕ) → j < s.size → (s.metadata j).type ≡ t

-- What one round does at the types `a` and `b`.
abbrev RoundAt : DynamicValueType → DynamicValueType → DynamicValueType → Bool → Type 0
RoundAt a b c d =
    (l r : State) (i : ℕ)
    → (l.metadata i).type ≡ a
    → (r.metadata i).type ≡ b
    → (merge_element l r i ≡ (retype l i c, d)) × (merge_skip l r i ≡ 0)

round_kill : RoundAt unknown dead dead false
unfolding merge_element merge_other
round_kill l r i h k = (ground arith, ground arith)

round_revive : RoundAt dead immediate unknown true
unfolding merge_element merge_other
round_revive l r i h k = (ground arith, ground arith)

merge_from-zero : (i : ℕ) (l r : State) (diff : Bool) → merge_from 0 0 i l r diff ≡ (l, diff)
unfolding merge_from
merge_from-zero i l r diff = refl

merge_from-suc :
    (n i : ℕ) (l r : State) (diff : Bool)
    → merge_from (suc n) 0 i l r diff
      ≡ merge_from n
          (merge_skip l r i)
          (suc i)
          (merge_element l r i).0
          r
          (diff || (merge_element l r i).1)
unfolding merge_from
merge_from-suc n i l r diff = refl

-- The loop over elements of two uniform states.
module _ (a b c : DynamicValueType) (d : Bool) (round : RoundAt a b c d) (r : State) (k : ℕ)
    (right : (j : ℕ) → j < k → (r.metadata j).type ≡ b) where
  Uniform-from :
      (n i : ℕ) (l : State) (diff : Bool)
      → i + n ≡ k
      → ((j : ℕ) → j < i → (l.metadata j).type ≡ c)
      → ((j : ℕ) → i ≤ j → j < k → (l.metadata j).type ≡ a)
      → let p = merge_from n 0 i l r diff in
        ((p.1 ≡ (diff || d)) ⊎ ((n ≡ 0) × (p.1 ≡ diff)))
        × ((j : ℕ) → j < k → (p.0.metadata j).type ≡ c)
  Uniform-from zero i l diff e before after =
      rw (merge_from-zero i l r diff) (inr (refl, refl), λ j x. before j (omega arith))
  Uniform-from (suc n) i l diff e before after =
      let (p, q) = round l r i (after i (omega arith) (omega arith)) (right i (omega arith)) in
      let ih =
        Uniform-from n (suc i) (retype l i c) (diff || d) (omega arith)
          (λ j x. ground (arith, before j)) (λ j x y. ground (arith, after j)) in
      rw (merge_from-suc n i l r diff, p, q) (inl (ground (arith, ih.0)), ih.1)

  Uniform-merge :
      (l : State)
      → l.size ≡ k
      → r.size ≡ k
      → 0 < k
      → Uniform a l
      → (l' : State) × (merge_elements l r ≡ some (l', d))
        × (l'.size ≡ k)
        × ((j : ℕ) → j < k → (l'.metadata j).type ≡ c)
  unfolding merge_elements
  Uniform-merge l e f pos u =
      let p = merge_from l.size 0 0 l r false in
      let (x, y) =
        Uniform-from l.size 0 l false (omega arith) (λ j z. absurd (omega arith))
          (λ j _ z. u j (omega arith)) in
      let z : p.1 ≡ d = ground (arith, x) in
      (p.0, ground (arith, z), (merge_from-Forgets l.size 0 0 l r false).0 ∙ e, y)

-- If a state of unknown elements is merged with one of dead elements, no difference is reported, and
-- if that is merged with one of immediate elements, one is reported and all elements are unknown
-- again. So two such predecessors report a difference each time they are merged in turn.
pub merge_elements_never_settles :
    (l r₁ r₂ : State)
    → 0 < l.size
    → r₁.size ≡ l.size
    → r₂.size ≡ l.size
    → Uniform unknown l
    → Uniform dead r₁
    → Uniform immediate r₂
    → (l₁ l₂ : State) × (merge_elements l r₁ ≡ some (l₁, false))
      × (merge_elements l₁ r₂ ≡ some (l₂, true))
      × (l₂.size ≡ l.size)
      × Uniform unknown l₂
merge_elements_never_settles l r₁ r₂ pos e₁ e₂ u d i =
    let (l₁, p, s, t) =
      Uniform-merge unknown dead dead false round_kill r₁ l.size (λ j x. d j (omega arith)) l refl
        e₁ pos u in
    let (l₂, q, s', t') =
      Uniform-merge dead immediate unknown true round_revive r₂ l.size (λ j x. i j (omega arith)) l₁
        s e₂ pos (λ j x. t j (omega arith)) in
    (l₁, l₂, p, q, s', λ j x. t' j (omega arith))
