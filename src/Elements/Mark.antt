-- ===== src/Elements/Mark.antt =====
-- `markUnknown` of src/ProgramState.cpp forgets the pointer that reaches into the range from below.
use drob.Prelude.{
  ℕ, suc, ◌+◌, ◌-◌, ◌<◌, ◌≡◌, ap, arith, ◌⊎◌, inl, inr, true, false, some, >>=-eq-some, sym, ◌∙◌,
  Bool-cases, subst,
}
use drob.Value.{DynamicValueType, tail, stack_ptr_tail, is_ptr}
use drob.Elements.{
  State, ElementMetadata, clear_tail, find_parent, mark_tail, mark_by_type, mark_element, mark_from,
  mark_unknown, cleared, is_tail,
}
use drob.Elements.Weaken.{IsOpaque, mark_from-Forgets, mark_by_type-Forgets}
use drob.Elements.Fill.{clear_tail_self, find_parent_lem}
use drob.Elements.Describe.{HeadsHaveTails, tail_for}

-- A pointer that is opaque after some step is opaque after all later ones.
pub ptr-stays :
    (m m' : ElementMetadata) → (m' ≡ m) ⊎ IsOpaque m'.type → is_ptr m'.type ≡ true → m' ≡ m
ptr-stays m m' w h = ground arith

pub ptr-tail : (t : DynamicValueType) → is_ptr t ≡ true → is_tail (tail_for t) ≡ true
ptr-tail t h = ground arith

ptr-no_tail : (t : DynamicValueType) → is_ptr t ≡ true → is_tail t ≡ false
ptr-no_tail t h = ground arith

ptr-cleared : (t : DynamicValueType) → is_ptr (cleared t) ≡ false
ptr-cleared t = ground arith

-- The first round on a tail clears the pointer that the tail belongs to.
mark_by_type_tail :
    (t : DynamicValueType) (s s' : State) (b j : ℕ)
    → is_tail t ≡ true
    → find_parent b s.metadata ≡ some j
    → mark_by_type t s b 0 ≡ some s'
    → s' ≡ clear_tail s j
unfolding mark_by_type mark_tail
mark_by_type_tail tail s s' b j h e p = ground arith
mark_by_type_tail stack_ptr_tail s s' b j h e p = ground arith
mark_by_type_tail _ s s' b j h e p = cc

module _ (s s' : State) (b n j : ℕ) (wf : HeadsHaveTails s) (below : j < b) (near : b < j + 8)
    (room : b < s.size) where
  -- While a pointer starts at `j`, all between it and the range is its tail.
  between :
      is_ptr (s.metadata j).type ≡ true
      → (i : ℕ) → j < i
      → i < suc b
      → is_tail (s.metadata i).type ≡ true
  between h i p q =
      let e : j + (i - j) ≡ i = omega arith in
      let t = (wf j (i - j) (omega arith) h (omega arith) (omega arith)).1 in
      let t' = subst (λ k. (s.metadata k).type ≡ tail_for (s.metadata j).type) e t in
      ap is_tail t' ∙ ptr-tail _ h

  parent_found : is_ptr (s.metadata j).type ≡ true → find_parent b s.metadata ≡ some j
  parent_found h =
      find_parent_lem b j s.metadata below (λ i p q. between h i p (omega arith)) (ptr-no_tail _ h)

  first_round :
      (u : State)
      → mark_by_type (s.metadata (b + 0)).type s b 0 ≡ some u
      → is_ptr (u.metadata j).type ≡ true
      → ⊥
  first_round u e p =
      let same =
        ptr-stays (s.metadata j) (u.metadata j) ((mark_by_type-Forgets _ s u b 0 e).2 j) p in
      let q = sym (ap (λ (d : ElementMetadata). is_ptr d.type) same) ∙ p in
      let z : b + 0 ≡ b = omega arith in
      let t = between q (b + 0) (omega arith) (omega arith) in
      let c = mark_by_type_tail _ s u b j t (parent_found q) e in
      let r = ap (λ (d : State). is_ptr (d.metadata j).type) c in
      let k = ap is_ptr (clear_tail_self s j) in ground (arith, ptr-cleared (s.metadata j).type)

  -- After `markUnknown` no pointer that starts below the range reaches into it.
  pub mark_unknown_below : mark_unknown s b (suc n) ≡ some s' → is_ptr (s'.metadata j).type ≡ false
  unfolding mark_unknown mark_from mark_element
  mark_unknown_below h = elim (Bool-cases (is_ptr (s'.metadata j).type)) [
    | inr e ↦ e
    | inl e ↦
        let (u, f, g) = >>=-eq-some (mark_by_type (s.metadata (b + 0)).type s b 0) _ h in
        let same =
          ptr-stays (u.metadata j) (s'.metadata j) ((mark_from-Forgets n u s' b 1 g).2 j) e in
        absurd (first_round u f (sym (ap (λ (d : ElementMetadata). is_ptr d.type) same) ∙ e))
  ]
