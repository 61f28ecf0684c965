-- ===== src/Elements/Weaken.antt =====
-- What `clearTail` and `markUnknown` of src/ProgramState.cpp may change: they only forget types.
use drob.Prelude.{
  subst, drob_assert, ℕ, zero, suc, ◌+◌, ◌-◌, ◌≡◌, ◌∙◌, refl, arith, ◌⊎◌, inl, some, ◌==◌,
  >>=-eq-some,
}
use drob.Value.{DynamicValueType, dead, unknown, tainted, immediate, tail, stack_ptr_tail}
use drob.Elements.{
  State, Metadata, put_type, clear_tail_from, clear_tail, find_parent, mark_element, mark_tail,
  mark_by_type, mark_from, mark_unknown, cleared,
}

-- The types that say nothing of the value.
abbrev pub IsOpaque : DynamicValueType → Type 0
IsOpaque dead = Unit
IsOpaque unknown = Unit
IsOpaque tainted = Unit
IsOpaque _ = ⊥

abbrev pub Weakens : Metadata → Metadata → Type 0
Weakens m m' = (j : ℕ) → (m' j ≡ m j) ⊎ IsOpaque (m' j).type

pub Weakens-refl : (m : Metadata) → Weakens m m
Weakens-refl m j = inl refl

pub Weakens-trans : (m m' m'' : Metadata) → Weakens m m' → Weakens m' m'' → Weakens m m''
Weakens-trans m m' m'' h k j = ground (arith, h j, k j)

pub put_type-Weakens :
    (m : Metadata) (i : ℕ) (t : DynamicValueType) → IsOpaque t → Weakens m (put_type m i t)
put_type-Weakens m i t h j = ground arith

pub cleared-IsOpaque : (t : DynamicValueType) → IsOpaque (cleared t)
cleared-IsOpaque dead = tt
cleared-IsOpaque _ = tt

clear_tail_from-Weakens : (n i : ℕ) (m : Metadata) → Weakens m (clear_tail_from n i m)
unfolding clear_tail_from
clear_tail_from-Weakens zero i m j = inl refl
clear_tail_from-Weakens (suc n) i m j = ground (
  arith,
  clear_tail_from-Weakens n (suc i) (put_type m i unknown) j,
  clear_tail_from-Weakens n (suc i) (put_type m i tainted) j,
)

pub clear_tail-Weakens : (s : State) (i : ℕ) → Weakens s.metadata (clear_tail s i).metadata
unfolding clear_tail
clear_tail-Weakens s i j =
    Weakens-trans s.metadata _ _
      (put_type-Weakens s.metadata i _ (cleared-IsOpaque (s.metadata i).type))
      (clear_tail_from-Weakens (s.size - suc i) (suc i) _) j

-- Nothing but types changes.
abbrev pub Forgets : State → State → Type 0
Forgets s s' = (s'.size ≡ s.size) × (s'.bytes ≡ s.bytes) × Weakens s.metadata s'.metadata

pub clear_tail-Forgets : (s : State) (i : ℕ) → Forgets s (clear_tail s i)
unfolding clear_tail
clear_tail-Forgets s i = (refl, refl, clear_tail-Weakens s i)

pub Forgets-trans : (s s' s'' : State) → Forgets s s' → Forgets s' s'' → Forgets s s''
Forgets-trans s s' s'' h k =
    (k.0 ∙ h.0, k.1 ∙ h.1, Weakens-trans s.metadata s'.metadata s''.metadata h.2 k.2)

Forgets-some : {s s' t : State} → Forgets s t → some t ≡ some s' → Forgets s s'
Forgets-some {s} {s'} {t} h e = let q : t ≡ s' = cc in subst (λ u. Forgets s u) q h

mark_tail-Forgets : (s s' : State) (b i : ℕ) → mark_tail s b i ≡ some s' → Forgets s s'
unfolding mark_tail
mark_tail-Forgets s s' b i h =
    let (u, _, h') = >>=-eq-some (drob_assert (i == 0)) _ h in
    let (k, _, e) = >>=-eq-some (find_parent b s.metadata) _ h' in
    Forgets-some (clear_tail-Forgets s k) e

pub mark_by_type-Forgets :
    (t : DynamicValueType) (s s' : State) (b i : ℕ) → mark_by_type t s b i ≡ some s' → Forgets s s'
unfolding mark_by_type
mark_by_type-Forgets dead s s' b i h =
    Forgets-some (refl, refl, put_type-Weakens s.metadata (b + i) unknown tt) h
mark_by_type-Forgets immediate s s' b i h =
    Forgets-some (refl, refl, put_type-Weakens s.metadata (b + i) unknown tt) h
mark_by_type-Forgets tail s s' b i h = mark_tail-Forgets s s' b i h
mark_by_type-Forgets stack_ptr_tail s s' b i h = mark_tail-Forgets s s' b i h
mark_by_type-Forgets tainted s s' b i h = Forgets-some (refl, refl, Weakens-refl s.metadata) h
mark_by_type-Forgets unknown s s' b i h = Forgets-some (refl, refl, Weakens-refl s.metadata) h
mark_by_type-Forgets _ s s' b i h = Forgets-some (clear_tail-Forgets s b) h

pub mark_from-Forgets :
    (n : ℕ) (s s' : State) (b i : ℕ) → mark_from n s b i ≡ some s' → Forgets s s'
unfolding mark_from mark_element
mark_from-Forgets zero s s' b i h = Forgets-some (refl, refl, Weakens-refl s.metadata) h
mark_from-Forgets (suc n) s s' b i h =
    let (t, e, h') = >>=-eq-some (mark_by_type (s.metadata (b + i)).type s b i) _ h in
    Forgets-trans s t s' (mark_by_type-Forgets _ s t b i e) (mark_from-Forgets n t s' b (suc i) h')

-- `markUnknown` changes no byte and no number of a pointer, and forgets types only.
pub mark_unknown-Forgets : (s s' : State) (b n : ℕ) → mark_unknown s b n ≡ some s' → Forgets s s'
unfolding mark_unknown
mark_unknown-Forgets s s' b n h = mark_from-Forgets n s s' b 0 h
