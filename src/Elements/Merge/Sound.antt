-- ===== src/Elements/Merge/Sound.antt =====
-- `mergeElements` of src/ProgramState.cpp gives an upper bound of both states.
use native.Mathlib.Decide.{dec_lt}
use drob.Prelude.{
  ℕ, zero, suc, ◌+◌, ◌-◌, ◌<◌, ◌≤◌, ◌≡◌, refl, ap, arith, ◌⊎◌, inl, inr, Bool, true, false, some,
  ◌==◌, >>=-eq-some, sym, ◌∙◌, drob_assert, Bool-cases, subst, ◌||◌, ◌≢◌,
}
use drob.Prelude.Bytes.{Bytes, load}
use drob.Value.{DynamicValueType, dead, unknown, tainted, immediate, is_ptr, type_eq}
use drob.Value.Laws.{Bases}
use drob.Elements.{State, ElementMetadata, is_tail, clear_tail}
use drob.Elements.Weaken.{
  IsOpaque, Forgets, Forgets-trans, clear_tail-Forgets, cleared-IsOpaque, put_type-Weakens,
  Weakens-refl,
}
use drob.Elements.Fill.{clear_tail_self}
use drob.Elements.Describe.{HeadsHaveTails, Describes, Forgets-Describes, tail_for}
use drob.Elements.Write.{DescribesAt, ptr_type-is_ptr}
use drob.Elements.Mark.{ptr-stays, ptr-tail}
use drob.Elements.Merge.{
  merge_same, merge_other, merge_element, merge_skip, merge_from, merge_elements, retype,
  is_stackish,
}

retype-Forgets : (l : State) (i : ℕ) (t : DynamicValueType) → IsOpaque t → Forgets l (retype l i t)
retype-Forgets l i t h = (refl, refl, put_type-Weakens l.metadata i t h)

pub Forgets-refl : (l : State) → Forgets l l
Forgets-refl l = (refl, refl, Weakens-refl l.metadata)

-- An element of the right state agrees with what the left state has at `i`.
abbrev pub Agrees : State → State → ℕ → Type 0
Agrees l r j =
    ((l.metadata j).type ≡ immediate → ((r.metadata j).type ≡ immediate) × (l.bytes j ≡ r.bytes j))
    × (is_ptr (l.metadata j).type ≡ true
        → ((r.metadata j).type ≡ (l.metadata j).type)
          × ((r.metadata j).nr ≡ (l.metadata j).nr)
          × (load 8 j l.bytes ≡ load 8 j r.bytes))

-- The five results of one round.
abbrev pub Kept : State → State → ℕ → State × Bool → Type 0
Kept l r i p = (p ≡ (l, false)) × Agrees l r i

abbrev pub Cleared : State → ℕ → State × Bool → Type 0
Cleared l i p = (p ≡ (clear_tail l i, true)) × (is_ptr (l.metadata i).type ≡ true)

abbrev pub Forgotten : State → ℕ → State × Bool → Type 0
Forgotten l i p =
    (p ≡ (retype l i unknown, true))
    × ((l.metadata i).type ≢ unknown)
    × (is_stackish (l.metadata i).type ≡ false)

abbrev pub Killed : State → State → ℕ → State × Bool → Type 0
Killed l r i p =
    (p ≡ (retype l i dead, false)) × (((r.metadata i).type ≡ dead) ⊎ ((l.metadata i).type ≡ dead))

abbrev pub Tainted : State → ℕ → State × Bool → Type 0
Tainted l i p = (p ≡ (retype l i tainted, true)) × ((l.metadata i).type ≢ tainted)

abbrev pub Round : State → State → ℕ → State × Bool → Type 0
Round l r i p =
    Kept l r i p ⊎ (Cleared l i p ⊎ (Forgotten l i p ⊎ (Killed l r i p ⊎ Tainted l i p)))

type_eq-eq : (t u : DynamicValueType) → type_eq t u ≡ true → t ≡ u
type_eq-eq dead u h = ground arith
type_eq-eq _ u h = ground arith

merge_same-Round :
    (l r : State) (i : ℕ)
    → (l.metadata i).type ≡ (r.metadata i).type
    → Round l r i (merge_same l r i)
unfolding merge_same
merge_same-Round l r i h = ground arith

merge_other-Round :
    (l r : State) (i : ℕ)
    → type_eq (l.metadata i).type (r.metadata i).type ≡ false
    → Round l r i (merge_other l (l.metadata i).type (r.metadata i).type i)
unfolding merge_other
merge_other-Round l r i h = ground arith

pub merge_element-Round : (l r : State) (i : ℕ) → Round l r i (merge_element l r i)
unfolding merge_element
merge_element-Round l r i = elim (Bool-cases (type_eq (l.metadata i).type (r.metadata i).type)) [
  | inl e ↦ rw e (merge_same-Round l r i (type_eq-eq _ _ e))
  | inr e ↦ rw e (merge_other-Round l r i e)
]

Forgets-pair :
    (l l' : State) (d : Bool) (p : State × Bool) → Forgets l l' → p ≡ (l', d) → Forgets l p.0
Forgets-pair l l' d p h e = subst (λ (q : State × Bool). Forgets l q.0) (sym e) h

pub merge_element-Forgets : (l r : State) (i : ℕ) → Forgets l (merge_element l r i).0
merge_element-Forgets l r i = elim (merge_element-Round l r i) [
  | inl (e, _) ↦ Forgets-pair l _ _ _ (Forgets-refl l) e
  | inr (inl (e, _)) ↦ Forgets-pair l _ _ _ (clear_tail-Forgets l i) e
  | inr (inr (inl (e, _, _))) ↦ Forgets-pair l _ _ _ (retype-Forgets l i unknown tt) e
  | inr (inr (inr (inl (e, _)))) ↦ Forgets-pair l _ _ _ (retype-Forgets l i dead tt) e
  | inr (inr (inr (inr (e, _)))) ↦ Forgets-pair l _ _ _ (retype-Forgets l i tainted tt) e
]

pub merge_from-Forgets :
    (n skip i : ℕ) (l r : State) (diff : Bool) → Forgets l (merge_from n skip i l r diff).0
unfolding merge_from
merge_from-Forgets zero skip i l r diff = Forgets-refl l
merge_from-Forgets (suc n) (suc skip) i l r diff = merge_from-Forgets n skip (suc i) l r diff
merge_from-Forgets (suc n) zero i l r diff =
    let p = merge_element l r i in
    Forgets-trans l p.0 _ (merge_element-Forgets l r i)
      (merge_from-Forgets n (merge_skip l r i) (suc i) p.0 r (diff || p.1))

opaque-Agrees : (l r : State) (i : ℕ) → IsOpaque (l.metadata i).type → Agrees l r i
opaque-Agrees l r i h = ground arith

Agrees-pair :
    (l' r : State) (i : ℕ) (d : Bool) (p : State × Bool)
    → Agrees l' r i
    → p ≡ (l', d)
    → Agrees p.0 r i
Agrees-pair l' r i d p h e = subst (λ (q : State × Bool). Agrees q.0 r i) (sym e) h

retype_opaque :
    (l : State) (i : ℕ) (t : DynamicValueType)
    → IsOpaque t
    → IsOpaque ((retype l i t).metadata i).type
retype_opaque l i t h = ground arith

merge_element-Agrees : (l r : State) (i : ℕ) → Agrees (merge_element l r i).0 r i
merge_element-Agrees l r i = elim (merge_element-Round l r i) [
  | inl (e, a) ↦ Agrees-pair l r i _ _ a e
  | inr (inl (e, _)) ↦
      Agrees-pair (clear_tail l i) r i _ _
        (opaque-Agrees (clear_tail l i) r i
          (rw (clear_tail_self l i) (cleared-IsOpaque (l.metadata i).type)))
        e
  | inr (inr (inl (e, _, _))) ↦
      Agrees-pair (retype l i unknown) r i _ _
        (opaque-Agrees (retype l i unknown) r i (retype_opaque l i unknown tt)) e
  | inr (inr (inr (inl (e, _)))) ↦
      Agrees-pair (retype l i dead) r i _ _
        (opaque-Agrees (retype l i dead) r i (retype_opaque l i dead tt)) e
  | inr (inr (inr (inr (e, _)))) ↦
      Agrees-pair (retype l i tainted) r i _ _
        (opaque-Agrees (retype l i tainted) r i (retype_opaque l i tainted tt)) e
]

-- Forgetting keeps the agreement.
Forgets-Agrees : (l l' r : State) (j : ℕ) → Forgets l l' → Agrees l r j → Agrees l' r j
Forgets-Agrees l l' r j (e, f, w) a =
    let g : l'.bytes j ≡ l.bytes j = ap (λ (b : Bytes). b j) f in
    let k : load 8 j l'.bytes ≡ load 8 j l.bytes = ap (λ (b : Bytes). load 8 j b) f in
    elim (w j) [
      | inr o ↦ opaque-Agrees l' r j o
      | inl same ↦
          let ty = ap (λ (d : ElementMetadata). d.type) same in
          let n = ap (λ (d : ElementMetadata). d.nr) same in
          (
            λ i. let (x, y) = a.0 (sym ty ∙ i) in (x, g ∙ y),
            λ p. let (x, y, z) = a.1 (sym (ap is_ptr ty) ∙ p) in (x ∙ sym ty, y ∙ sym n, k ∙ z),
          )
    ]

-- Elements that the loop leaves out hold no value of their own.
abbrev Skipped : State → ℕ → ℕ → Type 0
Skipped l i skip =
    (j : ℕ)
    → i ≤ j
    → j < i + skip
    → is_tail (l.metadata j).type ≡ true ⊎ IsOpaque (l.metadata j).type

tail-Agrees :
    (l r : State) (j : ℕ)
    → (is_tail (l.metadata j).type ≡ true) ⊎ IsOpaque (l.metadata j).type
    → Agrees l r j
tail-Agrees l r j h = ground arith

forgotten_tail :
    (l l' : State) (j : ℕ)
    → Forgets l l'
    → is_tail (l.metadata j).type ≡ true
    → (is_tail (l'.metadata j).type ≡ true) ⊎ IsOpaque (l'.metadata j).type
forgotten_tail l l' j (e, f, w) h = ground (arith, w j)

module _ (l₀ r : State) (wf : HeadsHaveTails l₀) where
  skip_tails :
      (l : State) (i : ℕ)
      → Forgets l₀ l
      → i < l₀.size
      → Skipped (merge_element l r i).0 (suc i) (merge_skip l r i)
  skip_tails l i f room j x y = elim (Bool-cases (is_ptr (l.metadata i).type)) [
    | inr e ↦ absurd (ground arith)
    | inl e ↦
        let same = ptr-stays (l₀.metadata i) (l.metadata i) (f.2 i) e in
        let h = sym (ap (λ (d : ElementMetadata). is_ptr d.type) same) ∙ e in
        let k : i + (j - i) ≡ j = omega arith in
        let t = (wf i (j - i) room h (omega arith) (ground arith)).1 in
        let t' = subst (λ x. (l₀.metadata x).type ≡ tail_for (l₀.metadata i).type) k t in
        forgotten_tail l₀ (merge_element l r i).0 j
          (Forgets-trans l₀ l _ f (merge_element-Forgets l r i)) (ap is_tail t' ∙ ptr-tail _ h)
  ]

  merge_from-Agrees :
      (n skip i : ℕ) (l : State) (diff : Bool)
      → Forgets l₀ l
      → i + n ≤ l₀.size
      → Skipped l i skip
      → (j : ℕ) → i ≤ j
      → j < i + n
      → Agrees (merge_from n skip i l r diff).0 r j
  unfolding merge_from
  merge_from-Agrees zero skip i l diff f room s j x y = absurd (omega arith)
  merge_from-Agrees (suc n) (suc skip) i l diff f room s j x y = elim (dec_lt i j) [
    | yes p ↦
        merge_from-Agrees n skip (suc i) l diff f (omega arith)
          (λ k a b. s k (omega arith) (omega arith)) j p (omega arith)
    | no p ↦
        Forgets-Agrees l _ r j (merge_from-Forgets n skip (suc i) l r diff)
          (tail-Agrees l r j (s j x (omega arith)))
  ]
  merge_from-Agrees (suc n) zero i l diff f room s j x y =
      let p = merge_element l r i in
      elim (dec_lt i j) [
        | yes q ↦
            merge_from-Agrees n (merge_skip l r i) (suc i) p.0 (diff || p.1)
              (Forgets-trans l₀ l p.0 f (merge_element-Forgets l r i)) (omega arith)
              (skip_tails l i f (omega arith)) j q (omega arith)
        | no q ↦
            let e : i ≡ j = omega arith in
            Forgets-Agrees p.0 _ r j
              (merge_from-Forgets n (merge_skip l r i) (suc i) p.0 r (diff || p.1))
              (subst (λ k. Agrees p.0 r k) e (merge_element-Agrees l r i))
      ]

Agrees-DescribesAt :
    (base : Bases) (l r : State) (c : Bytes) (j : ℕ)
    → Agrees l r j
    → DescribesAt base r c j
    → DescribesAt base l c j
Agrees-DescribesAt base l r c j a d = (
  λ e. let (x, y) = a.0 e in d.0 x ∙ sym y,
  λ p e. let (x, y, z) = a.1 (ap is_ptr e ∙ ptr_type-is_ptr p) in rw (← y, z) (d.1 p (x ∙ e)),
)

-- If the pointers of the left state are complete and `mergeElements` returns, the result describes
-- every run that the left state or the right state describes.
pub merge_elements-Describes :
    (base : Bases) (l r : State) (m : State × Bool) (c : Bytes)
    → HeadsHaveTails l
    → merge_elements l r ≡ some m
    → Describes base l c ⊎ Describes base r c
    → Describes base m.0 c
unfolding merge_elements
merge_elements-Describes base l r m c wf h e =
    let (_, same, q) = >>=-eq-some (drob_assert (l.size == r.size)) _ h in
    let k : l.size ≡ r.size = ground arith in
    let p : merge_from l.size 0 0 l r false ≡ m = cc in
    let f = merge_from-Forgets l.size 0 0 l r false in
    subst (λ (x : State × Bool). Describes base x.0 c) p
      (elim e [
        | inl d ↦ Forgets-Describes base l _ c f d
        | inr d ↦ λ j x.
            let y : j < l.size = rw (← f.0) x in
            Agrees-DescribesAt base (merge_from l.size 0 0 l r false).0 r c j
              (merge_from-Agrees l r wf l.size 0 0 l false (Forgets-refl l) (omega arith)
                (λ i a b. absurd (omega arith)) j (omega arith) (omega arith))
              (d j (omega arith))
      ])
