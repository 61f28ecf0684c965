-- ===== src/Elements/Merge/Fixpoint.antt =====
-- How often `mergeElements` of src/ProgramState.cpp can report a difference: a measure
-- that falls with each difference, as long as no element is dead.
use native.Mathlib.Decide.{dec_lt}
use drob.Prelude.{
  some-eq, ℕ, zero, suc, ◌+◌, ◌-◌, ◌*◌, ◌<◌, ◌≤◌, ◌≡◌, ap, arith, inl, inr, Bool, true, false,
  Option, some, ◌==◌, >>=-eq-some, sym, drob_assert, ◌>>=◌, subst, ◌||◌, ◌≢◌, List, ◌∷◌, [],
}
use drob.Value.{DynamicValueType, dead, unknown, tainted, is_ptr}
use drob.Elements.{State, Metadata, put_type, clear_tail, clear_tail_from, cleared}
use drob.Elements.Fill.{clear_tail_self}
use drob.Elements.Get.{count}
use drob.Elements.Merge.{merge_element, merge_skip, merge_from, merge_elements, retype, is_stackish}
use drob.Elements.Merge.Sound.{merge_element-Round, merge_from-Forgets}

-- How many differences an element can still make.
abbrev pub rank : DynamicValueType → ℕ
rank tainted = 0
rank unknown = 1
rank _ = 2

abbrev pub total : ℕ → Metadata → ℕ
total zero m = 0
total (suc n) m = total n m + rank (m n).type

-- No element can make more differences than before.
abbrev Lowers : Metadata → Metadata → Type 0
Lowers m m' = (j : ℕ) → rank (m' j).type ≤ rank (m j).type

total-le : (n : ℕ) (m m' : Metadata) → Lowers m m' → total n m' ≤ total n m
total-le zero m m' h = omega arith
total-le (suc n) m m' h = omega (arith, h n, total-le n m m' h)

total-lt :
    (n i : ℕ) (m m' : Metadata)
    → Lowers m m'
    → i < n
    → rank (m' i).type < rank (m i).type
    → total n m' < total n m
total-lt zero i m m' h lt s = absurd (omega arith)
total-lt (suc n) i m m' h lt s = elim (dec_lt i n) [
  | yes p ↦ omega (arith, h n, total-lt n i m m' h p s)
  | no p ↦
      let e : i ≡ n = omega arith in
      let s' = subst (λ k. rank (m' k).type < rank (m k).type) e s in
      omega (arith, s', total-le n m m' h)
]

put_type-Lowers :
    (m : Metadata) (i : ℕ) (t : DynamicValueType)
    → rank t ≤ rank (m i).type
    → Lowers m (put_type m i t)
put_type-Lowers m i t h j = ground arith

clear_tail_from-Lowers : (n i : ℕ) (m : Metadata) → Lowers m (clear_tail_from n i m)
unfolding clear_tail_from
clear_tail_from-Lowers zero i m j = omega arith
clear_tail_from-Lowers (suc n) i m j = ground (
  arith,
  clear_tail_from-Lowers n (suc i) (put_type m i unknown) j,
  clear_tail_from-Lowers n (suc i) (put_type m i tainted) j,
)

rank-cleared : (t : DynamicValueType) → is_ptr t ≡ true → rank (cleared t) < rank t
rank-cleared t h = ground arith

clear_tail-Lowers :
    (s : State) (i : ℕ)
    → is_ptr (s.metadata i).type ≡ true
    → Lowers s.metadata (clear_tail s i).metadata
unfolding clear_tail
clear_tail-Lowers s i h j = omega (
  arith,
  rank-cleared (s.metadata i).type h,
  put_type-Lowers s.metadata i (cleared (s.metadata i).type)
      (omega (arith, rank-cleared (s.metadata i).type h)) j,
  clear_tail_from-Lowers (s.size - suc i) (suc i)
      (put_type s.metadata i (cleared (s.metadata i).type)) j,
)

rank-forgotten : (t : DynamicValueType) → t ≢ unknown → is_stackish t ≡ false → 1 < rank t
rank-forgotten t h k = ground arith

rank-tainted : (t : DynamicValueType) → t ≢ tainted → 0 < rank t
rank-tainted t h = ground arith

count-or : (a b : Bool) → count (a || b) ≤ count a + count b
count-or a b = ground arith

-- A round that reports a difference lowers the measure.
abbrev Pays : ℕ → State → State × Bool → Type 0
Pays n l p = total n p.0.metadata + count p.1 ≤ total n l.metadata

Pays-pair : (n : ℕ) (l : State) (p q : State × Bool) → Pays n l q → p ≡ q → Pays n l p
Pays-pair n l p q h e = subst (λ x. Pays n l x) (sym e) h

retype-Pays :
    (n i : ℕ) (l : State) (t : DynamicValueType)
    → i < n
    → rank t < rank (l.metadata i).type
    → Pays n l (retype l i t, true)
retype-Pays n i l t room h =
    let m = put_type l.metadata i t in
    let low = put_type-Lowers l.metadata i t (omega arith) in
    omega (arith, total-lt n i l.metadata m low room (ground arith))

merge_element-Pays :
    (n : ℕ) (l r : State) (i : ℕ)
    → i < n
    → (r.metadata i).type ≢ dead
    → Pays n l (merge_element l r i)
merge_element-Pays n l r i room alive = elim (merge_element-Round l r i) [
  | inl (e, _) ↦ Pays-pair n l _ (l, false) (omega arith) e
  | inr (inl (e, h)) ↦
      Pays-pair n l _ (clear_tail l i, true)
        (omega (
          arith,
          total-lt n i l.metadata (clear_tail l i).metadata (clear_tail-Lowers l i h) room
              (rw (clear_tail_self l i) (rank-cleared _ h)),
        ))
        e
  | inr (inr (inl (e, h, k))) ↦
      Pays-pair n l _ (retype l i unknown, true)
        (retype-Pays n i l unknown room (rank-forgotten _ h k)) e
  | inr (inr (inr (inl (e, inl h)))) ↦ absurd (alive h)
  | inr (inr (inr (inl (e, inr h)))) ↦
      Pays-pair n l _ (retype l i dead, false)
        (omega (
          arith,
          total-le n l.metadata (put_type l.metadata i dead)
              (put_type-Lowers l.metadata i dead (rw h (omega arith))),
        ))
        e
  | inr (inr (inr (inr (e, h)))) ↦
      Pays-pair n l _ (retype l i tainted, true) (retype-Pays n i l tainted room (rank-tainted _ h))
        e
]

abbrev pub NoDead : State → Type 0
NoDead r = (j : ℕ) → j < r.size → (r.metadata j).type ≢ dead

merge_from-Pays :
    (n skip i k : ℕ) (l r : State) (diff : Bool)
    → NoDead r
    → k ≡ r.size
    → i + n ≤ k
    → let p = merge_from n skip i l r diff in
      total k p.0.metadata + count p.1 ≤ total k l.metadata + count diff
unfolding merge_from
merge_from-Pays zero skip i k l r diff alive e room = omega arith
merge_from-Pays (suc n) (suc skip) i k l r diff alive e room =
    merge_from-Pays n skip (suc i) k l r diff alive e (omega arith)
merge_from-Pays (suc n) zero i k l r diff alive e room =
    let p = merge_element l r i in
    let one = merge_element-Pays k l r i (omega arith) (alive i (omega arith)) in
    let rest =
      merge_from-Pays n (merge_skip l r i) (suc i) k p.0 r (diff || p.1) alive e (omega arith) in
    omega (arith, count-or diff p.1)

-- One merge: if a difference is reported, the measure falls.
merge_elements-Pays :
    (l r : State) (m : State × Bool)
    → NoDead r
    → merge_elements l r ≡ some m
    → (m.0.size ≡ l.size) × (total l.size m.0.metadata + count m.1 ≤ total l.size l.metadata)
unfolding merge_elements
merge_elements-Pays l r m alive h =
    let (_, same, q) = >>=-eq-some (drob_assert (l.size == r.size)) _ h in
    let k : l.size ≡ r.size = ground arith in
    let p : merge_from l.size 0 0 l r false ≡ m = cc in
    subst
      (λ (x : State × Bool).
        (x.0.size ≡ l.size) × (total l.size x.0.metadata + count x.1 ≤ total l.size l.metadata))
      p
      (
        (merge_from-Forgets l.size 0 0 l r false).0,
        omega (arith, merge_from-Pays l.size 0 0 l.size l r false alive k (omega arith)),
      )

-- The states that reach a block are merged into its entry state one after the other; the number
-- counts the merges that report a difference, after each of which the block is analysed again.
unfoldable pub merge_all : State → List State → Option (State × ℕ)
merge_all l [] = some (l, 0)
merge_all l (r ∷ rs) = do
  m ← merge_elements l r
  rest ← merge_all m.0 rs
  some (rest.0, count m.1 + rest.1)

abbrev pub AllNoDead : List State → Type 0
AllNoDead [] = Unit
AllNoDead (r ∷ rs) = NoDead r × AllNoDead rs

rank-bound : (t : DynamicValueType) → rank t ≤ 2
rank-bound dead = omega arith
rank-bound _ = omega arith

total-bound : (n : ℕ) (m : Metadata) → total n m ≤ 2 * n
total-bound zero m = omega arith
total-bound (suc n) m = omega (arith, total-bound n m, rank-bound (m n).type)

merge_all-total :
    (l : State) (rs : List State) (m : State × ℕ)
    → AllNoDead rs
    → merge_all l rs ≡ some m
    → m.1 ≤ total l.size l.metadata
unfolding merge_all
merge_all-total l [] m a h = ground arith
merge_all-total l (r ∷ rs) m (a, as') h =
    let (p, e, h1) = >>=-eq-some (merge_elements l r) _ h in
    let (q, f, h2) = >>=-eq-some (merge_all p.0 rs) _ h1 in
    let (s, t) = merge_elements-Pays l r p a e in
    let ih = subst (λ k. q.1 ≤ total k p.0.metadata) s (merge_all-total p.0 rs q as' f) in
    let g : count p.1 + q.1 ≡ m.1 = ap (λ (x : State × ℕ). x.1) (some-eq h2) in omega arith

-- If no element of the states that are merged into a state is dead, at most two merges for each
-- element of the state report a difference, however many states are merged.
pub merge_all_bound :
    (l : State) (rs : List State) (m : State × ℕ)
    → AllNoDead rs
    → merge_all l rs ≡ some m
    → m.1 ≤ 2 * l.size
merge_all_bound l rs m a h =
    omega (arith, merge_all-total l rs m a h, total-bound l.size l.metadata)
