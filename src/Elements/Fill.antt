-- ===== src/Elements/Fill.antt =====
-- Where the loops of `setPtr`, `setImm`, `setType` and `clearTail` of src/ProgramState.cpp write.
use native.Mathlib.Decide.{dec_lt}
use drob.Prelude.{ℕ, zero, suc, ◌+◌, ◌-◌, ◌<◌, ◌≤◌, ◌≡◌, refl, arith, ◌⊎◌, true, false, some}
use drob.Prelude.Bytes.{Bytes, update}
use drob.Value.{DynamicValueType, unknown, tainted}
use drob.Elements.{
  State, Metadata, put_type, clear_tail_from, clear_tail, find_parent, cleared, is_tail, fill_type,
  zero_bytes,
}

pub fill_type_outside :
    (n i j : ℕ) (t : DynamicValueType) (m : Metadata)
    → (j < i) ⊎ (i + n ≤ j)
    → fill_type n i t m j ≡ m j
unfolding fill_type
fill_type_outside zero i j t m h = refl
fill_type_outside (suc n) i j t m h =
    ground (arith, fill_type_outside n (suc i) j t (put_type m i t))

pub fill_type_inside :
    (n i j : ℕ) (t : DynamicValueType) (m : Metadata)
    → i ≤ j
    → j < i + n
    → (fill_type n i t m j).type ≡ t
unfolding fill_type
fill_type_inside zero i j t m h k = absurd (omega arith)
fill_type_inside (suc n) i j t m h k = ground (
  arith,
  fill_type_inside n (suc i) j t (put_type m i t),
  fill_type_outside n (suc i) j t (put_type m i t),
)

pub zero_bytes_outside : (n i j : ℕ) (d : Bytes) → (j < i) ⊎ (i + n ≤ j) → zero_bytes n i d j ≡ d j
unfolding zero_bytes
zero_bytes_outside zero i j d h = refl
zero_bytes_outside (suc n) i j d h = ground (arith, zero_bytes_outside n (suc i) j (update d i 0))

pub clear_tail_from_below : (n i j : ℕ) (m : Metadata) → j < i → clear_tail_from n i m j ≡ m j
unfolding clear_tail_from
clear_tail_from_below zero i j m h = refl
clear_tail_from_below (suc n) i j m h = ground (
  arith,
  clear_tail_from_below n (suc i) j (put_type m i unknown),
  clear_tail_from_below n (suc i) j (put_type m i tainted),
)

pub clear_tail_below : (s : State) (i j : ℕ) → j < i → (clear_tail s i).metadata j ≡ s.metadata j
unfolding clear_tail
clear_tail_below s i j h = ground (
  arith,
  clear_tail_from_below (s.size - suc i) (suc i) j
      (put_type s.metadata i (cleared (s.metadata i).type)),
)

pub clear_tail_self :
    (s : State) (i : ℕ) → ((clear_tail s i).metadata i).type ≡ cleared (s.metadata i).type
unfolding clear_tail
clear_tail_self s i = ground (
  arith,
  clear_tail_from_below (s.size - suc i) (suc i) i
      (put_type s.metadata i (cleared (s.metadata i).type)),
)

-- The search finds `j` when all between it and the start are tails and it is none.
pub find_parent_lem :
    (k j : ℕ) (m : Metadata)
    → j < k
    → ((i : ℕ) → j < i → i < k → is_tail (m i).type ≡ true)
    → is_tail (m j).type ≡ false
    → find_parent k m ≡ some j
unfolding find_parent
find_parent_lem zero j m h tails parent = absurd (omega arith)
find_parent_lem (suc k) j m h tails parent = elim (dec_lt j k) [
  | yes p ↦
      let ih = find_parent_lem k j m p (λ i a b. tails i a (omega arith)) parent in
      rw (tails k p (omega arith)) ih
  | no p ↦ let e : j ≡ k = omega arith in rw (← e) (rw parent refl)
]
