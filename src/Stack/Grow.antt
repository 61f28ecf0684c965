-- ===== src/Stack/Grow.antt =====
-- `StackState::grow` of src/ProgramState.cpp makes room for an access.
use drob.Prelude.{ℕ, suc, ◌+◌, ◌-◌, ◌≤◌, ◌<◌, ◌≡◌, arith, false}
use drob.Stack.{StackState, Offset, nonneg, neg, grow, grow_old, grow_new}

-- The elements from a signed offset on, counted from the base, are tracked.
abbrev pub IsTracked : StackState → Offset → ℕ → Type 0
IsTracked s (nonneg k) size = s.base + k + size ≤ s.elements.size
IsTracked s (neg k) size = (suc k ≤ s.base) × (s.base + size ≤ s.elements.size + suc k)

-- If the stack is alive and its base is inside, then after `grow` this still holds, the elements that
-- were asked for are tracked, and each element from before is at the same distance from the base, with
-- the same byte and the same metadata.
pub grow_inside :
    (s : StackState) (offset : Offset) (size : ℕ)
    → s.is_dead ≡ false
    → s.base ≤ s.elements.size
    → let g = grow s offset size in
      (g.base ≤ g.elements.size)
      × (g.is_dead ≡ false)
      × IsTracked g offset size
      × ((i : ℕ)
          → i < s.elements.size
          → (j : ℕ) × (j + s.base ≡ i + g.base)
            × (j < g.elements.size)
            × (g.elements.bytes j ≡ s.elements.bytes i)
            × (g.elements.metadata j ≡ s.elements.metadata i))
unfolding grow grow_old grow_new
grow_inside s (nonneg k) size h b = (
  ground arith,
  ground arith,
  ground arith,
  λ i l. (i, ground arith, ground arith, ground arith, ground arith),
)
grow_inside s (neg k) size h b = (
  ground arith,
  ground arith,
  ground arith,
  λ i l. (i + (suc k - s.base), ground arith, ground arith, ground arith, ground arith),
)
