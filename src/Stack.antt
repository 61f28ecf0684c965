-- ===== src/Stack.antt =====
-- The tracked stack: `StackState` of src/ProgramState.hpp and src/ProgramState.cpp. The elements run
-- upwards from the lowest touched position; `base` is the index of the stack pointer at the entry of
-- the function. An offset from that pointer is an `int64_t`.
pub mod Grow
use drob.Prelude.{ℕ, suc, ◌+◌, ◌-◌, ◌%◌, ◌^◌, ltb, if◌then◌else◌, Bool, true}
use drob.Value.{dead}
use drob.Elements.{State, ElementMetadata}

-- A signed offset: `neg n` is -(n + 1).
pub data Offset : Type 0 where
  nonneg : ℕ → Offset
  neg : ℕ → Offset

pub record StackState : Type 0 where
  pub elements : State
  pub base : ℕ
  pub is_dead : Bool

-- `std::vector::resize` of both arrays: new elements are zero and dead.
abbrev pub fresh_element : ElementMetadata
fresh_element = record { type = dead; nr = 0 }

abbrev pub resize : State → ℕ → State
resize s n = record {
  size = n;
  bytes = λ j. if ltb j s.size then s.bytes j else 0;
  metadata = λ j. if ltb j s.size then s.metadata j else fresh_element;
}

-- The arrays copied behind `diff` new elements.
abbrev pub shift_up : State → ℕ → State
shift_up s diff = record {
  size = s.size + diff;
  bytes = λ j. if ltb j diff then 0 else s.bytes (j - diff);
  metadata = λ j. if ltb j diff then fresh_element else s.metadata (j - diff);
}

-- `newStackSize` and `oldStackSize`; the base never exceeds the size.
abbrev pub new_stack_size : StackState → ℕ
new_stack_size s = s.base

abbrev pub old_stack_size : StackState → ℕ
old_stack_size s = s.elements.size - new_stack_size s

-- `neededOldStackSize` and `neededNewStackSize`, as 0 where they are negative.
abbrev pub needed_old : Offset → ℕ → ℕ
needed_old (nonneg k) size = k + size
needed_old (neg k) size = size - suc k

abbrev pub needed_new : Offset → ℕ
needed_new (nonneg k) = 0
needed_new (neg k) = suc k

unfoldable pub grow_old : StackState → ℕ → StackState
grow_old s needed =
    if ltb (old_stack_size s) needed
    then record s { elements = resize s.elements (new_stack_size s + needed) }
    else s

unfoldable pub grow_new : StackState → ℕ → StackState
grow_new s needed =
    let diff = needed - new_stack_size s in
    if ltb (new_stack_size s) needed
    then record s { elements = shift_up s.elements diff; base = s.base + diff }
    else s

-- `grow`
unfoldable pub grow : StackState → Offset → ℕ → StackState
unfolding grow_old grow_new
grow s base_offset size =
    if s.is_dead
    then s
    else grow_new (grow_old s (needed_old base_offset size)) (needed_new base_offset)

-- `setDead`
unfoldable pub set_dead : StackState → StackState
set_dead s = record {
  elements = record { size = 0; bytes = λ _. 0; metadata = λ _. fresh_element };
  base = 0;
  is_dead = true;
}

-- `getStackIdx`: the sum is converted to an `unsigned int`.
unfoldable pub get_stack_idx : StackState → Offset → ℕ
get_stack_idx s (nonneg k) = (s.base + k) % 2 ^ 32
get_stack_idx s (neg k) = (s.base + 2 ^ 64 - suc k) % 2 ^ 32
