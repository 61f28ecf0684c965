-- ===== src/Elements/Move.antt =====
-- `moveElements` of src/ProgramState.cpp: tracked bytes are copied from one state to another. The
-- two states are different registers, or the stack and a register; `move_within` is the move inside
-- one state, where the source is read after each write.
use drob.Prelude.{ℕ, zero, suc, ltb, ◌==◌, if◌then◌else◌, Option, some, ◌>>=◌}
use drob.Prelude.Bytes.{update}
use drob.Value.{
  DynamicValueType, dead, unknown, tainted, immediate, stack_ptr, tail, stack_ptr_tail, is_ptr,
}
use drob.Elements.{State, put_type, fill_type, mark_unknown}

-- `md2 = md1; data2 = data1` for `n` elements of a pointer.
copy_elements : ℕ → State → ℕ → State → ℕ → State
copy_elements zero s1 i1 s2 i2 = s2
copy_elements (suc n) s1 i1 s2 i2 =
    copy_elements n s1 (suc i1)
      (record s2 {
        metadata = update s2.metadata i2 (s1.metadata i1);
        bytes = update s2.bytes i2 (s1.bytes i1);
      })
      (suc i2)

-- The `switch` of the loop for one element, with `left` elements to go.
move_element : DynamicValueType → State → ℕ → State → ℕ → ℕ → State
unfolding copy_elements fill_type
move_element immediate s1 i1 s2 i2 left = record s2 {
  metadata = put_type s2.metadata i2 immediate;
  bytes = update s2.bytes i2 (s1.bytes i1);
}
move_element dead s1 i1 s2 i2 left = record s2 {
  metadata = put_type s2.metadata i2 dead;
  bytes = update s2.bytes i2 (s1.bytes i1);
}
move_element tail s1 i1 s2 i2 left = record s2 { metadata = put_type s2.metadata i2 unknown }
move_element unknown s1 i1 s2 i2 left = record s2 { metadata = put_type s2.metadata i2 unknown }
move_element stack_ptr_tail s1 i1 s2 i2 left = record s2 {
  metadata = put_type s2.metadata i2 tainted;
}
move_element tainted s1 i1 s2 i2 left = record s2 { metadata = put_type s2.metadata i2 tainted }
move_element stack_ptr s1 i1 s2 i2 left =
    if ltb left 8
    then record s2 { metadata = fill_type left i2 tainted s2.metadata }
    else copy_elements 8 s1 i1 s2 i2
move_element _ s1 i1 s2 i2 left =
    if ltb left 8
    then record s2 { metadata = fill_type left i2 unknown s2.metadata }
    else copy_elements 8 s1 i1 s2 i2

abbrev move_skip : DynamicValueType → ℕ
move_skip t = if is_ptr t then 7 else 0

-- The loop over the `n` elements to go, of which `skip` are left out first.
move_from : ℕ → ℕ → State → ℕ → State → ℕ → State
unfolding move_element
move_from zero skip s1 i1 s2 i2 = s2
move_from (suc n) (suc skip) s1 i1 s2 i2 = move_from n skip s1 (suc i1) s2 (suc i2)
move_from (suc n) zero s1 i1 s2 i2 =
    let t = (s1.metadata i1).type in
    move_from n (move_skip t) s1 (suc i1) (move_element t s1 i1 s2 i2 (suc n)) (suc i2)

-- `moveElements` between two different states.
unfoldable pub move_elements : State → ℕ → State → ℕ → ℕ → Option State
unfolding move_from
move_elements s1 i1 s2 i2 bytes = do
  s2' ← mark_unknown s2 i2 bytes
  some (move_from bytes 0 s1 i1 s2' i2)

-- The same loop where the source is the state that is written.
move_within_from : ℕ → ℕ → State → ℕ → ℕ → State
unfolding move_element
move_within_from zero skip s i1 i2 = s
move_within_from (suc n) (suc skip) s i1 i2 = move_within_from n skip s (suc i1) (suc i2)
move_within_from (suc n) zero s i1 i2 =
    let t = (s.metadata i1).type in
    move_within_from n (move_skip t) (move_element t s i1 s i2 (suc n)) (suc i1) (suc i2)

-- `moveElements` inside one state.
unfoldable pub move_within : State → ℕ → ℕ → ℕ → Option State
unfolding move_within_from
move_within s i1 i2 bytes =
    if i1 == i2
    then some s
    else (do s' ← mark_unknown s i2 bytes; some (move_within_from bytes 0 s' i1 i2))
