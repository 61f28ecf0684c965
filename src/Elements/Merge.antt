-- ===== src/Elements/Merge.antt =====
-- `mergeElements` of src/ProgramState.cpp: the join of two states of the same size, in place.
pub mod Sound
pub mod Fixpoint
pub mod Cycle
use drob.Prelude.{
  ℕ, zero, suc, ◌==◌, if◌then◌else◌, Bool, true, false, ◌&&◌, ◌||◌, not, Option, some, drob_assert,
  ◌>>◌,
}
use drob.Prelude.Bytes.{load}
use drob.Value.{
  DynamicValueType, dead, unknown, tainted, stack_ptr, stack_ptr_tail, is_ptr, is_imm, is_dead,
  is_tainted, type_eq,
}
use drob.Elements.{State, put_type, clear_tail}

abbrev pub is_unknown : DynamicValueType → Bool
is_unknown unknown = true
is_unknown _ = false

-- The types that make the join tainted.
abbrev pub is_stackish : DynamicValueType → Bool
is_stackish stack_ptr = true
is_stackish stack_ptr_tail = true
is_stackish tainted = true
is_stackish _ = false

abbrev pub retype : State → ℕ → DynamicValueType → State
retype l i t = record l { metadata = put_type l.metadata i t }

-- The types match.
pub merge_same : State → State → ℕ → State × Bool
merge_same l r i =
    if is_ptr (l.metadata i).type
    then (if not ((l.metadata i).nr == (r.metadata i).nr)
          || not (load 8 i l.bytes == load 8 i r.bytes)
        then (clear_tail l i, true)
        else (l, false))
    else if is_imm (l.metadata i).type
    then (if not (l.bytes i == r.bytes i) then (retype l i unknown, true) else (l, false))
    else (l, false)

-- The types differ; the second and third arguments are the two types.
pub merge_other : State → DynamicValueType → DynamicValueType → ℕ → State × Bool
merge_other l lt rt i =
    if is_dead lt && is_unknown rt || is_unknown lt && is_dead rt
    then (retype l i dead, false)
    else if is_stackish lt || is_stackish rt
    then (if not (is_tainted lt) then (retype l i tainted, true) else (l, false))
    else if not (is_unknown lt)
    then (retype l i unknown, true)
    else (l, false)

-- The body of the loop: the new left state, and whether it reports a difference.
pub merge_element : State → State → ℕ → State × Bool
unfolding merge_same merge_other
merge_element l r i =
    if type_eq (l.metadata i).type (r.metadata i).type
    then merge_same l r i
    else merge_other l (l.metadata i).type (r.metadata i).type i

-- `i += 7` after two pointers of one type: so many rounds are left out.
abbrev pub merge_skip : State → State → ℕ → ℕ
merge_skip l r i =
    if type_eq (l.metadata i).type (r.metadata i).type && is_ptr (l.metadata i).type then 7 else 0

-- The loop over the `n` elements from `i` on, of which `skip` are left out first.
pub merge_from : ℕ → ℕ → ℕ → State → State → Bool → State × Bool
unfolding merge_element
merge_from zero skip i l r diff = (l, diff)
merge_from (suc n) (suc skip) i l r diff = merge_from n skip (suc i) l r diff
merge_from (suc n) zero i l r diff =
    let (l', d) = merge_element l r i in merge_from n (merge_skip l r i) (suc i) l' r (diff || d)

-- `mergeElements`
unfoldable pub merge_elements : State → State → Option (State × Bool)
unfolding merge_from
merge_elements l r = do drob_assert (l.size == r.size); some (merge_from l.size 0 0 l r false)
