-- ===== src/Elements/Get.antt =====
-- `getElements` of src/ProgramState.cpp: the reading of several tracked bytes as one value.
pub mod Sound
pub mod RoundTrip
use drob.Prelude.{
  ℕ, zero, suc, ◌+◌, ltb, ◌==◌, if◌then◌else◌, Bool, true, false, ◌&&◌, ◌||◌, not, Option, none,
  some, drob_assert, ◌>>◌,
}
use drob.Prelude.Bytes.{load}
use drob.Value.{
  DynamicValueType, dead, unknown, tainted, immediate, stack_ptr, usr_ptr, return_ptr, tail,
  stack_ptr_tail, DynamicValue, dead_value, unknown_value, tainted_value, imm64, imm128,
  dynamic_value, is_ptr,
}
use drob.Elements.{State, Metadata, imm_size}

-- The flags that the first loop sets.
pub record Seen : Type 0 where
  pub has_imm : Bool
  pub has_dead : Bool
  pub has_ptr : Bool
  pub has_stack_ptr : Bool
  pub has_unknown : Bool
  pub has_tainted : Bool
  pub is_mixed : Bool

abbrev pub nothing_seen : Seen
nothing_seen = record {
  has_imm = false;
  has_dead = false;
  has_ptr = false;
  has_stack_ptr = false;
  has_unknown = false;
  has_tainted = false;
  is_mixed = false;
}

-- The `switch` of the loop; `first` says that the element is the first of the range.
pub observe : DynamicValueType → Bool → Seen → Seen
observe stack_ptr first a = record a { has_stack_ptr = true; is_mixed = a.is_mixed || not first }
observe usr_ptr first a = record a { has_ptr = true; is_mixed = a.is_mixed || not first }
observe return_ptr first a = record a { has_ptr = true; is_mixed = a.is_mixed || not first }
observe immediate first a = record a { has_imm = true }
observe dead first a = record a { has_dead = true }
observe tail first a = record a { is_mixed = a.is_mixed || first }
observe stack_ptr_tail first a = record a { has_tainted = true }
observe unknown first a = record a { has_unknown = true }
observe tainted first a = record a { has_tainted = true }

-- `i += 7` at the start of a pointer: so many of the next rounds are left out.
abbrev pub skip_after : DynamicValueType → ℕ
skip_after t = if is_ptr t then 7 else 0

-- The loop over the `n` elements from `i` on, of which `skip` are left out first.
pub look : ℕ → ℕ → ℕ → Bool → Metadata → Seen → Seen
unfolding observe
look zero skip i first m a = a
look (suc n) (suc skip) i first m a = look n skip (suc i) false m a
look (suc n) zero i first m a =
    look n (skip_after (m i).type) (suc i) false m (observe (m i).type first a)

abbrev pub count : Bool → ℕ
count true = 1
count false = 0

-- "Make sure we catch all mixed cases."
abbrev pub mixed : Seen → Bool
mixed a =
    a.is_mixed
    || ltb 1 (
        count a.has_imm
        + count a.has_dead
        + count a.has_ptr
        + count a.has_stack_ptr
        + count a.has_unknown
        + count a.has_tainted)

-- The value of `bytes` immediate elements.
pub get_imm : State → ℕ → ℕ → Option DynamicValue
get_imm s byte_offset bytes =
    if imm_size bytes
    then some (imm64 (load bytes byte_offset s.bytes))
    else if bytes == 16
    then some (imm128 (load 16 byte_offset s.bytes))
    else none

-- The pointer that starts at the offset.
pub get_ptr : State → ℕ → Option DynamicValue
unfolding dynamic_value
get_ptr s byte_offset =
    dynamic_value (s.metadata byte_offset).type (s.metadata byte_offset).nr
      (load 8 byte_offset s.bytes)

-- What follows the loop.
pub judge : State → ℕ → ℕ → Seen → Option DynamicValue
unfolding get_imm get_ptr
judge s byte_offset bytes a =
    if a.has_tainted || a.has_stack_ptr && (mixed a || not (bytes == 8))
    then some tainted_value
    else if mixed a
    then some unknown_value
    else if a.has_stack_ptr
    then (do drob_assert (bytes == 8); get_ptr s byte_offset)
    else if a.has_ptr
    then (if bytes == 8 then get_ptr s byte_offset else some unknown_value)
    else if a.has_imm
    then get_imm s byte_offset bytes
    else if a.has_dead
    then some dead_value
    else some unknown_value

-- `getElements`
unfoldable pub get_elements : State → ℕ → ℕ → Option DynamicValue
unfolding look judge
get_elements s byte_offset bytes =
    judge s byte_offset bytes (look bytes 0 byte_offset true s.metadata nothing_seen)
