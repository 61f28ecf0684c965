-- ===== src/Elements.antt =====
-- The tracked bytes of a register or of the stack, and the writes to them: `State`, `markUnknown`,
-- `clearTail`, `setElements`, `setPtr`, `setImm` and `setType` of src/ProgramState.hpp and
-- src/ProgramState.cpp. The two arrays of a `State` are functions of the index; the source never
-- reads or writes them at or past the size, except where a caller breaks its contract.
pub mod Weaken
pub mod Fill
pub mod Describe
pub mod Mark
pub mod Write
pub mod Get
pub mod Merge
pub mod Move
use drob.Prelude.{
  ℕ, zero, suc, ◌+◌, ◌-◌, ◌%◌, leb, ltb, ◌==◌, if◌then◌else◌, Bool, true, false, ◌&&◌, ◌||◌, not,
  Option, none, some, drob_assert, ◌>>=◌, ◌>>◌,
}
use drob.Prelude.Bytes.{Bytes, update, store}
use drob.Value.{
  DynamicValueType, dead, unknown, tainted, immediate, stack_ptr, tail, stack_ptr_tail,
  DynamicValue, PtrType, stack, imm64, imm128, ptr_value, get_type, get_imm64, get_imm128, ptr_type,
}

-- `ElementMetadata`
pub record ElementMetadata : Type 0 where
  pub type : DynamicValueType
  pub nr : ℕ

abbrev pub Metadata : Type 0
Metadata = ℕ → ElementMetadata

-- `State`: the size, the bytes and what is known of each.
pub record State : Type 0 where
  pub size : ℕ
  pub bytes : Bytes
  pub metadata : Metadata

-- `md.type = t` for the element at `i`
abbrev pub put_type : Metadata → ℕ → DynamicValueType → Metadata
put_type m i t = update m i (record { type = t; nr = (m i).nr })

-- `clearTail`: the loop over the `n` elements from `i` on.
pub clear_tail_from : ℕ → ℕ → Metadata → Metadata
clear_tail_from zero i m = m
clear_tail_from (suc n) i m = elim (m i).type [
  | tail ↦ clear_tail_from n (suc i) (put_type m i unknown)
  | stack_ptr_tail ↦ clear_tail_from n (suc i) (put_type m i tainted)
  | _ ↦ m
]

-- What is left of an element whose pointer is overwritten.
abbrev pub cleared : DynamicValueType → DynamicValueType
cleared stack_ptr = tainted
cleared _ = unknown

unfoldable pub clear_tail : State → ℕ → State
unfolding clear_tail_from
clear_tail s i = record s {
  metadata =
      clear_tail_from (s.size - suc i) (suc i)
        (put_type s.metadata i (cleared (s.metadata i).type));
}

abbrev pub is_tail : DynamicValueType → Bool
is_tail tail = true
is_tail stack_ptr_tail = true
is_tail _ = false

-- The backward search of `markUnknown`: the nearest element below `k` that is no tail.
pub find_parent : ℕ → Metadata → Option ℕ
find_parent zero m = none
find_parent (suc k) m = if is_tail (m k).type then find_parent k m else some k

-- The `case` for a tail: only the first element of the range may be one.
pub mark_tail : State → ℕ → ℕ → Option State
unfolding find_parent
mark_tail s byte_offset i = do
  drob_assert (i == 0)
  parent ← find_parent byte_offset s.metadata
  some (clear_tail s parent)

-- The `switch` of `markUnknown` for the element `byte_offset + i`. Its default case passes
-- `byte_offset`, and not the element's own index, to `clearTail`.
pub mark_by_type : DynamicValueType → State → ℕ → ℕ → Option State
unfolding mark_tail
mark_by_type dead s byte_offset i =
    some (record s { metadata = put_type s.metadata (byte_offset + i) unknown })
mark_by_type immediate s byte_offset i =
    some (record s { metadata = put_type s.metadata (byte_offset + i) unknown })
mark_by_type tail s byte_offset i = mark_tail s byte_offset i
mark_by_type stack_ptr_tail s byte_offset i = mark_tail s byte_offset i
mark_by_type tainted s byte_offset i = some s
mark_by_type unknown s byte_offset i = some s
mark_by_type _ s byte_offset i = some (clear_tail s byte_offset)

pub mark_element : State → ℕ → ℕ → Option State
unfolding mark_by_type
mark_element s byte_offset i = mark_by_type (s.metadata (byte_offset + i)).type s byte_offset i

pub mark_from : ℕ → State → ℕ → ℕ → Option State
unfolding mark_element
mark_from zero s byte_offset i = some s
mark_from (suc n) s byte_offset i = do
  s' ← mark_element s byte_offset i
  mark_from n s' byte_offset (suc i)

-- `markUnknown`
unfoldable pub mark_unknown : State → ℕ → ℕ → Option State
unfolding mark_from
mark_unknown s byte_offset bytes = mark_from bytes s byte_offset 0

-- The type of the `n` elements from `i` on is set to `t`.
unfoldable pub fill_type : ℕ → ℕ → DynamicValueType → Metadata → Metadata
fill_type zero i t m = m
fill_type (suc n) i t m = fill_type n (suc i) t (put_type m i t)

-- The byte of the `n` elements from `i` on is set to 0.
unfoldable pub zero_bytes : ℕ → ℕ → Bytes → Bytes
zero_bytes zero i d = d
zero_bytes (suc n) i d = zero_bytes n (suc i) (update d i 0)

abbrev pub tail_of : PtrType → DynamicValueType
tail_of stack = stack_ptr_tail
tail_of _ = tail

-- `setPtr`; `nr` is kept in a `uint8_t`.
unfoldable pub set_ptr : State → ℕ → ℕ → PtrType → ℕ → ℕ → Option State
unfolding fill_type
set_ptr s byte_offset bytes p nr offset = do
  drob_assert (bytes == 8)
  let head = update s.metadata byte_offset (record { type = ptr_type p; nr = nr % 256 })
  some (record s {
    metadata = fill_type (bytes - 1) (suc byte_offset) (tail_of p) head;
    bytes = store 8 byte_offset offset s.bytes;
  })

abbrev pub imm_size : ℕ → Bool
imm_size bytes = (bytes == 1) || (bytes == 2) || (bytes == 4) || (bytes == 8)

-- `setImm`: a store of 1, 2, 4 or 8 bytes takes the 64-bit value, one of 16 bytes the 128-bit value.
unfoldable pub set_imm : State → ℕ → ℕ → DynamicValue → Option State
unfolding fill_type
set_imm s byte_offset bytes v =
    let m = fill_type bytes byte_offset immediate s.metadata in
    if imm_size bytes
    then some (record s { metadata = m; bytes = store bytes byte_offset (get_imm64 v) s.bytes })
    else if bytes == 16
    then some (record s { metadata = m; bytes = store 16 byte_offset (get_imm128 v) s.bytes })
    else none

-- `setType`
unfoldable pub set_type : State → ℕ → ℕ → DynamicValueType → State
unfolding fill_type zero_bytes
set_type s byte_offset bytes t = record s {
  metadata = fill_type bytes byte_offset t s.metadata;
  bytes = zero_bytes bytes byte_offset s.bytes;
}

-- The `switch` of `setElements`.
unfoldable pub write_elements : State → ℕ → ℕ → DynamicValue → Option State
unfolding set_ptr set_imm set_type
write_elements s byte_offset bytes (ptr_value p nr offset) = set_ptr s byte_offset bytes p nr offset
write_elements s byte_offset bytes (imm64 v) = set_imm s byte_offset bytes (imm64 v)
write_elements s byte_offset bytes (imm128 v) = set_imm s byte_offset bytes (imm128 v)
write_elements s byte_offset bytes v = some (set_type s byte_offset bytes (get_type v))

-- `setElements`
unfoldable pub set_elements : State → ℕ → ℕ → DynamicValue → Bool → Option State
set_elements s byte_offset bytes v cond = do
  drob_assert (ltb 0 bytes && leb (bytes + byte_offset) s.size)
  drob_assert (not cond)
  s' ← mark_unknown s byte_offset bytes
  write_elements s' byte_offset bytes v
