-- ===== src/Program.antt =====
-- `ProgramState` of src/ProgramState.hpp and src/ProgramState.cpp: the registers and the stack, byte
-- by byte. A method returns the new state; a const method that grows the mutable stack does so too.
-- A `MemAccessSize` is its number of bytes, with 0 for `Unknown`.
pub mod Registers
pub mod Join
use drob.Prelude.{
  ℕ, zero, suc, ◌==◌, if◌then◌else◌, Bool, true, false, ◌&&◌, ◌||◌, not, max, Option, some,
  drob_assert, ◌>>=◌, ◌>>◌,
}
use drob.Value.{DynamicValue, unknown_value, tainted_value, imm64}
use drob.Elements.{State, set_elements}
use drob.Elements.Get.{get_elements}
use drob.Elements.Move.{move_elements, move_within}
use drob.Elements.Merge.{merge_elements}
use drob.Registers.{
  Register, RegisterType, flag1, gprs64, sse128, RegisterAccessType, full_zero_parent, full, Place,
  type_number, get_register_data,
}
use drob.Stack.{
  StackState, Offset, nonneg, neg, grow, set_dead, get_stack_idx, old_stack_size, new_stack_size,
}

pub record ProgramState : Type 0 where
  pub stack : StackState
  pub flags : ℕ → State
  pub gprs : ℕ → State
  pub vectors : ℕ → State

-- The physical register of a type that has storage, by its number.
unfoldable pub file_state : ProgramState → RegisterType → ℕ → State
file_state ps flag1 nr = ps.flags nr
file_state ps gprs64 nr = ps.gprs nr
file_state ps _ nr = ps.vectors nr

abbrev put : (ℕ → State) → ℕ → State → ℕ → State
put f nr s k = if k == nr then s else f k

unfoldable pub put_state : ProgramState → RegisterType → ℕ → State → ProgramState
put_state ps flag1 nr s = record ps { flags = put ps.flags nr s }
put_state ps gprs64 nr s = record ps { gprs = put ps.gprs nr s }
put_state ps _ nr s = record ps { vectors = put ps.vectors nr s }

abbrev pub place_state : ProgramState → Place → State
place_state ps p = file_state ps p.file p.nr

abbrev pub put_place : ProgramState → Place → State → ProgramState
put_place ps p s = put_state ps p.file p.nr s

unfoldable pub set_place : ProgramState → Place → DynamicValue → Bool → Option ProgramState
set_place ps p v cond = do
  s ← set_elements (place_state ps p) p.byte_offset p.bytes v cond
  some (put_place ps p s)

-- `setRegister`: an unconditional write of `FullZeroParent` clears the parent first.
unfoldable pub set_register :
    ProgramState → Register → RegisterAccessType → DynamicValue → Bool → Option ProgramState
unfolding set_place
set_register ps reg full_zero_parent v false = do
  parent ← get_register_data reg full_zero_parent
  ps' ← set_place ps parent (imm64 0) false
  p ← get_register_data reg full
  set_place ps' p v false
set_register ps reg access v cond = do p ← get_register_data reg access; set_place ps p v cond

-- `getRegister`
unfoldable pub get_register : ProgramState → Register → RegisterAccessType → Option DynamicValue
get_register ps reg access = do
  p ← get_register_data reg access
  get_elements (place_state ps p) p.byte_offset p.bytes

abbrev put_stack : ProgramState → StackState → State → ProgramState
put_stack ps st s = record ps { stack = record st { elements = s } }

-- `setStack`
unfoldable pub set_stack : ProgramState → Offset → ℕ → DynamicValue → Bool → Option ProgramState
set_stack ps base_offset size v cond = do
  drob_assert (not (size == 0))
  if ps.stack.is_dead
      then some ps
      else (let st = grow ps.stack base_offset size in
          do
            s ← set_elements st.elements (get_stack_idx st base_offset) size v cond
            some (put_stack ps st s))

-- `getStack`
unfoldable pub get_stack : ProgramState → Offset → ℕ → Option (DynamicValue × ProgramState)
get_stack ps base_offset size = do
  drob_assert (not (size == 0))
  if ps.stack.is_dead
      then some (tainted_value, ps)
      else (let st = grow ps.stack base_offset size in
          do
            v ← get_elements st.elements (get_stack_idx st base_offset) size
            some (v, record ps { stack = st }))

-- `moveStackStack`
pub move_stack_stack : ProgramState → Offset → Offset → ℕ → Option ProgramState
move_stack_stack ps base_offset1 base_offset2 size = do
  drob_assert (not (size == 0))
  if ps.stack.is_dead
      then some ps
      else (let st = grow (grow ps.stack base_offset1 size) base_offset2 size in
          do
            s ←
                move_within st.elements (get_stack_idx st base_offset1)
                  (get_stack_idx st base_offset2) size
            some (put_stack ps st s))

-- Writing a register after `FullZeroParent` has cleared its parent.
zero_parent :
    ProgramState → Register → RegisterAccessType → Option (ProgramState × RegisterAccessType)
zero_parent ps reg full_zero_parent = do
  ps' ← set_register ps reg full_zero_parent (imm64 0) false
  some (ps', full)
zero_parent ps reg access = some (ps, access)

-- `moveElements` between two registers, which may be parts of one.
move_places : ProgramState → Place → Place → Option ProgramState
move_places ps p1 p2 =
    if type_number p1.file == type_number p2.file && p1.nr == p2.nr
    then (do
      s ← move_within (place_state ps p1) p1.byte_offset p2.byte_offset p1.bytes
      some (put_place ps p2 s))
    else (do
      s ←
          move_elements (place_state ps p1) p1.byte_offset (place_state ps p2) p2.byte_offset
            p1.bytes
      some (put_place ps p2 s))

-- `moveRegisterRegister`
pub move_register_register :
    ProgramState
    → Register
    → RegisterAccessType
    → Register
    → RegisterAccessType
    → Option ProgramState
unfolding zero_parent move_places
move_register_register ps reg1 access1 reg2 access2 = do
  p1 ← get_register_data reg1 access1
  zeroed ← zero_parent ps reg2 access2
  p2 ← get_register_data reg2 zeroed.1
  drob_assert (p1.bytes == p2.bytes)
  move_places zeroed.0 p1 p2

-- `moveStackRegister`
pub move_stack_register :
    ProgramState → Offset → ℕ → Register → RegisterAccessType → Option ProgramState
unfolding zero_parent
move_stack_register ps base_offset size reg access = do
  zeroed ← zero_parent ps reg access
  p ← get_register_data reg zeroed.1
  if ps.stack.is_dead
      then set_register zeroed.0 reg zeroed.1 tainted_value false
      else (let st = grow ps.stack base_offset size in
          do
            drob_assert (size == p.bytes)
            s ←
                move_elements st.elements (get_stack_idx st base_offset) (place_state zeroed.0 p)
                  p.byte_offset size
            some (record (put_place zeroed.0 p s) { stack = st }))

-- `moveRegisterStack`
pub move_register_stack :
    ProgramState → Register → RegisterAccessType → Offset → ℕ → Option ProgramState
move_register_stack ps reg access base_offset size = if ps.stack.is_dead then some ps else (do
  p ← get_register_data reg access
  let st = grow ps.stack base_offset size
  drob_assert (p.bytes == size)
  s ← move_elements (place_state ps p) p.byte_offset st.elements (get_stack_idx st base_offset) size
  some (put_stack ps st s))

-- The loop of `nastyInstruction` over the `n` registers of a type from number `i` on.
nasty_file : ℕ → ℕ → RegisterType → ℕ → DynamicValue → ProgramState → Option ProgramState
nasty_file zero i file bytes v ps = some ps
nasty_file (suc n) i file bytes v ps = do
  s ← set_elements (file_state ps file i) 0 bytes v false
  nasty_file n (suc i) file bytes v (put_state ps file i s)

-- `nastyInstruction`
pub nasty_instruction : ProgramState → Option ProgramState
unfolding nasty_file
nasty_instruction ps = do
  ps1 ← nasty_file 6 0 flag1 1 unknown_value (record ps { stack = set_dead ps.stack })
  ps2 ← nasty_file 16 0 gprs64 8 tainted_value ps1
  nasty_file 16 0 sse128 16 tainted_value ps2

-- `untrackedStackAccess`
pub untracked_stack_access : ProgramState → ProgramState
untracked_stack_access ps = record ps { stack = set_dead ps.stack }

-- The loop of `merge` over the `n` registers of a type from number `i` on.
unfoldable pub merge_file :
    ℕ → ℕ → RegisterType → ProgramState → ProgramState → Bool → Option (ProgramState × Bool)
merge_file zero i file ps rhs diff = some (ps, diff)
merge_file (suc n) i file ps rhs diff = do
  m ← merge_elements (file_state ps file i) (file_state rhs file i)
  merge_file n (suc i) file (put_state ps file i m.0) rhs (diff || m.1)

-- A position `n` below the stack pointer at entry.
abbrev pub below : ℕ → Offset
below zero = nonneg 0
below (suc n) = neg n

-- Both stacks are grown to the same size and position.
abbrev pub grow_to : StackState → ℕ → ℕ → StackState
grow_to st old_size new_size = grow (grow st (nonneg old_size) 0) (below new_size) 0

-- The merge of the stacks: the two stacks afterwards, and whether there is a difference.
unfoldable pub merge_stacks : StackState → StackState → Option (StackState × StackState × Bool)
merge_stacks l r =
    if l.is_dead
    then some (l, r, false)
    else if r.is_dead
    then some (set_dead l, r, true)
    else (let old_size = max (old_stack_size l) (old_stack_size r) in
        let new_size = max (new_stack_size l) (new_stack_size r) in
        let l' = grow_to l old_size new_size in
        let r' = grow_to r old_size new_size in
        do m ← merge_elements l'.elements r'.elements; some (record l' { elements = m.0 }, r', m.1))

-- `merge`: the merged state, the other state with its stack grown, and whether there is a difference.
unfoldable pub merge : ProgramState → ProgramState → Option (ProgramState × ProgramState × Bool)
unfolding merge_file merge_stacks
merge ps rhs = do
  m1 ← merge_file 6 0 flag1 ps rhs false
  m2 ← merge_file 16 0 gprs64 m1.0 rhs m1.1
  m3 ← merge_file 16 0 sse128 m2.0 rhs m2.1
  st ← merge_stacks ps.stack rhs.stack
  some (record m3.0 { stack = st.0 }, record rhs { stack = st.1 }, m3.1 || st.2)
