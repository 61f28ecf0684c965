-- ===== src/Value.antt =====
-- The values that the stack analysis tracks: `DynamicValueType` and `DynamicValue` of
-- src/ProgramState.hpp, and the two operations on values of src/ProgramState.cpp.
-- A 64-bit number is below 2 ^ 64; a pointer offset (`int64_t`) is its two's complement pattern.
pub mod Laws
use drob.Prelude.{
  ℕ, ◌+◌, ◌*◌, ◌%◌, ◌^◌, ◌==◌, if◌then◌else◌, Bool, true, false, ◌&&◌, ◌||◌, Option, none, some,
}

-- `DynamicValueType`, in the order of the source.
pub data DynamicValueType : Type 0 where
  dead unknown tainted immediate stack_ptr usr_ptr return_ptr tail stack_ptr_tail : DynamicValueType

-- The three pointer types.
pub data PtrType : Type 0 where
  stack usr ret : PtrType

-- `DynamicValue`: what its constructors and their assertions admit. A pointer has its type, the
-- number of the pointer and an offset; an immediate has the size `Imm64` or `Imm128`.
pub data DynamicValue : Type 0 where
  dead_value unknown_value tainted_value : DynamicValue
  imm64 imm128 : ℕ → DynamicValue
  ptr_value : PtrType → ℕ → ℕ → DynamicValue

-- The number of an enumerator, by which the source compares them.
abbrev pub type_code : DynamicValueType → ℕ
type_code dead = 0
type_code unknown = 1
type_code tainted = 2
type_code immediate = 3
type_code stack_ptr = 4
type_code usr_ptr = 5
type_code return_ptr = 6
type_code tail = 7
type_code stack_ptr_tail = 8

abbrev pub type_eq : DynamicValueType → DynamicValueType → Bool
type_eq t u = type_code t == type_code u

abbrev pub ptr_type : PtrType → DynamicValueType
ptr_type stack = stack_ptr
ptr_type usr = usr_ptr
ptr_type ret = return_ptr

abbrev pub get_type : DynamicValue → DynamicValueType
get_type dead_value = dead
get_type unknown_value = unknown
get_type tainted_value = tainted
get_type (imm64 v) = immediate
get_type (imm128 v) = immediate
get_type (ptr_value p nr offset) = ptr_type p

-- `isPtr`, `isImm`, `isStackPtr`, `isTainted` and `isDead` of a type.
abbrev pub is_ptr : DynamicValueType → Bool
is_ptr stack_ptr = true
is_ptr usr_ptr = true
is_ptr return_ptr = true
is_ptr _ = false

abbrev pub is_imm : DynamicValueType → Bool
is_imm immediate = true
is_imm _ = false

abbrev pub is_stack_ptr : DynamicValueType → Bool
is_stack_ptr stack_ptr = true
is_stack_ptr _ = false

abbrev pub is_tainted : DynamicValueType → Bool
is_tainted tainted = true
is_tainted _ = false

abbrev pub is_dead : DynamicValueType → Bool
is_dead dead = true
is_dead _ = false

abbrev pub u64 : ℕ
u64 = 2 ^ 64

-- `getImm64` and `getImm128` of an immediate.
abbrev pub get_imm64 : DynamicValue → ℕ
get_imm64 (imm64 v) = v
get_imm64 (imm128 v) = v % u64
get_imm64 _ = 0

abbrev pub get_imm128 : DynamicValue → ℕ
get_imm128 (imm64 v) = v
get_imm128 (imm128 v) = v
get_imm128 _ = 0

-- The constructor of `DynamicValue` from a type, a number and an offset, with its assertions. An
-- `Immediate` made so is the 64-bit 0.
unfoldable pub dynamic_value : DynamicValueType → ℕ → ℕ → Option DynamicValue
dynamic_value stack_ptr nr offset = some (ptr_value stack nr offset)
dynamic_value usr_ptr nr offset = some (ptr_value usr nr offset)
dynamic_value return_ptr nr offset = some (ptr_value ret nr offset)
dynamic_value dead nr offset = if nr == 0 && offset == 0 then some dead_value else none
dynamic_value unknown nr offset = if nr == 0 && offset == 0 then some unknown_value else none
dynamic_value tainted nr offset = if nr == 0 && offset == 0 then some tainted_value else none
dynamic_value immediate nr offset = if nr == 0 && offset == 0 then some (imm64 0) else none
dynamic_value tail nr offset = none
dynamic_value stack_ptr_tail nr offset = none

-- `multiplyDynamicValue`; `scale` is a `uint8_t`.
scale_value : DynamicValue → ℕ → DynamicValue
scale_value (imm64 v) scale = imm64 (scale * v % u64)
scale_value (imm128 v) scale = imm64 (scale * (v % u64) % u64)
scale_value (ptr_value stack nr offset) scale = tainted_value
scale_value (ptr_value _ nr offset) scale = unknown_value
scale_value data' scale = data'

unfoldable pub multiply_dynamic_value : DynamicValue → ℕ → DynamicValue
unfolding scale_value
multiply_dynamic_value data' scale = if scale == 1 then data' else scale_value data' scale

-- A pointer moved by a number of bytes, with the wrap of `int64_t`.
abbrev shift_ptr : DynamicValue → ℕ → DynamicValue
shift_ptr (ptr_value p nr offset) k = ptr_value p nr ((offset + k) % u64)
shift_ptr v k = v

-- `addDynamicValues`
unfoldable pub add_dynamic_values : DynamicValue → DynamicValue → DynamicValue
add_dynamic_values v w =
    if is_imm (get_type v) && is_imm (get_type w)
    then imm64 ((get_imm64 v + get_imm64 w) % u64)
    else if is_ptr (get_type v) && is_imm (get_type w)
    then shift_ptr v (get_imm64 w)
    else if is_ptr (get_type w) && is_imm (get_type v)
    then shift_ptr w (get_imm64 v)
    else if is_tainted (get_type v)
        || is_tainted (get_type w)
        || is_stack_ptr (get_type v)
        || is_stack_ptr (get_type w)
    then tainted_value
    else unknown_value
