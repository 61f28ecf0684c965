-- ===== src/Value/Laws.antt =====
-- What a value says of a run of the program, for the operations of src/ProgramState.cpp on values:
-- an immediate gives the number, a pointer its base and its offset.
use drob.Prelude.{ℕ, ◌+◌, ◌*◌, ◌%◌, ◌≡◌, arith, ◌<◌, Bool, true, ◌||◌}
use drob.Value.{
  DynamicValue, PtrType, dead_value, imm64, imm128, ptr_value, u64, multiply_dynamic_value,
  add_dynamic_values, get_type, is_tainted, is_stack_ptr,
}

-- The address that each pointer has at the entry of the function.
abbrev pub Bases : Type 0
Bases = PtrType → ℕ → ℕ

-- A value that may hold a stack pointer or a piece of one.
abbrev pub may_be_stack : DynamicValue → Bool
may_be_stack v = is_tainted (get_type v) || is_stack_ptr (get_type v)

-- The number `w` that a run has at a place is one that the value allows there.
abbrev pub Allows : Bases → DynamicValue → ℕ → Type 0
Allows base (imm64 v) w = w ≡ v
Allows base (imm128 v) w = w ≡ v
Allows base (ptr_value p nr offset) w = w ≡ (base p nr + offset) % u64
Allows base _ w = Unit

module _ (base : Bases) where
  -- If two values allow two numbers, their abstract sum allows the sum of the numbers modulo 2 ^ 64.
  pub add_dynamic_values-Allows :
      (v w : DynamicValue) (a b : ℕ)
      → Allows base v a
      → Allows base w b
      → Allows base (add_dynamic_values v w) ((a + b) % u64)
  unfolding add_dynamic_values
  add_dynamic_values-Allows dead_value w a b p q = ground arith
  add_dynamic_values-Allows v w a b p q = ground arith

  -- If a value allows a number below 2 ^ 64, its abstract multiple by the scale of an address
  -- allows the multiple of the number modulo 2 ^ 64.
  pub multiply_dynamic_value-Allows :
      (v : DynamicValue) (scale a : ℕ)
      → a < u64
      → Allows base v a
      → Allows base (multiply_dynamic_value v scale) (scale * a % u64)
  unfolding multiply_dynamic_value
  multiply_dynamic_value-Allows dead_value scale a h p = ground arith
  multiply_dynamic_value-Allows v scale a h p = ground arith

-- If one of two values may hold a stack pointer, their abstract sum is marked as one that may.
pub add_dynamic_values-may_be_stack :
    (v w : DynamicValue)
    → (may_be_stack v || may_be_stack w) ≡ true
    → may_be_stack (add_dynamic_values v w) ≡ true
unfolding add_dynamic_values
add_dynamic_values-may_be_stack dead_value w h = ground arith
add_dynamic_values-may_be_stack v w h = ground arith

-- A multiple of a value that may hold a stack pointer is marked as one that may hold one.
pub multiply-may_be_stack :
    (v : DynamicValue) (scale : ℕ)
    → may_be_stack v ≡ true
    → may_be_stack (multiply_dynamic_value v scale) ≡ true
unfolding multiply_dynamic_value
multiply-may_be_stack v scale h = ground arith
