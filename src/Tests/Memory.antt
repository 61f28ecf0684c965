-- ===== src/Tests/Memory.antt =====
-- The theorem on memory operands at a concrete operand.
use drob.Prelude.{refl, arith}
use drob.Value.{stack, imm64, ptr_value}
use drob.Value.Laws.{Allows}
use drob.Memory.{calculate_mem_ptr}
use drob.Memory.Sound.{calculate_mem_ptr-Allows}

-- `[rsp + 4 * 3 + 8]`, with the stack pointer 16 bytes above its value at the entry.
calculate_mem_ptr-Allows_example :
    Allows (λ p nr. 1000) (calculate_mem_ptr (ptr_value stack 0 16) (imm64 3) (imm64 8) 4) 1036
calculate_mem_ptr-Allows_example =
    calculate_mem_ptr-Allows (λ p nr. 1000) (ptr_value stack 0 16) (imm64 3) (imm64 8) 4 1016 3 8
      (omega arith) (omega arith) (omega arith) (omega arith) refl refl
