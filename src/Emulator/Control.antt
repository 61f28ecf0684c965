-- ===== src/Emulator/Control.antt =====
-- The emulation of moves, of the stack instructions, of calls and returns.
use drob.Prelude.{ℕ, ◌+◌, ◌-◌, ◌%◌, Option, none, some, List, ◌>>=◌}
use drob.Value.{DynamicValue, imm64, imm128, ptr_value, ret, u64}
use drob.Emulator.{
  DynamicOperandInfo, mem_acc, ok, mov10, mov20, mov02, Emulation, operand, set_output,
}

-- `RSP` moved by a number of bytes: up, and down.
unfoldable pub rsp_up : DynamicValue → ℕ → DynamicValue
rsp_up (imm64 v) k = imm64 ((v + k) % u64)
rsp_up (imm128 v) k = imm64 ((v % u64 + k) % u64)
rsp_up (ptr_value p nr offset) k = ptr_value p nr ((offset + k) % u64)
rsp_up v k = v

unfoldable pub rsp_down : DynamicValue → ℕ → DynamicValue
rsp_down (imm64 v) k = imm64 ((v + (u64 - k)) % u64)
rsp_down (imm128 v) k = imm64 ((v % u64 + (u64 - k)) % u64)
rsp_down (ptr_value p nr offset) k = ptr_value p nr ((offset + (u64 - k)) % u64)
rsp_down v k = v

-- `static_cast<uint8_t>(memAcc.size)`
access_size : DynamicOperandInfo → Option ℕ
access_size o = elim o.location [ mem_acc ptr size ↦ some (size % 256) | _ ↦ none ]

-- `call`
unfoldable pub emulate_call : List DynamicOperandInfo → Emulation
unfolding operand set_output rsp_down
emulate_call ops = do
  rsp ← operand ops 1
  ops1 ← set_output ops 1 (rsp_down rsp.input 8)
  ops2 ← set_output ops1 2 (ptr_value ret 1 0)
  some (ops2, ok)

-- `lea`
unfoldable pub emulate_lea : List DynamicOperandInfo → Emulation
unfolding operand set_output
emulate_lea ops = do o ← operand ops 1; ops' ← set_output ops 0 o.input; some (ops', ok)

-- `mov`
unfoldable pub emulate_mov : List DynamicOperandInfo → Emulation
unfolding operand set_output
emulate_mov ops = do o ← operand ops 1; ops' ← set_output ops 0 o.input; some (ops', mov10)

-- `pop`
unfoldable pub emulate_pop : List DynamicOperandInfo → Emulation
unfolding operand set_output rsp_up access_size
emulate_pop ops = do
  top ← operand ops 2
  size ← access_size top
  rsp ← operand ops 1
  ops1 ← set_output ops 1 (rsp_up rsp.input size)
  ops2 ← set_output ops1 0 top.input
  some (ops2, mov20)

-- `push`
unfoldable pub emulate_push : List DynamicOperandInfo → Emulation
unfolding operand set_output rsp_down access_size
emulate_push ops = do
  top ← operand ops 2
  size ← access_size top
  rsp ← operand ops 1
  ops1 ← set_output ops 1 (rsp_down rsp.input size)
  o ← operand ops 0
  ops2 ← set_output ops1 2 o.input
  some (ops2, mov02)

-- `ret`
unfoldable pub emulate_ret : List DynamicOperandInfo → Emulation
unfolding operand set_output rsp_up
emulate_ret ops = do
  rsp ← operand ops 0
  ops' ← set_output ops 0 (rsp_up rsp.input 8)
  some (ops', ok)
