-- ===== src/Encoder/Control.antt =====
-- The encoders of the control flow instructions of src/x86/Encoder.cpp, one for each family of opcodes.
-- Operands are numbered from 0; `addr` is the address that the bytes will have.
use drob.Prelude.{ℕ, Option, none, List}
use drob.Encoder.Forms.{flag_none, flag_66, write_modrm_m, write_modrm_r, StaticOperand}
use drob.Encoder.Opcode.{Opcode, callm, callr, jmpm, jmpr}

-- `encode` of `call`.
unfoldable pub encode_call : Opcode → (ℕ → StaticOperand) → ℕ → Option (List ℕ)
unfolding write_modrm_m write_modrm_r
encode_call callr ops addr = write_modrm_r 0xff 0x03 ops flag_none
encode_call callm ops addr = write_modrm_m 0xff 0x03 ops flag_none addr
encode_call _ ops addr = none

-- `encode` of `jmp`.
unfoldable pub encode_jmp : Opcode → (ℕ → StaticOperand) → ℕ → Option (List ℕ)
unfolding write_modrm_m write_modrm_r
encode_jmp jmpr ops addr = write_modrm_r 0xff 0x04 ops flag_66
encode_jmp jmpm ops addr = write_modrm_m 0xff 0x04 ops flag_66 addr
encode_jmp _ ops addr = none

-- `encode` of the conditional branches: their target is always known.
unfoldable pub encode_jcc : Opcode → (ℕ → StaticOperand) → ℕ → Option (List ℕ)
encode_jcc opcode ops addr = none
