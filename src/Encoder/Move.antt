-- ===== src/Encoder/Move.antt =====
-- The encoders of the move, address and stack instructions of src/x86/Encoder.cpp, one for each family of opcodes.
-- Operands are numbered from 0; `addr` is the address that the bytes will have.
use drob.Prelude.{ℕ, Option, none, some, List, [], ◌∷◌, if◌then◌else◌, ◌&&◌}
use drob.Encoder.Operand.{fits8, fits32}
use drob.Encoder.Forms.{
  is_rax, needs_moffs, flag_none, flag_66, flag_rexw, write_modrm_m_reg, write_modrm_reg_m,
  write_modrm_r_reg, write_modrm_m_imm, write_modrm_r_imm, write_modrm_m, write_reg_imm, write_reg,
  write_imm, write_moffs, StaticOperand,
}
use drob.Encoder.Opcode.{
  Opcode, lea16ra, lea32ra, lea64ra, mov32mi, mov32mr, mov32ri, mov32rm, mov32rr, mov64mi, mov64mr,
  mov64ri, mov64rm, mov64rr, pop16m, pop16r, pop64m, pop64r, push16i, push16m, push16r, push64i,
  push64m, push64r,
}

-- `encode` of `mov`.
unfoldable pub encode_mov : Opcode → (ℕ → StaticOperand) → ℕ → Option (List ℕ)
unfolding write_modrm_m_reg write_modrm_reg_m write_modrm_r_reg write_modrm_m_imm write_modrm_r_imm
    write_reg_imm write_moffs
encode_mov mov64mr ops addr =
    if needs_moffs (ops 0).mem && is_rax (ops 1).reg
    then write_moffs 0xa3 (ops 0).mem
    else write_modrm_m_reg (0x89 ∷ []) ops flag_rexw addr
encode_mov mov64rr ops addr = write_modrm_r_reg (0x89 ∷ []) ops flag_rexw
encode_mov mov64rm ops addr =
    if needs_moffs (ops 1).mem && is_rax (ops 0).reg
    then write_moffs 0xa1 (ops 1).mem
    else write_modrm_reg_m (0x8b ∷ []) ops flag_rexw addr
encode_mov mov64mi ops addr = write_modrm_m_imm 4 0xc7 0 ops flag_rexw addr
encode_mov mov64ri ops addr =
    if fits32 (ops 0).imm
    then write_modrm_r_imm 4 0xc7 0 ops flag_rexw
    else write_reg_imm 8 0xb8 ops flag_rexw
encode_mov mov32mr ops addr = write_modrm_m_reg (0x89 ∷ []) ops flag_none addr
encode_mov mov32rr ops addr = write_modrm_r_reg (0x89 ∷ []) ops flag_none
encode_mov mov32rm ops addr = write_modrm_reg_m (0x8b ∷ []) ops flag_none addr
encode_mov mov32mi ops addr = write_modrm_m_imm 4 0xc7 0 ops flag_none addr
encode_mov mov32ri ops addr = write_reg_imm 4 0xb8 ops flag_none
encode_mov _ ops addr = none

-- `encode` of `lea`.
unfoldable pub encode_lea : Opcode → (ℕ → StaticOperand) → ℕ → Option (List ℕ)
unfolding write_modrm_reg_m
encode_lea lea16ra ops addr = write_modrm_reg_m (0x8d ∷ []) ops flag_66 addr
encode_lea lea32ra ops addr = write_modrm_reg_m (0x8d ∷ []) ops flag_none addr
encode_lea lea64ra ops addr = write_modrm_reg_m (0x8d ∷ []) ops flag_rexw addr
encode_lea _ ops addr = none

-- `encode` of `push`.
unfoldable pub encode_push : Opcode → (ℕ → StaticOperand) → ℕ → Option (List ℕ)
unfolding write_modrm_m write_reg write_imm
encode_push push16m ops addr = write_modrm_m 0xff 6 ops flag_66 addr
encode_push push16r ops addr = write_reg 0x50 ops flag_66
encode_push push16i ops addr = write_imm 2 0x68 (ops 0).imm flag_66
encode_push push64m ops addr = write_modrm_m 0xff 6 ops flag_none addr
encode_push push64r ops addr = write_reg 0x50 ops flag_none
encode_push push64i ops addr =
    if fits8 (ops 0).imm
    then write_imm 1 0x6a (ops 0).imm flag_none
    else write_imm 4 0x68 (ops 0).imm flag_none
encode_push _ ops addr = none

-- `encode` of `pop`.
unfoldable pub encode_pop : Opcode → (ℕ → StaticOperand) → ℕ → Option (List ℕ)
unfolding write_modrm_m write_reg
encode_pop pop16m ops addr = write_modrm_m 0x8f 0 ops flag_66 addr
encode_pop pop16r ops addr = write_reg 0x58 ops flag_66
encode_pop pop64m ops addr = write_modrm_m 0x8f 0 ops flag_none addr
encode_pop pop64r ops addr = write_reg 0x58 ops flag_none
encode_pop _ ops addr = none

-- `encode` of `ret`.
unfoldable pub encode_ret : Opcode → (ℕ → StaticOperand) → ℕ → Option (List ℕ)
encode_ret opcode ops addr = some (0xc3 ∷ [])
