-- ===== src/Encoder/Logic.antt =====
-- The encoders of the bitwise and shift instructions of src/x86/Encoder.cpp, one for each family of
-- opcodes. Operands are numbered from 0; `addr` is the address that the bytes will have.
use drob.Prelude.{ℕ, Option, none, List, [], ◌∷◌, ◌==◌, if◌then◌else◌}
use drob.Encoder.Operand.{fits8}
use drob.Encoder.Forms.{
  is_al, is_ax, is_eax, is_rax, flag_none, flag_66, flag_rexw, write_modrm_m_reg, write_modrm_reg_m,
  write_modrm_r_reg, write_modrm_m_imm, write_modrm_r_imm, write_modrm_m, write_modrm_r, write_imm,
  StaticOperand,
}
use drob.Encoder.Opcode.{
  Opcode, shl64m, shl64mi, shl64r, shl64ri, shr64m, shr64mi, shr64r, shr64ri, test16mi, test16mr,
  test16ri, test16rr, test32mi, test32mr, test32ri, test32rr, test64mi, test64mr, test64ri,
  test64rr, test8mi, test8mr, test8ri, test8rr, xor32mi, xor32mr, xor32ri, xor32rm, xor32rr,
  xor64mi, xor64mr, xor64ri, xor64rm, xor64rr,
}

-- `encode` of `xor`.
unfoldable pub encode_xor : Opcode → (ℕ → StaticOperand) → ℕ → Option (List ℕ)
unfolding write_modrm_m_reg write_modrm_reg_m write_modrm_r_reg write_modrm_m_imm write_modrm_r_imm
    write_imm
encode_xor xor64mr ops addr = write_modrm_m_reg (0x31 ∷ []) ops flag_rexw addr
encode_xor xor64rr ops addr = write_modrm_r_reg (0x31 ∷ []) ops flag_rexw
encode_xor xor64rm ops addr = write_modrm_reg_m (0x33 ∷ []) ops flag_rexw addr
encode_xor xor64mi ops addr =
    if fits8 (ops 1).imm
    then write_modrm_m_imm 1 0x83 6 ops flag_rexw addr
    else write_modrm_m_imm 4 0x81 6 ops flag_rexw addr
encode_xor xor64ri ops addr =
    if fits8 (ops 1).imm
    then write_modrm_r_imm 1 0x83 6 ops flag_rexw
    else if is_rax (ops 0).reg
    then write_imm 4 0x35 (ops 1).imm flag_rexw
    else write_modrm_r_imm 4 0x81 6 ops flag_rexw
encode_xor xor32mr ops addr = write_modrm_m_reg (0x31 ∷ []) ops flag_none addr
encode_xor xor32rr ops addr = write_modrm_r_reg (0x31 ∷ []) ops flag_none
encode_xor xor32rm ops addr = write_modrm_reg_m (0x33 ∷ []) ops flag_none addr
encode_xor xor32mi ops addr =
    if fits8 (ops 1).imm
    then write_modrm_m_imm 1 0x83 6 ops flag_none addr
    else write_modrm_m_imm 4 0x81 6 ops flag_rexw addr
encode_xor xor32ri ops addr =
    if fits8 (ops 1).imm
    then write_modrm_r_imm 1 0x83 6 ops flag_none
    else if is_rax (ops 0).reg
    then write_imm 4 0x35 (ops 1).imm flag_none
    else write_modrm_r_imm 4 0x81 6 ops flag_none
encode_xor _ ops addr = none

-- `encode` of `test`.
unfoldable pub encode_test : Opcode → (ℕ → StaticOperand) → ℕ → Option (List ℕ)
unfolding write_modrm_m_reg write_modrm_r_reg write_modrm_m_imm write_modrm_r_imm write_imm
encode_test test8mr ops addr = write_modrm_m_reg (0x84 ∷ []) ops flag_none addr
encode_test test8mi ops addr = write_modrm_m_imm 1 0xf6 0 ops flag_none addr
encode_test test8rr ops addr = write_modrm_r_reg (0x84 ∷ []) ops flag_66
encode_test test8ri ops addr =
    if is_al (ops 0).reg
    then write_imm 1 0xa8 (ops 1).imm flag_66
    else write_modrm_r_imm 1 0xf6 0 ops flag_none
encode_test test16mr ops addr = write_modrm_m_reg (0x85 ∷ []) ops flag_66 addr
encode_test test16mi ops addr = write_modrm_m_imm 2 0xf7 0 ops flag_66 addr
encode_test test16rr ops addr = write_modrm_r_reg (0x85 ∷ []) ops flag_66
encode_test test16ri ops addr =
    if is_ax (ops 0).reg
    then write_imm 2 0xa9 (ops 1).imm flag_66
    else write_modrm_r_imm 2 0xf7 0 ops flag_66
encode_test test32mr ops addr = write_modrm_m_reg (0x85 ∷ []) ops flag_none addr
encode_test test32mi ops addr = write_modrm_m_imm 4 0xf7 0 ops flag_none addr
encode_test test32rr ops addr = write_modrm_r_reg (0x85 ∷ []) ops flag_none
encode_test test32ri ops addr =
    if is_eax (ops 0).reg
    then write_imm 4 0xa9 (ops 1).imm flag_none
    else write_modrm_r_imm 4 0xf7 0 ops flag_none
encode_test test64mr ops addr = write_modrm_m_reg (0x85 ∷ []) ops flag_rexw addr
encode_test test64mi ops addr = write_modrm_m_imm 4 0xf7 0 ops flag_rexw addr
encode_test test64rr ops addr = write_modrm_r_reg (0x85 ∷ []) ops flag_rexw
encode_test test64ri ops addr =
    if is_rax (ops 0).reg
    then write_imm 4 0xa9 (ops 1).imm flag_rexw
    else write_modrm_r_imm 4 0xf7 0 ops flag_rexw
encode_test _ ops addr = none

-- `encode` of `shl`.
unfoldable pub encode_shl : Opcode → (ℕ → StaticOperand) → ℕ → Option (List ℕ)
unfolding write_modrm_m_imm write_modrm_r_imm write_modrm_m write_modrm_r
encode_shl shl64m ops addr = write_modrm_m 0xd3 4 ops flag_rexw addr
encode_shl shl64r ops addr = write_modrm_r 0xd3 4 ops flag_rexw
encode_shl shl64mi ops addr =
    if (ops 2).imm == 1
    then write_modrm_m 0xd1 4 ops flag_rexw addr
    else write_modrm_m_imm 1 0xc1 4 ops flag_rexw addr
encode_shl shl64ri ops addr =
    if (ops 2).imm == 1
    then write_modrm_r 0xd1 4 ops flag_rexw
    else write_modrm_r_imm 1 0xc1 4 ops flag_rexw
encode_shl _ ops addr = none

-- `encode` of `shr`.
unfoldable pub encode_shr : Opcode → (ℕ → StaticOperand) → ℕ → Option (List ℕ)
unfolding write_modrm_m_imm write_modrm_r_imm write_modrm_m write_modrm_r
encode_shr shr64m ops addr = write_modrm_m 0xd3 5 ops flag_rexw addr
encode_shr shr64r ops addr = write_modrm_r 0xd3 5 ops flag_rexw
encode_shr shr64mi ops addr =
    if (ops 2).imm == 1
    then write_modrm_m 0xd1 5 ops flag_rexw addr
    else write_modrm_m_imm 1 0xc1 5 ops flag_rexw addr
encode_shr shr64ri ops addr =
    if (ops 2).imm == 1
    then write_modrm_r 0xd1 5 ops flag_rexw
    else write_modrm_r_imm 1 0xc1 5 ops flag_rexw
encode_shr _ ops addr = none
