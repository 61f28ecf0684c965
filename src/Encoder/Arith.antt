-- ===== src/Encoder/Arith.antt =====
-- The encoders of the additions, subtractions and comparisons of src/x86/Encoder.cpp, one for each family
-- of opcodes. Operands are numbered from 0; `addr` is the address that the bytes will have.
use drob.Prelude.{ℕ, Option, none, List, [], ◌∷◌, if◌then◌else◌}
use drob.Encoder.Operand.{fits8}
use drob.Encoder.Forms.{
  is_al, is_ax, is_eax, is_rax, flag_none, flag_66, flag_rexw, write_modrm_m_reg, write_modrm_reg_m,
  write_modrm_r_reg, write_modrm_m_imm, write_modrm_r_imm, write_imm, StaticOperand,
}
use drob.Encoder.Opcode.{
  Opcode, add16mi, add16mr, add16ri, add16rm, add16rr, add32mi, add32mr, add32ri, add32rm, add32rr,
  add64mi, add64mr, add64ri, add64rm, add64rr, add8mi, add8mr, add8ri, add8rm, add8rr, cmp16mi,
  cmp16mr, cmp16ri, cmp16rm, cmp16rr, cmp32mi, cmp32mr, cmp32ri, cmp32rm, cmp32rr, cmp64mi, cmp64mr,
  cmp64ri, cmp64rm, cmp64rr, cmp8mi, cmp8mr, cmp8ri, cmp8rm, cmp8rr, sub16mi, sub16mr, sub16ri,
  sub16rm, sub16rr, sub32mi, sub32mr, sub32ri, sub32rm, sub32rr, sub64mi, sub64mr, sub64ri, sub64rm,
  sub64rr, sub8mi, sub8mr, sub8ri, sub8rm, sub8rr,
}

-- `encode` of `add`.
unfoldable pub encode_add : Opcode → (ℕ → StaticOperand) → ℕ → Option (List ℕ)
unfolding write_modrm_m_reg write_modrm_reg_m write_modrm_r_reg write_modrm_m_imm write_modrm_r_imm
    write_imm
encode_add add8mr ops addr = write_modrm_m_reg (0x00 ∷ []) ops flag_none addr
encode_add add16mr ops addr = write_modrm_m_reg (0x01 ∷ []) ops flag_66 addr
encode_add add32mr ops addr = write_modrm_m_reg (0x01 ∷ []) ops flag_none addr
encode_add add64mr ops addr = write_modrm_m_reg (0x01 ∷ []) ops flag_rexw addr
encode_add add8rr ops addr = write_modrm_r_reg (0x00 ∷ []) ops flag_none
encode_add add16rr ops addr = write_modrm_r_reg (0x01 ∷ []) ops flag_66
encode_add add32rr ops addr = write_modrm_r_reg (0x01 ∷ []) ops flag_none
encode_add add64rr ops addr = write_modrm_r_reg (0x01 ∷ []) ops flag_rexw
encode_add add8rm ops addr = write_modrm_reg_m (0x02 ∷ []) ops flag_none addr
encode_add add16rm ops addr = write_modrm_reg_m (0x03 ∷ []) ops flag_66 addr
encode_add add32rm ops addr = write_modrm_reg_m (0x03 ∷ []) ops flag_none addr
encode_add add64rm ops addr = write_modrm_reg_m (0x03 ∷ []) ops flag_rexw addr
encode_add add8mi ops addr = write_modrm_m_imm 1 0x80 0 ops flag_none addr
encode_add add16mi ops addr =
    if fits8 (ops 1).imm
    then write_modrm_m_imm 1 0x83 0 ops flag_66 addr
    else write_modrm_m_imm 2 0x81 0 ops flag_66 addr
encode_add add32mi ops addr =
    if fits8 (ops 1).imm
    then write_modrm_m_imm 1 0x83 0 ops flag_none addr
    else write_modrm_m_imm 4 0x81 0 ops flag_none addr
encode_add add64mi ops addr =
    if fits8 (ops 1).imm
    then write_modrm_m_imm 1 0x83 0 ops flag_rexw addr
    else write_modrm_m_imm 4 0x81 0 ops flag_rexw addr
encode_add add8ri ops addr =
    if is_al (ops 0).reg
    then write_imm 1 0x04 (ops 1).imm flag_none
    else write_modrm_r_imm 1 0x80 0 ops flag_none
encode_add add16ri ops addr =
    if fits8 (ops 1).imm
    then write_modrm_r_imm 1 0x83 0 ops flag_66
    else if is_ax (ops 0).reg
    then write_imm 2 0x05 (ops 1).imm flag_66
    else write_modrm_r_imm 2 0x81 0 ops flag_66
encode_add add32ri ops addr =
    if fits8 (ops 1).imm
    then write_modrm_r_imm 1 0x83 0 ops flag_none
    else if is_eax (ops 0).reg
    then write_imm 4 0x05 (ops 1).imm flag_none
    else write_modrm_r_imm 4 0x81 0 ops flag_none
encode_add add64ri ops addr =
    if fits8 (ops 1).imm
    then write_modrm_r_imm 1 0x83 0 ops flag_rexw
    else if is_rax (ops 0).reg
    then write_imm 4 0x05 (ops 1).imm flag_rexw
    else write_modrm_r_imm 4 0x81 0 ops flag_rexw
encode_add _ ops addr = none

-- `encode` of `cmp`.
unfoldable pub encode_cmp : Opcode → (ℕ → StaticOperand) → ℕ → Option (List ℕ)
unfolding write_modrm_m_reg write_modrm_reg_m write_modrm_r_reg write_modrm_m_imm write_modrm_r_imm
    write_imm
encode_cmp cmp8mr ops addr = write_modrm_m_reg (0x38 ∷ []) ops flag_none addr
encode_cmp cmp8mi ops addr = write_modrm_m_imm 1 0x80 7 ops flag_none addr
encode_cmp cmp8rm ops addr = write_modrm_reg_m (0x3a ∷ []) ops flag_none addr
encode_cmp cmp8rr ops addr = write_modrm_r_reg (0x38 ∷ []) ops flag_none
encode_cmp cmp8ri ops addr =
    if is_al (ops 0).reg
    then write_imm 1 0x3c (ops 1).imm flag_none
    else write_modrm_r_imm 1 0x80 7 ops flag_none
encode_cmp cmp16mr ops addr = write_modrm_m_reg (0x39 ∷ []) ops flag_66 addr
encode_cmp cmp16mi ops addr =
    if fits8 (ops 1).imm
    then write_modrm_m_imm 1 0x83 7 ops flag_66 addr
    else write_modrm_m_imm 2 0x81 7 ops flag_66 addr
encode_cmp cmp16rm ops addr = write_modrm_reg_m (0x3b ∷ []) ops flag_66 addr
encode_cmp cmp16rr ops addr = write_modrm_r_reg (0x39 ∷ []) ops flag_66
encode_cmp cmp16ri ops addr =
    if fits8 (ops 1).imm
    then write_modrm_r_imm 1 0x83 7 ops flag_66
    else if is_eax (ops 0).reg
    then write_imm 2 0x3d (ops 1).imm flag_66
    else write_modrm_r_imm 2 0x81 7 ops flag_66
encode_cmp cmp32mr ops addr = write_modrm_m_reg (0x39 ∷ []) ops flag_none addr
encode_cmp cmp32mi ops addr =
    if fits8 (ops 1).imm
    then write_modrm_m_imm 1 0x83 7 ops flag_none addr
    else write_modrm_m_imm 4 0x81 7 ops flag_none addr
encode_cmp cmp32rm ops addr = write_modrm_reg_m (0x3b ∷ []) ops flag_none addr
encode_cmp cmp32rr ops addr = write_modrm_r_reg (0x39 ∷ []) ops flag_none
encode_cmp cmp32ri ops addr =
    if fits8 (ops 1).imm
    then write_modrm_r_imm 1 0x83 7 ops flag_none
    else if is_eax (ops 0).reg
    then write_imm 4 0x3d (ops 1).imm flag_none
    else write_modrm_r_imm 4 0x81 7 ops flag_none
encode_cmp cmp64mr ops addr = write_modrm_m_reg (0x39 ∷ []) ops flag_rexw addr
encode_cmp cmp64mi ops addr =
    if fits8 (ops 1).imm
    then write_modrm_m_imm 1 0x83 7 ops flag_rexw addr
    else write_modrm_m_imm 4 0x81 7 ops flag_rexw addr
encode_cmp cmp64rm ops addr = write_modrm_reg_m (0x3b ∷ []) ops flag_rexw addr
encode_cmp cmp64rr ops addr = write_modrm_r_reg (0x39 ∷ []) ops flag_rexw
encode_cmp cmp64ri ops addr =
    if fits8 (ops 1).imm
    then write_modrm_r_imm 1 0x83 7 ops flag_rexw
    else if is_rax (ops 0).reg
    then write_imm 4 0x3d (ops 1).imm flag_rexw
    else write_modrm_r_imm 4 0x81 7 ops flag_rexw
encode_cmp _ ops addr = none

-- `encode` of `sub`.
unfoldable pub encode_sub : Opcode → (ℕ → StaticOperand) → ℕ → Option (List ℕ)
unfolding write_modrm_m_reg write_modrm_reg_m write_modrm_r_reg write_modrm_m_imm write_modrm_r_imm
    write_imm
encode_sub sub8mr ops addr = write_modrm_m_reg (0x28 ∷ []) ops flag_none addr
encode_sub sub16mr ops addr = write_modrm_m_reg (0x29 ∷ []) ops flag_66 addr
encode_sub sub32mr ops addr = write_modrm_m_reg (0x29 ∷ []) ops flag_none addr
encode_sub sub64mr ops addr = write_modrm_m_reg (0x29 ∷ []) ops flag_rexw addr
encode_sub sub8rr ops addr = write_modrm_r_reg (0x28 ∷ []) ops flag_none
encode_sub sub16rr ops addr = write_modrm_r_reg (0x29 ∷ []) ops flag_66
encode_sub sub32rr ops addr = write_modrm_r_reg (0x29 ∷ []) ops flag_none
encode_sub sub64rr ops addr = write_modrm_r_reg (0x29 ∷ []) ops flag_rexw
encode_sub sub8rm ops addr = write_modrm_reg_m (0x28 ∷ []) ops flag_none addr
encode_sub sub16rm ops addr = write_modrm_reg_m (0x29 ∷ []) ops flag_66 addr
encode_sub sub32rm ops addr = write_modrm_reg_m (0x29 ∷ []) ops flag_none addr
encode_sub sub64rm ops addr = write_modrm_reg_m (0x29 ∷ []) ops flag_rexw addr
encode_sub sub8mi ops addr = write_modrm_m_imm 1 0x80 5 ops flag_none addr
encode_sub sub16mi ops addr =
    if fits8 (ops 1).imm
    then write_modrm_m_imm 1 0x83 5 ops flag_66 addr
    else write_modrm_m_imm 2 0x81 5 ops flag_66 addr
encode_sub sub32mi ops addr =
    if fits8 (ops 1).imm
    then write_modrm_m_imm 1 0x83 5 ops flag_none addr
    else write_modrm_m_imm 4 0x81 5 ops flag_none addr
encode_sub sub64mi ops addr =
    if fits8 (ops 1).imm
    then write_modrm_m_imm 1 0x83 5 ops flag_rexw addr
    else write_modrm_m_imm 4 0x81 5 ops flag_rexw addr
encode_sub sub8ri ops addr =
    if is_al (ops 0).reg
    then write_imm 1 0x2c (ops 1).imm flag_none
    else write_modrm_r_imm 1 0x80 5 ops flag_none
encode_sub sub16ri ops addr =
    if fits8 (ops 1).imm
    then write_modrm_r_imm 1 0x83 5 ops flag_66
    else if is_ax (ops 0).reg
    then write_imm 2 0x2d (ops 1).imm flag_66
    else write_modrm_r_imm 2 0x81 5 ops flag_66
encode_sub sub32ri ops addr =
    if fits8 (ops 1).imm
    then write_modrm_r_imm 1 0x83 5 ops flag_none
    else if is_eax (ops 0).reg
    then write_imm 4 0x2d (ops 1).imm flag_none
    else write_modrm_r_imm 4 0x81 5 ops flag_none
encode_sub sub64ri ops addr =
    if fits8 (ops 1).imm
    then write_modrm_r_imm 1 0x83 5 ops flag_rexw
    else if is_rax (ops 0).reg
    then write_imm 4 0x2d (ops 1).imm flag_rexw
    else write_modrm_r_imm 4 0x81 5 ops flag_rexw
encode_sub _ ops addr = none
