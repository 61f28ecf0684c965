-- ===== src/Encoder/Vector.antt =====
-- The encoders of the vector instructions of src/x86/Encoder.cpp, one for each family of opcodes.
-- Operands are numbered from 0; `addr` is the address that the bytes will have.
use drob.Prelude.{ℕ, Option, none, List, [], ◌∷◌}
use drob.Encoder.Forms.{
  flag_none, flag_66, flag_f2, write_modrm_m_reg, write_modrm_reg_m, write_modrm_reg_r,
  StaticOperand,
}
use drob.Encoder.Opcode.{
  Opcode, addpdrm, addpdrr, addsdrm, addsdrr, movapdmr, movapdrm, movapdrr, movsdmr, movsdrm,
  movsdrr, movupdmr, movupdrm, movupdrr, movupsmr, movupsrm, movupsrr, mulpdrm, mulpdrr, mulsdrm,
  mulsdrr, pxor128rm, pxor128rr,
}

-- `encode` of `addpd`.
unfoldable pub encode_addpd : Opcode → (ℕ → StaticOperand) → ℕ → Option (List ℕ)
unfolding write_modrm_reg_m write_modrm_reg_r
encode_addpd addpdrr ops addr = write_modrm_reg_r (0x0f ∷ 0x58 ∷ []) ops flag_66
encode_addpd addpdrm ops addr = write_modrm_reg_m (0x0f ∷ 0x58 ∷ []) ops flag_66 addr
encode_addpd _ ops addr = none

-- `encode` of `addsd`.
unfoldable pub encode_addsd : Opcode → (ℕ → StaticOperand) → ℕ → Option (List ℕ)
unfolding write_modrm_reg_m write_modrm_reg_r
encode_addsd addsdrr ops addr = write_modrm_reg_r (0x0f ∷ 0x58 ∷ []) ops flag_f2
encode_addsd addsdrm ops addr = write_modrm_reg_m (0x0f ∷ 0x58 ∷ []) ops flag_f2 addr
encode_addsd _ ops addr = none

-- `encode` of `movapd`.
unfoldable pub encode_movapd : Opcode → (ℕ → StaticOperand) → ℕ → Option (List ℕ)
unfolding write_modrm_m_reg write_modrm_reg_m write_modrm_reg_r
encode_movapd movapdrm ops addr = write_modrm_reg_m (0x0f ∷ 0x28 ∷ []) ops flag_66 addr
encode_movapd movapdrr ops addr = write_modrm_reg_r (0x0f ∷ 0x28 ∷ []) ops flag_66
encode_movapd movapdmr ops addr = write_modrm_m_reg (0x0f ∷ 0x29 ∷ []) ops flag_66 addr
encode_movapd _ ops addr = none

-- `encode` of `movsd`.
unfoldable pub encode_movsd : Opcode → (ℕ → StaticOperand) → ℕ → Option (List ℕ)
unfolding write_modrm_m_reg write_modrm_reg_m write_modrm_reg_r
encode_movsd movsdrm ops addr = write_modrm_reg_m (0x0f ∷ 0x10 ∷ []) ops flag_f2 addr
encode_movsd movsdrr ops addr = write_modrm_reg_r (0x0f ∷ 0x10 ∷ []) ops flag_f2
encode_movsd movsdmr ops addr = write_modrm_m_reg (0x0f ∷ 0x11 ∷ []) ops flag_f2 addr
encode_movsd _ ops addr = none

-- `encode` of `movupd`.
unfoldable pub encode_movupd : Opcode → (ℕ → StaticOperand) → ℕ → Option (List ℕ)
unfolding write_modrm_m_reg write_modrm_reg_m write_modrm_reg_r
encode_movupd movupdmr ops addr = write_modrm_m_reg (0x0f ∷ 0x11 ∷ []) ops flag_66 addr
encode_movupd movupdrr ops addr = write_modrm_reg_r (0x0f ∷ 0x10 ∷ []) ops flag_66
encode_movupd movupdrm ops addr = write_modrm_reg_m (0x0f ∷ 0x10 ∷ []) ops flag_66 addr
encode_movupd _ ops addr = none

-- `encode` of `movups`.
unfoldable pub encode_movups : Opcode → (ℕ → StaticOperand) → ℕ → Option (List ℕ)
unfolding write_modrm_m_reg write_modrm_reg_m write_modrm_reg_r
encode_movups movupsmr ops addr = write_modrm_m_reg (0x0f ∷ 0x11 ∷ []) ops flag_none addr
encode_movups movupsrr ops addr = write_modrm_reg_r (0x0f ∷ 0x10 ∷ []) ops flag_none
encode_movups movupsrm ops addr = write_modrm_reg_m (0x0f ∷ 0x10 ∷ []) ops flag_none addr
encode_movups _ ops addr = none

-- `encode` of `mulpd`.
unfoldable pub encode_mulpd : Opcode → (ℕ → StaticOperand) → ℕ → Option (List ℕ)
unfolding write_modrm_reg_m write_modrm_reg_r
encode_mulpd mulpdrr ops addr = write_modrm_reg_r (0x0f ∷ 0x59 ∷ []) ops flag_66
encode_mulpd mulpdrm ops addr = write_modrm_reg_m (0x0f ∷ 0x59 ∷ []) ops flag_66 addr
encode_mulpd _ ops addr = none

-- `encode` of `mulsd`.
unfoldable pub encode_mulsd : Opcode → (ℕ → StaticOperand) → ℕ → Option (List ℕ)
unfolding write_modrm_reg_m write_modrm_reg_r
encode_mulsd mulsdrr ops addr = write_modrm_reg_r (0x0f ∷ 0x59 ∷ []) ops flag_f2
encode_mulsd mulsdrm ops addr = write_modrm_reg_m (0x0f ∷ 0x59 ∷ []) ops flag_f2 addr
encode_mulsd _ ops addr = none

-- `encode` of `pxor`.
unfoldable pub encode_pxor : Opcode → (ℕ → StaticOperand) → ℕ → Option (List ℕ)
unfolding write_modrm_reg_m write_modrm_reg_r
encode_pxor pxor128rr ops addr = write_modrm_reg_r (0x0f ∷ 0xef ∷ []) ops flag_66
encode_pxor pxor128rm ops addr = write_modrm_reg_m (0x0f ∷ 0xef ∷ []) ops flag_66 addr
encode_pxor _ ops addr = none
