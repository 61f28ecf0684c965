-- ===== src/Encoder/Forms.antt =====
-- The forms of x86 instructions in src/x86/Encoder.cpp: the functions `write_modrm_*`, `write_reg*` and
-- `write_imm*`, which the encoders of the single instructions call. The overloads for one and for two
-- bytes of opcode are one function of the list of these bytes, and those for the widths of an
-- immediate one function of the number of bytes. Each returns the bytes written.
use drob.Prelude.{
  ℕ, ◌+◌, ◌%◌, Bool, true, false, not, Option, none, some, ◌>>=◌, List, [], ◌∷◌, ◌++◌,
}
use drob.Registers.{Register, al, ax, eax, rax}
use drob.Encoder.Numbers.{encode_reg}
use drob.Encoder.Operand.{
  Rex, StaticMemPtr, direct, EncFlags, fits32, high_bit, prefixes, le_bytes, new_encoding,
  encode_register, encode_memory, write,
}

-- `StaticOperand`: a union, whose members are fields here; of the members that were not set last
-- nothing is assumed. The register that a parameter `rm` or `reg` names is `reg`.
pub record StaticOperand : Type 0 where
  pub reg : Register
  pub imm : ℕ
  pub mem : StaticMemPtr

abbrev pub flag_none : EncFlags
flag_none = record { rexw = false; flag66 = false; flag_f2 = false }

abbrev pub flag_rexw : EncFlags
flag_rexw = record { rexw = true; flag66 = false; flag_f2 = false }

abbrev pub flag_66 : EncFlags
flag_66 = record { rexw = false; flag66 = true; flag_f2 = false }

abbrev pub flag_f2 : EncFlags
flag_f2 = record { rexw = false; flag66 = false; flag_f2 = true }

abbrev pub is_al : Register → Bool
is_al al = true
is_al _ = false

abbrev pub is_ax : Register → Bool
is_ax ax = true
is_ax _ = false

abbrev pub is_eax : Register → Bool
is_eax eax = true
is_eax _ = false

abbrev pub is_rax : Register → Bool
is_rax rax = true
is_rax _ = false

-- The two kinds of rm operand, written behind the opcode, with an immediate of `n` bytes.
unfoldable pub write_memory : List ℕ → ℕ → StaticMemPtr → ℕ → ℕ → EncFlags → ℕ → Option (List ℕ)
unfolding new_encoding encode_memory write
write_memory oc reg rm imm n flags addr =
    encode_memory (new_encoding oc reg imm n flags) rm addr >>= write

unfoldable pub write_register : List ℕ → ℕ → Register → ℕ → ℕ → EncFlags → Option (List ℕ)
unfolding new_encoding encode_register write
write_register oc reg rm imm n flags =
    encode_register (new_encoding oc reg imm n flags) rm >>= write

unfoldable pub write_modrm_m_reg : List ℕ → (ℕ → StaticOperand) → EncFlags → ℕ → Option (List ℕ)
unfolding write_memory
write_modrm_m_reg oc ops flags addr =
    encode_reg (ops 1).reg >>= λ r. write_memory oc r (ops 0).mem 0 0 flags addr

unfoldable pub write_modrm_reg_m : List ℕ → (ℕ → StaticOperand) → EncFlags → ℕ → Option (List ℕ)
unfolding write_memory
write_modrm_reg_m oc ops flags addr =
    encode_reg (ops 0).reg >>= λ r. write_memory oc r (ops 1).mem 0 0 flags addr

unfoldable pub write_modrm_r_reg : List ℕ → (ℕ → StaticOperand) → EncFlags → Option (List ℕ)
unfolding write_register
write_modrm_r_reg oc ops flags =
    encode_reg (ops 1).reg >>= λ r. write_register oc r (ops 0).reg 0 0 flags

unfoldable pub write_modrm_reg_r : List ℕ → (ℕ → StaticOperand) → EncFlags → Option (List ℕ)
unfolding write_register
write_modrm_reg_r oc ops flags =
    encode_reg (ops 0).reg >>= λ r. write_register oc r (ops 1).reg 0 0 flags

unfoldable pub write_modrm_m : ℕ → ℕ → (ℕ → StaticOperand) → EncFlags → ℕ → Option (List ℕ)
unfolding write_memory
write_modrm_m oc oce ops flags addr = write_memory (oc ∷ []) oce (ops 0).mem 0 0 flags addr

unfoldable pub write_modrm_r : ℕ → ℕ → (ℕ → StaticOperand) → EncFlags → Option (List ℕ)
unfolding write_register
write_modrm_r oc oce ops flags = write_register (oc ∷ []) oce (ops 0).reg 0 0 flags

unfoldable pub write_modrm_m_imm : ℕ → ℕ → ℕ → (ℕ → StaticOperand) → EncFlags → ℕ → Option (List ℕ)
unfolding write_memory
write_modrm_m_imm n oc oce ops flags addr =
    write_memory (oc ∷ []) oce (ops 0).mem (ops 1).imm n flags addr

unfoldable pub write_modrm_r_imm : ℕ → ℕ → ℕ → (ℕ → StaticOperand) → EncFlags → Option (List ℕ)
unfolding write_register
write_modrm_r_imm n oc oce ops flags = write_register (oc ∷ []) oce (ops 0).reg (ops 1).imm n flags

-- "oc + rw/rd": the register is in the last bits of the opcode.
unfoldable pub write_reg : ℕ → (ℕ → StaticOperand) → EncFlags → Option (List ℕ)
write_reg oc ops flags = do
  r ← encode_reg (ops 0).reg
  let rex : Rex = record { w = flags.rexw; r = false; x = false; b = high_bit r }
  some (prefixes flags.flag66 false flags.flag_f2 rex ++ (oc + r % 8) ∷ [])

unfoldable pub write_reg_imm : ℕ → ℕ → (ℕ → StaticOperand) → EncFlags → Option (List ℕ)
unfolding write_reg le_bytes
write_reg_imm n oc ops flags = do
  bytes ← write_reg oc ops flags
  some (bytes ++ le_bytes n (ops 1).imm)

unfoldable pub write_imm : ℕ → ℕ → ℕ → EncFlags → Option (List ℕ)
unfolding le_bytes
write_imm n oc imm flags =
    let rex : Rex = record { w = flags.rexw; r = false; x = false; b = false } in
    some (prefixes flags.flag66 false flags.flag_f2 rex ++ oc ∷ le_bytes n imm)

-- A 64-bit address that `isDisp32` refuses.
abbrev pub needs_moffs : StaticMemPtr → Bool
needs_moffs (direct val) = not (fits32 val)
needs_moffs _ = false

-- The special encoding for such an address.
unfoldable pub write_moffs : ℕ → StaticMemPtr → Option (List ℕ)
unfolding le_bytes
write_moffs oc (direct val) = some (0x48 ∷ oc ∷ le_bytes 8 val)
write_moffs oc _ = none
