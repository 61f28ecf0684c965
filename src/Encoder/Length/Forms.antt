-- ===== src/Encoder/Length/Forms.antt =====
-- The forms of instructions, which src/x86/Encoder.cpp writes in at most 15 bytes.
use drob.Prelude.{
  ℕ, ◌+◌, ◌%◌, ◌≤◌, ◌≡◌, refl, arith, leb, Bool, true, false, Option, none, some, List, [], ◌∷◌,
  ◌++◌, ◌>>=◌,
}
use drob.Prelude.Returns.{Returns, Returns-none, Returns-some, Returns-if, Returns-bind}
use drob.Registers.{Register}
use drob.Encoder.Operand.{
  EncFlags, StaticMemPtr, direct, sib_ptr, length, le_bytes, bit, prefixes, new_encoding,
  encode_memory, encode_register, Rex, high_bit, rex_required,
}
use drob.Encoder.Numbers.{encode_reg}
use drob.Encoder.Forms.{
  StaticOperand, write_memory, write_register, write_modrm_m_reg, write_modrm_reg_m,
  write_modrm_r_reg, write_modrm_reg_r, write_modrm_m, write_modrm_r, write_modrm_m_imm,
  write_modrm_r_imm, write_reg, write_reg_imm, write_imm, write_moffs,
}
use drob.Encoder.Length.{
  Within, variable_bytes, encode_memory-Same, encode_register-Same, write-Within, length-++,
  length-le_bytes, length-prefixes, bit_le,
}

memory-Within :
    (oc : List ℕ) (reg : ℕ) (rm : StaticMemPtr) (imm n : ℕ) (flags : EncFlags) (addr : ℕ)
    → leb (variable_bytes oc n flags) 7 ≡ true
    → Within 15 (write_memory oc reg rm imm n flags addr)
unfolding write_memory
memory-Within oc reg rm imm n flags addr h =
    let e = new_encoding oc reg imm n flags in
    Returns-bind (encode_memory e rm addr)
      λ x eq. write-Within oc reg imm n flags x ((encode_memory-Same e rm addr).result x eq) h

register-Within :
    (oc : List ℕ) (reg : ℕ) (rm : Register) (imm n : ℕ) (flags : EncFlags)
    → leb (variable_bytes oc n flags) 7 ≡ true
    → Within 15 (write_register oc reg rm imm n flags)
unfolding write_register
register-Within oc reg rm imm n flags h =
    let e = new_encoding oc reg imm n flags in
    Returns-bind (encode_register e rm)
      λ x eq. write-Within oc reg imm n flags x ((encode_register-Same e rm).result x eq) h

pub write_modrm_m_reg-Within :
    (oc : List ℕ) (ops : ℕ → StaticOperand) (flags : EncFlags) (addr : ℕ)
    → leb (variable_bytes oc 0 flags) 7 ≡ true
    → Within 15 (write_modrm_m_reg oc ops flags addr)
unfolding write_modrm_m_reg
write_modrm_m_reg-Within oc ops flags addr h =
    Returns-bind _ λ r _. memory-Within oc r (ops 0).mem 0 0 flags addr h

pub write_modrm_reg_m-Within :
    (oc : List ℕ) (ops : ℕ → StaticOperand) (flags : EncFlags) (addr : ℕ)
    → leb (variable_bytes oc 0 flags) 7 ≡ true
    → Within 15 (write_modrm_reg_m oc ops flags addr)
unfolding write_modrm_reg_m
write_modrm_reg_m-Within oc ops flags addr h =
    Returns-bind _ λ r _. memory-Within oc r (ops 1).mem 0 0 flags addr h

pub write_modrm_r_reg-Within :
    (oc : List ℕ) (ops : ℕ → StaticOperand) (flags : EncFlags)
    → leb (variable_bytes oc 0 flags) 7 ≡ true
    → Within 15 (write_modrm_r_reg oc ops flags)
unfolding write_modrm_r_reg
write_modrm_r_reg-Within oc ops flags h =
    Returns-bind _ λ r _. register-Within oc r (ops 0).reg 0 0 flags h

pub write_modrm_reg_r-Within :
    (oc : List ℕ) (ops : ℕ → StaticOperand) (flags : EncFlags)
    → leb (variable_bytes oc 0 flags) 7 ≡ true
    → Within 15 (write_modrm_reg_r oc ops flags)
unfolding write_modrm_reg_r
write_modrm_reg_r-Within oc ops flags h =
    Returns-bind _ λ r _. register-Within oc r (ops 1).reg 0 0 flags h

pub write_modrm_m-Within :
    (oc oce : ℕ) (ops : ℕ → StaticOperand) (flags : EncFlags) (addr : ℕ)
    → leb (variable_bytes (oc ∷ []) 0 flags) 7 ≡ true
    → Within 15 (write_modrm_m oc oce ops flags addr)
unfolding write_modrm_m
write_modrm_m-Within oc oce ops flags addr h =
    memory-Within (oc ∷ []) oce (ops 0).mem 0 0 flags addr h

pub write_modrm_r-Within :
    (oc oce : ℕ) (ops : ℕ → StaticOperand) (flags : EncFlags)
    → leb (variable_bytes (oc ∷ []) 0 flags) 7 ≡ true
    → Within 15 (write_modrm_r oc oce ops flags)
unfolding write_modrm_r
write_modrm_r-Within oc oce ops flags h = register-Within (oc ∷ []) oce (ops 0).reg 0 0 flags h

pub write_modrm_m_imm-Within :
    (n oc oce : ℕ) (ops : ℕ → StaticOperand) (flags : EncFlags) (addr : ℕ)
    → leb (variable_bytes (oc ∷ []) n flags) 7 ≡ true
    → Within 15 (write_modrm_m_imm n oc oce ops flags addr)
unfolding write_modrm_m_imm
write_modrm_m_imm-Within n oc oce ops flags addr h =
    memory-Within (oc ∷ []) oce (ops 0).mem (ops 1).imm n flags addr h

pub write_modrm_r_imm-Within :
    (n oc oce : ℕ) (ops : ℕ → StaticOperand) (flags : EncFlags)
    → leb (variable_bytes (oc ∷ []) n flags) 7 ≡ true
    → Within 15 (write_modrm_r_imm n oc oce ops flags)
unfolding write_modrm_r_imm
write_modrm_r_imm-Within n oc oce ops flags h =
    register-Within (oc ∷ []) oce (ops 0).reg (ops 1).imm n flags h

-- Prefixes and a byte of opcode.
plain :
    (w b : Bool) (oc n : ℕ) (flags : EncFlags) (rest : List ℕ)
    → length rest ≤ n
    → leb (variable_bytes [] n flags) 11 ≡ true
    → length (
        prefixes flags.flag66 false flags.flag_f2 (record { w = w; r = false; x = false; b = b })
        ++ oc ∷ rest)
      ≤ 15
plain w b oc n flags rest le h =
    let rex : Rex = record { w = w; r = false; x = false; b = b } in
    let pre = prefixes flags.flag66 false flags.flag_f2 rex in
    let total : bit flags.flag66 + bit flags.flag_f2 + n ≤ 11 = ground arith in
    omega (
      arith,
      total,
      le,
      length-++ pre (oc ∷ rest),
      length-prefixes flags.flag66 false flags.flag_f2 rex,
      bit_le (rex_required rex),
    )

pub write_imm-Within :
    (n oc imm : ℕ) (flags : EncFlags)
    → leb (variable_bytes [] n flags) 11 ≡ true
    → Within 15 (write_imm n oc imm flags)
unfolding write_imm
write_imm-Within n oc imm flags h =
    let le : length (le_bytes n imm) ≤ n = omega (arith, length-le_bytes n imm) in
    Returns-some _ (plain flags.rexw false oc n flags (le_bytes n imm) le h)

reg_bytes :
    (w b : Bool) (oc : ℕ) (flags : EncFlags)
    → length (
        prefixes flags.flag66 false flags.flag_f2 (record { w = w; r = false; x = false; b = b })
        ++ oc ∷ [])
      ≤ 4
reg_bytes w b oc flags =
    let rex : Rex = record { w = w; r = false; x = false; b = b } in
    omega (
      arith,
      length-++ (prefixes flags.flag66 false flags.flag_f2 rex) (oc ∷ []),
      length-prefixes flags.flag66 false flags.flag_f2 rex,
      bit_le (rex_required rex),
      bit_le flags.flag66,
      bit_le flags.flag_f2,
    )

short_reg :
    (oc : ℕ) (ops : ℕ → StaticOperand) (flags : EncFlags)
    → Returns (λ bytes. length bytes ≤ 4) (write_reg oc ops flags)
unfolding write_reg
short_reg oc ops flags =
    Returns-bind (encode_reg (ops 0).reg)
      λ r _. Returns-some _ (reg_bytes flags.rexw (high_bit r) (oc + r % 8) flags)

pub write_reg-Within :
    (oc : ℕ) (ops : ℕ → StaticOperand) (flags : EncFlags) → Within 15 (write_reg oc ops flags)
write_reg-Within oc ops flags = record {
  result = λ bytes eq. omega (arith, (short_reg oc ops flags).result bytes eq);
}

pub write_reg_imm-Within :
    (n oc : ℕ) (ops : ℕ → StaticOperand) (flags : EncFlags)
    → leb n 11 ≡ true
    → Within 15 (write_reg_imm n oc ops flags)
unfolding write_reg_imm
write_reg_imm-Within n oc ops flags h = Returns-bind (write_reg oc ops flags) λ bytes eq.
    let short = (short_reg oc ops flags).result bytes eq in
    let le : n ≤ 11 = ground arith in
    let all : length (bytes ++ le_bytes n (ops 1).imm) ≤ 15 =
      omega (
        arith,
        short,
        le,
        length-++ bytes (le_bytes n (ops 1).imm),
        length-le_bytes n (ops 1).imm,
      ) in
    Returns-some _ all

pub write_moffs-Within : (oc : ℕ) (m : StaticMemPtr) → Within 15 (write_moffs oc m)
unfolding write_moffs
write_moffs-Within oc (direct val) =
    let all : length (0x48 ∷ oc ∷ le_bytes 8 val) ≤ 15 = omega (arith, length-le_bytes 8 val) in
    Returns-some _ all
write_moffs-Within oc (sib_ptr base index scale disp) = Returns-none

pub ruleset forms = (
  Returns-none, Returns-if, write_modrm_m_reg-Within, write_modrm_reg_m-Within,
  write_modrm_r_reg-Within, write_modrm_reg_r-Within, write_modrm_m-Within, write_modrm_r-Within,
  write_modrm_m_imm-Within, write_modrm_r_imm-Within, write_imm-Within, write_reg-Within,
  write_reg_imm-Within, write_moffs-Within, refl,
)
