-- ===== src/Encoder/Length.antt =====
-- How many bytes the encoder of src/x86/Encoder.cpp writes for an instruction.
pub mod Forms
pub mod Instructions
use drob.Prelude.{
  ℕ, zero, suc, ◌+◌, ◌-◌, ◌*◌, ◌/◌, ◌%◌, ◌==◌, leb, ◌≤◌, ◌≡◌, refl, arith, ap, sym, ◌∙◌,
  if◌then◌else◌, Bool, true, false, not, ◌&&◌, ◌||◌, Option, none, some, ◌>>=◌, ◌>>◌, drob_assert,
  List, [], ◌∷◌, ◌++◌, inl, inr, Bool-cases,
}
use drob.Prelude.Returns.{Returns, Returns-none, Returns-some, Returns-if, Returns-bind}
use drob.Encoder.Operand.{
  length, le_bytes, byte_if, bit, prefixes, Rex, rex_required, Disp, disp_bytes, operand_bytes,
  write, ModRmEncoding, base_case, encode_scale, indirect_base, indirect_index, indirect_both,
  encode_memory_indirect, encode_memory_direct, encode_memory, direct, sib_ptr, StaticMemPtr,
  encode_register, new_encoding, EncFlags, fits32, fits8, direct_ilen, is_none, u32, sib_val,
}
use drob.Registers.{Register}

-- What a call that does not throw writes has at most `n` bytes.
abbrev pub Within : ℕ → Option (List ℕ) → Type 0
Within n = Returns (λ bytes. length bytes ≤ n)

pub length-++ {ℓ} : {A : Type ℓ} (xs ys : List A) → length (xs ++ ys) ≡ length xs + length ys
length-++ [] ys = omega arith
length-++ (x ∷ xs) ys = omega (arith, length-++ xs ys)

pub length-le_bytes : (n v : ℕ) → length (le_bytes n v) ≡ n
unfolding le_bytes
length-le_bytes zero v = refl
length-le_bytes (suc n) v = ap suc (length-le_bytes n (v / 256))

length-byte_if : (b : Bool) (v : ℕ) → length (byte_if b v) ≡ bit b
length-byte_if true v = refl
length-byte_if false v = refl

pub length-prefixes :
    (p66 is32bit pf2 : Bool) (rex : Rex)
    → length (prefixes p66 is32bit pf2 rex)
      ≡ bit p66 + (bit is32bit + (bit pf2 + bit (rex_required rex)))
length-prefixes p66 is32bit pf2 rex = simp (length-++, length-byte_if)

bit_le : (b : Bool) → bit b ≤ 1
bit_le true = omega arith
bit_le false = omega arith

length-disp_bytes : (d : Disp) → length (disp_bytes d) ≤ 4
unfolding le_bytes
length-disp_bytes d = ground arith

length-operand_bytes : (e : ModRmEncoding) → length (operand_bytes e) ≤ 6
length-operand_bytes e = omega (
  arith,
  length-++ (byte_if e.sib.required (sib_val e.sib)) (disp_bytes e.disp),
  length-byte_if e.sib.required (sib_val e.sib),
  bit_le e.sib.required,
  length-disp_bytes e.disp,
)

-- The fields that decide how much `write` writes, and that the operands do not change.
pub Same : ModRmEncoding → ModRmEncoding → Type 0
Same e x = (x.oc ≡ e.oc) × (x.imm_len ≡ e.imm_len) × (x.p66 ≡ e.p66) × (x.pf2 ≡ e.pf2)

ruleset returns = (Returns-none, Returns-some, Returns-if, Returns-bind, refl)

encode_memory_indirect-Same :
    (e : ModRmEncoding) (base index : Register) (scale disp : ℕ)
    → Returns (Same e) (encode_memory_indirect e base index scale disp)
unfolding encode_memory_indirect indirect_base indirect_index indirect_both Same
encode_memory_indirect-Same e base index scale disp = search returns depth 20

pub encode_memory-Same :
    (e : ModRmEncoding) (rm : StaticMemPtr) (addr : ℕ) → Returns (Same e) (encode_memory e rm addr)
unfolding encode_memory encode_memory_direct Same
encode_memory-Same e (direct val) addr = search returns depth 20
encode_memory-Same e (sib_ptr base index scale disp) addr =
    encode_memory_indirect-Same e base index scale disp

pub encode_register-Same :
    (e : ModRmEncoding) (rm : Register) → Returns (Same e) (encode_register e rm)
unfolding encode_register Same
encode_register-Same e rm = search returns depth 20

-- The bytes that differ between instructions: a prefix each for two flags, the opcode, and the
-- immediate.
abbrev pub variable_bytes : List ℕ → ℕ → EncFlags → ℕ
variable_bytes oc n flags = bit flags.flag66 + bit flags.flag_f2 + length oc + n

-- Four prefixes, the opcode, six bytes for the operands, and the immediate.
length-written :
    (p66 is32bit pf2 : Bool) (rex : Rex) (oc rm : List ℕ) (n imm : ℕ)
    → length rm ≤ 6
    → length (prefixes p66 is32bit pf2 rex ++ (oc ++ (rm ++ le_bytes n imm)))
      ≤ bit p66 + bit pf2 + length oc + n + 8
length-written p66 is32bit pf2 rex oc rm n imm h =
    let pre = prefixes p66 is32bit pf2 rex in
    omega (
      arith,
      h,
      length-++ pre (oc ++ (rm ++ le_bytes n imm)),
      length-++ oc (rm ++ le_bytes n imm),
      length-++ rm (le_bytes n imm),
      length-le_bytes n imm,
      length-prefixes p66 is32bit pf2 rex,
      bit_le is32bit,
      bit_le (rex_required rex),
    )

-- What `write` makes of operands that were encoded.
pub write-Within :
    (oc : List ℕ) (reg imm n : ℕ) (flags : EncFlags) (x : ModRmEncoding)
    → Same (new_encoding oc reg imm n flags) x
    → leb (variable_bytes oc n flags) 7 ≡ true
    → Within 15 (write x)
unfolding write Same new_encoding
write-Within oc reg imm n flags x (e0, e1, e2, e3) h =
    let total : bit x.p66 + bit x.pf2 + length x.oc + x.imm_len ≤ 7 =
      rw (e0, e1, e2, e3) (ground arith) in
    let bound =
      length-written x.p66 x.is32bit x.pf2 x.rex x.oc (operand_bytes x) x.imm_len x.imm
        (length-operand_bytes x) in
    let short : length (
          prefixes x.p66 x.is32bit x.pf2 x.rex
          ++ (x.oc ++ (operand_bytes x ++ le_bytes x.imm_len x.imm)))
        ≤ 15 =
      omega (arith, bound, total) in
    Returns-bind _ λ _ _. Returns-some _ short
