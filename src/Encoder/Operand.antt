-- ===== src/Encoder/Operand.antt =====
-- The part of an x86 instruction that names its operands: `REX`, `SIB`, `ModRM`, `Disp` and
-- `ModRMEncoding` of src/x86/Encoder.cpp, and the memory operands of src/OpcodeInfo.hpp. Numbers of a
-- fixed width, signed ones too, are bit patterns. A buffer is the list of the bytes written.
use drob.Prelude.{
  ℕ, zero, suc, ◌+◌, ◌-◌, ◌*◌, ◌/◌, ◌%◌, ◌^◌, ◌==◌, if◌then◌else◌, ltb, leb, Bool, true, false, not,
  ◌||◌, Option, none, some, ◌>>=◌, ◌>>◌, drob_assert, List, [], ◌∷◌, ◌++◌,
}
use drob.Value.{u64}
use drob.Registers.{Register, no_register, ebp, rbp, r13, esp, rsp}
use drob.Encoder.Numbers.{encode_reg, encode_addr_reg}

abbrev pub u32 : ℕ
u32 = 2 ^ 32

-- `is_simm8`, `is_rel8`, `is_rel32` and the like: a 64-bit pattern that is the sign extension of its
-- lowest 8 or 32 bits.
abbrev pub fits8 : ℕ → Bool
fits8 v = ltb v (2 ^ 7) || leb (2 ^ 64 - 2 ^ 7) v

abbrev pub fits32 : ℕ → Bool
fits32 v = ltb v (2 ^ 31) || leb (2 ^ 64 - 2 ^ 31) v

-- `(int8_t)v == v` for an `int32_t`.
abbrev pub disp_fits8 : ℕ → Bool
disp_fits8 v = ltb v (2 ^ 7) || leb (2 ^ 32 - 2 ^ 7) v

-- `StaticMemPtr`: an address, or base, index, scale and displacement.
pub data StaticMemPtr : Type 0 where
  direct : ℕ → StaticMemPtr
  sib_ptr : Register → Register → ℕ → ℕ → StaticMemPtr

-- `REX`
pub record Rex : Type 0 where
  pub w : Bool
  pub r : Bool
  pub x : Bool
  pub b : Bool

-- `ModRM`
pub record ModRm : Type 0 where
  pub rm : ℕ
  pub reg : ℕ
  pub mode : ℕ

-- `SIB`
pub record Sib : Type 0 where
  pub required : Bool
  pub base : ℕ
  pub index : ℕ
  pub scale : ℕ

-- `Disp`; `disp8` is the lowest byte of `disp32`.
pub record Disp : Type 0 where
  pub required : Bool
  pub is_disp32 : Bool
  pub disp32 : ℕ

-- `ModRMEncoding`
pub record ModRmEncoding : Type 0 where
  pub oc : List ℕ
  pub imm : ℕ
  pub imm_len : ℕ
  pub is32bit : Bool
  pub p66 : Bool
  pub pf2 : Bool
  pub rex : Rex
  pub modrm : ModRm
  pub sib : Sib
  pub disp : Disp

-- `EncFlags`: `ENC_FLAG_REXW`, `ENC_FLAG_66`, `ENC_FLAG_F2`.
pub record EncFlags : Type 0 where
  pub rexw : Bool
  pub flag66 : Bool
  pub flag_f2 : Bool

abbrev pub bit : Bool → ℕ
bit true = 1
bit false = 0

abbrev pub rex_val : Rex → ℕ
rex_val rex = 64 + 8 * bit rex.w + 4 * bit rex.r + 2 * bit rex.x + bit rex.b

-- `REX::isRequired`
abbrev pub rex_required : Rex → Bool
rex_required rex = rex.w || rex.r || rex.x || rex.b

abbrev pub modrm_val : ModRm → ℕ
modrm_val m = 64 * m.mode + 8 * m.reg + m.rm

abbrev pub sib_val : Sib → ℕ
sib_val s = 64 * s.scale + 8 * s.index + s.base

-- `!!(r & 0x08)`
abbrev pub high_bit : ℕ → Bool
high_bit r = r / 8 % 2 == 1

-- The `n` lowest bytes of a number, as a store writes them.
unfoldable pub le_bytes : ℕ → ℕ → List ℕ
le_bytes zero v = []
le_bytes (suc n) v = v % 256 ∷ le_bytes n (v / 256)

abbrev pub byte_if : Bool → ℕ → List ℕ
byte_if true v = v ∷ []
byte_if false v = []

-- The bytes in front of the opcode.
abbrev pub prefixes : Bool → Bool → Bool → Rex → List ℕ
prefixes p66 is32bit pf2 rex =
    byte_if p66 0x66
    ++ (byte_if is32bit 0x67 ++ (byte_if pf2 0xf2 ++ byte_if (rex_required rex) (rex_val rex)))

abbrev pub disp_bytes : Disp → List ℕ
disp_bytes d =
    if d.required then (if d.is_disp32 then le_bytes 4 d.disp32 else le_bytes 1 d.disp32) else []

-- The bytes for the operands.
abbrev pub operand_bytes : ModRmEncoding → List ℕ
operand_bytes e = modrm_val e.modrm ∷ (byte_if e.sib.required (sib_val e.sib) ++ disp_bytes e.disp)

-- `write`: immediates of 0, 1, 2 and 4 bytes only.
unfoldable pub write : ModRmEncoding → Option (List ℕ)
unfolding le_bytes
write e = do
  drob_assert ((e.imm_len == 0) || (e.imm_len == 1) || (e.imm_len == 2) || (e.imm_len == 4))
  some (
      prefixes e.p66 e.is32bit e.pf2 e.rex
      ++ (e.oc ++ (operand_bytes e ++ le_bytes e.imm_len e.imm)))

-- What a constructor sets before it looks at the rm operand; `reg` is a register or an extension of
-- the opcode.
unfoldable pub new_encoding : List ℕ → ℕ → ℕ → ℕ → EncFlags → ModRmEncoding
new_encoding oc reg imm imm_len flags = record {
  oc = oc;
  imm = imm;
  imm_len = imm_len;
  is32bit = false;
  p66 = flags.flag66;
  pf2 = flags.flag_f2;
  rex = record { w = flags.rexw; r = high_bit reg; x = false; b = false };
  modrm = record { rm = 0; reg = reg % 8; mode = 0 };
  sib = record { required = false; base = 0; index = 0; scale = 0 };
  disp = record { required = false; is_disp32 = false; disp32 = 0 };
}

-- An rm operand that is a register.
unfoldable pub encode_register : ModRmEncoding → Register → Option ModRmEncoding
encode_register e rm = do
  b ← encode_reg rm
  some (record e {
    rex = record e.rex { b = high_bit b };
    modrm = record e.modrm { rm = b % 8; mode = 3 };
  })

abbrev pub length {ℓ} : {A : Type ℓ} → List A → ℕ
length [] = 0
length (x ∷ xs) = suc (length xs)

abbrev pub same_bool : Bool → Bool → Bool
same_bool true b = b
same_bool false b = not b

-- The length that `encodeMemoryDirect` computes.
abbrev pub direct_ilen : ModRmEncoding → ℕ
direct_ilen e =
    length e.oc + 5 + e.imm_len + bit e.p66 + bit e.is32bit + bit e.pf2 + bit (rex_required e.rex)

-- `encodeMemoryDirect`: an address that cannot be reached is only logged, and the operand is left
-- as it is.
unfoldable pub encode_memory_direct : ModRmEncoding → ℕ → ℕ → Option ModRmEncoding
encode_memory_direct e val addr =
    if fits32 val
    then some (record e {
      modrm = record e.modrm { mode = 0; rm = 4 };
      sib = record e.sib { required = true; base = 5; index = 4 };
      disp = record { required = true; is_disp32 = true; disp32 = val % u32 };
    })
    else (let rel = (val + 2 * u64 - (addr + direct_ilen e)) % u64 in
        do
          drob_assert (not e.sib.required)
          if fits32 rel
              then some (record e {
                modrm = record e.modrm { mode = 0; rm = 5 };
                disp = record { required = true; is_disp32 = true; disp32 = rel % u32 };
              })
              else some e)

-- The first `switch` of `encodeMemoryIndirect`: whether a displacement is required, and whether the
-- address has 32 bits. The stack pointer is refused.
unfoldable pub base_case : Register → Option (Bool × Bool)
base_case ebp = some (true, true)
base_case rbp = some (true, false)
base_case r13 = some (true, false)
base_case esp = none
base_case rsp = none
base_case _ = some (false, false)

-- The second `switch`.
unfoldable pub encode_scale : ℕ → Option ℕ
encode_scale scale =
    if (scale == 0) || (scale == 1)
    then some 0
    else if scale == 2
    then some 1
    else if scale == 4
    then some 2
    else if scale == 8
    then some 3
    else none

-- "Try to compress the displacement."
abbrev pub compress : Bool → ℕ → Disp
compress required val =
    if not (val == 0)
    then (if disp_fits8 val
        then record { required = true; is_disp32 = false; disp32 = val % 256 }
        else record { required = true; is_disp32 = true; disp32 = val })
    else record { required = required; is_disp32 = false; disp32 = 0 }

abbrev pub mode_of : Disp → ℕ
mode_of d = if d.required then (if d.is_disp32 then 2 else 1) else 0

-- No index register.
unfoldable pub indirect_base : ModRmEncoding → Register → Bool → Bool → ℕ → Option ModRmEncoding
indirect_base e base required is32bit disp =
    let d = compress required disp in
    do
      r ← encode_addr_reg base
      some (record e {
        is32bit = is32bit || r.1;
        disp = d;
        modrm = record e.modrm { mode = mode_of d; rm = r.0 % 8 };
        rex = record e.rex { b = high_bit r.0 };
      })

-- No base register.
unfoldable pub indirect_index : ModRmEncoding → Register → Bool → ℕ → ℕ → Option ModRmEncoding
indirect_index e index is32bit scale disp = do
  r ← encode_addr_reg index
  some (record e {
    is32bit = is32bit || r.1;
    modrm = record e.modrm { mode = 0; rm = 4 };
    sib = record { required = true; base = 5; index = r.0 % 8; scale = scale };
    disp = record { required = true; is_disp32 = true; disp32 = disp };
    rex = record e.rex { x = high_bit r.0 };
  })

-- Base and index, which must have the same width.
unfoldable pub indirect_both :
    ModRmEncoding → Register → Register → Bool → Bool → ℕ → ℕ → Option ModRmEncoding
indirect_both e base index required is32bit scale disp =
    let d = compress required disp in
    do
      b ← encode_addr_reg base
      i ← encode_addr_reg index
      drob_assert (same_bool (is32bit || b.1) i.1)
      some (record e {
        is32bit = is32bit || b.1;
        disp = d;
        modrm = record e.modrm { mode = mode_of d; rm = 4 };
        sib = record { required = true; base = b.0 % 8; index = i.0 % 8; scale = scale };
        rex = record e.rex { b = high_bit b.0; x = high_bit i.0 };
      })

abbrev pub is_none : Register → Bool
is_none no_register = true
is_none _ = false

-- `encodeMemoryIndirect`; the displacement is an `int32_t`.
unfoldable pub encode_memory_indirect :
    ModRmEncoding → Register → Register → ℕ → ℕ → Option ModRmEncoding
unfolding base_case encode_scale indirect_base indirect_index indirect_both
encode_memory_indirect e base index scale disp = do
  c ← base_case base
  s ← encode_scale scale
  drob_assert (not (is_none base) || not (is_none index))
  if is_none index
      then indirect_base (record e { sib = record e.sib { scale = s } }) base c.0 c.1 disp
      else if is_none base
      then indirect_index e index c.1 s disp
      else indirect_both e base index c.0 c.1 s disp

-- A memory operand as rm.
unfoldable pub encode_memory : ModRmEncoding → StaticMemPtr → ℕ → Option ModRmEncoding
unfolding encode_memory_direct encode_memory_indirect
encode_memory e (direct val) addr = encode_memory_direct e val addr
encode_memory e (sib_ptr base index scale disp) addr =
    encode_memory_indirect e base index scale disp
