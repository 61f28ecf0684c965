-- ===== src/Encoder/Decoder.antt =====
-- An independent description of x86 operands, from the tables of the processor's manual: how the
-- bytes behind an opcode name a register or an address. It models no code.
use drob.Prelude.{
  ℕ, ◌+◌, ◌-◌, ◌*◌, ◌/◌, ◌%◌, ◌^◌, ◌==◌, if◌then◌else◌, ltb, ◌&&◌, Option, none, some, ◌>>=◌, List,
  [], ◌∷◌,
}
use drob.Encoder.Operand.{Rex, bit}

-- A register by its number; base, index, exponent of the scale and 32-bit displacement; or an offset
-- from the next instruction.
pub data Operand : Type 0 where
  reg_operand : ℕ → Operand
  mem_operand : Option ℕ → Option ℕ → ℕ → ℕ → Operand
  rip_operand : ℕ → Operand

abbrev pub sign8 : ℕ → ℕ
sign8 v = if ltb v 128 then v else v + (2 ^ 32 - 256)

unfoldable pub read8 : List ℕ → Option (ℕ × List ℕ)
read8 (a ∷ rest) = some (sign8 a, rest)
read8 [] = none

unfoldable pub read32 : List ℕ → Option (ℕ × List ℕ)
read32 (a ∷ b ∷ c ∷ d ∷ rest) = some (a + 256 * b + 65536 * c + 16777216 * d, rest)
read32 _ = none

unfoldable pub read_disp : ℕ → List ℕ → Option (ℕ × List ℕ)
unfolding read8 read32
read_disp mode bytes =
    if mode == 0 then some (0, bytes) else if mode == 1 then read8 bytes else read32 bytes

abbrev pub index_of : ℕ → Option ℕ
index_of i = if i == 4 then none else some i

-- The byte behind ModRM that names base and index.
unfoldable pub decode_sib : Rex → ℕ → List ℕ → Option (Operand × List ℕ)
unfolding read32 read_disp
decode_sib rex mode [] = none
decode_sib rex mode (s ∷ rest) =
    let index = index_of (s / 8 % 8 + 8 * bit rex.x) in
    if (s % 8 == 5) && (mode == 0)
    then (do d ← read32 rest; some (mem_operand none index (s / 64) d.0, d.1))
    else (do
      d ← read_disp mode rest
      some (mem_operand (some (s % 8 + 8 * bit rex.b)) index (s / 64) d.0, d.1))

-- The operand behind ModRM.
unfoldable pub decode_rm : Rex → ℕ → ℕ → List ℕ → Option (Operand × List ℕ)
unfolding decode_sib read32 read_disp
decode_rm rex mode rm bytes =
    if mode == 3
    then some (reg_operand (rm + 8 * bit rex.b), bytes)
    else if rm == 4
    then decode_sib rex mode bytes
    else if (rm == 5) && (mode == 0)
    then (do d ← read32 bytes; some (rip_operand d.0, d.1))
    else (do
      d ← read_disp mode bytes
      some (mem_operand (some (rm + 8 * bit rex.b)) none 0 d.0, d.1))

-- The number in the field `reg`, the operand, and the bytes behind.
unfoldable pub decode_operand : Rex → List ℕ → Option (ℕ × Operand × List ℕ)
unfolding decode_rm
decode_operand rex [] = none
decode_operand rex (m ∷ bytes) = do
  o ← decode_rm rex (m / 64) (m % 8) bytes
  some (m / 8 % 8 + 8 * bit rex.r, o.0, o.1)
