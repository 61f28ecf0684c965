-- ===== src/Encoder/Branch/Processor.antt =====
-- An independent description of the relative branches, calls and NOPs of x86, from the processor's
-- manual. It models no code.
use drob.Prelude.{
  ℕ, ◌+◌, ◌-◌, ◌/◌, ◌%◌, ◌^◌, ◌==◌, if◌then◌else◌, ltb, false, ◌||◌, ◌≡◌, Option, none, some, ◌>>=◌,
  List, [], ◌∷◌,
}
use drob.Value.{u64}
use drob.Encoder.Decoder.{read8, read32, decode_operand}

-- A 32-bit displacement, sign extended and added to an address.
abbrev pub jump : ℕ → ℕ → ℕ
jump from disp = (from + disp + (if ltb disp (2 ^ 31) then 0 else u64 - 2 ^ 32)) % u64

-- Where a short and a near branch whose opcode has `n` bytes goes, when it is taken.
unfoldable pub short_target : ℕ → ℕ → List ℕ → Option ℕ
unfolding read8
short_target address n bytes = do d ← read8 bytes; some (jump (address + n + 1) d.0)

unfoldable pub near_target : ℕ → ℕ → List ℕ → Option ℕ
unfolding read32
near_target address n bytes = do d ← read32 bytes; some (jump (address + n + 4) d.0)

-- JMP rel8, JMP rel32, CALL rel32 and JCXZ rel8.
unfoldable pub one_byte : ℕ → ℕ → List ℕ → Option ℕ
unfolding short_target near_target
one_byte address opcode bytes =
    if (opcode == 0xeb) || (opcode == 0xe3)
    then short_target address 1 bytes
    else if (opcode == 0xe9) || (opcode == 0xe8)
    then near_target address 1 bytes
    else if opcode / 16 == 7
    then short_target address 1 bytes
    else none

-- Jcc rel32 has two bytes of opcode, and Jcc rel8 one.
unfoldable pub two_bytes : ℕ → List ℕ → Option ℕ
unfolding near_target
two_bytes address (b ∷ bytes) = if b / 16 == 8 then near_target address 2 bytes else none
two_bytes address [] = none

unfoldable pub branch_target : ℕ → List ℕ → Option ℕ
unfolding one_byte two_bytes
branch_target address (a ∷ bytes) =
    if a == 0x0f then two_bytes address bytes else one_byte address a bytes
branch_target address [] = none

-- A multi-byte NOP behind its bytes of opcode.
unfoldable pub decode_nop_operand : List ℕ → Option (List ℕ)
unfolding decode_operand
decode_nop_operand bytes = do
  o ← decode_operand (record { w = false; r = false; x = false; b = false }) bytes
  some o.2

abbrev after_0f : List ℕ → Option (List ℕ)
after_0f (b ∷ rest) = if b == 0x1f then decode_nop_operand rest else none
after_0f [] = none

abbrev after_prefix : List ℕ → Option (List ℕ)
after_prefix (a ∷ rest) = if a == 0x90 then some rest else if a == 0x0f then after_0f rest else none
after_prefix [] = none

unfoldable pub decode_nop : List ℕ → Option (List ℕ)
unfolding decode_nop_operand
decode_nop (a ∷ rest) = if a == 0x66 then after_prefix rest else after_prefix (a ∷ rest)
decode_nop [] = none

-- Bytes that a processor runs through without effect.
pub data Nops : List ℕ → Type 0 where
  done : Nops []
  next : {bytes rest : List ℕ} → decode_nop bytes ≡ some rest → Nops rest → Nops bytes
