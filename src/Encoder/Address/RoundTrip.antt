-- ===== src/Encoder/Address/RoundTrip.antt =====
-- `encodeMemoryIndirect` of src/x86/Encoder.cpp and its reading by the processor.
use drob.Prelude.{
  ℕ, ◌%◌, ◌==◌, ◌≡◌, refl, arith, if◌then◌else◌, ltb, Bool, true, false, not, ◌&&◌, ◌||◌, Option,
  none, some,
}
use drob.Registers.{Register, no_register, r12}
use drob.Encoder.Operand.{same_bool, base_case, is_none}
use drob.Encoder.Decoder.{Operand, mem_operand}
use drob.Encoder.Address.Register.{address_register, is_sp}

abbrev is_r12 : Register → Bool
is_r12 r12 = true
is_r12 _ = false

-- What the two tables have to do with one another.
abbrev fits_base : Option (Bool × Bool) → Register → ℕ → Bool → Bool
fits_base none reg n wide = n == 4
fits_base (some (q, g)) reg n wide =
    not (n == 4) && (not (n % 8 == 5) || q) && (not g || wide) && same_bool (n == 12) (is_r12 reg)

abbrev fits_number : Option (ℕ × Bool) → Register → Bool
fits_number none reg = true
fits_number (some (n, wide)) reg =
    ltb n 16 && fits_base (base_case reg) reg n wide && same_bool (n == 4) (is_sp reg)

-- The number of a register of an address, if there is one.
pub reg_number : Register → Option ℕ
unfolding address_register
reg_number reg = elim (address_register reg) [ none ↦ none | some (n, _) ↦ some n ]

-- The exponent of a scale.
pub exponent : ℕ → ℕ
exponent scale = if scale == 2 then 1 else if scale == 4 then 2 else if scale == 8 then 3 else 0

-- The operand that is meant: without an index there is no scale.
abbrev pub meant : Register → Register → ℕ → ℕ → Operand
meant base index scale disp =
    mem_operand (reg_number base) (reg_number index) (if is_none index then 0 else exponent scale)
      disp

is_none-eq : (reg : Register) → is_none reg ≡ true → reg ≡ no_register
is_none-eq no_register h = refl
is_none-eq _ h = ground arith
