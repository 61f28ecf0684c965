-- ===== src/Emulator/Sound.antt =====
-- What the emulation of arithmetic says of a run: if the inputs allow the numbers that the instruction
-- reads, the outputs allow the result and the flags that the processor computes.
use drob.Prelude.{
  ℕ, ◌+◌, ◌-◌, ◌%◌, ◌^◌, ◌<◌, ◌≡◌, refl, arith, Bool, true, false, ◌⊎◌, ◌||◌, ◌&&◌, not, Option,
  some, List, ◌∷◌, [], if◌then◌else◌, if_cases,
}
pub mod Flags
pub mod Compare
use native.Mathlib.Nat.{add_comm}
use drob.Value.{
  DynamicValue, imm64, imm128, ptr_value, unknown_value, tainted_value, dead_value, u64, get_type,
  is_imm, is_ptr, is_stack_ptr, get_imm64,
}
use drob.Value.Laws.{Bases, Allows, may_be_stack}
use drob.Emulator.{
  DynamicOperandInfo, Eflags, Processor, EmuRet, ok, Emulation, operand, set_output, set_eflags,
  imm64_of,
}
use drob.Emulator.Arith.{
  emulate_add, emulate_sub, emulate_add64, emulate_sub64, emulate_xor64, emulate_imm,
  emulate_imm_ptr, write_result, write_output, with_offset, ptr_offset, untracked,
}
use drob.Emulator.Shape.{
  FlagOperands, flag_list, AreFlags, AreUnknown, FlagsAllow, with_output, flags_set, set_eflags-eq,
  flags_set-FlagsAllow, unknown-FlagsAllow, imm64_of-Allows,
}

-- The emulation changes the output of the first operand, to one that allows a number, and those of the
-- flags, to some that allow the flags.
pub record Computes (base : Bases) (y : DynamicOperandInfo) (r : ℕ × Eflags) (m : Emulation)
    : Type 0 where
  pub out : DynamicOperandInfo
  pub flags : FlagOperands
  pub returns : m ≡ some (out ∷ y ∷ flag_list flags, ok)
  pub value : Allows base out.output r.0
  pub flags_allow : FlagsAllow base flags r.1

module _ (base : Bases) (x y : DynamicOperandInfo) (fl : FlagOperands) (h : AreFlags fl) where
  pub write_result-Computes :
      (r : ℕ × Eflags) → Computes base y r (write_result (x ∷ y ∷ flag_list fl) r)
  unfolding write_result set_output
  write_result-Computes r = record {
    out = with_output x (imm64 r.0);
    flags = flags_set fl r.1;
    returns = rw (set_eflags-eq (with_output x (imm64 r.0)) y fl h r.1) refl;
    value = refl;
    flags_allow = flags_set-FlagsAllow base fl r.1;
  }

  pub write_output-Computes :
      (r : ℕ × Eflags) (v : DynamicValue)
      → AreUnknown fl
      → Allows base v r.0
      → Computes base y r (write_output (x ∷ y ∷ flag_list fl) v)
  unfolding write_output set_output
  write_output-Computes r v u p = record {
    out = with_output x v;
    flags = fl;
    returns = refl;
    value = p;
    flags_allow = unknown-FlagsAllow base fl r.1 u;
  }

  pub emulate_imm-Computes :
      (run : ℕ → ℕ → ℕ → ℕ × Eflags) (bits a b : ℕ)
      → is_imm (get_type x.input) ≡ true
      → is_imm (get_type y.input) ≡ true
      → Allows base x.input a
      → Allows base y.input b
      → a < u64
      → b < u64
      → Computes base y
          (run bits (a % 2 ^ bits) (b % 2 ^ bits))
          (emulate_imm run bits (x ∷ y ∷ flag_list fl))
  unfolding emulate_imm operand
  emulate_imm-Computes run bits a b i j p q ha hb =
      rw ((imm64_of-Allows base x.input a i p ha).0, (imm64_of-Allows base y.input b j q hb).0)
        (write_result-Computes (run bits (a % 2 ^ bits) (b % 2 ^ bits)))

-- The two halves of a conjunction.
and_split : (b c : Bool) → (b && c) ≡ true → (b ≡ true) × (c ≡ true)
and_split true c e = (refl, e)
and_split false c e = cc

untracked-Allows : (base : Bases) (v w : DynamicValue) (n : ℕ) → Allows base (untracked v w) n
untracked-Allows base v w n =
    if_cases (λ r. Allows base r n) (is_stack_ptr (get_type v) || is_stack_ptr (get_type w))
      (λ _. tt) (λ _. tt)

-- A pointer plus a number, and less a number.
ptr_plus-Allows :
    (base : Bases) (v : DynamicValue) (a b : ℕ)
    → is_ptr (get_type v) ≡ true
    → Allows base v a
    → Allows base (with_offset v ((ptr_offset v + b) % u64)) ((a + b) % u64)
ptr_plus-Allows base (ptr_value t nr k) a b i p = ground arith
ptr_plus-Allows base v a b i p = cc

ptr_minus-Allows :
    (base : Bases) (v : DynamicValue) (a b : ℕ)
    → b < u64
    → is_ptr (get_type v) ≡ true
    → Allows base v a
    → Allows base (with_offset v ((ptr_offset v + (u64 - b)) % u64)) ((a + (u64 - b)) % u64)
ptr_minus-Allows base (ptr_value t nr k) a b h i p = ground arith
ptr_minus-Allows base v a b h i p = cc

module _ (base : Bases) (x y : DynamicOperandInfo) (fl : FlagOperands) (h : AreFlags fl)
    (run : ℕ → ℕ → ℕ → ℕ × Eflags) (a b : ℕ) (p : Allows base x.input a) (q : Allows base y.input b)
    (ha : a < u64) (hb : b < u64) (u : AreUnknown fl)
    (left : (is_ptr (get_type x.input) && is_imm (get_type y.input)) ≡ true
      → Allows base (with_offset x.input (run 64 (ptr_offset x.input) b).0) (run 64 a b).0)
    (right : (is_ptr (get_type y.input) && is_imm (get_type x.input)) ≡ true
      → Allows base (with_offset y.input (run 64 (ptr_offset y.input) a).0) (run 64 a b).0) where
  imm_left : is_imm (get_type x.input) ≡ true → get_imm64 x.input ≡ a
  imm_left i = (imm64_of-Allows base x.input a i p ha).1

  imm_right : is_imm (get_type y.input) ≡ true → get_imm64 y.input ≡ b
  imm_right i = (imm64_of-Allows base y.input b i q hb).1

  emulate_imm_ptr-Computes :
      Computes base y (run 64 a b) (emulate_imm_ptr run (x ∷ y ∷ flag_list fl))
  unfolding emulate_imm_ptr operand
  emulate_imm_ptr-Computes =
      let C : Emulation → Type 0 = λ m. Computes base y (run 64 a b) m in
      if_cases C (is_imm (get_type x.input) && is_imm (get_type y.input))
        (λ e.
          let s = and_split (is_imm (get_type x.input)) (is_imm (get_type y.input)) e in
          rw (imm_left s.0, imm_right s.1) (write_result-Computes base x y fl h (run 64 a b)))
        (λ _.
          if_cases C (is_ptr (get_type x.input) && is_imm (get_type y.input))
            (λ e.
              rw (imm_right (and_split (is_ptr (get_type x.input)) (is_imm (get_type y.input)) e).1)
                (write_output-Computes base x y fl h (run 64 a b) _ u (left e)))
            (λ _.
              if_cases C (is_ptr (get_type y.input) && is_imm (get_type x.input))
                (λ e.
                  rw
                    (imm_left
                      (and_split (is_ptr (get_type y.input)) (is_imm (get_type x.input)) e).1)
                    (write_output-Computes base x y fl h (run 64 a b) _ u (right e)))
                (λ _.
                  write_output-Computes base x y fl h (run 64 a b) _ u
                    (untracked-Allows base x.input y.input (run 64 a b).0))))

-- `x - y` for two numbers of 64 bits.
abbrev pub minus : ℕ → ℕ → ℕ
minus a b = (a + (u64 - b)) % u64

module _ (base : Bases) (cpu : Processor) (x y : DynamicOperandInfo) (fl : FlagOperands)
    (h : AreFlags fl) (u : AreUnknown fl) (a b : ℕ) (p : Allows base x.input a)
    (q : Allows base y.input b) (ha : a < u64) (hb : b < u64) where
  -- If the processor adds modulo 2 ^ 64, and the two inputs of a 64-bit addition allow two numbers below
  -- 2 ^ 64, whatever kind of value they are, then the emulation returns, its output allows the sum of the
  -- numbers, and its flags allow those of the addition.
  pub emulate_add64-Computes :
      ((m n : ℕ) → (cpu.run_add 64 m n).0 ≡ (m + n) % u64)
      → Computes base y (cpu.run_add 64 a b) (emulate_add64 cpu (x ∷ y ∷ flag_list fl))
  unfolding emulate_add64
  emulate_add64-Computes adds =
      emulate_imm_ptr-Computes base x y fl h cpu.run_add a b p q ha hb u
        (λ e. rw (adds, adds) (ptr_plus-Allows base x.input a b (and_split _ _ e).0 p))
        (λ e.
          rw (adds, adds, add_comm a b) (ptr_plus-Allows base y.input b a (and_split _ _ e).0 q))

  -- If the processor subtracts modulo 2 ^ 64, and the two inputs of a 64-bit subtraction allow two numbers
  -- below 2 ^ 64, and it is not a pointer that is subtracted from an immediate, then the emulation
  -- returns, its output allows the difference of the numbers, and its flags allow those of the subtraction.
  pub emulate_sub64-Computes :
      ((m n : ℕ) → (cpu.run_sub 64 m n).0 ≡ minus m n)
      → (is_ptr (get_type y.input) && is_imm (get_type x.input)) ≡ false
      → Computes base y (cpu.run_sub 64 a b) (emulate_sub64 cpu (x ∷ y ∷ flag_list fl))
  unfolding emulate_sub64
  emulate_sub64-Computes subs no_swap =
      emulate_imm_ptr-Computes base x y fl h cpu.run_sub a b p q ha hb u
        (λ e. rw (subs, subs) (ptr_minus-Allows base x.input a b hb (and_split _ _ e).0 p))
        (λ e. cc (e, no_swap))
