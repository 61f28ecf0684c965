-- ===== src/Emulator/Sound/Compare.antt =====
-- What the emulation of shifts, tests and 64-bit comparisons says of a run.
use drob.Prelude.{
  ℕ, ◌%◌, ◌^◌, ◌<◌, ◌≡◌, ◌==◌, if◌then◌else◌, arith, refl, true, false, ◌&&◌, ◌∷◌, Bool-cases, inl,
  inr,
}
use drob.Value.{DynamicValue, imm64, imm128, ptr_value, u64, get_type, is_imm, stack, usr, ret}
use drob.Value.Laws.{Bases, Allows}
use drob.Emulator.{DynamicOperandInfo, Eflags, Processor, Emulation, operand, set_output}
use drob.Emulator.Arith.{
  emulate_shl64, emulate_test64, emulate_shift, shift_output, test_flags, write_flags, write_result,
  write_output,
}
use drob.Emulator.Shape.{
  FlagOperands, flag_list, AreFlags, AreUnknown, with_output, flags_set, set_eflags-eq,
  flags_set-FlagsAllow, unknown-FlagsAllow, imm64_of-Allows,
}
use drob.Emulator.Sound.{Computes, and_split}
use drob.Emulator.Sound.Flags.{Flagged, shift_flags-Flagged, clear_flags-Flagged}

-- A shift by a count whose lowest six bits are 0 leaves the flags as they were.
abbrev pub after_shift : (ℕ → ℕ → ℕ × Eflags) → Eflags → ℕ → ℕ → ℕ × Eflags
after_shift run before a count =
    ((run a count).0, if count % 64 == 0 then before else (run a count).1)

-- A shift that is not computed: what is left allows every number, unless it is an immediate.
shift_output-Allows :
    (base : Bases) (v : DynamicValue) (n : ℕ)
    → is_imm (get_type v) ≡ false
    → Allows base (shift_output v) n
shift_output-Allows base (ptr_value stack nr k) n i = tt
shift_output-Allows base (ptr_value usr nr k) n i = tt
shift_output-Allows base (ptr_value ret nr k) n i = tt
shift_output-Allows base (imm64 v) n i = cc
shift_output-Allows base (imm128 v) n i = cc
shift_output-Allows base v n i = tt

module _ (base : Bases) (x y : DynamicOperandInfo) (fl : FlagOperands) (h : AreFlags fl)
    (u : AreUnknown fl) (a b : ℕ) (p : Allows base x.input a) (q : Allows base y.input b)
    (ha : a < u64) (hb : b < u64) where
  from_Flagged :
      (r : ℕ × Eflags) (o : DynamicOperandInfo) (m : Emulation)
      → Allows base o.output r.0
      → Flagged base o y r.1 m
      → Computes base y r m
  from_Flagged r o m v f = record {
    out = o;
    flags = f.flags;
    returns = f.returns;
    value = v;
    flags_allow = f.flags_allow;
  }

  emulate_shift-Computes :
      (run : ℕ → ℕ → ℕ × Eflags)
      → (is_imm (get_type x.input) ≡ true → is_imm (get_type y.input) ≡ true)
      → Computes base y (run a (b % 2 ^ 8)) (emulate_shift run (x ∷ y ∷ flag_list fl))
  unfolding emulate_shift operand write_result write_output set_output
  emulate_shift-Computes run count = elim (Bool-cases (is_imm (get_type x.input))) [
    | inl i ↦
        let r = run a (b % 2 ^ 8) in
        let o = with_output x (imm64 r.0) in
        rw
          (
            i,
            count i,
            (imm64_of-Allows base x.input a i p ha).1,
            (imm64_of-Allows base y.input b (count i) q hb).1,
            set_eflags-eq o y fl h r.1,
          )
          (from_Flagged r o _ refl (
            shift_flags-Flagged base o y r.1 (flags_set fl r.1) y.input
              (record { cf_first = h.cf_first; af_third = h.af_third; of_last = h.of_last })
              (flags_set-FlagsAllow base fl r.1)))
    | inr i ↦
        let r = run a (b % 2 ^ 8) in
        let o = with_output x (shift_output x.input) in
        rw i (
          from_Flagged r o _ (shift_output-Allows base x.input r.0 i)
            (shift_flags-Flagged base o y r.1 fl y.input h (unknown-FlagsAllow base fl r.1 u)))
  ]

module _ (base : Bases) (cpu : Processor) (x y : DynamicOperandInfo) (fl : FlagOperands)
    (h : AreFlags fl) (u : AreUnknown fl) (a b : ℕ) (p : Allows base x.input a)
    (q : Allows base y.input b) (ha : a < u64) (hb : b < u64) where
  -- If the two inputs of a left shift allow two numbers below 2 ^ 64, the count is an immediate whenever
  -- the shifted value is one, and the count is not a multiple of 64, then the emulation returns, its
  -- output allows what the processor computes with the lowest 8 bits of the count, and its flags allow
  -- those that the processor has after the shift, whatever they were before.
  pub emulate_shl64-Computes :
      (before : Eflags)
      → (is_imm (get_type x.input) ≡ true → is_imm (get_type y.input) ≡ true)
      → (b % 64 == 0) ≡ false
      → Computes base y
          (after_shift cpu.run_shl before a (b % 2 ^ 8))
          (emulate_shl64 cpu (x ∷ y ∷ flag_list fl))
  unfolding emulate_shl64
  emulate_shl64-Computes before count shifts =
      let same : (b % 2 ^ 8 % 64 == 0) ≡ false = ground (arith, shifts) in
      rw same (emulate_shift-Computes base x y fl h u a b p q ha hb cpu.run_shl count)

  -- If `TEST` clears the carry and the overflow flag, and the two inputs of a 64-bit test allow two numbers
  -- below 2 ^ 64, then the emulation returns, and its flags allow those of the test, known inputs or not.
  pub emulate_test64-Flagged :
      ((m n : ℕ) → ((cpu.run_test 64 m n).carry ≡ 0) × ((cpu.run_test 64 m n).overflow ≡ 0))
      → Flagged base x y
          (cpu.run_test 64 (a % 2 ^ 64) (b % 2 ^ 64))
          (emulate_test64 cpu (x ∷ y ∷ flag_list fl))
  unfolding emulate_test64 test_flags operand write_flags
  emulate_test64-Flagged cleared =
      let e = cpu.run_test 64 (a % 2 ^ 64) (b % 2 ^ 64) in
      let c = cleared (a % 2 ^ 64) (b % 2 ^ 64) in
      elim (Bool-cases (is_imm (get_type x.input) && is_imm (get_type y.input))) [
        | inl i ↦
            let s = and_split (is_imm (get_type x.input)) (is_imm (get_type y.input)) i in
            rw
              (
                i,
                (imm64_of-Allows base x.input a s.0 p ha).1,
                (imm64_of-Allows base y.input b s.1 q hb).1,
                set_eflags-eq x y fl h e,
              )
              (clear_flags-Flagged base x y e (flags_set fl e)
                (record { cf_first = h.cf_first; af_third = h.af_third; of_last = h.of_last })
                (flags_set-FlagsAllow base fl e) c.0 c.1)
        | inr i ↦
            rw i (clear_flags-Flagged base x y e fl h (unknown-FlagsAllow base fl e u) c.0 c.1)
      ]
