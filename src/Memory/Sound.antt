-- ===== src/Memory/Sound.antt =====
-- `calculateMemPtr` of src/Instruction.cpp against the address that the processor computes.
use drob.Prelude.{ℕ, ◌+◌, ◌*◌, ◌%◌, ◌<◌, ◌≡◌, arith, subst, if_cases, ◌&&◌, Bool, true, false, refl}
use drob.Value.{
  DynamicValue, u64, imm64, get_type, get_imm64, is_imm, add_dynamic_values, multiply_dynamic_value,
}
use drob.Value.Laws.{Bases, Allows, add_dynamic_values-Allows, multiply_dynamic_value-Allows}
use drob.Memory.{calculate_mem_ptr}

all_imm : (a b c : Bool) → a && b && c ≡ true → (a ≡ true) × (b ≡ true) × (c ≡ true)
all_imm true true true h = (refl, refl, refl)
all_imm true true false h = cc
all_imm true false c h = cc
all_imm false b c h = cc

module _ (base : Bases) where
  imm_number :
      (v : DynamicValue) (x : ℕ)
      → x < u64
      → is_imm (get_type v) ≡ true
      → Allows base v x
      → get_imm64 v ≡ x
  imm_number (imm64 v) x h e p = ground arith
  imm_number _ x h e p = ground arith

  imm_numbers :
      (b i d : DynamicValue) (scale x y z : ℕ)
      → get_imm64 b ≡ x
      → get_imm64 i ≡ y
      → get_imm64 d ≡ z
      → (x + scale * y + z) % u64 ≡ (get_imm64 b + scale * get_imm64 i + get_imm64 d) % u64
  imm_numbers b i d scale x y z p q r = rw (p, q, r) refl

  sum_number : (x s z : ℕ) → (z + (x + s % u64) % u64) % u64 ≡ (x + s + z) % u64
  sum_number x s z = omega arith

  -- If base, index and displacement allow three numbers below 2 ^ 64, the pointer that
  -- `calculateMemPtr` makes of them allows the address that the processor computes, modulo 2 ^ 64.
  pub calculate_mem_ptr-Allows :
      (b i d : DynamicValue) (scale x y z : ℕ)
      → x < u64
      → y < u64
      → z < u64
      → Allows base b x
      → Allows base i y
      → Allows base d z
      → Allows base (calculate_mem_ptr b i d scale) ((x + scale * y + z) % u64)
  unfolding calculate_mem_ptr
  calculate_mem_ptr-Allows b i d scale x y z hx hy hz p q r =
      if_cases (λ v. Allows base v ((x + scale * y + z) % u64))
        (is_imm (get_type b) && is_imm (get_type i) && is_imm (get_type d))
        (λ all.
          let (eb, ei, ed) =
            all_imm (is_imm (get_type b)) (is_imm (get_type i)) (is_imm (get_type d)) all in
          imm_numbers b i d scale x y z (imm_number b x hx eb p) (imm_number i y hy ei q)
            (imm_number d z hz ed r))
        (λ _.
          subst
            (λ (n : ℕ).
              Allows base
                (add_dynamic_values d (add_dynamic_values b (multiply_dynamic_value i scale))) n)
            (sum_number x (scale * y) z)
            (add_dynamic_values-Allows base d _ z _ r (
              add_dynamic_values-Allows base b _ x _ p
                (multiply_dynamic_value-Allows base i scale y hy q))))
