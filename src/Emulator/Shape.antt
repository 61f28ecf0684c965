-- ===== src/Emulator/Shape.antt =====
-- The operands that an arithmetic instruction has by the tables of src/x86/OpcodeInfo.cpp: two explicit
-- ones, then the six flags.
use drob.Prelude.{ℕ, ◌≡◌, refl, true, some, List, [], ◌∷◌, ◌<◌, arith}
use drob.Value.{DynamicValue, imm64, imm128, unknown_value, is_imm, get_type, u64, get_imm64}
use drob.Value.Laws.{Bases, Allows}
use drob.Emulator.{
  DynamicOperandInfo, Eflags, is_cf, is_af, is_of, operand, set_output, set_eflags, set_cf, set_af,
  set_of, imm64_of,
}

pub record FlagOperands : Type 0 where
  pub cf_op : DynamicOperandInfo
  pub pf_op : DynamicOperandInfo
  pub af_op : DynamicOperandInfo
  pub zf_op : DynamicOperandInfo
  pub sf_op : DynamicOperandInfo
  pub of_op : DynamicOperandInfo

abbrev pub flag_list : FlagOperands → List DynamicOperandInfo
flag_list fl = fl.cf_op ∷ fl.pf_op ∷ fl.af_op ∷ fl.zf_op ∷ fl.sf_op ∷ fl.of_op ∷ []

-- The flags that the assertions name stand where the handlers look for them.
pub record AreFlags (fl : FlagOperands) : Type 0 where
  pub cf_first : is_cf fl.cf_op.location ≡ true
  pub af_third : is_af fl.af_op.location ≡ true
  pub of_last : is_of fl.of_op.location ≡ true

-- The outputs that `createDynOpInfo` starts with.
pub record AreUnknown (fl : FlagOperands) : Type 0 where
  pub cf_unknown : fl.cf_op.output ≡ unknown_value
  pub pf_unknown : fl.pf_op.output ≡ unknown_value
  pub af_unknown : fl.af_op.output ≡ unknown_value
  pub zf_unknown : fl.zf_op.output ≡ unknown_value
  pub sf_unknown : fl.sf_op.output ≡ unknown_value
  pub of_unknown : fl.of_op.output ≡ unknown_value

-- The flags of a run are ones that the outputs allow.
pub record FlagsAllow (base : Bases) (fl : FlagOperands) (e : Eflags) : Type 0 where
  pub cf_allows : Allows base fl.cf_op.output e.carry
  pub pf_allows : Allows base fl.pf_op.output e.parity
  pub af_allows : Allows base fl.af_op.output e.adjust
  pub zf_allows : Allows base fl.zf_op.output e.is_zero
  pub sf_allows : Allows base fl.sf_op.output e.sign
  pub of_allows : Allows base fl.of_op.output e.overflow

abbrev pub with_output : DynamicOperandInfo → DynamicValue → DynamicOperandInfo
with_output o v = record o { output = v }

abbrev pub flags_set : FlagOperands → Eflags → FlagOperands
flags_set fl e = record {
  cf_op = with_output fl.cf_op (imm64 e.carry);
  pf_op = with_output fl.pf_op (imm64 e.parity);
  af_op = with_output fl.af_op (imm64 e.adjust);
  zf_op = with_output fl.zf_op (imm64 e.is_zero);
  sf_op = with_output fl.sf_op (imm64 e.sign);
  of_op = with_output fl.of_op (imm64 e.overflow);
}

module _ (x y : DynamicOperandInfo) (fl : FlagOperands) (h : AreFlags fl) where
  pub set_eflags-eq :
      (e : Eflags)
      → set_eflags (x ∷ y ∷ flag_list fl) 2 e ≡ some (x ∷ y ∷ flag_list (flags_set fl e))
  unfolding set_eflags operand set_output
  set_eflags-eq e = rw h.cf_first refl

  pub set_cf-eq :
      (v : DynamicValue)
      → set_cf (x ∷ y ∷ flag_list fl) 2 v
        ≡ some (x ∷ y ∷ flag_list (record fl { cf_op = with_output fl.cf_op v }))
  unfolding set_cf operand set_output
  set_cf-eq v = rw h.cf_first refl

  pub set_af-eq :
      (v : DynamicValue)
      → set_af (x ∷ y ∷ flag_list fl) 4 v
        ≡ some (x ∷ y ∷ flag_list (record fl { af_op = with_output fl.af_op v }))
  unfolding set_af operand set_output
  set_af-eq v = rw h.af_third refl

  pub set_of-eq :
      (v : DynamicValue)
      → set_of (x ∷ y ∷ flag_list fl) 7 v
        ≡ some (x ∷ y ∷ flag_list (record fl { of_op = with_output fl.of_op v }))
  unfolding set_of operand set_output
  set_of-eq v = rw h.of_last refl

pub flags_set-FlagsAllow :
    (base : Bases) (fl : FlagOperands) (e : Eflags) → FlagsAllow base (flags_set fl e) e
flags_set-FlagsAllow base fl e = record {
  cf_allows = refl;
  pf_allows = refl;
  af_allows = refl;
  zf_allows = refl;
  sf_allows = refl;
  of_allows = refl;
}

pub unknown-FlagsAllow :
    (base : Bases) (fl : FlagOperands) (e : Eflags) → AreUnknown fl → FlagsAllow base fl e
unknown-FlagsAllow base fl e u = record {
  cf_allows = rw u.cf_unknown tt;
  pf_allows = rw u.pf_unknown tt;
  af_allows = rw u.af_unknown tt;
  zf_allows = rw u.zf_unknown tt;
  sf_allows = rw u.sf_unknown tt;
  of_allows = rw u.of_unknown tt;
}

-- The number of an immediate is the one of the run, if it has 64 bits.
pub imm64_of-Allows :
    (base : Bases) (v : DynamicValue) (a : ℕ)
    → is_imm (get_type v) ≡ true
    → Allows base v a
    → a < u64
    → (imm64_of v ≡ some a) × (get_imm64 v ≡ a)
imm64_of-Allows base (imm64 v) a i p h = ground arith
imm64_of-Allows base (imm128 v) a i p h = ground arith
imm64_of-Allows base v a i p h = ground arith
