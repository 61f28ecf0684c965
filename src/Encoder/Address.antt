-- ===== src/Encoder/Address.antt =====
-- The operands that the encoder of src/x86/Encoder.cpp writes, read back as the processor does.
pub mod Register
pub mod RoundTrip
pub mod Direct
use drob.Prelude.{
  ℕ, zero, suc, ◌+◌, ◌-◌, ◌*◌, ◌/◌, ◌%◌, ◌^◌, ◌==◌, ◌<◌, ◌≤◌, ◌≡◌, ◌≢◌, refl, arith, ap, sym, ◌∙◌,
  if◌then◌else◌, ltb, leb, Bool, true, false, not, ◌&&◌, ◌||◌, Option, none, some, ◌>>=◌, ◌>>◌,
  List, [], ◌∷◌, ◌++◌, inl, inr, Bool-cases,
}
use native.Mathlib.Decide.{dec_lt}
use drob.Encoder.Operand.{
  Rex, ModRm, Sib, Disp, bit, high_bit, le_bytes, byte_if, disp_bytes, compress, mode_of,
  disp_fits8, sib_val, modrm_val, same_bool,
}
use drob.Encoder.Decoder.{
  Operand, reg_operand, mem_operand, rip_operand, sign8, read8, read32, read_disp, index_of,
  decode_sib, decode_rm, decode_operand,
}

pub read32-le_bytes :
    (v : ℕ) (rest : List ℕ) → v < 2 ^ 32 → read32 (le_bytes 4 v ++ rest) ≡ some (v, rest)
unfolding read32 le_bytes
read32-le_bytes v rest h = ap (λ (x : ℕ). some (x, rest)) (omega arith)

read8-le_bytes :
    (v : ℕ) (rest : List ℕ)
    → v < 2 ^ 32
    → disp_fits8 v ≡ true
    → read8 (le_bytes 1 (v % 256) ++ rest) ≡ some (v, rest)
unfolding read8 le_bytes
read8-le_bytes v rest h f =
    let e : sign8 (v % 256 % 256) ≡ v = ground arith in ap (λ (x : ℕ). some (x, rest)) e

zero_disp :
    (required : Bool) (v : ℕ) (rest : List ℕ)
    → v ≡ 0
    → let d = compress required v in read_disp (mode_of d) (disp_bytes d ++ rest) ≡ some (v, rest)
unfolding read_disp read8 le_bytes
zero_disp true v rest e = rw e
zero_disp false v rest e = rw e

-- A compressed displacement is read back under the mode that says its width.
read_disp-compress :
    (required : Bool) (v : ℕ) (rest : List ℕ)
    → v < 2 ^ 32
    → let d = compress required v in read_disp (mode_of d) (disp_bytes d ++ rest) ≡ some (v, rest)
unfolding read_disp
read_disp-compress required v rest h = elim (Bool-cases (v == 0)) [
  | inl e ↦ zero_disp required v rest (ground arith)
  | inr e ↦ elim (Bool-cases (disp_fits8 v)) [
    | inl f ↦ rw (e, f) (read8-le_bytes v rest h f)
    | inr f ↦ rw (e, f) (read32-le_bytes v rest h)
  ]
]

abbrev plain_rex : Bool → Bool → Bool → Bool → Rex
plain_rex w r x b = record { w = w; r = r; x = x; b = b }

pub number_lem : (n : ℕ) → n < 16 → n % 8 + 8 * bit (high_bit n) ≡ n
number_lem n h = ground arith

pub mode_of-compress :
    (required : Bool) (v : ℕ)
    → let d = compress required v in (mode_of d ≤ 2) × (required ≡ true → (mode_of d == 0) ≡ false)
mode_of-compress required v = ground arith

and_false : (a b : Bool) → (a ≡ true → b ≡ false) → (a && b) ≡ false
and_false true b h = h refl
and_false false b h = refl

pub decode_rm-base :
    (rex : Rex) (required : Bool) (b v : ℕ) (rest : List ℕ)
    → b < 16
    → (b % 8 == 4) ≡ false
    → ((b % 8 == 5) ≡ true → required ≡ true)
    → rex.b ≡ high_bit b
    → v < 2 ^ 32
    → let d = compress required v in
      decode_rm rex (mode_of d) (b % 8) (disp_bytes d ++ rest)
      ≡ some (mem_operand (some b) none 0 v, rest)
unfolding decode_rm
decode_rm-base rex required b v rest lt four five hb h =
    let d = compress required v in
    let (m, z) = mode_of-compress required v in
    let e3 : (mode_of d == 3) ≡ false = ground arith in
    let e5 : ((b % 8 == 5) && (mode_of d == 0)) ≡ false =
      and_false (b % 8 == 5) _ (λ p. z (five p)) in
    rw (e3, four, e5, read_disp-compress required v rest h, hb, number_lem b lt)

pub decode_sib-both :
    (rex : Rex) (required : Bool) (s b i v : ℕ) (rest : List ℕ)
    → s < 4
    → b < 16
    → i < 16
    → (i == 4) ≡ false
    → ((b % 8 == 5) ≡ true → required ≡ true)
    → rex.b ≡ high_bit b
    → rex.x ≡ high_bit i
    → v < 2 ^ 32
    → let d = compress required v in
      decode_sib rex (mode_of d) ((64 * s + 8 * (i % 8) + b % 8) ∷ (disp_bytes d ++ rest))
      ≡ some (mem_operand (some b) (some i) s v, rest)
unfolding decode_sib
decode_sib-both rex required s b i v rest ls lb li four five hb hx h =
    let d = compress required v in
    let (m, z) = mode_of-compress required v in
    let t = 64 * s + 8 * (i % 8) + b % 8 in
    let base : t % 8 ≡ b % 8 = omega arith in
    let index : t / 8 % 8 ≡ i % 8 = omega arith in
    let scale : t / 64 ≡ s = omega arith in
    let e5 : ((b % 8 == 5) && (mode_of d == 0)) ≡ false =
      and_false (b % 8 == 5) _ (λ p. z (five p)) in
    rw (
      base,
      index,
      scale,
      e5,
      read_disp-compress required v rest h,
      hb,
      hx,
      number_lem b lb,
      number_lem i li,
      four,
    )

pub decode_sib-index :
    (rex : Rex) (s i v : ℕ) (rest : List ℕ)
    → s < 4
    → i < 16
    → (i == 4) ≡ false
    → rex.x ≡ high_bit i
    → v < 2 ^ 32
    → decode_sib rex 0 ((64 * s + 8 * (i % 8) + 5) ∷ (le_bytes 4 v ++ rest))
      ≡ some (mem_operand none (some i) s v, rest)
unfolding decode_sib
decode_sib-index rex s i v rest ls li four hx h =
    let t = 64 * s + 8 * (i % 8) + 5 in
    let base : (t % 8 == 5) ≡ true = ground arith in
    let index : t / 8 % 8 ≡ i % 8 = omega arith in
    let scale : t / 64 ≡ s = omega arith in
    rw (base, index, scale, read32-le_bytes v rest h, hx, number_lem i li, four)
