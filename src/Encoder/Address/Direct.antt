-- ===== src/Encoder/Address/Direct.antt =====
-- Operands at a known address, which src/x86/Encoder.cpp writes as such or relative to the next
-- instruction.
use drob.Prelude.{
  ℕ, ◌+◌, ◌-◌, ◌*◌, ◌/◌, ◌%◌, ◌^◌, ◌==◌, ◌<◌, ◌≤◌, ◌≡◌, ◌⊎◌, inl, inr, refl, sym, ap, ◌∙◌, arith,
  Bool, true, false, ◌||◌, Option, none, some, drob_assert, List, ◌∷◌, ◌++◌, Bool-cases,
  >>=-eq-some, some-eq, then_taken, else_taken,
}
use drob.Value.{u64}
use drob.Encoder.Operand.{
  u32, fits32, high_bit, bit, le_bytes, length, prefixes, operand_bytes, write, direct_ilen,
  new_encoding, encode_memory_direct, ModRmEncoding, EncFlags, Rex, rex_required,
}
use drob.Encoder.Decoder.{Operand, mem_operand, rip_operand, decode_operand, decode_rm, decode_sib}
use drob.Encoder.Address.{read32-le_bytes, number_lem}
use drob.Encoder.Length.{length-++, length-le_bytes, length-prefixes}
use drob.Encoder.Branch.Processor.{jump}
use drob.Encoder.Branch.Target.{distance, jump_back, jump-disp_to}

-- The address of an operand without registers, for an instruction in front of `next`.
abbrev pub address_of : Operand → ℕ → Option ℕ
address_of (mem_operand none none scale disp) next = some (jump 0 disp)
address_of (rip_operand disp) next = some (jump next disp)
address_of _ next = none

module _ (e : ModRmEncoding) (reg : ℕ) (lg : reg < 16) (mr : e.modrm.reg ≡ reg % 8)
    (hr : e.rex.r ≡ high_bit reg) (rest : List ℕ) where
  absolute_read :
      (v : ℕ)
      → v < 2 ^ 32
      → e.rex.x ≡ false
      → e.sib.scale ≡ 0
      → decode_operand e.rex
          ((64 * 0 + 8 * e.modrm.reg + 4) ∷ (64 * e.sib.scale + 8 * 4 + 5) ∷ (le_bytes 4 v ++ rest))
        ≡ some (reg, mem_operand none none 0 v, rest)
  unfolding decode_operand decode_rm decode_sib
  absolute_read v lv x s =
      let m = 64 * 0 + 8 * (reg % 8) + 4 in
      let rm : m % 8 ≡ 4 = omega arith in
      let mode : m / 64 ≡ 0 = omega arith in
      let number : m / 8 % 8 ≡ reg % 8 = omega arith in
      rw (mr, s, rm, mode, number, x, read32-le_bytes v rest lv, hr, number_lem reg lg)

  relative_read :
      (v : ℕ)
      → v < 2 ^ 32
      → decode_operand e.rex ((64 * 0 + 8 * e.modrm.reg + 5) ∷ (le_bytes 4 v ++ rest))
        ≡ some (reg, rip_operand v, rest)
  unfolding decode_operand decode_rm
  relative_read v lv =
      let m = 64 * 0 + 8 * (reg % 8) + 5 in
      let rm : m % 8 ≡ 5 = omega arith in
      let mode : m / 64 ≡ 0 = omega arith in
      let number : m / 8 % 8 ≡ reg % 8 = omega arith in
      rw (mr, rm, mode, number, read32-le_bytes v rest lv, hr, number_lem reg lg)

-- The bytes of an operand relative to the next instruction are as many as `encodeMemoryDirect` counts.
length-relative :
    (p66 is32bit pf2 : Bool) (rex : Rex) (oc : List ℕ) (m v n imm : ℕ)
    → length (prefixes p66 is32bit pf2 rex ++ (oc ++ ((m ∷ le_bytes 4 v) ++ le_bytes n imm)))
      ≡ length oc + 5 + n + bit p66 + bit is32bit + bit pf2 + bit (rex_required rex)
length-relative p66 is32bit pf2 rex oc m v n imm =
    let pre = prefixes p66 is32bit pf2 rex in
    let rm = m ∷ le_bytes 4 v in
    omega (
      arith,
      length-++ pre (oc ++ (rm ++ le_bytes n imm)),
      length-++ oc (rm ++ le_bytes n imm),
      length-++ rm (le_bytes n imm),
      length-le_bytes 4 v,
      length-le_bytes n imm,
      length-prefixes p66 is32bit pf2 rex,
    )

write_bytes :
    (e : ModRmEncoding) (bytes : List ℕ)
    → write e ≡ some bytes
    → bytes
      ≡ prefixes e.p66 e.is32bit e.pf2 e.rex
        ++ (e.oc ++ (operand_bytes e ++ le_bytes e.imm_len e.imm))
unfolding write
write_bytes e bytes h =
    let (_, _, all) =
      >>=-eq-some
        (drob_assert ((e.imm_len == 0) || (e.imm_len == 1) || (e.imm_len == 2) || (e.imm_len == 4)))
        _ h in
    sym (some-eq all)

-- The operand is read back, and names the address.
Reaches : ModRmEncoding → ℕ → ℕ → ℕ → List ℕ → Type 0
Reaches e' reg val next rest =
    (o : Operand) × (decode_operand e'.rex (operand_bytes e' ++ rest) ≡ some (reg, o, rest))
    × (address_of o next ≡ some val)

absolute_address :
    (val next : ℕ)
    → val < u64
    → fits32 val ≡ true
    → address_of (mem_operand none none 0 (val % u32)) next ≡ some val
absolute_address val next h f = ap (λ (x : ℕ). some x) (jump_back val 0 h f ∙ omega arith)

relative_address :
    (val from : ℕ)
    → val < u64
    → from ≤ u64
    → fits32 ((val + 2 * u64 - from) % u64) ≡ true
    → address_of (rip_operand ((val + 2 * u64 - from) % u64 % u32)) from ≡ some val
relative_address val from h le f =
    let same : (val + 2 * u64 - from) % u64 ≡ distance val from = omega arith in
    ap (λ (x : ℕ). some x) (rw same (jump-disp_to val from h (rw same at f)))

module _ (oc : List ℕ) (reg imm n : ℕ) (flags : EncFlags) (val addr : ℕ) (e' : ModRmEncoding)
    (bytes rest : List ℕ) (lg : reg < 16) (word : val < u64)
    (encoded : encode_memory_direct (new_encoding oc reg imm n flags) val addr ≡ some e')
    (written : write e' ≡ some bytes) where
  abbrev plain : ModRmEncoding
  plain = new_encoding oc reg imm n flags

  absolute-Reaches : fits32 val ≡ true → Reaches e' reg val (addr + length bytes) rest
  unfolding encode_memory_direct new_encoding Reaches
  absolute-Reaches f = rw (← some-eq (then_taken (fits32 val) _ _ f encoded)) (
    mem_operand none none 0 (val % u32),
    absolute_read plain reg lg refl refl rest (val % u32) (omega arith) refl refl,
    absolute_address val (addr + length bytes) word f,
  )

  relative-Reaches :
      fits32 val ≡ false
      → addr + direct_ilen plain ≤ u64
      → fits32 ((val + 2 * u64 - (addr + direct_ilen plain)) % u64) ≡ true
      → Reaches e' reg val (addr + length bytes) rest
  unfolding encode_memory_direct new_encoding Reaches
  relative-Reaches far le f =
      let from = addr + direct_ilen plain in
      let d = (val + 2 * u64 - from) % u64 % u32 in
      let is = some-eq (
        then_taken (fits32 ((val + 2 * u64 - from) % u64)) _ _ f
          (else_taken (fits32 val) _ _ far encoded)) in
      let all : length (
            prefixes e'.p66 e'.is32bit e'.pf2 e'.rex
            ++ (e'.oc ++ (operand_bytes e' ++ le_bytes e'.imm_len e'.imm)))
          ≡ direct_ilen plain =
        rw (← is) (
          length-relative plain.p66 false plain.pf2 plain.rex oc (64 * 0 + 8 * (reg % 8) + 5) d n
            imm) in
      let len : length bytes ≡ direct_ilen plain = ap length (write_bytes e' bytes written) ∙ all in
      rw (← is, len)
        (
          rip_operand d,
          relative_read plain reg lg refl refl rest d (omega arith),
          relative_address val from word le f,
        )

  -- An operand at an address that fits 32 bits, or that 32 bits reach from behind the instruction: where
  -- `encodeMemoryDirect` and `write` return, a processor reads back an operand that names the address,
  -- with the bytes behind it left over.
  pub decode-encode_memory_direct :
      addr + direct_ilen plain ≤ u64
      → (fits32 val ≡ true) ⊎ (fits32 ((val + 2 * u64 - (addr + direct_ilen plain)) % u64) ≡ true)
      → (o : Operand) × (decode_operand e'.rex (operand_bytes e' ++ rest) ≡ some (reg, o, rest))
        × (address_of o (addr + length bytes) ≡ some val)
  unfolding Reaches
  decode-encode_memory_direct le h = elim (Bool-cases (fits32 val)) [
    | inl near ↦ absolute-Reaches near
    | inr far ↦ elim h [
      | inl near ↦ absolute-Reaches near
      | inr reach ↦ relative-Reaches far le reach
    ]
  ]
