-- ===== src/Encoder/Address/Register.antt =====
-- The registers of an address by the processor's manual, and which addresses `encodeMemoryIndirect` of
-- src/x86/Encoder.cpp accepts.
use drob.Prelude.{
  ℕ, ◌==◌, ◌≡◌, refl, sym, ◌∙◌, ap, arith, if◌then◌else◌, Bool, true, false, not, ◌&&◌, ◌||◌,
  Option, none, some, List, [], ◌∷◌, inl, inr, Bool-cases, Option-cases, subst, some-eq,
}
use drob.Registers.{
  Register, no_register, eax, rax, ecx, rcx, edx, rdx, ebx, rbx, esp, rsp, ebp, rbp, esi, rsi, edi,
  rdi, r8, r9, r10, r11, r12, r13, r14, r15,
}
use drob.Encoder.Numbers.{encode_addr_reg}
use drob.Encoder.Operand.{
  Rex, ModRmEncoding, prefixes, same_bool, base_case, encode_scale, indirect_base, indirect_index,
  indirect_both, encode_memory_indirect, is_none,
}

-- The number of a register of an address, and whether it has 32 bits.
unfoldable pub address_register : Register → Option (ℕ × Bool)
address_register eax = some (0, true)
address_register rax = some (0, false)
address_register ecx = some (1, true)
address_register rcx = some (1, false)
address_register edx = some (2, true)
address_register rdx = some (2, false)
address_register ebx = some (3, true)
address_register rbx = some (3, false)
address_register esp = some (4, true)
address_register rsp = some (4, false)
address_register ebp = some (5, true)
address_register rbp = some (5, false)
address_register esi = some (6, true)
address_register rsi = some (6, false)
address_register edi = some (7, true)
address_register rdi = some (7, false)
address_register r8 = some (8, false)
address_register r9 = some (9, false)
address_register r10 = some (10, false)
address_register r11 = some (11, false)
address_register r12 = some (12, false)
address_register r13 = some (13, false)
address_register r14 = some (14, false)
address_register r15 = some (15, false)
address_register _ = none

unfoldable pub is_sp : Register → Bool
is_sp rsp = true
is_sp esp = true
is_sp _ = false

abbrev is_some : Option (ℕ × Bool) → Bool
is_some none = false
is_some (some r) = true

abbrev is_narrow : Option (ℕ × Bool) → Bool
is_narrow none = false
is_narrow (some (n, narrow)) = narrow

-- Registers of the same size, at least one of them.
unfoldable pub registers_fit : Register → Register → Bool
registers_fit base index =
    if is_none index
    then is_some (address_register base)
    else if is_none base
    then is_some (address_register index)
    else is_some (address_register base)
      && is_some (address_register index)
      && same_bool (is_narrow (address_register base)) (is_narrow (address_register index))

unfoldable pub is_scale : ℕ → Bool
is_scale scale = (scale == 0) || (scale == 1) || (scale == 2) || (scale == 4) || (scale == 8)

-- An address of a base, an index and a scale: registers of the same size, at least one of them, of
-- which none is the stack pointer.
abbrev pub is_address : Register → Register → ℕ → Bool
is_address base index scale =
    is_scale scale && not (is_sp base) && not (is_sp index) && registers_fit base index

-- An address has 32 bits if its registers have.
abbrev pub narrow_address : Register → Register → Bool
narrow_address base index =
    if is_none index then is_narrow (address_register base) else is_narrow (address_register index)

-- The processor takes an address for one of 32 bits if the byte 0x67 is among the prefixes.
abbrev pub reads_narrow : List ℕ → Bool
reads_narrow [] = false
reads_narrow (b ∷ bytes) =
    if b == 0x67 then true else if (b == 0x66) || (b == 0xf2) then reads_narrow bytes else false

pub reads_narrow-prefixes :
    (p66 narrow pf2 : Bool) (rex : Rex) → reads_narrow (prefixes p66 narrow pf2 rex) ≡ narrow
reads_narrow-prefixes p66 narrow pf2 rex = ground arith

pub address_register-eq : (reg : Register) → encode_addr_reg reg ≡ address_register reg
unfolding encode_addr_reg address_register
address_register-eq no_register = refl
address_register-eq _ = refl

abbrev base_ok : Option (Bool × Bool) → Register → Bool
base_ok none reg = is_sp reg
base_ok (some (q, g)) reg = not g || is_narrow (address_register reg)

base_table : (reg : Register) → base_ok (base_case reg) reg ≡ true
unfolding base_case address_register is_sp
base_table no_register = refl
base_table _ = refl

not_none : (reg : Register) → is_some (address_register reg) ≡ true → is_none reg ≡ false
unfolding address_register
not_none no_register h = sym h
not_none _ h = refl

none_flag :
    (reg : Register) (c : Bool × Bool) → base_case reg ≡ some c → is_none reg ≡ true → c.1 ≡ false
unfolding base_case
none_flag no_register c e n = ap (λ (d : Bool × Bool). d.1) (sym (some-eq e))
none_flag _ c e n = cc

three : (a b c : Bool) → (a && b && c) ≡ true → (a ≡ true) × (b ≡ true) × (c ≡ true)
three a b c h = (ground (arith, h), ground (arith, h), ground (arith, h))

same_bool-eq : (a b : Bool) → same_bool a b ≡ true → a ≡ b
same_bool-eq a b h = ground (arith, h)

base_of :
    (reg : Register)
    → is_sp reg ≡ false
    → (c : Bool × Bool) × (base_case reg ≡ some c)
      × (c.1 || is_narrow (address_register reg) ≡ is_narrow (address_register reg))
base_of reg h = elim (Option-cases (base_case reg)) [
  | inl e ↦
      let t = subst (λ o. base_ok o reg ≡ true) e (base_table reg) in absurd (ground (arith, t, h))
  | inr (c, e) ↦
      let t = subst (λ o. base_ok o reg ≡ true) e (base_table reg) in (c, e, ground (arith, t))
]

scale_of : (scale : ℕ) → is_scale scale ≡ true → (s : ℕ) × (encode_scale scale ≡ some s)
unfolding encode_scale is_scale
scale_of scale h = elim (Option-cases (encode_scale scale)) [
  | inl e ↦ absurd (ground (arith, e, h))
  | inr (s, e) ↦ (s, e)
]

register_of :
    (reg : Register)
    → is_some (address_register reg) ≡ true
    → (r : ℕ × Bool) × (encode_addr_reg reg ≡ some r) × (r.1 ≡ is_narrow (address_register reg))
register_of reg h = elim (Option-cases (address_register reg)) [
  | inl e ↦ absurd (ground (arith, e, h))
  | inr (r, e) ↦ (r, address_register-eq reg ∙ e, ground (arith, e))
]

module _ (e : ModRmEncoding) (base index : Register) (scale disp s : ℕ) (c : Bool × Bool)
    (bc : base_case base ≡ some c) (sc : encode_scale scale ≡ some s)
    (wide : (c.1 || is_narrow (address_register base)) ≡ is_narrow (address_register base)) where
  -- The encoding is accepted, and has the flag for 32 bits of its registers.
  abbrev Accepted : Type 0
  Accepted =
      (e' : ModRmEncoding) × (encode_memory_indirect e base index scale disp ≡ some e')
      × (e'.is32bit ≡ narrow_address base index)

  accepts_base : is_none index ≡ true → registers_fit base index ≡ true → Accepted
  unfolding encode_memory_indirect indirect_base registers_fit
  accepts_base ni h =
      let known : is_some (address_register base) ≡ true = rw ni at h in
      let (r, f, w) = register_of base known in
      rw (bc, sc, ni, not_none base known, f) (_, refl, rw w wide)

  accepts_index :
      is_none index ≡ false → is_none base ≡ true → registers_fit base index ≡ true → Accepted
  unfolding encode_memory_indirect indirect_index registers_fit
  accepts_index i nb h =
      let known : is_some (address_register index) ≡ true = rw (i, nb) at h in
      let (r, f, w) = register_of index known in
      let plain : (c.1 || r.1) ≡ r.1 = ground (arith, none_flag base c bc nb) in
      rw (bc, sc, i, nb, f) (_, refl, plain ∙ w)

  accepts_both :
      is_none index ≡ false → is_none base ≡ false → registers_fit base index ≡ true → Accepted
  unfolding encode_memory_indirect indirect_both registers_fit
  accepts_both i b h =
      let parts = three _ _ _ (rw (i, b) at h) in
      let (r, f, w) = register_of base parts.0 in
      let (r', f', w') = register_of index parts.1 in
      let flag : (c.1 || r.1) ≡ is_narrow (address_register base) = rw w wide in
      let same : same_bool (c.1 || r.1) r'.1 ≡ true = rw (flag, w') parts.2 in
      rw (bc, sc, i, b, f, f', same) (_, refl, flag ∙ same_bool-eq _ _ parts.2)

address_facts :
    (base index : Register) (scale : ℕ)
    → is_address base index scale ≡ true
    → (is_scale scale ≡ true) × (is_sp base ≡ false) × (registers_fit base index ≡ true)
address_facts base index scale h = (ground (arith, h), ground (arith, h), ground (arith, h))

pub index_not_sp :
    (base index : Register) (scale : ℕ) → is_address base index scale ≡ true → is_sp index ≡ false
index_not_sp base index scale h = ground (arith, h)

-- Every address is accepted, and the flag for 32 bits is that of its registers.
pub encode_memory_indirect-accepts :
    (e : ModRmEncoding) (base index : Register) (scale disp : ℕ)
    → is_address base index scale ≡ true
    → (e' : ModRmEncoding) × (encode_memory_indirect e base index scale disp ≡ some e')
      × (e'.is32bit ≡ narrow_address base index)
encode_memory_indirect-accepts e base index scale disp h =
    let (k, sp, fit) = address_facts base index scale h in
    let (c, bc, wide) = base_of base sp in
    let (s, sc) = scale_of scale k in
    elim (Bool-cases (is_none index)) [
      | inl ni ↦ accepts_base e base index scale disp s c bc sc wide ni fit
      | inr i ↦ elim (Bool-cases (is_none base)) [
        | inl nb ↦ accepts_index e base index scale disp s c bc sc wide i nb fit
        | inr b ↦ accepts_both e base index scale disp s c bc sc wide i b fit
      ]
    ]
