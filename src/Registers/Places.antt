-- ===== src/Registers/Places.antt =====
-- Where the accesses to registers of src/ProgramState.cpp go: inside the storage, for each register.
use drob.Prelude.{
  ℕ, ◌+◌, ◌≤◌, ◌<◌, ◌≡◌, refl, arith, Bool, true, ◌&&◌, Option, none, some, ltb, leb, ap, sym, ◌∙◌,
  ◌==◌, subst,
}
use drob.Registers.{
  Register, no_register, RegisterType, flag1, gprs64, sse128, RegisterAccessType, no_access,
  full_zero_parent, full, h0, h1, f0, f1, f2, f3, Place, get_register_data, size_in_bytes,
  type_number,
}

-- The number of registers of a type that have storage, `ARCH_FLAG1_COUNT` and so on.
abbrev pub storage_count : RegisterType → ℕ
storage_count flag1 = 6
storage_count gprs64 = 16
storage_count sse128 = 16
storage_count _ = 0

abbrev inside : Option Place → Bool
inside none = true
inside (some p) =
    ltb p.nr (storage_count p.file) && leb (p.byte_offset + p.bytes) (size_in_bytes p.file)

no_place : (reg : Register) → inside (get_register_data reg no_access) ≡ true
unfolding get_register_data
no_place no_register = refl
no_place _ = refl

abbrev row : Register → Bool
row reg =
    inside (get_register_data reg full_zero_parent)
    && inside (get_register_data reg full)
    && inside (get_register_data reg h0)
    && inside (get_register_data reg h1)
    && inside (get_register_data reg f0)
    && inside (get_register_data reg f1)
    && inside (get_register_data reg f2)
    && inside (get_register_data reg f3)

row_table : (reg : Register) → row reg ≡ true
unfolding get_register_data size_in_bytes
row_table no_register = refl
row_table _ = refl

inside_table :
    (reg : Register) (access : RegisterAccessType) → inside (get_register_data reg access) ≡ true
inside_table reg no_access = no_place reg
inside_table reg full_zero_parent = ground (arith, row_table reg)
inside_table reg _ = ground (arith, row_table reg)

-- An access that `getRegisterData` accepts lies inside the storage of its register, at a register
-- that there is.
pub get_register_data_inside :
    (reg : Register) (access : RegisterAccessType) (p : Place)
    → get_register_data reg access ≡ some p
    → (p.nr < storage_count p.file) × (p.byte_offset + p.bytes ≤ size_in_bytes p.file)
get_register_data_inside reg access p h =
    let t = ap inside h in
    let t' : inside (some p) ≡ true = sym t ∙ inside_table reg access in ground arith

abbrev same : Option Place → Option Place → Bool
same (some p) (some q) = type_number p.file == type_number q.file && p.nr == q.nr
same _ _ = true

abbrev same_row : Register → Bool
same_row reg =
    same (get_register_data reg full_zero_parent) (get_register_data reg full)
    && same (get_register_data reg h0) (get_register_data reg full)
    && same (get_register_data reg h1) (get_register_data reg full)
    && same (get_register_data reg f0) (get_register_data reg full)
    && same (get_register_data reg f1) (get_register_data reg full)
    && same (get_register_data reg f2) (get_register_data reg full)
    && same (get_register_data reg f3) (get_register_data reg full)
    && same (get_register_data reg full) (get_register_data reg full)

same_row_table : (reg : Register) → same_row reg ≡ true
unfolding get_register_data
same_row_table no_register = refl
same_row_table _ = refl

same_table :
    (reg : Register) (access : RegisterAccessType)
    → same (get_register_data reg access) (get_register_data reg full) ≡ true
unfolding get_register_data
same_table no_register no_access = refl
same_table reg no_access = refl
same_table reg _ = ground (arith, same_row_table reg)

type_number-injective : (t u : RegisterType) → type_number t ≡ type_number u → t ≡ u
type_number-injective t u h = ground arith

-- All accesses to a register go to one physical register.
pub same_home :
    (reg : Register) (access : RegisterAccessType) (p q : Place)
    → get_register_data reg access ≡ some p
    → get_register_data reg full ≡ some q
    → (p.file ≡ q.file) × (p.nr ≡ q.nr)
same_home reg access p q e f =
    let t : same (some p) (some q) ≡ true =
      subst (λ x. same x (some q) ≡ true) e
        (subst (λ y. same (get_register_data reg access) y ≡ true) f (same_table reg access)) in
    let k : type_number p.file ≡ type_number q.file = ground arith in
    (type_number-injective p.file q.file k, ground arith)
