-- ===== src/Program/Registers.antt =====
-- `setRegister` and `getRegister` of src/ProgramState.cpp on one register.
use drob.Prelude.{
  ℕ, ◌≡◌, arith, sym, ◌∙◌, Bool, false, some, >>=-eq-some, some-eq, Option-cases, inl, inr, ◌≢◌,
  ◌<◌,
}
use drob.Value.{DynamicValue, imm64}
use drob.Elements.{State, set_elements}
use drob.Elements.Get.{get_elements}
use drob.Elements.Get.RoundTrip.{kept, get_elements-set_elements}
use drob.Registers.{
  Register, RegisterType, flag1, gprs64, RegisterAccessType, full_zero_parent, full, Place,
  get_register_data,
}
use drob.Registers.Places.{storage_count, same_home, get_register_data_inside}
use drob.Program.{
  ProgramState, file_state, put_state, place_state, set_place, set_register, get_register,
}

pub file_state-put_state :
    (ps : ProgramState) (file : RegisterType) (nr : ℕ) (s : State)
    → file_state (put_state ps file nr s) file nr ≡ s
unfolding file_state put_state
file_state-put_state ps flag1 nr s = ground arith
file_state-put_state ps gprs64 nr s = ground arith
file_state-put_state ps _ nr s = ground arith

get_elements-set_place :
    (ps ps' : ProgramState) (p : Place) (v : DynamicValue)
    → set_place ps p v false ≡ some ps'
    → get_elements (place_state ps' p) p.byte_offset p.bytes ≡ some (kept p.bytes v)
unfolding set_place
get_elements-set_place ps ps' p v h =
    let (s, e, q) =
      >>=-eq-some (set_elements (place_state ps p) p.byte_offset p.bytes v false) _ h in
    rw (← some-eq q, file_state-put_state ps p.file p.nr s)
      (get_elements-set_elements (place_state ps p) s p.byte_offset p.bytes v e)

-- The part of the register that an access writes the value to.
abbrev pub written : RegisterAccessType → RegisterAccessType
written full_zero_parent = full
written access = access

set_place_last :
    (ps ps' : ProgramState) (reg : Register) (access : RegisterAccessType) (v : DynamicValue)
    → set_register ps reg access v false ≡ some ps'
    → (before : ProgramState) × (p : Place) × (get_register_data reg (written access) ≡ some p)
      × (set_place before p v false ≡ some ps')
unfolding set_register
set_place_last ps ps' reg full_zero_parent v h =
    let (q, _, h1) = >>=-eq-some (get_register_data reg full_zero_parent) _ h in
    let (before, _, h2) = >>=-eq-some (set_place ps q (imm64 0) false) _ h1 in
    let (p, e, h3) = >>=-eq-some (get_register_data reg full) _ h2 in (before, p, e, h3)
set_place_last ps ps' reg access v h =
    let (p, e, h1) = >>=-eq-some (get_register_data reg access) _ h in (ps, p, e, h1)

-- If an unconditional `setRegister` returns, `getRegister` of the part written gives the value back,
-- an immediate modulo 2 ^ 8 for each byte of the part.
pub get_register-set_register :
    (ps ps' : ProgramState) (reg : Register) (access : RegisterAccessType) (v : DynamicValue)
    → set_register ps reg access v false ≡ some ps'
    → (p : Place) × (get_register_data reg (written access) ≡ some p)
      × (get_register ps' reg (written access) ≡ some (kept p.bytes v))
unfolding get_register
get_register-set_register ps ps' reg access v h =
    let (before, p, e, k) = set_place_last ps ps' reg access v h in
    (p, e, rw e (get_elements-set_place before ps' p v k))

-- Two places in different physical registers.
abbrev pub Apart : Place → Place → Type 0
Apart p q = p.file ≡ q.file → p.nr ≢ q.nr

file_state-put_other :
    (ps : ProgramState) (file file' : RegisterType) (nr nr' : ℕ) (s : State)
    → nr < storage_count file
    → nr' < storage_count file'
    → (file ≡ file' → nr ≢ nr')
    → file_state (put_state ps file nr s) file' nr' ≡ file_state ps file' nr'
unfolding file_state put_state
file_state-put_other ps file file' nr nr' s h k a = ground arith

set_place_other :
    (ps ps' : ProgramState) (p q : Place) (v : DynamicValue) (cond : Bool)
    → p.nr < storage_count p.file
    → q.nr < storage_count q.file
    → Apart p q
    → set_place ps p v cond ≡ some ps'
    → place_state ps' q ≡ place_state ps q
unfolding set_place
set_place_other ps ps' p q v cond h k a e =
    let (s, _, f) =
      >>=-eq-some (set_elements (place_state ps p) p.byte_offset p.bytes v cond) _ e in
    rw (← some-eq f) (file_state-put_other ps p.file q.file p.nr q.nr s h k a)

set_register_other :
    (ps ps' : ProgramState) (reg : Register) (access : RegisterAccessType) (v : DynamicValue)
    (cond : Bool) (q : Place)
    → q.nr < storage_count q.file
    → ((p : Place) → (a : RegisterAccessType) → get_register_data reg a ≡ some p → Apart p q)
    → set_register ps reg access v cond ≡ some ps'
    → place_state ps' q ≡ place_state ps q
unfolding set_register
set_register_other ps ps' reg full_zero_parent v false q k far h =
    let (p, d, h1) = >>=-eq-some (get_register_data reg full_zero_parent) _ h in
    let (mid, e, h2) = >>=-eq-some (set_place ps p (imm64 0) false) _ h1 in
    let (p', d', f) = >>=-eq-some (get_register_data reg full) _ h2 in
    set_place_other mid ps' p' q v false (get_register_data_inside reg full p' d').0 k
      (far p' full d') f
    ∙ set_place_other ps mid p q (imm64 0) false
        (get_register_data_inside reg full_zero_parent p d).0 k (far p full_zero_parent d) e
set_register_other ps ps' reg access v cond q k far h =
    let (p, d, f) = >>=-eq-some (get_register_data reg access) _ h in
    set_place_other ps ps' p q v cond (get_register_data_inside reg access p d).0 k (far p access d)
      f

-- If `setRegister` returns and the two registers are parts of different physical registers, then
-- `getRegister` of any part of the other one gives what it gave before.
pub get_register-set_other :
    (ps ps' : ProgramState) (reg reg2 : Register) (access access2 : RegisterAccessType)
    (v : DynamicValue) (cond : Bool) (p q : Place)
    → get_register_data reg full ≡ some p
    → get_register_data reg2 full ≡ some q
    → Apart p q
    → set_register ps reg access v cond ≡ some ps'
    → get_register ps' reg2 access2 ≡ get_register ps reg2 access2
unfolding get_register
get_register-set_other ps ps' reg reg2 access access2 v cond p q e f a h =
    elim (Option-cases (get_register_data reg2 access2)) [
      | inl none' ↦ rw none'
      | inr (q', d) ↦
          let (x, y) = same_home reg2 access2 q' q d f in
          let far : (p' : Place)
              → (b : RegisterAccessType) → get_register_data reg b ≡ some p'
              → Apart p' q' =
            (λ p' b g r.
              let (z, w) = same_home reg b p' p g e in λ t. a (sym z ∙ r ∙ x) (sym w ∙ t ∙ y)) in
          rw (
            d,
            set_register_other ps ps' reg access v cond q'
                (get_register_data_inside reg2 access2 q' d).0 far h,
          )
    ]
