-- ===== src/Tests/Specialize.antt =====
-- The theorems on specialized instructions and on pooled constants at concrete arguments.
use drob.Prelude.{ℕ, ◌%◌, ◌^◌, ◌≡◌, refl, arith, none-ne-some, true, false, some, [], ◌∷◌}
use drob.Prelude.Bytes.{load}
use drob.Value.{imm64}
use drob.Memory.{get_usr_ptr_cfg}
use drob.Registers.{rax, rcx}
use drob.BinaryPool.{alloc_constant64, alloc_bytes}
use drob.BinaryPool.Constants.{ConstantsHeld, alloc_constant64-held}
use drob.Encoder.Opcode.{xor64rr, cmp64rr, add64rr}
use drob.Instruction.{reg_op}
use drob.Specialize.{SpecRet, Draft, get_imm}
use drob.Specialize.Arith.{specialize_xor64, specialize_add64}
use drob.Specialize.Compare.{specialize_cmp64}
use drob.Specialize.Meaning.{Machine, UsrBases}
use drob.Specialize.Meaning.Same.{Correct}
use drob.Specialize.Meaning.Same.Logic.{draft}
use drob.Specialize.Meaning.Total.{
  specialize_xor64-Correct, specialize_cmp64-Correct, HasRoom, Defined,
}
use drob.Specialize.Meaning.Total.Add.{specialize_add64-Correct}
use drob.Tests.BinaryPool.{two_pages, only_pages, only_pages-MapsPages, constants_in_page}
use drob.Tests.Emulator.{cpu, base, number, number_to}

empty-ConstantsHeld : ConstantsHeld (two_pages 0)
empty-ConstantsHeld = record { in_page = constants_in_page; held64 = tt; held128 = tt }

five_allocated : Defined (alloc_constant64 only_pages (two_pages 0) 5)
unfolding alloc_constant64 alloc_bytes
five_allocated = (_, refl)

alloc_constant64-held_example :
    (load 8 five_allocated.0.0 five_allocated.0.1.memory ≡ 5 % 256 ^ 8)
    × ConstantsHeld five_allocated.0.1
alloc_constant64-held_example =
    alloc_constant64-held only_pages (two_pages 0) five_allocated.0.1 5 five_allocated.0.0
      only_pages-MapsPages empty-ConstantsHeld five_allocated.1

room : HasRoom only_pages (two_pages 0)
unfolding alloc_constant64 alloc_bytes
room val = (_, refl)

no_usr_ptrs : UsrBases base []
unfolding get_usr_ptr_cfg
no_usr_ptrs nr cfg e = absurd (none-ne-some e)

-- Every register holds 7.
abbrev sevens : Machine
sevens = record { regs = λ _. 7; mem = λ _. 0 }

seven-readable : Defined (get_imm [] (imm64 7))
unfolding get_imm
seven-readable = (_, refl)

specialize_xor64-Correct_example :
    let d = draft xor64rr (reg_op rax) (reg_op rcx) (two_pages 0) in
    (s : SpecRet × Draft) × (specialize_xor64 only_pages [] false d (number 7 ∷ number 7 ∷ [])
      ≡ some s)
    × Correct cpu sevens false d s
specialize_xor64-Correct_example =
    specialize_xor64-Correct only_pages [] (reg_op rax) (reg_op rcx) (two_pages 0) room (number 7)
      (number 7) [] seven-readable cpu sevens only_pages-MapsPages empty-ConstantsHeld (omega arith)
      base no_usr_ptrs refl false xor64rr refl refl refl

specialize_cmp64-Correct_example :
    let d = draft cmp64rr (reg_op rax) (reg_op rcx) (two_pages 0) in
    (s : SpecRet × Draft) × (specialize_cmp64 only_pages [] d (number 7 ∷ number 7 ∷ []) ≡ some s)
    × Correct cpu sevens true d s
specialize_cmp64-Correct_example =
    specialize_cmp64-Correct only_pages [] (reg_op rax) (reg_op rcx) (two_pages 0) room (number 7)
      (number 7) [] seven-readable cpu sevens only_pages-MapsPages empty-ConstantsHeld (omega arith)
      base no_usr_ptrs refl cmp64rr refl refl

-- The exclusive or of a number with itself.
xor_self : (a : ℕ) → (cpu.run_xor 64 a a).0 ≡ 0
xor_self a = grind arith

fourteen-readable : Defined (get_imm [] (imm64 14))
unfolding get_imm
fourteen-readable = (_, refl)

specialize_add64-Correct_example :
    let d = draft add64rr (reg_op rax) (reg_op rcx) (two_pages 0) in
    (s : SpecRet × Draft) × (specialize_add64 only_pages [] false d (number_to 7 14 ∷ number 7 ∷ [])
      ≡ some s)
    × Correct cpu sevens false d s
specialize_add64-Correct_example =
    specialize_add64-Correct (reg_op rax) (reg_op rcx) (two_pages 0) only_pages [] room
      (number_to 7 14) (number 7) [] seven-readable seven-readable fourteen-readable cpu sevens
      (λ a b. refl) xor_self only_pages-MapsPages empty-ConstantsHeld (omega arith) (omega arith)
      base no_usr_ptrs refl refl refl false add64rr refl refl
