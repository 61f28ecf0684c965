-- ===== src/Tests/Encoder.antt =====
-- The encoder's theorems at concrete operands.
use drob.Prelude.{ℕ, zero, suc, ◌≡◌, ◌≤◌, refl, arith, true, false, some, List, [], ◌∷◌, ◌++◌}
use drob.Registers.{no_register, rbx}
use drob.Encoder.Operand.{direct, new_encoding, operand_bytes, length, ModRmEncoding}
use drob.Encoder.Forms.{StaticOperand, flag_rexw}
use drob.Encoder.Decoder.{decode_operand}
use drob.Prelude.{◌+◌, ◌*◌, ◌-◌, ◌%◌, ◌^◌, inr}
use drob.Value.{u64}
use drob.Encoder.Decoder.{Operand}
use drob.Encoder.Operand.{encode_memory_direct, write, direct_ilen, fits32}
use drob.Encoder.Address.Direct.{address_of, decode-encode_memory_direct}
use drob.Encoder.Opcode.{add64ri, jza, jcxz32a}
use drob.Encoder.Numbers.{encode_reg}
use drob.Encoder.Arith.{encode_add}
use drob.Encoder.Dispatch.{encode}
use drob.Encoder.Length.Instructions.{encode-Within}
use drob.Encoder.Branch.{
  BranchLocation, Fixup, conditional, arch_fixup_branch, fixup_special, arch_fill_with_nops,
  branch_kind,
}
use drob.Encoder.Branch.Processor.{branch_target, Nops}
use drob.Encoder.Branch.Target.{arch_fixup_branch-lands}
use drob.Encoder.Branch.Special.{fixup_special-lands}
use drob.Encoder.Branch.Nops.{arch_fill_with_nops-Nops}
use drob.Tests.{or_else}

-- `add $300, %rbx`
abbrev operands : ℕ → StaticOperand
operands zero = record { reg = rbx; imm = 0; mem = direct 0 }
operands (suc n) = record { reg = no_register; imm = 300; mem = direct 0 }

abbrev add_rbx : List ℕ
add_rbx = 0x48 ∷ 0x81 ∷ 0xc3 ∷ 0x2c ∷ 1 ∷ 0 ∷ 0 ∷ []

encode-add_rbx : encode add64ri operands 4096 ≡ some add_rbx
unfolding encode encode_add encode_reg
encode-add_rbx = refl

encode-Within_example : length add_rbx ≤ 15
encode-Within_example = encode-Within add64ri operands 4096 encode-add_rbx

-- A short branch backwards.
abbrev back : BranchLocation
back = record { itext = 8192; ilen = 2; opcode = jza; use_short = true }

arch_fixup_branch-lands_example :
    (f : Fixup) × (arch_fixup_branch back 8150 true ≡ some f)
    × (length f.bytes ≡ 2)
    × (branch_target 8192 f.bytes ≡ some 8150)
unfolding branch_kind
arch_fixup_branch-lands_example =
    arch_fixup_branch-lands back (conditional 0x84) 8150 refl refl
      (record { space = refl; word = omega arith; near = refl; short = λ _. refl })

abbrev far : BranchLocation
far = record { itext = 8192; ilen = 9; opcode = jcxz32a; use_short = false }

fixup_special-lands_example :
    (rest : List ℕ) × (fixup_special far false 70000 true
      ≡ some (record { use_short = false; bytes = 0xe3 ∷ 2 ∷ 0xeb ∷ 5 ∷ rest }))
    × (branch_target 8196 rest ≡ some 69999)
fixup_special-lands_example = fixup_special-lands far false 70000 refl refl (omega arith) refl

arch_fill_with_nops-Nops_example :
    Nops (arch_fill_with_nops 25) × (length (arch_fill_with_nops 25) ≡ 25)
arch_fill_with_nops-Nops_example = arch_fill_with_nops-Nops 25

-- A far address, which is written relative to the next instruction.
abbrev base_address : ℕ
base_address = 2 ^ 40

abbrev relative : ModRmEncoding
relative = or_else (new_encoding [] 0 0 0 flag_rexw) (
    encode_memory_direct (new_encoding (0x8b ∷ []) 3 0 0 flag_rexw) (base_address + 4096)
      base_address)

abbrev relative_bytes : List ℕ
relative_bytes = or_else [] (write relative)

encode-relative :
    encode_memory_direct
      (new_encoding (0x8b ∷ []) 3 0 0 flag_rexw)
      (base_address + 4096)
      base_address
    ≡ some relative
unfolding encode_memory_direct new_encoding
encode-relative = refl

write-relative : write relative ≡ some relative_bytes
unfolding write encode_memory_direct new_encoding
write-relative = refl

in_reach : base_address + direct_ilen (new_encoding (0x8b ∷ []) 3 0 0 flag_rexw) ≤ u64
unfolding new_encoding
in_reach = omega arith

reaches :
    fits32 (
      (base_address
        + 4096
        + 2 * u64
        - (base_address + direct_ilen (new_encoding (0x8b ∷ []) 3 0 0 flag_rexw)))
      % u64)
    ≡ true
unfolding new_encoding
reaches = refl

decode-encode_memory_direct_example :
    (o : Operand) × (decode_operand relative.rex (operand_bytes relative ++ 7 ∷ [])
      ≡ some (3, o, 7 ∷ []))
    × (address_of o (base_address + length relative_bytes) ≡ some (base_address + 4096))
decode-encode_memory_direct_example =
    decode-encode_memory_direct (0x8b ∷ []) 3 0 0 flag_rexw (base_address + 4096) base_address
      relative relative_bytes (7 ∷ []) (omega arith) (omega arith) encode-relative write-relative
      in_reach (inr reaches)
