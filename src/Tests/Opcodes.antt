-- ===== src/Tests/Opcodes.antt =====
-- The theorems on the rows of the opcodes at concrete opcodes.
use drob.Prelude.{◌≡◌, arith, true}
use drob.Value.{imm64}
use drob.Registers.{rax}
use drob.Encoder.Opcode.{shl64ri, jza}
use drob.Opcodes.Table.{opcode_info}
use drob.Opcodes.Fits.{row_operands, emulation_returns, opcode_info-returns}
use drob.Opcodes.Invert.{arch_invert_branch, Opposite, arch_invert_branch-Opposite}
use drob.Tests.Emulator.{cpu}

opcode_info-returns_example :
    emulation_returns
      (opcode_info cpu shl64ri)
      (row_operands (λ _. rax) (imm64 0) (λ i. i) (opcode_info cpu shl64ri))
    ≡ true
opcode_info-returns_example = opcode_info-returns cpu (λ _. rax) (imm64 0) (λ i. i) shl64ri

arch_invert_branch-Opposite_example : Opposite cpu (λ _. 1) jza (arch_invert_branch jza)
arch_invert_branch-Opposite_example =
    arch_invert_branch-Opposite cpu (λ _. 1) jza (omega arith) (omega arith) (omega arith)
      (omega arith) (omega arith)
