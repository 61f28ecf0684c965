-- ===== src/Opcodes/Invert.antt =====
-- The opposite of a conditional branch: `arch_invert_branch` of src/x86/OpcodeInfo.cpp.
use drob.Prelude.{ℕ, ◌≤◌, ◌≡◌, refl, arith, Bool, true, not, Option, none, some}
use drob.Registers.{Register, cf, zf, sf, pf, of}
use drob.Predicate.{Predicate}
use drob.Predicate.Pairs.{holds, predicate_pairs}
use drob.Emulator.{Processor}
use drob.Encoder.Opcode.{
  Opcode, joa, jnoa, jba, jnba, jza, jnza, jbea, jnbea, jsa, jnsa, jpa, jnpa, jla, jnla, jlea,
  jnlea,
}
use drob.Opcodes.Table.{opcode_info}

-- `arch_invert_branch`; `Opcode::NONE` is the absent opcode.
unfoldable pub arch_invert_branch : Opcode → Option Opcode
arch_invert_branch jnbea = some jbea
arch_invert_branch jnba = some jba
arch_invert_branch jba = some jnba
arch_invert_branch jbea = some jnbea
arch_invert_branch jza = some jnza
arch_invert_branch jnlea = some jlea
arch_invert_branch jnla = some jla
arch_invert_branch jla = some jnla
arch_invert_branch jlea = some jnlea
arch_invert_branch jnza = some jza
arch_invert_branch jnoa = some joa
arch_invert_branch jnpa = some jpa
arch_invert_branch jnsa = some jsa
arch_invert_branch joa = some jnoa
arch_invert_branch jpa = some jnpa
arch_invert_branch jsa = some jnsa
arch_invert_branch _ = none

-- Whether an instruction executes where the registers have the values of a run.
abbrev pub executes : (Register → ℕ) → Option Predicate → Bool
executes run none = true
executes run (some p) = holds run p

abbrev executes_op : Processor → (Register → ℕ) → Opcode → Bool
executes_op cpu run op = executes run (opcode_info cpu op).predicate

-- An inverted branch, if there is one, is inverted back, and is taken exactly if the branch is not.
abbrev pub Opposite : Processor → (Register → ℕ) → Opcode → Option Opcode → Type 0
Opposite cpu run op none = Unit
Opposite cpu run op (some op') =
    (arch_invert_branch op' ≡ some op) × (executes_op cpu run op' ≡ not (executes_op cpu run op))

swap_not : (a b : Bool) → a ≡ not b → b ≡ not a
swap_not a b h = ground arith

-- Where the five flags are bits, the branch that `arch_invert_branch` gives for an opcode, if it gives
-- one, is inverted back to that opcode, and its row has a predicate that holds exactly if the one of the
-- opcode's row does not.
pub arch_invert_branch-Opposite :
    (cpu : Processor) (run : Register → ℕ) (op : Opcode)
    → run cf ≤ 1
    → run zf ≤ 1
    → run sf ≤ 1
    → run pf ≤ 1
    → run of ≤ 1
    → Opposite cpu run op (arch_invert_branch op)
unfolding arch_invert_branch opcode_info
arch_invert_branch-Opposite cpu run jba c z s p o = (refl, (predicate_pairs run c z s p o).0)
arch_invert_branch-Opposite cpu run jnba c z s p o =
    (refl, swap_not _ _ (predicate_pairs run c z s p o).0)
arch_invert_branch-Opposite cpu run jza c z s p o = (refl, (predicate_pairs run c z s p o).1)
arch_invert_branch-Opposite cpu run jnza c z s p o =
    (refl, swap_not _ _ (predicate_pairs run c z s p o).1)
arch_invert_branch-Opposite cpu run jsa c z s p o = (refl, (predicate_pairs run c z s p o).2)
arch_invert_branch-Opposite cpu run jnsa c z s p o =
    (refl, swap_not _ _ (predicate_pairs run c z s p o).2)
arch_invert_branch-Opposite cpu run jpa c z s p o = (refl, (predicate_pairs run c z s p o).3)
arch_invert_branch-Opposite cpu run jnpa c z s p o =
    (refl, swap_not _ _ (predicate_pairs run c z s p o).3)
arch_invert_branch-Opposite cpu run joa c z s p o = (refl, (predicate_pairs run c z s p o).4)
arch_invert_branch-Opposite cpu run jnoa c z s p o =
    (refl, swap_not _ _ (predicate_pairs run c z s p o).4)
arch_invert_branch-Opposite cpu run jla c z s p o = (refl, (predicate_pairs run c z s p o).5)
arch_invert_branch-Opposite cpu run jnla c z s p o =
    (refl, swap_not _ _ (predicate_pairs run c z s p o).5)
arch_invert_branch-Opposite cpu run jbea c z s p o = (refl, (predicate_pairs run c z s p o).6)
arch_invert_branch-Opposite cpu run jnbea c z s p o =
    (refl, swap_not _ _ (predicate_pairs run c z s p o).6)
arch_invert_branch-Opposite cpu run jlea c z s p o = (refl, (predicate_pairs run c z s p o).7)
arch_invert_branch-Opposite cpu run jnlea c z s p o =
    (refl, swap_not _ _ (predicate_pairs run c z s p o).7)
arch_invert_branch-Opposite cpu run _ c z s p o = tt
