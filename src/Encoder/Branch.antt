-- ===== src/Encoder/Branch.antt =====
-- The branches and calls that src/x86/Encoder.cpp reserves space for and writes once the addresses are
-- known. Addresses are 64-bit patterns; a branch is its location, and what is written is the list of
-- the bytes from there on.
pub mod Processor
pub mod Target
pub mod Nops
pub mod Special
use drob.Prelude.{
  ℕ, zero, suc, ◌+◌, ◌-◌, ◌*◌, ◌/◌, ◌%◌, ◌^◌, ◌==◌, if◌then◌else◌, ltb, leb, Bool, true, false, not,
  ◌||◌, Option, none, some, ◌>>=◌, ◌>>◌, drob_assert, List, [], ◌∷◌, ◌++◌,
}
use drob.Value.{u64}
use drob.Encoder.Operand.{u32, disp_fits8, le_bytes}
use drob.Encoder.Opcode.{
  Opcode, joa, jnoa, jba, jnba, jza, jnza, jbea, jnbea, jsa, jnsa, jpa, jnpa, jla, jnla, jlea,
  jnlea, jcxz32a, jcxz64a, jmpa, jmpr, jmpm,
}

-- `CallLocation`
pub record CallLocation : Type 0 where
  pub itext : ℕ
  pub ilen : ℕ

-- `BranchLocation`, with the opcode of the instruction and `getUseShortBranch`.
pub record BranchLocation : Type 0 where
  pub itext : ℕ
  pub ilen : ℕ
  pub opcode : Opcode
  pub use_short : Bool

-- What a fix-up leaves: the flag of the instruction, and the bytes written.
pub record Fixup : Type 0 where
  pub use_short : Bool
  pub bytes : List ℕ

-- `int32_t disp = target - from`
abbrev pub disp_to : ℕ → ℕ → ℕ
disp_to target from = (target + u64 - from % u64) % u64 % u32

-- `arch_fixup_call`
unfoldable pub arch_fixup_call : CallLocation → ℕ → Bool → Option (List ℕ)
unfolding le_bytes
arch_fixup_call call target write = do
  drob_assert (call.ilen == 5)
  some (if write then 0xe8 ∷ le_bytes 4 (disp_to target (call.itext + call.ilen)) else [])

-- "can we use a short instruction? remember it for next time"
abbrev pub remember : BranchLocation → ℕ → ℕ → Fixup
remember branch target ilen = record {
  use_short = branch.use_short || disp_fits8 (disp_to target (branch.itext + ilen));
  bytes = [];
}

-- The short form of one byte of opcode and one of displacement.
unfoldable pub write_short : BranchLocation → ℕ → ℕ → ℕ → Option Fixup
write_short branch ilen opcode target =
    let disp = disp_to target (branch.itext + ilen) in
    do
      drob_assert (branch.ilen == ilen)
      drob_assert (disp_fits8 disp)
      some (record { use_short = branch.use_short; bytes = opcode ∷ disp % 256 ∷ [] })

-- The long form of some bytes of opcode and four of displacement.
unfoldable pub write_long : BranchLocation → ℕ → List ℕ → ℕ → Option Fixup
unfolding le_bytes
write_long branch ilen opcode target = do
  drob_assert (branch.ilen == ilen)
  some (record {
    use_short = branch.use_short;
    bytes = opcode ++ le_bytes 4 (disp_to target (branch.itext + branch.ilen));
  })

-- `fixupBranch`
unfoldable pub fixup_branch : BranchLocation → ℕ → Bool → Option Fixup
unfolding write_short write_long
fixup_branch branch target write =
    if not write
    then some (remember branch target 2)
    else if branch.use_short
    then write_short branch 2 0xeb target
    else write_long branch 5 (0xe9 ∷ []) target

-- `fixupSpecialCondBranch`: the prefix 0x67 is overwritten, as its position is not advanced. A branch
-- around a jump: the jump's displacement is measured from its second byte.
unfoldable pub fixup_special : BranchLocation → Bool → ℕ → Bool → Option Fixup
unfolding write_short le_bytes
fixup_special branch addr_prefix target write =
    let short_ilen = if addr_prefix then 3 else 2 in
    let long_ilen = if addr_prefix then 10 else 9 in
    if not write
    then some (remember branch target short_ilen)
    else if branch.use_short
    then write_short branch short_ilen 0xe3 target
    else (do
      drob_assert (long_ilen == branch.ilen)
      some (record {
        use_short = branch.use_short;
        bytes = 0xe3 ∷ 2 ∷ 0xeb ∷ 5 ∷ 0xe9 ∷ le_bytes 4 (disp_to target (branch.itext + 5 + 5));
      }))

-- How `arch_fixup_branch` writes an opcode.
pub data BranchKind : Type 0 where
  conditional : ℕ → BranchKind
  unconditional : BranchKind
  special : Bool → BranchKind

-- The `switch` of `arch_fixup_branch`.
unfoldable pub branch_kind : Opcode → Option BranchKind
branch_kind joa = some (conditional 0x80)
branch_kind jnoa = some (conditional 0x81)
branch_kind jba = some (conditional 0x82)
branch_kind jnba = some (conditional 0x83)
branch_kind jza = some (conditional 0x84)
branch_kind jnza = some (conditional 0x85)
branch_kind jbea = some (conditional 0x86)
branch_kind jnbea = some (conditional 0x87)
branch_kind jsa = some (conditional 0x88)
branch_kind jnsa = some (conditional 0x89)
branch_kind jpa = some (conditional 0x8a)
branch_kind jnpa = some (conditional 0x8b)
branch_kind jla = some (conditional 0x8c)
branch_kind jnla = some (conditional 0x8d)
branch_kind jlea = some (conditional 0x8e)
branch_kind jnlea = some (conditional 0x8f)
branch_kind jmpa = some unconditional
branch_kind jmpr = some unconditional
branch_kind jmpm = some unconditional
branch_kind jcxz32a = some (special false)
branch_kind jcxz64a = some (special true)
branch_kind _ = none

-- "handling for simple conditional branches"
unfoldable pub fixup_conditional : BranchLocation → ℕ → ℕ → Bool → Option Fixup
unfolding write_short write_long
fixup_conditional branch opcode target write =
    if not write
    then some (remember branch target 2)
    else if branch.use_short
    then write_short branch 2 (opcode - 0x10) target
    else write_long branch 6 (0x0f ∷ opcode ∷ []) target

unfoldable pub fixup_kind : BranchLocation → BranchKind → ℕ → Bool → Option Fixup
unfolding fixup_conditional fixup_branch fixup_special
fixup_kind branch (conditional opcode) target write = fixup_conditional branch opcode target write
fixup_kind branch unconditional target write = fixup_branch branch target write
fixup_kind branch (special addr_prefix) target write = fixup_special branch addr_prefix target write

-- `arch_fixup_branch`
unfoldable pub arch_fixup_branch : BranchLocation → ℕ → Bool → Option Fixup
unfolding branch_kind fixup_kind
arch_fixup_branch branch target write = do
  kind ← branch_kind branch.opcode
  fixup_kind branch kind target write

-- The bytes that `arch_prepare_branch` and the functions it calls reserve.
abbrev pub reserved : BranchKind → Bool → ℕ
reserved (conditional opcode) use_short = if use_short then 2 else 6
reserved unconditional use_short = if use_short then 2 else 5
reserved (special false) use_short = if use_short then 2 else 9
reserved (special true) use_short = if use_short then 3 else 10

-- Space for code comes from the pool of the program.
module _ {Pool : Type 0} (alloc_code : Pool → ℕ → Option (ℕ × Pool)) where
  -- `arch_prepare_branch`
  unfoldable pub arch_prepare_branch : Pool → Opcode → Bool → Option (BranchLocation × Pool)
  unfolding branch_kind
  arch_prepare_branch pool opcode use_short = do
    kind ← branch_kind opcode
    r ← alloc_code pool (reserved kind use_short)
    some (
      record {
        itext = r.0;
        ilen = reserved kind use_short;
        opcode = opcode;
        use_short = use_short;
      },
      r.1,
    )

  -- `arch_prepare_call`
  unfoldable pub arch_prepare_call : Pool → Option (CallLocation × Pool)
  arch_prepare_call pool = do r ← alloc_code pool 5; some (record { itext = r.0; ilen = 5 }, r.1)

-- `nops`
abbrev pub nops : List (List ℕ)
nops =
    []
    ∷ (0x90 ∷ [])
    ∷ (0x66 ∷ 0x90 ∷ [])
    ∷ (0x0f ∷ 0x1f ∷ 0x00 ∷ [])
    ∷ (0x0f ∷ 0x1f ∷ 0x40 ∷ 0x00 ∷ [])
    ∷ (0x0f ∷ 0x1f ∷ 0x44 ∷ 0x00 ∷ 0x00 ∷ [])
    ∷ (0x66 ∷ 0x0f ∷ 0x1f ∷ 0x44 ∷ 0x00 ∷ 0x00 ∷ [])
    ∷ (0x0f ∷ 0x1f ∷ 0x80 ∷ 0x00 ∷ 0x00 ∷ 0x00 ∷ 0x00 ∷ [])
    ∷ (0x0f ∷ 0x1f ∷ 0x84 ∷ 0x00 ∷ 0x00 ∷ 0x00 ∷ 0x00 ∷ 0x00 ∷ [])
    ∷ (0x66 ∷ 0x0f ∷ 0x1f ∷ 0x84 ∷ 0x00 ∷ 0x00 ∷ 0x00 ∷ 0x00 ∷ 0x00 ∷ [])
    ∷ []

-- `nops[size]`
abbrev pub nth : List (List ℕ) → ℕ → List ℕ
nth [] size = []
nth (row ∷ rows) zero = row
nth (row ∷ rows) (suc size) = nth rows size

-- The loop of `arch_fill_with_nops`, on fuel.
unfoldable pub fill_with_nops : ℕ → ℕ → List ℕ
fill_with_nops zero size = []
fill_with_nops (suc fuel) size =
    let rest = fill_with_nops fuel (size - 9) in
    if size == 0 then [] else if leb size 9 then nth nops size else nth nops 9 ++ rest

-- `arch_fill_with_nops`; every round but the last takes 9 from the size.
unfoldable pub arch_fill_with_nops : ℕ → List ℕ
unfolding fill_with_nops
arch_fill_with_nops size = fill_with_nops size size
