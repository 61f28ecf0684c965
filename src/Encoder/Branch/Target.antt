-- ===== src/Encoder/Branch/Target.antt =====
-- The branches and calls that src/x86/Encoder.cpp writes go where they should.
use drob.Prelude.{
  ℕ, ◌+◌, ◌-◌, ◌%◌, ◌==◌, ◌<◌, ◌≡◌, refl, sym, ap, subst, ◌∙◌, arith, Bool, true, false, Option,
  some, List, [], ◌∷◌, ◌++◌, if_cases,
}
use drob.Prelude.Returns.{Returns, Returns-none, Returns-some}
use drob.Value.{u64}
use drob.Encoder.Operand.{u32, fits32, disp_fits8, le_bytes, length}
use drob.Encoder.Decoder.{sign8, read8, read32}
use drob.Encoder.Length.{length-++, length-le_bytes}
use drob.Encoder.Opcode.{Opcode, joa}
use drob.Encoder.Branch.{
  CallLocation, BranchLocation, Fixup, BranchKind, conditional, unconditional, special, branch_kind,
  reserved, disp_to, arch_fixup_call, arch_fixup_branch, fixup_kind, fixup_conditional,
  fixup_branch, write_short, write_long,
}
use drob.Encoder.Branch.Processor.{
  jump, short_target, near_target, one_byte, two_bytes, branch_target,
}

-- The way from one address to another, modulo 2^64.
abbrev pub distance : ℕ → ℕ → ℕ
distance target from = (target + u64 - from % u64) % u64

pub jump_back : (d from : ℕ) → d < u64 → fits32 d ≡ true → jump from (d % u32) ≡ (from + d) % u64
jump_back d from h f = ground arith

there : (target from : ℕ) → target < u64 → (from + distance target from) % u64 ≡ target
there target from h = omega arith

-- A displacement of 32 bits, added to where it was measured from.
pub jump-disp_to :
    (target from : ℕ)
    → target < u64
    → fits32 (distance target from) ≡ true
    → jump from (disp_to target from) ≡ target
jump-disp_to target from h f =
    jump_back (distance target from) from (omega arith) f ∙ there target from h

sign8_lem : (v : ℕ) → v < u32 → disp_fits8 v ≡ true → sign8 (v % 256) ≡ v
sign8_lem v h f = ground arith

pub read32_all : (v : ℕ) → v < u32 → read32 (le_bytes 4 v) ≡ some (v, [])
unfolding read32 le_bytes
read32_all v h = ap (λ (x : ℕ). some (x, [])) (omega arith)

near_target-le_bytes :
    (itext n from target : ℕ)
    → from ≡ itext + n + 4
    → target < u64
    → fits32 (distance target from) ≡ true
    → near_target itext n (le_bytes 4 (disp_to target from)) ≡ some target
unfolding near_target
near_target-le_bytes itext n from target e h f =
    rw (read32_all (disp_to target from) (omega arith), ← e)
      (ap (λ (x : ℕ). some x) (jump-disp_to target from h f))

short_target-disp_to :
    (itext target : ℕ)
    → target < u64
    → fits32 (distance target (itext + 2)) ≡ true
    → disp_fits8 (disp_to target (itext + 2)) ≡ true
    → short_target itext 1 (disp_to target (itext + 2) % 256 ∷ []) ≡ some target
unfolding short_target read8
short_target-disp_to itext target h f g =
    let two : itext + 1 + 1 ≡ itext + 2 = omega arith in
    rw (sign8_lem (disp_to target (itext + 2)) (omega arith) g, two)
      (ap (λ (x : ℕ). some x) (jump-disp_to target (itext + 2) h f))

-- What is asked of a branch: its space, a target that 32 bits reach, and one that 8 bits reach if
-- the short form was chosen.
pub record IsReachable (branch : BranchLocation) (kind : BranchKind) (target : ℕ) : Type 0 where
  pub space : branch.ilen ≡ reserved kind branch.use_short
  pub word : target < u64
  pub near : fits32 (distance target (branch.itext + branch.ilen)) ≡ true
  pub short :
      branch.use_short ≡ true → disp_fits8 (disp_to target (branch.itext + branch.ilen)) ≡ true

-- The fix-up writes the space that was reserved, and a processor that takes the branch continues
-- at the target.
Lands : BranchLocation → ℕ → Option Fixup → Type 0
Lands branch target o =
    (f : Fixup) × (o ≡ some f)
    × (length f.bytes ≡ branch.ilen)
    × (branch_target branch.itext f.bytes ≡ some target)

-- One byte of opcode with a displacement of 8 bits.
IsShort : ℕ → Type 0
IsShort opcode = (a b : ℕ) → branch_target a (opcode ∷ b ∷ []) ≡ short_target a 1 (b ∷ [])

write_short-Lands :
    (branch : BranchLocation) (kind : BranchKind) (opcode target : ℕ)
    → IsReachable branch kind target
    → IsShort opcode
    → branch.use_short ≡ true
    → branch.ilen ≡ 2
    → Lands branch target (write_short branch 2 opcode target)
unfolding Lands IsShort write_short
write_short-Lands branch kind opcode target r is_short s two =
    let fits : disp_fits8 (disp_to target (branch.itext + 2)) ≡ true =
      subst (λ (n : ℕ). disp_fits8 (disp_to target (branch.itext + n)) ≡ true) two (r.short s) in
    let near : fits32 (distance target (branch.itext + 2)) ≡ true =
      subst (λ (n : ℕ). fits32 (distance target (branch.itext + n)) ≡ true) two r.near in
    let disp = disp_to target (branch.itext + 2) in
    (
      record { use_short = branch.use_short; bytes = opcode ∷ disp % 256 ∷ [] },
      rw (two, fits) refl,
      sym two,
      is_short branch.itext (disp % 256)
          ∙ short_target-disp_to branch.itext target r.word near fits,
    )

write_long-Lands :
    (branch : BranchLocation) (kind : BranchKind) (n : ℕ) (opcode : List ℕ) (target : ℕ)
    → IsReachable branch kind target
    → length opcode ≡ n
    → ((a : ℕ) (rest : List ℕ) → branch_target a (opcode ++ rest) ≡ near_target a n rest)
    → branch.ilen ≡ n + 4
    → Lands branch target (write_long branch (n + 4) opcode target)
unfolding Lands write_long
write_long-Lands branch kind n opcode target r len is_near e =
    let from = branch.itext + branch.ilen in
    let rest = le_bytes 4 (disp_to target from) in
    let same : (branch.ilen == n + 4) ≡ true = ground arith in
    (
      record { use_short = branch.use_short; bytes = opcode ++ rest },
      rw same refl,
      omega (arith, e, len, length-++ opcode rest, length-le_bytes 4 (disp_to target from)),
      is_near branch.itext rest
          ∙ near_target-le_bytes branch.itext n from target (omega arith) r.word r.near,
    )

-- What the opcodes of the conditional branches mean.
IsKnown : BranchKind → Type 0
IsKnown (conditional opcode) =
    IsShort (opcode - 0x10)
    × ((a : ℕ) (rest : List ℕ) → branch_target a (0x0f ∷ opcode ∷ rest) ≡ near_target a 2 rest)
IsKnown _ = Unit

branch_kind-IsKnown : (opcode : Opcode) → Returns IsKnown (branch_kind opcode)
unfolding branch_kind IsKnown IsShort branch_target one_byte two_bytes
branch_kind-IsKnown joa = search (Returns-some, refl)
branch_kind-IsKnown _ = search (Returns-none, Returns-some, refl)

-- JCXZ, which has no other form than the short one.
abbrev pub is_special : BranchKind → Bool
is_special (special addr_prefix) = true
is_special _ = false

fixup_kind-Lands :
    (branch : BranchLocation) (kind : BranchKind) (target : ℕ)
    → IsKnown kind
    → is_special kind ≡ false
    → IsReachable branch kind target
    → Lands branch target (fixup_kind branch kind target true)
unfolding fixup_kind fixup_conditional fixup_branch IsKnown IsShort branch_target one_byte two_bytes
fixup_kind-Lands branch (conditional opcode) target (k, l) plain r =
    if_cases (Lands branch target) branch.use_short
      (λ s.
        write_short-Lands branch (conditional opcode) (opcode - 0x10) target r k s
          (rw s at r.space))
      (λ s.
        write_long-Lands branch (conditional opcode) 2 (0x0f ∷ opcode ∷ []) target r refl l
          (rw s at r.space))
fixup_kind-Lands branch unconditional target k plain r =
    if_cases (Lands branch target) branch.use_short
      (λ s. write_short-Lands branch unconditional 0xeb target r (λ a b. refl) s (rw s at r.space))
      (λ s.
        write_long-Lands branch unconditional 1 (0xe9 ∷ []) target r refl (λ a rest. refl)
          (rw s at r.space))
fixup_kind-Lands branch (special addr_prefix) target k plain r = cc

-- A branch other than JCXZ whose space was reserved, whose target 32 bits reach, and also 8 bits if
-- the short form was chosen: `arch_fixup_branch` writes exactly the space, and the branch that a
-- processor reads there goes to the target.
pub arch_fixup_branch-lands :
    (branch : BranchLocation) (kind : BranchKind) (target : ℕ)
    → branch_kind branch.opcode ≡ some kind
    → is_special kind ≡ false
    → IsReachable branch kind target
    → (f : Fixup) × (arch_fixup_branch branch target true ≡ some f)
      × (length f.bytes ≡ branch.ilen)
      × (branch_target branch.itext f.bytes ≡ some target)
unfolding arch_fixup_branch Lands
arch_fixup_branch-lands branch kind target h plain r = rw h (
    fixup_kind-Lands branch kind target ((branch_kind-IsKnown branch.opcode).result kind h) plain r)

-- A call that 32 bits reach: `arch_fixup_call` writes the five bytes that were reserved, and the call
-- that a processor reads there goes to the target.
pub arch_fixup_call-lands :
    (call : CallLocation) (target : ℕ)
    → call.ilen ≡ 5
    → target < u64
    → fits32 (distance target (call.itext + call.ilen)) ≡ true
    → (bytes : List ℕ) × (arch_fixup_call call target true ≡ some bytes)
      × (length bytes ≡ call.ilen)
      × (branch_target call.itext bytes ≡ some target)
unfolding arch_fixup_call branch_target one_byte two_bytes
arch_fixup_call-lands call target e h f =
    let from = call.itext + call.ilen in
    let same : (call.ilen == 5) ≡ true = ground arith in
    let rest = le_bytes 4 (disp_to target from) in
    (
      0xe8 ∷ rest,
      rw same refl,
      omega (arith, e, length-le_bytes 4 (disp_to target from)),
      near_target-le_bytes call.itext 1 from target (omega arith) h f,
    )
