-- ===== src/Encoder/Branch/Special.antt =====
-- JCXZ, which src/x86/Encoder.cpp writes around a jump when its target is far.
use drob.Prelude.{
  ℕ, suc, ◌+◌, ◌-◌, ◌%◌, ◌==◌, ◌<◌, ◌≡◌, refl, ap, ◌∙◌, arith, if◌then◌else◌, Bool, true, false,
  some, List, ◌∷◌,
}
use drob.Value.{u64}
use drob.Encoder.Operand.{fits32, le_bytes}
use drob.Encoder.Branch.{BranchLocation, disp_to, fixup_special, reserved, special}
use drob.Encoder.Branch.Processor.{jump, near_target, one_byte, branch_target}
use drob.Encoder.Branch.Target.{distance, jump_back, read32_all}

one_short :
    (from to target : ℕ)
    → suc from ≡ to
    → target < u64
    → fits32 (distance target to) ≡ true
    → jump from (disp_to target to) ≡ (target + u64 - 1) % u64
one_short from to target e h f = jump_back (distance target to) from (omega arith) f ∙ omega arith

reserved_special :
    (ilen : ℕ) (addr_prefix : Bool)
    → ilen ≡ reserved (special addr_prefix) false
    → ((if addr_prefix then 10 else 9) == ilen) ≡ true
reserved_special ilen true e = ground arith
reserved_special ilen false e = ground arith

near_one_short :
    (itext target : ℕ)
    → target < u64
    → fits32 (distance target (itext + 10)) ≡ true
    → near_target (itext + 4) 1 (le_bytes 4 (disp_to target (itext + 10)))
      ≡ some ((target + u64 - 1) % u64)
unfolding near_target
near_one_short itext target h f =
    rw (read32_all (disp_to target (itext + 10)) (omega arith))
      (ap (λ (x : ℕ). some x) (one_short (itext + 4 + 1 + 4) (itext + 10) target (omega arith) h f))

-- JCXZ in its long form, in the space that was reserved and with a target that 32 bits reach: the
-- jump behind the two short branches goes to the byte in front of the target.
pub fixup_special-lands :
    (branch : BranchLocation) (addr_prefix : Bool) (target : ℕ)
    → branch.use_short ≡ false
    → branch.ilen ≡ reserved (special addr_prefix) false
    → target < u64
    → fits32 (distance target (branch.itext + 10)) ≡ true
    → (rest : List ℕ) × (fixup_special branch addr_prefix target true
        ≡ some (record { use_short = false; bytes = 0xe3 ∷ 2 ∷ 0xeb ∷ 5 ∷ rest }))
      × (branch_target (branch.itext + 4) rest ≡ some ((target + u64 - 1) % u64))
unfolding fixup_special branch_target one_byte
fixup_special-lands branch addr_prefix target s e h f =
    let disp = disp_to target (branch.itext + 10) in
    let same = reserved_special branch.ilen addr_prefix e in
    let ten : branch.itext + 5 + 5 ≡ branch.itext + 10 = omega arith in
    (0xe9 ∷ le_bytes 4 disp, rw (s, same, ten) refl, near_one_short branch.itext target h f)
