-- ===== src/Liveness/Masks.antt =====
-- The masks of src/RegisterInfo.hpp, bit by bit.
use drob.Prelude.{
  Option, none, some, ◌⊎◌, ℕ, zero, suc, ◌<◌, ◌≡◌, refl, arith, Bool, true, false, not, ◌&&◌, ◌||◌,
  inl, inr, ==_iff, ◌==◌, Bool-cases, subst, sym,
}
use drob.Predicate.{TriState, tri_true, tri_false, tri_unknown}
use drob.Liveness.{
  ControlFlow, other, call, ret, branch, flow_live, add_known, LivenessData, Instruction, effects,
  execution_of, executed_live, transfer, zero_mask,
}
use drob.Liveness.Machine.{
  Exit, goes_on, returns, leaves, to_block, Allowed, IsExecuted, live_at, inputs,
}
use drob.Liveness.{Mask, add_mask, sub_mask, equal_mask, same_bit}

same_bit-eq : (a b : Bool) → same_bit a b ≡ true → a ≡ b
same_bit-eq true b h = cc
same_bit-eq false true h = cc
same_bit-eq false false h = refl

lt_zero : {n : ℕ} → n < 0 → ⊥
lt_zero h = omega arith

pub and_left : (a b : Bool) → a && b ≡ true → a ≡ true
and_left true b h = refl
and_left false b h = h

pub and_right : (a b : Bool) → a && b ≡ true → b ≡ true
and_right true b h = h
and_right false b h = cc

pub equal_mask-bit :
    (bits : ℕ) (a b : Mask) → equal_mask bits a b ≡ true → (r : ℕ) → r < bits → a r ≡ b r
unfolding equal_mask
equal_mask-bit zero a b h r le = elim (lt_zero le) [ ]
equal_mask-bit (suc bits) a b h r le = elim (Bool-cases (r == bits)) [
  | inl e ↦
      subst (λ (n : ℕ). a n ≡ b n) (sym ((==_iff r bits).0 e))
        (same_bit-eq (a bits) (b bits) (and_left (same_bit (a bits) (b bits)) _ h))
  | inr e ↦ equal_mask-bit bits a b (and_right (same_bit (a bits) (b bits)) _ h) r (ground arith)
]

pub or_left : (a b : Bool) → a ≡ true → a || b ≡ true
or_left true b h = refl
or_left false b h = cc

pub or_right : (a b : Bool) → b ≡ true → a || b ≡ true
or_right true b h = refl
or_right false b h = h

pub or_cases : (a b : Bool) → a || b ≡ true → (a ≡ true) ⊎ (b ≡ true)
or_cases true b h = inl refl
or_cases false b h = inr h

-- A bit is still set, or it was taken out.
written_or_kept : (l w r : Bool) → l ≡ true → ((l && not w) || r ≡ true) ⊎ (w ≡ true)
written_or_kept true true r h = inr refl
written_or_kept true false r h = inl refl
written_or_kept false w r h = cc

-- Merging in a block keeps what was live, and adds what the block reads.
known_left : (m : Mask) (o : Option LivenessData) (r : ℕ) → m r ≡ true → add_known m o r ≡ true
known_left m none r h = h
known_left m (some d) r h = or_left (m r) (d.live_in r) h

known_right :
    (m : Mask) (o : Option LivenessData) (r : ℕ)
    → add_known zero_mask o r ≡ true
    → add_known m o r ≡ true
known_right m none r h = cc
known_right m (some d) r h = or_right (m r) (d.live_in r) h

module _ (live_ret : Mask) (blocks : ℕ → Option LivenessData) where
  -- What is live at an exit is live in front of the control flow, or settled by `W`.
  flow-covers :
      {W : Type 0} (flow : ControlFlow) (x : Exit) (base live : Mask) (r : ℕ)
      → Allowed flow x
      → (live r ≡ true → (base r ≡ true) ⊎ W)
      → live_at live_ret blocks live x r ≡ true
      → (flow_live live_ret blocks flow base r ≡ true) ⊎ W
  flow-covers other goes_on base live r a k h = k h
  flow-covers call x base live r a k h = inl refl
  flow-covers ret returns base live r a k h = inl h
  flow-covers (branch none) x base live r a k h = inl refl
  flow-covers (branch (some dst)) goes_on base live r a k h = elim (k h) [
    | inl e ↦ inl (known_left base (blocks dst) r e)
    | inr w ↦ inr w
  ]
  flow-covers (branch (some dst)) (to_block b) base live r a k h =
      inl (known_right base (blocks dst) r (rw a at h))
  flow-covers other returns base live r a k h = elim a [ ]
  flow-covers other leaves base live r a k h = elim a [ ]
  flow-covers other (to_block b) base live r a k h = elim a [ ]
  flow-covers ret goes_on base live r a k h = elim a [ ]
  flow-covers ret leaves base live r a k h = elim a [ ]
  flow-covers ret (to_block b) base live r a k h = elim a [ ]
  flow-covers (branch (some dst)) returns base live r a k h = elim a [ ]
  flow-covers (branch (some dst)) leaves base live r a k h = elim a [ ]

  -- A return reads nothing that is not live behind it.
  flow-reads :
      (flow : ControlFlow) (base : Mask) (r : ℕ)
      → (flow ≡ ret → live_ret r ≡ true)
      → base r ≡ true
      → flow_live live_ret blocks flow base r ≡ true
  flow-reads other base r k h = h
  flow-reads call base r k h = refl
  flow-reads ret base r k h = k refl
  flow-reads (branch none) base r k h = refl
  flow-reads (branch (some dst)) base r k h = known_left base (blocks dst) r h

  -- Of an instruction that is executed, what is live at an exit was live in front, or is written.
  executed-covers :
      (i : Instruction) (will : TriState) (x : Exit) (live : Mask) (r : ℕ)
      → Allowed i.flow x
      → IsExecuted will
      → live_at live_ret blocks live x r ≡ true
      → (executed_live live_ret blocks i will live r ≡ true)
        ⊎ ((will ≡ tri_true) × ((effects i).written_regs r ≡ true))
  executed-covers i tri_true x live r a k h =
      flow-covers i.flow x _ live r a
        (λ l.
          elim (written_or_kept (live r) ((effects i).written_regs r) ((effects i).read_regs r) l) [
            | inl e ↦ inl e
            | inr w ↦ inr (refl, w)
          ])
        h
  executed-covers i tri_unknown x live r a k h =
      flow-covers i.flow x _ live r a (λ l. inl (or_left (live r) ((effects i).read_regs r) l)) h
  executed-covers i tri_false x live r a k h = elim k [ ]

  pub transfer-covers :
      (i : Instruction) (x : Exit) (live : Mask) (r : ℕ)
      → Allowed i.flow x
      → IsExecuted (execution_of i)
      → live_at live_ret blocks live x r ≡ true
      → (transfer live_ret blocks i live r ≡ true)
        ⊎ ((execution_of i ≡ tri_true) × ((effects i).written_regs r ≡ true))
  transfer-covers i x live r a k h = elim (executed-covers i (execution_of i) x live r a k h) [
    | inl e ↦ inl (
        or_left (executed_live live_ret blocks i (execution_of i) live r)
          ((effects i).predicate_regs r) e)
    | inr w ↦ inr w
  ]

  -- All that an instruction reads is live in front of it.
  flow_inputs :
      (i : Instruction) (base : Mask) (r : ℕ)
      → (i.flow ≡ ret → (effects i).read_regs r ≡ true → live_ret r ≡ true)
      → add_mask (effects i).read_regs (effects i).predicate_regs r ≡ true
      → let e = effects i in
        add_mask (flow_live live_ret blocks i.flow (add_mask base e.read_regs)) e.predicate_regs r
        ≡ true
  flow_inputs i base r k h =
      let e = effects i in
      let live = flow_live live_ret blocks i.flow (add_mask base e.read_regs) in
      elim (or_cases (e.read_regs r) (e.predicate_regs r) h) [
        | inl reads ↦ or_left (live r) (e.predicate_regs r) (
            flow-reads i.flow (add_mask base e.read_regs) r (λ is_ret. k is_ret reads)
              (or_right (base r) (e.read_regs r) reads))
        | inr reads ↦ or_right (live r) (e.predicate_regs r) reads
      ]

  pub transfer-reads :
      (i : Instruction) (will : TriState) (live : Mask) (r : ℕ)
      → (i.flow ≡ ret → (effects i).read_regs r ≡ true → live_ret r ≡ true)
      → inputs will (effects i) r ≡ true
      → add_mask (executed_live live_ret blocks i will live) (effects i).predicate_regs r ≡ true
  transfer-reads i tri_true live r k h =
      flow_inputs i (sub_mask live (effects i).written_regs) r k h
  transfer-reads i tri_unknown live r k h = flow_inputs i live r k h
  transfer-reads i tri_false live r k h = or_right (live r) ((effects i).predicate_regs r) h
