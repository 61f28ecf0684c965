-- ===== src/Liveness/Sound.antt =====
-- The liveness analysis of src/passes/LivenessAnalysisPass.hpp against a machine: what is not live does
-- not matter, and instructions without liveness data can go.
use drob.Prelude.{
  ℕ, ◌≡◌, ◌⊎◌, inl, inr, refl, sym, ap, ◌∙◌, subst, Bool, true, false, not, ◌&&◌, if_cases, Option,
  List, [], ◌∷◌,
}
use drob.Predicate.{TriState, tri_true, tri_false, tri_unknown}
use drob.Liveness.{
  Mask, Instruction, LivenessData, ControlFlow, other, ret, effects, execution_of, transfer,
  is_dead, is_other, equal_mask, sub_mask, process_instruction, process_instructions, keep_live,
}
use drob.Liveness.Machine.{
  Exit, goes_on, returns, leaves, to_block, State, Agree, Exec, Respects, Allowed, IsExecuted,
  inputs, live_at, continue, run_block,
}
use drob.Liveness.Masks.{
  equal_mask-bit, and_left, and_right, or_left, transfer-covers, transfer-reads,
}

Agree-sub :
    {V M : Type 0} {bits : ℕ} {a b : Mask} {s t : State V M}
    → Agree bits a s t
    → ((r : ℕ) → b r ≡ true → a r ≡ true)
    → Agree bits b s t
Agree-sub h k = record { reg = λ r le e. h.reg r le (k r e); mem = h.mem }

IsExecuted-cases : (will : TriState) → IsExecuted will ⊎ (will ≡ tri_false)
IsExecuted-cases tri_true = inl tt
IsExecuted-cases tri_unknown = inl tt
IsExecuted-cases tri_false = inr refl

other_goes_on :
    (flow : ControlFlow) (x : Exit) → is_other flow ≡ true → Allowed flow x → x ≡ goes_on
other_goes_on other goes_on h a = refl
other_goes_on other returns h a = elim a [ ]
other_goes_on other leaves h a = elim a [ ]
other_goes_on other (to_block b) h a = elim a [ ]
other_goes_on _ x h a = cc

-- A live bit that is still set was not taken out.
unwritten : (l w c : Bool) → ((l && not w) && not c) ≡ l → l ≡ true → (w ≡ false) × (c ≡ false)
unwritten true false false e h = (refl, refl)
unwritten true true c e h = cc
unwritten true false true e h = cc
unwritten false w c e h = cc

not-true : (b : Bool) → not b ≡ true → b ≡ false
not-true true h = cc
not-true false h = refl

module _ {V M : Type 0} (bits : ℕ) (live_ret : Mask) (blocks : ℕ → Option LivenessData) where
  -- Two runs that go to the same place, with the same in what is live there.
  unfoldable pub Sim : Mask → Exit × State V M → Exit × State V M → Type 0
  Sim live a b = (a.0 ≡ b.0) × Agree bits (live_at live_ret blocks live a.0) a.1 b.1

  -- An instruction does what its masks say, and a return reads nothing that is not live behind it.
  unfoldable pub IsSound : Instruction → (State V M → Exit × State V M) → Type 0
  IsSound i f =
      Respects bits i f
      × ((r : ℕ) → i.flow ≡ ret → (effects i).read_regs r ≡ true → live_ret r ≡ true)

  kept_executed :
      (i : Instruction) (f : State V M → Exit × State V M) (live : Mask) (s t : State V M)
      → IsSound i f
      → IsExecuted (execution_of i)
      → Agree bits (transfer live_ret blocks i live) s t
      → Sim live (f s) (f t)
  unfolding Sim IsSound
  kept_executed i f live s t (ok, reads) k h =
      let all : Agree bits (inputs (execution_of i) (effects i)) s t =
        Agree-sub h (λ r e. transfer-reads live_ret blocks i (execution_of i) live r (reads r) e) in
      (
        ok.exit s t all,
        record {
          reg = λ r le e.
              ok.result s t all r le
                (elim (transfer-covers live_ret blocks i (f s).0 live r (ok.allowed s k) k e) [
                  | inl live_in ↦ inl (h.reg r le live_in)
                  | inr w ↦ inr w
                ]);
          mem = ok.result_mem s t all;
        },
      )

  kept_skipped :
      (i : Instruction) (f : State V M → Exit × State V M) (live : Mask) (s t : State V M)
      → IsSound i f
      → execution_of i ≡ tri_false
      → Agree bits (transfer live_ret blocks i live) s t
      → Sim live (f s) (f t)
  unfolding Sim IsSound
  kept_skipped i f live s t (ok, reads) e h =
      rw (ok.skipped s e, ok.skipped t e)
        (refl, Agree-sub h (λ r l. rw e (or_left (live r) ((effects i).predicate_regs r) l)))

  kept_step :
      (i : Instruction) (f : State V M → Exit × State V M) (live : Mask) (s t : State V M)
      → IsSound i f
      → Agree bits (transfer live_ret blocks i live) s t
      → Sim live (f s) (f t)
  kept_step i f live s t ok h = elim (IsExecuted-cases (execution_of i)) [
    | inl k ↦ kept_executed i f live s t ok k h
    | inr e ↦ kept_skipped i f live s t ok e h
  ]

  -- A dead instruction changes nothing that is live.
  dead_step :
      (i : Instruction) (f : State V M → Exit × State V M) (live : Mask) (s : State V M)
      → IsSound i f
      → is_dead bits i live ≡ true
      → Sim live (f s) (goes_on, s)
  unfolding Sim IsSound
  dead_step i f live s (ok, reads) h =
      let e = effects i in
      let kept =
        equal_mask bits (sub_mask (sub_mask live e.written_regs) e.cond_written_regs) live in
      let rest = and_right (is_other i.flow) (not e.may_write_mem && kept) h in
      let plain = and_left (is_other i.flow) (not e.may_write_mem && kept) h in
      let exit : (f s).0 ≡ goes_on = elim (IsExecuted-cases (execution_of i)) [
        | inl k ↦ other_goes_on i.flow (f s).0 plain (ok.allowed s k)
        | inr skip ↦ ap (λ (o : Exit × State V M). o.0) (ok.skipped s skip)
      ] in
      let agree : Agree bits live (f s).1 s = record {
        reg = λ r le l.
            let w =
              unwritten (live r) (e.written_regs r) (e.cond_written_regs r)
                (equal_mask-bit bits _ live (and_right (not e.may_write_mem) kept rest) r le) l in
            ok.frame s r le w.0 w.1;
        mem = ok.frame_mem s (not-true e.may_write_mem (and_left (not e.may_write_mem) kept rest));
      } in
      (
        exit,
        subst (λ (x : Exit). Agree bits (live_at live_ret blocks live x) (f s).1 s) (sym exit)
            agree,
      )

  -- The same exit, and the same is live there, whatever comes behind.
  continue-Sim :
      (m live : Mask) (a b : Exit × State V M) (k l : State V M → Exit × State V M)
      → Sim m a b
      → ((s t : State V M) → Agree bits m s t → Sim live (k s) (l t))
      → Sim live (continue a k) (continue b l)
  unfolding Sim
  continue-Sim m live (goes_on, s) (y, t) k l (e, h) next = rw (← e) (next s t h)
  continue-Sim m live (returns, s) (y, t) k l (e, h) next = rw (← e) (refl, h)
  continue-Sim m live (leaves, s) (y, t) k l (e, h) next = rw (← e) (refl, h)
  continue-Sim m live (to_block b, s) (y, t) k l (e, h) next = rw (← e) (refl, h)

  -- Of each instruction of a block.
  unfoldable pub AllSound : Exec V M → List Instruction → Type 0
  AllSound exec [] = Unit
  AllSound exec (i ∷ is) = IsSound i (exec i) × AllSound exec is

  go_on : (live : Mask) (s t : State V M) → Agree bits live s t → Sim live (goes_on, s) (goes_on, t)
  unfolding Sim
  go_on live s t h = (refl, h)

  after_dead :
      (m live : Mask) (a b : Exit × State V M) (s t : State V M) (k : State V M → Exit × State V M)
      → Sim m a (goes_on, s)
      → Agree bits m s t
      → ((s' : State V M) → Agree bits m s' t → Sim live (k s') b)
      → Sim live (continue a k) b
  unfolding Sim
  after_dead m live (goes_on, s') b s t k (e, h) g next =
      next s' (record { reg = λ r le l. h.reg r le l ∙ g.reg r le l; mem = h.mem ∙ g.mem })
  after_dead m live (returns, s') b s t k (e, h) g next = cc
  after_dead m live (leaves, s') b s t k (e, h) g next = cc
  after_dead m live (to_block d, s') b s t k (e, h) g next = cc

  -- A block and what is left of it without the instructions that have no liveness data.
  pub run_block-Sim :
      (exec : Exec V M) (is : List Instruction) (live : Mask) (s t : State V M)
      → AllSound exec is
      → let r = process_instructions bits live_ret blocks is live in
        Agree bits r.1 s t → Sim live (run_block exec is s) (run_block exec (keep_live is r.0) t)
  unfolding process_instructions process_instruction keep_live run_block AllSound
  run_block-Sim exec [] live s t ok h = go_on live s t h
  run_block-Sim exec (i ∷ is) live s t (ok, oks) h =
      let r = process_instructions bits live_ret blocks is live in
      let k = run_block exec is in
      if_cases
        (λ (p : Option LivenessData × Mask).
          Agree bits p.1 s t
          → Sim live (continue (exec i s) k) (run_block exec (keep_live (i ∷ is) (p.0 ∷ r.0)) t))
        (is_dead bits i r.1)
        (λ dead h'.
          after_dead r.1 live (exec i s) _ s t k (dead_step i (exec i) r.1 s ok dead) h'
            (λ s' h''. run_block-Sim exec is live s' t oks h''))
        (λ kept h'.
          continue-Sim r.1 live (exec i s) (exec i t) k _ (kept_step i (exec i) r.1 s t ok h')
            (λ s' t' h''. run_block-Sim exec is live s' t' oks h''))
        h
