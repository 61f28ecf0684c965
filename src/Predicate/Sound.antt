-- ===== src/Predicate/Sound.antt =====
-- What `Instruction::willExecute` of src/Instruction.cpp promises of a run, and where it does not.
use drob.Prelude.{
  ℕ, ◌≡◌, refl, arith, Bool, true, false, Option, none, some, List, ◌∷◌, >>=-eq-some, some-eq,
  none-ne-some, ◌≢◌, [],
}
use drob.Value.{DynamicValue, get_type, is_imm, get_imm64}
use drob.Registers.{Register, full}
use drob.Program.{ProgramState, get_register}
use drob.Predicate.{
  TriState, tri_false, tri_true, tri_unknown, tri_and, tri_or, PredComparator, PredConjunction,
  no_conjunction, conj_and, conj_or, PredComparand, reg_side, imm_side, PredComparison, Predicate,
  side_value, compare_values, compare_sides, combine, will_execute_from, will_execute,
}
use drob.Predicate.Pairs.{side_run, compare_run, holds_one, join, holds_from, holds}

-- The state's immediates are the values of the registers in the run.
abbrev pub Knows : ProgramState → (Register → ℕ) → Type 0
Knows ps run =
    (reg : Register) (v : DynamicValue)
    → get_register ps reg full ≡ some v
    → is_imm (get_type v) ≡ true
    → run reg ≡ get_imm64 v

-- A verdict on a test with the given outcome that does not claim the wrong outcome.
abbrev pub FalseIsRight : TriState → Bool → Type 0
FalseIsRight t b = t ≡ tri_false → b ≡ false

abbrev pub TrueIsRight : TriState → Bool → Type 0
TrueIsRight t b = t ≡ tri_true → b ≡ true

side_value-run :
    (ps : ProgramState) (run : Register → ℕ) (c : PredComparand) (o : Option ℕ) (a : ℕ)
    → Knows ps run
    → side_value ps c ≡ some o
    → o ≡ some a
    → side_run run c ≡ a
unfolding side_value
side_value-run ps run (imm_side v) o a k h e = ground arith
side_value-run ps run (reg_side reg) o a k h e =
    let (v, p, q) = >>=-eq-some (get_register ps reg full) _ h in let r = k reg v p in ground arith

compare_values-run :
    (comp : PredComparator) (lhs rhs : Option ℕ) (a b : ℕ)
    → ((x : ℕ) → lhs ≡ some x → a ≡ x)
    → ((x : ℕ) → rhs ≡ some x → b ≡ x)
    → FalseIsRight (compare_values comp lhs rhs) (compare_run comp a b)
      × TrueIsRight (compare_values comp lhs rhs) (compare_run comp a b)
compare_values-run comp (some l) (some r) a b f g =
    let p = f l refl in let q = g r refl in (ground arith, ground arith)
compare_values-run comp none r a b f g = (λ e. ground arith, λ e. ground arith)
compare_values-run comp (some l) none a b f g = (λ e. ground arith, λ e. ground arith)

compare_sides-run :
    (ps : ProgramState) (run : Register → ℕ) (c : PredComparison) (t : TriState)
    → Knows ps run
    → compare_sides ps c ≡ some t
    → FalseIsRight t (holds_one run c) × TrueIsRight t (holds_one run c)
unfolding compare_sides
compare_sides-run ps run c t k h =
    let (l, p, h') = >>=-eq-some (side_value ps c.lhs) _ h in
    let (r, q, h'') = >>=-eq-some (side_value ps c.rhs) _ h' in
    let both =
      compare_values-run c.comp l r (side_run run c.lhs) (side_run run c.rhs)
        (λ x. side_value-run ps run c.lhs l x k p) (λ x. side_value-run ps run c.rhs r x k q) in
    rw (← some-eq h'') both

combine_false :
    (con : PredConjunction) (t u : TriState) (a b : Bool)
    → FalseIsRight t a
    → FalseIsRight u b
    → FalseIsRight (combine con t u) (join con a b)
unfolding tri_and tri_or combine
combine_false con t u a b f g e = ground arith

combine_true :
    (con : PredConjunction) (t u : TriState) (a b : Bool)
    → con ≢ conj_and
    → TrueIsRight t a
    → TrueIsRight u b
    → TrueIsRight (combine con t u) (join con a b)
unfolding tri_and tri_or combine
combine_true con t u a b n f g e = ground arith

stop-false :
    (con : PredConjunction) (rest : Option TriState) (more : Bool) (t u : TriState) (a : Bool)
    → FalseIsRight t a
    → (rest ≡ some u → FalseIsRight u more)
    → (elim con [ no_conjunction ↦ some t | _ ↦ rest ]) ≡ some u
    → FalseIsRight u (elim con [ no_conjunction ↦ a | _ ↦ more ])
stop-false no_conjunction rest more t u a g r h = rw (← some-eq h) g
stop-false conj_and rest more t u a g r h = r h
stop-false conj_or rest more t u a g r h = r h

will_execute_from-false :
    (ps : ProgramState) (run : Register → ℕ) (cs : List PredComparison) (con : PredConjunction)
    (t u : TriState) (a : Bool)
    → Knows ps run
    → FalseIsRight t a
    → will_execute_from ps cs con t ≡ some u
    → FalseIsRight u (holds_from run cs con a)
unfolding will_execute_from combine
will_execute_from-false ps run [] con t u a k f h = absurd (none-ne-some h)
will_execute_from-false ps run (c ∷ cs) con t u a k f h =
    let (tmp, p, h') = >>=-eq-some (compare_sides ps c) _ h in
    let g = combine_false con t tmp a (holds_one run c) f (compare_sides-run ps run c tmp k p).0 in
    stop-false c.con _ _ (combine con t tmp) u (join con a (holds_one run c)) g
      (λ h''.
        will_execute_from-false ps run cs c.con (combine con t tmp) u (join con a (holds_one run c))
          k g h'')
      h'

-- No two comparisons are joined by `And`.
abbrev pub NoAnd : List PredComparison → Type 0
NoAnd [] = Unit
NoAnd (c ∷ cs) = (c.con ≢ conj_and) × NoAnd cs

stop-true :
    (con : PredConjunction) (rest : Option TriState) (more : Bool) (t u : TriState) (a : Bool)
    → TrueIsRight t a
    → (rest ≡ some u → TrueIsRight u more)
    → (elim con [ no_conjunction ↦ some t | _ ↦ rest ]) ≡ some u
    → TrueIsRight u (elim con [ no_conjunction ↦ a | _ ↦ more ])
stop-true no_conjunction rest more t u a g r h = rw (← some-eq h) g
stop-true conj_and rest more t u a g r h = r h
stop-true conj_or rest more t u a g r h = r h

will_execute_from-true :
    (ps : ProgramState) (run : Register → ℕ) (cs : List PredComparison) (con : PredConjunction)
    (t u : TriState) (a : Bool)
    → Knows ps run
    → con ≢ conj_and
    → NoAnd cs
    → TrueIsRight t a
    → will_execute_from ps cs con t ≡ some u
    → TrueIsRight u (holds_from run cs con a)
unfolding will_execute_from combine
will_execute_from-true ps run [] con t u a k n ns f h = absurd (none-ne-some h)
will_execute_from-true ps run (c ∷ cs) con t u a k n ns f h =
    let (tmp, p, h') = >>=-eq-some (compare_sides ps c) _ h in
    let g = combine_true con t tmp a (holds_one run c) n f (compare_sides-run ps run c tmp k p).1 in
    stop-true c.con _ _ (combine con t tmp) u (join con a (holds_one run c)) g
      (λ h''.
        will_execute_from-true ps run cs c.con (combine con t tmp) u (join con a (holds_one run c))
          k ns.0 ns.1 g h'')
      h'

-- If the state's immediates are the values of the registers and `willExecute` says `False`, then the
-- predicate does not hold.
pub will_execute-false :
    (ps : ProgramState) (run : Register → ℕ) (p : Predicate)
    → Knows ps run
    → will_execute (some (some p)) ps ≡ some tri_false
    → holds run p ≡ false
unfolding will_execute combine
will_execute-false ps run p k h =
    will_execute_from-false ps run p no_conjunction tri_unknown tri_false false k (λ e. refl) h refl

-- If the state's immediates are the values of the registers, no comparisons are joined by `And` and
-- `willExecute` says `True`, then the predicate holds.
pub will_execute-true :
    (ps : ProgramState) (run : Register → ℕ) (p : Predicate)
    → Knows ps run
    → NoAnd p
    → will_execute (some (some p)) ps ≡ some tri_true
    → holds run p ≡ true
unfolding will_execute combine
will_execute-true ps run p k n h =
    will_execute_from-true ps run p no_conjunction tri_unknown tri_true false k
      (λ e. absurd (ground arith)) n (λ e. absurd (ground arith)) h refl

-- With `And` the answer `True` is not right: if the first of two comparisons is known to hold and
-- nothing is known of the second, `willExecute` says `True`, while in a run where the first holds,
-- the predicate holds only if the second does.
pub will_execute_and_forgets :
    (ps : ProgramState) (c d : PredComparison) (run : Register → ℕ)
    → c.con ≡ conj_and
    → d.con ≡ no_conjunction
    → compare_sides ps c ≡ some tri_true
    → compare_sides ps d ≡ some tri_unknown
    → holds_one run c ≡ true
    → (will_execute (some (some (c ∷ d ∷ []))) ps ≡ some tri_true)
      × (holds run (c ∷ d ∷ []) ≡ holds_one run d)
unfolding will_execute will_execute_from tri_and combine
will_execute_and_forgets ps c d run e f g h k = (rw (g, e, h, f, e), ground arith)
