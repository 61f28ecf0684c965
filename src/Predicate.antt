-- ===== src/Predicate.antt =====
-- When an instruction executes: `TriState` of src/Utils.hpp, the predicates of src/OpcodeInfo.hpp and
-- src/x86/Predicate.cpp, and `Instruction::willExecute` of src/Instruction.cpp.
pub mod Sound
pub mod Pairs
use drob.Prelude.{ℕ, ◌==◌, if◌then◌else◌, not, Option, none, some, List, ◌∷◌, [], ◌>>=◌}
use drob.Value.{get_type, is_imm, get_imm64}
use drob.Registers.{Register, cf, zf, sf, pf, of, ecx, rcx, full}
use drob.Program.{ProgramState, get_register}

-- `TriState`
pub data TriState : Type 0 where
  tri_false tri_true tri_unknown : TriState

-- `operator&=`: the value of the left side afterwards.
unfoldable pub tri_and : TriState → TriState → TriState
tri_and tri_true tri_true = tri_true
tri_and lhs tri_false = tri_false
tri_and tri_false rhs = tri_false
tri_and lhs rhs = lhs

-- `operator|=`: the value of the left side afterwards.
unfoldable pub tri_or : TriState → TriState → TriState
tri_or lhs tri_true = tri_true
tri_or tri_true rhs = tri_true
tri_or lhs tri_unknown = tri_unknown
tri_or tri_unknown rhs = tri_unknown
tri_or lhs rhs = lhs

-- `PredComparator`
pub data PredComparator : Type 0 where
  equal not_equal : PredComparator

-- `PredConjunction`
pub data PredConjunction : Type 0 where
  no_conjunction conj_and conj_or : PredConjunction

-- `PredComparand`
pub data PredComparand : Type 0 where
  reg_side : Register → PredComparand
  imm_side : ℕ → PredComparand

-- `PredComparison`
pub record PredComparison : Type 0 where
  pub lhs : PredComparand
  pub comp : PredComparator
  pub rhs : PredComparand
  pub con : PredConjunction

-- `Predicate`: the comparisons that are there.
abbrev pub Predicate : Type 0
Predicate = List PredComparison

-- The macros `RI` and `RR`, and the predicates that they define.
abbrev pub ri : Register → PredComparator → ℕ → PredConjunction → PredComparison
ri reg comp v con = record { lhs = reg_side reg; comp = comp; rhs = imm_side v; con = con }

abbrev pub rr : Register → PredComparator → Register → PredConjunction → PredComparison
rr reg comp reg2 con = record { lhs = reg_side reg; comp = comp; rhs = reg_side reg2; con = con }

abbrev pub pred_b : Predicate
pred_b = ri cf equal 1 no_conjunction ∷ []

abbrev pub pred_z : Predicate
pred_z = ri zf equal 1 no_conjunction ∷ []

abbrev pub pred_s : Predicate
pred_s = ri sf equal 1 no_conjunction ∷ []

abbrev pub pred_p : Predicate
pred_p = ri pf equal 1 no_conjunction ∷ []

abbrev pub pred_o : Predicate
pred_o = ri of equal 1 no_conjunction ∷ []

abbrev pub pred_nb : Predicate
pred_nb = ri cf equal 0 no_conjunction ∷ []

abbrev pub pred_nz : Predicate
pred_nz = ri zf equal 0 no_conjunction ∷ []

abbrev pub pred_ns : Predicate
pred_ns = ri sf equal 0 no_conjunction ∷ []

abbrev pub pred_np : Predicate
pred_np = ri pf equal 0 no_conjunction ∷ []

abbrev pub pred_no : Predicate
pred_no = ri of equal 0 no_conjunction ∷ []

abbrev pub pred_ecx0 : Predicate
pred_ecx0 = ri ecx equal 0 no_conjunction ∷ []

abbrev pub pred_rcx0 : Predicate
pred_rcx0 = ri rcx equal 0 no_conjunction ∷ []

abbrev pub pred_nl : Predicate
pred_nl = rr sf equal of no_conjunction ∷ []

abbrev pub pred_l : Predicate
pred_l = rr sf not_equal of no_conjunction ∷ []

abbrev pub pred_be : Predicate
pred_be = ri cf equal 1 conj_or ∷ ri zf equal 1 no_conjunction ∷ []

abbrev pub pred_le : Predicate
pred_le = ri zf equal 1 conj_or ∷ rr sf not_equal of no_conjunction ∷ []

abbrev pub pred_nbe : Predicate
pred_nbe = ri cf equal 0 conj_and ∷ ri zf equal 0 no_conjunction ∷ []

abbrev pub pred_nle : Predicate
pred_nle = ri zf equal 0 conj_and ∷ rr sf equal of no_conjunction ∷ []

-- What the state knows of a side: nothing, unless it is an immediate.
pub side_value : ProgramState → PredComparand → Option (Option ℕ)
side_value ps (imm_side v) = some (some v)
side_value ps (reg_side reg) = do
  data' ← get_register ps reg full
  some (if is_imm (get_type data') then some (get_imm64 data') else none)

abbrev pub compare_known : PredComparator → ℕ → ℕ → TriState
compare_known equal lhs rhs = if lhs == rhs then tri_true else tri_false
compare_known not_equal lhs rhs = if not (lhs == rhs) then tri_true else tri_false

abbrev pub compare_values : PredComparator → Option ℕ → Option ℕ → TriState
compare_values comp (some lhs) (some rhs) = compare_known comp lhs rhs
compare_values comp lhs rhs = tri_unknown

unfoldable pub compare_sides : ProgramState → PredComparison → Option TriState
unfolding side_value
compare_sides ps comp = do
  lhs ← side_value ps comp.lhs
  rhs ← side_value ps comp.rhs
  some (compare_values comp.comp lhs rhs)

unfoldable pub combine : PredConjunction → TriState → TriState → TriState
unfolding tri_and tri_or
combine no_conjunction result tmp = tmp
combine conj_and result tmp = tri_and result tmp
combine conj_or result tmp = tri_or result tmp

-- The loop. A last comparison that announces another one makes it read past the array, a fault.
pub will_execute_from :
    ProgramState → List PredComparison → PredConjunction → TriState → Option TriState
unfolding compare_sides
will_execute_from ps [] last_con result = none
will_execute_from ps (comp ∷ comps) last_con result = do
  tmp ← compare_sides ps comp
  let result' = combine last_con result tmp
  let rest = will_execute_from ps comps comp.con result'
  elim comp.con [ no_conjunction ↦ some result' | _ ↦ rest ]

-- `willExecute`; the first argument is the `opcodeInfo`, if there is one, with its predicate, if
-- there is one.
unfoldable pub will_execute : Option (Option Predicate) → ProgramState → Option TriState
unfolding will_execute_from
will_execute none ps = some tri_unknown
will_execute (some none) ps = some tri_true
will_execute (some (some p)) ps = will_execute_from ps p no_conjunction tri_unknown
