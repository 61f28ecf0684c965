-- ===== src/Predicate/Pairs.antt =====
-- The predicates of src/x86/Predicate.cpp on the values that the registers have in a run.
use drob.Prelude.{ℕ, ◌==◌, ◌≡◌, arith, ◌≤◌, Bool, false, not, ◌&&◌, ◌||◌, List, ◌∷◌, []}
use drob.Registers.{Register, cf, zf, sf, pf, of}
use drob.Predicate.{
  PredComparator, equal, not_equal, PredConjunction, no_conjunction, conj_and, conj_or,
  PredComparand, reg_side, imm_side, PredComparison, Predicate, pred_b, pred_z, pred_s, pred_p,
  pred_o, pred_nb, pred_nz, pred_ns, pred_np, pred_no, pred_nl, pred_l, pred_be, pred_le, pred_nbe,
  pred_nle,
}

abbrev pub side_run : (Register → ℕ) → PredComparand → ℕ
side_run run (reg_side reg) = run reg
side_run run (imm_side v) = v

abbrev pub compare_run : PredComparator → ℕ → ℕ → Bool
compare_run equal a b = a == b
compare_run not_equal a b = not (a == b)

abbrev pub holds_one : (Register → ℕ) → PredComparison → Bool
holds_one run c = compare_run c.comp (side_run run c.lhs) (side_run run c.rhs)

abbrev pub join : PredConjunction → Bool → Bool → Bool
join no_conjunction a b = b
join conj_and a b = a && b
join conj_or a b = a || b

abbrev pub holds_from : (Register → ℕ) → List PredComparison → PredConjunction → Bool → Bool
holds_from run [] con a = a
holds_from run (c ∷ cs) con a =
    let b = join con a (holds_one run c) in
    elim c.con [ no_conjunction ↦ b | _ ↦ holds_from run cs c.con b ]

-- Whether the instruction executes where the registers have the values of `run`.
abbrev pub holds : (Register → ℕ) → Predicate → Bool
holds run p = holds_from run p no_conjunction false

abbrev pub PairsHold : (Register → ℕ) → Type 0
PairsHold run =
    (holds run pred_nb ≡ not (holds run pred_b))
    × (holds run pred_nz ≡ not (holds run pred_z))
    × (holds run pred_ns ≡ not (holds run pred_s))
    × (holds run pred_np ≡ not (holds run pred_p))
    × (holds run pred_no ≡ not (holds run pred_o))
    × (holds run pred_nl ≡ not (holds run pred_l))
    × (holds run pred_nbe ≡ not (holds run pred_be))
    × (holds run pred_nle ≡ not (holds run pred_le))
    × (holds run pred_be ≡ (holds run pred_b || holds run pred_z))
    × (holds run pred_le ≡ (holds run pred_l || holds run pred_z))

-- The condition codes: where the five flags are bits, each predicate whose name starts with N holds
-- exactly if the one without it does not, and BE is B or Z, LE is L or Z.
pub predicate_pairs :
    (run : Register → ℕ)
    → run cf ≤ 1
    → run zf ≤ 1
    → run sf ≤ 1
    → run pf ≤ 1
    → run of ≤ 1
    → PairsHold run
predicate_pairs run a b c d e = (
  ground arith,
  ground arith,
  ground arith,
  ground arith,
  ground arith,
  ground arith,
  ground arith,
  ground arith,
  ground arith,
  ground arith,
)
