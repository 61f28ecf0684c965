-- ===== src/Encoder/Branch/Nops.antt =====
-- `arch_fill_with_nops` of src/x86/Encoder.cpp, which fills the bytes between constants and code.
use drob.Prelude.{
  ℕ, zero, suc, ◌+◌, ◌-◌, ◌==◌, ◌≤◌, ◌≡◌, refl, subst, arith, leb, some, List, [], ◌∷◌, ◌++◌, inl,
  inr, Bool-cases,
}
use drob.Encoder.Operand.{length}
use drob.Encoder.Length.{length-++}
use drob.Encoder.Decoder.{decode_operand, decode_rm, decode_sib, read_disp, read8, read32}
use drob.Encoder.Branch.{nops, nth, fill_with_nops, arch_fill_with_nops}
use drob.Encoder.Branch.Processor.{decode_nop_operand, decode_nop, Nops, done, next}

FillsExactly : ℕ → List ℕ → Type 0
FillsExactly size bytes = Nops bytes × (length bytes ≡ size)

-- The rows of a table fill 0, 1, 2 and so on bytes.
data Rows : ℕ → List (List ℕ) → Type 0 where
  last : {n : ℕ} → Rows n []
  row :
      {n : ℕ} {bytes : List ℕ} {rows : List (List ℕ)}
      → FillsExactly n bytes
      → Rows (suc n) rows
      → Rows n (bytes ∷ rows)

zero-ne-suc : {n : ℕ} → suc n ≤ 0 → ⊥
zero-ne-suc h = omega arith

row-FillsExactly :
    {n : ℕ} (size k : ℕ) {rows : List (List ℕ)}
    → Rows n rows
    → n + size ≡ k
    → suc size ≤ length rows
    → FillsExactly k (nth rows size)
row-FillsExactly size k last e h = elim (zero-ne-suc h) [ ]
row-FillsExactly zero k (row {bytes = bytes} first all) e h =
    subst (λ (i : ℕ). FillsExactly i bytes) (omega arith) first
row-FillsExactly (suc size) k (row first all) e h =
    row-FillsExactly size k all (omega arith) (omega arith)

nops-Rows : Rows 0 nops
unfolding FillsExactly decode_nop decode_nop_operand decode_operand decode_rm decode_sib read_disp
    read8 read32
nops-Rows = search (row, last, next, done, refl) depth 40

nine : (rest : List ℕ) → decode_nop (nth nops 9 ++ rest) ≡ some rest
unfolding decode_nop decode_nop_operand decode_operand decode_rm decode_sib read_disp read8 read32
nine rest = refl

fill-FillsExactly : (fuel size : ℕ) → size ≤ fuel → FillsExactly size (fill_with_nops fuel size)
unfolding fill_with_nops FillsExactly
fill-FillsExactly zero size h = (done, omega arith)
fill-FillsExactly (suc fuel) size h = elim (Bool-cases (size == 0)) [
  | inl e ↦ rw e (done, ground arith)
  | inr e ↦ elim (Bool-cases (leb size 9)) [
    | inl f ↦ rw (e, f) (row-FillsExactly size size nops-Rows (omega arith) (ground arith))
    | inr f ↦
        let (run, len) = fill-FillsExactly fuel (size - 9) (ground arith) in
        let rest = fill_with_nops fuel (size - 9) in
        let more : 9 ≤ size = ground arith in
        rw (e, f) (next (nine rest) run, omega (arith, len, more, length-++ (nth nops 9) rest))
  ]
]

-- Whatever the size: `arch_fill_with_nops` writes as many bytes, and a processor runs through all of
-- them as NOPs.
pub arch_fill_with_nops-Nops :
    (size : ℕ) → Nops (arch_fill_with_nops size) × (length (arch_fill_with_nops size) ≡ size)
unfolding arch_fill_with_nops FillsExactly
arch_fill_with_nops-Nops size = fill-FillsExactly size size (omega arith)
