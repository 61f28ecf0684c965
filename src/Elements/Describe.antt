-- ===== src/Elements/Describe.antt =====
-- What a `State` of src/ProgramState.hpp says of the bytes that a run has there, and the invariant
-- that a pointer takes 8 elements.
use drob.Prelude.{ℕ, ◌+◌, ◌%◌, ◌<◌, ◌≡◌, ap, arith, true}
use drob.Prelude.Bytes.{Bytes, load}
use drob.Value.{
  DynamicValueType, stack_ptr, stack_ptr_tail, tail, immediate, PtrType, ptr_type, u64, is_ptr,
}
use drob.Value.Laws.{Bases}
use drob.Elements.{State, is_tail}
use drob.Elements.Weaken.{Forgets}

-- The run's bytes `c` are among those that the state allows: an immediate byte is the one recorded,
-- and where a pointer starts, 8 bytes hold the pointer's base plus the recorded offset.
abbrev pub Describes : Bases → State → Bytes → Type 0
Describes base s c =
    (j : ℕ)
    → j < s.size
    → ((s.metadata j).type ≡ immediate → c j ≡ s.bytes j)
      × ((p : PtrType)
          → (s.metadata j).type ≡ ptr_type p
          → load 8 j c ≡ (base p (s.metadata j).nr + load 8 j s.bytes) % u64)

abbrev pub tail_for : DynamicValueType → DynamicValueType
tail_for stack_ptr = stack_ptr_tail
tail_for _ = tail

-- The 7 elements behind the start of a pointer are inside and are its tail.
abbrev pub HeadsHaveTails : State → Type 0
HeadsHaveTails s =
    (i k : ℕ)
    → i < s.size
    → is_ptr (s.metadata i).type ≡ true
    → 0 < k
    → k < 8
    → (i + k < s.size) × ((s.metadata (i + k)).type ≡ tail_for (s.metadata i).type)

-- A tail element lies at most 7 behind the start of a pointer.
abbrev pub TailsHaveHeads : State → Type 0
TailsHaveHeads s =
    (j : ℕ)
    → j < s.size
    → is_tail (s.metadata j).type ≡ true
    → (i : ℕ) × (i < j) × (j < i + 8) × (is_ptr (s.metadata i).type ≡ true)

pub record IsWellFormed (s : State) : Type 0 where
  pub heads : HeadsHaveTails s
  pub tails : TailsHaveHeads s

-- A state that has only forgotten types still describes the run.
pub Forgets-Describes :
    (base : Bases) (s s' : State) (c : Bytes)
    → Forgets s s'
    → Describes base s c
    → Describes base s' c
Forgets-Describes base s s' c (e, f, w) d j h =
    let (imm, ptr) = d j (rw (← e) h) in
    let g : s'.bytes j ≡ s.bytes j = ap (λ (b : Bytes). b j) f in
    let l : load 8 j s'.bytes ≡ load 8 j s.bytes = ap (λ (b : Bytes). load 8 j b) f in
    (ground (arith, w j), λ p q. ground (arith, w j, ptr p))
