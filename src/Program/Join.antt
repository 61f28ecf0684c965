-- ===== src/Program/Join.antt =====
-- What `merge` of src/ProgramState.cpp keeps of the registers: an upper bound of both states.
use drob.Prelude.{
  ℕ, zero, suc, ◌+◌, ◌<◌, ◌≤◌, ◌≡◌, ◌≢◌, ◌⊎◌, arith, sym, ◌∙◌, subst, ap, Bool, false, ◌||◌, some,
  >>=-eq-some, some-eq,
}
use drob.Prelude.Bytes.{Bytes}
use drob.Value.Laws.{Bases}
use drob.Elements.{State}
use drob.Elements.Describe.{Describes, HeadsHaveTails}
use drob.Elements.Merge.{merge_elements}
use drob.Elements.Merge.Sound.{merge_elements-Describes}
use drob.Registers.{RegisterType, flag1, gprs64, sse128}
use drob.Registers.Places.{storage_count}
use drob.Stack.{StackState}
use drob.Program.{ProgramState, file_state, put_state, merge_file, merge_stacks, merge}
use drob.Program.Registers.{file_state-put_state}
use native.Mathlib.Decide.{dec_lt}

-- Two of the physical registers.
abbrev Other : RegisterType → ℕ → RegisterType → ℕ → Type 0
Other file nr file' nr' = file ≡ file' → nr ≢ nr'

abbrev pub HasStorage : RegisterType → Type 0
HasStorage flag1 = Unit
HasStorage gprs64 = Unit
HasStorage sse128 = Unit
HasStorage _ = ⊥

file_state-put_apart :
    (ps : ProgramState) (file file' : RegisterType) (nr nr' : ℕ) (s : State)
    → HasStorage file
    → HasStorage file'
    → Other file nr file' nr'
    → file_state (put_state ps file nr s) file' nr' ≡ file_state ps file' nr'
unfolding file_state put_state
file_state-put_apart ps file file' nr nr' s h k a = ground arith

-- The loop leaves the registers before its first one and those of another type as they are.
merge_file-outside :
    (n i : ℕ) (file file' : RegisterType) (nr : ℕ) (ps rhs : ProgramState) (diff : Bool)
    (m : ProgramState × Bool)
    → HasStorage file
    → HasStorage file'
    → (file ≡ file' → nr < i)
    → merge_file n i file ps rhs diff ≡ some m
    → file_state m.0 file' nr ≡ file_state ps file' nr
unfolding merge_file
merge_file-outside zero i file file' nr ps rhs diff m h k a e = rw (← some-eq e)
merge_file-outside (suc n) i file file' nr ps rhs diff m h k a e =
    let (p, _, f) =
      >>=-eq-some (merge_elements (file_state ps file i) (file_state rhs file i)) _ e in
    merge_file-outside n (suc i) file file' nr (put_state ps file i p.0) rhs (diff || p.1) m h k
      (λ x. omega (arith, a x)) f
    ∙ file_state-put_apart ps file file' i nr p.0 h k (λ x y. omega (arith, a x))

module _ (base : Bases) (c : Bytes) where
  -- One of the two states describes the bytes that a run has in the register.
  abbrev pub EitherDescribes : ProgramState → ProgramState → RegisterType → ℕ → Type 0
  EitherDescribes l r file nr =
      HeadsHaveTails (file_state l file nr)
      × (Describes base (file_state l file nr) c ⊎ Describes base (file_state r file nr) c)

  merge_file-Describes :
      (n i nr : ℕ) (file : RegisterType) (ps rhs : ProgramState) (diff : Bool)
      (m : ProgramState × Bool)
      → HasStorage file
      → i ≤ nr
      → nr < i + n
      → EitherDescribes ps rhs file nr
      → merge_file n i file ps rhs diff ≡ some m
      → Describes base (file_state m.0 file nr) c
  unfolding merge_file
  merge_file-Describes zero i nr file ps rhs diff m h lo hi d e = absurd (omega arith)
  merge_file-Describes (suc n) i nr file ps rhs diff m h lo hi d e =
      let (p, g, f) =
        >>=-eq-some (merge_elements (file_state ps file i) (file_state rhs file i)) _ e in
      elim (dec_lt i nr) [
        | yes lt ↦
            let same = file_state-put_apart ps file file i nr p.0 h h (λ _ y. omega arith) in
            merge_file-Describes n (suc i) nr file (put_state ps file i p.0) rhs (diff || p.1) m h
              lt (omega arith) (rw same d) f
        | no ge ↦
            let q : i ≡ nr = omega arith in
            let out =
              merge_file-outside n (suc i) file file nr (put_state ps file i p.0) rhs (diff || p.1)
                m h h (λ _. omega arith) f in
            let d' = subst (λ k. EitherDescribes ps rhs file k) (sym q) d in
            let put =
              subst (λ k. file_state (put_state ps file i p.0) file k ≡ p.0) q
                (file_state-put_state ps file i p.0) in
            rw (out, put)
              (merge_elements-Describes base (file_state ps file i) (file_state rhs file i) p c d'.0
                g d'.1)
      ]

file_state-stack :
    (ps ps' : ProgramState) (st : StackState) (file : RegisterType) (nr : ℕ)
    → record ps { stack = st } ≡ ps'
    → file_state ps' file nr ≡ file_state ps file nr
unfolding file_state
file_state-stack ps ps' st flag1 nr e = sym (ap (λ (x : ProgramState). x.flags nr) e)
file_state-stack ps ps' st gprs64 nr e = sym (ap (λ (x : ProgramState). x.gprs nr) e)
file_state-stack ps ps' st _ nr e = sym (ap (λ (x : ProgramState). x.vectors nr) e)

-- The three loops one after the other.
registers :
    (base : Bases) (c : Bytes) (ps rhs : ProgramState) (m1 m2 m3 : ProgramState × Bool)
    (file : RegisterType) (nr : ℕ)
    → nr < storage_count file
    → EitherDescribes base c ps rhs file nr
    → merge_file 6 0 flag1 ps rhs false ≡ some m1
    → merge_file 16 0 gprs64 m1.0 rhs m1.1 ≡ some m2
    → merge_file 16 0 sse128 m2.0 rhs m2.1 ≡ some m3
    → Describes base (file_state m3.0 file nr) c
registers base c ps rhs m1 m2 m3 flag1 nr room d e1 e2 e3 =
    rw
      (
        merge_file-outside 16 0 sse128 flag1 nr m2.0 rhs m2.1 m3 tt tt (λ x. absurd (ground arith))
            e3,
        merge_file-outside 16 0 gprs64 flag1 nr m1.0 rhs m1.1 m2 tt tt (λ x. absurd (ground arith))
            e2,
      )
      (merge_file-Describes base c 6 0 nr flag1 ps rhs false m1 tt (omega arith) room d e1)
registers base c ps rhs m1 m2 m3 gprs64 nr room d e1 e2 e3 =
    let before =
      merge_file-outside 6 0 flag1 gprs64 nr ps rhs false m1 tt tt (λ x. absurd (ground arith))
        e1 in
    rw
      (merge_file-outside 16 0 sse128 gprs64 nr m2.0 rhs m2.1 m3 tt tt (λ x. absurd (ground arith))
        e3)
      (merge_file-Describes base c 16 0 nr gprs64 m1.0 rhs m1.1 m2 tt (omega arith) room
        (rw before d) e2)
registers base c ps rhs m1 m2 m3 sse128 nr room d e1 e2 e3 =
    let before =
      merge_file-outside 6 0 flag1 sse128 nr ps rhs false m1 tt tt (λ x. absurd (ground arith))
        e1 in
    let middle =
      merge_file-outside 16 0 gprs64 sse128 nr m1.0 rhs m1.1 m2 tt tt (λ x. absurd (ground arith))
        e2 in
    merge_file-Describes base c 16 0 nr sse128 m2.0 rhs m2.1 m3 tt (omega arith) room
      (rw (middle, before) d) e3
registers base c ps rhs m1 m2 m3 _ nr room d e1 e2 e3 = absurd (omega arith)

-- If `merge` returns, the pointers of a register of the left state are complete and one of the two
-- states describes the bytes that a run has in that register, then the merged state describes them.
pub merge-Describes :
    (base : Bases) (c : Bytes) (ps rhs ps' rhs' : ProgramState) (diff : Bool) (file : RegisterType)
    (nr : ℕ)
    → nr < storage_count file
    → EitherDescribes base c ps rhs file nr
    → merge ps rhs ≡ some (ps', rhs', diff)
    → Describes base (file_state ps' file nr) c
unfolding merge
merge-Describes base c ps rhs ps' rhs' diff file nr room d e =
    let (m1, e1, r1) = >>=-eq-some (merge_file 6 0 flag1 ps rhs false) _ e in
    let (m2, e2, r2) = >>=-eq-some (merge_file 16 0 gprs64 m1.0 rhs m1.1) _ r1 in
    let (m3, e3, r3) = >>=-eq-some (merge_file 16 0 sse128 m2.0 rhs m2.1) _ r2 in
    let (st, _, r4) = >>=-eq-some (merge_stacks ps.stack rhs.stack) _ r3 in
    let last : file_state ps' file nr ≡ file_state m3.0 file nr =
      file_state-stack m3.0 ps' st.0 file nr
        (ap (λ (x : ProgramState × ProgramState × Bool). x.0) (some-eq r4)) in
    rw last (registers base c ps rhs m1 m2 m3 file nr room d e1 e2 e3)
