-- ===== src/Tests/Join.antt =====
-- The merge of two program states at concrete states.
use drob.Prelude.{ℕ, ◌≡◌, refl, arith, Bool, false, some, inl}
use drob.Prelude.Bytes.{Bytes}
use drob.Value.{unknown, immediate}
use drob.Value.Laws.{Bases}
use drob.Elements.Describe.{Describes}
use drob.Elements.Merge.{merge_elements}
use drob.Registers.{flag1}
use drob.Program.{ProgramState, file_state, put_state, merge, merge_file, merge_stacks}
use drob.Program.Join.{EitherDescribes, merge-Describes}
use drob.Stack.{grow}
use drob.Tests.{flat, or_else}

abbrev no_bases : Bases
no_bases p nr = 0

-- All flags are known to be `flag`.
abbrev flags_are : ℕ → ProgramState
flags_are flag = record {
  stack = record { elements = flat 2 unknown 0; base = 1; is_dead = false };
  flags = λ _. flat 1 immediate flag;
  gprs = λ _. flat 8 unknown 0;
  vectors = λ _. flat 16 unknown 0;
}

abbrev joined : ProgramState × ProgramState × Bool
unfolding merge merge_file merge_stacks merge_elements file_state put_state grow
joined = or_else (flags_are 0, flags_are 1, false) (merge (flags_are 0) (flags_are 1))

joined_is : merge (flags_are 0) (flags_are 1) ≡ some (joined.0, joined.1, joined.2)
unfolding merge merge_file merge_stacks merge_elements file_state put_state grow
joined_is = refl

abbrev zeros : Bytes
zeros _ = 0

either-EitherDescribes : EitherDescribes no_bases zeros (flags_are 0) (flags_are 1) flag1 3
unfolding file_state
either-EitherDescribes =
    (λ i k a b. absurd (ground arith), inl (λ j h. (λ e. refl, λ p e. absurd (ground arith))))

merge-Describes_example : Describes no_bases (file_state joined.0 flag1 3) zeros
merge-Describes_example =
    merge-Describes no_bases zeros (flags_are 0) (flags_are 1) joined.0 joined.1 joined.2 flag1 3
      (omega arith) either-EitherDescribes joined_is
