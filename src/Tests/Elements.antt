-- ===== src/Tests/Elements.antt =====
-- The theorems on tracked bytes at concrete states.
use drob.Prelude.{ℕ, ◌*◌, ◌≤◌, ◌≡◌, refl, arith, Bool, true, false, some, ◌∷◌, inl, []}
use drob.Prelude.Bytes.{Bytes, load, store}
use drob.Value.{dead, unknown, tainted, immediate, usr, imm64, ptr_value}
use drob.Value.Laws.{Bases, Allows}
use drob.Elements.{State, set_elements, mark_unknown, write_elements}
use drob.Elements.Describe.{Describes, HeadsHaveTails, IsWellFormed}
use drob.Elements.Write.{set_elements-Describes}
use drob.Elements.Get.{get_elements}
use drob.Elements.Get.Sound.{get_elements-Allows}
use drob.Elements.Get.RoundTrip.{get_elements-set_elements}
use drob.Elements.Merge.{merge_elements}
use drob.Elements.Merge.Sound.{merge_elements-Describes}
use drob.Elements.Merge.Fixpoint.{merge_all, merge_all_bound}
use drob.Elements.Merge.Cycle.{merge_elements_never_settles, Uniform}
use drob.Tests.{flat, or_else}

abbrev base_table : Bases
base_table p nr = 4096 * nr

abbrev all : ℕ → Bytes
all byte _ = byte

unknown-HeadsHaveTails : HeadsHaveTails (flat 16 unknown 0)
unknown-HeadsHaveTails i k a b = absurd (ground arith)

unknown-Describes : Describes base_table (flat 16 unknown 0) (all 9)
unknown-Describes j h = (λ e. absurd (ground arith), λ p e. absurd (ground arith))

-- A user pointer written to 16 unknown bytes.
abbrev after_ptr : State
unfolding set_elements mark_unknown write_elements
after_ptr =
    or_else (flat 16 unknown 0) (set_elements (flat 16 unknown 0) 4 8 (ptr_value usr 3 20) false)

after_ptr_set : set_elements (flat 16 unknown 0) 4 8 (ptr_value usr 3 20) false ≡ some after_ptr
unfolding set_elements mark_unknown write_elements
after_ptr_set = refl

set_elements-Describes_example : Describes base_table after_ptr (store 8 4 12308 (all 9))
set_elements-Describes_example =
    set_elements-Describes base_table (flat 16 unknown 0) after_ptr (all 9) 4 8 12308
      (ptr_value usr 3 20) unknown-HeadsHaveTails unknown-Describes (omega arith) refl after_ptr_set

get_elements-set_elements_example : get_elements after_ptr 4 8 ≡ some (ptr_value usr 3 20)
get_elements-set_elements_example =
    get_elements-set_elements (flat 16 unknown 0) after_ptr 4 8 (ptr_value usr 3 20) after_ptr_set

immediate-HeadsHaveTails : HeadsHaveTails (flat 4 immediate 7)
immediate-HeadsHaveTails i k a b = absurd (ground arith)

immediate-IsWellFormed : IsWellFormed (flat 4 immediate 7)
immediate-IsWellFormed = record {
  heads = immediate-HeadsHaveTails;
  tails = λ j a b. absurd (ground arith);
}

immediate-Describes : Describes base_table (flat 4 immediate 7) (all 7)
immediate-Describes j h = (λ e. refl, λ p e. absurd (ground arith))

seven_read : get_elements (flat 4 immediate 7) 0 4 ≡ some (imm64 117901063)
unfolding get_elements load
seven_read = refl

get_elements-Allows_example : Allows base_table (imm64 117901063) (load 4 0 (all 7))
get_elements-Allows_example =
    get_elements-Allows base_table (flat 4 immediate 7) (all 7) 0 4 (imm64 117901063)
      immediate-IsWellFormed immediate-Describes (omega arith) seven_read

abbrev merged : State × Bool
unfolding merge_elements
merged =
    or_else (flat 4 immediate 7, false) (merge_elements (flat 4 immediate 7) (flat 4 immediate 8))

merged_is : merge_elements (flat 4 immediate 7) (flat 4 immediate 8) ≡ some merged
unfolding merge_elements
merged_is = refl

merge_elements-Describes_example : Describes base_table merged.0 (all 7)
merge_elements-Describes_example =
    merge_elements-Describes base_table (flat 4 immediate 7) (flat 4 immediate 8) merged (all 7)
      immediate-HeadsHaveTails merged_is (inl immediate-Describes)

abbrev settled : State × ℕ
unfolding merge_elements merge_all
settled =
    or_else (flat 1 immediate 7, 0)
      (merge_all (flat 1 immediate 7)
        (flat 1 immediate 8 ∷ flat 1 tainted 0 ∷ flat 1 unknown 0 ∷ []))

settled_is :
    merge_all (flat 1 immediate 7) (flat 1 immediate 8 ∷ flat 1 tainted 0 ∷ flat 1 unknown 0 ∷ [])
    ≡ some settled
unfolding merge_elements merge_all
settled_is = refl

merge_all_bound_example : settled.1 ≤ 2
merge_all_bound_example =
    merge_all_bound (flat 1 immediate 7)
      (flat 1 immediate 8 ∷ flat 1 tainted 0 ∷ flat 1 unknown 0 ∷ []) settled
      (
        λ j h e. absurd (ground arith),
        (λ j h e. absurd (ground arith), (λ j h e. absurd (ground arith), tt)),
      )
      settled_is

merge_elements_never_settles_example :
    (l₁ l₂ : State) × (merge_elements (flat 2 unknown 0) (flat 2 dead 0) ≡ some (l₁, false))
    × (merge_elements l₁ (flat 2 immediate 5) ≡ some (l₂, true))
    × (l₂.size ≡ 2)
    × Uniform unknown l₂
merge_elements_never_settles_example =
    merge_elements_never_settles (flat 2 unknown 0) (flat 2 dead 0) (flat 2 immediate 5)
      (omega arith) refl refl (λ j h. refl) (λ j h. refl) (λ j h. refl)
