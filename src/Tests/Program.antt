-- ===== src/Tests/Program.antt =====
-- The theorems on values, registers, the stack, predicates and memory ranges at concrete arguments.
use drob.Prelude.{
  subst, ℕ, ◌+◌, ◌*◌, ◌≤◌, ◌<◌, ◌≡◌, refl, arith, ◌==◌, if◌then◌else◌, Bool, true, false, not, ◌||◌,
  Option, none, some, List, ◌∷◌, [],
}
use drob.Prelude.Bytes.{load}
use drob.Value.{unknown, immediate, DynamicValue, imm64, is_imm, get_type, get_imm64}
use drob.Value.Laws.{Bases}
use drob.Elements.{State, set_elements, mark_unknown, write_elements}
use drob.Elements.Get.{get_elements}
use drob.Elements.Get.RoundTrip.{kept}
use drob.Registers.{
  Register, no_register, eax, rbx, ah, cf, zf, gprs64, full, full_zero_parent, h0, Place,
  get_register_data,
}
use drob.Stack.{StackState, neg, grow}
use drob.Stack.Grow.{grow_inside, IsTracked}
use drob.Program.{ProgramState, file_state, put_state, set_register, get_register}
use drob.Program.Registers.{get_register-set_register, get_register-set_other}
use drob.Predicate.{
  equal, no_conjunction, conj_and, ri, pred_b, pred_nb, pred_nbe, tri_false, tri_true, tri_unknown,
  will_execute, compare_sides, combine,
}
use drob.Predicate.Pairs.{holds}
use drob.Predicate.Sound.{Knows, will_execute-false, will_execute-true, will_execute_and_forgets}
use drob.MemProtCache.{MemoryRange, MemCfg, is_constant, is_configured_constant}
use drob.MemProtCache.Sound.{constant_at, is_constant-right}
use drob.MemProtCache.Returns.{Returns, is_constant-Returns}
use drob.Tests.{flat, or_else}

abbrev bases : Bases
bases p nr = 4096 * nr

abbrev parent_place : Place
parent_place = record { file = gprs64; nr = 0; byte_offset = 0; bytes = 8 }

ah_parent : get_register_data ah full_zero_parent ≡ some parent_place
unfolding get_register_data
ah_parent = refl

-- A stack of 8 elements around the pointer at the entry.
abbrev small_stack : StackState
small_stack = record { elements = flat 8 unknown 0; base = 4; is_dead = false }

grow_inside_example :
    let g = grow small_stack (neg 15) 8 in
    (g.base ≤ g.elements.size)
    × (g.is_dead ≡ false)
    × IsTracked g (neg 15) 8
    × ((i : ℕ)
        → i < 8
        → (j : ℕ) × (j + 4 ≡ i + g.base)
          × (j < g.elements.size)
          × (g.elements.bytes j ≡ small_stack.elements.bytes i)
          × (g.elements.metadata j ≡ small_stack.elements.metadata i))
grow_inside_example = grow_inside small_stack (neg 15) 8 refl (omega arith)

-- Flag 0, the carry, is known to be 0; the others are as `others` says.
abbrev start : State → ProgramState
start others = record {
  stack = small_stack;
  flags = λ nr. if nr == 0 then flat 1 immediate 0 else others;
  gprs = λ _. flat 8 unknown 0;
  vectors = λ _. flat 16 unknown 0;
}

abbrev known_flags : ProgramState
known_flags = start (flat 1 immediate 0)

abbrev after_eax : ProgramState
unfolding set_register get_register_data set_elements file_state mark_unknown write_elements
    put_state
after_eax = or_else known_flags (set_register known_flags eax full_zero_parent (imm64 5) false)

after_eax_set : set_register known_flags eax full_zero_parent (imm64 5) false ≡ some after_eax
unfolding set_register get_register_data set_elements file_state mark_unknown write_elements
    put_state
after_eax_set = refl

get_register-set_register_example :
    (p : Place) × (get_register_data eax full ≡ some p)
    × (get_register after_eax eax full ≡ some (kept p.bytes (imm64 5)))
get_register-set_register_example =
    get_register-set_register known_flags after_eax eax full_zero_parent (imm64 5) after_eax_set

abbrev place32 : ℕ → ℕ → Place
place32 nr bytes = record { file = gprs64; nr = nr; byte_offset = 0; bytes = bytes }

eax_place : get_register_data eax full ≡ some (place32 0 4)
unfolding get_register_data
eax_place = refl

rbx_place : get_register_data rbx full ≡ some (place32 1 8)
unfolding get_register_data
rbx_place = refl

get_register-set_other_example : get_register after_eax rbx h0 ≡ get_register known_flags rbx h0
get_register-set_other_example =
    get_register-set_other known_flags after_eax eax rbx full_zero_parent h0 (imm64 5) false
      (place32 0 4) (place32 1 8) eax_place rbx_place (λ e k. omega arith) after_eax_set

abbrev zeroes : Register → ℕ
zeroes _ = 0

abbrev reads_zero : Option DynamicValue → Bool
reads_zero none = true
reads_zero (some v) = not (is_imm (get_type v)) || get_imm64 v == 0

zero_table : (reg : Register) → reads_zero (get_register known_flags reg full) ≡ true
unfolding get_register get_register_data get_elements file_state load
zero_table no_register = refl
zero_table _ = refl

known_flags-Knows : Knows known_flags zeroes
known_flags-Knows reg v e i =
    let t : reads_zero (some v) ≡ true = subst (λ o. reads_zero o ≡ true) e (zero_table reg) in
    ground arith

b_false : will_execute (some (some pred_b)) known_flags ≡ some tri_false
unfolding will_execute combine get_register get_register_data get_elements file_state load
b_false = refl

will_execute-false_example : holds zeroes pred_b ≡ false
will_execute-false_example = will_execute-false known_flags zeroes pred_b known_flags-Knows b_false

nb_true : will_execute (some (some pred_nb)) known_flags ≡ some tri_true
unfolding will_execute combine get_register get_register_data get_elements file_state load
nb_true = refl

will_execute-true_example : holds zeroes pred_nb ≡ true
will_execute-true_example =
    will_execute-true known_flags zeroes pred_nb known_flags-Knows (λ e. absurd (ground arith), tt)
      nb_true

abbrev carry_only : ProgramState
carry_only = start (flat 1 unknown 0)

carry_known : compare_sides carry_only (ri cf equal 0 conj_and) ≡ some tri_true
unfolding compare_sides get_register get_register_data get_elements file_state load
carry_known = refl

zero_unknown : compare_sides carry_only (ri zf equal 0 no_conjunction) ≡ some tri_unknown
unfolding compare_sides get_register get_register_data get_elements file_state load
zero_unknown = refl

-- In a run where the zero flag is 1.
abbrev zero_set : Register → ℕ
zero_set zf = 1
zero_set _ = 0

will_execute_and_forgets_example :
    (will_execute (some (some pred_nbe)) carry_only ≡ some tri_true)
    × (holds zero_set pred_nbe ≡ false)
will_execute_and_forgets_example =
    will_execute_and_forgets carry_only (ri cf equal 0 conj_and) (ri zf equal 0 no_conjunction)
      zero_set refl refl carry_known zero_unknown refl

abbrev two_ranges : List MemoryRange
two_ranges =
    record { start = 4096; end = 8192; r = true; w = false; x = false }
    ∷ record { start = 8192; end = 12288; r = true; w = true; x = false }
    ∷ []

abbrev one_cfg : List MemCfg
one_cfg = record { start = 8184; size = 4104 } ∷ []

both_constant : is_constant two_ranges one_cfg 8188 8 ≡ some true
unfolding is_constant
both_constant = refl

is_constant-right_example : constant_at two_ranges one_cfg 8194 ≡ true
is_constant-right_example =
    is_constant-right two_ranges one_cfg 8188 8 8194 (omega arith) (omega arith) both_constant
      (omega arith) (omega arith)

cfg_constant : is_configured_constant one_cfg 8188 8 ≡ some true
unfolding is_configured_constant
cfg_constant = refl

is_constant-Returns_example : Returns (is_constant two_ranges one_cfg 8188 8)
is_constant-Returns_example =
    is_constant-Returns two_ranges one_cfg 8188 8 (omega arith) (omega arith)
