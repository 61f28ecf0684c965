-- ===== src/Elements/Get/Sound.antt =====
-- `getElements` of src/ProgramState.cpp is sound: the value that it returns allows what a run loads.
use native.Mathlib.Decide.{dec_lt}
use drob.Prelude.{
  none-ne-some, ℕ, zero, suc, ◌+◌, ◌-◌, ◌%◌, ◌<◌, ◌≤◌, ◌≡◌, refl, ap, arith, ◌⊎◌, inl, inr, Bool,
  true, false, none, some, ◌==◌, sym, ◌∙◌, Bool-cases, subst, if◌then◌else◌, ◌&&◌, ◌||◌, ◌≢◌,
}
use drob.Prelude.Bytes.{Bytes, load, load_congr}
use drob.Value.{
  DynamicValueType, dead, unknown, tainted, immediate, stack_ptr, usr_ptr, return_ptr, tail,
  stack_ptr_tail, DynamicValue, PtrType, stack, usr, ret, dead_value, unknown_value, tainted_value,
  imm64, imm128, ptr_type, u64, dynamic_value,
}
use drob.Value.Laws.{Bases, Allows}
use drob.Elements.{State, Metadata, is_tail, imm_size}
use drob.Elements.Describe.{tail_for, IsWellFormed, Describes}
use drob.Elements.Get.{
  Seen, nothing_seen, observe, look, mixed, judge, get_imm, get_ptr, get_elements, skip_after,
}

-- Only immediates were seen.
abbrev OnlyImm : Seen → Type 0
OnlyImm a =
    (a.has_dead ≡ false)
    × (a.has_ptr ≡ false)
    × (a.has_stack_ptr ≡ false)
    × (a.has_unknown ≡ false)
    × (a.has_tainted ≡ false)
    × (a.is_mixed ≡ false)

observe-OnlyImm :
    (t : DynamicValueType) (first : Bool) (a : Seen) → OnlyImm (observe t first a) → OnlyImm a
unfolding observe
observe-OnlyImm dead first a h = ground arith
observe-OnlyImm _ first a h = ground arith

-- A flag that is set stays set.
look-OnlyImm :
    (n skip i : ℕ) (first : Bool) (m : Metadata) (a : Seen)
    → OnlyImm (look n skip i first m a)
    → OnlyImm a
unfolding look
look-OnlyImm zero skip i first m a h = h
look-OnlyImm (suc n) (suc skip) i first m a h = look-OnlyImm n skip (suc i) false m a h
look-OnlyImm (suc n) zero i first m a h =
    observe-OnlyImm (m i).type first a
      (look-OnlyImm n (skip_after (m i).type) (suc i) false m (observe (m i).type first a) h)

observe-has_imm :
    (t : DynamicValueType) (first : Bool) (a : Seen)
    → a.has_imm ≡ true
    → (observe t first a).has_imm ≡ true
unfolding observe
observe-has_imm dead first a h = h
observe-has_imm _ first a h = ground arith

observe_only :
    (t : DynamicValueType) (first : Bool) (a : Seen)
    → OnlyImm (observe t first a)
    → (t ≡ immediate) ⊎ ((t ≡ tail) × (first ≡ false))
unfolding observe
observe_only dead first a h = ground arith
observe_only _ first a h = ground arith

tail_for-ne-immediate : (t : DynamicValueType) → tail_for t ≢ immediate
tail_for-ne-immediate t h = ground arith

module _ (s : State) (b : ℕ) (wf : IsWellFormed s) where
  -- A tail behind elements that are all immediate would have lost its pointer.
  no_tail :
      (p : ℕ)
      → b < p
      → p < s.size
      → ((j : ℕ) → b ≤ j → j < p → (s.metadata j).type ≡ immediate)
      → (s.metadata p).type ≢ tail
  no_tail p lo hi before e =
      let (i, below, near, head) = wf.tails p hi (ap is_tail e) in
      elim (dec_lt i b) [
        | no q ↦ ground (arith, before i (omega arith) below)
        | yes q ↦
            let k : i + (b - i) ≡ b = omega arith in
            let t = (wf.heads i (b - i) (omega arith) head (omega arith) (omega arith)).1 in
            let t' = subst (λ x. (s.metadata x).type ≡ tail_for (s.metadata i).type) k t in
            absurd (tail_for-ne-immediate _ (sym t' ∙ before b (omega arith) lo))
      ]

  all_imm :
      (n p : ℕ) (first : Bool) (a : Seen)
      → b ≤ p
      → (first ≡ false → b < p)
      → p + n ≤ s.size
      → ((j : ℕ) → b ≤ j → j < p → (s.metadata j).type ≡ immediate)
      → OnlyImm (look n 0 p first s.metadata a)
      → (j : ℕ) → b ≤ j
      → j < p + n
      → (s.metadata j).type ≡ immediate
  unfolding look
  all_imm zero p first a lo f room before h = λ j x y. before j x (omega arith)
  all_imm (suc n) p first a lo f room before h =
      let t = (s.metadata p).type in
      let o = look-OnlyImm n (skip_after t) (suc p) false s.metadata (observe t first a) h in
      let here : t ≡ immediate = elim (observe_only t first a o) [
        | inl e ↦ e
        | inr (e, g) ↦ absurd (no_tail p (f g) (omega arith) before e)
      ] in
      let h' =
        subst (λ (k : ℕ). OnlyImm (look n k (suc p) false s.metadata (observe t first a)))
          (ap skip_after here) h in
      let upto : (j : ℕ) → b ≤ j → j < suc p → (s.metadata j).type ≡ immediate = λ j x y.
        elim (dec_lt j p) [
          | yes q ↦ before j x q
          | no q ↦
              let e : p ≡ j = omega arith in subst (λ k. (s.metadata k).type ≡ immediate) e here
        ] in
      λ j x y.
        all_imm n (suc p) false (observe t first a) (omega arith) (λ _. omega arith) (omega arith)
          upto h' j x (omega arith)

plain-Allows :
    (base : Bases) (b : Bool) (v v' : DynamicValue) (w : ℕ)
    → Allows base v w
    → (if b then some v else none) ≡ some v'
    → Allows base v' w
plain-Allows base true v v' w h e = let q : v ≡ v' = cc in subst (λ u. Allows base u w) q h
plain-Allows base false v v' w h e = absurd (none-ne-some e)

-- What `dynamic_value` makes of a pointer type is that pointer.
dynamic_value-Allows :
    (base : Bases) (t : DynamicValueType) (nr offset w : ℕ) (v : DynamicValue)
    → ((p : PtrType) → t ≡ ptr_type p → w ≡ (base p nr + offset) % u64)
    → t ≢ immediate
    → dynamic_value t nr offset ≡ some v
    → Allows base v w
unfolding dynamic_value
dynamic_value-Allows base stack_ptr nr offset w v h i e =
    plain-Allows base true _ v w (h stack refl) e
dynamic_value-Allows base usr_ptr nr offset w v h i e = plain-Allows base true _ v w (h usr refl) e
dynamic_value-Allows base return_ptr nr offset w v h i e =
    plain-Allows base true _ v w (h ret refl) e
dynamic_value-Allows base dead nr offset w v h i e =
    plain-Allows base (nr == 0 && offset == 0) dead_value v w tt e
dynamic_value-Allows base unknown nr offset w v h i e =
    plain-Allows base (nr == 0 && offset == 0) unknown_value v w tt e
dynamic_value-Allows base tainted nr offset w v h i e =
    plain-Allows base (nr == 0 && offset == 0) tainted_value v w tt e
dynamic_value-Allows base immediate nr offset w v h i e = absurd (i refl)
dynamic_value-Allows base tail nr offset w v h i e = absurd (none-ne-some e)
dynamic_value-Allows base stack_ptr_tail nr offset w v h i e = absurd (none-ne-some e)

-- The values that allow every number.
abbrev IsOpaqueValue : DynamicValue → Type 0
IsOpaqueValue dead_value = Unit
IsOpaqueValue unknown_value = Unit
IsOpaqueValue tainted_value = Unit
IsOpaqueValue _ = ⊥

opaque-Allows : (base : Bases) (v : DynamicValue) (w : ℕ) → IsOpaqueValue v → Allows base v w
opaque-Allows base dead_value w h = tt
opaque-Allows base unknown_value w h = tt
opaque-Allows base tainted_value w h = tt
opaque-Allows base _ w h = absurd h

abbrev ReadsPtr : State → ℕ → ℕ → Seen → DynamicValue → Type 0
ReadsPtr s b n a v =
    (n ≡ 8) × (mixed a ≡ false) × ((a.has_ptr || a.has_stack_ptr) ≡ true) × (get_ptr s b ≡ some v)

abbrev ReadsImm : State → ℕ → ℕ → Seen → DynamicValue → Type 0
ReadsImm s b n a v = OnlyImm a × (get_imm s b n ≡ some v)

judge-cases :
    (s : State) (b n : ℕ) (a : Seen) (v : DynamicValue)
    → judge s b n a ≡ some v
    → IsOpaqueValue v ⊎ (ReadsPtr s b n a v ⊎ ReadsImm s b n a v)
unfolding judge
judge-cases s b n a v h = ground arith

look-has_imm :
    (n skip i : ℕ) (first : Bool) (m : Metadata) (a : Seen)
    → a.has_imm ≡ true
    → (look n skip i first m a).has_imm ≡ true
unfolding look observe
look-has_imm zero skip i first m a h = h
look-has_imm (suc n) (suc skip) i first m a h = look-has_imm n skip (suc i) false m a h
look-has_imm (suc n) zero i first m a h =
    look-has_imm n (skip_after (m i).type) (suc i) false m (observe (m i).type first a)
      (observe-has_imm (m i).type first a h)

module _ (base : Bases) (s : State) (c : Bytes) (b : ℕ) (d : Describes base s c) where
  get_imm-Allows :
      (n : ℕ) (v : DynamicValue)
      → ((j : ℕ) → b ≤ j → j < b + n → (s.metadata j).type ≡ immediate)
      → b + n ≤ s.size
      → get_imm s b n ≡ some v
      → Allows base v (load n b c)
  unfolding get_imm
  get_imm-Allows n v imm room h =
      let same : load n b c ≡ load n b s.bytes =
        load_congr n b c s.bytes (λ j x y. (d j (omega arith)).0 (imm j x y)) in
      elim (Bool-cases (imm_size n)) [
        | inl small ↦
            let q : get_imm s b n ≡ some (imm64 (load n b s.bytes)) = rw small in
            plain-Allows base true (imm64 (load n b s.bytes)) v _ same (sym q ∙ h)
        | inr large ↦ elim (Bool-cases (n == 16)) [
          | inr other ↦
              let q : get_imm s b n ≡ none = rw (large, other) in absurd (none-ne-some (sym q ∙ h))
          | inl wide ↦
              let k : 16 ≡ n = ground arith in
              let q : get_imm s b n ≡ some (imm128 (load n b s.bytes)) =
                rw (large, wide) (ap (λ (m : ℕ). some (imm128 (load m b s.bytes))) k) in
              plain-Allows base true (imm128 (load n b s.bytes)) v _ same (sym q ∙ h)
        ]
      ]

  get_ptr-Allows :
      (v : DynamicValue)
      → b < s.size
      → (s.metadata b).type ≢ immediate
      → get_ptr s b ≡ some v
      → Allows base v (load 8 b c)
  unfolding get_ptr
  get_ptr-Allows v room no_imm h =
      dynamic_value-Allows base _ (s.metadata b).nr (load 8 b s.bytes) (load 8 b c) v (d b room).1
        no_imm h

seen_imm : (observe immediate true nothing_seen).has_imm ≡ true
unfolding observe
seen_imm = refl

mixed_two :
    (a : Seen) → mixed a ≡ false → (a.has_ptr || a.has_stack_ptr) ≡ true → a.has_imm ≡ true → ⊥
mixed_two a m p i = ground arith

-- A range that starts with an immediate and holds a pointer is mixed.
first_no_imm :
    (s : State) (b n : ℕ)
    → let a = look (suc n) 0 b true s.metadata nothing_seen in
      mixed a ≡ false → (a.has_ptr || a.has_stack_ptr) ≡ true → (s.metadata b).type ≢ immediate
unfolding look
first_no_imm s b n m p e =
    let a = look (suc n) 0 b true s.metadata nothing_seen in
    let t = (s.metadata b).type in
    let o = observe t true nothing_seen in
    let i : o.has_imm ≡ true =
      ap (λ (u : DynamicValueType). (observe u true nothing_seen).has_imm) e ∙ seen_imm in
    let k : a.has_imm ≡ true = look-has_imm n (skip_after t) (suc b) false s.metadata o i in
    mixed_two a m p k

-- If a well-formed state describes the bytes of a run and `getElements` returns a value for `n`
-- elements inside the state, the value allows the number that the run loads there.
pub get_elements-Allows :
    (base : Bases) (s : State) (c : Bytes) (b n : ℕ) (v : DynamicValue)
    → IsWellFormed s
    → Describes base s c
    → b + n ≤ s.size
    → get_elements s b n ≡ some v
    → Allows base v (load n b c)
unfolding get_elements
get_elements-Allows base s c b n v wf d room h =
    let a = look n 0 b true s.metadata nothing_seen in
    elim (judge-cases s b n a v h) [
      | inl o ↦ opaque-Allows base v _ o
      | inr (inl (full, m, p, g)) ↦
          let no_imm =
            first_no_imm s b 7
              (subst (λ (k : ℕ). mixed (look k 0 b true s.metadata nothing_seen) ≡ false) full m)
              (subst
                (λ (k : ℕ).
                  let a' = look k 0 b true s.metadata nothing_seen in
                  (a'.has_ptr || a'.has_stack_ptr) ≡ true)
                full p) in
          rw full (get_ptr-Allows base s c b d v (omega arith) no_imm g)
      | inr (inr (o, g)) ↦
          get_imm-Allows base s c b d n v
            (all_imm s b wf n b true nothing_seen (omega arith) (λ e. cc) room
              (λ j x y. absurd (omega arith)) o)
            room g
    ]
