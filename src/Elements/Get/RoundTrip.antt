-- ===== src/Elements/Get/RoundTrip.antt =====
-- `getElements` of src/ProgramState.cpp gives back what `setElements` has put there.
use drob.Prelude.{
  ℕ, zero, suc, ◌+◌, ◌%◌, ◌^◌, ◌<◌, ◌≤◌, ◌≡◌, refl, ap, arith, inl, inr, Bool, true, false, none,
  some, ◌==◌, >>=-eq-some, sym, ◌∙◌, drob_assert, Bool-cases, subst, if◌then◌else◌, ltb, leb, ◌&&◌,
  none-ne-some, some-eq,
}
use drob.Prelude.Bytes.{store, load, load-store}
use drob.Value.{
  DynamicValueType, dead, unknown, tainted, immediate, DynamicValue, PtrType, stack, usr, ret,
  dead_value, unknown_value, tainted_value, imm64, imm128, ptr_value, get_imm64, get_imm128,
  ptr_type, u64, dynamic_value,
}
use drob.Elements.{
  State, ElementMetadata, Metadata, set_elements, mark_unknown, write_elements, set_ptr, set_imm,
  set_type, fill_type, tail_of, imm_size,
}
use drob.Elements.Fill.{fill_type_outside, fill_type_inside}
use drob.Elements.Get.{
  Seen, nothing_seen, observe, look, judge, get_imm, get_ptr, get_elements, skip_after,
}
use drob.Elements.Write.{imm_written, ptr_written}

-- The types of which the first loop counts each element alone.
abbrev IsPlain : DynamicValueType → Type 0
IsPlain dead = Unit
IsPlain unknown = Unit
IsPlain tainted = Unit
IsPlain immediate = Unit
IsPlain _ = ⊥

observe_again :
    (t : DynamicValueType) (f g : Bool) (a : Seen)
    → IsPlain t
    → observe t f (observe t g a) ≡ observe t g a
unfolding observe
observe_again dead f g a h = refl
observe_again unknown f g a h = refl
observe_again tainted f g a h = refl
observe_again immediate f g a h = refl
observe_again _ f g a h = absurd h

plain-skip : (t : DynamicValueType) → IsPlain t → skip_after t ≡ 0
plain-skip t h = ground arith

-- The loop over elements of one plain type sets the flag of that type.
look_plain :
    (n i : ℕ) (first : Bool) (m : Metadata) (a : Seen) (t : DynamicValueType)
    → IsPlain t
    → ((j : ℕ) → i ≤ j → j < i + suc n → (m j).type ≡ t)
    → look (suc n) 0 i first m a ≡ observe t first a
unfolding look
look_plain zero i first m a t p h = ap (λ u. observe u first a) (h i (omega arith) (omega arith))
look_plain (suc n) i first m a t p h =
    let e = h i (omega arith) (omega arith) in
    let ih =
      look_plain n (suc i) false m (observe (m i).type first a) t p
        (λ j x y. h j (omega arith) (omega arith)) in
    let z : skip_after (m i).type ≡ 0 = ap skip_after e ∙ plain-skip t p in
    ap (λ k. look (suc n) k (suc i) false m (observe (m i).type first a)) z
    ∙ ih
    ∙ ap (λ u. observe t false (observe u first a)) e
    ∙ observe_again t false first a p

look_skipped :
    (n skip i : ℕ) (first : Bool) (m : Metadata) (a : Seen) → n ≤ skip → look n skip i first m a ≡ a
unfolding look
look_skipped zero skip i first m a h = refl
look_skipped (suc n) zero i first m a h = absurd (omega arith)
look_skipped (suc n) (suc skip) i first m a h = look_skipped n skip (suc i) false m a (omega arith)

-- What is left of a value that is written to `n` bytes.
abbrev pub kept : ℕ → DynamicValue → DynamicValue
kept n (ptr_value p nr offset) = ptr_value p (nr % 256) (offset % u64)
kept n (imm64 v) = if n == 16 then imm128 (v % 256 ^ 16) else imm64 (v % 256 ^ n)
kept n (imm128 v) = if n == 16 then imm128 (v % 256 ^ 16) else imm64 (v % u64 % 256 ^ n)
kept n v = v

get_plain :
    (s : State) (b n : ℕ) (t : DynamicValueType)
    → IsPlain t
    → ((j : ℕ) → b ≤ j → j < b + suc n → (s.metadata j).type ≡ t)
    → get_elements s b (suc n) ≡ judge s b (suc n) (observe t true nothing_seen)
unfolding get_elements
get_plain s b n t p h = ap (judge s b (suc n)) (look_plain n b true s.metadata nothing_seen t p h)

judge_type :
    (s : State) (b n : ℕ)
    → (judge s b n (observe dead true nothing_seen) ≡ some dead_value)
      × (judge s b n (observe unknown true nothing_seen) ≡ some unknown_value)
      × (judge s b n (observe tainted true nothing_seen) ≡ some tainted_value)
      × (judge s b n (observe immediate true nothing_seen) ≡ get_imm s b n)
unfolding judge observe
judge_type s b n = (refl, refl, refl, refl)

set_type-type :
    (s : State) (b n j : ℕ) (t : DynamicValueType)
    → b ≤ j
    → j < b + n
    → ((set_type s b n t).metadata j).type ≡ t
unfolding set_type
set_type-type s b n j t h k = fill_type_inside n b j t s.metadata h k

get-set_type :
    (s : State) (b n : ℕ) (t : DynamicValueType) (v : DynamicValue)
    → IsPlain t
    → ((u : State) → judge u b (suc n) (observe t true nothing_seen) ≡ some v)
    → get_elements (set_type s b (suc n) t) b (suc n) ≡ some v
get-set_type s b n t v p h =
    get_plain (set_type s b (suc n) t) b n t p (λ j x y. set_type-type s b (suc n) j t x y) ∙ h _

get-imm_written :
    (s : State) (b n x : ℕ)
    → get_elements (imm_written s b (suc n) x) b (suc n)
      ≡ get_imm (imm_written s b (suc n) x) b (suc n)
get-imm_written s b n x =
    get_plain (imm_written s b (suc n) x) b n immediate tt
      (λ j h k. fill_type_inside (suc n) b j immediate s.metadata h k)
    ∙ (judge_type (imm_written s b (suc n) x) b (suc n)).3

module _ (s : State) (b n x : ℕ) where
  get_imm_small : imm_size n ≡ true → get_imm (imm_written s b n x) b n ≡ some (imm64 (x % 256 ^ n))
  unfolding get_imm
  get_imm_small h = rw (h, load-store n b x s.bytes)

  get_imm_wide : n ≡ 16 → get_imm (imm_written s b n x) b n ≡ some (imm128 (x % 256 ^ 16))
  unfolding get_imm
  get_imm_wide h = rw (h, load-store 16 b x s.bytes)

ptr-skip : (p : PtrType) → 7 ≤ skip_after (ptr_type p)
ptr-skip p = ground arith

made :
    (p : PtrType) (nr offset : ℕ)
    → dynamic_value (ptr_type p) nr offset ≡ some (ptr_value p nr offset)
unfolding dynamic_value
made stack nr offset = refl
made usr nr offset = refl
made ret nr offset = refl

judge_ptr :
    (s : State) (b : ℕ) (p : PtrType)
    → judge s b 8 (observe (ptr_type p) true nothing_seen) ≡ get_ptr s b
unfolding judge observe
judge_ptr s b stack = refl
judge_ptr s b usr = refl
judge_ptr s b ret = refl

-- A pointer is read back with the number and the offset that were stored.
module _ (s : State) (b nr offset : ℕ) (p : PtrType) where
  head_type : (ptr_written s b p nr offset).metadata b ≡ record { type = ptr_type p; nr = nr % 256 }
  head_type = fill_type_outside 7 (suc b) b (tail_of p) _ (inl (omega arith)) ∙ ground arith

  look_ptr :
      look 8 0 b true (ptr_written s b p nr offset).metadata nothing_seen
      ≡ observe (ptr_type p) true nothing_seen
  unfolding look
  look_ptr =
      let m = (ptr_written s b p nr offset).metadata in
      let t = ap (λ (d : ElementMetadata). d.type) head_type in
      ap (λ u. look 7 (skip_after u) (suc b) false m (observe u true nothing_seen)) t
      ∙ look_skipped 7 (skip_after (ptr_type p)) (suc b) false m _ (ptr-skip p)

  get_ptr_written :
      get_ptr (ptr_written s b p nr offset) b ≡ some (ptr_value p (nr % 256) (offset % u64))
  unfolding get_ptr
  get_ptr_written =
      let l : load 8 b (store 8 b offset s.bytes) ≡ offset % u64 = load-store 8 b offset s.bytes in
      rw (head_type, l) (made p (nr % 256) (offset % u64))

  get-ptr_written :
      get_elements (ptr_written s b p nr offset) b 8 ≡ some (ptr_value p (nr % 256) (offset % u64))
  unfolding get_elements
  get-ptr_written =
      ap (judge (ptr_written s b p nr offset) b 8) look_ptr
      ∙ judge_ptr (ptr_written s b p nr offset) b p
      ∙ get_ptr_written

get-of-some :
    (b n : ℕ) (v : DynamicValue) (s s' : State)
    → get_elements s b n ≡ some v
    → some s ≡ some s'
    → get_elements s' b n ≡ some v
get-of-some b n v s s' h e = subst (λ u. get_elements u b n ≡ some v) (some-eq e) h

module _ (s s' : State) (b n : ℕ) where
  get-set_imm :
      (v : DynamicValue) (x : DynamicValue)
      → (imm_size (suc n) ≡ true → x ≡ imm64 (get_imm64 v % 256 ^ suc n))
      → ((suc n == 16) ≡ true → x ≡ imm128 (get_imm128 v % 256 ^ 16))
      → set_imm s b (suc n) v ≡ some s'
      → get_elements s' b (suc n) ≡ some x
  unfolding set_imm
  get-set_imm v x p q h = elim (Bool-cases (imm_size (suc n))) [
    | inl small ↦
        let e : set_imm s b (suc n) v ≡ some (imm_written s b (suc n) (get_imm64 v)) = rw small in
        get-of-some b (suc n) x _ s'
          (get-imm_written s b n (get_imm64 v)
            ∙ get_imm_small s b (suc n) (get_imm64 v) small
            ∙ ap some (sym (p small)))
          (sym e ∙ h)
    | inr large ↦ elim (Bool-cases (suc n == 16)) [
      | inr other ↦
          let e : set_imm s b (suc n) v ≡ none = rw (large, other) in
          absurd (none-ne-some (sym e ∙ h))
      | inl wide ↦
          let k : suc n ≡ 16 = ground arith in
          let e : set_imm s b (suc n) v ≡ some (imm_written s b (suc n) (get_imm128 v)) =
            rw (large, wide)
              (ap
                (λ (m : ℕ). some (record s {
                  metadata = fill_type (suc n) b immediate s.metadata;
                  bytes = store m b (get_imm128 v) s.bytes;
                }))
                (sym k)) in
          get-of-some b (suc n) x _ s'
            (get-imm_written s b n (get_imm128 v)
              ∙ get_imm_wide s b (suc n) (get_imm128 v) k
              ∙ ap some (sym (q wide)))
            (sym e ∙ h)
    ]
  ]

  small-no_wide : imm_size (suc n) ≡ true → (suc n == 16) ≡ false
  small-no_wide h = ground arith

  get-write_elements :
      (v : DynamicValue)
      → write_elements s b (suc n) v ≡ some s'
      → get_elements s' b (suc n) ≡ some (kept (suc n) v)
  unfolding write_elements set_ptr
  get-write_elements dead_value h =
      get-of-some b (suc n) dead_value _ s'
        (get-set_type s b n dead dead_value tt (λ u. (judge_type u b (suc n)).0)) h
  get-write_elements unknown_value h =
      get-of-some b (suc n) unknown_value _ s'
        (get-set_type s b n unknown unknown_value tt (λ u. (judge_type u b (suc n)).1)) h
  get-write_elements tainted_value h =
      get-of-some b (suc n) tainted_value _ s'
        (get-set_type s b n tainted tainted_value tt (λ u. (judge_type u b (suc n)).2)) h
  get-write_elements (imm64 v) h =
      get-set_imm (imm64 v) (kept (suc n) (imm64 v)) (λ e. rw (small-no_wide e)) (λ e. rw e) h
  get-write_elements (imm128 v) h =
      get-set_imm (imm128 v) (kept (suc n) (imm128 v)) (λ e. rw (small-no_wide e)) (λ e. rw e) h
  get-write_elements (ptr_value p nr offset) h = elim (Bool-cases (suc n == 8)) [
    | inr other ↦
        let q : set_ptr s b (suc n) p nr offset ≡ none = rw other in
        absurd (none-ne-some (sym q ∙ h))
    | inl full ↦
        let k : suc n ≡ 8 = ground arith in
        let q : set_ptr s b (suc n) p nr offset ≡ some (ptr_written s b p nr offset) = rw k in
        rw k (get-of-some b 8 _ _ s' (get-ptr_written s b nr offset p) (sym q ∙ h))
  ]

-- If `setElements` returns, `getElements` of the same range gives the value back: an immediate
-- modulo 2 ^ 8 for each byte of the range, a pointer with its number modulo 2 ^ 8 and its offset
-- modulo 2 ^ 64, and a dead, unknown or tainted value itself.
pub get_elements-set_elements :
    (s s' : State) (b n : ℕ) (v : DynamicValue)
    → set_elements s b n v false ≡ some s'
    → get_elements s' b n ≡ some (kept n v)
unfolding set_elements
get_elements-set_elements s s' b zero v h = ground arith
get_elements-set_elements s s' b (suc n) v h =
    let (_, inside, h1) = >>=-eq-some (drob_assert (ltb 0 (suc n) && leb (suc n + b) s.size)) _ h in
    let (t, marked, h2) = >>=-eq-some (mark_unknown s b (suc n)) _ h1 in
    get-write_elements t s' b n v h2
