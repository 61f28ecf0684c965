-- ===== src/Elements/Write.antt =====
-- `setElements` of src/ProgramState.cpp is sound: what it records describes the run after the store.
use native.Mathlib.Decide.{dec_lt}
use drob.Prelude.{
  none-ne-some, ℕ, zero, suc, ◌+◌, ◌-◌, ◌%◌, ◌<◌, ◌≤◌, ◌≡◌, refl, ap, arith, ◌⊎◌, inl, inr, true,
  false, none, some, ◌==◌, >>=-eq-some, sym, ◌∙◌, drob_assert, Bool-cases, subst, ltb, leb, ◌&&◌,
  ◌≢◌,
}
use drob.Prelude.Bytes.{
  Bytes, update, store, load, store_outside, store_inside, load_congr, store_mod, load-store,
}
use drob.Value.{
  DynamicValueType, dead, unknown, tainted, immediate, is_ptr, DynamicValue, PtrType, dead_value,
  unknown_value, tainted_value, imm64, imm128, ptr_value, get_imm64, get_imm128, ptr_type, u64,
}
use drob.Value.Laws.{Bases, Allows}
use drob.Elements.{
  State, ElementMetadata, set_elements, mark_unknown, write_elements, set_ptr, set_imm, set_type,
  fill_type, tail_of, imm_size,
}
use drob.Elements.Weaken.{mark_unknown-Forgets}
use drob.Elements.Fill.{fill_type_outside, fill_type_inside, zero_bytes_outside}
use drob.Elements.Describe.{HeadsHaveTails, Describes, Forgets-Describes}
use drob.Elements.Mark.{mark_unknown_below}

-- No pointer that starts below `b` reaches to `b`.
abbrev pub FreeBelow : State → ℕ → Type 0
FreeBelow s b = (j : ℕ) → j < b → b < j + 8 → is_ptr (s.metadata j).type ≡ false

-- What `Describes` asks at one element.
abbrev pub DescribesAt : Bases → State → Bytes → ℕ → Type 0
DescribesAt base s c j =
    ((s.metadata j).type ≡ immediate → c j ≡ s.bytes j)
    × ((p : PtrType)
        → (s.metadata j).type ≡ ptr_type p
        → load 8 j c ≡ (base p (s.metadata j).nr + load 8 j s.bytes) % u64)

pub ptr_type-is_ptr : (p : PtrType) → is_ptr (ptr_type p) ≡ true
ptr_type-is_ptr p = ground arith

ptr_type-injective : (p q : PtrType) → ptr_type p ≡ ptr_type q → p ≡ q
ptr_type-injective p q h = ground arith

-- Outside the range both the record and the run are unchanged.
module _ (base : Bases) (s s' : State) (c : Bytes) (b n w : ℕ) (free : FreeBelow s b)
    (same : (i : ℕ) → (i < b) ⊎ (b + n ≤ i) → s'.bytes i ≡ s.bytes i) where
  apart :
      (j : ℕ)
      → (j < b) ⊎ (b + n ≤ j)
      → is_ptr (s.metadata j).type ≡ true
      → (i : ℕ) → j ≤ i
      → i < j + 8
      → (i < b) ⊎ (b + n ≤ i)
  apart j (inr q) h i x y = inr (omega arith)
  apart j (inl q) h i x y = elim (dec_lt b (j + 8)) [
    | yes r ↦ ground (arith, free j q r)
    | no r ↦ inl (omega arith)
  ]

  outside_range :
      (j : ℕ)
      → (j < b) ⊎ (b + n ≤ j)
      → s'.metadata j ≡ s.metadata j
      → DescribesAt base s c j
      → DescribesAt base s' (store n b w c) j
  outside_range j out meta (imm, ptr) =
      let ty = ap (λ (d : ElementMetadata). d.type) meta in
      (
        λ e. store_outside n b w j c out ∙ imm (sym ty ∙ e) ∙ sym (same j out),
        λ p e.
            let e' = sym ty ∙ e in
            let far = apart j out (ap is_ptr e' ∙ ptr_type-is_ptr p) in
            let l = load_congr 8 j _ _ (λ i x y. store_outside n b w i c (far i x y)) in
            let r = load_congr 8 j _ _ (λ i x y. same i (far i x y)) in rw (l, r, meta) (ptr p e'),
      )

Range-cases : (b n j : ℕ) → ((j < b) ⊎ (b + n ≤ j)) ⊎ ((b ≤ j) × (j < b + n))
Range-cases b n j = ground arith

abbrev pub imm_written : State → ℕ → ℕ → ℕ → State
imm_written s b n x = record s {
  metadata = fill_type n b immediate s.metadata;
  bytes = store n b x s.bytes;
}

abbrev pub ptr_written : State → ℕ → PtrType → ℕ → ℕ → State
ptr_written s b p nr offset = record s {
  metadata =
      fill_type (8 - 1) (suc b) (tail_of p)
        (update s.metadata b (record { type = ptr_type p; nr = nr % 256 }));
  bytes = store 8 b offset s.bytes;
}

-- The same number is recorded and stored, up to the width of the store.
module _ (base : Bases) (s : State) (c : Bytes) (b n w x : ℕ) (free : FreeBelow s b)
    (d : Describes base s c) (equal : (e : Bytes) → store n b w e ≡ store n b x e) where
  imm_range : Describes base (imm_written s b n x) (store n b w c)
  imm_range j h = elim (Range-cases b n j) [
    | inl out ↦
        outside_range base s (imm_written s b n x) c b n w free
          (λ i o. store_outside n b x i s.bytes o) j out
          (fill_type_outside n b j immediate s.metadata out) (d j h)
    | inr (lo, hi) ↦ (
      λ e. ap (λ (f : Bytes). f j) (equal c) ∙ store_inside n b x j c s.bytes lo hi,
      λ p e. ground (arith, fill_type_inside n b j immediate s.metadata lo hi),
    )
  ]

-- Nothing is recorded of the range.
module _ (base : Bases) (s : State) (c : Bytes) (b n w : ℕ) (t : DynamicValueType)
    (free : FreeBelow s b) (d : Describes base s c) (no_imm : t ≢ immediate)
    (no_ptr : is_ptr t ≡ false) where
  type_range : Describes base (set_type s b n t) (store n b w c)
  unfolding set_type
  type_range j h = elim (Range-cases b n j) [
    | inl out ↦
        outside_range base s (set_type s b n t) c b n w free
          (λ i o. zero_bytes_outside n b i s.bytes o) j out
          (fill_type_outside n b j t s.metadata out) (d j h)
    | inr (lo, hi) ↦ (
      λ e. absurd (no_imm (sym (fill_type_inside n b j t s.metadata lo hi) ∙ e)),
      λ p e. ground (arith, fill_type_inside n b j t s.metadata lo hi, ptr_type-is_ptr p),
    )
  ]

-- A pointer is recorded.
module _ (base : Bases) (s : State) (c : Bytes) (b w nr offset : ℕ) (p : PtrType)
    (free : FreeBelow s b) (d : Describes base s c) (fits : nr < 256)
    (value : w ≡ (base p nr + offset) % u64) where
  ptr_outside :
      (j : ℕ) → (j < b) ⊎ (b + 8 ≤ j) → (ptr_written s b p nr offset).metadata j ≡ s.metadata j
  ptr_outside j out = fill_type_outside 7 (suc b) j (tail_of p) _ (ground arith) ∙ ground arith

  ptr_head : (ptr_written s b p nr offset).metadata b ≡ record { type = ptr_type p; nr = nr % 256 }
  ptr_head = fill_type_outside 7 (suc b) b (tail_of p) _ (inl (omega arith)) ∙ ground arith

  ptr_tail :
      (j : ℕ) → b < j → j < b + 8 → ((ptr_written s b p nr offset).metadata j).type ≡ tail_of p
  ptr_tail j lo hi = fill_type_inside 7 (suc b) j (tail_of p) _ lo (omega arith)

  loads : load 8 b (store 8 b w c) ≡ (base p (nr % 256) + load 8 b (store 8 b offset s.bytes)) % u64
  loads =
      let n : nr % 256 ≡ nr = omega arith in
      let l : load 8 b (store 8 b w c) ≡ w % u64 = load-store 8 b w c in
      let r : load 8 b (store 8 b offset s.bytes) ≡ offset % u64 = load-store 8 b offset s.bytes in
      rw (n, l, r) (omega arith)

  ptr_at_head : DescribesAt base (ptr_written s b p nr offset) (store 8 b w c) b
  ptr_at_head =
      let ty = ap (λ (d : ElementMetadata). d.type) ptr_head in
      (
        λ e. ground (arith, ty, ptr_type-is_ptr p),
        λ q e. let same = ptr_type-injective q p (sym e ∙ ty) in rw (same, ptr_head) loads,
      )

  ptr_range : Describes base (ptr_written s b p nr offset) (store 8 b w c)
  ptr_range j h = elim (Range-cases b 8 j) [
    | inl out ↦
        outside_range base s (ptr_written s b p nr offset) c b 8 w free
          (λ i o. store_outside 8 b offset i s.bytes o) j out (ptr_outside j out) (d j h)
    | inr (lo, hi) ↦ elim (dec_lt b j) [
      | yes q ↦ ground (arith, ptr_tail j q hi)
      | no q ↦
          let e : b ≡ j = omega arith in
          subst (DescribesAt base (ptr_written s b p nr offset) (store 8 b w c)) e ptr_at_head
    ]
  ]

-- The number of a pointer fits its `uint8_t`.
abbrev pub FitsNr : DynamicValue → Type 0
FitsNr (ptr_value p nr offset) = nr < 256
FitsNr _ = Unit

Describes-some :
    (base : Bases) (c : Bytes) {s s' : State}
    → Describes base s c
    → some s ≡ some s'
    → Describes base s' c
Describes-some base c {s} {s'} d e = let q : s ≡ s' = cc in subst (λ u. Describes base u c) q d

module _ (base : Bases) (s s' : State) (c : Bytes) (b n w : ℕ) (free : FreeBelow s b)
    (d : Describes base s c) where
  set_imm-Describes :
      (v : DynamicValue)
      → w ≡ get_imm128 v
      → (imm_size n ≡ true → (e : Bytes) → store n b w e ≡ store n b (get_imm64 v) e)
      → set_imm s b n v ≡ some s'
      → Describes base s' (store n b w c)
  unfolding set_imm
  set_imm-Describes v e low h = elim (Bool-cases (imm_size n)) [
    | inl small ↦
        let q : set_imm s b n v ≡ some (imm_written s b n (get_imm64 v)) = rw small in
        Describes-some base (store n b w c)
          (imm_range base s c b n w (get_imm64 v) free d (low small)) (sym q ∙ h)
    | inr large ↦ elim (Bool-cases (n == 16)) [
      | inr other ↦
          let q : set_imm s b n v ≡ none = rw (large, other) in absurd (none-ne-some (sym q ∙ h))
      | inl wide ↦
          let k : 16 ≡ n = ground arith in
          let q : set_imm s b n v ≡ some (imm_written s b n (get_imm128 v)) =
            rw (large, wide)
              (ap
                (λ (m : ℕ). some (record s {
                  metadata = fill_type n b immediate s.metadata;
                  bytes = store m b (get_imm128 v) s.bytes;
                }))
                k) in
          Describes-some base (store n b w c)
            (imm_range base s c b n w (get_imm128 v) free d (λ x. ap (λ (t : ℕ). store n b t x) e))
            (sym q ∙ h)
    ]
  ]

  low_bytes :
      (v : ℕ) → w ≡ v → imm_size n ≡ true → (e : Bytes) → store n b w e ≡ store n b (v % u64) e
  low_bytes v p small e = ap (λ (t : ℕ). store n b t e) p ∙ sym (store_mod n 8 b v e (ground arith))

  -- The `switch` of `setElements` records what the store puts there.
  pub write_elements-Describes :
      (v : DynamicValue)
      → FitsNr v
      → Allows base v w
      → write_elements s b n v ≡ some s'
      → Describes base s' (store n b w c)
  unfolding write_elements set_ptr
  write_elements-Describes dead_value f a h =
      Describes-some base _ (type_range base s c b n w dead free d (λ e. cc) refl) h
  write_elements-Describes unknown_value f a h =
      Describes-some base _ (type_range base s c b n w unknown free d (λ e. cc) refl) h
  write_elements-Describes tainted_value f a h =
      Describes-some base _ (type_range base s c b n w tainted free d (λ e. cc) refl) h
  write_elements-Describes (imm64 v) f a h =
      set_imm-Describes (imm64 v) a (λ _ e. ap (λ (t : ℕ). store n b t e) a) h
  write_elements-Describes (imm128 v) f a h = set_imm-Describes (imm128 v) a (low_bytes v a) h
  write_elements-Describes (ptr_value p nr offset) f a h = elim (Bool-cases (n == 8)) [
    | inr other ↦
        let q : set_ptr s b n p nr offset ≡ none = rw other in absurd (none-ne-some (sym q ∙ h))
    | inl full ↦
        let k : n ≡ 8 = ground arith in
        let q : set_ptr s b n p nr offset ≡ some (ptr_written s b p nr offset) = rw k in
        rw k (
          Describes-some base (store 8 b w c) (ptr_range base s c b w nr offset p free d f a)
            (sym q ∙ h))
  ]

-- If a state whose pointers are complete describes the bytes of a run, a value allows a number, and
-- `setElements` with that value returns, then the new state describes the bytes after the number is
-- stored there. The number of a pointer must fit 8 bits.
pub set_elements-Describes :
    (base : Bases) (s s' : State) (c : Bytes) (b n w : ℕ) (v : DynamicValue)
    → HeadsHaveTails s
    → Describes base s c
    → FitsNr v
    → Allows base v w
    → set_elements s b n v false ≡ some s'
    → Describes base s' (store n b w c)
unfolding set_elements
set_elements-Describes base s s' c b zero w v wf d f a h = ground arith
set_elements-Describes base s s' c b (suc n) w v wf d f a h =
    let (_, inside, h1) = >>=-eq-some (drob_assert (ltb 0 (suc n) && leb (suc n + b) s.size)) _ h in
    let (t, marked, h2) = >>=-eq-some (mark_unknown s b (suc n)) _ h1 in
    let room : b < s.size = ground arith in
    let free : FreeBelow t b = λ j p q. mark_unknown_below s t b n j wf p q room marked in
    let known = Forgets-Describes base s t c (mark_unknown-Forgets s t b (suc n) marked) d in
    write_elements-Describes base t s' c b (suc n) w free known v f a h2
