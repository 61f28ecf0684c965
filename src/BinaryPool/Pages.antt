-- ===== src/BinaryPool/Pages.antt =====
-- Where the code and the constants of src/BinaryPool.cpp lie.
use drob.Prelude.{
  ℕ, ◌+◌, ◌-◌, ◌%◌, ◌<◌, ◌≤◌, ◌≡◌, arith, ◌==◌, if◌then◌else◌, Bool, true, false, not, Option, none,
  some, ◌>>◌, drob_assert, refl, Bool-cases, inl, inr, some-eq, none-ne-some, ap, ◌⊎◌,
}
use drob.Prelude.Bytes.{Bytes}
use drob.BinaryPool.{BinaryPool, align_down, is_aligned, alloc_code, alloc_bytes, new_block}

-- The next instruction is in the current page or at its end, and that page is aligned.
pub record CodeInPage (p : BinaryPool) : Type 0 where
  pub aligned : p.cur_instr_page % 4096 ≡ 0
  pub above : p.cur_instr_page ≤ p.next_instr
  pub below : p.next_instr ≤ p.cur_instr_page + 4096

-- The system maps at a fixed address only if that is the start of a page.
abbrev pub MapsPages : (ℕ → Bool) → Type 0
MapsPages mmap_fixed = (a : ℕ) → mmap_fixed a ≡ true → a % 4096 ≡ 0

refused : {A : Type 0} (b : Bool) (o : Option A) → o ≡ none → (drob_assert b >> o) ≡ none
refused true o h = h
refused false o h = refl

-- If the system maps only whole pages and the code is in its page, then `allocCode` throws for every
-- instruction that does not fit the rest of the page: the pool never gets a second page of code.
pub alloc_code_full :
    (mmap_fixed : ℕ → Bool) (p : BinaryPool) (size : ℕ)
    → MapsPages mmap_fixed
    → CodeInPage p
    → p.cur_instr_page + 4096 < p.next_instr + size
    → alloc_code mmap_fixed p size ≡ none
unfolding alloc_code
alloc_code_full mmap_fixed p size maps c over =
    let tmp = p.cur_instr_page + 1 in
    let f : (align_down (p.next_instr + size - 1) 4096 == p.cur_instr_page) ≡ false =
      ground (arith, c.aligned) in
    elim (Bool-cases (mmap_fixed tmp)) [
      | inl yes' ↦ absurd (omega (arith, maps tmp yes', c.aligned))
      | inr unmapped ↦ rw (f, unmapped) (refused (not (tmp == p.cur_const_page)) none refl)
    ]

-- If the code is in its page and an instruction of at least one byte fits the rest of it, `allocCode`
-- returns the next address, keeps the page, and the code is still in it.
pub alloc_code-CodeInPage :
    (mmap_fixed : ℕ → Bool) (p : BinaryPool) (size : ℕ)
    → CodeInPage p
    → 0 < size
    → p.next_instr + size ≤ p.cur_instr_page + 4096
    → (p' : BinaryPool) × (alloc_code mmap_fixed p size ≡ some (p.next_instr, p'))
      × (p'.next_instr ≡ p.next_instr + size)
      × (p'.cur_instr_page ≡ p.cur_instr_page)
      × CodeInPage p'
unfolding alloc_code
alloc_code-CodeInPage mmap_fixed p size c pos fits =
    let f : (align_down (p.next_instr + size - 1) 4096 == p.cur_instr_page) ≡ true =
      ground (arith, c.aligned, c.above) in
    let p' = record p { next_instr = p.next_instr + size } in
    (
      p',
      rw f,
      refl,
      refl,
      record { aligned = c.aligned; above = omega (arith, c.above); below = fits },
    )

-- `newBlock` starts a block at a multiple of 16, at most 15 bytes on, and keeps the code in its page.
pub new_block-CodeInPage :
    (fill : ℕ → ℕ → Bytes → Bytes) (p : BinaryPool) (write : Bool)
    → CodeInPage p
    → let r = new_block fill p write in
      (r.0 % 16 ≡ 0)
      × (r.1.next_instr ≡ r.0)
      × (p.next_instr ≤ r.0)
      × (r.0 < p.next_instr + 16)
      × CodeInPage r.1
unfolding new_block
new_block-CodeInPage fill p write c = elim (Bool-cases (is_aligned p.next_instr 16)) [
  | inl e ↦ rw e (ground arith, refl, omega arith, omega arith, c)
  | inr e ↦ rw e (
    omega arith,
    refl,
    omega arith,
    omega arith,
    record {
      aligned = c.aligned;
      above = omega (arith, c.above);
      below = omega (arith, c.below, c.aligned);
    },
  )
]

-- The place for the next constant ends in the current page or below its start, and that page is
-- aligned and not the first of all.
pub record ConstantsInPage (p : BinaryPool) : Type 0 where
  pub aligned : p.cur_const_page % 4096 ≡ 0
  pub nonzero : 0 < p.cur_const_page
  pub above : p.cur_const_page ≤ p.next_const + 1
  pub below : p.next_const + 1 ≤ p.cur_const_page + 4096

-- The two ways in which `allocConstant` returns.
pub allocated :
    (same size mapped free : Bool) (x y r : ℕ × BinaryPool)
    → (drob_assert size
        >> (if not same then drob_assert free >> (drob_assert mapped >> some x) else some y))
      ≡ some r
    → ((same ≡ false) × (mapped ≡ true)) ⊎ ((same ≡ true) × (y ≡ r))
allocated true true mapped free x y r h = inr (refl, some-eq h)
allocated false true true true x y r h = inl (refl, refl)
allocated false true false true x y r h = absurd (none-ne-some h)
allocated false true mapped false x y r h = absurd (none-ne-some h)
allocated same false mapped free x y r h = absurd (none-ne-some h)

-- If the system maps only whole pages, the constants are in their page and `allocConstant` of at
-- least one byte returns, then the constant lies in that page, below all earlier ones, and the
-- constants are still in their page.
pub alloc_bytes-ConstantsInPage :
    (mmap_fixed : ℕ → Bool) (p p' : BinaryPool) (val size addr : ℕ)
    → MapsPages mmap_fixed
    → ConstantsInPage p
    → 0 < size
    → alloc_bytes mmap_fixed p val size ≡ some (addr, p')
    → (p.cur_const_page ≤ addr)
      × (addr + size ≤ p.next_const + 1)
      × (p'.next_const + 1 ≡ addr)
      × ConstantsInPage p'
unfolding alloc_bytes
alloc_bytes-ConstantsInPage mmap_fixed p p' val size addr maps c pos h =
    let current = align_down (p.next_const + 1 - size) size in
    let tmp = p.cur_const_page - 1 in
    elim (allocated (align_down current 4096 == p.cur_const_page) _ (mmap_fixed tmp) _ _ _ _ h) [
      | inl (e, mapped) ↦ absurd (omega (arith, maps tmp mapped, c.aligned, c.nonzero))
      | inr (e, q) ↦
          let a : current ≡ addr = ap (λ (r : ℕ × BinaryPool). r.0) q in
          let n : current - 1 ≡ p'.next_const = ap (λ (r : ℕ × BinaryPool). r.1.next_const) q in
          let g : p.cur_const_page ≡ p'.cur_const_page =
            ap (λ (r : ℕ × BinaryPool). r.1.cur_const_page) q in
          let k : align_down current 4096 ≡ p.cur_const_page = ground arith in
          let lo : p.cur_const_page ≤ current = omega arith in
          let hi : current ≤ p.next_const + 1 - size = omega arith in
          let room : 0 < current = omega (arith, c.nonzero) in
          let fits : current + size ≤ p.next_const + 1 = omega arith in
          (
            omega arith,
            omega arith,
            omega arith,
            record {
              aligned = rw (← g) c.aligned;
              nonzero = rw (← g) c.nonzero;
              above = omega arith;
              below = omega (arith, c.below);
            },
          )
    ]
