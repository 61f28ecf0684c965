-- ===== src/BinaryPool/Constants.antt =====
-- The constants of src/BinaryPool.cpp that were handed out before keep their values.
use drob.Prelude.{
  ℕ, ◌+◌, ◌-◌, ◌%◌, ◌^◌, ◌<◌, ◌≤◌, ◌≡◌, arith, ◌==◌, Bool, some, >>=-eq-some, refl, Bool-cases,
  Option-cases, inl, inr, some-eq, ap, List, [], ◌∷◌, ==_iff, ◌∙◌,
}
use drob.Prelude.Bytes.{Bytes, load, store, store_outside, load_congr, load-store}
use drob.BinaryPool.{BinaryPool, alloc_bytes, alloc_constant64, alloc_constant128, find_constant}
use drob.BinaryPool.Pages.{MapsPages, ConstantsInPage, alloc_bytes-ConstantsInPage}

-- The entries of a map of constants of `n` bytes: the memory holds each value, above the place for the
-- next constant.
abbrev pub Held : ℕ → Bytes → ℕ → List (ℕ × ℕ) → Type 0
Held n memory next [] = Unit
Held n memory next ((val, addr) ∷ rest) =
    (load n addr memory ≡ val % 256 ^ n) × (next < addr) × Held n memory next rest

pub record ConstantsHeld (p : BinaryPool) : Type 0 where
  pub in_page : ConstantsInPage p
  pub held64 : Held 8 p.memory p.next_const p.map64
  pub held128 : Held 16 p.memory p.next_const p.map128

-- A constant that is found is held.
find_constant-Held :
    (n : ℕ) (memory : Bytes) (next : ℕ) (l : List (ℕ × ℕ)) (val addr : ℕ)
    → Held n memory next l
    → find_constant l val ≡ some addr
    → load n addr memory ≡ val % 256 ^ n
unfolding find_constant
find_constant-Held n memory next [] val addr h e = cc
find_constant-Held n memory next ((key, a) ∷ rest) val addr h e = elim (Bool-cases (key == val)) [
  | inl same ↦
      let k : key ≡ val = (==_iff key val).0 same in
      let q : a ≡ addr = some-eq (rw same at e) in rw (← k, ← q) h.0
  | inr other ↦ find_constant-Held n memory next rest val addr h.2 (rw other at e)
]

-- A constant that is stored below all others leaves them.
Held-store :
    (n size addr val next : ℕ) (memory : Bytes) (l : List (ℕ × ℕ))
    → addr + size ≤ next + 1
    → 0 < addr
    → 0 < size
    → Held n memory next l
    → Held n (store size addr val memory) (addr - 1) l
Held-store n size addr val next memory [] fits pos some_bytes h = tt
Held-store n size addr val next memory ((key, a) ∷ rest) fits pos some_bytes h = (
  load_congr n a (store size addr val memory) memory
        (λ j p q. store_outside size addr val j memory (inr (omega (arith, h.1))))
      ∙ h.0,
  omega (arith, h.1),
  Held-store n size addr val next memory rest fits pos some_bytes h.2,
)

-- What `allocConstant` of a size does to the pool.
pub record Stored (p p' : BinaryPool) (val size addr : ℕ) : Type 0 where
  pub memory_is : p'.memory ≡ store size addr val p.memory
  pub map64_is : p'.map64 ≡ p.map64
  pub map128_is : p'.map128 ≡ p.map128

alloc_bytes-Stored :
    (mmap_fixed : ℕ → Bool) (p p' : BinaryPool) (val size addr : ℕ)
    → alloc_bytes mmap_fixed p val size ≡ some (addr, p')
    → Stored p p' val size addr
unfolding alloc_bytes
alloc_bytes-Stored mmap_fixed p p' val size addr h = ground arith

-- A new constant in a pool that holds its constants.
alloc_bytes-held :
    (mmap_fixed : ℕ → Bool) (p p' : BinaryPool) (val size addr : ℕ)
    → MapsPages mmap_fixed
    → ConstantsHeld p
    → 0 < size
    → alloc_bytes mmap_fixed p val size ≡ some (addr, p')
    → (load size addr p'.memory ≡ val % 256 ^ size) × (p'.next_const < addr) × ConstantsHeld p'
alloc_bytes-held mmap_fixed p p' val size addr maps c pos h =
    let (low, fits, next, page) =
      alloc_bytes-ConstantsInPage mmap_fixed p p' val size addr maps c.in_page pos h in
    let s = alloc_bytes-Stored mmap_fixed p p' val size addr h in
    let above : 0 < addr = omega (arith, next) in
    let n : p'.next_const ≡ addr - 1 = omega arith in
    (
      rw s.memory_is (load-store size addr val p.memory),
      omega arith,
      record {
        in_page = page;
        held64 =
            rw (s.memory_is, n, s.map64_is)
              (Held-store 8 size addr val p.next_const p.memory p.map64 fits above pos c.held64);
        held128 =
            rw (s.memory_is, n, s.map128_is)
              (Held-store 16 size addr val p.next_const p.memory p.map128 fits above pos c.held128);
      },
    )

-- The maps do not matter for where the constants lie.
other_maps :
    (p : BinaryPool) (m m' : List (ℕ × ℕ))
    → ConstantsInPage p
    → ConstantsInPage (record p { map64 = m; map128 = m' })
other_maps p m m' c = record {
  aligned = c.aligned;
  nonzero = c.nonzero;
  above = c.above;
  below = c.below;
}

module _ (mmap_fixed : ℕ → Bool) (p p' : BinaryPool) (val addr : ℕ) (maps : MapsPages mmap_fixed)
    (c : ConstantsHeld p) where
  -- If the system maps only whole pages, the pool holds its constants and `allocConstant` of a 64-bit
  -- number returns, then the address returned holds the number, and the pool still holds all constants.
  pub alloc_constant64-held :
      alloc_constant64 mmap_fixed p val ≡ some (addr, p')
      → (load 8 addr p'.memory ≡ val % 256 ^ 8) × ConstantsHeld p'
  unfolding alloc_constant64
  alloc_constant64-held h = elim (Option-cases (find_constant p.map64 val)) [
    | inl missing ↦
        let (r, a, k) =
          >>=-eq-some (alloc_bytes mmap_fixed p val 8) _ (rw (alloc_constant64, missing) at h) in
        let (l, n, held) = alloc_bytes-held mmap_fixed p r.1 val 8 r.0 maps c (omega arith) a in
        let at_addr = ap (λ (q : ℕ × BinaryPool). q.0) (some-eq k) in
        rw (← ap (λ (q : ℕ × BinaryPool). q.1) (some-eq k), ← at_addr)
          (
            l,
            record {
              in_page = other_maps r.1 ((val, r.0) ∷ r.1.map64) r.1.map128 held.in_page;
              held64 = (l, n, held.held64);
              held128 = held.held128;
            },
          )
    | inr (a, found) ↦
        let k = some-eq (rw (alloc_constant64, found) at h) in
        rw (← ap (λ (q : ℕ × BinaryPool). q.1) k, ← ap (λ (q : ℕ × BinaryPool). q.0) k)
          (find_constant-Held 8 p.memory p.next_const p.map64 val a c.held64 found, c)
  ]

  -- If the system maps only whole pages, the pool holds its constants and `allocConstant` of a 128-bit
  -- number returns, then the address returned holds the number, and the pool still holds all constants.
  pub alloc_constant128-held :
      alloc_constant128 mmap_fixed p val ≡ some (addr, p')
      → (load 16 addr p'.memory ≡ val % 256 ^ 16) × ConstantsHeld p'
  unfolding alloc_constant128
  alloc_constant128-held h = elim (Option-cases (find_constant p.map128 val)) [
    | inl missing ↦
        let (r, a, k) =
          >>=-eq-some (alloc_bytes mmap_fixed p val 16) _ (rw (alloc_constant128, missing) at h) in
        let (l, n, held) = alloc_bytes-held mmap_fixed p r.1 val 16 r.0 maps c (omega arith) a in
        let at_addr = ap (λ (q : ℕ × BinaryPool). q.0) (some-eq k) in
        rw (← ap (λ (q : ℕ × BinaryPool). q.1) (some-eq k), ← at_addr)
          (
            l,
            record {
              in_page = other_maps r.1 r.1.map64 ((val, r.0) ∷ r.1.map128) held.in_page;
              held64 = held.held64;
              held128 = (l, n, held.held128);
            },
          )
    | inr (a, found) ↦
        let k = some-eq (rw (alloc_constant128, found) at h) in
        rw (← ap (λ (q : ℕ × BinaryPool). q.1) k, ← ap (λ (q : ℕ × BinaryPool). q.0) k)
          (find_constant-Held 16 p.memory p.next_const p.map128 val a c.held128 found, c)
  ]

-- A constant that was just put into the pool is found there.
pub alloc_constant64-found :
    (mmap_fixed : ℕ → Bool) (p : BinaryPool) (val : ℕ) (r : ℕ × BinaryPool)
    → alloc_constant64 mmap_fixed p val ≡ some r
    → find_constant r.1.map64 val ≡ some r.0
unfolding alloc_constant64 find_constant
alloc_constant64-found mmap_fixed p val r h = elim (Option-cases (find_constant p.map64 val)) [
  | inl missing ↦
      let (q, _, k) =
        >>=-eq-some (alloc_bytes mmap_fixed p val 8) _ (rw (alloc_constant64, missing) at h) in
      rw (← some-eq k, (==_iff val val).1 refl) refl
  | inr (a, found) ↦ rw (← some-eq (rw (alloc_constant64, found) at h)) found
]
