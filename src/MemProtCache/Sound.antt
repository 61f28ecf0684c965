-- ===== src/MemProtCache/Sound.antt =====
-- The answers of `isConstant` and `isConfiguredConstant` of src/MemProtCache.cpp are right.
use native.Mathlib.Decide.{dec_lt}
use drob.Prelude.{
  ℕ, zero, suc, ◌+◌, ◌%◌, ◌<◌, ◌≤◌, ◌≡◌, refl, arith, sym, ◌∙◌, ◌==◌, if◌then◌else◌, Bool, true,
  false, not, ◌&&◌, ◌||◌, ltb, Option, none, some, ◌>>=◌, ◌>>◌, drob_assert, List, ◌∷◌, Bool-cases,
  Option-cases, inl, inr, some-eq, none-ne-some, [],
}
use drob.Value.{u64}
use drob.MemProtCache.{
  MemoryRange, MemCfg, in_range, in_cfg, cfg_end, find_memory_range, find_cfg, configured_from,
  is_configured_constant, range_is_constant, constant_from, is_constant,
}

-- A configured range contains the address.
pub configured_at : List MemCfg → ℕ → Bool
configured_at [] a = false
configured_at (mem ∷ mems) a = in_cfg mem a || configured_at mems a

abbrev pub range_ok : List MemCfg → MemoryRange → ℕ → Bool
unfolding configured_at
range_ok mems range a = in_range range a && range.r && (not range.w || configured_at mems a)

-- A readable range contains the address and, if it is writable, a configured one does too.
pub constant_at : List MemoryRange → List MemCfg → ℕ → Bool
constant_at [] mems a = false
constant_at (range ∷ ranges) mems a = range_ok mems range a || constant_at ranges mems a

pub find_cfg-in_cfg :
    (mems : List MemCfg) (addr : ℕ) (mem : MemCfg)
    → find_cfg mems addr ≡ some mem
    → in_cfg mem addr ≡ true
unfolding find_cfg
find_cfg-in_cfg [] addr mem h = absurd (none-ne-some h)
find_cfg-in_cfg (m ∷ mems) addr mem h = elim (Bool-cases (in_cfg m addr)) [
  | inl e ↦ let k : some m ≡ some mem = sym (rw e) ∙ h in rw (← some-eq k) e
  | inr e ↦ find_cfg-in_cfg mems addr mem (sym (rw e) ∙ h)
]

or_true : (b : Bool) → (b || true) ≡ true
or_true b = ground arith

found_configured :
    (mems : List MemCfg) (addr a : ℕ) (mem : MemCfg)
    → find_cfg mems addr ≡ some mem
    → in_cfg mem a ≡ true
    → configured_at mems a ≡ true
unfolding find_cfg configured_at
found_configured [] addr a mem h k = absurd (none-ne-some h)
found_configured (m ∷ mems) addr a mem h k = elim (Bool-cases (in_cfg m addr)) [
  | inl e ↦ let q : some m ≡ some mem = sym (rw e) ∙ h in rw (some-eq q, k)
  | inr e ↦
      let ih = found_configured mems addr a mem (sym (rw e) ∙ h) k in rw ih (or_true (in_cfg m a))
]

pub find_memory_range-in_range :
    (ranges : List MemoryRange) (addr : ℕ) (range : MemoryRange)
    → find_memory_range ranges addr ≡ some range
    → in_range range addr ≡ true
unfolding find_memory_range
find_memory_range-in_range [] addr range h = absurd (none-ne-some h)
find_memory_range-in_range (m ∷ ranges) addr range h = elim (Bool-cases (in_range m addr)) [
  | inl e ↦ let k : some m ≡ some range = sym (rw e) ∙ h in rw (← some-eq k) e
  | inr e ↦ find_memory_range-in_range ranges addr range (sym (rw e) ∙ h)
]

found_constant :
    (ranges : List MemoryRange) (mems : List MemCfg) (addr a : ℕ) (range : MemoryRange)
    → find_memory_range ranges addr ≡ some range
    → range_ok mems range a ≡ true
    → constant_at ranges mems a ≡ true
unfolding find_memory_range constant_at
found_constant [] mems addr a range h k = absurd (none-ne-some h)
found_constant (m ∷ ranges) mems addr a range h k = elim (Bool-cases (in_range m addr)) [
  | inl e ↦ let q : some m ≡ some range = sym (rw e) ∙ h in rw (some-eq q, k)
  | inr e ↦
      let ih = found_constant ranges mems addr a range (sym (rw e) ∙ h) k in
      rw ih (or_true (range_ok mems m a))
]

pub ltb-true : (a b : ℕ) → a < b → ltb a b ≡ true
ltb-true a b h = ground arith

running :
    (addr end : ℕ) (o rest : Option Bool)
    → addr < end
    → (if ltb addr end then o else rest) ≡ some true
    → o ≡ some true
running addr end o rest lt h = ground arith

configured_from-right :
    (fuel : ℕ) (mems : List MemCfg) (addr end : ℕ)
    → configured_from fuel mems addr end ≡ some true
    → (a : ℕ) → addr ≤ a
    → a < end
    → configured_at mems a ≡ true
unfolding configured_from
configured_from-right zero mems addr end h a l r = ground arith
configured_from-right (suc fuel) mems addr end h a l r =
    let more = running addr end _ _ (omega arith) h in
    elim (Option-cases (find_cfg mems addr)) [
      | inl e ↦ let k : some false ≡ some true = sym (rw e) ∙ more in ground arith
      | inr (mem, e) ↦ elim (dec_lt a (cfg_end mem)) [
        | yes p ↦
            found_configured mems addr a mem e (ground (arith, find_cfg-in_cfg mems addr mem e))
        | no p ↦
            configured_from-right fuel mems (cfg_end mem) end (sym (rw e) ∙ more) a (omega arith) r
      ]
    ]

searched :
    (mems : List MemCfg) (o : Option Bool)
    → (elim mems [ [] ↦ some false | _ ∷ _ ↦ o ]) ≡ some true
    → o ≡ some true
searched [] o h = ground arith
searched (m ∷ mems) o h = h

-- The guards of both queries are passed.
guarded :
    (size addr end : ℕ) (o : Option Bool)
    → 0 < size
    → (if size == 0 then some true else (drob_assert (ltb addr end) >> o)) ≡ some true
    → (addr < end) × (o ≡ some true)
guarded size addr end o pos h = ground arith

passed :
    (o rest : Option Bool)
    → (o >>= λ ok. if ok then rest else some false) ≡ some true
    → (o ≡ some true) × (rest ≡ some true)
passed none rest h = absurd (none-ne-some h)
passed (some true) rest h = (refl, h)
passed (some false) rest h = ground arith

tested :
    (r w : Bool) (o : Option Bool)
    → (if not r then some false else if w then o else some true) ≡ some true
    → (r ≡ true) × (w ≡ true → o ≡ some true)
tested false w o h = ground arith
tested true true o h = (refl, λ e. h)
tested true false o h = (refl, λ e. ground arith)

-- If address and size are below 2 ^ 64 and `isConfiguredConstant` says yes, a configured range contains every address asked for.
pub is_configured_constant-right :
    (mems : List MemCfg) (addr size a : ℕ)
    → addr < u64
    → size < u64
    → is_configured_constant mems addr size ≡ some true
    → addr ≤ a
    → a < addr + size
    → configured_at mems a ≡ true
unfolding is_configured_constant
is_configured_constant-right mems addr size a la ls h l r =
    let end = (addr + size) % u64 in
    let (lt, h2) = guarded size addr end _ (omega arith) h in
    let same : addr + size ≡ (addr + size) % u64 = omega arith in
    configured_from-right size mems addr end (searched mems _ h2) a l (omega arith)

range_is_constant-right :
    (mems : List MemCfg) (range : MemoryRange) (addr size a : ℕ)
    → addr < u64
    → size < u64
    → range_is_constant mems range addr size ≡ some true
    → in_range range a ≡ true
    → addr ≤ a
    → a < addr + size
    → range_ok mems range a ≡ true
unfolding range_is_constant range_ok
range_is_constant-right mems range addr size a la ls h i l r =
    let (rd, f) = tested range.r range.w (is_configured_constant mems addr size) h in
    elim (Bool-cases range.w) [
      | inr e ↦ rw (i, rd, e)
      | inl e ↦ rw (i, rd, e) (is_configured_constant-right mems addr size a la ls (f e) l r)
    ]

constant_from-right :
    (fuel : ℕ) (ranges : List MemoryRange) (mems : List MemCfg) (addr end size : ℕ)
    → end < u64
    → size < u64
    → end ≤ addr + size
    → constant_from fuel ranges mems addr end size ≡ some true
    → (a : ℕ) → addr ≤ a
    → a < end
    → constant_at ranges mems a ≡ true
unfolding constant_from
constant_from-right zero ranges mems addr end size le ls s h a l r = ground arith
constant_from-right (suc fuel) ranges mems addr end size le ls s h a l r =
    let more = running addr end _ _ (omega arith) h in
    elim (Option-cases (find_memory_range ranges addr)) [
      | inl e ↦ let k : some false ≡ some true = sym (rw e) ∙ more in ground arith
      | inr (range, e) ↦
          let (p, q) =
            passed (range_is_constant mems range addr size)
              (constant_from fuel ranges mems range.end end size) (sym (rw e) ∙ more) in
          let i = find_memory_range-in_range ranges addr range e in
          elim (dec_lt a range.end) [
            | yes b ↦ found_constant ranges mems addr a range e (
                range_is_constant-right mems range addr size a (omega arith) ls p (ground arith) l
                  (omega arith))
            | no b ↦
                constant_from-right fuel ranges mems range.end end size le ls (ground arith) q a
                  (omega arith) r
          ]
    ]

-- If address and size are below 2 ^ 64 and `isConstant` says yes, every address asked for is in a
-- readable range, and in a configured one too unless that range is not writable.
pub is_constant-right :
    (ranges : List MemoryRange) (mems : List MemCfg) (addr size a : ℕ)
    → addr < u64
    → size < u64
    → is_constant ranges mems addr size ≡ some true
    → addr ≤ a
    → a < addr + size
    → constant_at ranges mems a ≡ true
unfolding is_constant
is_constant-right ranges mems addr size a la ls h l r =
    let end = (addr + size) % u64 in
    let (lt, h2) = guarded size addr end _ (omega arith) h in
    constant_from-right size ranges mems addr end size (omega arith) ls (omega arith) h2 a l
      (omega arith)
