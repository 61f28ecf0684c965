-- ===== src/BinaryPool.antt =====
-- `BinaryPool` of src/BinaryPool.hpp and src/BinaryPool.cpp: the memory for generated code, which
-- grows upwards from the start of a reserved region, and for constants, which grow downwards from its
-- end. Whether the system maps a page at a fixed address is a parameter, and so is the filling with
-- NOPs. A pointer is its address.
pub mod Pages
pub mod Constants
use drob.Prelude.{
  ℕ, zero, suc, ◌+◌, ◌-◌, ◌*◌, ◌%◌, ◌==◌, if◌then◌else◌, Bool, true, false, not, Option, none, some,
  drob_assert, List, ◌∷◌, [], ◌>>=◌, ◌>>◌,
}
use drob.Prelude.Bytes.{Bytes, store}

abbrev pub page_size : ℕ
page_size = 4096

abbrev pub block_align : ℕ
block_align = 16

-- `ALIGN_DOWN` and `ALIGN_UP`, for a power of two.
abbrev pub align_down : ℕ → ℕ → ℕ
align_down val size = val - val % size

abbrev pub align_up : ℕ → ℕ → ℕ
align_up val size = align_down (val + size - 1) size

abbrev pub is_aligned : ℕ → ℕ → Bool
is_aligned val size = val % size == 0

-- `IS_POWER_OF_2` of a positive `int`: one of the 31 powers from `p` on.
pub power_from : ℕ → ℕ → ℕ → Bool
power_from zero p size = false
power_from (suc n) p size = let rest = power_from n (2 * p) size in if p == size then true else rest

-- The fields, and the bytes of the region.
pub record BinaryPool : Type 0 where
  pub mmap_start : ℕ
  pub mmap_size : ℕ
  pub cur_instr_page : ℕ
  pub next_instr : ℕ
  pub cur_const_page : ℕ
  pub next_const : ℕ
  pub map64 : List (ℕ × ℕ)
  pub map128 : List (ℕ × ℕ)
  pub memory : Bytes

-- `map.find`
pub find_constant : List (ℕ × ℕ) → ℕ → Option ℕ
find_constant [] val = none
find_constant ((key, addr) ∷ rest) val =
    let found = find_constant rest val in if key == val then some addr else found

-- The parameter: whether a page can be mapped at a fixed address.
module _ (mmap_fixed : ℕ → Bool) where
  -- `allocCode`: the address and the pool afterwards. The next page is sought one byte, and not one
  -- page, behind the current one.
  unfoldable pub alloc_code : BinaryPool → ℕ → Option (ℕ × BinaryPool)
  alloc_code p size =
      let tmp = p.cur_instr_page + 1 in
      let fresh = not (align_down (p.next_instr + size - 1) page_size == p.cur_instr_page) in
      if fresh
      then (do
        drob_assert (not (tmp == p.cur_const_page))
        drob_assert (mmap_fixed tmp)
        some (p.next_instr, record p { cur_instr_page = tmp; next_instr = p.next_instr + size }))
      else some (p.next_instr, record p { next_instr = p.next_instr + size })

  -- `allocConstant` of `size` bytes.
  unfoldable pub alloc_bytes : BinaryPool → ℕ → ℕ → Option (ℕ × BinaryPool)
  unfolding power_from
  alloc_bytes p val size =
      let current = align_down (p.next_const + 1 - size) size in
      let tmp = p.cur_const_page - 1 in
      let fresh = not (align_down current page_size == p.cur_const_page) in
      let p' = record p { memory = store size current val p.memory; next_const = current - 1 } in
      do
        drob_assert (power_from 31 1 size)
        if fresh
            then (do
              drob_assert (not (tmp == p.cur_instr_page))
              drob_assert (mmap_fixed tmp)
              some (current, record p' { cur_const_page = tmp }))
            else some (current, p')

  -- `allocConstant` of a 64-bit and of a 128-bit number.
  unfoldable pub alloc_constant64 : BinaryPool → ℕ → Option (ℕ × BinaryPool)
  unfolding find_constant
  alloc_constant64 p val = elim (find_constant p.map64 val) [
    | some addr ↦ some (addr, p)
    | none ↦ do r ← alloc_bytes p val 8; some (r.0, record r.1 { map64 = (val, r.0) ∷ r.1.map64 })
  ]

  unfoldable pub alloc_constant128 : BinaryPool → ℕ → Option (ℕ × BinaryPool)
  unfolding find_constant
  alloc_constant128 p val = elim (find_constant p.map128 val) [
    | some addr ↦ some (addr, p)
    | none ↦ do
      r ← alloc_bytes p val 16
      some (r.0, record r.1 { map128 = (val, r.0) ∷ r.1.map128 })
  ]

-- `newBlock`: the address of the block and the pool afterwards.
unfoldable pub new_block : (ℕ → ℕ → Bytes → Bytes) → BinaryPool → Bool → ℕ × BinaryPool
new_block fill_with_nops p write =
    let aligned = align_up p.next_instr block_align in
    let filled = fill_with_nops p.next_instr (aligned - p.next_instr) p.memory in
    if not (is_aligned p.next_instr block_align)
    then (aligned, record p { memory = if write then filled else p.memory; next_instr = aligned })
    else (p.next_instr, p)
