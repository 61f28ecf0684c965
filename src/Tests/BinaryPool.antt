-- ===== src/Tests/BinaryPool.antt =====
-- The theorems on the pool for generated code at concrete pools.
use drob.Prelude.{ℕ, ◌+◌, ◌≤◌, ◌<◌, ◌≡◌, ◌%◌, ◌==◌, refl, arith, Bool, true, none, some, []}
use drob.Prelude.Bytes.{Bytes, store}
use drob.BinaryPool.{BinaryPool, alloc_code, alloc_bytes, new_block}
use drob.BinaryPool.Pages.{
  CodeInPage, ConstantsInPage, MapsPages, alloc_code_full, alloc_code-CodeInPage,
  new_block-CodeInPage, alloc_bytes-ConstantsInPage,
}

-- Two pages from 8192 on, with `used` bytes of code.
abbrev pub two_pages : ℕ → BinaryPool
two_pages used = record {
  mmap_start = 8192;
  mmap_size = 8192;
  cur_instr_page = 8192;
  next_instr = 8192 + used;
  cur_const_page = 12288;
  next_const = 16383;
  map64 = [];
  map128 = [];
  memory = λ _. 0;
}

abbrev pub only_pages : ℕ → Bool
only_pages a = a % 4096 == 0

pub only_pages-MapsPages : MapsPages only_pages
only_pages-MapsPages a h = ground arith

code_in_page : (used : ℕ) → used ≤ 4096 → CodeInPage (two_pages used)
code_in_page used h = record { aligned = refl; above = omega arith; below = omega arith }

alloc_code_full_example : alloc_code only_pages (two_pages 4090) 7 ≡ none
alloc_code_full_example =
    alloc_code_full only_pages (two_pages 4090) 7 only_pages-MapsPages
      (code_in_page 4090 (omega arith)) (omega arith)

alloc_code-CodeInPage_example :
    (p' : BinaryPool) × (alloc_code only_pages (two_pages 4090) 6 ≡ some (12282, p'))
    × (p'.next_instr ≡ 12288)
    × (p'.cur_instr_page ≡ 8192)
    × CodeInPage p'
alloc_code-CodeInPage_example =
    alloc_code-CodeInPage only_pages (two_pages 4090) 6 (code_in_page 4090 (omega arith))
      (omega arith) (omega arith)

abbrev keep : ℕ → ℕ → Bytes → Bytes
keep start size memory = memory

new_block-CodeInPage_example :
    let r = new_block keep (two_pages 4090) true in
    (r.0 % 16 ≡ 0) × (r.1.next_instr ≡ r.0) × (12282 ≤ r.0) × (r.0 < 12298) × CodeInPage r.1
new_block-CodeInPage_example =
    new_block-CodeInPage keep (two_pages 4090) true (code_in_page 4090 (omega arith))

pub constants_in_page : ConstantsInPage (two_pages 0)
constants_in_page = record {
  aligned = refl;
  nonzero = omega arith;
  above = omega arith;
  below = omega arith;
}

abbrev with_constant : BinaryPool
with_constant = record (two_pages 0) { memory = store 8 16376 77 (λ _. 0); next_const = 16375 }

constant_allocated : alloc_bytes only_pages (two_pages 0) 77 8 ≡ some (16376, with_constant)
unfolding alloc_bytes
constant_allocated = refl

alloc_bytes-ConstantsInPage_example :
    (12288 ≤ 16376) × (16376 + 8 ≤ 16384) × (16375 + 1 ≡ 16376) × ConstantsInPage with_constant
alloc_bytes-ConstantsInPage_example =
    alloc_bytes-ConstantsInPage only_pages (two_pages 0) with_constant 77 8 16376
      only_pages-MapsPages constants_in_page (omega arith) constant_allocated
