-- ===== src/Allocator/Tests.antt =====
-- The allocators of memory/allocator.c at concrete free lists: bytes backed by pages.
use some_os.Prelude.{
  ℕ, ◌+◌, ◌≡◌, ◌⊎◌, ◌↔◌, ◌≤◌, ◌<◌, refl, some, List, [], ◌∷◌, arith, add64, sub64,
}
use some_os.Allocator.{
  Block, Place, Allocator, alloc_memory, dealloc_memory, try_freeing_old_memory, page_start_of,
  page_end_of, remaining, should_free,
}
use some_os.Allocator.Insert.{IsFreeFrom, Covers, total}
use some_os.Allocator.Chain.{IsChain, Allocated, alloc-Allocated}
use some_os.Allocator.Give.{dealloc-alone}

abbrev block : ℕ → ℕ → Block
block p n = record { start = p; size = n }

-- Eight pages and, with a gap, two more.
abbrev pages : Allocator
pages = record {
  block_size = 4096;
  min_backing_free = 0;
  first_free = block 0x10000 0x8000 ∷ block 0x20000 0x2000 ∷ [];
  special_range_start = 0;
  special_range_end = 0;
}

abbrev bytes : Allocator
bytes = record {
  block_size = 8;
  min_backing_free = 0x2000;
  first_free = block 0x40000 64 ∷ [];
  special_range_start = 0;
  special_range_end = 0;
}

abbrev heap : List Allocator
heap = bytes ∷ pages ∷ []

heap-IsChain : IsChain heap
heap-IsChain = (
  omega arith,
  omega arith,
  omega arith,
  λ x c d. ground arith,
  (omega arith, omega arith, omega arith, λ x c d. d, tt),
)

-- 100 bytes do not fit in the byte list: a page is taken from the pages and cut.
alloc-Allocated_example : Allocated heap 104 (alloc_memory 104 heap)
alloc-Allocated_example = alloc-Allocated 104 heap heap-IsChain (omega arith) (omega arith)

alloc_runs : alloc_memory 104 heap ≡ (
  some 0x10000,
  record bytes { first_free = block 0x10068 0xf98 ∷ block 0x40000 64 ∷ [] }
      ∷ record pages { first_free = block 0x11000 0x7000 ∷ block 0x20000 0x2000 ∷ [] }
      ∷ [],
)
unfolding alloc_memory add64 sub64
alloc_runs = refl

dealloc-alone_example :
    (free : List Block) × (dealloc_memory 0x18000 0x8000 (pages ∷ [])
      ≡ record pages { first_free = free } ∷ [])
    × IsFreeFrom 0 free
    × (total free ≡ 0x8000 + total pages.first_free)
    × ((x : ℕ)
        → Covers free x ↔ (((0x18000 ≤ x) × (x < 0x18000 + 0x8000)) ⊎ Covers pages.first_free x))
dealloc-alone_example =
    dealloc-alone 0x18000 0x8000 pages (omega arith) (omega arith) (omega arith) (omega arith)

-- The block between the two joins them.
dealloc_runs :
    dealloc_memory 0x18000 0x8000 (pages ∷ [])
    ≡ record pages { first_free = block 0x10000 0x12000 ∷ [] } ∷ []
unfolding dealloc_memory add64 sub64
dealloc_runs = refl

-- Sixteen pages and 16 bytes.
abbrev region : Place
region = record { before = []; here = block 0x10000 0x10010; after = [] }

region_freed :
    try_freeing_old_memory bytes 4096 region ≡ (block 0x1f000 0x1000 ∷ [], some (0x10000, 0xf000))
unfolding try_freeing_old_memory page_start_of page_end_of should_free remaining add64 sub64
region_freed = refl
