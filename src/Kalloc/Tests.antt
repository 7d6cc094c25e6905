-- ===== src/Kalloc/Tests.antt =====
-- The blocks of memory/kalloc.c at a concrete heap.
use some_os.Prelude.{◌≡◌, refl, some, [], ◌∷◌, arith, add64, sub64}
use some_os.Allocator.{Allocator}
use some_os.Allocator.Chain.{IsChain}
use some_os.Kalloc.{Heap, kalloc}
use some_os.Kalloc.Blocks.{IsKalloced, kalloc-IsKalloced}

-- One allocator, with one free page.
abbrev small_buffer : Allocator
small_buffer = record {
  block_size = 8;
  min_backing_free = 0;
  first_free = record { start = 4096; size = 4096 } ∷ [];
  special_range_start = 0;
  special_range_end = 0;
}

abbrev heap : Heap
heap = record { allocators = small_buffer ∷ []; sizes = λ _. 0 }

heap-IsChain : IsChain heap.allocators
heap-IsChain = (omega arith, omega arith, omega arith, λ x c d. d, tt)

kalloc-IsKalloced_example : IsKalloced 20 heap (kalloc 20 heap)
kalloc-IsKalloced_example = kalloc-IsKalloced 20 heap heap-IsChain (omega arith) (omega arith)

kalloc_runs : (kalloc 20 heap).0 ≡ some 4104
unfolding kalloc add64 sub64
kalloc_runs = refl
