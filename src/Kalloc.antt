-- ===== src/Kalloc.antt =====
-- memory/kalloc.c: allocation of bytes, with the size of a block in a header before it.
-- `byte_allocator` is the first allocator of the list, `page_allocator` the next. `sizes` is the
-- memory of the headers: the `size` field of an `AllocatedMemory` at its address. Each function holds
-- `kalloc_lock`; what only a DEBUG build has is left out.
pub mod Blocks
mod Tests
use some_os.Prelude.{ℕ, Option, none, some, List, add64, sub64, ltb, ◌==◌, if◌then◌else◌}
use some_os.Allocator.{Allocator, round_up, minimum_free, alloc_memory, dealloc_memory}

pub record Heap : Type 0 where
  pub allocators : List Allocator
  pub sizes : ℕ → ℕ

-- sizeof(AllocatedMemory), and KALLOC_MEM_ALIGN
abbrev pub header_size : ℕ
header_size = 8

abbrev pub mem_align : ℕ
mem_align = 8

-- `kallocActualSizeFor`; `& -KALLOC_MEM_ALIGN` rounds down to a multiple.
unfoldable pub kalloc_actual_size_for : ℕ → ℕ
kalloc_actual_size_for user_size =
    let rounded = round_up mem_align (add64 user_size header_size) in
    if ltb rounded minimum_free then minimum_free else rounded

unfoldable pub set_size : ℕ → ℕ → (ℕ → ℕ) → ℕ → ℕ
set_size p n sizes i = if i == p then n else sizes i

abbrev pub with_header : ℕ → Option ℕ × List Allocator → Heap → Option ℕ × Heap
with_header actual_size (none, as') h = (none, record h { allocators = as' })
with_header actual_size (some p, as') h = (
  some (add64 p header_size),
  record { allocators = as'; sizes = set_size p actual_size h.sizes },
)

unfoldable pub kalloc : ℕ → Heap → Option ℕ × Heap
unfolding kalloc_actual_size_for alloc_memory set_size
kalloc size h =
    let actual_size = kalloc_actual_size_for size in
    if size == 0
    then (none, h)
    else with_header actual_size (alloc_memory actual_size h.allocators) h

unfoldable pub dealloc : Option ℕ → Heap → Heap
unfolding dealloc_memory
dealloc none h = h
dealloc (some ptr) h =
    let mem = sub64 ptr header_size in
    record h { allocators = dealloc_memory mem (h.sizes mem) h.allocators }

unfoldable pub kalloc_size : Option ℕ → Heap → ℕ
kalloc_size none h = 0
kalloc_size (some ptr) h = h.sizes (sub64 ptr header_size)
