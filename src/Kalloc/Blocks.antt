-- ===== src/Kalloc/Blocks.antt =====
-- The blocks that `kalloc` gives out.
use some_os.Prelude.{
  ℕ, ◌+◌, ◌-◌, ◌*◌, ◌^◌, ◌≤◌, ◌<◌, ◌≡◌, refl, ap, ◌∙◌, false, Option, none, some, List, length,
  arith, ◌==◌, add64, sub64, add64-eq, sub64-eq,
}
use some_os.Allocator.{Allocator, alloc_memory, dealloc_memory}
use some_os.Allocator.Chain.{IsChain, IsCarved, Allocated, alloc-Allocated}
use some_os.Kalloc.{
  Heap, kalloc_actual_size_for, set_size, with_header, kalloc, dealloc, kalloc_size,
}

-- A block of `actual` bytes was taken from the free ones, with room for the header and `size` bytes
-- from `ptr` on; its size is remembered, and is what `dealloc` gives back.
pub record IsBlock (size : ℕ) (h : Heap) (ptr : ℕ) (h' : Heap) : Type 0 where
  pub room : 8 ≤ ptr
  pub fits : size + 8 ≤ kalloc_size (some ptr) h'
  pub carved : IsCarved h.allocators (kalloc_size (some ptr) h') (ptr - 8) h'.allocators
  pub given_back : dealloc (some ptr) h' ≡ record h' {
    allocators = dealloc_memory (ptr - 8) (kalloc_size (some ptr) h') h'.allocators;
  }

abbrev pub IsKalloced : ℕ → Heap → Option ℕ × Heap → Type 0
IsKalloced size h (none, h') = h' ≡ h
IsKalloced size h (some ptr, h') = IsBlock size h ptr h'

-- The rounded size has room for the header.
pub kalloc_actual_size_for-bounds :
    (n : ℕ)
    → n + 2 ^ 33 < 2 ^ 63
    → (n + 8 ≤ kalloc_actual_size_for n) × (kalloc_actual_size_for n ≤ n + 16)
unfolding kalloc_actual_size_for
kalloc_actual_size_for-bounds n h =
    let e1 = add64-eq n 8 (omega arith) in
    let e2 = add64-eq (n + 8) 8 (omega arith) in
    let e3 = sub64-eq (n + 8 + 8) 1 (omega arith) (omega arith) in rw (e1, e2, e3) (ground arith)

with_header-IsKalloced :
    (size actual : ℕ) (h : Heap) (r : Option ℕ × List Allocator)
    → size + 8 ≤ actual
    → Allocated h.allocators actual r
    → IsKalloced size h (with_header actual r h)
unfolding kalloc_size dealloc set_size
with_header-IsKalloced size actual h (none, as') f e = ap (λ l. record h { allocators = l }) e
with_header-IsKalloced size actual h (some p, as') f c =
    let up : add64 p 8 ≡ p + 8 = add64-eq p 8 (omega (arith, c.bounded)) in
    let down : sub64 (p + 8) 8 ≡ p =
      sub64-eq (p + 8) 8 (omega arith) (omega (arith, c.bounded)) ∙ omega arith in
    let same : p + 8 - 8 ≡ p = omega arith in
    let here : set_size p actual h.sizes p ≡ actual = ground arith in
    rw up (record {
      room = omega arith;
      fits = rw (down, here) f;
      carved = rw (down, here, same) c;
      given_back = rw (down, here, same) refl;
    })

-- With the free lists in order, and a size that is not 0 and leaves room below 2 ^ 63 for the
-- rounding, kalloc returns null and changes nothing, or returns a pointer with a block around it:
-- the block has room for the header before the pointer and for the bytes asked for behind it, all
-- its bytes were free before and none is free afterwards, kallocSize returns its size, and dealloc
-- gives back just that block.
pub kalloc-IsKalloced :
    (size : ℕ) (h : Heap)
    → IsChain h.allocators
    → 0 < size
    → size + 16 + (length h.allocators + 1) * 2 ^ 33 < 2 ^ 63
    → IsKalloced size h (kalloc size h)
unfolding kalloc
kalloc-IsKalloced size h c z small =
    let nonzero : (size == 0) ≡ false = ground arith in
    let bounds = kalloc_actual_size_for-bounds size (omega arith) in
    rw nonzero (
      with_header-IsKalloced size (kalloc_actual_size_for size) h
        (alloc_memory (kalloc_actual_size_for size) h.allocators) bounds.0
        (alloc-Allocated (kalloc_actual_size_for size) h.allocators c (omega (arith, bounds.0))
          (omega (arith, bounds.1))))
