-- ===== src/Allocator/Give.antt =====
-- `deallocMemory` and `tryFreeingOldMemory` of memory/allocator.c: where the bytes go.
use some_os.Prelude.{
  ℕ, ◌+◌, ◌-◌, ◌%◌, ◌^◌, ◌≤◌, ◌<◌, ◌≡◌, ◌⊎◌, ◌↔◌, refl, some, List, [], ◌∷◌, ◌++◌, arith, add64,
  sub64, true, false, ◌==◌, add64-eq,
}
use some_os.Allocator.{
  Block, Place, Allocator, listed, end_of, minimum_free, insert_free_memory, dealloc_memory,
  page_start_of, page_end_of, remaining, should_free, try_freeing_old_memory,
}
use some_os.Allocator.Insert.{
  IsFreeFrom, Covers, IsApart, total, total-append, insert-IsFreeFrom, Covers-insert, total-insert,
}

-- `deallocMemory` of an allocator that has no backing allocator, for a block that overlaps no free
-- one: the free list is again in order and without adjacent blocks, the addresses of the block have
-- become free and no others, and the number of free bytes has grown by its size.
pub dealloc-alone :
    (ptr size : ℕ) (a : Allocator)
    → IsFreeFrom 0 a.first_free
    → 0 < size
    → ptr + size < 2 ^ 64
    → IsApart ptr size a.first_free
    → (free : List Block) × (dealloc_memory ptr size (a ∷ []) ≡ record a { first_free = free } ∷ [])
      × IsFreeFrom 0 free
      × (total free ≡ size + total a.first_free)
      × ((x : ℕ) → Covers free x ↔ (((ptr ≤ x) × (x < ptr + size)) ⊎ Covers a.first_free x))
unfolding dealloc_memory
dealloc-alone ptr size a f z w d =
    let m : Block = record { start = ptr; size = size } in
    let nonzero : (size == 0) ≡ false = ground arith in
    (
      listed (insert_free_memory a.first_free m),
      rw nonzero refl,
      insert-IsFreeFrom 0 a.first_free m f (omega arith) z w d,
      total-insert 0 a.first_free m f z w d,
      λ x. Covers-insert 0 a.first_free m x f z w d,
    )

-- The bounds of what `tryFreeingOldMemory` gives back.
page_start-bounds :
    (bs start : ℕ)
    → 0 < bs
    → start + minimum_free + bs < 2 ^ 64
    → (start ≤ page_start_of bs start) × (page_start_of bs start < start + minimum_free + bs)
unfolding page_start_of add64 sub64
page_start-bounds bs start z w = ground arith

page_end-bounds :
    (bs end : ℕ)
    → 0 < bs
    → bs + minimum_free ≤ end
    → end < 2 ^ 64
    → (page_end_of bs end ≤ end - end % bs)
      × (page_end_of bs end ≡ end - end % bs → end - end % bs ≡ end)
unfolding page_end_of add64 sub64
page_end-bounds bs end z l w = ground arith

total-remaining :
    (mem_start mem_end page_start page_end : ℕ)
    → mem_start ≤ page_start
    → page_start ≤ page_end
    → page_end ≤ mem_end
    → mem_end < 2 ^ 64
    → total (remaining mem_start mem_end page_start page_end)
        + sub64 page_end page_start
        + mem_start
      ≡ mem_end
unfolding remaining sub64
total-remaining mem_start mem_end page_start page_end a b c d = ground arith

should_free-le :
    (a : Allocator) (mem_start mem_end page_start page_end : ℕ)
    → should_free a mem_start mem_end page_start page_end ≡ true
    → page_start + a.min_backing_free < 2 ^ 64
    → (page_start ≤ page_end) ⊎ ((mem_start ≡ page_start) × (mem_end ≡ page_end))
unfolding should_free add64
should_free-le a mem_start mem_end page_start page_end e w = ground arith

-- When `tryFreeingOldMemory` gives memory back, the bytes that it keeps and those that it gives back
-- make up all that were free, less those behind the last block boundary in the region: these are in
-- no list any more. The region ends far enough from 0 and 2 ^ 64 for the rounding.
try_freeing_loses :
    (a : Allocator) (bs : ℕ) (p : Place) {q n : ℕ}
    → 0 < bs
    → p.here.start + p.here.size < 2 ^ 64
    → p.here.start + minimum_free + bs + a.min_backing_free < 2 ^ 64
    → bs + minimum_free ≤ p.here.start + p.here.size
    → (try_freeing_old_memory a bs p).1 ≡ some (q, n)
    → total (try_freeing_old_memory a bs p).0 + n + end_of p.here % bs ≡ total (listed p)
unfolding try_freeing_old_memory
try_freeing_loses a bs p {q} {n} z w room far e =
    let here = p.here in
    let end = end_of here in
    let mem_end : ℕ = end - end % bs in
    let page_start = page_start_of bs here.start in
    let page_end = page_end_of bs end in
    let kept = remaining here.start mem_end page_start page_end in
    let whole : end ≡ here.start + here.size = add64-eq here.start here.size w in
    let s = page_start-bounds bs here.start z (omega arith) in
    let t = page_end-bounds bs end z (omega arith) (omega arith) in
    ground (
      arith,
      should_free-le a here.start mem_end page_start page_end,
      total-remaining here.start mem_end page_start page_end,
      total-append p.before (here ∷ p.after),
      total-append p.before (kept ++ p.after),
      total-append kept p.after,
    )
