-- ===== src/Allocator.antt =====
-- memory/allocator.c: first-fit allocation from an address-ordered list of free blocks.
-- A `FreeMemory` header lies at the start of the block that it describes, so the list of headers is
-- a list of blocks, and `FreeMemory**` is a position in it: the blocks before, the block there, and
-- those behind. An allocator's `backing` is the next one in a list of allocators.
-- Addresses and sizes are 64-bit words. The assertions, which only a DEBUG build has, are left out:
-- what they test is a hypothesis of the theorems.
pub mod Insert
pub mod Places
pub mod Take
pub mod Chain
pub mod Give
mod Tests
use some_os.Prelude.{
  ℕ, Bool, true, false, not, ◌&&◌, ◌||◌, Option, none, some, List, [], ◌∷◌, ◌++◌, ◌+◌, ◌-◌, ◌%◌,
  add64, sub64, ltb, leb, ◌==◌, if◌then◌else◌,
}

-- `FreeMemory`, with its address in place of its link.
pub record Block : Type 0 where
  pub start : ℕ
  pub size : ℕ

pub record Allocator : Type 0 where
  pub block_size : ℕ
  pub min_backing_free : ℕ
  pub first_free : List Block
  pub special_range_start : ℕ
  pub special_range_end : ℕ

-- `FreeMemory**`
pub record Place : Type 0 where
  pub before : List Block
  pub here : Block
  pub after : List Block

abbrev pub listed : Place → List Block
listed p = p.before ++ (p.here ∷ p.after)

abbrev pub behind : Block → Place → Place
behind b p = record p { before = b ∷ p.before }

abbrev pub end_of : Block → ℕ
end_of b = add64 b.start b.size

-- `MINIMUM_FREE`, the size of a `FreeMemory`
abbrev pub minimum_free : ℕ
minimum_free = 16

-- `n -= n % block_size`
abbrev pub round_down : ℕ → ℕ → ℕ
round_down block_size n = n - n % block_size

abbrev pub merged : Block → Block → Block
merged c m = record c { size = add64 c.size m.size }

unfoldable pub insert_free_memory : List Block → Block → Place
insert_free_memory [] m = record { before = []; here = m; after = [] }
insert_free_memory (c ∷ cs) m =
    let joined = insert_free_memory cs (merged c m) in
    let further = behind c (insert_free_memory cs m) in
    if ltb c.start m.start
    then (if end_of c == m.start then joined else further)
    else if end_of m == c.start
    then record { before = []; here = merged m c; after = cs }
    else record { before = []; here = m; after = c ∷ cs }

unfoldable pub find_free_memory_that_fits : ℕ → List Block → Option Place
find_free_memory_that_fits size [] = none
find_free_memory_that_fits size (c ∷ cs) =
    let further : Option Place = elim (find_free_memory_that_fits size cs) [
      | none ↦ none
      | some p ↦ some (behind c p)
    ] in
    if leb size c.size then some (record { before = []; here = c; after = cs }) else further

-- `(n + block_size - 1)` rounded down
abbrev pub round_up : ℕ → ℕ → ℕ
round_up block_size n = round_down block_size (sub64 (add64 n block_size) 1)

-- The end of `basicAllocMemory`: the block, or its first part, is taken from the list.
unfoldable pub take_memory : ℕ → ℕ → Place → Option ℕ × List Block
take_memory block_size size p =
    let min_size = round_up block_size (add64 size minimum_free) in
    let moved : Block = record { start = add64 p.here.start size; size = sub64 p.here.size size } in
    if leb min_size p.here.size
    then (some p.here.start, p.before ++ (moved ∷ p.after))
    else if leb size p.here.size
    then (some p.here.start, p.before ++ p.after)
    else (none, listed p)

-- `basicAllocMemory`, with `addNewMemory` where nothing fits; the list begins with the allocator,
-- its backing allocators behind it.
unfoldable pub basic_alloc_memory : ℕ → List Allocator → Option ℕ × List Allocator
unfolding find_free_memory_that_fits take_memory insert_free_memory
basic_alloc_memory size [] = (none, [])
basic_alloc_memory size (a ∷ []) = elim (find_free_memory_that_fits size a.first_free) [
  | none ↦ (none, a ∷ [])
  | some p ↦
      let (ret, free) = take_memory a.block_size size p in
      (ret, record a { first_free = free } ∷ [])
]
basic_alloc_memory size (a ∷ b ∷ rest) =
    let backing_size = round_up b.block_size size in
    let from_backing = basic_alloc_memory backing_size (b ∷ rest) in
    elim (find_free_memory_that_fits size a.first_free) [
      | none ↦ elim from_backing.0 [
        | none ↦ (none, a ∷ from_backing.1)
        | some new_free ↦
            let (ret, free) = take_memory a.block_size size (
              insert_free_memory a.first_free (record { start = new_free; size = backing_size })) in
            (ret, record a { first_free = free } ∷ from_backing.1)
      ]
      | some p ↦
          let (ret, free) = take_memory a.block_size size p in
          (ret, record a { first_free = free } ∷ b ∷ rest)
    ]

-- A `none` is the null pointer.
unfoldable pub alloc_memory : ℕ → List Allocator → Option ℕ × List Allocator
unfolding basic_alloc_memory
alloc_memory size as' = if size == 0 then (none, as') else basic_alloc_memory size as'

-- The whole part of a free block that could go back to a backing allocator with blocks of `bs`.
unfoldable pub page_start_of : ℕ → ℕ → ℕ
page_start_of bs mem_start =
    let page_start = round_down bs mem_start in
    if page_start == mem_start
    then page_start
    else round_down bs (sub64 (add64 (add64 mem_start minimum_free) bs) 1)

-- The source rounds `mem_end`, not `page_end`: `mem_end` is the rounded end from there on.
unfoldable pub page_end_of : ℕ → ℕ → ℕ
page_end_of bs end =
    let mem_end = round_down bs end in
    if end == mem_end then end else round_down bs (sub64 mem_end minimum_free)

-- The free blocks that are left of a region when its middle, from `page_start` to `page_end`, goes.
unfoldable pub remaining : (mem_start mem_end page_start page_end : ℕ) → List Block
remaining mem_start mem_end page_start page_end =
    let head : Block = record { start = mem_start; size = sub64 page_start mem_start } in
    let tail : Block = record { start = page_end; size = sub64 mem_end page_end } in
    if page_start == mem_start && page_end == mem_end
    then []
    else if mem_end == page_end
    then head ∷ []
    else if mem_start == page_start
    then tail ∷ []
    else head ∷ tail ∷ []

-- Whether the region is outside the special range, and gives whole pages back without cutting a
-- block or gives enough of them back.
unfoldable pub should_free : Allocator → (mem_start mem_end page_start page_end : ℕ) → Bool
should_free a mem_start mem_end page_start page_end =
    (leb mem_end a.special_range_start || leb a.special_range_end mem_start)
    && ((mem_start == page_start && mem_end == page_end)
        || leb (add64 page_start a.min_backing_free) page_end)

-- `tryFreeingOldMemory`: the list that is left, and the range that goes to the backing allocator.
unfoldable pub try_freeing_old_memory : Allocator → ℕ → Place → List Block × Option (ℕ × ℕ)
try_freeing_old_memory a bs p =
    let mem_start = p.here.start in
    let mem_end = round_down bs (end_of p.here) in
    let page_start = page_start_of bs mem_start in
    let page_end = page_end_of bs (end_of p.here) in
    if should_free a mem_start mem_end page_start page_end
    then (
      p.before ++ (remaining mem_start mem_end page_start page_end ++ p.after),
      some (page_start, sub64 page_end page_start),
    )
    else (listed p, none)

unfoldable pub dealloc_memory : ℕ → ℕ → List Allocator → List Allocator
unfolding insert_free_memory try_freeing_old_memory
dealloc_memory ptr size [] = []
dealloc_memory ptr size (a ∷ []) =
    if size == 0
    then a ∷ []
    else record a {
      first_free = listed (insert_free_memory a.first_free (record { start = ptr; size = size }));
    }
      ∷ []
dealloc_memory ptr size (a ∷ b ∷ rest) =
    let p = insert_free_memory a.first_free (record { start = ptr; size = size }) in
    let (free, freed) = try_freeing_old_memory a b.block_size p in
    let backing : List Allocator = elim freed [
      | none ↦ b ∷ rest
      | some (q, n) ↦ dealloc_memory q n (b ∷ rest)
    ] in
    if size == 0 then a ∷ b ∷ rest else record a { first_free = free } ∷ backing
