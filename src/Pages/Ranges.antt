-- ===== src/Pages/Ranges.antt =====
-- memory/pagetable.c: ranges of addresses, and walks over all pages.
-- Addresses and sizes are below 2 ^ 64, as the page-aligned ends of a range are.
use some_os.Prelude.{
  ℕ, zero, suc, ◌+◌, ◌-◌, ◌*◌, ◌/◌, ◌&&◌, Option, none, some, ◌==◌, ltb, if◌then◌else◌,
}
use some_os.Pages.{Table, create_page_table, size_at, map_page, unmap_page}

-- The loop of `mapPageRangeAtLevel`, for so many pages.
unfoldable pub map_pages : ℕ → Table → ℕ → ℕ → ℕ → ℕ → Option Table
unfolding map_page
map_pages zero root vaddr paddr bits level = some root
map_pages (suc n) root vaddr paddr bits level = elim (map_page root vaddr paddr bits level) [
  | none ↦ none
  | some root' ↦ map_pages n root' (vaddr + size_at level) (paddr + size_at level) bits level
]

-- The rounds of a loop that steps by a size.
abbrev pub rounds : ℕ → ℕ → ℕ
rounds length size = (length + size - 1) / size

unfoldable pub map_page_range_at_level : Table → ℕ → ℕ → ℕ → ℕ → ℕ → Option Table
unfolding map_pages
map_page_range_at_level root from_vaddr to_vaddr paddr bits level =
    map_pages (rounds (to_vaddr - from_vaddr) (size_at level)) root from_vaddr paddr bits level

abbrev and_then : Option Table → (Table → Option Table) → Option Table
and_then none k = none
and_then (some root) k = k root

-- The middle of a range is mapped with larger pages when it is longer than one of them.
unfoldable pub try_maping_range_at_level : ℕ → ℕ → ℕ → ℕ → ℕ → Table → Option Table
unfolding map_page_range_at_level
try_maping_range_at_level zero from_vaddr to_vaddr paddr bits root =
    let mapped = map_page_range_at_level root from_vaddr to_vaddr paddr bits 0 in
    if from_vaddr == to_vaddr then some root else mapped
try_maping_range_at_level (suc i) from_vaddr to_vaddr paddr bits root =
    let size = size_at (suc i) in
    let start = (from_vaddr + size - 1) / size * size in
    let end = to_vaddr / size * size in
    let first = try_maping_range_at_level i from_vaddr start paddr bits root in
    let middle =
      and_then first
        (λ r. map_page_range_at_level r start end (paddr + (start - from_vaddr)) bits (suc i)) in
    let split =
      and_then middle
        (try_maping_range_at_level i end to_vaddr (paddr + (end - from_vaddr)) bits) in
    let small = try_maping_range_at_level i from_vaddr to_vaddr paddr bits root in
    if from_vaddr == to_vaddr
    then some root
    else if ltb start end && ltb size (end - start)
    then split
    else small

unfoldable pub map_page_range : Table → ℕ → ℕ → ℕ → ℕ → Option Table
unfolding try_maping_range_at_level
map_page_range root from_vaddr to_vaddr paddr bits =
    try_maping_range_at_level 2 (from_vaddr / 4096 * 4096) ((to_vaddr + 4095) / 4096 * 4096) paddr
      bits root

-- The loop of `unmapPageRange`, for so many pages.
unfoldable pub unmap_pages : ℕ → Table → ℕ → Table
unfolding unmap_page
unmap_pages zero root from = root
unmap_pages (suc n) root from = unmap_pages n (unmap_page root from) (from + 4096)

unfoldable pub unmap_page_range : Table → ℕ → ℕ → Table
unfolding unmap_pages
unmap_page_range root from to = unmap_pages (rounds (to - from) 4096) root from

-- `unmapAllPages`
abbrev pub unmap_all_pages : Table → Table
unmap_all_pages root = create_page_table
