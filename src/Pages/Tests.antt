-- ===== src/Pages/Tests.antt =====
-- Runs of memory/pagetable.c and memory/memspace.c, and the theorems at them.
use some_os.Prelude.{some, [], ◌∷◌, if◌then◌else◌, ◌≡◌, refl, arith}
use some_os.Pages.{
  Table, create_page_table, valid_bits, map_page, mapped, unmapped, virt_to_entry,
  unsafe_virt_to_phys, or_same, unmap_page,
}
use some_os.Pages.Walk.{same_below, virt_to_entry-map_page}
use some_os.Pages.Unmap.{same_leaf, virt_to_entry-unmap_page}
use some_os.Pages.Refs.{PageRefTable}
use some_os.Pages.Space.{Shared, handle_page_fault}
use some_os.Pages.Clone.{clone_memory_space}

-- Address 20480 leads to page 9, readable and writable.
unfoldable one_page : Table
unfolding map_page
one_page = or_same create_page_table (map_page create_page_table 20480 36864 6 0)

abbrev no_refs : PageRefTable
no_refs = record { count = 0; capacity = 0; keys = λ _. 0; values = λ _. 0 }

abbrev some_state : Shared
some_state = record {
  zero_page = 1;
  refs = no_refs;
  free = 30 ∷ 31 ∷ [];
  freed = [];
  contents = λ page i. page;
}

runs-walk :
    (virt_to_entry one_page 20480 ≡ mapped 9 7 0)
    × (unsafe_virt_to_phys one_page 20485 ≡ 36869)
    × (virt_to_entry one_page 24576 ≡ unmapped)
    × (virt_to_entry (unmap_page one_page 20480) 20480 ≡ unmapped)
unfolding virt_to_entry unsafe_virt_to_phys unmap_page one_page
runs-walk = (refl, refl, refl, refl)

-- After a copy a write in the copy takes a new page with the same bytes.
runs-fault :
    let (copy, _, s) = clone_memory_space one_page some_state in
    let (page, mem, s') = handle_page_fault copy 20480 s in
    (page ≡ some 30) × (virt_to_entry mem 20480 ≡ mapped 30 7 0) × (s'.contents 30 0 ≡ 9)
unfolding clone_memory_space handle_page_fault one_page
runs-fault = (refl, refl, refl)

virt_to_entry-map_page_example : virt_to_entry one_page 20483 ≡ (
    if same_below 2 0 20480 20483
    then mapped 9 (valid_bits 6) 0
    else virt_to_entry create_page_table 20483)
unfolding map_page one_page
virt_to_entry-map_page_example =
    virt_to_entry-map_page create_page_table one_page 20480 36864 6 0 20483 (omega arith) refl

virt_to_entry-unmap_page_example : virt_to_entry (unmap_page one_page 20480) 20483 ≡ (
    if same_leaf 2 (virt_to_entry one_page 20480) 20480 20483
    then unmapped
    else virt_to_entry one_page 20483)
virt_to_entry-unmap_page_example = virt_to_entry-unmap_page one_page 20480 20483
