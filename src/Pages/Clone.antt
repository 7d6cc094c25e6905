-- ===== src/Pages/Clone.antt =====
-- memory/memspace.c: the copy of a space, and what addresses lead to after it.
use some_os.Prelude.{ℕ, zero, suc, ◌*◌, Bool, not, ◌&&◌, ◌==◌, if◌then◌else◌}
use some_os.Pages.{
  PageEntry, invalid, leaf, stray, branch, Table, page_table_size, Found, unmapped, too_deep,
  astray, mapped,
}
use some_os.Pages.Refs.{PageRefTable, add_reference_for}
use some_os.Pages.Space.{
  page_entry_write, page_entry_global, page_entry_copy, has_bit, set_and_clear, Shared, for_entries,
}

-- Whether the entry of a page is for its space alone to count: not for global pages and the zero page.
abbrev pub is_counted : ℕ → ℕ → ℕ → Bool
is_counted zero_page page bits = not (has_bit bits page_entry_global) && not (page == zero_page)

-- The bits that `copyMemoryPageEntry` leaves in both entries.
abbrev pub shared_bits : ℕ → ℕ → ℕ → ℕ
shared_bits zero_page page bits =
    if is_counted zero_page page bits && has_bit bits page_entry_write
    then set_and_clear bits page_entry_copy page_entry_write
    else bits

-- PAGE_ENTRY_RWX, by which the functions tell a leaf from a branch.
abbrev pub page_entry_rwx : ℕ
page_entry_rwx = 14

abbrev pub access_leaf : ℕ → ℕ → PageEntry
access_leaf page bits = if has_bit bits page_entry_rwx then leaf page bits else stray page bits

-- What `copyAllPagesAndAllocUsers` leaves of an entry in the source, and puts into the copy.
unfoldable pub shared_entry : ℕ → PageEntry → PageEntry
shared_entry zero_page invalid = invalid
shared_entry zero_page (leaf page bits) = access_leaf page (shared_bits zero_page page bits)
shared_entry zero_page (stray page bits) = stray page bits
shared_entry zero_page (branch table) = branch (λ i. shared_entry zero_page (table i))

unfoldable pub count_entry : ℕ → PageEntry → PageRefTable → PageRefTable
unfolding add_reference_for
count_entry zero_page invalid refs = refs
count_entry zero_page (stray _ _) refs = refs
count_entry zero_page (leaf page bits) refs =
    let counted = add_reference_for refs (page * 4096) in
    if is_counted zero_page page bits then counted else refs
count_entry zero_page (branch table) refs =
    for_entries page_table_size (λ i. count_entry zero_page (table i)) refs

-- `cloneMemorySpace`: the copy, and what is left of the source.
unfoldable pub clone_memory_space : Table → Shared → Table × Table × Shared
unfolding shared_entry count_entry
clone_memory_space mem s =
    let both : Table = (λ i. shared_entry s.zero_page (mem i)) in
    let refs = for_entries page_table_size (λ i. count_entry s.zero_page (mem i)) s.refs in
    (both, both, record s { refs = refs })

-- A walk into a page that has lost the last of its access bits.
abbrev pub lost : ℕ → Found
lost zero = too_deep
lost (suc i) = astray

-- A walk leads to the same page at the same level, with the bits of a shared page.
abbrev pub shared_found : ℕ → Found → Found
shared_found zero_page unmapped = unmapped
shared_found zero_page too_deep = too_deep
shared_found zero_page astray = astray
shared_found zero_page (mapped page bits level) =
    let shared = shared_bits zero_page page bits in
    if has_bit shared page_entry_rwx then mapped page shared level else lost level
