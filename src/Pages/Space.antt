-- ===== src/Pages/Space.antt =====
-- memory/memspace.c: address spaces that share pages until they write.
use Prim.Native.Nat.{bit_and, bit_or}
use some_os.Prelude.{
  ℕ, zero, suc, ◌-◌, ◌*◌, ◌%◌, ◌^◌, Bool, not, Option, none, some, List, [], ◌∷◌, ◌==◌,
  if◌then◌else◌,
}
use some_os.Pages.{
  PageEntry, invalid, leaf, stray, branch, Table, page_table_size, create_page_table, vpn,
  set_entry, Found, unmapped, too_deep, astray, mapped, virt_to_entry, unsafe_virt_to_phys,
}
use some_os.Pages.Refs.{PageRefTable, has_other_references, remove_reference_for}

-- PAGE_ENTRY_READ, PAGE_ENTRY_WRITE, PAGE_ENTRY_GLOBAL and PAGE_ENTRY_COPY
abbrev pub page_entry_read : ℕ
page_entry_read = 2

abbrev pub page_entry_write : ℕ
page_entry_write = 4

abbrev pub page_entry_global : ℕ
page_entry_global = 32

abbrev pub page_entry_copy : ℕ
page_entry_copy = 256

abbrev pub has_bit : ℕ → ℕ → Bool
has_bit bits bit = not (bit_and bits bit == 0)

-- `bits |= set; bits &= ~clear`
abbrev pub set_and_clear : ℕ → ℕ → ℕ → ℕ
set_and_clear bits set clear = bit_or bits set - bit_and (bit_or bits set) clear

-- The state of all spaces: the references, the pages that the allocator gives out, those that it got
-- back, and what is in the pages. A page has 4096 bytes here; a larger one is several. The pages that are
-- given out have numbers below 2 ^ 44. Of a stray entry nothing is modelled: it stays as it is.
pub record Shared : Type 0 where
  pub zero_page : ℕ
  pub refs : PageRefTable
  pub free : List ℕ
  pub freed : List ℕ
  pub contents : ℕ → ℕ → ℕ

-- A write through the entry that `virtToEntry` found, in a table at level `i`.
abbrev pub write_below : (Table → Table) → PageEntry → PageEntry → PageEntry
write_below below new invalid = invalid
write_below below new (leaf _ _) = new
write_below below new (stray page bits) = stray page bits
write_below below new (branch child) = branch (below child)

abbrev pub write_entry : ℕ → Table → ℕ → PageEntry → Table
write_entry zero table vaddr new =
    set_entry table (vpn 0 vaddr) (write_below (λ c. c) new (table (vpn 0 vaddr)))
write_entry (suc i) table vaddr new =
    set_entry table (vpn (suc i) vaddr)
      (write_below (λ c. write_entry i c vaddr new) new (table (vpn (suc i) vaddr)))

-- The table of the references has the addresses of the pages.
abbrev pub has_others : Shared → ℕ → Bool
has_others s page = has_other_references (s.zero_page * 4096) s.refs (page * 4096)

abbrev pub writable : ℕ → ℕ
writable bits = set_and_clear bits page_entry_write page_entry_copy

-- A new page, or none. `allocPage` and `zallocPage`.
abbrev pub take_page : List ℕ → Option (ℕ × List ℕ)
take_page [] = none
take_page (page ∷ free) = some (page, free)

-- A page of 4096 bytes in place of the one that is shared, at every level, with these contents.
abbrev pub replace_page :
    Table → ℕ → ℕ → (ℕ → ℕ) → Option (ℕ × List ℕ) → Shared → Option ℕ × Table × Shared
replace_page mem address bits bytes none s = (none, mem, s)
replace_page mem address bits bytes (some (page, free)) s = (
  some page,
  write_entry 2 mem address (leaf (page % 2 ^ 44) (writable bits)),
  record s { free = free; contents = λ i. if i == page then bytes else s.contents i },
)

-- `handlePageFault` at the entry that was found; the answer is the page that it is at now. The
-- reference to the page that was shared is kept.
abbrev pub fault_at : Table → ℕ → Found → Shared → Option ℕ × Table × Shared
fault_at mem address unmapped s = (none, mem, s)
fault_at mem address too_deep s = (none, mem, s)
fault_at mem address astray s = (none, mem, s)
fault_at mem address (mapped page bits level) s =
    let zeroed = replace_page mem address bits (λ _. 0) (take_page s.free) s in
    let copied = replace_page mem address bits (s.contents page) (take_page s.free) s in
    let reused : Option ℕ × Table × Shared =
      (some page, write_entry 2 mem address (leaf page (writable bits)), s) in
    if has_bit bits page_entry_copy
    then if page == s.zero_page then zeroed else if has_others s page then copied else reused
    else (none, mem, s)

unfoldable pub handle_page_fault : Table → ℕ → Shared → Option ℕ × Table × Shared
unfolding virt_to_entry has_other_references
handle_page_fault mem address s = fault_at mem address (virt_to_entry mem address) s

abbrev address_of : Option ℕ → ℕ
address_of none = 0
address_of (some page) = page * 4096

-- `virtToPhys` of a space; 0 is a failure. After a fault it is the beginning of the page.
abbrev phys_at : Table → ℕ → Bool → Bool → Found → Shared → ℕ × Table × Shared
phys_at mem vaddr write allow_all unmapped s = (0, mem, s)
phys_at mem vaddr write allow_all too_deep s = (0, mem, s)
phys_at mem vaddr write allow_all astray s = (0, mem, s)
phys_at mem vaddr write allow_all (mapped page bits level) s =
    let phys = unsafe_virt_to_phys mem vaddr in
    let (fault, mem', s') = handle_page_fault mem vaddr s in
    if write
    then if has_bit bits page_entry_write
      then (phys, mem, s)
      else if has_bit bits page_entry_copy
      then (address_of fault, mem', s')
      else (if allow_all then phys else 0, mem, s)
    else if has_bit bits page_entry_read
    then (phys, mem, s)
    else (if allow_all then phys else 0, mem, s)

unfoldable pub virt_to_phys : Table → ℕ → Bool → Bool → Shared → ℕ × Table × Shared
unfolding virt_to_entry unsafe_virt_to_phys handle_page_fault
virt_to_phys mem vaddr write allow_all s =
    phys_at mem vaddr write allow_all (virt_to_entry mem vaddr) s

unfoldable pub free_page_entry_data : ℕ → ℕ → Shared → Shared
unfolding has_other_references remove_reference_for
free_page_entry_data page bits s =
    if has_bit bits page_entry_global
    then s
    else if page == s.zero_page
    then s
    else if has_others s page
    then record s { refs = remove_reference_for s.refs (page * 4096) }
    else record s { freed = page ∷ s.freed }

abbrev free_found : Table → ℕ → Found → Shared → Table × Shared
free_found mem vaddr (mapped page bits level) s =
    (write_entry 2 mem vaddr invalid, free_page_entry_data page bits s)
free_found mem vaddr _ s = (mem, s)

unfoldable pub unmap_and_free_page : Table → ℕ → Shared → Table × Shared
unfolding virt_to_entry free_page_entry_data
unmap_and_free_page mem vaddr s = free_found mem vaddr (virt_to_entry mem vaddr) s

-- The loop over the entries of a table.
abbrev pub for_entries : {S : Type 0} → ℕ → (ℕ → S → S) → S → S
for_entries zero body s = s
for_entries (suc i) body s = body i (for_entries i body s)

-- `freePagesInTable` of an entry; the tables themselves are no pages of the state.
unfoldable pub free_entry : PageEntry → Shared → Shared
unfolding free_page_entry_data
free_entry invalid s = s
free_entry (stray _ _) s = s
free_entry (leaf page bits) s = free_page_entry_data page bits s
free_entry (branch table) s = for_entries page_table_size (λ i. free_entry (table i)) s

unfoldable pub free_memory_space : Table → Shared → Table × Shared
unfolding free_entry
free_memory_space mem s =
    (create_page_table, for_entries page_table_size (λ i. free_entry (mem i)) s)
