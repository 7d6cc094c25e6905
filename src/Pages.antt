-- ===== src/Pages.antt =====
-- memory/pagetable.c: the page tables of a memory space.
-- A table that an entry points to belongs to that entry alone, so it stands in the entry. An entry
-- that is not valid has no more than that; the pages for tables are always given out.
pub mod Walk
pub mod Unmap
pub mod Ranges
pub mod Refs
pub mod Space
pub mod Clone
pub mod Fault
mod Tests
use Prim.Native.Nat.{bit_and}
use some_os.Prelude.{
  ℕ, zero, suc, ◌+◌, ◌-◌, ◌*◌, ◌/◌, ◌%◌, ◌^◌, Bool, true, false, not, ◌&&◌, Option, none, some,
  ◌==◌, ltb, if◌then◌else◌,
}

-- `PageTableEntry`: a leaf has the number of its page and its bits, one of PAGE_ENTRY_RWX among them.
-- A page without any of these bits is taken for a table by all functions; where it is none, the entry is
-- `stray`.
pub data PageEntry : Type 0 where
  invalid : PageEntry
  leaf stray : ℕ → ℕ → PageEntry
  branch : (ℕ → PageEntry) → PageEntry

-- `PageTable`
abbrev pub Table : Type 0
Table = ℕ → PageEntry

abbrev pub page_table_size : ℕ
page_table_size = 512

-- `createPageTable`
abbrev pub create_page_table : Table
create_page_table i = invalid

-- The size of what an entry at a level maps: PAGE_SIZE << (9 * level).
abbrev pub size_at : ℕ → ℕ
size_at zero = 4096
size_at (suc level) = size_at level * page_table_size

-- `vpn[level]`
abbrev pub vpn : ℕ → ℕ → ℕ
vpn level vaddr = vaddr / size_at level % page_table_size

abbrev pub set_entry : Table → ℕ → PageEntry → Table
set_entry table i entry j = if j == i then entry else table j

-- The table to go on in, which is made for an entry that is not valid; a leaf fails the assertion. Of a
-- stray entry nothing is modelled.
abbrev pub next_level : PageEntry → Option Table
next_level invalid = some create_page_table
next_level (leaf _ _) = none
next_level (stray _ _) = none
next_level (branch table) = some table

-- The fields `bits` and `paddr` of an entry have 10 and 44 bits. PAGE_ENTRY_VALID is set in the bits of a
-- leaf.
abbrev pub valid_bits : ℕ → ℕ
valid_bits bits = bits % 2 ^ 10 / 2 * 2 + 1

-- The last write; a branch fails the assertion.
abbrev pub write_leaf : PageEntry → Table → ℕ → ℕ → ℕ → Option Table
write_leaf (branch _) table i page bits = none
write_leaf (stray _ _) table i page bits = none
write_leaf _ table i page bits = some (set_entry table i (leaf (page % 2 ^ 44) (valid_bits bits)))

abbrev pub put_branch : Table → ℕ → Option Table → Option Table
put_branch table i none = none
put_branch table i (some child) = some (set_entry table i (branch child))

abbrev pub descend : Table → ℕ → (Table → Option Table) → Option Table → Option Table
descend table i below none = none
descend table i below (some child) = put_branch table i (below child)

-- The loop of `mapPage`, in a table at level `i`. The levels are 2, 1 and 0.
unfoldable pub map_at : ℕ → ℕ → ℕ → ℕ → ℕ → Table → Option Table
map_at zero level vaddr page bits table =
    write_leaf (table (vpn 0 vaddr)) table (vpn 0 vaddr) page bits
map_at (suc i) level vaddr page bits table =
    let at = vpn (suc i) vaddr in
    let written = write_leaf (table at) table at page bits in
    let below = descend table at (map_at i level vaddr page bits) (next_level (table at)) in
    if level == suc i then written else below

-- The bits have to have one of PAGE_ENTRY_RWX. `none` is a failed assertion.
unfoldable pub map_page : Table → ℕ → ℕ → ℕ → ℕ → Option Table
unfolding map_at
map_page root vaddr paddr bits level =
    let mapped = map_at 2 level vaddr (paddr / 4096) bits root in
    if bit_and bits 14 == 0 then none else mapped

-- What a walk finds: a leaf with its page, its bits and its level, or a branch at level 0, which is a
-- failed assertion. `astray` is a walk that goes on in a page as in a table; where it ends is not
-- modelled.
pub data Found : Type 0 where
  unmapped too_deep astray : Found
  mapped : ℕ → ℕ → ℕ → Found

abbrev pub enter_entry : ℕ → (Table → Found) → PageEntry → Found
enter_entry i below invalid = unmapped
enter_entry i below (leaf page bits) = mapped page bits i
enter_entry i below (branch child) = below child
enter_entry zero below (stray _ _) = too_deep
enter_entry (suc i) below (stray _ _) = astray

-- The loop of `virtToEntry`.
unfoldable pub walk_at : ℕ → Table → ℕ → Found
walk_at zero table vaddr = enter_entry 0 (λ _. too_deep) (table (vpn 0 vaddr))
walk_at (suc i) table vaddr =
    enter_entry (suc i) (λ child. walk_at i child vaddr) (table (vpn (suc i) vaddr))

unfoldable pub virt_to_entry : Table → ℕ → Found
unfolding walk_at
virt_to_entry root vaddr = walk_at 2 root vaddr

abbrev pub phys_of : Found → ℕ → ℕ
phys_of unmapped vaddr = 0
phys_of too_deep vaddr = 0
phys_of astray vaddr = 0
phys_of (mapped page bits level) vaddr =
    page * 4096 / size_at level * size_at level + vaddr % size_at level

-- `unsafeVirtToPhys`, which walks as `virtToEntry` does.
unfoldable pub unsafe_virt_to_phys : Table → ℕ → ℕ
unfolding virt_to_entry
unsafe_virt_to_phys root vaddr = phys_of (virt_to_entry root vaddr) vaddr

abbrev pub is_valid : PageEntry → Bool
is_valid invalid = false
is_valid _ = true

abbrev pub none_valid : ℕ → Table → Bool
none_valid zero table = true
none_valid (suc i) table =
    let rest = none_valid i table in if is_valid (table i) then false else rest

-- `tryToFreeTable`: the entry of a table that has no valid entry is cleared.
abbrev pub entry_of : Table → PageEntry
entry_of child = if none_valid page_table_size child then invalid else branch child

abbrev pub put_entry : Table → ℕ → Option Table → Option Table
put_entry table i none = none
put_entry table i (some child) = some (set_entry table i (entry_of child))

abbrev pub clear_entry : Table → ℕ → (Table → Option Table) → PageEntry → Option Table
clear_entry table i below invalid = none
clear_entry table i below (stray _ _) = none
clear_entry table i below (leaf _ _) = some (set_entry table i invalid)
clear_entry table i below (branch child) = put_entry table i (below child)

-- The loops of `unmapPage`; `none` where nothing was mapped. A table above one that stays has a valid
-- entry, so it stays too.
unfoldable pub unmap_at : ℕ → ℕ → Table → Option Table
unmap_at zero vaddr table = clear_entry table (vpn 0 vaddr) (λ _. none) (table (vpn 0 vaddr))
unmap_at (suc i) vaddr table =
    clear_entry table (vpn (suc i) vaddr) (unmap_at i vaddr) (table (vpn (suc i) vaddr))

abbrev pub or_same : Table → Option Table → Table
or_same table none = table
or_same table (some changed) = changed

unfoldable pub unmap_page : Table → ℕ → Table
unfolding unmap_at
unmap_page root vaddr = or_same root (unmap_at 2 vaddr root)
