-- ===== src/Pages/Fault.antt =====
-- memory/memspace.c: what addresses lead to after a page fault.
use some_os.Prelude.{ℕ, true, false, Option, none, some, [], ◌∷◌, ◌==◌, if◌then◌else◌, ◌≡◌, ◌⊎◌}
use some_os.Pages.{Table, Found, unmapped, too_deep, astray, mapped, virt_to_entry}
use some_os.Pages.Unmap.{same_leaf}
use some_os.Pages.Space.{Shared, writable, has_bit, has_others, page_entry_copy}

-- What a walk found, with another page and other bits.
abbrev pub moved_to : ℕ → ℕ → Found → Found
moved_to page bits unmapped = unmapped
moved_to page bits too_deep = too_deep
moved_to page bits astray = astray
moved_to page bits (mapped _ _ level) = mapped page bits level

-- What is in the page that a walk found; the zero page stands for a new page of zeros.
abbrev pub bytes_of : Shared → Found → ℕ → ℕ
bytes_of s (mapped page bits level) = if page == s.zero_page then (λ _. 0) else s.contents page
bytes_of s _ = λ _. 0

abbrev pub resolved : ℕ → Found → Found
resolved page unmapped = unmapped
resolved page too_deep = too_deep
resolved page astray = astray
resolved page (mapped _ bits level) = mapped page (writable bits) level

-- The page that a walk found.
abbrev pub IsAt : ℕ → Found → Type 0
IsAt page unmapped = ⊥
IsAt page too_deep = ⊥
IsAt page astray = ⊥
IsAt page (mapped old bits level) = old ≡ page

-- The page is the one that was found, it is not shared as far as the table of references says, and no
-- page was taken; or it is the first of those that the allocator had.
abbrev pub IsOwn : Found → Shared → Shared → ℕ → Type 0
IsOwn found s s' page =
    (IsAt page found × (s'.free ≡ s.free) × (has_others s page ≡ false)) ⊎ (s.free ≡ page ∷ s'.free)

-- The address leads nowhere or to a page that is not marked copy-on-write, or there is no page left.
abbrev pub IsHopeless : Found → Shared → Type 0
IsHopeless (mapped page bits level) s = (has_bit bits page_entry_copy ≡ false) ⊎ (s.free ≡ [])
IsHopeless _ s = Unit

-- A page marked copy-on-write.
abbrev pub IsMarked : Found → Type 0
IsMarked unmapped = ⊥
IsMarked too_deep = ⊥
IsMarked astray = ⊥
IsMarked (mapped page bits level) = has_bit bits page_entry_copy ≡ true

-- The answer of a page fault at an address, where the walk finds `found`: nothing is changed, or the
-- address is led to a page with the bytes that were there, and the rest stays: the other addresses, the
-- other pages, the table of references, the pages that were given back, and the zero page.
abbrev pub IsResolved : Table → ℕ → Found → Shared → Option ℕ × Table × Shared → Type 0
IsResolved mem address found s (none, mem', s') = (mem' ≡ mem) × (s' ≡ s) × IsHopeless found s
IsResolved mem address found s (some page, mem', s') =
    ((v : ℕ)
      → virt_to_entry mem' v
        ≡ (if same_leaf 2 found address v then resolved page found else virt_to_entry mem v))
    × (s'.contents page ≡ bytes_of s found)
    × ((i : ℕ) → (i == page) ≡ false → s'.contents i ≡ s.contents i)
    × (s'.refs ≡ s.refs)
    × (s'.freed ≡ s.freed)
    × (s'.zero_page ≡ s.zero_page)
    × IsOwn found s s' page
    × IsMarked found
