-- ===== src/Pages/Refs.antt =====
-- memory/pageref.c: a hash table from pages to the number of entries that share them.
use some_os.Prelude.{
  ℕ, zero, suc, ◌+◌, ◌-◌, ◌*◌, ◌/◌, ◌%◌, Bool, true, false, not, ◌&&◌, ◌==◌, ltb, if◌then◌else◌,
}
use some_os.StringMap.{hash_int64}

pub record PageRefTable : Type 0 where
  pub count : ℕ
  pub capacity : ℕ
  pub keys : ℕ → ℕ
  pub values : ℕ → ℕ

-- MIN_TABLE_CAPACITY
abbrev min_capacity : ℕ
min_capacity = 128

abbrev write : (ℕ → ℕ) → ℕ → ℕ → ℕ → ℕ
write f i v j = if j == i then v else f j

-- A loop over the places while a test holds; after as many rounds as there are places it is back at
-- the start, where the source breaks.
abbrev probe : (ℕ → Bool) → ℕ → ℕ → ℕ → ℕ
probe test capacity zero idx = idx
probe test capacity (suc rounds) idx =
    let next = probe test capacity rounds ((idx + 1) % capacity) in if test idx then next else idx

abbrev start_at : PageRefTable → ℕ → ℕ
start_at table page = hash_int64 page % table.capacity

-- An entry moves to the new table when it counts.
abbrev move_ref : PageRefTable → ℕ → PageRefTable → PageRefTable
move_ref table i new =
    let free =
      probe (λ j. not (new.values j == 0)) new.capacity new.capacity
        (start_at new (table.keys i)) in
    if ltb 1 (table.values i)
    then record new {
      keys = write new.keys free (table.keys i);
      values = write new.values free (table.values i);
    }
    else new

abbrev rebuild_from_refs : PageRefTable → ℕ → PageRefTable → PageRefTable
rebuild_from_refs table zero new = new
rebuild_from_refs table (suc left) new =
    rebuild_from_refs table left (move_ref table (table.capacity - suc left) new)

abbrev rebuild_page_ref_table : PageRefTable → ℕ → PageRefTable
rebuild_page_ref_table table new_size =
    rebuild_from_refs table table.capacity
      (record { count = table.count; capacity = new_size; keys = λ _. 0; values = λ _. 0 })

unfoldable pub refs_test_for_resize : PageRefTable → PageRefTable
unfolding hash_int64
refs_test_for_resize table =
    let smallest = rebuild_page_ref_table table min_capacity in
    let smaller = rebuild_page_ref_table table (table.capacity / 2) in
    let larger = rebuild_page_ref_table table (table.capacity * 3 / 2) in
    if ltb table.capacity min_capacity
    then smallest
    else if ltb min_capacity table.capacity && ltb (table.count * 4) table.capacity
    then smaller
    else if ltb (table.capacity * 2) (table.count * 3)
    then larger
    else table

-- The search for a page, over deleted entries, whose number is 1.
abbrev seek : PageRefTable → ℕ → ℕ
seek table page =
    probe (λ i. not (table.keys i == page) && not (table.values i == 0)) table.capacity
      table.capacity (start_at table page)

unfoldable pub has_other_references : ℕ → PageRefTable → ℕ → Bool
unfolding hash_int64
has_other_references zero_page table page =
    let idx = seek table page in
    if page == zero_page
    then true
    else if table.count == 0
    then false
    else if table.keys idx == page
    then ltb 1 (table.values idx)
    else false

-- A page that is not there begins with 2 references, in the first place that is empty or deleted.
abbrev count_page : PageRefTable → ℕ → PageRefTable
count_page table page =
    let idx = seek table page in
    let free =
      probe (λ i. not (table.keys i == page) && ltb 1 (table.values i)) table.capacity
        table.capacity (start_at table page) in
    if (table.keys idx == page) && ltb 1 (table.values idx)
    then record table { values = write table.values idx (table.values idx + 1) }
    else record table {
      keys = write table.keys free page;
      values = write table.values free 2;
      count = table.count + 1;
    }

unfoldable pub add_reference_for : PageRefTable → ℕ → PageRefTable
unfolding refs_test_for_resize hash_int64
add_reference_for table page = count_page (refs_test_for_resize table) page

unfoldable pub remove_reference_for : PageRefTable → ℕ → PageRefTable
unfolding refs_test_for_resize hash_int64
remove_reference_for table page =
    let idx = seek table page in
    let left = table.values idx - 1 in
    let less = record table { values = write table.values idx left } in
    let removed = refs_test_for_resize (record less { count = table.count - 1 }) in
    if table.count == 0
    then table
    else if (table.keys idx == page) && ltb 1 (table.values idx)
    then (if left == 1 then removed else less)
    else table
