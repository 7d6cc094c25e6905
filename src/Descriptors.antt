-- ===== src/Descriptors.antt =====
-- files/process.c: the file descriptor table of a process, a list ordered by descriptor number.
-- Each function holds `process->resources.lock` from its first to its last statement (that lock is
-- recursive), so it is one step on the table. A `VfsFileDescriptor*` is an address; `fresh` is what
-- `kalloc` returns. A descriptor that has left the table lives on in `detached` while a system call
-- holds a reference to it. `none` is a failed assertion, or the use of a descriptor that is gone.
pub mod Sorted
pub mod Insert
pub mod Bulk
pub mod Table
pub mod Counts
pub mod Fork
pub mod Release
mod Tests
use some_os.Prelude.{
  ℕ, Bool, false, Option, none, some, List, [], ◌∷◌, ℤ, pos, negsuc, add64, sub64, ltb, ◌==◌,
  if◌then◌else◌, ◌+◌,
}

-- `VfsFileDescriptor` without its link; `address` is the pointer to it.
pub record Descriptor : Type 0 where
  pub address : ℕ
  pub id : ℕ
  pub flags : ℕ
  pub file : ℕ
  pub ref_count : ℕ

-- The open files: the reference count of each, and the files that were freed, the last one first.
pub record FileStore : Type 0 where
  pub refs : ℕ → ℕ
  pub freed : List ℕ

pub record Resources : Type 0 where
  pub files : List Descriptor
  pub detached : List Descriptor
  pub store : FileStore

unfoldable pub update : (ℕ → ℕ) → ℕ → ℕ → ℕ → ℕ
update f k v j = if j == k then v else f j

unfoldable pub vfs_file_copy : ℕ → FileStore → FileStore
vfs_file_copy f s = record s { refs = update s.refs f (add64 (s.refs f) 1) }

-- `vfsNodeClose` and `dealloc` are called for the file when its last reference goes.
unfoldable pub vfs_file_close : ℕ → FileStore → FileStore
vfs_file_close f s =
    let left = sub64 (s.refs f) 1 in
    record { refs = update s.refs f left; freed = if left == 0 then f ∷ s.freed else s.freed }

-- `current->id < fd` and `current->id == fd`: the numbers in the table are never negative.
abbrev pub id_lt : ℕ → ℤ → Bool
id_lt i (pos n) = ltb i n
id_lt i (negsuc _) = false

abbrev pub id_eq : ℕ → ℤ → Bool
id_eq i (pos n) = i == n
id_eq i (negsuc _) = false

unfoldable pub get_file_descriptor_unsafe : List Descriptor → ℤ → Option Descriptor
get_file_descriptor_unsafe [] fd = none
get_file_descriptor_unsafe (d ∷ ds) fd =
    if id_lt d.id fd
    then get_file_descriptor_unsafe ds fd
    else if id_eq d.id fd
    then some d
    else none

abbrev pub copied : Descriptor → Descriptor
copied d = record d { ref_count = add64 d.ref_count 1 }

-- `vfsFileDescriptorCopy` on a descriptor of the list.
unfoldable pub vfs_file_descriptor_copy : ℕ → List Descriptor → List Descriptor
vfs_file_descriptor_copy a [] = []
vfs_file_descriptor_copy a (d ∷ ds) =
    if d.address == a then copied d ∷ ds else d ∷ vfs_file_descriptor_copy a ds

unfoldable pub get_file_descriptor : ℤ → Resources → Option ℕ × Resources
unfolding get_file_descriptor_unsafe
get_file_descriptor fd r = elim (get_file_descriptor_unsafe r.files fd) [
  | none ↦ (none, r)
  | some d ↦ (some d.address, record r { files = vfs_file_descriptor_copy d.address r.files })
]

-- `vfsFileDescriptorClose` on a descriptor that is in no table any more.
unfoldable pub drop_descriptor : Descriptor → Resources → Resources
unfolding vfs_file_close update sub64
drop_descriptor d r =
    let left = sub64 d.ref_count 1 in
    if left == 0
    then record r { store = vfs_file_close d.file r.store }
    else record r { detached = record d { ref_count = left } ∷ r.detached }

-- The walk of `closeFileDescriptor`: the descriptor taken out, and the list without it.
unfoldable pub unlink : ℤ → List Descriptor → Option Descriptor × List Descriptor
unlink fd [] = (none, [])
unlink fd (d ∷ ds) =
    let (found, rest) = unlink fd ds in
    if id_lt d.id fd
    then (found, d ∷ rest)
    else if id_eq d.id fd
    then (some d, ds)
    else (none, d ∷ ds)

unfoldable pub drop_found : Option Descriptor → Resources → Resources
unfolding drop_descriptor
drop_found none r = r
drop_found (some d) r = drop_descriptor d r

unfoldable pub close_file_descriptor : ℤ → Resources → Resources
unfolding unlink drop_found
close_file_descriptor fd r =
    let (found, rest) = unlink fd r.files in drop_found found (record r { files = rest })

-- Inserts `new` before `ds`, if the assertion of `putNewFileDescriptor` holds there.
unfoldable pub link : Descriptor → List Descriptor → Option (ℕ × List Descriptor)
link new [] = some (new.id, new ∷ [])
link new (d ∷ ds) = if ltb new.id d.id then some (new.id, new ∷ d ∷ ds) else none

abbrev pub behind : Descriptor → Option (ℕ × List Descriptor) → Option (ℕ × List Descriptor)
behind d none = none
behind d (some (n, ds)) = some (n, d ∷ ds)

-- `while (*current != NULL && (*current)->id == fd) { current = &(*current)->next; fd++; }`, and
-- the insertion after it.
unfoldable pub put_at_gap : Descriptor → List Descriptor → Option (ℕ × List Descriptor)
unfolding link
put_at_gap new [] = link new []
put_at_gap new (d ∷ ds) =
    let further = put_at_gap (record new { id = new.id + 1 }) ds in
    if d.id == new.id then behind d further else link new (d ∷ ds)

-- The walk to the given number, and the insertion; with it, what `replace` takes out.
unfoldable pub put_at :
    Bool → Descriptor → List Descriptor → Option (ℕ × List Descriptor) × Option Descriptor
unfolding link put_at_gap
put_at replace new [] = (link new [], none)
put_at replace new (d ∷ ds) =
    let (further, removed) = put_at replace new ds in
    if ltb d.id new.id
    then (behind d further, removed)
    else if d.id == new.id
    then (if replace then (link new ds, some d) else (put_at_gap new (d ∷ ds), none))
    else (link new (d ∷ ds), none)

abbrev pub Put : Type 0
Put = Option (ℕ × Resources)

-- The result of the walk put back into the process.
abbrev pub placed : Option (ℕ × List Descriptor) → Option Descriptor → Resources → Put
placed none removed r = none
placed (some (n, ds)) removed r = some (n, drop_found removed (record r { files = ds }))

abbrev pub new_descriptor : ℕ → ℕ → ℕ → ℕ → Descriptor
new_descriptor fresh id flags file = record {
  address = fresh;
  id = id;
  flags = flags;
  file = file;
  ref_count = 1;
}

unfoldable pub put_new_file_descriptor : ℕ → ℤ → ℕ → ℕ → Bool → Resources → Put
unfolding put_at put_at_gap close_file_descriptor vfs_file_copy
put_new_file_descriptor fresh (negsuc _) flags file replace r =
    let r' = record r { store = vfs_file_copy file r.store } in
    placed (put_at_gap (new_descriptor fresh 0 flags file) r'.files) none r'
put_new_file_descriptor fresh (pos fd) flags file replace r =
    let r' = close_file_descriptor (pos fd) (record r { store = vfs_file_copy file r.store }) in
    let (ds, removed) = put_at replace (new_descriptor fresh fd flags file) r'.files in
    placed ds removed r'
